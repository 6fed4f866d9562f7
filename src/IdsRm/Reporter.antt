-- ===== src/IdsRm/Reporter.antt =====
-- The operations of src/IdsRm_Manager.cpp and the pointer checks of src/IdsRm.c.
use autosar_idsm.Prelude.{
  ℕ, zero, suc, ◌+◌, Bool, true, false, not, ◌&&◌, Option, none, some, List, [], ◌∷◌, ◌++◌, take,
  length, ltb, leb, ◌==◌, if◌then◌else◌, u32,
}
use autosar_idsm.Idsm.Types.{OwnedQsev, Qsev}
use autosar_idsm.Idsm.Filters.{is_empty}
use autosar_idsm.IdsRm.Types.{
  RmReturn, done, null_pointer, not_initialized, RmConfig, Reporter, no_rm_stats,
}

-- A call returns, or ends the process: assigning a new thread to one that is joinable calls
-- std::terminate.
pub data RmResult : Type 0 where
  answered : RmReturn → Reporter → RmResult
  aborted : RmResult

-- strnlen
unfoldable pub strnlen : List ℕ → ℕ → ℕ
strnlen chars zero = 0
strnlen [] (suc n) = 0
strnlen (c ∷ chars) (suc n) = let rest = strnlen chars n in if c == 0 then 0 else suc rest

-- `std::string(s, strnlen(s, n))`
abbrev pub bounded_string : List ℕ → ℕ → List ℕ
bounded_string chars n = take (strnlen chars n) chars

-- What Init does, one section after the other: the configuration under its mutex (the statistics under
-- theirs are `reset_rm_stats`), the stores, the two threads (that of the sink under its mutex).
unfoldable pub set_config : RmConfig → Reporter → Reporter
set_config config r = record r {
  soc_url = bounded_string (config.soc_url) 255;
  auth_token = bounded_string (config.auth_token) 511;
  timeout_ms = config.timeout_ms;
  retry_count = if leb (config.retry_count) 10 then config.retry_count else 10;
}

unfoldable pub reset_rm_stats : Reporter → Reporter
reset_rm_stats r = record r { stats = no_rm_stats }

unfoldable pub set_enabled : Bool → Reporter → Reporter
set_enabled on r = record r { enabled = on }

unfoldable pub register_sink : Bool → Reporter → Reporter
register_sink on r = record r { registered = on }

unfoldable pub run_worker : Bool → Reporter → Reporter
run_worker on r = record r { worker_running = on }

unfoldable pub start_worker : Reporter → RmResult
start_worker r =
    if r.worker_joinable then aborted else answered done (record r { worker_joinable = true })

unfoldable pub start_sink : Reporter → RmResult
start_sink r =
    if is_empty (r.sink_path)
    then answered done r
    else if r.sink_joinable
    then aborted
    else answered done (record r { sink_running = true; sink_joinable = true })

unfoldable pub set_initialized : Bool → Reporter → Reporter
set_initialized on r = record r { initialized = on }

-- What DeInit does besides such stores: the two joins, the store that stops the sink thread, and
-- sink_close.
unfoldable pub join_worker : Reporter → Reporter
join_worker r = record r { worker_joinable = false }

unfoldable pub run_sink : Bool → Reporter → Reporter
run_sink on r = record r { sink_running = on }

unfoldable pub join_sink : Reporter → Reporter
join_sink r = record r { sink_joinable = false }

unfoldable pub sink_close : Reporter → Reporter
sink_close r = record r { sink_connected = false }

-- Enable, Disable and IsEnabled.
unfoldable pub enable : Reporter → Reporter × RmReturn
enable r = if r.initialized then (record r { enabled = true }, done) else (r, not_initialized)

unfoldable pub disable : Reporter → Reporter × RmReturn
disable r = if r.initialized then (record r { enabled = false }, done) else (r, not_initialized)

unfoldable pub is_enabled : Reporter → Bool
is_enabled r = r.initialized && r.enabled

-- SetSocUrl and SetAuthToken, with a NULL argument or not.
unfoldable pub set_soc_url : Option (List ℕ) → Reporter → Reporter × RmReturn
set_soc_url none r = (r, null_pointer)
set_soc_url (some url) r =
    if r.initialized
    then (record r { soc_url = bounded_string url 255 }, done)
    else (r, not_initialized)

unfoldable pub set_auth_token : Option (List ℕ) → Reporter → Reporter × RmReturn
set_auth_token none r = (r, null_pointer)
set_auth_token (some token) r =
    if r.initialized
    then (record r { auth_token = bounded_string token 511 }, done)
    else (r, not_initialized)

-- SetLocalSink; NULL is the empty path.
unfoldable pub set_local_sink : List ℕ → Reporter → RmResult
set_local_sink path r =
    let p = bounded_string path 107 in
    let named : Reporter = record r { sink_path = p } in
    if not (r.initialized)
    then answered done named
    else if not (is_empty p) && not (r.sink_running)
    then if r.sink_joinable
      then aborted
      else answered done (record named { sink_running = true; sink_joinable = true })
    else if is_empty p && r.sink_running
    then answered done (record named { sink_running = false })
    else answered done named

-- The deep copy of OnQsev.
unfoldable pub from_c : Qsev → OwnedQsev
from_c q = record {
  idsm_instance_id = q.idsm_instance_id;
  external_event_id = q.external_event_id;
  sensor_instance_id = q.sensor_instance_id;
  severity = q.severity;
  count = q.count;
  has_timestamp = q.has_timestamp;
  timestamp = q.timestamp;
  context_data_version = q.context_data_version;
  context_data = elim (q.context_data) [
    | none ↦ []
    | some bytes ↦ if ltb 0 (q.context_data_size) then take (q.context_data_size) bytes else []
  ];
}

-- `m_stats.events_dropped++;`
unfoldable pub drop_event : Reporter → Reporter
drop_event r = record r {
  stats = record (r.stats) { events_dropped = u32 (r.stats.events_dropped + 1) };
}

-- The tee to the local sink.
unfoldable pub tee : OwnedQsev → Reporter → Reporter
unfolding drop_event
tee q r =
    if not (r.sink_running)
    then r
    else if ltb (length (r.sink_queue)) 512
    then record r { sink_queue = r.sink_queue ++ (q ∷ []) }
    else drop_event r

-- The section of OnQsev under the mutex of the queue.
unfoldable pub push_event : OwnedQsev → Reporter → Reporter
unfolding drop_event
push_event q r =
    if leb 128 (length (r.event_queue))
    then drop_event r
    else record r { event_queue = r.event_queue ++ (q ∷ []) }

-- The last section of OnQsev.
unfoldable pub count_received : Reporter → Reporter
count_received r = record r {
  stats = record (r.stats) { events_received = u32 (r.stats.events_received + 1) };
}

-- OnQsev as one thread runs it when no other changes the reporter meanwhile.
unfoldable pub on_qsev : Qsev → Reporter → Reporter
on_qsev qsev r =
    let q = from_c qsev in
    let teed = tee q (record r { event_queue = r.event_queue ++ (q ∷ []) }) in
    if not (r.enabled)
    then drop_event r
    else if leb 128 (length (r.event_queue))
    then drop_event r
    else record teed {
      stats = record (teed.stats) { events_received = u32 (teed.stats.events_received + 1) };
    }
