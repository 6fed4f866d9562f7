-- ===== src/IdsRm/Steps.antt =====
-- Every order of calls and thread steps on the reporter of src/IdsRm_Manager.cpp.
use autosar_idsm.Prelude.{ℕ, ◌≡◌, Bool, true, false, Option, List, []}
use autosar_idsm.Idsm.Types.{Qsev, OwnedQsev}
use autosar_idsm.IdsRm.Types.{RmConfig, Reporter, done, no_rm_stats}
use autosar_idsm.IdsRm.Reporter.{
  answered, set_config, reset_rm_stats, set_enabled, register_sink, run_worker, start_worker,
  start_sink, set_initialized, join_worker, run_sink, join_sink, sink_close, enable, disable,
  set_soc_url, set_auth_token, set_local_sink, on_qsev, push_event, tee, count_received, drop_event,
}
use autosar_idsm.IdsRm.Posting.{deliver, post_with_retry, take_all, sink_round}

-- One step. Init, DeInit and OnQsev lock no mutex over their whole bodies, so each of their sections is
-- a step, and the sections come in any order: those of several calls interleave freely, in the order of
-- the code or not. `tee_late` is the tee of an OnQsev that has seen the sink run and takes the lock only
-- now. Every other call, what the worker does with one event and a round of the sink thread are one
-- step each.
pub data RmStep : Reporter → Reporter → Type 0 where
  configure : (r : Reporter) (config : RmConfig) → RmStep r (set_config config r)
  clear : (r : Reporter) → RmStep r (reset_rm_stats r)
  store_enabled : (r : Reporter) (on : Bool) → RmStep r (set_enabled on r)
  register : (r : Reporter) (on : Bool) → RmStep r (register_sink on r)
  store_worker : (r : Reporter) (on : Bool) → RmStep r (run_worker on r)
  begin_worker : (r r' : Reporter) → start_worker r ≡ answered done r' → RmStep r r'
  begin_sink : (r r' : Reporter) → start_sink r ≡ answered done r' → RmStep r r'
  store_initialized : (r : Reporter) (on : Bool) → RmStep r (set_initialized on r)
  halt_worker : (r : Reporter) → RmStep r (join_worker r)
  store_sink : (r : Reporter) (on : Bool) → RmStep r (run_sink on r)
  halt_sink : (r : Reporter) → RmStep r (join_sink r)
  close : (r : Reporter) → RmStep r (sink_close r)
  relocate :
      (r r' : Reporter) (path : List ℕ) → set_local_sink path r ≡ answered done r' → RmStep r r'
  turn_on : (r : Reporter) → RmStep r (enable r).0
  turn_off : (r : Reporter) → RmStep r (disable r).0
  new_url : (r : Reporter) (url : Option (List ℕ)) → RmStep r (set_soc_url url r).0
  new_token : (r : Reporter) (token : Option (List ℕ)) → RmStep r (set_auth_token token r).0
  receive : (r : Reporter) (q : Qsev) → RmStep r (on_qsev q r)
  refuse : (r : Reporter) → RmStep r (drop_event r)
  push : (r : Reporter) (q : OwnedQsev) → RmStep r (push_event q r)
  tee_event : (r : Reporter) (q : OwnedQsev) → RmStep r (tee q r)
  tee_late :
      (r : Reporter) (q : OwnedQsev)
      → RmStep r
          (record (tee q (record r { sink_running = true })) { sink_running = r.sink_running })
  count_event : (r : Reporter) → RmStep r (count_received r)
  take_batch : (r : Reporter) → RmStep r (take_all r)
  post : (r : Reporter) (answers : ℕ → Bool) → RmStep r (deliver answers r)
  post_last : (r : Reporter) (answers : ℕ → Bool) → RmStep r (post_with_retry answers r)
  write_out : (r : Reporter) (connects writes : Bool) → RmStep r (sink_round connects writes r)

pub data RmReach (r : Reporter) : Reporter → Type 0 where
  at_start : RmReach r r
  after : {s t : Reporter} → RmReach r s → RmStep s t → RmReach r t

-- The singleton before the first Init.
abbrev pub idle_reporter : Reporter
idle_reporter = record {
  initialized = false;
  enabled = false;
  registered = false;
  worker_running = false;
  worker_joinable = false;
  event_queue = [];
  soc_url = [];
  auth_token = [];
  timeout_ms = 5000;
  retry_count = 3;
  stats = no_rm_stats;
  sink_running = false;
  sink_joinable = false;
  sink_queue = [];
  sink_path = [];
  sink_connected = false;
}
