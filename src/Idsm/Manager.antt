-- ===== src/Idsm/Manager.antt =====
-- `dispatchQsev`, `processEvent` and `expireWindows` of src/IdsM_Manager.cpp. Each runs with the
-- manager's mutex held, so each is one function on its members.
use autosar_idsm.Prelude.{
  ℕ, ◌+◌, false, ◌||◌, Option, none, some, List, [], ◌∷◌, ◌++◌, get_elem?, set, length, ltb, leb,
  ◌==◌, if◌then◌else◌, u16, u32,
}
use autosar_idsm.Idsm.Types.{SevConfig, SevState, OwnedSev, OwnedQsev, Clock, Manager, Qsev}
use autosar_idsm.Idsm.Filters.{
  Verdict, dropped_off, dropped_block, dropped_sampling, absorbed, dropped_threshold, qualified,
  judge, pass_threshold, is_empty,
}

-- IdsM_OwnedQSEv::to_c: an empty vector becomes a NULL pointer, and the size is cut to 16 bits.
unfoldable pub to_c : OwnedQsev → Qsev
to_c q = record {
  idsm_instance_id = q.idsm_instance_id;
  external_event_id = q.external_event_id;
  sensor_instance_id = q.sensor_instance_id;
  severity = q.severity;
  count = q.count;
  has_timestamp = q.has_timestamp;
  timestamp = q.timestamp;
  context_data_version = q.context_data_version;
  context_data = if is_empty (q.context_data) then none else some (q.context_data);
  context_data_size = u16 (length (q.context_data));
}

-- `if (sink && cb) { sent++; cb(&qsev); }`, once for each sink.
unfoldable pub send_to_dem : SevConfig → Qsev → Manager → Manager
send_to_dem config qsev m = elim (m.dem_cb) [
  | none ↦ m
  | some cb ↦
      if config.sink_to_dem
      then record m {
        stats = record (m.stats) { sent_to_dem = u32 (m.stats.sent_to_dem + 1) };
        sent = m.sent ++ (record { callback = cb; event = qsev } ∷ []);
      }
      else m
]

unfoldable pub send_to_idsr : SevConfig → Qsev → Manager → Manager
send_to_idsr config qsev m = elim (m.idsr_cb) [
  | none ↦ m
  | some cb ↦
      if config.sink_to_idsr
      then record m {
        stats = record (m.stats) { sent_to_idsr = u32 (m.stats.sent_to_idsr + 1) };
        sent = m.sent ++ (record { callback = cb; event = qsev } ∷ []);
      }
      else m
]

-- dispatchQsev
unfoldable pub dispatch_qsev : SevConfig → OwnedQsev → Manager → Manager
dispatch_qsev config qsev m = send_to_idsr config (to_c qsev) (send_to_dem config (to_c qsev) m)

-- `m_stats.events_qualified++; dispatchQsev(state, qsev);`
unfoldable pub qualify : SevConfig → OwnedQsev → Manager → Manager
qualify config qsev m = dispatch_qsev config qsev (record m {
  stats = record (m.stats) { events_qualified = u32 (m.stats.events_qualified + 1) };
})

-- The counter that each early return of `processEvent` bumps.
unfoldable pub settle : SevConfig → Verdict → Manager → Manager
settle config dropped_off m = record m {
  stats = record (m.stats) { dropped_reporting_off = u32 (m.stats.dropped_reporting_off + 1) };
}
settle config dropped_block m = record m {
  stats = record (m.stats) { dropped_block_state = u32 (m.stats.dropped_block_state + 1) };
}
settle config dropped_sampling m = record m {
  stats = record (m.stats) { dropped_sampling = u32 (m.stats.dropped_sampling + 1) };
}
settle config absorbed m = m
settle config dropped_threshold m = record m {
  stats = record (m.stats) { dropped_threshold = u32 (m.stats.dropped_threshold + 1) };
}
settle config (qualified qsev) m = qualify config qsev m

-- processEvent
unfoldable pub process_event : Clock → OwnedSev → Manager → Manager
process_event c sev m = elim (get_elem? (m.sevs) (sev.security_event_id)) [
  | none ↦ m
  | some state ↦
      let (next, verdict) = judge c (m.idsm_instance_id) (m.block_state) sev state in
      settle (state.config) verdict (record m { sevs = set (m.sevs) (sev.security_event_id) next })
]

-- A staged aggregate leaves its window: the threshold filter decides, and what passes is qualified.
-- What does not pass is dropped with no counter.
unfoldable pub release : ℕ → SevState → OwnedQsev → SevState × Option OwnedQsev
release now state staged =
    let closed = record state { agg_pending = none; agg_has_context = false } in
    let (next, passes) = pass_threshold closed (staged.count) now in
    (next, if passes then some staged else none)

-- `if (next_deadline == 0 || deadline < next_deadline) next_deadline = deadline;`
abbrev pub earliest : ℕ → ℕ → ℕ
earliest next deadline = if (next == 0) || ltb deadline next then deadline else next

-- The threshold half of the loop body of `expireWindows`: the state and the next deadline.
unfoldable pub expire_threshold : ℕ → ℕ → SevState → SevState × ℕ
expire_threshold now next state =
    let deadline = u32 (state.thr_window_start_ms + state.config.threshold_interval_ms) in
    if state.thr_window_open
    then if leb deadline now
      then (record state { thr_window_open = false; thr_accumulated = 0 }, next)
      else (state, earliest next deadline)
    else (state, next)

-- The loop body of `expireWindows` on one SEv: its state, the next deadline, and the QSEv that is
-- qualified now. After a release the source goes on with the next SEv (`continue`).
unfoldable pub expire_sev : ℕ → ℕ → SevState → SevState × ℕ × Option OwnedQsev
expire_sev now next state =
    let deadline = u32 (state.agg_window_start_ms + state.config.aggregation_interval_ms) in
    let (waiting, later) = expire_threshold now (earliest next deadline) state in
    let (plain, same) = expire_threshold now next state in
    elim (state.agg_pending) [
      | none ↦ (plain, same, none)
      | some staged ↦
          let (released, out) = release now state staged in
          if state.config.aggregation_interval_ms == 0
          then (plain, same, none)
          else if leb deadline now
          then (released, next, out)
          else (waiting, later, none)
    ]

abbrev pub qualify_some : SevConfig → Option OwnedQsev → Manager → Manager
qualify_some config none m = m
qualify_some config (some qsev) m = qualify config qsev m

-- The loop of `expireWindows` over the SEvs that are left. It returns the states in order, the next
-- deadline, and the manager after the sink calls.
unfoldable pub expire_loop : ℕ → ℕ → List SevState → Manager → List SevState × ℕ × Manager
expire_loop now next [] m = ([], next, m)
expire_loop now next (state ∷ states) m =
    let (state', next', out) = expire_sev now next state in
    let (states', deadline, m') =
      expire_loop now next' states (qualify_some (state.config) out m) in
    (state' ∷ states', deadline, m')

-- expireWindows
unfoldable pub expire_windows : ℕ → Manager → Manager × ℕ
expire_windows now m =
    let (states, deadline, m') = expire_loop now 0 (m.sevs) m in
    (record m' { sevs = states }, deadline)
