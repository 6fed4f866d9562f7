-- ===== src/Idsm/Filters.antt =====
-- The filter chain of src/IdsM_Manager.cpp: each filter returns the SEv state that it leaves and
-- whether the event passes.
use autosar_idsm.Prelude.{
  ℕ, zero, suc, ◌+◌, ◌%◌, Bool, true, false, not, ◌||◌, none, some, List, [], ◌∷◌, ltb, leb, ◌==◌,
  if◌then◌else◌, u16, u32,
}
use autosar_idsm.Idsm.Types.{
  SevConfig, SevState, OwnedSev, OwnedQsev, Clock, Timestamp, ReportingMode, off, brief,
  brief_bypassing, detailed_bypassing, out_of_range, violation, autosar,
}

-- `for (i = 0; i < num; ++i) if (blocked[i] == state) return true;` The array ends the scan: a
-- count above its length makes the source read out of bounds.
unfoldable pub scan_blocked : ℕ → List ℕ → ℕ → Bool
scan_blocked zero blocked state = false
scan_blocked (suc n) [] state = false
scan_blocked (suc n) (b ∷ blocked) state = (b == state) || scan_blocked n blocked state

-- isBlockedByState
unfoldable pub is_blocked_by_state : SevConfig → ℕ → Bool
is_blocked_by_state config state = elim (config.block_state) [
  | none ↦ false
  | some cfg ↦ scan_blocked (cfg.num_blocked_states) (cfg.blocked_states) state
]

-- passForwardEveryNth
unfoldable pub pass_forward_every_nth : SevState → ℕ → SevState × Bool
pass_forward_every_nth sev count =
    let n = sev.config.forward_every_nth in
    let accumulated = u32 (sev.nth_counter + count) in
    if n == 0
    then (sev, true)
    else if leb n accumulated
    then (record sev { nth_counter = 0 }, true)
    else (record sev { nth_counter = u16 accumulated }, false)

-- The count of a staged aggregate saturates.
unfoldable pub merge_counts : ℕ → ℕ → ℕ
merge_counts staged count =
    let merged = u32 (staged + count) in if ltb 65535 merged then 65535 else u16 merged

abbrev pub is_empty : List ℕ → Bool
is_empty [] = true
is_empty (x ∷ xs) = false

-- passAggregation; `now` is its own reading of `nowMs()`.
unfoldable pub pass_aggregation : SevState → OwnedQsev → ℕ → SevState × Bool
unfolding merge_counts
pass_aggregation sev qsev now =
    if sev.config.aggregation_interval_ms == 0 then (sev, true) else elim (sev.agg_pending) [
      | none ↦ (
        record sev {
          agg_pending = some qsev;
          agg_has_context = not (is_empty (qsev.context_data));
          agg_window_start_ms = now;
        },
        false,
      )
      | some staged ↦ (
        record sev {
          agg_pending = some (record staged { count = merge_counts (staged.count) (qsev.count) });
        },
        false,
      )
    ]

-- The window opens with the first event that is evaluated.
unfoldable pub open_threshold_window : SevState → ℕ → SevState
open_threshold_window sev now =
    if sev.thr_window_open
    then sev
    else record sev { thr_window_open = true; thr_window_start_ms = now; thr_accumulated = 0 }

-- passThreshold
unfoldable pub pass_threshold : SevState → ℕ → ℕ → SevState × Bool
unfolding open_threshold_window
pass_threshold sev count now =
    if sev.config.threshold == 0
    then (sev, true)
    else let opened = open_threshold_window sev now in
      let accumulated = u32 (opened.thr_accumulated + count) in
      (record opened { thr_accumulated = accumulated }, leb (sev.config.threshold) accumulated)

abbrev pub is_brief : ReportingMode → Bool
is_brief brief = true
is_brief brief_bypassing = true
is_brief _ = false

abbrev pub is_bypassing : ReportingMode → Bool
is_bypassing brief_bypassing = true
is_bypassing detailed_bypassing = true
is_bypassing _ = false

abbrev pub is_off : ReportingMode → Bool
is_off off = true
is_off _ = false

-- `mode > IDSM_REPORTING_DETAILED_BYPASSING_FILTERS`
abbrev pub is_out_of_range : ReportingMode → Bool
is_out_of_range (out_of_range n) = true
is_out_of_range _ = false

-- makeInternalTimestamp; the mask 0x3FFFFFFF keeps 30 bits.
unfoldable pub make_internal_timestamp : Clock → Timestamp
make_internal_timestamp c = record {
  seconds = u32 (c.system_seconds);
  nanoseconds = u32 (c.system_nanoseconds) % 1073741824;
  source = autosar;
}

-- The QSEv that `processEvent` builds.
unfoldable pub build_qsev : Clock → ℕ → SevState → OwnedSev → OwnedQsev
unfolding make_internal_timestamp
build_qsev c instance_id state sev = record {
  idsm_instance_id = instance_id;
  external_event_id = state.config.external_event_id;
  sensor_instance_id = state.config.sensor_instance_id;
  severity = state.config.severity;
  count = sev.count;
  has_timestamp = true;
  timestamp = if sev.has_timestamp then sev.timestamp else make_internal_timestamp c;
  context_data_version = sev.context_data_version;
  context_data = if is_brief (state.reporting_mode) then [] else sev.context_data;
}

-- What became of one event: the early returns of `processEvent`, and the QSEv that it qualifies.
pub data Verdict : Type 0 where
  dropped_off dropped_block dropped_sampling absorbed dropped_threshold : Verdict
  qualified : OwnedQsev → Verdict

-- The last filter.
unfoldable pub chain_threshold : ℕ → SevState → OwnedQsev → SevState × Verdict
chain_threshold now state qsev =
    let (next, passes) = pass_threshold state (qsev.count) now in
    (next, if passes then qualified qsev else dropped_threshold)

unfoldable pub chain_aggregation : Clock → SevState → OwnedQsev → SevState × Verdict
chain_aggregation c state qsev =
    let (next, passes) = pass_aggregation state qsev (c.staged_ms) in
    if passes then chain_threshold (c.now_ms) next qsev else (next, absorbed)

unfoldable pub chain_sampling : Clock → SevState → OwnedQsev → SevState × Verdict
chain_sampling c state qsev =
    let (next, passes) = pass_forward_every_nth state (qsev.count) in
    if passes then chain_aggregation c next qsev else (next, dropped_sampling)

-- The body of `processEvent` on the SEv's state: reporting mode, then block state, forward every
-- nth, aggregation and threshold in this order.
unfoldable pub judge : Clock → ℕ → ℕ → OwnedSev → SevState → SevState × Verdict
judge c instance_id block_state sev state =
    let marked = record state { detection_status = violation } in
    let qsev = build_qsev c instance_id state sev in
    if is_off (state.reporting_mode)
    then (state, dropped_off)
    else if is_bypassing (state.reporting_mode)
    then (marked, qualified qsev)
    else if is_blocked_by_state (state.config) block_state
    then (marked, dropped_block)
    else chain_sampling c marked qsev
