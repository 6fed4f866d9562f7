-- ===== src/Idsm/Passing.antt =====
-- The order of the filters in `processEvent` of src/IdsM_Manager.cpp: which filters an event has passed
-- where it stops, read off the SEv's state before the event.
use autosar_idsm.Prelude.{
  ℕ, ◌+◌, ◌<◌, ◌≡◌, ◌⊎◌, inl, inr, Bool-cases, Bool, true, false, not, ◌&&◌, ◌||◌, leb, ◌==◌,
  if◌then◌else◌, u32, arith,
}
use autosar_idsm.Idsm.Types.{SevState, OwnedSev, OwnedQsev, Clock, ReportingMode, violation}
use autosar_idsm.Idsm.Filters.{
  Verdict, dropped_off, dropped_block, dropped_sampling, absorbed, dropped_threshold, qualified,
  judge, build_qsev, is_blocked_by_state, pass_forward_every_nth, pass_aggregation, pass_threshold,
  open_threshold_window, chain_sampling, chain_aggregation, chain_threshold, is_off, is_bypassing,
}

abbrev pub runs_filters : ReportingMode → Bool
runs_filters mode = not (is_off mode) && not (is_bypassing mode)

-- Sampling is off, or the counter reaches n with the event.
abbrev pub is_sampled : SevState → ℕ → Bool
is_sampled state count =
    (state.config.forward_every_nth == 0)
    || leb (state.config.forward_every_nth) (u32 (state.nth_counter + count))

-- The threshold is off, or the window, an open one or a new one, reaches it with the event.
abbrev pub reaches_threshold : SevState → ℕ → Bool
reaches_threshold state count =
    (state.config.threshold == 0)
    || leb (state.config.threshold)
        (u32 ((if state.thr_window_open then state.thr_accumulated else 0) + count))

-- What a verdict behind sampling says of the state before.
abbrev PastSampling : SevState → ℕ → Verdict → Type 0
PastSampling state count absorbed = 0 < state.config.aggregation_interval_ms
PastSampling state count dropped_threshold =
    (state.config.aggregation_interval_ms ≡ 0) × (reaches_threshold state count ≡ false)
PastSampling state count (qualified q) =
    (state.config.aggregation_interval_ms ≡ 0) × (reaches_threshold state count ≡ true)
PastSampling state count _ = ⊥

-- What a verdict of the filters behind the block state says of the state before.
abbrev PastBlock : SevState → ℕ → Verdict → Type 0
PastBlock state count dropped_off = ⊥
PastBlock state count dropped_block = ⊥
PastBlock state count dropped_sampling = is_sampled state count ≡ false
PastBlock state count absorbed =
    (is_sampled state count ≡ true) × (0 < state.config.aggregation_interval_ms)
PastBlock state count dropped_threshold =
    (is_sampled state count ≡ true)
    × (state.config.aggregation_interval_ms ≡ 0)
    × (reaches_threshold state count ≡ false)
PastBlock state count (qualified q) =
    (is_sampled state count ≡ true)
    × (state.config.aggregation_interval_ms ≡ 0)
    × (reaches_threshold state count ≡ true)

-- The mode runs the filters, and the block state drops nothing.
abbrev pub IsOpen : ℕ → SevState → Type 0
IsOpen block_state state =
    (runs_filters (state.reporting_mode) ≡ true)
    × (is_blocked_by_state (state.config) block_state ≡ false)

-- What a verdict says of the state before: the filters in front of the one that gives it let the
-- event pass, and that one does not. A bypassing mode qualifies at once.
abbrev pub StopsAt : ℕ → ℕ → SevState → Verdict → Type 0
StopsAt block_state count state dropped_off = is_off (state.reporting_mode) ≡ true
StopsAt block_state count state dropped_block =
    (runs_filters (state.reporting_mode) ≡ true)
    × (is_blocked_by_state (state.config) block_state ≡ true)
StopsAt block_state count state dropped_sampling =
    IsOpen block_state state × (is_sampled state count ≡ false)
StopsAt block_state count state absorbed =
    IsOpen block_state state
    × (is_sampled state count ≡ true)
    × (0 < state.config.aggregation_interval_ms)
StopsAt block_state count state dropped_threshold =
    IsOpen block_state state
    × (is_sampled state count ≡ true)
    × (state.config.aggregation_interval_ms ≡ 0)
    × (reaches_threshold state count ≡ false)
StopsAt block_state count state (qualified q) =
    ((is_bypassing (state.reporting_mode) ≡ true) × (is_off (state.reporting_mode) ≡ false))
    ⊎ (IsOpen block_state state
        × (is_sampled state count ≡ true)
        × (state.config.aggregation_interval_ms ≡ 0)
        × (reaches_threshold state count ≡ true))

pass_threshold-reaches_threshold :
    (state : SevState) (count now : ℕ)
    → (pass_threshold state count now).1 ≡ reaches_threshold state count
unfolding pass_threshold open_threshold_window
pass_threshold-reaches_threshold state count now = ground arith

chain_threshold-PastSampling :
    (now : ℕ) (state : SevState) (q : OwnedQsev)
    → state.config.aggregation_interval_ms ≡ 0
    → PastSampling state (q.count) (chain_threshold now state q).1
unfolding chain_threshold
chain_threshold-PastSampling now state q idle =
    elim (Bool-cases (reaches_threshold state (q.count))) [
      | inl reached ↦
          rw (pass_threshold-reaches_threshold state (q.count) now, reached) (idle, reached)
      | inr below ↦ rw (pass_threshold-reaches_threshold state (q.count) now, below) (idle, below)
    ]

chain_aggregation-PastSampling :
    (c : Clock) (state : SevState) (q : OwnedQsev)
    → PastSampling state (q.count) (chain_aggregation c state q).1
unfolding chain_aggregation pass_aggregation
chain_aggregation-PastSampling c state q =
    elim (Bool-cases (state.config.aggregation_interval_ms == 0)) [
      | inl idle ↦ rw idle (chain_threshold-PastSampling (c.now_ms) state q (ground arith))
      | inr merging ↦ ground arith
    ]

sampled_verdict :
    (state start : SevState) (count : ℕ) (verdict : Verdict)
    → start ≡ record state { nth_counter = start.nth_counter }
    → is_sampled state count ≡ true
    → PastSampling start count verdict
    → PastBlock state count verdict
sampled_verdict state start count dropped_off e t h = h
sampled_verdict state start count dropped_block e t h = h
sampled_verdict state start count dropped_sampling e t h = absurd h
sampled_verdict state start count absorbed e t h = (t, ground (arith, e, h))
sampled_verdict state start count dropped_threshold e t (h, k) =
    (t, ground (arith, e, h), ground (arith, e, k))
sampled_verdict state start count (qualified q) e t (h, k) =
    (t, ground (arith, e, h), ground (arith, e, k))

pub pass_forward_every_nth_counter :
    (state : SevState) (count : ℕ)
    → (pass_forward_every_nth state count).0
      ≡ record state { nth_counter = (pass_forward_every_nth state count).0.nth_counter }
unfolding pass_forward_every_nth
pass_forward_every_nth_counter state count = ground arith

pass_forward_every_nth-is_sampled :
    (state : SevState) (count : ℕ) → (pass_forward_every_nth state count).1 ≡ is_sampled state count
unfolding pass_forward_every_nth
pass_forward_every_nth-is_sampled state count = ground arith

chain_sampling-PastBlock :
    (c : Clock) (state : SevState) (q : OwnedQsev)
    → PastBlock state (q.count) (chain_sampling c state q).1
unfolding chain_sampling
chain_sampling-PastBlock c state q = elim (Bool-cases (is_sampled state (q.count))) [
  | inl passed ↦
      rw (pass_forward_every_nth-is_sampled state (q.count), passed)
        (sampled_verdict state _ (q.count) _ (pass_forward_every_nth_counter state (q.count)) passed
          (chain_aggregation-PastSampling c _ q))
  | inr skipped ↦ rw (pass_forward_every_nth-is_sampled state (q.count), skipped) skipped
]

open_verdict :
    (block_state count : ℕ) (state : SevState) (verdict : Verdict)
    → IsOpen block_state state
    → PastBlock (record state { detection_status = violation }) count verdict
    → StopsAt block_state count state verdict
open_verdict block_state count state dropped_off o h = absurd h
open_verdict block_state count state dropped_block o h = absurd h
open_verdict block_state count state dropped_sampling o h = (o, h)
open_verdict block_state count state absorbed o (t, i) = (o, t, i)
open_verdict block_state count state dropped_threshold o (t, i, b) = (o, t, i, b)
open_verdict block_state count state (qualified q) o (t, i, b) = inr (o, t, i, b)

pub judge-StopsAt :
    (c : Clock) (instance_id block_state : ℕ) (sev : OwnedSev) (state : SevState)
    → StopsAt block_state (sev.count) state (judge c instance_id block_state sev state).1
unfolding judge build_qsev
judge-StopsAt c instance_id block_state sev state =
    elim (Bool-cases (is_off (state.reporting_mode))) [
      | inl silent ↦ rw silent silent
      | inr on ↦ elim (Bool-cases (is_bypassing (state.reporting_mode))) [
        | inl bypassing ↦ rw (on, bypassing) (inl (bypassing, on))
        | inr filtered ↦ elim (Bool-cases (is_blocked_by_state (state.config) block_state)) [
          | inl blocked ↦ rw (on, filtered, blocked) (ground arith, blocked)
          | inr open_ ↦
              rw (on, filtered, open_)
                (open_verdict block_state (sev.count) state _ (ground arith, open_)
                  (chain_sampling-PastBlock c _ _))
        ]
      ]
    ]
