-- ===== src/Idsm/Accounting.antt =====
-- The drop counters of src/IdsM_Manager.cpp against the verdicts of a batch.
use autosar_idsm.Prelude.{
  ℕ, ◌+◌, ◌<◌, ◌≡◌, ◌∙◌, refl, Option, none, some, List, [], ◌∷◌, get_elem?, Option-cases, inl, inr,
  u32, arith,
}
use autosar_idsm.Idsm.Types.{SevConfig, OwnedSev, OwnedQsev, Clock, Stats, Manager}
use autosar_idsm.Idsm.Filters.{
  Verdict, dropped_off, dropped_block, dropped_sampling, dropped_threshold, qualified, judge,
}
use autosar_idsm.Idsm.Manager.{
  process_event, settle, qualify, dispatch_qsev, send_to_dem, send_to_idsr,
}

-- Step 2 of `worker_loop`: each event of the batch, with the clock readings of its call.
unfoldable pub process_batch : List (Clock × OwnedSev) → Manager → Manager
process_batch [] m = m
process_batch ((c, event) ∷ batch) m = process_batch batch (process_event c event m)

-- The verdict on an event, if its SEv is configured.
unfoldable pub verdict_of : Clock → OwnedSev → Manager → Option Verdict
verdict_of c event m = elim (get_elem? (m.sevs) (event.security_event_id)) [
  | none ↦ none
  | some state ↦ some ((judge c (m.idsm_instance_id) (m.block_state) event state).1)
]

unfoldable pub verdicts : List (Clock × OwnedSev) → Manager → List (Option Verdict)
verdicts [] m = []
verdicts ((c, event) ∷ batch) m = verdict_of c event m ∷ verdicts batch (process_event c event m)

-- A kind of verdict that the statistics count.
pub data Kind : Type 0 where
  by_mode by_block by_sampling by_threshold passed : Kind

abbrev pub is_kind : Kind → Option Verdict → ℕ
is_kind by_mode (some dropped_off) = 1
is_kind by_block (some dropped_block) = 1
is_kind by_sampling (some dropped_sampling) = 1
is_kind by_threshold (some dropped_threshold) = 1
is_kind passed (some (qualified q)) = 1
is_kind _ _ = 0

-- The counter of a kind.
abbrev pub counter : Kind → Stats → ℕ
counter by_mode s = s.dropped_reporting_off
counter by_block s = s.dropped_block_state
counter by_sampling s = s.dropped_sampling
counter by_threshold s = s.dropped_threshold
counter passed s = s.events_qualified

unfoldable pub occurrences : Kind → List (Option Verdict) → ℕ
occurrences k [] = 0
occurrences k (v ∷ vs) = is_kind k v + occurrences k vs

dispatch_qsev-counter :
    (k : Kind) (config : SevConfig) (q : OwnedQsev) (m : Manager)
    → counter k ((dispatch_qsev config q m).stats) ≡ counter k (m.stats)
unfolding dispatch_qsev send_to_dem send_to_idsr
dispatch_qsev-counter by_mode config q m = ground arith
dispatch_qsev-counter _ config q m = ground arith

bump_qualified-counter :
    (k : Kind) (q : OwnedQsev) (s : Stats)
    → counter k s < 4294967296
    → counter k (record s { events_qualified = u32 (s.events_qualified + 1) })
      ≡ u32 (counter k s + is_kind k (some (qualified q)))
bump_qualified-counter passed q s h = refl
bump_qualified-counter by_mode q s h = omega arith
bump_qualified-counter by_block q s h = omega arith
bump_qualified-counter by_sampling q s h = omega arith
bump_qualified-counter by_threshold q s h = omega arith

settle-counter :
    (k : Kind) (config : SevConfig) (v : Verdict) (m : Manager)
    → counter k (m.stats) < 4294967296
    → counter k ((settle config v m).stats) ≡ u32 (counter k (m.stats) + is_kind k (some v))
unfolding settle qualify
settle-counter k config (qualified q) m h =
    dispatch_qsev-counter k config q _ ∙ bump_qualified-counter k q (m.stats) h
settle-counter k config dropped_off m h = ground arith
settle-counter k config _ m h = ground arith

is_kind-none : (k : Kind) → is_kind k none ≡ 0
is_kind-none by_mode = refl
is_kind-none _ = refl

process_event-counter :
    (k : Kind) (c : Clock) (event : OwnedSev) (m : Manager)
    → counter k (m.stats) < 4294967296
    → counter k ((process_event c event m).stats)
      ≡ u32 (counter k (m.stats) + is_kind k (verdict_of c event m))
unfolding process_event verdict_of
process_event-counter k c event m h =
    elim (Option-cases (get_elem? (m.sevs) (event.security_event_id))) [
      | inl absent ↦ rw (absent, process_event, verdict_of) (omega (arith, is_kind-none k))
      | inr (state, found) ↦
          rw (found, process_event, verdict_of) (settle-counter k (state.config) _ _ h)
    ]

-- Over a batch of any length, each statistic of processing (32 bits) grows by exactly the number of
-- events that got the verdict it counts, modulo 2^32. Events of no configured SEv, and events that
-- an aggregation window absorbs, are in none of them.
pub process_batch-counter :
    (k : Kind) (batch : List (Clock × OwnedSev)) (m : Manager)
    → counter k (m.stats) < 4294967296
    → counter k ((process_batch batch m).stats)
      ≡ u32 (counter k (m.stats) + occurrences k (verdicts batch m))
unfolding process_batch verdicts occurrences
process_batch-counter k [] m h = omega arith
process_batch-counter k ((c, event) ∷ batch) m h = omega (
  arith,
  process_event-counter k c event m h,
  process_batch-counter k batch (process_event c event m)
      (omega (arith, process_event-counter k c event m h)),
)
