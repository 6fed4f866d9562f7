-- ===== src/Idsm/Threshold.antt =====
-- What the event threshold filter lets through within one window (passThreshold of
-- src/IdsM_Manager.cpp).
use native.Mathlib.Nat.{add_assoc}
use autosar_idsm.Prelude.{
  ℕ, zero, suc, ◌+◌, ◌<◌, ◌≡◌, Bool, true, false, some, List, [], ◌∷◌, length, take, get_elem?, leb,
  arith,
}
use autosar_idsm.Idsm.Types.{SevState}
use autosar_idsm.Idsm.Filters.{pass_threshold}
use autosar_idsm.Idsm.Sampling.{total}

-- The answers of the filter to events with the given arrival times and counts, with no expiry between.
unfoldable pub thresholded : SevState → List (ℕ × ℕ) → List Bool
thresholded sev [] = []
thresholded sev ((now, count) ∷ rest) =
    let (next, passes) = pass_threshold sev count now in passes ∷ thresholded next rest

unfoldable pub counts_of : List (ℕ × ℕ) → List ℕ
counts_of [] = []
counts_of ((now, count) ∷ rest) = count ∷ counts_of rest

-- One event in an open window: the state it leaves, and its answer.
pass_threshold_open :
    (sev : SevState) (count now : ℕ)
    → 0 < sev.config.threshold
    → sev.thr_window_open ≡ true
    → sev.thr_accumulated + count < 4294967296
    → pass_threshold sev count now ≡ (
      record sev { thr_accumulated = sev.thr_accumulated + count },
      leb (sev.config.threshold) (sev.thr_accumulated + count),
    )
unfolding pass_threshold
pass_threshold_open sev count now t o fits = ground arith

thresholded_open :
    (sev : SevState) (events : List (ℕ × ℕ)) (i : ℕ)
    → 0 < sev.config.threshold
    → sev.thr_window_open ≡ true
    → sev.thr_accumulated + total (counts_of events) < 4294967296
    → i < length events
    → get_elem? (thresholded sev events) i
      ≡ some (
          leb
            (sev.config.threshold)
            (sev.thr_accumulated + total (take (suc i) (counts_of events))))
unfolding thresholded counts_of total
thresholded_open sev [] i t o fits h = absurd (omega arith)
thresholded_open sev ((now, count) ∷ rest) zero t o fits h =
    ground (arith, pass_threshold_open sev count now)
thresholded_open sev ((now, count) ∷ rest) (suc i) t o fits h = ground (
  arith,
  pass_threshold_open sev count now,
  thresholded_open (record sev { thr_accumulated = sev.thr_accumulated + count }) rest i,
  add_assoc (sev.thr_accumulated) count (total (take (suc i) (counts_of rest))),
)

pass_threshold_first :
    (sev : SevState) (count now : ℕ)
    → 0 < sev.config.threshold
    → sev.thr_window_open ≡ false
    → count < 4294967296
    → pass_threshold sev count now ≡ (
      record sev { thr_accumulated = count; thr_window_open = true; thr_window_start_ms = now },
      leb (sev.config.threshold) count,
    )
unfolding pass_threshold
pass_threshold_first sev count now t o fits = ground arith

-- With a threshold configured and no window open, and with occurrences that add up below 2^32, event
-- i of the window passes exactly when the occurrences up to and with it reach the threshold.
pub thresholded_lem :
    (sev : SevState) (events : List (ℕ × ℕ)) (i : ℕ)
    → 0 < sev.config.threshold
    → sev.thr_window_open ≡ false
    → total (counts_of events) < 4294967296
    → i < length events
    → get_elem? (thresholded sev events) i
      ≡ some (leb (sev.config.threshold) (total (take (suc i) (counts_of events))))
unfolding thresholded counts_of total
thresholded_lem sev [] i t o fits h = absurd (omega arith)
thresholded_lem sev ((now, count) ∷ rest) zero t o fits h =
    ground (arith, pass_threshold_first sev count now)
thresholded_lem sev ((now, count) ∷ rest) (suc i) t o fits h = ground (
  arith,
  pass_threshold_first sev count now,
  thresholded_open
      (record sev { thr_accumulated = count; thr_window_open = true; thr_window_start_ms = now })
      rest i,
)
