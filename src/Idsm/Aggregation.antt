-- ===== src/Idsm/Aggregation.antt =====
-- What an aggregation window makes of the events in it (passAggregation and expireWindows of
-- src/IdsM_Manager.cpp).
use Prim.Native.Nat.{min}
use autosar_idsm.Prelude.{
  ℕ, ◌+◌, ◌<◌, ◌≡◌, false, not, none, some, List, [], ◌∷◌, All, leb, if◌then◌else◌, arith,
}
use autosar_idsm.Idsm.Types.{SevState, OwnedQsev}
use autosar_idsm.Idsm.Filters.{pass_aggregation, pass_threshold, merge_counts, is_empty}
use autosar_idsm.Idsm.Manager.{expire_sev, expire_threshold, release}
use autosar_idsm.Idsm.Sampling.{total}

-- The events of one window, one after the other, each with its own reading of the clock.
unfoldable pub absorb : SevState → List (ℕ × OwnedQsev) → SevState
absorb sev [] = sev
absorb sev ((now, qsev) ∷ rest) = absorb (pass_aggregation sev qsev now).0 rest

unfoldable pub qsev_counts : List (ℕ × OwnedQsev) → List ℕ
qsev_counts [] = []
qsev_counts ((now, qsev) ∷ rest) = qsev.count ∷ qsev_counts rest

merge_counts-min : (a b : ℕ) → a < 65536 → b < 65536 → merge_counts a b ≡ min 65535 (a + b)
unfolding merge_counts
merge_counts-min a b ha hb = ground arith

min_merge : (a b t : ℕ) → min 65535 (min 65535 (a + b) + t) ≡ min 65535 (a + (b + t))
min_merge a b t = omega arith

pass_aggregation_more :
    (sev : SevState) (staged qsev : OwnedQsev) (now : ℕ)
    → 0 < sev.config.aggregation_interval_ms
    → sev.agg_pending ≡ some staged
    → pass_aggregation sev qsev now ≡ (
      record sev {
        agg_pending = some (record staged { count = merge_counts (staged.count) (qsev.count) });
      },
      false,
    )
unfolding pass_aggregation
pass_aggregation_more sev staged qsev now i p = ground arith

absorb_more :
    (sev : SevState) (staged : OwnedQsev) (events : List (ℕ × OwnedQsev))
    → 0 < sev.config.aggregation_interval_ms
    → sev.agg_pending ≡ some staged
    → staged.count < 65536
    → All (λ c. c < 65536) (qsev_counts events)
    → absorb sev events ≡ record sev {
      agg_pending =
          some (record staged { count = min 65535 (staged.count + total (qsev_counts events)) });
    }
unfolding absorb qsev_counts total
absorb_more sev staged [] i p h all = ground arith
absorb_more sev staged ((now, qsev) ∷ rest) i p h (hq, all) = ground (
  arith,
  pass_aggregation_more sev staged qsev now,
  merge_counts-min (staged.count) (qsev.count),
  min_merge (staged.count) (qsev.count) (total (qsev_counts rest)),
  absorb_more
      (record sev {
        agg_pending = some (record staged { count = min 65535 (staged.count + qsev.count) });
      })
      (record staged { count = min 65535 (staged.count + qsev.count) }) rest,
)

-- With aggregation configured and no window open, the events of a window (16-bit counts) leave one
-- staged event: the first one, its context data, its version and its timestamp included, with the
-- sum of all counts cut at 65535. The window starts at the first event's time.
pub absorb_lem :
    (sev : SevState) (now : ℕ) (first : OwnedQsev) (events : List (ℕ × OwnedQsev))
    → 0 < sev.config.aggregation_interval_ms
    → sev.agg_pending ≡ none
    → All (λ c. c < 65536) (first.count ∷ qsev_counts events)
    → absorb sev ((now, first) ∷ events) ≡ record sev {
      agg_pending =
          some (record first { count = min 65535 (first.count + total (qsev_counts events)) });
      agg_has_context = not (is_empty (first.context_data));
      agg_window_start_ms = now;
    }
unfolding absorb pass_aggregation
absorb_lem sev now first events i p (h, all) = ground (
  arith,
  absorb_more
      (record sev {
        agg_pending = some first;
        agg_has_context = not (is_empty (first.context_data));
        agg_window_start_ms = now;
      })
      first events,
)

-- With aggregation and no threshold configured, no window open at first, 16-bit counts and no
-- 32-bit wrap in the deadline: before the window's deadline a pass lets nothing out of the window
-- that these events made and the staged event stays; from the deadline on exactly the aggregate of
-- all of them comes out and the window is closed.
pub expire_sev-absorb :
    (sev : SevState) (start now deadline : ℕ) (first : OwnedQsev) (events : List (ℕ × OwnedQsev))
    → 0 < sev.config.aggregation_interval_ms
    → sev.config.threshold ≡ 0
    → sev.agg_pending ≡ none
    → All (λ c. c < 65536) (first.count ∷ qsev_counts events)
    → start + sev.config.aggregation_interval_ms < 4294967296
    → let aggregate : OwnedQsev = record first {
      count = min 65535 (first.count + total (qsev_counts events));
    } in
      let (left, next, out) = expire_sev now deadline (absorb sev ((start, first) ∷ events)) in
      (out
        ≡ (if leb (start + sev.config.aggregation_interval_ms) now then some aggregate else none))
      × (left.agg_pending
          ≡ (if leb (start + sev.config.aggregation_interval_ms) now then none else some aggregate))
unfolding expire_sev expire_threshold release pass_threshold
expire_sev-absorb sev start now deadline first events i t p all fits =
    rw (absorb_lem sev start first events i p all) (ground arith, ground arith)
