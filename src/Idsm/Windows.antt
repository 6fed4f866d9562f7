-- ===== src/Idsm/Windows.antt =====
-- The time windows of `expireWindows` (src/IdsM_Manager.cpp): the deadline that it returns, and two
-- ways in which a window is missed.
use autosar_idsm.Prelude.{
  ℕ, zero, suc, ◌+◌, ◌<◌, ◌≤◌, ◌≡◌, subst, refl, ◌⊎◌, none, some, List, [], ◌∷◌, get_elem?,
  Option-cases, inl, inr, u32, arith,
}
use autosar_idsm.Idsm.Types.{SevState, OwnedQsev, Manager}
use autosar_idsm.Idsm.Filters.{pass_threshold}
use autosar_idsm.Idsm.Manager.{
  expire_sev, expire_threshold, expire_loop, expire_windows, release, earliest, qualify_some,
}

-- A deadline that is 0 (none) or lies ahead.
abbrev pub IsAhead : ℕ → ℕ → Type 0
IsAhead now d = (d ≡ 0) ⊎ (now < d)

-- `d` is no later than `e`, and not "none" unless `e` is.
abbrev Sooner : ℕ → ℕ → Type 0
Sooner d e = (e ≡ 0) ⊎ ((0 < d) × (d ≤ e))

expire_threshold-IsAhead :
    (now next : ℕ) (state : SevState)
    → IsAhead now next
    → IsAhead now (expire_threshold now next state).1
      × Sooner (expire_threshold now next state).1 next
      × ((expire_threshold now next state).0.agg_pending ≡ state.agg_pending)
      × ((expire_threshold now next state).0.agg_window_start_ms ≡ state.agg_window_start_ms)
      × ((expire_threshold now next state).0.config ≡ state.config)
unfolding expire_threshold
expire_threshold-IsAhead now next state h = ground arith

-- An aggregation window that stays open: the pass's deadline is no later than the window's own.
abbrev Covered : ℕ → SevState → Type 0
Covered d state =
    (state.agg_pending ≡ none)
    ⊎ (state.config.aggregation_interval_ms ≡ 0)
    ⊎ ((0 < d) × (d ≤ u32 (state.agg_window_start_ms + state.config.aggregation_interval_ms)))

release_empty :
    (now : ℕ) (state : SevState) (staged : OwnedQsev)
    → (release now state staged).0.agg_pending ≡ none
unfolding release pass_threshold
release_empty now state staged = ground arith

expire_sev-IsAhead :
    (now next : ℕ) (state : SevState)
    → IsAhead now next
    → IsAhead now (expire_sev now next state).1
      × Sooner (expire_sev now next state).1 next
      × Covered (expire_sev now next state).1 (expire_sev now next state).0
unfolding expire_sev
expire_sev-IsAhead now next state h = elim (Option-cases (state.agg_pending)) [
  | inl absent ↦ ground (arith, expire_threshold-IsAhead now next state h)
  | inr (staged, found) ↦
      let deadline = u32 (state.agg_window_start_ms + state.config.aggregation_interval_ms) in
      ground (
        arith,
        release_empty now state staged,
        expire_threshold-IsAhead now next state,
        expire_threshold-IsAhead now (earliest next deadline) state,
      )
]

Covered-Sooner : (d e : ℕ) (state : SevState) → Sooner d e → Covered e state → Covered d state
Covered-Sooner d e state s c = ground arith

Sooner-trans : (d e f : ℕ) → Sooner d e → Sooner e f → Sooner d f
Sooner-trans d e f p q = ground arith

expire_loop-IsAhead :
    (now next : ℕ) (states : List SevState) (m : Manager)
    → IsAhead now next
    → IsAhead now (expire_loop now next states m).1 × Sooner (expire_loop now next states m).1 next
unfolding expire_loop
expire_loop-IsAhead now next [] m h = (h, ground arith)
expire_loop-IsAhead now next (state ∷ states) m h =
    let (ahead, sooner, covered) = expire_sev-IsAhead now next state h in
    let (_, next', out) = expire_sev now next state in
    let (ahead', sooner') =
      expire_loop-IsAhead now next' states (qualify_some (state.config) out m) ahead in
    (ahead', Sooner-trans _ next' next sooner' sooner)

expire_loop-Covered :
    (now next : ℕ) (states : List SevState) (m : Manager) (i : ℕ) (s : SevState)
    → IsAhead now next
    → get_elem? (expire_loop now next states m).0 i ≡ some s
    → Covered (expire_loop now next states m).1 s
unfolding expire_loop
expire_loop-Covered now next [] m i s h e = cc
expire_loop-Covered now next (state ∷ states) m zero s h e =
    let (ahead, sooner, covered) = expire_sev-IsAhead now next state h in
    let (left, next', out) = expire_sev now next state in
    let (ahead', sooner') =
      expire_loop-IsAhead now next' states (qualify_some (state.config) out m) ahead in
    let same : left ≡ s = cc in
    Covered-Sooner _ next' s sooner' (subst (Covered next') same covered)
expire_loop-Covered now next (state ∷ states) m (suc i) s h e =
    let (ahead, sooner, covered) = expire_sev-IsAhead now next state h in
    let (left, next', out) = expire_sev now next state in
    expire_loop-Covered now next' states (qualify_some (state.config) out m) i s ahead e

-- The deadline that a pass over the windows returns is 0 or lies ahead of the pass's time.
pub expire_windows-IsAhead : (now : ℕ) (m : Manager) → IsAhead now (expire_windows now m).1
unfolding expire_windows
expire_windows-IsAhead now m = (expire_loop-IsAhead now 0 (m.sevs) m (inl refl)).0

-- Where a pass leaves an aggregation window open (of a SEv with an interval above 0), it returns a
-- deadline other than 0 that is no later than the window's own 32-bit deadline.
pub expire_windows_covers :
    (now : ℕ) (m : Manager) (i : ℕ) (s : SevState) (staged : OwnedQsev)
    → get_elem? ((expire_windows now m).0.sevs) i ≡ some s
    → s.agg_pending ≡ some staged
    → 0 < s.config.aggregation_interval_ms
    → (0 < (expire_windows now m).1)
      × ((expire_windows now m).1 ≤ u32 (s.agg_window_start_ms + s.config.aggregation_interval_ms))
unfolding expire_windows
expire_windows_covers now m i s staged e p pos =
    ground (arith, expire_loop-Covered now 0 (m.sevs) m i s (inl refl) e)

-- Where the window's end passes 2^32 on the 32-bit clock (an interval below 2^32, no threshold), the
-- staged event leaves at the very time at which its window opened.
pub expire_sev_wraps :
    (next : ℕ) (state : SevState) (staged : OwnedQsev)
    → state.agg_pending ≡ some staged
    → 0 < state.config.aggregation_interval_ms
    → state.config.aggregation_interval_ms < 4294967296
    → state.agg_window_start_ms < 4294967296
    → 4294967296 ≤ state.agg_window_start_ms + state.config.aggregation_interval_ms
    → state.config.threshold ≡ 0
    → (expire_sev (state.agg_window_start_ms) next state).2 ≡ some staged
unfolding expire_sev release pass_threshold
expire_sev_wraps next state staged p pos below start wraps t = ground arith
