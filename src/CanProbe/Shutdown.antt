-- ===== src/CanProbe/Shutdown.antt =====
-- The end of apps/can_probe/main.cpp: every SEv is flushed before the manager stops, so that alerts
-- in an open aggregation window are not lost.
use autosar_idsm.Prelude.{
  ℕ, suc, ◌+◌, ◌<◌, ◌≤◌, ◌≡◌, ◌≢◌, ◌⊎◌, ◌∙◌, ap, refl, none, some, Option, List, [], ◌∷◌, ◌++◌,
  get_elem?, set, length, get_elem?-set_self, get_elem?-set_ne, Option-cases, inl, inr, ◌==◌, arith,
  Bool-cases, ==_iff,
}
use autosar_idsm.Idsm.Types.{Manager, SevState, OwnedQsev}
use autosar_idsm.Idsm.Filters.{pass_threshold, open_threshold_window}
use autosar_idsm.Idsm.Manager.{release, qualify_some, qualify, to_c}
use autosar_idsm.Idsm.Api.{flush_events}
use autosar_idsm.Idsm.Sinks.{targets, dispatch_qsev-sent}
use autosar_idsm.Idsm.Tally.{get_elem?-some_lt}
use autosar_idsm.Idsm.Frame.{core, qualify_some-core}

-- `for (i = 0; i < MAX_DETECTOR_TYPE; ++i) IdsM_FlushEvents(i);` from index i on, with the clock at
-- each call.
unfoldable pub flush_from : ℕ → List ℕ → Manager → Manager
flush_from i [] m = m
flush_from i (now ∷ nows) m = flush_from (suc i) nows (flush_events i now m).0

-- The event that the aggregation window of a SEv holds.
unfoldable pub staged_at : ℕ → Manager → Option OwnedQsev
staged_at j m = elim (get_elem? (m.sevs) j) [ none ↦ none | some s ↦ s.agg_pending ]

release-agg_pending :
    (now : ℕ) (s : SevState) (staged : OwnedQsev) → (release now s staged).0.agg_pending ≡ none
unfolding release pass_threshold open_threshold_window
release-agg_pending now s staged = ground arith

release-out :
    (now : ℕ) (s : SevState) (staged : OwnedQsev)
    → s.config.threshold ≡ 0
    → (release now s staged).1 ≡ some staged
unfolding release pass_threshold
release-out now s staged off = ground arith

qualify_some-sevs :
    (s : SevState) (out : Option OwnedQsev) (m : Manager)
    → (qualify_some (s.config) out m).sevs ≡ m.sevs
unfolding core
qualify_some-sevs s out m = ap (λ c. c.sevs) (qualify_some-core (s.config) out m)

-- A flush finds nothing staged and changes no SEv, or it stores a SEv without a staged event.
flush_events-sevs :
    (i now : ℕ) (m : Manager)
    → (((flush_events i now m).0.sevs ≡ m.sevs) × (staged_at i m ≡ none))
      ⊎ ((n : SevState) × (n.agg_pending ≡ none)
          × (i < length (m.sevs))
          × ((flush_events i now m).0.sevs ≡ set (m.sevs) i n))
unfolding flush_events staged_at
flush_events-sevs i now m = elim (Option-cases (get_elem? (m.sevs) i)) [
  | inl absent ↦ inl (rw (absent, flush_events) refl, rw (absent, staged_at) refl)
  | inr (s, found) ↦ elim (Option-cases (s.agg_pending)) [
    | inl empty ↦ inl (ground arith, ground arith)
    | inr (staged, full) ↦ inr (
      (release now s staged).0,
      release-agg_pending now s staged,
      get_elem?-some_lt (m.sevs) i found,
      rw (found, flush_events) (simp full (qualify_some-sevs s (release now s staged).1 _)),
    )
  ]
]

flush_events_clears : (i now : ℕ) (m : Manager) → staged_at i (flush_events i now m).0 ≡ none
unfolding staged_at
flush_events_clears i now m = elim (flush_events-sevs i now m) [
  | inl (same, empty) ↦ rw (same, staged_at) empty
  | inr (n, clean, below, stored) ↦
      rw (stored, staged_at) (rw (get_elem?-set_self (m.sevs) i n below, staged_at) clean)
]

flush_events-other :
    (i j now : ℕ) (m : Manager) → i ≢ j → staged_at j (flush_events i now m).0 ≡ staged_at j m
unfolding staged_at
flush_events-other i j now m differ = elim (flush_events-sevs i now m) [
  | inl (same, empty) ↦ rw (same, staged_at) refl
  | inr (n, clean, below, stored) ↦
      rw (stored, staged_at) (rw (get_elem?-set_ne (m.sevs) i j n differ, staged_at) refl)
]

flush_from-before :
    (i j : ℕ) (nows : List ℕ) (m : Manager)
    → j < i
    → staged_at j (flush_from i nows m) ≡ staged_at j m
unfolding flush_from
flush_from-before i j [] m h = refl
flush_from-before i j (now ∷ nows) m h =
    flush_from-before (suc i) j nows (flush_events i now m).0 (omega arith)
    ∙ flush_events-other i j now m (λ e. omega (arith, e))

-- After a run of flushes over consecutive SEvs, whatever the clock says at each, no aggregation
-- window of a flushed SEv holds an event any more.
pub flush_from-staged_at :
    (i j : ℕ) (nows : List ℕ) (m : Manager)
    → i ≤ j
    → j < i + length nows
    → staged_at j (flush_from i nows m) ≡ none
unfolding flush_from
flush_from-staged_at i j [] m lo hi = absurd (omega arith)
flush_from-staged_at i j (now ∷ nows) m lo hi = elim (Bool-cases (i == j)) [
  | inl same ↦
      let equal : i ≡ j = (==_iff i j).0 same in
      rw equal (
        flush_from-before (suc j) j nows (flush_events j now m).0 (omega arith)
        ∙ flush_events_clears j now m)
  | inr differ ↦
      flush_from-staged_at (suc i) j nows (flush_events i now m).0 (ground arith) (omega arith)
]

-- Flushing a SEv that has a staged event and no threshold configured gives this event once to each
-- of the sinks that its configuration selects and that are registered.
pub flush_events-sent :
    (i now : ℕ) (m : Manager) (s : SevState) (staged : OwnedQsev)
    → get_elem? (m.sevs) i ≡ some s
    → s.agg_pending ≡ some staged
    → s.config.threshold ≡ 0
    → (flush_events i now m).0.sent ≡ m.sent ++ targets (s.config) m (to_c staged)
unfolding flush_events qualify
flush_events-sent i now m s staged found full open_ =
    let out : (release now s staged).1 ≡ some staged = release-out now s staged open_ in
    rw (found, flush_events)
      (simp full (rw (out, qualify_some) (dispatch_qsev-sent (s.config) staged _)))
