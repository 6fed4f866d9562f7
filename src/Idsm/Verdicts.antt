-- ===== src/Idsm/Verdicts.antt =====
-- What `processEvent` of src/IdsM_Manager.cpp does with one event: its verdict, the filter state that
-- it touches, and what reaches the sinks.
use autosar_idsm.Prelude.{
  ℕ, zero, suc, ◌<◌, ◌≡◌, inl, inr, refl, Bool-cases, true, some, List, [], ◌∷◌, get_elem?, ◌==◌,
  arith,
}
use autosar_idsm.Idsm.Types.{BlockStateConfig, SevState, OwnedSev, OwnedQsev, Clock, violation}
use autosar_idsm.Idsm.Filters.{
  Verdict, dropped_off, dropped_block, dropped_sampling, absorbed, dropped_threshold, qualified,
  judge, is_blocked_by_state, scan_blocked, pass_forward_every_nth, pass_aggregation,
  pass_threshold, chain_sampling, chain_aggregation, chain_threshold, is_off, is_bypassing,
}
use autosar_idsm.Idsm.Passing.{runs_filters, pass_forward_every_nth_counter, StopsAt, judge-StopsAt}

scan_blocked_sound :
    (n : ℕ) (blocked : List ℕ) (state : ℕ)
    → scan_blocked n blocked state ≡ true
    → (i : ℕ) × (i < n) × (get_elem? blocked i ≡ some state)
unfolding scan_blocked
scan_blocked_sound zero blocked state h = absurd (ground arith)
scan_blocked_sound (suc n) [] state h = absurd (ground arith)
scan_blocked_sound (suc n) (b ∷ blocked) state h = elim (Bool-cases (b == state)) [
  | inl same ↦ (0, omega arith, ground arith)
  | inr other ↦
      let (i, below, found) = scan_blocked_sound n blocked state (ground arith) in
      (suc i, omega arith, found)
]

scan_blocked_complete :
    (n : ℕ) (blocked : List ℕ) (state i : ℕ)
    → i < n
    → get_elem? blocked i ≡ some state
    → scan_blocked n blocked state ≡ true
unfolding scan_blocked
scan_blocked_complete zero blocked state i h e = absurd (omega arith)
scan_blocked_complete (suc n) [] state i h e = cc
scan_blocked_complete (suc n) (b ∷ blocked) state zero h e = ground arith
scan_blocked_complete (suc n) (b ∷ blocked) state (suc i) h e =
    ground (arith, scan_blocked_complete n blocked state i (omega arith) e)

-- In a mode that runs the filters, with the current block state among the first `num_blocked_states`
-- entries of the SEv's list, the event is dropped by the block state filter, and of the SEv's state
-- only the detection status changes.
pub judge-blocked :
    (c : Clock) (instance_id block_state i : ℕ) (sev : OwnedSev) (state : SevState)
    (cfg : BlockStateConfig)
    → runs_filters (state.reporting_mode) ≡ true
    → state.config.block_state ≡ some cfg
    → i < cfg.num_blocked_states
    → get_elem? (cfg.blocked_states) i ≡ some block_state
    → judge c instance_id block_state sev state
      ≡ (record state { detection_status = violation }, dropped_block)
unfolding judge is_blocked_by_state
judge-blocked c instance_id block_state i sev state cfg f b h e =
    ground
      (arith, scan_blocked_complete (cfg.num_blocked_states) (cfg.blocked_states) block_state i h e)

-- What a verdict of the filters leaves of the SEv's state, the detection status apart.
abbrev LeavesFilters : SevState → SevState → Verdict → Type 0
LeavesFilters state next dropped_off = ⊥
LeavesFilters state next dropped_block = ⊥
LeavesFilters state next dropped_sampling = next ≡ record state { nth_counter = next.nth_counter }
LeavesFilters state next absorbed = next ≡ record state {
  nth_counter = next.nth_counter;
  agg_pending = next.agg_pending;
  agg_has_context = next.agg_has_context;
  agg_window_start_ms = next.agg_window_start_ms;
}
LeavesFilters state next _ = next ≡ record state {
  nth_counter = next.nth_counter;
  thr_accumulated = next.thr_accumulated;
  thr_window_start_ms = next.thr_window_start_ms;
  thr_window_open = next.thr_window_open;
}

-- What a verdict leaves of the SEv's state.
abbrev pub LeavesRest : SevState → SevState → Verdict → Type 0
LeavesRest state next dropped_off = next ≡ state
LeavesRest state next dropped_block = next ≡ record state { detection_status = violation }
LeavesRest state next dropped_sampling =
    next ≡ record state { detection_status = violation; nth_counter = next.nth_counter }
LeavesRest state next absorbed = next ≡ record state {
  detection_status = violation;
  nth_counter = next.nth_counter;
  agg_pending = next.agg_pending;
  agg_has_context = next.agg_has_context;
  agg_window_start_ms = next.agg_window_start_ms;
}
LeavesRest state next _ = next ≡ record state {
  detection_status = violation;
  nth_counter = next.nth_counter;
  thr_accumulated = next.thr_accumulated;
  thr_window_start_ms = next.thr_window_start_ms;
  thr_window_open = next.thr_window_open;
}

chain_threshold-LeavesFilters :
    (now : ℕ) (state : SevState) (q : OwnedQsev)
    → LeavesFilters state (chain_threshold now state q).0 (chain_threshold now state q).1
unfolding chain_threshold pass_threshold
chain_threshold-LeavesFilters now state q = ground arith

chain_aggregation-LeavesFilters :
    (c : Clock) (state : SevState) (q : OwnedQsev)
    → LeavesFilters state (chain_aggregation c state q).0 (chain_aggregation c state q).1
unfolding chain_aggregation pass_aggregation
chain_aggregation-LeavesFilters c state q =
    ground (arith, chain_threshold-LeavesFilters (c.now_ms) state q)

forget_counter :
    (state start next : SevState) (verdict : Verdict)
    → start ≡ record state { nth_counter = start.nth_counter }
    → LeavesFilters start next verdict
    → LeavesFilters state next verdict
forget_counter state start next dropped_off e h = h
forget_counter state start next dropped_block e h = h
forget_counter state start next dropped_sampling e h = ground arith
forget_counter state start next absorbed e h = ground arith
forget_counter state start next dropped_threshold e h = ground arith
forget_counter state start next (qualified q) e h = ground arith

chain_sampling-LeavesFilters :
    (c : Clock) (state : SevState) (q : OwnedQsev)
    → LeavesFilters state (chain_sampling c state q).0 (chain_sampling c state q).1
unfolding chain_sampling
chain_sampling-LeavesFilters c state q =
    elim (Bool-cases ((pass_forward_every_nth state (q.count)).1)) [
      | inl passed ↦ rw passed (
          forget_counter state _ _ _ (pass_forward_every_nth_counter state (q.count))
            (chain_aggregation-LeavesFilters c _ q))
      | inr skipped ↦ rw skipped (pass_forward_every_nth_counter state (q.count))
    ]

marked_rest :
    (state next : SevState) (verdict : Verdict)
    → LeavesFilters (record state { detection_status = violation }) next verdict
    → LeavesRest state next verdict
marked_rest state next dropped_off h = absurd h
marked_rest state next dropped_block h = absurd h
marked_rest state next dropped_sampling h = h
marked_rest state next absorbed h = h
marked_rest state next dropped_threshold h = h
marked_rest state next (qualified q) h = h

judge_rest :
    (c : Clock) (instance_id block_state : ℕ) (sev : OwnedSev) (state : SevState)
    → LeavesRest state
        (judge c instance_id block_state sev state).0
        (judge c instance_id block_state sev state).1
unfolding judge
judge_rest c instance_id block_state sev state = elim (Bool-cases (is_off (state.reporting_mode))) [
  | inl silent ↦ rw silent refl
  | inr on ↦ elim (Bool-cases (is_bypassing (state.reporting_mode))) [
    | inl bypassing ↦ rw (on, bypassing) refl
    | inr filtered ↦ elim (Bool-cases (is_blocked_by_state (state.config) block_state)) [
      | inl blocked ↦ rw (on, filtered, blocked) refl
      | inr open_ ↦
          rw (on, filtered, open_) (marked_rest state _ _ (chain_sampling-LeavesFilters c _ _))
    ]
  ]
]

-- The chain is in order and drops at once. OFF changes nothing; a bypassing mode qualifies and marks
-- the detection status. In the other modes an event that the block state drops only marks the status.
-- An event is dropped by sampling only if the block state lets it pass, and changes besides only the
-- sampling counter. It is absorbed only if it passes both and an aggregation interval is configured,
-- and leaves the threshold alone. It is dropped by the threshold, or qualified, only if it passes both
-- and no interval is configured, by whether the count that the window accumulates with it is below the
-- threshold, and leaves the staged aggregate alone.
pub judge-LeavesRest :
    (c : Clock) (instance_id block_state : ℕ) (sev : OwnedSev) (state : SevState)
    → LeavesRest state
        (judge c instance_id block_state sev state).0
        (judge c instance_id block_state sev state).1
      × StopsAt block_state (sev.count) state (judge c instance_id block_state sev state).1
judge-LeavesRest c instance_id block_state sev state = (
  judge_rest c instance_id block_state sev state,
  judge-StopsAt c instance_id block_state sev state,
)
