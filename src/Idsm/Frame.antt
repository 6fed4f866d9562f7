-- ===== src/Idsm/Frame.antt =====
-- What the manager's operations leave alone: the queue, the pending counts and the configurations.
use autosar_idsm.Prelude.{
  ℕ, zero, suc, ◌+◌, ◌≡◌, ◌∙◌, sym, ap, refl, Bool, Option, none, some, List, [], ◌∷◌, get_elem?,
  set, length, Option-cases, inl, inr, u32, arith,
}
use autosar_idsm.Idsm.Types.{SevConfig, SevState, OwnedSev, OwnedQsev, Clock, Manager}
use autosar_idsm.Idsm.Filters.{Verdict, dropped_off, qualified, judge, pass_threshold}
use autosar_idsm.Idsm.Manager.{
  dispatch_qsev, send_to_dem, send_to_idsr, qualify, settle, process_event, release, expire_sev,
  expire_threshold, expire_loop, expire_windows, qualify_some, earliest,
}
use autosar_idsm.Idsm.Verdicts.{LeavesRest, judge-LeavesRest}

-- What no filter changes in a SEv: its pending count, its configuration and its reporting mode.
pub record Fixed : Type 0 where
  pub pending : ℕ
  pub config : SevConfig

unfoldable pub fixed : SevState → Fixed
fixed state = record { pending = state.pending_count; config = state.config }

unfoldable pub fixed_all : List SevState → List Fixed
fixed_all [] = []
fixed_all (state ∷ states) = fixed state ∷ fixed_all states

pub fixed_all-set :
    (states : List SevState) (i : ℕ) (v : SevState)
    → fixed_all (set states i v) ≡ set (fixed_all states) i (fixed v)
unfolding fixed_all
fixed_all-set [] i v = refl
fixed_all-set (s ∷ states) zero v = refl
fixed_all-set (s ∷ states) (suc i) v = ap (◌∷◌ (fixed s)) (fixed_all-set states i v)

pub get_elem?-fixed_all :
    (states : List SevState) (i : ℕ) {s : SevState}
    → get_elem? states i ≡ some s
    → get_elem? (fixed_all states) i ≡ some (fixed s)
unfolding fixed_all
get_elem?-fixed_all [] i e = cc
get_elem?-fixed_all (s ∷ states) zero e = cc
get_elem?-fixed_all (s ∷ states) (suc i) e = get_elem?-fixed_all states i e

pub length-fixed_all : (states : List SevState) → length (fixed_all states) ≡ length states
unfolding fixed_all
length-fixed_all [] = refl
length-fixed_all (s ∷ states) = ap suc (length-fixed_all states)

-- Writing back what is there changes nothing.
set_same {ℓ} :
    {A : Type ℓ} (xs : List A) (i : ℕ) (v : A) → get_elem? xs i ≡ some v → set xs i v ≡ xs
set_same [] i v e = refl
set_same (x ∷ xs) zero v e = ground arith
set_same (x ∷ xs) (suc i) v e = ap (◌∷◌ x) (set_same xs i v e)

pub fixed_all-set_same :
    (states : List SevState) (i : ℕ) (s v : SevState)
    → get_elem? states i ≡ some s
    → fixed v ≡ fixed s
    → fixed_all (set states i v) ≡ fixed_all states
fixed_all-set_same states i s v e same =
    fixed_all-set states i v
    ∙ rw same (set_same (fixed_all states) i (fixed s) (get_elem?-fixed_all states i e))

LeavesRest-fixed :
    (state next : SevState) (verdict : Verdict)
    → LeavesRest state next verdict
    → fixed next ≡ fixed state
unfolding fixed
LeavesRest-fixed state next dropped_off h = ground arith
LeavesRest-fixed state next _ h = ground arith

pub judge-fixed :
    (c : Clock) (instance_id block_state : ℕ) (sev : OwnedSev) (state : SevState)
    → fixed (judge c instance_id block_state sev state).0 ≡ fixed state
judge-fixed c instance_id block_state sev state =
    LeavesRest-fixed state _ _ (judge-LeavesRest c instance_id block_state sev state).0

-- The members of the manager that sending and counting leave alone.
pub record Core : Type 0 where
  pub running : Bool
  pub joinable : Bool
  pub queue : List OwnedSev
  pub sevs : List SevState
  pub reported : ℕ

unfoldable pub core : Manager → Core
core m = record {
  running = m.worker_running;
  joinable = m.worker_joinable;
  queue = m.incoming_queue;
  sevs = m.sevs;
  reported = m.stats.events_reported;
}

pub qualify-core :
    (config : SevConfig) (q : OwnedQsev) (m : Manager) → core (qualify config q m) ≡ core m
unfolding qualify dispatch_qsev send_to_dem send_to_idsr core
qualify-core config q m = ground arith

pub settle-core :
    (config : SevConfig) (verdict : Verdict) (m : Manager) → core (settle config verdict m) ≡ core m
unfolding settle core
settle-core config dropped_off m = refl
settle-core config (qualified q) m = unfold core in qualify-core config q m
settle-core config _ m = refl

pub qualify_some-core :
    (config : SevConfig) (out : Option OwnedQsev) (m : Manager)
    → core (qualify_some config out m) ≡ core m
qualify_some-core config none m = refl
qualify_some-core config (some q) m = qualify-core config q m

-- The core of a manager up to what filters change in its SEvs.
pub record Frame : Type 0 where
  pub running : Bool
  pub joinable : Bool
  pub queue : List OwnedSev
  pub fixed_sevs : List Fixed
  pub reported : ℕ

unfoldable pub frame : Manager → Frame
frame m = record {
  running = m.worker_running;
  joinable = m.worker_joinable;
  queue = m.incoming_queue;
  fixed_sevs = fixed_all (m.sevs);
  reported = m.stats.events_reported;
}

frame_of_core : Core → Frame
frame_of_core k = record {
  running = k.running;
  joinable = k.joinable;
  queue = k.queue;
  fixed_sevs = fixed_all (k.sevs);
  reported = k.reported;
}

frame-core : (m : Manager) → frame m ≡ frame_of_core (core m)
unfolding frame frame_of_core core
frame-core m = refl

pub core-frame : (m n : Manager) → core m ≡ core n → frame m ≡ frame n
core-frame m n e = frame-core m ∙ ap frame_of_core e ∙ sym (frame-core n)

pub frame-set :
    (m : Manager) (i : ℕ) (s v : SevState)
    → get_elem? (m.sevs) i ≡ some s
    → fixed v ≡ fixed s
    → frame (record m { sevs = set (m.sevs) i v }) ≡ frame m
unfolding frame
frame-set m i s v e same = rw (fixed_all-set_same (m.sevs) i s v e same)

pub process_event-frame :
    (c : Clock) (sev : OwnedSev) (m : Manager) → frame (process_event c sev m) ≡ frame m
process_event-frame c sev m = elim (Option-cases (get_elem? (m.sevs) (sev.security_event_id))) [
  | inl absent ↦ unfold process_event in rw (absent, process_event)
  | inr (state, found) ↦
      unfold process_event in
      rw (found, process_event)
        (core-frame _ _ (settle-core (state.config) _ _)
          ∙ frame-set m (sev.security_event_id) state _ found (judge-fixed c _ _ sev state))
]

pub release-fixed :
    (now : ℕ) (state : SevState) (staged : OwnedQsev)
    → fixed (release now state staged).0 ≡ fixed state
unfolding release pass_threshold fixed
release-fixed now state staged = ground arith

expire_threshold-fixed :
    (now next : ℕ) (state : SevState) → fixed (expire_threshold now next state).0 ≡ fixed state
unfolding expire_threshold fixed
expire_threshold-fixed now next state = ground arith

expire_sev-fixed :
    (now next : ℕ) (state : SevState) → fixed (expire_sev now next state).0 ≡ fixed state
unfolding expire_sev fixed
expire_sev-fixed now next state = elim (Option-cases (state.agg_pending)) [
  | inl absent ↦ rw (absent, expire_sev) (expire_threshold-fixed now next state)
  | inr (staged, found) ↦ ground (
    arith,
    release-fixed now state staged,
    expire_threshold-fixed now next state,
    expire_threshold-fixed now
        (earliest next (u32 (state.agg_window_start_ms + state.config.aggregation_interval_ms)))
        state,
  )
]

expire_loop-frame :
    (now next : ℕ) (states : List SevState) (m : Manager)
    → (fixed_all (expire_loop now next states m).0 ≡ fixed_all states)
      × (core (expire_loop now next states m).2 ≡ core m)
unfolding expire_loop fixed_all
expire_loop-frame now next [] m = (refl, refl)
expire_loop-frame now next (state ∷ states) m =
    let (_, next', out) = expire_sev now next state in
    let (kept, same) = expire_loop-frame now next' states (qualify_some (state.config) out m) in
    (rw (expire_sev-fixed now next state, kept) refl, same ∙ qualify_some-core (state.config) out m)

pub expire_windows-frame : (now : ℕ) (m : Manager) → frame (expire_windows now m).0 ≡ frame m
unfolding expire_windows frame frame_of_core core
expire_windows-frame now m =
    let (kept, same) = expire_loop-frame now 0 (m.sevs) m in
    ap (λ k. record (frame_of_core k) { fixed_sevs = fixed_all (expire_loop now 0 (m.sevs) m).0 })
      same
    ∙ rw kept refl
