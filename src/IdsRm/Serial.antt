-- ===== src/IdsRm/Serial.antt =====
-- The proofs about Init and DeInit of src/IdsRm_Manager.cpp, where they and SetLocalSink are called one
-- at a time.
use autosar_idsm.Prelude.{
  ℕ, ◌≡◌, subst, refl, Bool, true, false, not, ◌&&◌, ◌||◌, inl, inr, Bool-cases, some, List, [],
  ◌∷◌, arith,
}
use autosar_idsm.Idsm.Filters.{is_empty}
use autosar_idsm.IdsRm.Types.{RmConfig, Reporter, done}
use autosar_idsm.IdsRm.Reporter.{
  RmResult, answered, set_config, reset_rm_stats, set_enabled, register_sink, run_worker,
  start_worker, start_sink, set_initialized, join_worker, run_sink, join_sink, sink_close, enable,
  disable, set_soc_url, set_auth_token, set_local_sink, push_event, tee, count_received, drop_event,
}
use autosar_idsm.IdsRm.Sections.{
  Section, put_config, put_enabled, put_registered, put_worker, put_sink, put_initialized,
  clear_stats, spawn_worker, spawn_sink, wait_worker, wait_sink, close_sink, run_section,
  init_sections, run_all, rm_init,
}
use autosar_idsm.IdsRm.Posting.{deliver, post_with_retry, take_all, sink_round, sink_write}
use autosar_idsm.IdsRm.Turns.{
  Aside, turning_on, turning_off, naming_url, naming_token, clearing, refusing, pushing, teeing,
  teeing_late, counting, taking, delivering, posting, writing, Turn, TurnStep, call_init,
  call_deinit, call_set_local_sink, run_next, meanwhile, TurnReach, at_rest, then_,
}

-- The sections can run from these three members, and leave a reporter that is initialized, or has no
-- thread to join.
abbrev can_run : List Section → Bool → Bool → Bool → Bool
can_run [] worker sink on = on || (not worker && not sink)
can_run (spawn_worker ∷ rest) worker sink on = not worker && can_run rest true sink on
can_run (spawn_sink ∷ rest) worker sink on =
    not sink && (can_run rest worker true on && can_run rest worker false on)
can_run (wait_worker ∷ rest) worker sink on = can_run rest false sink on
can_run (wait_sink ∷ rest) worker sink on = can_run rest worker false on
can_run (put_initialized now ∷ rest) worker sink on = can_run rest worker sink now
can_run (_ ∷ rest) worker sink on = can_run rest worker sink on

IsRunnable : Turn → Type 0
IsRunnable t =
    can_run (t.todo) (t.reporter.worker_joinable) (t.reporter.sink_joinable)
      (t.reporter.initialized)
    ≡ true

Aside-same :
    {r s : Reporter}
    → Aside r s
    → (s.worker_joinable ≡ r.worker_joinable)
      × (s.sink_joinable ≡ r.sink_joinable)
      × (s.initialized ≡ r.initialized)
unfolding enable disable set_soc_url set_auth_token reset_rm_stats drop_event push_event tee
    count_received take_all deliver post_with_retry sink_round sink_write
Aside-same turning_on = (ground arith, ground arith, ground arith)
Aside-same turning_off = (ground arith, ground arith, ground arith)
Aside-same (naming_url url) = (ground arith, ground arith, ground arith)
Aside-same (naming_token token) = (ground arith, ground arith, ground arith)
Aside-same clearing = (refl, refl, refl)
Aside-same refusing = (refl, refl, refl)
Aside-same (pushing q) = (ground arith, ground arith, ground arith)
Aside-same (teeing q) = (ground arith, ground arith, ground arith)
Aside-same (teeing_late q) = (ground arith, ground arith, ground arith)
Aside-same counting = (refl, refl, refl)
Aside-same taking = (refl, refl, refl)
Aside-same (delivering answers) = (ground arith, ground arith, ground arith)
Aside-same (posting answers) = (refl, refl, refl)
Aside-same (writing connects writes) = (ground arith, ground arith, ground arith)

start_worker_lem :
    (r s : Reporter) (rest : List Section)
    → can_run (spawn_worker ∷ rest) (r.worker_joinable) (r.sink_joinable) (r.initialized) ≡ true
    → start_worker r ≡ answered done s
    → can_run rest (s.worker_joinable) (s.sink_joinable) (s.initialized) ≡ true
unfolding start_worker
start_worker_lem r s rest h e = ground (arith, h, e)

start_sink_lem :
    (r s : Reporter) (rest : List Section)
    → can_run (spawn_sink ∷ rest) (r.worker_joinable) (r.sink_joinable) (r.initialized) ≡ true
    → start_sink r ≡ answered done s
    → can_run rest (s.worker_joinable) (s.sink_joinable) (s.initialized) ≡ true
unfolding start_sink
start_sink_lem r s rest h e = ground (arith, h, e)

-- An answer of a section that cannot fail is the state that it leaves.
state_of : (r s : Reporter) → answered done r ≡ answered done s → s ≡ r
state_of r s e = ground (arith, e)

run_section-can_run :
    (s : Section) (rest : List Section) (r r' : Reporter)
    → can_run (s ∷ rest) (r.worker_joinable) (r.sink_joinable) (r.initialized) ≡ true
    → run_section s r ≡ answered done r'
    → can_run rest (r'.worker_joinable) (r'.sink_joinable) (r'.initialized) ≡ true
unfolding run_section set_config reset_rm_stats set_enabled register_sink run_worker set_initialized
    join_worker run_sink join_sink sink_close
run_section-can_run (put_config config) rest r r' h e = rw (state_of _ r' e) h
run_section-can_run (put_enabled on) rest r r' h e = rw (state_of _ r' e) h
run_section-can_run (put_registered on) rest r r' h e = rw (state_of _ r' e) h
run_section-can_run (put_worker on) rest r r' h e = rw (state_of _ r' e) h
run_section-can_run (put_sink on) rest r r' h e = rw (state_of _ r' e) h
run_section-can_run (put_initialized on) rest r r' h e = rw (state_of _ r' e) h
run_section-can_run clear_stats rest r r' h e = rw (state_of _ r' e) h
run_section-can_run spawn_worker rest r r' h e = start_worker_lem r r' rest h e
run_section-can_run spawn_sink rest r r' h e = start_sink_lem r r' rest h e
run_section-can_run wait_worker rest r r' h e = rw (state_of _ r' e) h
run_section-can_run wait_sink rest r r' h e = rw (state_of _ r' e) h
run_section-can_run close_sink rest r r' h e = rw (state_of _ r' e) h

set_local_sink-can_run :
    (path : List ℕ) (r s : Reporter)
    → can_run [] (r.worker_joinable) (r.sink_joinable) (r.initialized) ≡ true
    → set_local_sink path r ≡ answered done s
    → can_run [] (s.worker_joinable) (s.sink_joinable) (s.initialized) ≡ true
unfolding set_local_sink
set_local_sink-can_run path r s h e = ground (arith, h, e)

init_can_run :
    (config : RmConfig) (worker sink on : Bool)
    → on ≡ false
    → can_run [] worker sink on ≡ true
    → can_run (init_sections config) worker sink on ≡ true
init_can_run config worker sink on off h = ground (arith, off, h)

TurnStep-IsRunnable : {t u : Turn} → TurnStep t u → IsRunnable t → IsRunnable u
unfolding IsRunnable
TurnStep-IsRunnable (call_init r config off) h =
    init_can_run config (r.worker_joinable) (r.sink_joinable) (r.initialized) off h
TurnStep-IsRunnable (call_deinit r on) h = refl
TurnStep-IsRunnable (call_set_local_sink r r' path e) h = set_local_sink-can_run path r r' h e
TurnStep-IsRunnable (run_next r r' s rest e) h = run_section-can_run s rest r r' h e
TurnStep-IsRunnable (meanwhile r r' todo a) h =
    let (worker, sink, on) = Aside-same a in rw (worker, sink, on) h

TurnReach-IsRunnable : {t : Turn} → TurnReach t → IsRunnable t
unfolding IsRunnable
TurnReach-IsRunnable at_rest = refl
TurnReach-IsRunnable (then_ path step) = TurnStep-IsRunnable step (TurnReach-IsRunnable path)

-- A section that the members allow gives a state.
run_section_returns :
    (s : Section) (rest : List Section) (r : Reporter)
    → can_run (s ∷ rest) (r.worker_joinable) (r.sink_joinable) (r.initialized) ≡ true
    → (r' : Reporter) × (run_section s r ≡ answered done r')
unfolding run_section
run_section_returns (put_config config) rest r h = (_, refl)
run_section_returns (put_enabled on) rest r h = (_, refl)
run_section_returns (put_registered on) rest r h = (_, refl)
run_section_returns (put_worker on) rest r h = (_, refl)
run_section_returns (put_sink on) rest r h = (_, refl)
run_section_returns (put_initialized on) rest r h = (_, refl)
run_section_returns clear_stats rest r h = (_, refl)
run_section_returns spawn_worker rest r h =
    (record r { worker_joinable = true }, unfold start_worker in ground (arith, h))
run_section_returns spawn_sink rest r h = elim (Bool-cases (is_empty (r.sink_path))) [
  | inl none_ ↦ (r, unfold start_sink in ground (arith, none_))
  | inr named ↦ (
    record r { sink_running = true; sink_joinable = true },
    unfold start_sink in ground (arith, named, h),
  )
]
run_section_returns wait_worker rest r h = (_, refl)
run_section_returns wait_sink rest r h = (_, refl)
run_section_returns close_sink rest r h = (_, refl)

run_all_step :
    (s : Section) (rest : List Section) (r r' : Reporter) (answer : RmResult)
    → run_section s r ≡ answered done r'
    → run_all rest r' ≡ answer
    → run_all (s ∷ rest) r ≡ answer
unfolding run_all
run_all_step s rest r r' answer e f = rw (run_all, e) f

run_all-can_run :
    (todo : List Section) (r : Reporter)
    → can_run todo (r.worker_joinable) (r.sink_joinable) (r.initialized) ≡ true
    → (s : Reporter) × (run_all todo r ≡ answered done s)
unfolding run_all
run_all-can_run [] r h = (r, refl)
run_all-can_run (s ∷ rest) r h =
    let (r', e) = run_section_returns s rest r h in
    let (last, f) = run_all-can_run rest r' (run_section-can_run s rest r r' h e) in
    (last, run_all_step s rest r r' (answered done last) e f)

run_all-initialized :
    (config : RmConfig) (r s : Reporter)
    → run_all (init_sections config) r ≡ answered done s
    → s.initialized ≡ true
unfolding run_all run_section set_config reset_rm_stats set_enabled register_sink run_worker
    start_worker start_sink set_initialized
run_all-initialized config r s e = ground (arith, e)

rm_init_lem :
    (config : RmConfig) (r s : Reporter)
    → r.initialized ≡ false
    → run_all (init_sections config) r ≡ answered done s
    → rm_init (some config) r ≡ answered done s
unfolding rm_init
rm_init_lem config r s off e = ground (arith, off, e)

-- In every state that such calls and threads reach, between two calls, with the reporter not
-- initialized, an Init with a configuration that no other thread interrupts succeeds: it returns no
-- error, does not end the process, and leaves the reporter initialized.
pub rm_init_succeeds :
    (t : Turn) (config : RmConfig)
    → TurnReach t
    → t.todo ≡ []
    → t.reporter.initialized ≡ false
    → (s : Reporter) × (rm_init (some config) (t.reporter) ≡ answered done s)
      × (s.initialized ≡ true)
rm_init_succeeds t config path e off =
    let free =
      subst
        (λ todo.
          can_run todo (t.reporter.worker_joinable) (t.reporter.sink_joinable)
            (t.reporter.initialized)
          ≡ true)
        e (unfold IsRunnable in TurnReach-IsRunnable path) in
    let (s, returned) = run_all-can_run (init_sections config) (t.reporter) (
      init_can_run config (t.reporter.worker_joinable) (t.reporter.sink_joinable)
        (t.reporter.initialized) off free) in
    (
      s,
      rm_init_lem config (t.reporter) s off returned,
      run_all-initialized config (t.reporter) s returned,
    )
