-- ===== src/IdsRm/Turns.antt =====
-- Init and DeInit of src/IdsRm_Manager.cpp section by section, where they and SetLocalSink are called
-- one at a time. The worker, the sink thread, OnQsev and the other calls go on between any two sections.
use autosar_idsm.Prelude.{ℕ, ◌≡◌, Bool, true, false, Option, List, [], ◌∷◌}
use autosar_idsm.Idsm.Types.{OwnedQsev}
use autosar_idsm.IdsRm.Types.{RmConfig, Reporter, done}
use autosar_idsm.IdsRm.Reporter.{
  answered, reset_rm_stats, enable, disable, set_soc_url, set_auth_token, set_local_sink,
  push_event, tee, count_received, drop_event,
}
use autosar_idsm.IdsRm.Sections.{Section, run_section, init_sections, deinit_sections}
use autosar_idsm.IdsRm.Posting.{deliver, post_with_retry, take_all, sink_round}
use autosar_idsm.IdsRm.Steps.{idle_reporter}

-- What other threads do meanwhile: the other calls, the sections of OnQsev (`teeing_late` has seen the
-- sink run and takes the lock only now), the worker on one event and a round of the sink thread.
pub data Aside (r : Reporter) : Reporter → Type 0 where
  turning_on : Aside r (enable r).0
  turning_off : Aside r (disable r).0
  naming_url : (url : Option (List ℕ)) → Aside r (set_soc_url url r).0
  naming_token : (token : Option (List ℕ)) → Aside r (set_auth_token token r).0
  clearing : Aside r (reset_rm_stats r)
  refusing : Aside r (drop_event r)
  pushing : (q : OwnedQsev) → Aside r (push_event q r)
  teeing : (q : OwnedQsev) → Aside r (tee q r)
  teeing_late :
      (q : OwnedQsev)
      → Aside r
          (record (tee q (record r { sink_running = true })) { sink_running = r.sink_running })
  counting : Aside r (count_received r)
  taking : Aside r (take_all r)
  delivering : (answers : ℕ → Bool) → Aside r (deliver answers r)
  posting : (answers : ℕ → Bool) → Aside r (post_with_retry answers r)
  writing : (connects writes : Bool) → Aside r (sink_round connects writes r)

-- The reporter, with the sections that the call in progress has still to run.
pub record Turn : Type 0 where
  pub reporter : Reporter
  pub todo : List Section

pub data TurnStep : Turn → Turn → Type 0 where
  call_init :
      (r : Reporter) (config : RmConfig)
      → r.initialized ≡ false
      → TurnStep
          (record { reporter = r; todo = [] })
          (record { reporter = r; todo = init_sections config })
  call_deinit :
      (r : Reporter)
      → r.initialized ≡ true
      → TurnStep
          (record { reporter = r; todo = [] })
          (record { reporter = r; todo = deinit_sections })
  call_set_local_sink :
      (r r' : Reporter) (path : List ℕ)
      → set_local_sink path r ≡ answered done r'
      → TurnStep (record { reporter = r; todo = [] }) (record { reporter = r'; todo = [] })
  run_next :
      (r r' : Reporter) (s : Section) (rest : List Section)
      → run_section s r ≡ answered done r'
      → TurnStep (record { reporter = r; todo = s ∷ rest }) (record { reporter = r'; todo = rest })
  meanwhile :
      (r r' : Reporter) (todo : List Section)
      → Aside r r'
      → TurnStep (record { reporter = r; todo = todo }) (record { reporter = r'; todo = todo })

pub data TurnReach : Turn → Type 0 where
  at_rest : TurnReach (record { reporter = idle_reporter; todo = [] })
  then_ : {t u : Turn} → TurnReach t → TurnStep t u → TurnReach u
