-- ===== src/Idsm/Worker.antt =====
-- `worker_loop` of src/IdsM_Manager.cpp and the threads around it, as a step relation. A step is one
-- section that runs under the mutex, or one access outside it: the load of m_worker_running by a report
-- and by the worker's loop, its store by DeInit, and DeInit's join. Between two steps of one thread any
-- steps of the others can come. Two calls of DeInit that join at the same time are not modelled.
use autosar_idsm.Prelude.{
  ℕ, ◌+◌, ◌-◌, ◌<◌, ◌≡◌, ◌≢◌, ◌⊎◌, false, Option, none, some, List, [], ◌∷◌, get_elem?, set, length,
  ltb, true, Bool, suc, ◌||◌, if◌then◌else◌,
}
use autosar_idsm.Idsm.Types.{
  SevState, OwnedSev, Clock, Manager, Config, Timestamp, ReportingMode, e_ok, no_stats,
}
use autosar_idsm.Idsm.Manager.{process_event, expire_windows}
use autosar_idsm.Idsm.Api.{
  returned, init, deinit_signal, deinit_join, deinit_finish, report_security_event,
  set_reporting_mode, bswm_state_changed, reset_detection_status, flush_events,
  set_dem_report_callback, register_idsr_sink, set_nvm_store_callback, reset_stats,
}

-- `if (sev_id < m_sevs.size() && m_sevs[sev_id].pending_count > 0) m_sevs[sev_id].pending_count--;`
unfoldable pub drain_one : OwnedSev → List SevState → List SevState
drain_one event sevs = elim (get_elem? sevs (event.security_event_id)) [
  | none ↦ sevs
  | some state ↦
      if ltb 0 (state.pending_count)
      then set sevs (event.security_event_id)
          (record state { pending_count = state.pending_count - 1 })
      else sevs
]

-- The loop that moves the queue into the batch.
unfoldable pub drain_loop : List OwnedSev → List SevState → List SevState
unfolding drain_one
drain_loop [] sevs = sevs
drain_loop (event ∷ queue) sevs = drain_loop queue (drain_one event sevs)

unfoldable pub drain : Manager → Manager
unfolding drain_loop
drain m = record m { sevs = drain_loop (m.incoming_queue) (m.sevs); incoming_queue = [] }

-- Where the worker stands: before the test of `while`, past it, asleep on the condition variable
-- with the deadline that `expireWindows` gave, in the loop over its batch, or gone.
pub data Place : Type 0 where
  top entered processing stopped : Place
  waiting : ℕ → Place

-- `past_join` counts the calls of DeInit that are between their join and the lock that follows it. An
-- Init that starts the worker while there is such a call sets `overlapped`.
pub record World : Type 0 where
  pub manager : Manager
  pub batch : List OwnedSev
  pub place : Place
  pub past_join : ℕ
  pub overlapped : Bool

-- A call that another thread makes. `stop` is DeInit up to its join.
pub data Request : Type 0 where
  report : ℕ → List ℕ → ℕ → ℕ → Option Timestamp → Request
  set_mode : ℕ → ReportingMode → Request
  state_changed : ℕ → Request
  reset_status : ℕ → Request
  flush : ℕ → ℕ → Request
  set_dem set_idsr set_nvm : Option ℕ → Request
  clear_stats : Request
  stop : Request

unfoldable pub serve : Request → Manager → Manager
unfolding report_security_event set_reporting_mode bswm_state_changed reset_detection_status
    flush_events set_dem_report_callback register_idsr_sink set_nvm_store_callback reset_stats
    deinit_signal
serve (report sev_id context version count timestamp) m =
    report_security_event sev_id context version count timestamp m
serve (set_mode sev_id mode) m = (set_reporting_mode sev_id mode m).0
serve (state_changed state) m = bswm_state_changed state m
serve (reset_status sev_id) m = (reset_detection_status sev_id m).0
serve (flush sev_id now) m = (flush_events sev_id now m).0
serve (set_dem cb) m = set_dem_report_callback cb m
serve (set_idsr cb) m = register_idsr_sink cb m
serve (set_nvm cb) m = set_nvm_store_callback cb m
serve clear_stats m = reset_stats m
serve stop m = deinit_signal m

-- The test after the wait, and the drain of step 1.
unfoldable pub take_batch : World → World
unfolding drain
take_batch w = elim (w.manager.incoming_queue) [
  | [] ↦
      if w.manager.worker_running
      then record w { manager = drain (w.manager); batch = []; place = processing }
      else record w { batch = []; place = stopped }
  | event ∷ rest ↦ record w {
    manager = drain (w.manager);
    batch = event ∷ rest;
    place = processing;
  }
]

-- One step. A queue has room for fewer than 2^32 events, which a caller's step assumes. `late` is a
-- report that has seen the worker run and takes the lock only now; `begin` is an Init that succeeds;
-- `join`, `skip_join` and `clear` are what DeInit does after its signal.
pub data Step : World → World → Type 0 where
  call :
      (w : World) (r : Request)
      → length (w.manager.incoming_queue) + 1 < 4294967296
      → Step w (record w { manager = serve r (w.manager) })
  late :
      (w : World) (sev_id : ℕ) (context : List ℕ) (version count : ℕ) (timestamp : Option Timestamp)
      → length (w.manager.incoming_queue) + 1 < 4294967296
      → Step w (record w {
        manager =
            record (report_security_event sev_id context version count timestamp
              (record (w.manager) { worker_running = true })) {
                worker_running = w.manager.worker_running;
              };
      })
  begin :
      (w : World) (config : Config) (m : Manager)
      → init (some config) (w.manager) ≡ returned e_ok m
      → Step w (record w {
        manager = m;
        batch = [];
        place = top;
        overlapped = w.overlapped || ltb 0 (w.past_join);
      })
  join :
      (w : World)
      → w.place ≡ stopped
      → Step w (record w { manager = deinit_join (w.manager); past_join = suc (w.past_join) })
  skip_join :
      (w : World)
      → w.manager.worker_joinable ≡ false
      → Step w (record w { past_join = suc (w.past_join) })
  clear :
      (w : World) (others : ℕ)
      → w.past_join ≡ suc others
      → Step w (record w { manager = deinit_finish (w.manager); past_join = others })
  enter :
      (w : World)
      → w.place ≡ top
      → Step w (record w { place = if w.manager.worker_running then entered else stopped })
  sleep :
      (w : World) (now : ℕ)
      → w.place ≡ entered
      → w.manager.incoming_queue ≡ []
      → Step w (record w {
        manager = (expire_windows now (w.manager)).0;
        place = waiting ((expire_windows now (w.manager)).1);
      })
  wake :
      (w : World) (deadline : ℕ)
      → w.place ≡ waiting deadline
      → (deadline ≢ 0) ⊎ (w.manager.incoming_queue ≢ []) ⊎ (w.manager.worker_running ≡ false)
      → Step w (take_batch w)
  proceed : (w : World) → w.place ≡ entered → w.manager.incoming_queue ≢ [] → Step w (take_batch w)
  process :
      (w : World) (c : Clock) (event : OwnedSev) (rest : List OwnedSev)
      → w.place ≡ processing
      → w.batch ≡ event ∷ rest
      → Step w (record w { manager = process_event c event (w.manager); batch = rest })
  tick :
      (w : World) (now : ℕ)
      → w.place ≡ processing
      → w.batch ≡ []
      → Step w (record w { manager = (expire_windows now (w.manager)).0; place = top })

pub data Reach (w : World) : World → Type 0 where
  here : Reach w w
  next : {u v : World} → Reach w u → Step u v → Reach w v

-- The singleton before the first Init.
abbrev pub idle_world : World
idle_world = record {
  manager = record {
    worker_running = false;
    worker_joinable = false;
    incoming_queue = [];
    sevs = [];
    idsm_instance_id = 0;
    main_function_period_ms = 10;
    block_state = 0;
    dem_cb = none;
    idsr_cb = none;
    nvm_cb = none;
    stats = no_stats;
    sent = [];
  };
  batch = [];
  place = stopped;
  past_join = 0;
  overlapped = false;
}
