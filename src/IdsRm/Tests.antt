-- ===== src/IdsRm/Tests.antt =====
-- The reporter's theorems at concrete inputs.
use autosar_idsm.Prelude.{
  ℕ, ◌+◌, ◌<◌, ◌≤◌, ◌≡◌, refl, Bool, true, false, some, List, [], ◌∷◌, length, ◌==◌, u32, arith,
}
use autosar_idsm.Idsm.Types.{OwnedQsev, medium, autosar}
use autosar_idsm.Idsm.Manager.{to_c}
use autosar_idsm.IdsRm.Types.{RmConfig, Reporter, done, no_rm_stats}
use autosar_idsm.IdsRm.Reporter.{
  answered, aborted, set_config, reset_rm_stats, set_enabled, register_sink, run_worker,
  start_worker, start_sink, set_initialized, set_local_sink, on_qsev, from_c, strnlen,
}
use autosar_idsm.IdsRm.Sections.{run_section, init_sections, run_all, rm_init}
use autosar_idsm.IdsRm.Turns.{Turn, at_rest}
use autosar_idsm.IdsRm.Serial.{rm_init_succeeds}
use autosar_idsm.IdsRm.Posting.{post_with_retry, deliver_batch}
use autosar_idsm.IdsRm.Steps.{
  RmReach, at_start, after, configure, store_enabled, register, store_worker, begin_worker,
  begin_sink, store_initialized, receive, idle_reporter,
}
use autosar_idsm.IdsRm.Lifecycle.{reporter_is_bounded, set_local_sink_again}
use autosar_idsm.IdsRm.Outcomes.{on_qsev_lem, post_with_retry_exhausted, deliver_batch_settles}

abbrev soc_config : RmConfig
soc_config = record {
  soc_url = 104 ∷ 58 ∷ 0 ∷ [];
  auth_token = 0 ∷ [];
  timeout_ms = 3000;
  retry_count = 2;
  enabled = true;
}

abbrev alert_event : OwnedQsev
alert_event = record {
  idsm_instance_id = 1;
  external_event_id = 0x8011;
  sensor_instance_id = 0;
  severity = medium;
  count = 4;
  has_timestamp = true;
  timestamp = record { seconds = 1700000000; nanoseconds = 5; source = autosar };
  context_data_version = 1;
  context_data = 1 ∷ 2 ∷ 3 ∷ [];
}

-- The reporter after an Init with that configuration and no local sink.
abbrev up : Reporter
up = record idle_reporter {
  initialized = true;
  enabled = true;
  registered = true;
  worker_running = true;
  worker_joinable = true;
  soc_url = 104 ∷ 58 ∷ [];
  timeout_ms = 3000;
  retry_count = 2;
}

up-Reach : RmReach idle_reporter up
unfolding set_config reset_rm_stats set_enabled register_sink run_worker start_worker start_sink
    set_initialized strnlen
up-Reach =
    let configured = set_config soc_config idle_reporter in
    let running = run_worker true (register_sink true (set_enabled true configured)) in
    let spawned : Reporter = record running { worker_joinable = true } in
    after
      (after
        (after
          (after
            (after
              (after (after at_start (configure idle_reporter soc_config))
                (store_enabled configured true))
              (register (set_enabled true configured) true))
            (store_worker (register_sink true (set_enabled true configured)) true))
          (begin_worker running spawned refl))
        (begin_sink spawned spawned refl))
      (store_initialized spawned true)

-- Init in one go ends in the same state.
up_in_one_go : rm_init (some soc_config) idle_reporter ≡ answered done up
unfolding rm_init run_all run_section set_config reset_rm_stats set_enabled register_sink run_worker
    start_worker start_sink set_initialized strnlen
up_in_one_go = refl

abbrev received : Reporter
received = on_qsev (to_c alert_event) up

-- A server that answers at the third request, and one that never does.
abbrev third_time : ℕ → Bool
third_time n = n == 2

abbrev never : ℕ → Bool
never n = false

-- One that answers at the twelfth request alone.
abbrev too_late : ℕ → Bool
too_late n = n == 11

below_eleven : (j : ℕ) → j < 11 → never j ≡ too_late j
below_eleven j h = ground arith

reporter_is_bounded_example :
    (length (received.event_queue) ≤ 128)
    × (length (received.sink_queue) ≤ 512)
    × (post_with_retry never received ≡ post_with_retry too_late received)
reporter_is_bounded_example =
    reporter_is_bounded received never too_late (after up-Reach (receive up (to_c alert_event)))
      below_eleven

abbrev before_init : Turn
before_init = record { reporter = idle_reporter; todo = [] }

abbrev within_init : Turn
within_init = record { reporter = idle_reporter; todo = init_sections soc_config }

rm_init_succeeds_example :
    (s : Reporter) × (rm_init (some soc_config) idle_reporter ≡ answered done s)
    × (s.initialized ≡ true)
rm_init_succeeds_example = rm_init_succeeds before_init soc_config at_rest refl refl

-- A sink path given while DeInit stands between the join of the sink thread and the store that ends it
-- leaves a thread to join in a reporter that is not initialized, and the next Init ends the process.
abbrev sink_joined : Reporter
sink_joined = record up { registered = false; worker_running = false; worker_joinable = false }

abbrev sink_again : Reporter
sink_again = record sink_joined {
  sink_path = 47 ∷ 115 ∷ [];
  sink_running = true;
  sink_joinable = true;
}

init_ends_process :
    (set_local_sink (47 ∷ 115 ∷ []) sink_joined ≡ answered done sink_again)
    × (rm_init (some soc_config) (set_enabled false (set_initialized false sink_again)) ≡ aborted)
unfolding set_local_sink strnlen rm_init run_all run_section set_config reset_rm_stats set_enabled
    register_sink run_worker start_worker start_sink set_initialized
init_ends_process = (refl, refl)

abbrev with_sink : Reporter
with_sink = record up { sink_running = true; sink_joinable = true; sink_path = 47 ∷ 115 ∷ [] }

set_local_sink_again_example :
    (s : Reporter) × (set_local_sink [] with_sink ≡ answered done s)
    × (set_local_sink (47 ∷ 115 ∷ []) s ≡ aborted)
unfolding strnlen
set_local_sink_again_example = set_local_sink_again with_sink (47 ∷ 115 ∷ []) refl refl refl refl

on_qsev_lem_example :
    ((on_qsev (to_c alert_event) up).event_queue ≡ from_c (to_c alert_event) ∷ [])
    × ((on_qsev (to_c alert_event) up).stats.events_received ≡ 1)
    × ((on_qsev (to_c alert_event) up).stats.events_dropped ≡ 0)
on_qsev_lem_example = on_qsev_lem (to_c alert_event) up

below_two : (j : ℕ) → j < 2 → third_time j ≡ false
below_two j h = ground arith

post_with_retry_exhausted_example :
    (post_with_retry never up).stats ≡ record no_rm_stats { http_retries = 3; events_failed = 1 }
post_with_retry_exhausted_example =
    post_with_retry_exhausted never up (λ j below. refl) (omega arith)

abbrev two_events : List ((ℕ → Bool) × OwnedQsev)
two_events = (third_time, alert_event) ∷ (never, alert_event) ∷ []

deliver_batch_settles_example :
    u32 (
      (deliver_batch two_events up).stats.events_posted
      + (deliver_batch two_events up).stats.events_failed)
    ≡ 2
deliver_batch_settles_example = deliver_batch_settles two_events up
