-- ===== src/Idsm/Api.antt =====
-- The public operations of src/IdsM_Manager.cpp and the C interface of src/IdsM.c. Each takes the
-- mutex once, so each is one function on the manager.
use autosar_idsm.Prelude.{
  ℕ, ◌+◌, ◌%◌, Bool, true, false, not, ◌&&◌, Option, none, some, List, [], ◌∷◌, ◌++◌, get_elem?,
  set, take, length, ltb, ◌==◌, if◌then◌else◌, u32,
}
use autosar_idsm.Idsm.Types.{
  SevConfig, SevState, OwnedSev, Manager, Config, Timestamp, ReportingMode, off, DetectionStatus,
  ok, uninitialized, ReturnCode, e_ok, e_param_pointer, e_param_config, no_stats, autosar,
}
use autosar_idsm.Idsm.Filters.{is_out_of_range}
use autosar_idsm.Idsm.Manager.{release, qualify_some}

-- The checks that `Init` makes on one SEv configuration.
unfoldable pub sev_config_accepted : ℕ → SevConfig → Bool
sev_config_accepted period sc =
    not (sc.external_event_id == 0xffff)
    && not (ltb 63 (sc.sensor_instance_id))
    && not (is_out_of_range (sc.default_reporting_mode))
    && (sc.aggregation_interval_ms % period == 0)
    && (sc.threshold_interval_ms % period == 0)

unfoldable pub sev_configs_accepted : ℕ → List SevConfig → Bool
unfolding sev_config_accepted
sev_configs_accepted period [] = true
sev_configs_accepted period (sc ∷ rest) =
    sev_config_accepted period sc && sev_configs_accepted period rest

-- The state that `Init` gives a SEv: the counter of forward-every-nth starts at n.
unfoldable pub fresh_sev : SevConfig → SevState
fresh_sev sc = record {
  config = sc;
  reporting_mode = sc.default_reporting_mode;
  detection_status = uninitialized;
  pending_count = 0;
  nth_counter = sc.forward_every_nth;
  agg_pending = none;
  agg_has_context = false;
  agg_window_start_ms = 0;
  thr_accumulated = 0;
  thr_window_start_ms = 0;
  thr_window_open = false;
}

abbrev pub fresh_sevs : List SevConfig → List SevState
unfolding fresh_sev
fresh_sevs [] = []
fresh_sevs (sc ∷ rest) = fresh_sev sc ∷ fresh_sevs rest

-- `Init` returns a code, or ends the process: assigning a new thread to `m_worker_thread` while that
-- is joinable calls std::terminate.
pub data InitResult : Type 0 where
  returned : ReturnCode → Manager → InitResult
  terminated : InitResult

-- The second half of `Init`: the members are set and the worker is started.
unfoldable pub start : Config → List SevConfig → Manager → InitResult
start config configs m =
    if m.worker_joinable
    then terminated
    else returned e_ok (record m {
      sevs = fresh_sevs configs;
      idsm_instance_id = config.idsm_instance_id;
      main_function_period_ms = config.main_function_period_ms;
      block_state = 0;
      stats = no_stats;
      worker_running = true;
      worker_joinable = true;
    })

-- The configurations that the loops of `Init` read: the first `sev_count` of the array.
abbrev pub configured : Config → Option (List SevConfig)
configured config = elim (config.sev_configs) [
  | none ↦ if ltb 0 (config.sev_count) then none else some []
  | some configs ↦ some (take (config.sev_count) configs)
]

-- Init, with its argument NULL or not.
unfoldable pub init : Option Config → Manager → InitResult
unfolding sev_configs_accepted start
init none m = returned e_param_pointer m
init (some config) m = elim (configured config) [
  | none ↦ returned e_param_pointer m
  | some configs ↦
      if ltb 1023 (config.idsm_instance_id)
      then returned e_param_config m
      else if config.main_function_period_ms == 0
      then returned e_param_config m
      else if sev_configs_accepted (config.main_function_period_ms) configs
      then start config configs m
      else returned e_param_config m
]

-- DeInit up to the join: the worker is told to stop.
unfoldable pub deinit_signal : Manager → Manager
deinit_signal m = record m { worker_running = false }

-- DeInit's join, which takes no lock.
unfoldable pub deinit_join : Manager → Manager
deinit_join m = record m { worker_joinable = false }

-- DeInit after the join, under the mutex.
unfoldable pub deinit_finish : Manager → Manager
deinit_finish m = record m {
  sevs = [];
  dem_cb = none;
  idsr_cb = none;
  nvm_cb = none;
  stats = no_stats;
  main_function_period_ms = 10;
  incoming_queue = [];
}

-- The event that `ReportSecurityEvent` queues. The bytes are those that the caller's pointer and
-- size give; a NULL pointer is no bytes.
unfoldable pub own_event : ℕ → List ℕ → ℕ → ℕ → Option Timestamp → OwnedSev
own_event sev_id context version count timestamp = record {
  security_event_id = sev_id;
  context_data = context;
  context_data_version = version;
  count = if count == 0 then 1 else count;
  has_timestamp = elim timestamp [ none ↦ false | some t ↦ true ];
  timestamp = elim timestamp [
    | none ↦ record { seconds = 0; nanoseconds = 0; source = autosar }
    | some t ↦ t
  ];
}

-- ReportSecurityEvent
unfoldable pub report_security_event : ℕ → List ℕ → ℕ → ℕ → Option Timestamp → Manager → Manager
unfolding own_event
report_security_event sev_id context version count timestamp m =
    if not (m.worker_running) then m else elim (get_elem? (m.sevs) sev_id) [
      | none ↦ m
      | some state ↦ record m {
        sevs = set (m.sevs) sev_id (record state { pending_count = u32 (state.pending_count + 1) });
        incoming_queue =
            m.incoming_queue ++ (own_event sev_id context version count timestamp ∷ []);
        stats = record (m.stats) { events_reported = u32 (m.stats.events_reported + 1) };
      }
    ]

unfoldable pub get_reporting_mode : ℕ → Manager → ReportingMode
get_reporting_mode sev_id m = elim (get_elem? (m.sevs) sev_id) [
  | none ↦ off
  | some state ↦ state.reporting_mode
]

unfoldable pub set_reporting_mode : ℕ → ReportingMode → Manager → Manager × ReturnCode
set_reporting_mode sev_id mode m =
    if is_out_of_range mode then (m, e_param_config) else elim (get_elem? (m.sevs) sev_id) [
      | none ↦ (m, e_param_config)
      | some state ↦
          (record m { sevs = set (m.sevs) sev_id (record state { reporting_mode = mode }) }, e_ok)
    ]

unfoldable pub bswm_state_changed : ℕ → Manager → Manager
bswm_state_changed state m = record m { block_state = state }

unfoldable pub get_detection_status : ℕ → Manager → DetectionStatus
get_detection_status sev_id m = elim (get_elem? (m.sevs) sev_id) [
  | none ↦ uninitialized
  | some state ↦ state.detection_status
]

unfoldable pub reset_detection_status : ℕ → Manager → Manager × ReturnCode
reset_detection_status sev_id m = elim (get_elem? (m.sevs) sev_id) [
  | none ↦ (m, e_param_config)
  | some state ↦
      (record m { sevs = set (m.sevs) sev_id (record state { detection_status = ok }) }, e_ok)
]

unfoldable pub get_pending_event_count : ℕ → Manager → ℕ
get_pending_event_count sev_id m = elim (get_elem? (m.sevs) sev_id) [
  | none ↦ 0
  | some state ↦ state.pending_count
]

-- FlushEvents; `now` is its reading of `nowMs()`.
unfoldable pub flush_events : ℕ → ℕ → Manager → Manager × ReturnCode
unfolding release
flush_events sev_id now m = elim (get_elem? (m.sevs) sev_id) [
  | none ↦ (m, e_param_config)
  | some state ↦ elim (state.agg_pending) [
    | none ↦ (m, e_ok)
    | some staged ↦
        let (next, out) = release now state staged in
        (qualify_some (state.config) out (record m { sevs = set (m.sevs) sev_id next }), e_ok)
  ]
]

unfoldable pub is_security_event_configured : ℕ → Manager → Bool
is_security_event_configured sev_id m = ltb sev_id (length (m.sevs))

unfoldable pub set_dem_report_callback : Option ℕ → Manager → Manager
set_dem_report_callback cb m = record m { dem_cb = cb }

unfoldable pub register_idsr_sink : Option ℕ → Manager → Manager
register_idsr_sink cb m = record m { idsr_cb = cb }

unfoldable pub set_nvm_store_callback : Option ℕ → Manager → Manager
set_nvm_store_callback cb m = record m { nvm_cb = cb }

unfoldable pub reset_stats : Manager → Manager
reset_stats m = record m { stats = no_stats }

-- IdsM_ReportEvent of src/IdsM.c: the argument, when not NULL, gives a monitor ID and a payload.
unfoldable pub report_event : Option (ℕ × List ℕ) → Manager → Manager × ReturnCode
unfolding is_security_event_configured report_security_event
report_event none m = (m, e_param_pointer)
report_event (some (monitor_id, payload)) m =
    if is_security_event_configured monitor_id m
    then (report_security_event monitor_id payload 1 1 none m, e_ok)
    else (m, e_param_config)
