-- ===== src/Idsm/Types.antt =====
-- The data of include/IdsM_Types.h and include/IdsM_Internal.h. An unsigned C integer is a number
-- below 2 to its width; a pointer that may be NULL is an option.
use Prim.Native.Nat.{ℕ}
use mathlib.Core.Bool.{Bool}
use mathlib.Core.Option.{Option}
use mathlib.Core.List.{List}

-- IdsM_DetectionStatusType
pub data DetectionStatus : Type 0 where
  ok violation uninitialized : DetectionStatus

-- IdsM_EventSeverityType
pub data Severity : Type 0 where
  low medium high critical : Severity

-- IdsM_TimestampSourceType
pub data TimestampSource : Type 0 where
  autosar oem : TimestampSource

-- IdsM_TimestampDataType
pub record Timestamp : Type 0 where
  pub seconds : ℕ
  pub nanoseconds : ℕ
  pub source : TimestampSource

-- IdsM_Filters_ReportingModeType. A caller in C may pass any integer: `out_of_range` stands for the
-- values above IDSM_REPORTING_DETAILED_BYPASSING_FILTERS.
pub data ReportingMode : Type 0 where
  off brief detailed brief_bypassing detailed_bypassing : ReportingMode
  out_of_range : ℕ → ReportingMode

-- IdsM_QualifiedSecurityEventType, the C struct that sinks and the serializer read.
pub record Qsev : Type 0 where
  pub idsm_instance_id : ℕ
  pub external_event_id : ℕ
  pub sensor_instance_id : ℕ
  pub severity : Severity
  pub count : ℕ
  pub has_timestamp : Bool
  pub timestamp : Timestamp
  pub context_data_version : ℕ
  pub context_data : Option (List ℕ)
  pub context_data_size : ℕ

-- IdsM_BlockStateFilterConfigType; `blocked_states` is an array of eight.
pub record BlockStateConfig : Type 0 where
  pub blocked_states : List ℕ
  pub num_blocked_states : ℕ

-- IdsM_SecurityEventConfigType
pub record SevConfig : Type 0 where
  pub external_event_id : ℕ
  pub sensor_instance_id : ℕ
  pub severity : Severity
  pub default_reporting_mode : ReportingMode
  pub block_state : Option BlockStateConfig
  pub forward_every_nth : ℕ
  pub aggregation_interval_ms : ℕ
  pub threshold : ℕ
  pub threshold_interval_ms : ℕ
  pub sink_to_dem : Bool
  pub sink_to_idsr : Bool

-- IdsM_ConfigType. `sev_configs` is the array that `sev_count` measures, or NULL. The rate and
-- traffic limits and the buffer size are not read by the manager.
pub record Config : Type 0 where
  pub idsm_instance_id : ℕ
  pub main_function_period_ms : ℕ
  pub sev_configs : Option (List SevConfig)
  pub sev_count : ℕ

-- IdsM_OwnedSEv
pub record OwnedSev : Type 0 where
  pub security_event_id : ℕ
  pub context_data : List ℕ
  pub context_data_version : ℕ
  pub count : ℕ
  pub has_timestamp : Bool
  pub timestamp : Timestamp

-- IdsM_OwnedQSEv
pub record OwnedQsev : Type 0 where
  pub idsm_instance_id : ℕ
  pub external_event_id : ℕ
  pub sensor_instance_id : ℕ
  pub severity : Severity
  pub count : ℕ
  pub has_timestamp : Bool
  pub timestamp : Timestamp
  pub context_data_version : ℕ
  pub context_data : List ℕ

-- IdsM_SevState
pub record SevState : Type 0 where
  pub config : SevConfig
  pub reporting_mode : ReportingMode
  pub detection_status : DetectionStatus
  pub pending_count : ℕ
  pub nth_counter : ℕ
  pub agg_pending : Option OwnedQsev
  pub agg_has_context : Bool
  pub agg_window_start_ms : ℕ
  pub thr_accumulated : ℕ
  pub thr_window_start_ms : ℕ
  pub thr_window_open : Bool

-- IdsM_Manager::Stats
pub record Stats : Type 0 where
  pub events_reported : ℕ
  pub dropped_reporting_off : ℕ
  pub dropped_block_state : ℕ
  pub dropped_sampling : ℕ
  pub dropped_threshold : ℕ
  pub events_qualified : ℕ
  pub sent_to_dem : ℕ
  pub sent_to_idsr : ℕ

abbrev pub no_stats : Stats
no_stats = record {
  events_reported = 0;
  dropped_reporting_off = 0;
  dropped_block_state = 0;
  dropped_sampling = 0;
  dropped_threshold = 0;
  events_qualified = 0;
  sent_to_dem = 0;
  sent_to_idsr = 0;
}

-- A call of a registered sink callback: the callback's address and the event that it is given.
pub record Delivery : Type 0 where
  pub callback : ℕ
  pub event : Qsev

-- The members of IdsM_Manager that its mutex guards, the flag m_worker_running, whether
-- m_worker_thread can be joined, and the sink calls made so far. A callback is its address.
pub record Manager : Type 0 where
  pub worker_running : Bool
  pub worker_joinable : Bool
  pub incoming_queue : List OwnedSev
  pub sevs : List SevState
  pub idsm_instance_id : ℕ
  pub main_function_period_ms : ℕ
  pub block_state : ℕ
  pub dem_cb : Option ℕ
  pub idsr_cb : Option ℕ
  pub nvm_cb : Option ℕ
  pub stats : Stats
  pub sent : List Delivery

-- What one call of `processEvent` reads from the clocks: `nowMs()` at its start, `nowMs()` again
-- where aggregation opens a window, and the system clock of `makeInternalTimestamp()`, in seconds
-- and nanoseconds.
pub record Clock : Type 0 where
  pub now_ms : ℕ
  pub staged_ms : ℕ
  pub system_seconds : ℕ
  pub system_nanoseconds : ℕ

-- STD_RETURN_TYPE
pub data ReturnCode : Type 0 where
  e_ok e_not_ok e_param_pointer e_param_config : ReturnCode
