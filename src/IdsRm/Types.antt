-- ===== src/IdsRm/Types.antt =====
-- The data of include/IdsRm_Types.h and include/IdsRm_Internal.h.
use autosar_idsm.Prelude.{ℕ, Bool, List}
use autosar_idsm.Idsm.Types.{OwnedQsev}

-- The return codes of the reporter.
pub data RmReturn : Type 0 where
  done not_ok null_pointer not_initialized : RmReturn

-- IdsRm_ConfigType; the two character arrays are lists of bytes.
pub record RmConfig : Type 0 where
  pub soc_url : List ℕ
  pub auth_token : List ℕ
  pub timeout_ms : ℕ
  pub retry_count : ℕ
  pub enabled : Bool

-- IdsRm_StatsType
pub record RmStats : Type 0 where
  pub events_received : ℕ
  pub events_dropped : ℕ
  pub events_posted : ℕ
  pub events_failed : ℕ
  pub http_retries : ℕ

abbrev pub no_rm_stats : RmStats
no_rm_stats = record {
  events_received = 0;
  events_dropped = 0;
  events_posted = 0;
  events_failed = 0;
  http_retries = 0;
}

-- The members of IdsRm_Manager, whether each of its threads can be joined, and whether the last call
-- of IdsM_RegisterIdsrSink gave the reporter's callback. `sink_connected` is `m_sink_fd >= 0`.
pub record Reporter : Type 0 where
  pub initialized : Bool
  pub enabled : Bool
  pub registered : Bool
  pub worker_running : Bool
  pub worker_joinable : Bool
  pub event_queue : List OwnedQsev
  pub soc_url : List ℕ
  pub auth_token : List ℕ
  pub timeout_ms : ℕ
  pub retry_count : ℕ
  pub stats : RmStats
  pub sink_running : Bool
  pub sink_joinable : Bool
  pub sink_queue : List OwnedQsev
  pub sink_path : List ℕ
  pub sink_connected : Bool
