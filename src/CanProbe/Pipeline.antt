-- ===== src/CanProbe/Pipeline.antt =====
-- apps/can_probe/pipeline.h and pipeline.cpp: the detectors wired together. The callback's calls are
-- the list of alerts that a frame gives, in order.
use autosar_idsm.Prelude.{ℕ, not, ◌&&◌, Option, none, some, List, [], ◌∷◌, ◌++◌, if◌then◌else◌}
use autosar_idsm.CanProbe.Frame.{CanFrame, parse_can_frame, is_diag_request_id, is_diag_response_id}
use autosar_idsm.CanProbe.Alert.{CanAlert, check_dlc_anomaly, check_remote_frame}
use autosar_idsm.CanProbe.Floods.{
  Window, no_window, FloodConfig, Cycle, id_flood_feed, bus_flood_feed, error_burst_feed,
  diag_flood_feed, unknown_id_enabled, unknown_id_feed, cycle_feed,
}
use autosar_idsm.CanProbe.Diagnostics.{
  SecAccessConfig, SecAccess, SvcScanConfig, SvcScan, sec_access_feed, svc_scan_feed,
}

-- CanProbePipeline::Impl: the detectors, each with its configuration.
pub record Pipeline : Type 0 where
  pub known : List ℕ
  pub cycle_cooldown_ms : ℕ
  pub cycle : List (ℕ × Cycle)
  pub id_flood_config : FloodConfig
  pub id_flood : List (ℕ × Window)
  pub bus_flood_config : FloodConfig
  pub bus_flood : Window
  pub err_burst_config : FloodConfig
  pub err_burst : Window
  pub diag_flood_config : FloodConfig
  pub diag_flood : List (ℕ × Window)
  pub sec_access_config : SecAccessConfig
  pub sec_access : List (ℕ × SecAccess)
  pub svc_scan_config : SvcScanConfig
  pub svc_scan : List (ℕ × SvcScan)

-- A pipeline with the defaults of the Config structs.
abbrev pub default_pipeline : Pipeline
default_pipeline = record {
  known = [];
  cycle_cooldown_ms = 60000;
  cycle = [];
  id_flood_config = record { window_ms = 1000; threshold = 100 };
  id_flood = [];
  bus_flood_config = record { window_ms = 1000; threshold = 1000 };
  bus_flood = no_window;
  err_burst_config = record { window_ms = 1000; threshold = 20 };
  err_burst = no_window;
  diag_flood_config = record { window_ms = 1000; threshold = 50 };
  diag_flood = [];
  sec_access_config = record { window_ms = 60000; seed_threshold = 5; key_threshold = 5 };
  sec_access = [];
  svc_scan_config = record { window_ms = 10000; svc_threshold = 8 };
  svc_scan = [];
}

-- `if (auto a = …) emit(*a);`
abbrev pub emit : Option CanAlert → List CanAlert
emit none = []
emit (some a) = a ∷ []

-- The whitelist check: standardized diagnostics identifiers are never unknown.
unfoldable pub check_unknown : List ℕ → CanFrame → List CanAlert
check_unknown known f =
    if unknown_id_enabled known
      && not (is_diag_request_id (f.can_id))
      && not (is_diag_response_id (f.can_id))
    then emit (unknown_id_feed known f)
    else []

-- The detectors that see diagnostic requests only.
unfoldable pub feed_diagnostics : CanFrame → ℕ → Pipeline → Pipeline × List CanAlert
feed_diagnostics f now p =
    let (diag, a1) = diag_flood_feed (p.diag_flood_config) f now (p.diag_flood) in
    let (sec, a2) = sec_access_feed (p.sec_access_config) f now (p.sec_access) in
    let (svc, a3) = svc_scan_feed (p.svc_scan_config) f now (p.svc_scan) in
    if is_diag_request_id (f.can_id)
    then (
      record p { diag_flood = diag; sec_access = sec; svc_scan = svc },
      emit a1 ++ (emit a2 ++ emit a3),
    )
    else (p, [])

-- The path of a data frame after the DLC check.
unfoldable pub feed_data : CanFrame → ℕ → Pipeline → Pipeline × List CanAlert
feed_data f now p =
    let (cycle, a1) = cycle_feed (p.cycle_cooldown_ms) f now (p.cycle) in
    let (ids, a2) = id_flood_feed (p.id_flood_config) f now (p.id_flood) in
    let (bus, a3) = bus_flood_feed (p.bus_flood_config) f now (p.bus_flood) in
    let (next, rest) =
      feed_diagnostics f now (record p { cycle = cycle; id_flood = ids; bus_flood = bus }) in
    (next, check_unknown (p.known) f ++ (emit a1 ++ (emit a2 ++ (emit a3 ++ rest))))

-- CanProbePipeline::feed_frame
unfoldable pub feed_frame : CanFrame → ℕ → Pipeline → Pipeline × List CanAlert
feed_frame f now p =
    let (burst, alert) = error_burst_feed (p.err_burst_config) f now (p.err_burst) in
    let (next, rest) = feed_data f now p in
    if f.err
    then (record p { err_burst = burst }, emit alert)
    else if f.rtr
    then (p, emit (check_dlc_anomaly f) ++ emit (check_remote_frame f))
    else (next, emit (check_dlc_anomaly f) ++ rest)

-- CanProbePipeline::feed_raw
unfoldable pub feed_raw : Option (List ℕ) → ℕ → ℕ → Pipeline → Pipeline × List CanAlert
feed_raw bytes len now p = elim (parse_can_frame bytes len) [
  | none ↦ (p, [])
  | some f ↦ feed_frame f now p
]
