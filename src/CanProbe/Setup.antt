-- ===== src/CanProbe/Setup.antt =====
-- The set-up of apps/can_probe/main.cpp: the detectors' configuration from the command line, and the
-- configuration of the IDS manager. The parser of the command line is an argument: its numbers.
use autosar_idsm.Prelude.{
  ℕ, ◌+◌, ◌<◌, ◌≡◌, refl, true, false, ◌||◌, none, some, List, [], ◌∷◌, ltb, if◌then◌else◌, u16,
  arith,
}
use autosar_idsm.Idsm.Types.{SevConfig, Config, Manager, no_stats, medium, detailed, e_ok}
use autosar_idsm.Idsm.Api.{
  returned, init, start, fresh_sevs, sev_configs_accepted, sev_config_accepted, fresh_sev,
}
use autosar_idsm.CanProbe.Floods.{FloodConfig}
use autosar_idsm.CanProbe.Diagnostics.{SecAccessConfig, SvcScanConfig}
use autosar_idsm.CanProbe.Pipeline.{Pipeline}
use autosar_idsm.Idsm.Reporting.{IsReady}

-- The numbers of Args; 0 asks for the default.
pub record Args : Type 0 where
  pub window_ms : ℕ
  pub id_fps : ℕ
  pub bus_fps : ℕ
  pub diag_fps : ℕ
  pub err_max : ℕ
  pub sec_seeds : ℕ
  pub sec_keys : ℕ
  pub svc_max : ℕ

-- `x > 0 ? x : d`
abbrev pub positive_or : ℕ → ℕ → ℕ
positive_or x d = if ltb 0 x then x else d

-- `if (limit > 0 || args.window_ms > 0) set_config(Config{window, limit > 0 ? limit : d});`
unfoldable pub flood_config : Args → ℕ → ℕ → FloodConfig → FloodConfig
flood_config args limit d old =
    if ltb 0 limit || ltb 0 (args.window_ms)
    then record { window_ms = positive_or (args.window_ms) 1000; threshold = positive_or limit d }
    else old

unfoldable pub sec_access_config : Args → SecAccessConfig → SecAccessConfig
sec_access_config args old =
    if ltb 0 (args.sec_seeds) || ltb 0 (args.sec_keys)
    then record {
      window_ms = 60000;
      seed_threshold = positive_or (args.sec_seeds) 5;
      key_threshold = positive_or (args.sec_keys) 5;
    }
    else old

unfoldable pub svc_scan_config : Args → SvcScanConfig → SvcScanConfig
svc_scan_config args old =
    if ltb 0 (args.svc_max) then record { window_ms = 10000; svc_threshold = args.svc_max } else old

-- The pipeline set-up of main.
unfoldable pub configure : Args → Pipeline → Pipeline
configure args p = record p {
  id_flood_config = flood_config args (args.id_fps) 100 (p.id_flood_config);
  bus_flood_config = flood_config args (args.bus_fps) 1000 (p.bus_flood_config);
  err_burst_config = flood_config args (args.err_max) 20 (p.err_burst_config);
  diag_flood_config = flood_config args (args.diag_fps) 50 (p.diag_flood_config);
  sec_access_config = sec_access_config args (p.sec_access_config);
  svc_scan_config = svc_scan_config args (p.svc_scan_config);
}

-- The SEv of detector type i + 1.
unfoldable pub can_sev_config : ℕ → SevConfig
can_sev_config i = record {
  external_event_id = u16 (0x8011 + i);
  sensor_instance_id = 0;
  severity = medium;
  default_reporting_mode = detailed;
  block_state = none;
  forward_every_nth = 0;
  aggregation_interval_ms = 1000;
  threshold = 0;
  threshold_interval_ms = 0;
  sink_to_dem = true;
  sink_to_idsr = true;
}

abbrev pub can_sev_configs : List SevConfig
unfolding can_sev_config
can_sev_configs =
    can_sev_config 0
    ∷ can_sev_config 1
    ∷ can_sev_config 2
    ∷ can_sev_config 3
    ∷ can_sev_config 4
    ∷ can_sev_config 5
    ∷ can_sev_config 6
    ∷ can_sev_config 7
    ∷ can_sev_config 8
    ∷ can_sev_config 9
    ∷ []

abbrev pub can_config : Config
can_config = record {
  idsm_instance_id = 1;
  main_function_period_ms = 10;
  sev_configs = some can_sev_configs;
  sev_count = 10;
}

-- A detector divides by its window and compares with its threshold: neither is 0.
abbrev pub IsUsable : FloodConfig → Type 0
IsUsable c = (0 < c.window_ms) × (0 < c.threshold)

flood_config-IsUsable :
    (args : Args) (limit d : ℕ) (old : FloodConfig)
    → 0 < d
    → IsUsable old
    → IsUsable (flood_config args limit d old)
unfolding flood_config
flood_config-IsUsable args limit d old h (w, t) = (ground arith, ground arith)

-- Whatever numbers the command line gives, flood detectors that have a window and a threshold above
-- 0 before the set-up have both above 0 after it.
pub configure-IsUsable :
    (args : Args) (p : Pipeline)
    → IsUsable (p.id_flood_config)
    → IsUsable (p.bus_flood_config)
    → IsUsable (p.err_burst_config)
    → IsUsable (p.diag_flood_config)
    → IsUsable ((configure args p).id_flood_config)
      × IsUsable ((configure args p).bus_flood_config)
      × IsUsable ((configure args p).err_burst_config)
      × IsUsable ((configure args p).diag_flood_config)
unfolding configure
configure-IsUsable args p a b c d = (
  flood_config-IsUsable args (args.id_fps) 100 (p.id_flood_config) (omega arith) a,
  flood_config-IsUsable args (args.bus_fps) 1000 (p.bus_flood_config) (omega arith) b,
  flood_config-IsUsable args (args.err_max) 20 (p.err_burst_config) (omega arith) c,
  flood_config-IsUsable args (args.diag_fps) 50 (p.diag_flood_config) (omega arith) d,
)

-- The manager accepts the probe's configuration: on a manager whose worker is not running, Init
-- succeeds and leaves it running with the SEvs of all ten detectors.
pub init-can_config :
    (m : Manager)
    → m.worker_joinable ≡ false
    → (ready : Manager) × (init (some can_config) m ≡ returned e_ok ready) × IsReady ready
unfolding init start sev_configs_accepted sev_config_accepted can_sev_configs can_sev_config
    fresh_sev
init-can_config m idle =
    let ready : Manager = record m {
      sevs = fresh_sevs can_sev_configs;
      idsm_instance_id = 1;
      main_function_period_ms = 10;
      block_state = 0;
      stats = no_stats;
      worker_running = true;
      worker_joinable = true;
    } in
    (ready, rw idle refl, record { running = refl; configured = omega arith })
