-- ===== src/HostProbe/Setup.antt =====
-- The set-up of apps/host_probe/main.cpp: the detectors' configuration from the command line, whose
-- parser is an argument, and the configuration of the IDS manager.
use autosar_idsm.Prelude.{
  ℕ, ◌+◌, ◌≡◌, refl, true, false, ◌||◌, none, some, List, [], ◌∷◌, ltb, if◌then◌else◌, u16, arith,
}
use autosar_idsm.Idsm.Types.{SevConfig, Config, Manager, no_stats, medium, detailed, e_ok}
use autosar_idsm.Idsm.Api.{
  returned, init, start, fresh_sevs, sev_configs_accepted, sev_config_accepted, fresh_sev,
}
use autosar_idsm.Idsm.Reporting.{IsReady}
use autosar_idsm.HostProbe.Detectors.{add_net_parent}
use autosar_idsm.HostProbe.Pipeline.{HostPipeline}

-- The numbers of Args; 0 asks for the default.
pub record HostArgs : Type 0 where
  pub fork_rate : ℕ
  pub zombie_max : ℕ
  pub cpu_ppm : ℕ
  pub rss_kb : ℕ

-- "pipeline setup"
unfoldable pub configure_host : HostArgs → HostPipeline → HostPipeline
configure_host args p = record p {
  fork_flood =
      if ltb 0 (args.fork_rate)
      then record (p.fork_flood) { window_ms = 1000; threshold = args.fork_rate }
      else p.fork_flood;
  zombie =
      if ltb 0 (args.zombie_max)
      then record (p.zombie) { window_ms = 1000; threshold = args.zombie_max }
      else p.zombie;
  res =
      if ltb 0 (args.cpu_ppm) || ltb 0 (args.rss_kb)
      then record (p.res) {
        cpu_ppm_threshold = if ltb 0 (args.cpu_ppm) then args.cpu_ppm else 900;
        rss_kb_threshold = if ltb 0 (args.rss_kb) then args.rss_kb else 1048576;
        cooldown_ms = 60000;
      }
      else p.res;
}

-- The names of --net-parents.
unfoldable pub add_net_parents : List (List ℕ) → HostPipeline → HostPipeline
unfolding add_net_parent
add_net_parents [] p = p
add_net_parents (n ∷ names) p =
    add_net_parents names (record p { rev_shell = add_net_parent n (p.rev_shell) })

-- The SEv of detector type i + 1.
unfoldable pub host_sev_config : ℕ → SevConfig
host_sev_config i = record {
  external_event_id = u16 (0x8021 + i);
  sensor_instance_id = 0;
  severity = medium;
  default_reporting_mode = detailed;
  block_state = none;
  forward_every_nth = 0;
  aggregation_interval_ms = 1000;
  threshold = 0;
  threshold_interval_ms = 0;
  sink_to_dem = true;
  sink_to_idsr = true;
}

abbrev pub host_config : Config
unfolding host_sev_config
host_config = record {
  idsm_instance_id = 1;
  main_function_period_ms = 10;
  sev_configs = some (
      host_sev_config 0
      ∷ host_sev_config 1
      ∷ host_sev_config 2
      ∷ host_sev_config 3
      ∷ host_sev_config 4
      ∷ host_sev_config 5
      ∷ host_sev_config 6
      ∷ host_sev_config 7
      ∷ host_sev_config 8
      ∷ host_sev_config 9
      ∷ []);
  sev_count = 10;
}

-- The manager accepts the host probe's configuration: on a manager whose worker is not running, Init
-- succeeds and leaves it running with the SEvs of all ten detectors.
pub init-host_config :
    (m : Manager)
    → m.worker_joinable ≡ false
    → (ready : Manager) × (init (some host_config) m ≡ returned e_ok ready) × IsReady ready
unfolding init start sev_configs_accepted sev_config_accepted host_sev_config fresh_sev
init-host_config m idle =
    let ready : Manager = record m {
      sevs = fresh_sevs (
          host_sev_config 0
          ∷ host_sev_config 1
          ∷ host_sev_config 2
          ∷ host_sev_config 3
          ∷ host_sev_config 4
          ∷ host_sev_config 5
          ∷ host_sev_config 6
          ∷ host_sev_config 7
          ∷ host_sev_config 8
          ∷ host_sev_config 9
          ∷ []);
      idsm_instance_id = 1;
      main_function_period_ms = 10;
      block_state = 0;
      stats = no_stats;
      worker_running = true;
      worker_joinable = true;
    } in
    (ready, rw idle refl, record { running = refl; configured = omega arith })
