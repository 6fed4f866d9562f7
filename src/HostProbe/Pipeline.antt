-- ===== src/HostProbe/Pipeline.antt =====
-- The pipeline of apps/host_probe/pipeline.h and pipeline.cpp: HostProbePipeline. The callback is the
-- list of the alerts that it is called with.
use autosar_idsm.Prelude.{ℕ, false, Option, none, some, List, [], ◌∷◌, ◌++◌}
use autosar_idsm.HostProbe.Event.{HostEvent, ExecEvent, FileScanEvent}
use autosar_idsm.HostProbe.Event.HostEventKind.{exec, file_scan, module_scan, snapshot}
use autosar_idsm.HostProbe.Alert.{HostAlert}
use autosar_idsm.HostProbe.Names.{k_default}
use autosar_idsm.HostProbe.Detectors.{
  UnknownExec, Muting, RevShell, FileMod, Known, unknown_exec_feed, priv_esc_feed, rev_shell_feed,
  file_mod_feed, new_setuid_feed, kmod_load_feed, root_shell_feed, add_allowed, add_baseline,
}
use autosar_idsm.HostProbe.Floods.{
  Storm, ResExhaust, fork_flood_feed, zombie_storm_feed, res_exhaust_feed,
}

pub record HostPipeline : Type 0 where
  pub unknown_exec : UnknownExec
  pub priv_esc : Muting
  pub fork_flood : Storm
  pub rev_shell : RevShell
  pub file_mod : FileMod
  pub new_setuid : Known
  pub kmod : Known
  pub zombie : Storm
  pub res : ResExhaust
  pub root_shell : Muting

-- The detectors' default configurations.
abbrev pub quiet : Muting
quiet = record { cooldown_ms = 60000; muted = [] }

abbrev pub calm : ℕ → Storm
calm threshold = record {
  window_ms = 1000;
  threshold = threshold;
  started = false;
  window_start = 0;
  count = 0;
  alerted = false;
}

abbrev pub default_host_pipeline : HostPipeline
default_host_pipeline = record {
  unknown_exec = record { cooldown_ms = 60000; exact = []; base = []; muted = [] };
  priv_esc = quiet;
  fork_flood = calm 200;
  rev_shell = record { cooldown_ms = 60000; net_parents = k_default; muted = [] };
  file_mod = record { cooldown_ms = 600000; baseline = []; muted = [] };
  new_setuid = record { cooldown_ms = 600000; baseline = []; muted = [] };
  kmod = record { cooldown_ms = 60000; baseline = []; muted = [] };
  zombie = calm 100;
  res = record {
    cpu_ppm_threshold = 900;
    rss_kb_threshold = 1048576;
    cooldown_ms = 60000;
    muted_until_ = 0;
  };
  root_shell = quiet;
}

-- The loaders, with what the files hold as lists.
unfoldable pub load_exec_allowlist : List (List ℕ) → HostPipeline → HostPipeline
unfolding add_allowed
load_exec_allowlist [] p = p
load_exec_allowlist (entry ∷ entries) p =
    load_exec_allowlist entries (record p { unknown_exec = add_allowed entry (p.unknown_exec) })

unfoldable pub add_all : List (List ℕ × List ℕ) → Known → Known
unfolding add_baseline
add_all [] d = d
add_all ((path, digest) ∷ rest) d = add_all rest (add_baseline path d)

unfoldable pub load_file_baseline : List (List ℕ × List ℕ) → HostPipeline → HostPipeline
unfolding add_all
load_file_baseline files p = record p {
  new_setuid = add_all files (p.new_setuid);
  file_mod = record (p.file_mod) { baseline = files };
}

unfoldable pub load_module_baseline : List (List ℕ) → HostPipeline → HostPipeline
unfolding add_baseline
load_module_baseline [] p = p
load_module_baseline (name ∷ names) p =
    load_module_baseline names (record p { kmod = add_baseline name (p.kmod) })

-- `if (auto a = feed(...)) emit(*a)`
abbrev pub emitted : Option HostAlert → List HostAlert
emitted none = []
emitted (some a) = a ∷ []

unfoldable pub feed_exec : ExecEvent → ℕ → HostPipeline → List HostAlert × HostPipeline
unfolding unknown_exec_feed priv_esc_feed fork_flood_feed rev_shell_feed root_shell_feed
feed_exec e now p =
    let unknown = unknown_exec_feed e now (p.unknown_exec) in
    let escalated = priv_esc_feed e now (p.priv_esc) in
    let flooded = fork_flood_feed now (p.fork_flood) in
    let reversed = rev_shell_feed e now (p.rev_shell) in
    let rooted = root_shell_feed e now (p.root_shell) in
    (
      emitted (unknown.0)
          ++ (emitted (escalated.0)
              ++ (emitted (flooded.0) ++ (emitted (reversed.0) ++ emitted (rooted.0)))),
      record p {
        unknown_exec = unknown.1;
        priv_esc = escalated.1;
        fork_flood = flooded.1;
        rev_shell = reversed.1;
        root_shell = rooted.1;
      },
    )

unfoldable pub feed_file : FileScanEvent → ℕ → HostPipeline → List HostAlert × HostPipeline
unfolding file_mod_feed new_setuid_feed
feed_file f now p =
    let changed = file_mod_feed f now (p.file_mod) in
    let added = new_setuid_feed f now (p.new_setuid) in
    (
      emitted (changed.0) ++ emitted (added.0),
      record p { file_mod = changed.1; new_setuid = added.1 },
    )

unfoldable pub feed_event : HostEvent → HostPipeline → List HostAlert × HostPipeline
unfolding feed_exec feed_file kmod_load_feed zombie_storm_feed res_exhaust_feed
feed_event ev p =
    let loaded = kmod_load_feed (ev.module_) (ev.ts_ms) (p.kmod) in
    let stormed = zombie_storm_feed (ev.snap) (ev.ts_ms) (p.zombie) in
    let exhausted = res_exhaust_feed (ev.snap) (ev.ts_ms) (p.res) in
    elim (ev.kind) [
      | exec ↦ feed_exec (ev.exec_) (ev.ts_ms) p
      | file_scan ↦ feed_file (ev.file) (ev.ts_ms) p
      | module_scan ↦ (emitted (loaded.0), record p { kmod = loaded.1 })
      | snapshot ↦ (
        emitted (stormed.0) ++ emitted (exhausted.0),
        record p { zombie = stormed.1; res = exhausted.1 },
      )
    ]
