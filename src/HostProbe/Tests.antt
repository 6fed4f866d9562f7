-- ===== src/HostProbe/Tests.antt =====
-- Runs of the host probe, and each of its theorems at a concrete input.
use autosar_idsm.Prelude.{
  ℕ, ◌≡◌, refl, true, false, some, ◌&&◌, not, List, [], ◌∷◌, ◌++◌, replicate, length, ltb, leb,
  if◌then◌else◌, arith,
}
use autosar_idsm.Idsm.Types.{Manager}
use autosar_idsm.HostProbe.Event.{ExecEvent, FileScanEvent, SnapshotEvent, HostEvent}
use autosar_idsm.HostProbe.Event.HostEventKind.{exec}
use autosar_idsm.HostProbe.Alert.{HostAlert, empty_alert}
use autosar_idsm.HostProbe.Detectors.{UnknownExec, root_shell_feed}
use autosar_idsm.HostProbe.Floods.{Storm}
use autosar_idsm.HostProbe.Pipeline.{default_host_pipeline, feed_event, quiet, calm}
use autosar_idsm.HostProbe.Keyed.{spaced, alerts_of}
use autosar_idsm.HostProbe.Muting.{
  unknown_exec_detector, priv_esc_detector, rev_shell_detector, root_shell_detector,
  file_mod_detector, new_setuid_detector, kmod_load_detector, alerts_are_spaced,
}
use autosar_idsm.HostProbe.Routing.{Routed, route, feed_event-Routed}
use autosar_idsm.HostProbe.Report.{serialize_context, report_all}
use autosar_idsm.HostProbe.Context.{read_context, read_host_context}
use autosar_idsm.HostProbe.Delivery.{all_queued_as, report_all-queued_events}
use autosar_idsm.Idsm.Worker.{idle_world}
use autosar_idsm.HostProbe.Setup.{init-host_config}
use autosar_idsm.HostProbe.Hex.{sha256_hex}
use autosar_idsm.HostProbe.Baseline.{load_file_baseline_lines}
use autosar_idsm.HostProbe.Cleaning.{load_file_baseline_lines-sha256_hex}
use autosar_idsm.Prelude.{bytes_key}
use autosar_idsm.Prelude.Assoc.{store}
use autosar_idsm.HostProbe.Storms.{fork_alerts, fork_alerts_once}

-- A shell of the user root, started by sshd.
abbrev root_shell_exec : ExecEvent
root_shell_exec = record {
  pid = 100;
  ppid = 50;
  uid = 0;
  euid = 0;
  gid = 0;
  egid = 0;
  comm = 115 ∷ 104 ∷ replicate 14 0;
  parent_comm = 115 ∷ 115 ∷ 104 ∷ 100 ∷ replicate 12 0;
  exe = [];
}

abbrev no_file : FileScanEvent
no_file = record { path = []; sha256 = []; present = false; mode = 0; uid = 0 }

abbrev no_snapshot : SnapshotEvent
no_snapshot = record {
  zombies = 0;
  top_cpu_pid = 0;
  top_cpu_uid = 0;
  top_cpu_ppm = 0;
  top_cpu_comm = [];
  top_mem_pid = 0;
  top_mem_uid = 0;
  top_mem_rss_kb = 0;
  top_mem_comm = [];
}

abbrev shell_event : HostEvent
shell_event = record {
  kind = exec;
  ts_ms = 5000;
  exec_ = root_shell_exec;
  file = no_file;
  module_ = record { name = [] };
  snap = no_snapshot;
}

-- The alerts of a reverse shell and of a root shell, and no others.
shell_alerts :
    (feed_event shell_event default_host_pipeline).0
    ≡ record empty_alert {
      detector_type = 4;
      flags = 8;
      pid = 100;
      aux = 50;
      name = 115 ∷ 104 ∷ replicate 10 0;
    }
      ∷ record empty_alert {
        detector_type = 10;
        pid = 100;
        aux = 2;
        name = 115 ∷ 104 ∷ replicate 10 0;
      }
      ∷ []
unfolding feed_event
shell_alerts = refl

feed_event-Routed_example :
    Routed (feed_event shell_event default_host_pipeline).0 (route (shell_event.kind))
feed_event-Routed_example = feed_event-Routed shell_event default_host_pipeline

abbrev allowing : UnknownExec
allowing = record { cooldown_ms = 60000; exact = []; base = (108 ∷ 115 ∷ []) ∷ []; muted = [] }

abbrev two_execs : List (ExecEvent × ℕ)
two_execs = (root_shell_exec, 1000) ∷ (root_shell_exec, 2000) ∷ (root_shell_exec, 61000) ∷ []

-- The second shell is muted, the third is not.
two_alerts :
    alerts_of root_shell_detector two_execs quiet
    ≡ (115 ∷ 104 ∷ [], 1000) ∷ (115 ∷ 104 ∷ [], 61000) ∷ []
unfolding alerts_of root_shell_feed
two_alerts = refl

alerts_are_spaced_example :
    (spaced 60000 (alerts_of unknown_exec_detector two_execs allowing) ≡ true)
    × (spaced 60000 (alerts_of priv_esc_detector two_execs quiet) ≡ true)
    × (spaced 60000 (alerts_of rev_shell_detector two_execs (default_host_pipeline.rev_shell))
        ≡ true)
    × (spaced 60000 (alerts_of root_shell_detector two_execs quiet) ≡ true)
    × (spaced 600000
          (alerts_of file_mod_detector ((no_file, 5) ∷ []) (default_host_pipeline.file_mod))
        ≡ true)
    × (spaced 600000
          (alerts_of new_setuid_detector ((no_file, 5) ∷ []) (default_host_pipeline.new_setuid))
        ≡ true)
    × (spaced 60000 (
          alerts_of kmod_load_detector
            ((record { name = 97 ∷ [] }, 7) ∷ [])
            (default_host_pipeline.kmod))
        ≡ true)
alerts_are_spaced_example =
    alerts_are_spaced two_execs ((no_file, 5) ∷ []) ((record { name = 97 ∷ [] }, 7) ∷ []) allowing
      quiet quiet (default_host_pipeline.rev_shell) (default_host_pipeline.file_mod)
      (default_host_pipeline.new_setuid) (default_host_pipeline.kmod) (ground arith) (ground arith)
      (ground arith) (ground arith) (ground arith) (ground arith) (ground arith)

abbrev shell_alert : HostAlert
shell_alert = record empty_alert { detector_type = 10; pid = 100; aux = 2 }

read_host_context_example :
    (read_context (serialize_context shell_alert) ≡ some shell_alert)
    × (length (serialize_context shell_alert) ≡ 32)
read_host_context_example =
    read_host_context shell_alert (omega arith) (omega arith) (omega arith) (omega arith) refl

-- The window of a second with a threshold of two, begun.
abbrev begun : Storm
begun = record (calm 2) { started = true; window_start = 1000 }

fork_alerts_once_example :
    fork_alerts (1000 ∷ 1100 ∷ 1200 ∷ []) begun ≡ (if not false && ltb 0 3 && leb 2 3 then 1 else 0)
fork_alerts_once_example =
    fork_alerts_once (1000 ∷ 1100 ∷ 1200 ∷ []) begun refl (ground arith) (omega arith)

-- The manager after Init with the host probe's configuration.
abbrev fresh_manager : Manager
fresh_manager = (init-host_config (idle_world.manager) refl).0

report_all-queued_events_example :
    (report_all (feed_event shell_event default_host_pipeline).0 fresh_manager).incoming_queue
    ≡ fresh_manager.incoming_queue ++ all_queued_as (feed_event shell_event default_host_pipeline).0
report_all-queued_events_example =
    report_all-queued_events shell_event default_host_pipeline fresh_manager
      (init-host_config (idle_world.manager) refl).2

load_file_baseline_lines-sha256_hex_example :
    load_file_baseline_lines
      ((sha256_hex (replicate 32 171) ++ (32 ∷ 32 ∷ 47 ∷ 97 ∷ 32 ∷ 98 ∷ [])) ∷ [])
      ([], 0)
    ≡ load_file_baseline_lines [] (store (47 ∷ 97 ∷ 32 ∷ 98 ∷ []) (replicate 32 171) [], 0)
load_file_baseline_lines-sha256_hex_example =
    load_file_baseline_lines-sha256_hex (replicate 32 171) 47 (97 ∷ 32 ∷ 98 ∷ []) [] [] 0 refl
      (ground arith) refl (ground arith) refl
