-- ===== src/CanProbe/Tests.antt =====
-- Runs of the CAN probe, and each of its theorems at a concrete input.
use autosar_idsm.Prelude.{
  ℕ, ◌<◌, ◌≤◌, ◌≡◌, ◌⊎◌, refl, true, false, none, some, List, [], ◌∷◌, ◌++◌, replicate, length,
  get_elem?, arith,
}
use autosar_idsm.Prelude.Dict.{find_or}
use autosar_idsm.Idsm.Types.{
  SevConfig, SevState, OwnedQsev, Manager, detailed, medium, autosar, no_stats,
}
use autosar_idsm.Idsm.Api.{fresh_sev}
use autosar_idsm.CanProbe.Frame.{CanFrame, empty_frame, parse_can_frame}
use autosar_idsm.CanProbe.Alert.{CanAlert, make_alert, dt_cycle_anomaly}
use autosar_idsm.CanProbe.Floods.{no_window, FloodConfig, Cycle, no_cycle}
use autosar_idsm.CanProbe.Pipeline.{Pipeline, default_pipeline, feed_frame}
use autosar_idsm.CanProbe.Report.{serialize_context}
use autosar_idsm.CanProbe.Parsing.{encode, parse_can_frame-classic, parse_can_frame_bounds}
use autosar_idsm.CanProbe.Windows.{
  bus_answers, bus_alert, bus_answers_lem, id_flood_run, window_run, id_flood_run-find,
}
use autosar_idsm.CanProbe.Routing.{AllAllowed, feed_frame-AllAllowed}
use autosar_idsm.CanProbe.Context.{read_context, read_context-serialize_context}
use autosar_idsm.CanProbe.Setup.{Args, configure, flood_config, sec_access_config, svc_scan_config}
use autosar_idsm.CanProbe.Shutdown.{flush_from, staged_at, flush_from-staged_at}
use autosar_idsm.CanProbe.Delivery.{report_all, all_queued_as, report_all-feed_frame}

abbrev eight_bytes : List ℕ
eight_bytes = 2 ∷ 0x27 ∷ 1 ∷ 0 ∷ 0 ∷ 0 ∷ 0 ∷ 0 ∷ []

-- A request for a security-access seed.
abbrev seed_request : CanFrame
seed_request = record empty_frame {
  can_id = 0x7E0;
  dlc = 8;
  len = 8;
  payload = eight_bytes ++ replicate 56 0;
}

parse_can_frame-classic_example :
    parse_can_frame (some (encode 0x7E0 false false false 8 eight_bytes)) 16 ≡ some seed_request
parse_can_frame-classic_example =
    parse_can_frame-classic 0x7E0 false false false 8 eight_bytes (omega arith) refl

parse_can_frame_bounds_example :
    ((length (encode 0x7E0 false false false 8 eight_bytes) ≡ 16)
      ⊎ (length (encode 0x7E0 false false false 8 eight_bytes) ≡ 72))
    × (seed_request.can_id < 0x800)
    × (seed_request.len ≤ 8)
    × (seed_request.len ≤ seed_request.dlc)
parse_can_frame_bounds_example =
    parse_can_frame_bounds (encode 0x7E0 false false false 8 eight_bytes) 16 seed_request
      parse_can_frame-classic_example

abbrev small_flood : FloodConfig
small_flood = record { window_ms = 1000; threshold = 3 }

abbrev burst : List (ℕ × CanFrame)
burst = (110, seed_request) ∷ (120, seed_request) ∷ (130, seed_request) ∷ []

bus_answers_lem_example :
    get_elem? (bus_answers small_flood no_window ((100, seed_request) ∷ burst)) 2
    ≡ some (some (bus_alert small_flood))
bus_answers_lem_example =
    bus_answers_lem small_flood 100 seed_request burst 2 (omega arith) (omega arith) (omega arith)
      (omega arith) (omega arith)
      ((omega arith, omega arith), ((omega arith, omega arith), ((omega arith, omega arith), tt)))
      (omega arith)

id_flood_run-find_example :
    find_or no_window 0x7E0 (id_flood_run small_flood [] ((105, empty_frame) ∷ burst))
    ≡ window_run small_flood 0x7E0 no_window ((105, empty_frame) ∷ burst)
unfolding find_or
id_flood_run-find_example = id_flood_run-find small_flood 0x7E0 [] ((105, empty_frame) ∷ burst)

abbrev ten_ms : Cycle
ten_ms = record no_cycle { min_ms = 10; seen = true; last_ms = 100 }

-- A frame 3 ms after the last one alerts.
abbrev too_soon : CanAlert
unfolding make_alert
too_soon = make_alert dt_cycle_anomaly seed_request 3

feed_frame-AllAllowed_example :
    AllAllowed seed_request (feed_frame seed_request 100 default_pipeline).1
feed_frame-AllAllowed_example = feed_frame-AllAllowed seed_request 100 default_pipeline

read_context-serialize_context_example : read_context (serialize_context too_soon) ≡ some too_soon
unfolding too_soon
read_context-serialize_context_example =
    read_context-serialize_context too_soon (omega arith) (omega arith) (omega arith)

-- The configuration of each of the probe's SEvs.
abbrev can_sev : SevConfig
can_sev = record {
  external_event_id = 0x8100;
  sensor_instance_id = 0;
  severity = medium;
  default_reporting_mode = detailed;
  block_state = none;
  forward_every_nth = 0;
  aggregation_interval_ms = 0;
  threshold = 0;
  threshold_interval_ms = 0;
  sink_to_dem = false;
  sink_to_idsr = true;
}

abbrev ready : Manager
ready = record {
  worker_running = true;
  worker_joinable = true;
  incoming_queue = [];
  sevs = replicate 10 (fresh_sev can_sev);
  idsm_instance_id = 1;
  main_function_period_ms = 10;
  block_state = 0;
  dem_cb = none;
  idsr_cb = some 12;
  nvm_cb = none;
  stats = no_stats;
  sent = [];
}

report_all-feed_frame_example :
    (report_all (feed_frame seed_request 100 default_pipeline).1 ready).incoming_queue
    ≡ [] ++ all_queued_as (feed_frame seed_request 100 default_pipeline).1
report_all-feed_frame_example =
    report_all-feed_frame seed_request 100 default_pipeline ready
      (record { running = refl; configured = omega arith })

-- The command line `--window 500 --id-fps 40`.
abbrev command_line : Args
command_line = record {
  window_ms = 500;
  id_fps = 40;
  bus_fps = 0;
  diag_fps = 0;
  err_max = 0;
  sec_seeds = 0;
  sec_keys = 0;
  svc_max = 0;
}

abbrev set_up : Pipeline
unfolding configure flood_config sec_access_config svc_scan_config
set_up = configure command_line default_pipeline

abbrev tail_alert : OwnedQsev
tail_alert = record {
  idsm_instance_id = 1;
  external_event_id = 0x8100;
  sensor_instance_id = 0;
  severity = medium;
  count = 7;
  has_timestamp = true;
  timestamp = record { seconds = 1700000000; nanoseconds = 5; source = autosar };
  context_data_version = 1;
  context_data = 3 ∷ [];
}

-- The second SEv has an open window.
abbrev open_sev : SevState
unfolding fresh_sev
open_sev = record (fresh_sev can_sev) { agg_pending = some tail_alert; agg_window_start_ms = 900 }

abbrev ending : Manager
ending = record ready { sevs = fresh_sev can_sev ∷ open_sev ∷ [] }

flush_from-staged_at_example : staged_at 1 (flush_from 0 (950 ∷ 951 ∷ []) ending) ≡ none
flush_from-staged_at_example =
    flush_from-staged_at 0 1 (950 ∷ 951 ∷ []) ending (omega arith) (omega arith)
