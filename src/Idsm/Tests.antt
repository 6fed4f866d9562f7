-- ===== src/Idsm/Tests.antt =====
-- Runs of the IDS manager, and each of its theorems at a concrete input.
use autosar_idsm.Prelude.{
  ℕ, ◌+◌, ◌%◌, ◌<◌, ◌≤◌, ◌≡◌, refl, true, false, none, some, List, [], ◌∷◌, replicate, get_elem?,
  take, leb, ◌==◌, u32, arith,
}
use autosar_idsm.Idsm.Types.{
  Config, SevConfig, SevState, OwnedSev, OwnedQsev, Clock, Manager, BlockStateConfig, Timestamp,
  detailed, high, autosar, no_stats,
}
use autosar_idsm.Idsm.Filters.{judge, build_qsev, make_internal_timestamp, pass_threshold}
use autosar_idsm.Idsm.Manager.{
  process_event, expire_windows, expire_sev, expire_loop, expire_threshold, release,
}
use autosar_idsm.Idsm.Api.{
  fresh_sev, get_pending_event_count, init, start, sev_config_accepted, sev_configs_accepted,
  report_security_event, own_event, deinit_join, deinit_signal,
}
use autosar_idsm.Idsm.Worker.{
  stop, stopped, enter, join, World, top, Reach, here, next, idle_world, begin, call, report, serve,
}
use autosar_idsm.Idsm.Sampling.{sampled, total, sampled-fresh_sev}
use autosar_idsm.Idsm.Threshold.{thresholded, counts_of, thresholded_lem}
use autosar_idsm.Idsm.Aggregation.{absorb, qsev_counts, absorb_lem, expire_sev-absorb}
use autosar_idsm.Idsm.Passing.{StopsAt}
use autosar_idsm.Idsm.Verdicts.{LeavesRest, judge-LeavesRest}
use autosar_idsm.Idsm.Sinks.{calls, process_event-sent}
use autosar_idsm.Idsm.Tally.{queued}
use autosar_idsm.Idsm.Pending.{get_pending_event_count-queued}
use autosar_idsm.Idsm.Windows.{expire_windows_covers, expire_sev_wraps}
use autosar_idsm.Idsm.Accounting.{
  process_batch, verdicts, counter, occurrences, by_sampling, process_batch-counter,
}

-- A SEv with every filter off and both sinks on.
abbrev plain : SevConfig
plain = record {
  external_event_id = 0x8000;
  sensor_instance_id = 1;
  severity = high;
  default_reporting_mode = detailed;
  block_state = none;
  forward_every_nth = 0;
  aggregation_interval_ms = 0;
  threshold = 0;
  threshold_interval_ms = 0;
  sink_to_dem = true;
  sink_to_idsr = true;
}

abbrev third : SevConfig
third = record plain { forward_every_nth = 3 }

abbrev blocked_in : BlockStateConfig
blocked_in = record { blocked_states = 4 ∷ 7 ∷ []; num_blocked_states = 2 }

abbrev clock : Clock
clock = record {
  now_ms = 500;
  staged_ms = 500;
  system_seconds = 1700000000;
  system_nanoseconds = 7;
}

abbrev no_time : Timestamp
no_time = record { seconds = 0; nanoseconds = 0; source = autosar }

abbrev event : OwnedSev
event = record {
  security_event_id = 0;
  context_data = 1 ∷ 2 ∷ [];
  context_data_version = 1;
  count = 2;
  has_timestamp = false;
  timestamp = no_time;
}

abbrev staged_event : OwnedQsev
staged_event = record {
  idsm_instance_id = 3;
  external_event_id = 0x8000;
  sensor_instance_id = 1;
  severity = high;
  count = 2;
  has_timestamp = true;
  timestamp = no_time;
  context_data_version = 1;
  context_data = 1 ∷ 2 ∷ [];
}

-- A running manager with the given SEvs and callbacks at addresses 11 and 12.
abbrev running : List SevState → Manager
running sevs = record {
  worker_running = true;
  worker_joinable = true;
  incoming_queue = [];
  sevs = sevs;
  idsm_instance_id = 3;
  main_function_period_ms = 10;
  block_state = 7;
  dem_cb = some 11;
  idsr_cb = some 12;
  nvm_cb = none;
  stats = no_stats;
  sent = [];
}

sampled-fresh_sev_example :
    get_elem? (sampled (fresh_sev third) (replicate 7 1)) 6
    ≡ some (6 % third.forward_every_nth == 0)
sampled-fresh_sev_example = sampled-fresh_sev third 7 6 (omega arith) (omega arith) (omega arith)

abbrev limited : SevState
unfolding fresh_sev
limited = fresh_sev (record plain { threshold = 4; threshold_interval_ms = 1000 })

abbrev arrivals : List (ℕ × ℕ)
arrivals = (10, 2) ∷ (20, 1) ∷ (30, 5) ∷ []

thresholded_lem_example :
    get_elem? (thresholded limited arrivals) 2
    ≡ some (leb (limited.config.threshold) (total (take 3 (counts_of arrivals))))
unfolding limited counts_of total
thresholded_lem_example =
    thresholded_lem limited arrivals 2 (omega arith) refl (omega arith) (omega arith)

abbrev merging : SevState
unfolding fresh_sev
merging = fresh_sev (record plain { aggregation_interval_ms = 1000 })

abbrev more : List (ℕ × OwnedQsev)
more = (120, staged_event) ∷ (130, record staged_event { count = 65535 }) ∷ []

absorb_lem_example : absorb merging ((100, staged_event) ∷ more) ≡ record merging {
  agg_pending = some (record staged_event { count = 65535 });
  agg_has_context = true;
  agg_window_start_ms = 100;
}
unfolding merging qsev_counts total
absorb_lem_example =
    absorb_lem merging 100 staged_event more (omega arith) refl
      (omega arith, (omega arith, (omega arith, tt)))

expire_sev-absorb_example :
    let (left, later, out) = expire_sev 1100 0 (absorb merging ((100, staged_event) ∷ more)) in
    (out ≡ some (record staged_event { count = 65535 })) × (left.agg_pending ≡ none)
unfolding merging qsev_counts total
expire_sev-absorb_example =
    expire_sev-absorb merging 100 1100 0 staged_event more (omega arith) refl refl
      (omega arith, (omega arith, (omega arith, tt))) (omega arith)

abbrev guarded : SevState
unfolding fresh_sev
guarded = fresh_sev (record third { block_state = some blocked_in })

judge-LeavesRest_example :
    LeavesRest guarded (judge clock 3 5 event guarded).0 (judge clock 3 5 event guarded).1
    × StopsAt 5 (event.count) guarded (judge clock 3 5 event guarded).1
judge-LeavesRest_example = judge-LeavesRest clock 3 5 event guarded

abbrev open_sev : SevState
unfolding fresh_sev
open_sev = fresh_sev plain

process_event-sent_example :
    (process_event clock event (running (open_sev ∷ []))).sent
    ≡ calls plain (running (open_sev ∷ [])) (judge clock 3 7 event open_sev).1
unfolding open_sev
process_event-sent_example = process_event-sent clock event (running (open_sev ∷ [])) open_sev refl

abbrev forwarded : OwnedQsev
unfolding open_sev build_qsev make_internal_timestamp
forwarded = build_qsev clock 3 open_sev event

abbrev one_sev : Config
one_sev = record {
  idsm_instance_id = 3;
  main_function_period_ms = 10;
  sev_configs = some (third ∷ []);
  sev_count = 1;
}

-- The manager after an Init with one SEv.
abbrev begun : World
unfolding fresh_sev
begun = record {
  manager = record (idle_world.manager) {
    worker_running = true;
    worker_joinable = true;
    sevs = fresh_sev third ∷ [];
    idsm_instance_id = 3;
  };
  batch = [];
  place = top;
  past_join = 0;
  overlapped = false;
}

abbrev reported : World
unfolding begun serve
reported = record begun { manager = serve (report 0 (1 ∷ []) 1 2 none) (begun.manager) }

begun-Reach : Reach idle_world begun
unfolding begun init start sev_configs_accepted sev_config_accepted
begun-Reach = next here (begin idle_world one_sev (begun.manager) refl)

reported-Reach : Reach idle_world reported
unfolding reported
reported-Reach = next begun-Reach (call begun (report 0 (1 ∷ []) 1 2 none) (omega arith))

get_pending_event_count-queued_example :
    get_pending_event_count 0 (reported.manager) ≡ queued 0 (reported.manager.incoming_queue)
unfolding reported report_security_event own_event
get_pending_event_count-queued_example =
    get_pending_event_count-queued reported 0 reported-Reach refl (omega arith)

-- The same report, and then a DeInit that stops the worker and joins it while the event is queued.
abbrev joined : World
unfolding reported
joined = record reported {
  manager = deinit_join (deinit_signal (reported.manager));
  place = stopped;
  past_join = 1;
}

joined-Reach : Reach idle_world joined
unfolding joined reported begun serve deinit_signal deinit_join
joined-Reach =
    let signalled : World = record reported { manager = deinit_signal (reported.manager) } in
    let gone : World = record signalled { place = stopped } in
    next (next (next reported-Reach (call reported stop (omega arith))) (enter signalled refl))
      (join gone refl)

-- An Init between that join and the lock after it: the pending count is 0, and the event is queued.
abbrev restarted : World
unfolding joined reported begun
restarted = record begun {
  manager = record (begun.manager) { incoming_queue = joined.manager.incoming_queue };
  past_join = 1;
  overlapped = true;
}

restarted-Reach : Reach idle_world restarted
unfolding restarted joined reported begun init start sev_configs_accepted sev_config_accepted
    deinit_join deinit_signal serve report_security_event
restarted-Reach = next joined-Reach (begin joined one_sev (restarted.manager) refl)

count_is_lost :
    (get_pending_event_count 0 (restarted.manager) ≡ 0)
    × (queued 0 (restarted.manager.incoming_queue) ≡ 1)
unfolding restarted joined reported report_security_event own_event get_pending_event_count queued
    deinit_join
count_is_lost = (refl, refl)

-- Two SEvs with open aggregation windows: one that ends at 1100, one at 1500.
abbrev early : SevState
unfolding merging
early = record merging { agg_pending = some staged_event; agg_window_start_ms = 100 }

abbrev late : SevState
unfolding merging
late = record merging { agg_pending = some staged_event; agg_window_start_ms = 500 }

abbrev two_windows : Manager
unfolding early late
two_windows = running (early ∷ late ∷ [])

expire_windows_covers_example :
    (0 < (expire_windows 1200 two_windows).1) × ((expire_windows 1200 two_windows).1 ≤ 1500)
unfolding two_windows expire_windows expire_loop expire_sev expire_threshold release pass_threshold
expire_windows_covers_example =
    expire_windows_covers 1200 two_windows 1 late staged_event refl refl (omega arith)

abbrev armed : SevState
unfolding early
armed = record early {
  config = record plain {
    aggregation_interval_ms = 1000;
    threshold = 5;
    threshold_interval_ms = 100;
  };
}

abbrev at_the_wrap : SevState
unfolding early
at_the_wrap = record early { agg_window_start_ms = 4294967000 }

expire_sev_wraps_example : (expire_sev 4294967000 0 at_the_wrap).2 ≡ some staged_event
unfolding at_the_wrap
expire_sev_wraps_example =
    expire_sev_wraps 0 at_the_wrap staged_event refl (omega arith) (omega arith) (omega arith)
      (omega arith) refl

abbrev batch_of_two : List (Clock × OwnedSev)
batch_of_two = (clock, event) ∷ (clock, record event { count = 1 }) ∷ []

process_batch-counter_example :
    counter by_sampling ((process_batch batch_of_two (running (fresh_sev third ∷ []))).stats)
    ≡ u32 (0 + occurrences by_sampling (verdicts batch_of_two (running (fresh_sev third ∷ []))))
process_batch-counter_example =
    process_batch-counter by_sampling batch_of_two (running (fresh_sev third ∷ [])) (omega arith)
