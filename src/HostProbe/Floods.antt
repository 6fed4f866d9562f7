-- ===== src/HostProbe/Floods.antt =====
-- The detectors of apps/host_probe/detectors.h and detectors.cpp that count in a window or are muted
-- as a whole.
use autosar_idsm.Prelude.{
  ℕ, ◌+◌, Bool, true, false, not, ◌&&◌, Option, none, some, ltb, leb, if◌then◌else◌, u32, u64,
  sub64,
}
use autosar_idsm.HostProbe.Event.{SnapshotEvent}
use autosar_idsm.HostProbe.Alert.{
  HostAlert, empty_alert, make_snap_alert, dt_fork_flood, dt_zombie_storm, dt_res_exhaust,
  res_exhaust_cpu, res_exhaust_mem,
}

-- ForkFloodDetector, whose configuration and State are one record; `count` is the peak for zombies.
pub record Storm : Type 0 where
  pub window_ms : ℕ
  pub threshold : ℕ
  pub started : Bool
  pub window_start : ℕ
  pub count : ℕ
  pub alerted : Bool

-- The first event starts the window, and a window that is over is followed by one that starts now.
unfoldable pub roll_window : ℕ → Storm → Storm
roll_window now s =
    let begun = if s.started then s else record s { started = true; window_start = now } in
    if leb (begun.window_ms) (sub64 now (begun.window_start))
    then record begun { window_start = now; count = 0; alerted = false }
    else begun

-- The alert of a count that reaches the threshold.
unfoldable pub storm_answer : ℕ → Storm → Option HostAlert × Storm
storm_answer dt s =
    if not (s.alerted) && leb (s.threshold) (s.count)
    then (
      some (record empty_alert { detector_type = dt; count = s.count; aux = s.count }),
      record s { alerted = true },
    )
    else (none, s)

unfoldable pub fork_flood_feed : ℕ → Storm → Option HostAlert × Storm
unfolding roll_window storm_answer
fork_flood_feed now s =
    let rolled = roll_window now s in
    storm_answer dt_fork_flood (record rolled { count = u32 (rolled.count + 1) })

unfoldable pub zombie_storm_feed : SnapshotEvent → ℕ → Storm → Option HostAlert × Storm
unfolding roll_window storm_answer
zombie_storm_feed e now s =
    let rolled = roll_window now s in
    storm_answer dt_zombie_storm
      (if ltb (rolled.count) (e.zombies) then record rolled { count = e.zombies } else rolled)

pub record ResExhaust : Type 0 where
  pub cpu_ppm_threshold : ℕ
  pub rss_kb_threshold : ℕ
  pub cooldown_ms : ℕ
  pub muted_until_ : ℕ

unfoldable pub res_exhaust_feed : SnapshotEvent → ℕ → ResExhaust → Option HostAlert × ResExhaust
unfolding make_snap_alert
res_exhaust_feed s now d =
    let later = record d { muted_until_ = u64 (now + d.cooldown_ms) } in
    if ltb now (d.muted_until_)
    then (none, d)
    else if leb (d.cpu_ppm_threshold) (s.top_cpu_ppm)
    then (some (make_snap_alert dt_res_exhaust s res_exhaust_cpu), later)
    else if leb (d.rss_kb_threshold) (s.top_mem_rss_kb)
    then (some (make_snap_alert dt_res_exhaust s res_exhaust_mem), later)
    else (none, d)
