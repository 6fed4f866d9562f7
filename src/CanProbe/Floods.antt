-- ===== src/CanProbe/Floods.antt =====
-- The detectors of apps/can_probe/detectors.h and detectors.cpp that count frames or watch their
-- identifiers and timing. Times are uint64_t milliseconds, counts uint32_t.
use autosar_idsm.Prelude.{
  ℕ, ◌+◌, ◌*◌, ◌/◌, Bool, true, false, not, ◌&&◌, Option, none, some, List, [], ◌∷◌, ltb, leb, ◌==◌,
  if◌then◌else◌, u32, u64, sub64,
}
use autosar_idsm.Prelude.Dict.{find, put, find_or, contains, insert}
use autosar_idsm.CanProbe.Frame.{CanFrame, empty_frame}
use autosar_idsm.CanProbe.Alert.{
  CanAlert, make_alert, dt_unknown_id, dt_id_flood, dt_bus_flood, dt_error_burst, dt_diag_flood,
  dt_cycle_anomaly,
}

-- The window of IdFloodDetector, BusFloodDetector, ErrorBurstDetector and DiagFloodDetector.
pub record Window : Type 0 where
  pub window_start : ℕ
  pub count : ℕ
  pub alerted : Bool

abbrev pub no_window : Window
no_window = record { window_start = 0; count = 0; alerted = false }

-- The window and threshold of a detector's Config.
pub record FloodConfig : Type 0 where
  pub window_ms : ℕ
  pub threshold : ℕ

-- `if (st.window_start == 0) st.window_start = now_ms;`
abbrev pub started : ℕ → ℕ → ℕ
started now start = if start == 0 then now else start

-- The lines that these detectors share: the window starts or rolls over, the frame is counted, and a
-- window alerts once, at its threshold. The answer is the count of an alert.
unfoldable pub count_frame : FloodConfig → ℕ → Window → Window × Option ℕ
count_frame cfg now w =
    let start = started now (w.window_start) in
    let rolled : Window =
      if leb (cfg.window_ms) (sub64 now start)
      then record { window_start = now; count = 0; alerted = false }
      else record w { window_start = start } in
    let counted : Window = record rolled { count = u32 (rolled.count + 1) } in
    if leb (cfg.threshold) (counted.count) && not (counted.alerted)
    then (record counted { alerted = true }, some (counted.count))
    else (counted, none)

-- `st.count * 1000 / window_ms` on uint32_t; the source divides by a window that is not 0.
abbrev pub per_second : FloodConfig → ℕ → ℕ
per_second cfg count = u32 (count * 1000) / cfg.window_ms

-- The alert of a flood detector, with its `count` field set.
abbrev pub flood_alert : ℕ → CanFrame → ℕ → ℕ → CanAlert
flood_alert detector_type f aux count = record (make_alert detector_type f aux) { count = count }

-- IdFloodDetector::feed: a window for each identifier.
unfoldable pub id_flood_feed :
    FloodConfig → CanFrame → ℕ → List (ℕ × Window) → List (ℕ × Window) × Option CanAlert
id_flood_feed cfg f now ids =
    let (w, crossed) = count_frame cfg now (find_or no_window (f.can_id) ids) in
    if f.err then (ids, none) else (
      put (f.can_id) w ids,
      elim crossed [
        | none ↦ none
        | some count ↦ some (flood_alert dt_id_flood f (per_second cfg count) count)
      ],
    )

-- BusFloodDetector::feed
unfoldable pub bus_flood_feed : FloodConfig → CanFrame → ℕ → Window → Window × Option CanAlert
unfolding count_frame
bus_flood_feed cfg f now w =
    let (next, crossed) = count_frame cfg now w in
    (
      next,
      elim crossed [
        | none ↦ none
        | some count ↦ some (flood_alert dt_bus_flood empty_frame (per_second cfg count) count)
      ],
    )

-- ErrorBurstDetector::feed
unfoldable pub error_burst_feed : FloodConfig → CanFrame → ℕ → Window → Window × Option CanAlert
unfolding count_frame
error_burst_feed cfg f now w =
    let (next, crossed) = count_frame cfg now w in
    (
      next,
      elim crossed [
        | none ↦ none
        | some count ↦ some (flood_alert dt_error_burst empty_frame count count)
      ],
    )

-- DiagFloodDetector::feed
unfoldable pub diag_flood_feed :
    FloodConfig → CanFrame → ℕ → List (ℕ × Window) → List (ℕ × Window) × Option CanAlert
unfolding count_frame
diag_flood_feed cfg f now testers =
    let (w, crossed) = count_frame cfg now (find_or no_window (f.can_id) testers) in
    (
      put (f.can_id) w testers,
      elim crossed [
        | none ↦ none
        | some count ↦ some (flood_alert dt_diag_flood f (per_second cfg count) count)
      ],
    )

-- UnknownIdDetector
abbrev pub unknown_id_enabled : List ℕ → Bool
unknown_id_enabled [] = false
unknown_id_enabled (id ∷ known) = true

unfoldable pub add_known : ℕ → List ℕ → List ℕ
unfolding insert
add_known id known = insert id known

unfoldable pub unknown_id_feed : List ℕ → CanFrame → Option CanAlert
unfolding contains make_alert
unknown_id_feed known f =
    if contains (f.can_id) known then none else some (make_alert dt_unknown_id f 0)

-- CycleAnomalyDetector::IdState
pub record Cycle : Type 0 where
  pub min_ms : ℕ
  pub seen : Bool
  pub last_ms : ℕ
  pub muted_until : ℕ

abbrev pub no_cycle : Cycle
no_cycle = record { min_ms = 0; seen = false; last_ms = 0; muted_until = 0 }

unfoldable pub add_min_interval : ℕ → ℕ → List (ℕ × Cycle) → List (ℕ × Cycle)
add_min_interval id min_ms ids =
    let old = find_or no_cycle id ids in put id (record old { min_ms = min_ms }) ids

-- The part of CycleAnomalyDetector::feed on an identifier's state.
unfoldable pub cycle_step : ℕ → CanFrame → ℕ → Cycle → Cycle × Option CanAlert
unfolding make_alert
cycle_step cooldown f now st =
    let interval = sub64 now (st.last_ms) in
    let late =
      st.seen && leb (st.last_ms) now && ltb interval (st.min_ms) && leb (st.muted_until) now in
    (
      record st {
        seen = true;
        last_ms = now;
        muted_until = if late then u64 (now + cooldown) else st.muted_until;
      },
      if late then some (make_alert dt_cycle_anomaly f (u32 interval)) else none,
    )

-- CycleAnomalyDetector::feed
unfoldable pub cycle_feed : ℕ → CanFrame → ℕ → List (ℕ × Cycle) → List (ℕ × Cycle) × Option CanAlert
unfolding cycle_step
cycle_feed cooldown f now ids = elim (find (f.can_id) ids) [
  | none ↦ (ids, none)
  | some st ↦ let (next, alert) = cycle_step cooldown f now st in (put (f.can_id) next ids, alert)
]
