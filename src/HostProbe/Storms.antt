-- ===== src/HostProbe/Storms.antt =====
-- The fork flood detector of apps/host_probe/detectors.cpp over the events of a window.
use autosar_idsm.Prelude.{
  ℕ, ◌+◌, ◌<◌, ◌≡◌, refl, Bool, true, false, not, ◌&&◌, ◌||◌, Option, none, some, List, [], ◌∷◌,
  All, length, ltb, leb, if◌then◌else◌, u32, sub64, Bool-cases, inl, inr, arith,
}
use autosar_idsm.HostProbe.Alert.{HostAlert}
use autosar_idsm.HostProbe.Floods.{Storm, roll_window, storm_answer, fork_flood_feed}

abbrev pub one_if : Option HostAlert → ℕ
one_if none = 0
one_if (some a) = 1

-- How many alerts the events at these times give.
unfoldable pub fork_alerts : List ℕ → Storm → ℕ
unfolding fork_flood_feed
fork_alerts [] s = 0
fork_alerts (t ∷ times) s =
    let rest = fork_alerts times (fork_flood_feed t s).1 in one_if (fork_flood_feed t s).0 + rest

-- The time lies in the window that begins at `start`.
abbrev pub InWindow : Storm → ℕ → Type 0
InWindow s t = sub64 t (s.window_start) < s.window_ms

-- The state after an event of the window.
abbrev counted : Storm → Storm
counted s = record s { count = s.count + 1; alerted = s.alerted || leb (s.threshold) (s.count + 1) }

roll_window_inside : (t : ℕ) (s : Storm) → s.started ≡ true → InWindow s t → roll_window t s ≡ s
unfolding roll_window
roll_window_inside t s begun inside =
    let test : leb (s.window_ms) (sub64 t (s.window_start)) ≡ false = ground arith in
    rw (begun, test) refl

storm_answer_lem :
    (dt : ℕ) (s : Storm) (n : ℕ) (alerted : Bool)
    → ((storm_answer dt (record s { count = n; alerted = alerted })).1
        ≡ record s { count = n; alerted = alerted || leb (s.threshold) n })
      × (one_if (storm_answer dt (record s { count = n; alerted = alerted })).0
          ≡ (if not alerted && leb (s.threshold) n then 1 else 0))
unfolding storm_answer
storm_answer_lem dt s n true = (refl, refl)
storm_answer_lem dt s n false = elim (Bool-cases (leb (s.threshold) n)) [
  | inl full ↦ rw full (refl, refl)
  | inr calm ↦ rw calm (refl, refl)
]

fork_flood_feed_inside :
    (t : ℕ) (s : Storm)
    → s.started ≡ true
    → InWindow s t
    → s.count + 1 < 4294967296
    → ((fork_flood_feed t s).1 ≡ counted s)
      × (one_if (fork_flood_feed t s).0
          ≡ (if not (s.alerted) && leb (s.threshold) (s.count + 1) then 1 else 0))
unfolding fork_flood_feed
fork_flood_feed_inside t s begun inside small =
    let below : u32 (s.count + 1) ≡ s.count + 1 = omega arith in
    rw (roll_window_inside t s begun inside, below) (storm_answer_lem 3 s (s.count + 1) (s.alerted))

-- In a window that has begun, the events after the first ones give one alert if with them the count
-- reaches the threshold and the window has not alerted, and none else: however many they are, a window
-- alerts once.
pub fork_alerts_once :
    (times : List ℕ) (s : Storm)
    → s.started ≡ true
    → All (InWindow s) times
    → s.count + length times < 4294967296
    → fork_alerts times s ≡ (
        if not (s.alerted) && ltb 0 (length times) && leb (s.threshold) (s.count + length times)
        then 1
        else 0)
unfolding fork_alerts
fork_alerts_once [] s begun inside small = ground arith
fork_alerts_once (t ∷ times) s begun (now, later) small =
    let (next, one) = fork_flood_feed_inside t s begun now (omega (arith, small)) in
    let rest : fork_alerts times (counted s) ≡ (
        if not (s.alerted || leb (s.threshold) (s.count + 1))
          && ltb 0 (length times)
          && leb (s.threshold) (s.count + 1 + length times)
        then 1
        else 0) =
      fork_alerts_once times (counted s) begun later (omega (arith, small)) in
    rw (next, one, rest) (ground arith)
