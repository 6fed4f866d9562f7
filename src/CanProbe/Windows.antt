-- ===== src/CanProbe/Windows.antt =====
-- When the counting detectors of apps/can_probe/detectors.cpp alert, and that identifiers do not mix.
use autosar_idsm.Prelude.{
  ℕ, zero, suc, ◌+◌, ◌-◌, ◌<◌, ◌≤◌, ◌≡◌, ◌∙◌, ap, refl, not, ◌&&◌, Option, none, some, List, [],
  ◌∷◌, All, length, get_elem?, leb, ◌==◌, if◌then◌else◌, Bool-cases, inl, inr, arith,
}
use autosar_idsm.Prelude.Dict.{find_or, find-put}
use autosar_idsm.CanProbe.Frame.{CanFrame, empty_frame}
use autosar_idsm.CanProbe.Alert.{CanAlert, dt_bus_flood}
use autosar_idsm.CanProbe.Floods.{
  Window, no_window, FloodConfig, count_frame, flood_alert, per_second, bus_flood_feed,
  id_flood_feed, Cycle, cycle_step,
}

-- The answers of a bus flood detector to frames at the given times.
unfoldable pub bus_answers : FloodConfig → Window → List (ℕ × CanFrame) → List (Option CanAlert)
bus_answers cfg w [] = []
bus_answers cfg w ((now, f) ∷ rest) =
    let (next, alert) = bus_flood_feed cfg f now w in alert ∷ bus_answers cfg next rest

-- All frames lie in the window that starts at `start`.
abbrev pub InWindow : ℕ → ℕ → List (ℕ × CanFrame) → Type 0
InWindow start width frames = All (λ p. (start ≤ p.0) × (p.0 < start + width)) frames

-- The alert of a bus flood at its threshold.
abbrev pub bus_alert : FloodConfig → CanAlert
bus_alert cfg =
    flood_alert dt_bus_flood empty_frame (per_second cfg (cfg.threshold)) (cfg.threshold)

-- A frame inside an open window whose flag says whether the threshold has been reached.
bus_flood_feed_inside :
    (cfg : FloodConfig) (f : CanFrame) (now : ℕ) (w : Window)
    → 0 < w.window_start
    → w.window_start ≤ now
    → now < w.window_start + cfg.window_ms
    → now < 18446744073709551616
    → w.count + 1 < 4294967296
    → w.alerted ≡ leb (cfg.threshold) (w.count)
    → bus_flood_feed cfg f now w ≡ (
      record w { count = w.count + 1; alerted = leb (cfg.threshold) (w.count + 1) },
      if w.count + 1 == cfg.threshold then some (bus_alert cfg) else none,
    )
unfolding bus_flood_feed
bus_flood_feed_inside cfg f now w pos lo hi fits room flag = ground arith

bus_answers_inside :
    (cfg : FloodConfig) (w : Window) (frames : List (ℕ × CanFrame)) (i : ℕ)
    → 0 < w.window_start
    → w.window_start + cfg.window_ms < 18446744073709551616
    → w.alerted ≡ leb (cfg.threshold) (w.count)
    → w.count + length frames < 4294967296
    → InWindow (w.window_start) (cfg.window_ms) frames
    → i < length frames
    → get_elem? (bus_answers cfg w frames) i
      ≡ some (if w.count + i + 1 == cfg.threshold then some (bus_alert cfg) else none)
unfolding bus_answers
bus_answers_inside cfg w [] i pos fits flag room all h = absurd (omega arith)
bus_answers_inside cfg w ((now, f) ∷ rest) zero pos fits flag room (here, all) h =
    ground (arith, bus_flood_feed_inside cfg f now w)
bus_answers_inside cfg w ((now, f) ∷ rest) (suc i) pos fits flag room (here, all) h =
    let next : Window = record w {
      count = w.count + 1;
      alerted = leb (cfg.threshold) (w.count + 1);
    } in
    let same : (bus_flood_feed cfg f now w).0 ≡ next =
      ap (λ p. p.0)
        (bus_flood_feed_inside cfg f now w pos (omega arith) (omega arith) (omega arith)
          (omega arith) flag) in
    let regroup : w.count + suc i + 1 ≡ w.count + 1 + i + 1 = omega arith in
    rw (same, regroup)
      (bus_answers_inside cfg next rest i pos fits refl (omega arith) all (omega arith))

bus_flood_feed_first :
    (cfg : FloodConfig) (start : ℕ) (f : CanFrame)
    → 0 < start
    → bus_flood_feed cfg f start no_window
      ≡ bus_flood_feed cfg f start (record no_window { window_start = start })
unfolding bus_flood_feed
bus_flood_feed_first cfg start f pos = ground arith

bus_answers_first :
    (cfg : FloodConfig) (start : ℕ) (f : CanFrame) (frames : List (ℕ × CanFrame))
    → 0 < start
    → bus_answers cfg no_window ((start, f) ∷ frames)
      ≡ bus_answers cfg (record no_window { window_start = start }) ((start, f) ∷ frames)
unfolding bus_answers
bus_answers_first cfg start f frames pos = rw (bus_flood_feed_first cfg start f pos) refl

-- A fresh bus flood detector with a window above 0 and a threshold of at least 1, fed fewer than
-- 2^32 frames in the window that its first frame opens at a time other than 0 (no wrap of the
-- 64-bit clock), alerts exactly once: at the frame with which the number of frames reaches the
-- threshold, with that number as its count. Before and after it is silent.
pub bus_answers_lem :
    (cfg : FloodConfig) (start : ℕ) (f : CanFrame) (frames : List (ℕ × CanFrame)) (i : ℕ)
    → 1 ≤ cfg.threshold
    → 0 < cfg.window_ms
    → 0 < start
    → start + cfg.window_ms < 18446744073709551616
    → length frames + 1 < 4294967296
    → InWindow start (cfg.window_ms) frames
    → i ≤ length frames
    → get_elem? (bus_answers cfg no_window ((start, f) ∷ frames)) i
      ≡ some (if i + 1 == cfg.threshold then some (bus_alert cfg) else none)
bus_answers_lem cfg start f frames i t w pos fits room all h =
    let opened : Window = record no_window { window_start = start } in
    let same = bus_answers_first cfg start f frames pos in
    let zero_left : 0 + i ≡ i = omega arith in
    let inside =
      bus_answers_inside cfg opened ((start, f) ∷ frames) i pos fits (ground arith) (omega arith)
        ((omega arith, omega arith), all) (omega arith) in
    rw same (rw zero_left at inside)

-- The window that an identifier flood detector keeps for one identifier, when it is fed frames.
unfoldable pub id_flood_run :
    FloodConfig → List (ℕ × Window) → List (ℕ × CanFrame) → List (ℕ × Window)
id_flood_run cfg ids [] = ids
id_flood_run cfg ids ((now, f) ∷ rest) = id_flood_run cfg (id_flood_feed cfg f now ids).0 rest

-- A window by itself, fed only the frames of one identifier that are no error frames.
unfoldable pub window_run : FloodConfig → ℕ → Window → List (ℕ × CanFrame) → Window
window_run cfg id w [] = w
window_run cfg id w ((now, f) ∷ rest) =
    window_run cfg id (if (f.can_id == id) && not (f.err) then (count_frame cfg now w).0 else w)
      rest

id_flood_feed-find :
    (cfg : FloodConfig) (f : CanFrame) (now id : ℕ) (ids : List (ℕ × Window))
    → find_or no_window id (id_flood_feed cfg f now ids).0 ≡ (
        if (f.can_id == id) && not (f.err)
        then (count_frame cfg now (find_or no_window id ids)).0
        else find_or no_window id ids)
unfolding id_flood_feed find_or
id_flood_feed-find cfg f now id ids = elim (Bool-cases (f.err)) [
  | inl error ↦ ground arith
  | inr fine ↦
      ground (
        arith,
        find-put (f.can_id) id (count_frame cfg now (find_or no_window (f.can_id) ids)).0 ids,
      )
]

-- Each identifier has a window of its own: after any frames, the window that the identifier flood
-- detector keeps for an identifier is the one that the frames of this identifier alone, error frames
-- left out, would have made.
pub id_flood_run-find :
    (cfg : FloodConfig) (id : ℕ) (ids : List (ℕ × Window)) (frames : List (ℕ × CanFrame))
    → find_or no_window id (id_flood_run cfg ids frames)
      ≡ window_run cfg id (find_or no_window id ids) frames
unfolding id_flood_run window_run
id_flood_run-find cfg id ids [] = refl
id_flood_run-find cfg id ids ((now, f) ∷ rest) =
    id_flood_run-find cfg id (id_flood_feed cfg f now ids).0 rest
    ∙ rw (id_flood_feed-find cfg f now id ids) refl

-- After a cycle-time alert at `now` (no wrap of the 64-bit clock), and whatever the clock of the next
-- frame of the identifier, that frame alerts only if the cool-down is over, it is no older than the
-- last one, and it comes sooner after it than the minimum.
pub cycle_step_mutes :
    (cooldown now later : ℕ) (f g : CanFrame) (st : Cycle) (a b : CanAlert)
    → now + cooldown < 18446744073709551616
    → later < 18446744073709551616
    → (cycle_step cooldown f now st).1 ≡ some a
    → (cycle_step cooldown g later (cycle_step cooldown f now st).0).1 ≡ some b
    → (now + cooldown ≤ later) × (now ≤ later) × (later - now < st.min_ms)
unfolding cycle_step
cycle_step_mutes cooldown now later f g st a b fits fits' first second = ground arith
