-- ===== src/HostProbe/Routing.antt =====
-- Which detectors of apps/host_probe/pipeline.cpp an event of each kind reaches, and in which order.
use autosar_idsm.Prelude.{
  ℕ, ◌+◌, ◌≤◌, ◌≡◌, inl, inr, refl, Bool, true, false, not, ◌||◌, Option, none, some, List, [], ◌∷◌,
  ◌++◌, All, if◌then◌else◌, ◌==◌, ltb, Option-cases, Bool-cases, bytes_key, u32, arith,
}
use autosar_idsm.Prelude.Assoc.{lookup, member}
use autosar_idsm.HostProbe.Event.{
  ExecEvent, FileScanEvent, ModuleScanEvent, SnapshotEvent, HostEvent, HostEventKind, c_string,
}
use autosar_idsm.HostProbe.Event.HostEventKind.{exec, file_scan, module_scan, snapshot}
use autosar_idsm.HostProbe.Alert.{
  HostAlert, make_exec_alert, make_file_alert, make_name_alert, make_snap_alert, dt_unknown_exec,
  dt_priv_esc, dt_fork_flood, dt_rev_shell, dt_file_mod, dt_new_setuid, dt_kmod_load,
  dt_zombie_storm, dt_res_exhaust, dt_root_shell,
}
use autosar_idsm.HostProbe.Detectors.{
  muted_until, UnknownExec, Muting, RevShell, FileMod, Known, unknown_exec_feed, priv_esc_feed,
  rev_shell_feed, file_mod_feed, file_mod_step, new_setuid_feed, kmod_load_feed, root_shell_feed,
  is_shell_comm, is_empty_name,
}
use autosar_idsm.HostProbe.Floods.{
  Storm, ResExhaust, storm_answer, roll_window, fork_flood_feed, zombie_storm_feed,
  res_exhaust_feed,
}
use autosar_idsm.HostProbe.Pipeline.{HostPipeline, emitted, feed_exec, feed_file, feed_event}

-- Alerts of the given detector types, in their order, at most one of each.
pub data Routed : List HostAlert → List ℕ → Type 0 where
  done : Routed [] []
  silent :
      {alerts : List HostAlert} {t : ℕ} {types : List ℕ}
      → Routed alerts types
      → Routed alerts (t ∷ types)
  alert :
      {a : HostAlert} {alerts : List HostAlert} {t : ℕ} {types : List ℕ}
      → a.detector_type ≡ t
      → Routed alerts types
      → Routed (a ∷ alerts) (t ∷ types)

-- The detectors of each kind of event, as the comment in pipeline.cpp lists them.
unfoldable pub route : HostEventKind → List ℕ
route exec = dt_unknown_exec ∷ dt_priv_esc ∷ dt_fork_flood ∷ dt_rev_shell ∷ dt_root_shell ∷ []
route file_scan = dt_file_mod ∷ dt_new_setuid ∷ []
route module_scan = dt_kmod_load ∷ []
route snapshot = dt_zombie_storm ∷ dt_res_exhaust ∷ []

-- An answer is an alert of type t, or none.
unfoldable of_type : ℕ → Option HostAlert → Bool
of_type t none = true
of_type t (some a) = a.detector_type == t

of_type-guard :
    {S : Type 0} (t : ℕ) (s : S) (b : Bool) (out : Option HostAlert × S)
    → of_type t out.0 ≡ true
    → of_type t (if b then (none, s) else out).0 ≡ true
unfolding of_type
of_type-guard t s true out h = refl
of_type-guard t s false out h = h

unknown_exec_feed-of_type :
    (e : ExecEvent) (now : ℕ) (s : UnknownExec)
    → of_type dt_unknown_exec (unknown_exec_feed e now s).0 ≡ true
unfolding unknown_exec_feed of_type make_exec_alert
unknown_exec_feed-of_type e now s = ground arith

priv_esc_feed-of_type :
    (e : ExecEvent) (now : ℕ) (s : Muting) → of_type dt_priv_esc (priv_esc_feed e now s).0 ≡ true
unfolding priv_esc_feed of_type make_exec_alert
priv_esc_feed-of_type e now s = ground arith

rev_shell_feed-of_type :
    (e : ExecEvent) (now : ℕ) (s : RevShell)
    → of_type dt_rev_shell (rev_shell_feed e now s).0 ≡ true
unfolding rev_shell_feed of_type make_exec_alert
rev_shell_feed-of_type e now s =
    of_type-guard dt_rev_shell s (not (is_shell_comm (c_string (e.comm)))) _ (
      of_type-guard dt_rev_shell s
        (is_empty_name (c_string (e.parent_comm))
          || not (member (c_string (e.parent_comm)) (s.net_parents)))
        _
        (of_type-guard dt_rev_shell s (muted_until (s.muted) (c_string (e.parent_comm)) now) _
          refl))

file_mod_step-of_type :
    (digest : List ℕ) (f : FileScanEvent) (now : ℕ) (s : FileMod)
    → of_type dt_file_mod (file_mod_step digest f now s).0 ≡ true
unfolding file_mod_step of_type make_file_alert
file_mod_step-of_type digest f now s = ground arith

new_setuid_feed-of_type :
    (f : FileScanEvent) (now : ℕ) (s : Known)
    → of_type dt_new_setuid (new_setuid_feed f now s).0 ≡ true
unfolding new_setuid_feed of_type make_file_alert
new_setuid_feed-of_type f now s = ground arith

kmod_load_feed-of_type :
    (m : ModuleScanEvent) (now : ℕ) (s : Known)
    → of_type dt_kmod_load (kmod_load_feed m now s).0 ≡ true
unfolding kmod_load_feed of_type make_name_alert
kmod_load_feed-of_type m now s = ground arith

root_shell_feed-of_type :
    (e : ExecEvent) (now : ℕ) (s : Muting)
    → of_type dt_root_shell (root_shell_feed e now s).0 ≡ true
unfolding root_shell_feed of_type make_exec_alert
root_shell_feed-of_type e now s =
    of_type-guard dt_root_shell s (not (e.uid == 0) || not (is_shell_comm (c_string (e.comm)))) _
      (of_type-guard dt_root_shell s (muted_until (s.muted) (c_string (e.comm)) now) _ refl)

res_exhaust_feed-of_type :
    (e : SnapshotEvent) (now : ℕ) (s : ResExhaust)
    → of_type dt_res_exhaust (res_exhaust_feed e now s).0 ≡ true
unfolding res_exhaust_feed of_type make_snap_alert
res_exhaust_feed-of_type e now s = ground arith

file_mod_feed-of_type :
    (f : FileScanEvent) (now : ℕ) (s : FileMod)
    → of_type dt_file_mod (file_mod_feed f now s).0 ≡ true
unfolding file_mod_feed of_type
file_mod_feed-of_type f now s = elim (Option-cases (lookup (f.path) (s.baseline))) [
  | inl unknown ↦ rw (file_mod_feed, unknown) refl
  | inr (digest, known) ↦ elim (Bool-cases (muted_until (s.muted) (f.path) now)) [
    | inl still ↦ rw (file_mod_feed, known, still) refl
    | inr awake ↦ rw (file_mod_feed, known, awake) (file_mod_step-of_type digest f now s)
  ]
]

storm_answer-of_type : (t : ℕ) (s : Storm) → of_type t (storm_answer t s).0 ≡ true
unfolding storm_answer of_type
storm_answer-of_type t s = ground arith

fork_flood_feed-of_type :
    (now : ℕ) (s : Storm) → of_type dt_fork_flood (fork_flood_feed now s).0 ≡ true
unfolding fork_flood_feed
fork_flood_feed-of_type now s =
    let rolled = roll_window now s in
    storm_answer-of_type dt_fork_flood (record rolled { count = u32 (rolled.count + 1) })

zombie_storm_feed-of_type :
    (e : SnapshotEvent) (now : ℕ) (s : Storm)
    → of_type dt_zombie_storm (zombie_storm_feed e now s).0 ≡ true
unfolding zombie_storm_feed
zombie_storm_feed-of_type e now s =
    let rolled = roll_window now s in
    storm_answer-of_type dt_zombie_storm
      (if ltb (rolled.count) (e.zombies) then record rolled { count = e.zombies } else rolled)

-- One more detector in front, and the last one.
emitted-Routed :
    (out : Option HostAlert) (t : ℕ) (alerts : List HostAlert) (types : List ℕ)
    → of_type t out ≡ true
    → Routed alerts types
    → Routed (emitted out ++ alerts) (t ∷ types)
unfolding of_type
emitted-Routed none t alerts types h r = silent r
emitted-Routed (some a) t alerts types h r = alert (ground arith) r

last-Routed :
    (out : Option HostAlert) (t : ℕ) → of_type t out ≡ true → Routed (emitted out) (t ∷ [])
unfolding of_type
last-Routed none t h = silent done
last-Routed (some a) t h = alert (ground arith) done

feed_exec-Routed :
    (e : ExecEvent) (now : ℕ) (p : HostPipeline) → Routed (feed_exec e now p).0 (route exec)
unfolding feed_exec route
feed_exec-Routed e now p =
    emitted-Routed _ _ _ _ (unknown_exec_feed-of_type e now (p.unknown_exec)) (
      emitted-Routed _ _ _ _ (priv_esc_feed-of_type e now (p.priv_esc)) (
        emitted-Routed _ _ _ _ (fork_flood_feed-of_type now (p.fork_flood)) (
          emitted-Routed _ _ _ _ (rev_shell_feed-of_type e now (p.rev_shell))
            (last-Routed _ _ (root_shell_feed-of_type e now (p.root_shell))))))

feed_file-Routed :
    (f : FileScanEvent) (now : ℕ) (p : HostPipeline)
    → Routed (feed_file f now p).0 (route file_scan)
unfolding feed_file route
feed_file-Routed f now p =
    emitted-Routed _ _ _ _ (file_mod_feed-of_type f now (p.file_mod))
      (last-Routed _ _ (new_setuid_feed-of_type f now (p.new_setuid)))

feed_kind-Routed :
    (kind : HostEventKind) (ev : HostEvent) (p : HostPipeline)
    → Routed (feed_event (record ev { kind = kind }) p).0 (route kind)
unfolding feed_event route
feed_kind-Routed exec ev p = feed_exec-Routed (ev.exec_) (ev.ts_ms) p
feed_kind-Routed file_scan ev p = feed_file-Routed (ev.file) (ev.ts_ms) p
feed_kind-Routed module_scan ev p =
    last-Routed _ _ (kmod_load_feed-of_type (ev.module_) (ev.ts_ms) (p.kmod))
feed_kind-Routed snapshot ev p =
    emitted-Routed _ _ _ _ (zombie_storm_feed-of_type (ev.snap) (ev.ts_ms) (p.zombie))
      (last-Routed _ _ (res_exhaust_feed-of_type (ev.snap) (ev.ts_ms) (p.res)))

-- An event gives only alerts of the detectors of its kind, at most one of each, in the order in which
-- the comment of the pipeline lists them.
pub feed_event-Routed :
    (ev : HostEvent) (p : HostPipeline) → Routed (feed_event ev p).0 (route (ev.kind))
feed_event-Routed ev p = feed_kind-Routed (ev.kind) ev p

-- What the routes say of the types.
pub Routed-types :
    (alerts : List HostAlert) (types : List ℕ)
    → Routed alerts types
    → All (λ t. (1 ≤ t) × (t ≤ 10)) types
    → All (λ a. (1 ≤ a.detector_type) × (a.detector_type ≤ 10)) alerts
Routed-types _ _ done h = tt
Routed-types alerts (t ∷ types) (silent r) (b, h) = Routed-types alerts types r h
Routed-types (a ∷ alerts) (t ∷ types) (alert same r) ((lo, hi), h) =
    ((omega (arith, same, lo), omega (arith, same, hi)), Routed-types alerts types r h)

pub route_types : (kind : HostEventKind) → All (λ t. (1 ≤ t) × (t ≤ 10)) (route kind)
unfolding route
route_types exec = ground arith
route_types file_scan = ground arith
route_types module_scan = ground arith
route_types snapshot = ground arith
