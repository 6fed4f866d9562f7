-- ===== src/HostProbe/Muting.antt =====
-- The seven detectors of apps/host_probe/detectors.cpp that mute keys, each as a keyed detector.
use autosar_idsm.Prelude.{
  ℕ, ◌+◌, ◌<◌, ◌≡◌, ◌⊎◌, inl, inr, refl, sym, subst, Bool, true, false, not, ◌||◌, Option, none,
  some, List, All, if◌then◌else◌, ◌==◌, ◌/◌, ◌%◌, Option-cases, Bool-cases, ◌~~◌, bytes_key,
}
use autosar_idsm.Prelude.Assoc.{lookup, member}
use autosar_idsm.HostProbe.Event.{ExecEvent, FileScanEvent, ModuleScanEvent, c_string}
use autosar_idsm.HostProbe.Alert.{HostAlert, make_file_alert, dt_new_setuid, hf_setuid}
use autosar_idsm.HostProbe.Detectors.{
  Muted, muted_until, mute, UnknownExec, Muting, RevShell, FileMod, Known, unknown_exec_feed,
  priv_esc_feed, rev_shell_feed, file_mod_feed, file_mod_step, new_setuid_feed, kmod_load_feed,
  root_shell_feed, alert_key, known_enabled,
}
use autosar_idsm.HostProbe.Keyed.{KeyedDetector, alerts_of, spaced, alerts_of-spaced}

-- The law of a keyed detector, of one answer.
module _ {State : Type 0} (muted : State → Muted) (cooldown : State → ℕ) (k : List ℕ) (now : ℕ)
    (s : State) where
  abbrev pub Mutes : Option HostAlert × State → Type 0
  Mutes out =
      (cooldown out.1 ≡ cooldown s)
      × (((out.0 ≡ none) × (muted out.1 ≡ muted s))
          ⊎ ((a : HostAlert) × (out.0 ≡ some a)
              × (muted_until (muted s) k now ≡ false)
              × (muted out.1 ≡ mute (muted s) k now (cooldown s))))

  -- An early return, and the end of a feed.
  pub Mutes-guard :
      (b : Bool) (out : Option HostAlert × State) → Mutes out → Mutes (if b then (none, s) else out)
  Mutes-guard true out h = (refl, inl (refl, refl))
  Mutes-guard false out h = h

  pub Mutes-silent : Mutes (none, s)
  Mutes-silent = (refl, inl (refl, refl))

  pub Mutes-alert :
      (a : HostAlert) (later : State)
      → cooldown later ≡ cooldown s
      → muted later ≡ mute (muted s) k now (cooldown s)
      → Mutes (if muted_until (muted s) k now then (none, s) else (some a, later))
  Mutes-alert a later kept changed = elim (Bool-cases (muted_until (muted s) k now)) [
    | inl still ↦ rw still (refl, inl (refl, refl))
    | inr awake ↦ rw awake (kept, inr (a, refl, refl, changed))
  ]

pub unknown_exec_feed-Mutes :
    (e : ExecEvent) (now : ℕ) (s : UnknownExec)
    → Mutes (λ d. d.muted) (λ d. d.cooldown_ms) (alert_key e) now s (unknown_exec_feed e now s)
unfolding unknown_exec_feed
unknown_exec_feed-Mutes e now s =
    let guard = Mutes-guard (λ d. d.muted) (λ d. d.cooldown_ms) (alert_key e) now s in
    let raise = Mutes-alert (λ d. d.muted) (λ d. d.cooldown_ms) (alert_key e) now s in
    guard _ _ (raise _ _ refl refl)

pub priv_esc_feed-Mutes :
    (e : ExecEvent) (now : ℕ) (s : Muting)
    → Mutes (λ d. d.muted) (λ d. d.cooldown_ms) (alert_key e) now s (priv_esc_feed e now s)
unfolding priv_esc_feed
priv_esc_feed-Mutes e now s =
    let guard = Mutes-guard (λ d. d.muted) (λ d. d.cooldown_ms) (alert_key e) now s in
    let raise = Mutes-alert (λ d. d.muted) (λ d. d.cooldown_ms) (alert_key e) now s in
    guard _ _ (raise _ _ refl refl)

pub rev_shell_feed-Mutes :
    (e : ExecEvent) (now : ℕ) (s : RevShell)
    → Mutes
        (λ d. d.muted)
        (λ d. d.cooldown_ms)
        (c_string (e.parent_comm))
        now
        s
        (rev_shell_feed e now s)
unfolding rev_shell_feed
rev_shell_feed-Mutes e now s =
    let guard = Mutes-guard (λ d. d.muted) (λ d. d.cooldown_ms) (c_string (e.parent_comm)) now s in
    let raise = Mutes-alert (λ d. d.muted) (λ d. d.cooldown_ms) (c_string (e.parent_comm)) now s in
    guard _ _ (guard _ _ (raise _ _ refl refl))

pub new_setuid_feed-Mutes :
    (f : FileScanEvent) (now : ℕ) (s : Known)
    → Mutes (λ d. d.muted) (λ d. d.cooldown_ms) (f.path) now s (new_setuid_feed f now s)
unfolding new_setuid_feed
new_setuid_feed-Mutes f now s =
    let guard = Mutes-guard (λ d. d.muted) (λ d. d.cooldown_ms) (f.path) now s in
    let raise = Mutes-alert (λ d. d.muted) (λ d. d.cooldown_ms) (f.path) now s in
    guard (not (known_enabled s)) _ (
      guard (not (f.present) || f.mode / 2048 % 2 == 0 || not (f.uid == 0)) _ (
        guard (member (f.path) (s.baseline)) _ (
          raise
            (record (make_file_alert dt_new_setuid (f.path) (f.mode) hf_setuid 0) { uid = f.uid })
            (record s { muted = mute (s.muted) (f.path) now (s.cooldown_ms) }) refl refl)))

pub kmod_load_feed-Mutes :
    (m : ModuleScanEvent) (now : ℕ) (s : Known)
    → Mutes (λ d. d.muted) (λ d. d.cooldown_ms) (m.name) now s (kmod_load_feed m now s)
unfolding kmod_load_feed
kmod_load_feed-Mutes m now s =
    let guard = Mutes-guard (λ d. d.muted) (λ d. d.cooldown_ms) (m.name) now s in
    let raise = Mutes-alert (λ d. d.muted) (λ d. d.cooldown_ms) (m.name) now s in
    guard _ _ (raise _ _ refl refl)

pub root_shell_feed-Mutes :
    (e : ExecEvent) (now : ℕ) (s : Muting)
    → Mutes (λ d. d.muted) (λ d. d.cooldown_ms) (c_string (e.comm)) now s (root_shell_feed e now s)
unfolding root_shell_feed
root_shell_feed-Mutes e now s =
    let guard = Mutes-guard (λ d. d.muted) (λ d. d.cooldown_ms) (c_string (e.comm)) now s in
    let raise = Mutes-alert (λ d. d.muted) (λ d. d.cooldown_ms) (c_string (e.comm)) now s in
    guard _ _ (raise _ _ refl refl)

file_mod_step-Mutes :
    (digest : List ℕ) (f : FileScanEvent) (now : ℕ) (s : FileMod)
    → muted_until (s.muted) (f.path) now ≡ false
    → Mutes (λ d. d.muted) (λ d. d.cooldown_ms) (f.path) now s (file_mod_step digest f now s)
unfolding file_mod_step
file_mod_step-Mutes digest f now s awake = elim (Bool-cases (f.present)) [
  | inr gone ↦ rw gone (refl, inr (_, refl, awake, refl))
  | inl here ↦ elim (Bool-cases (f.sha256 ~~ digest)) [
    | inl same ↦ rw (here, same) (refl, inl (refl, refl))
    | inr changed ↦ rw (here, changed) (refl, inr (_, refl, awake, refl))
  ]
]

pub file_mod_feed-Mutes :
    (f : FileScanEvent) (now : ℕ) (s : FileMod)
    → Mutes (λ d. d.muted) (λ d. d.cooldown_ms) (f.path) now s (file_mod_feed f now s)
unfolding file_mod_feed
file_mod_feed-Mutes f now s = elim (Option-cases (lookup (f.path) (s.baseline))) [
  | inl unknown ↦ rw (file_mod_feed, unknown) (refl, inl (refl, refl))
  | inr (digest, known) ↦ elim (Bool-cases (muted_until (s.muted) (f.path) now)) [
    | inl still ↦ rw (file_mod_feed, known, still) (refl, inl (refl, refl))
    | inr awake ↦
        let eq : file_mod_feed f now s ≡ file_mod_step digest f now s =
          rw (file_mod_feed, known, awake) refl in
        subst (Mutes (λ d. d.muted) (λ d. d.cooldown_ms) (f.path) now s) (sym eq)
          (file_mod_step-Mutes digest f now s awake)
  ]
]

abbrev pub unknown_exec_detector : KeyedDetector
unknown_exec_detector = record {
  Event = ExecEvent;
  State = UnknownExec;
  feed = unknown_exec_feed;
  key = λ e. alert_key e;
  muted = λ d. d.muted;
  cooldown = λ d. d.cooldown_ms;
  feed_keeps = λ e now s. (unknown_exec_feed-Mutes e now s).0;
  feed_mutes = λ e now s. (unknown_exec_feed-Mutes e now s).1;
}

abbrev pub priv_esc_detector : KeyedDetector
priv_esc_detector = record {
  Event = ExecEvent;
  State = Muting;
  feed = priv_esc_feed;
  key = λ e. alert_key e;
  muted = λ d. d.muted;
  cooldown = λ d. d.cooldown_ms;
  feed_keeps = λ e now s. (priv_esc_feed-Mutes e now s).0;
  feed_mutes = λ e now s. (priv_esc_feed-Mutes e now s).1;
}

abbrev pub rev_shell_detector : KeyedDetector
rev_shell_detector = record {
  Event = ExecEvent;
  State = RevShell;
  feed = rev_shell_feed;
  key = λ e. c_string (e.parent_comm);
  muted = λ d. d.muted;
  cooldown = λ d. d.cooldown_ms;
  feed_keeps = λ e now s. (rev_shell_feed-Mutes e now s).0;
  feed_mutes = λ e now s. (rev_shell_feed-Mutes e now s).1;
}

abbrev pub file_mod_detector : KeyedDetector
file_mod_detector = record {
  Event = FileScanEvent;
  State = FileMod;
  feed = file_mod_feed;
  key = λ f. f.path;
  muted = λ d. d.muted;
  cooldown = λ d. d.cooldown_ms;
  feed_keeps = λ f now s. (file_mod_feed-Mutes f now s).0;
  feed_mutes = λ f now s. (file_mod_feed-Mutes f now s).1;
}

abbrev pub new_setuid_detector : KeyedDetector
new_setuid_detector = record {
  Event = FileScanEvent;
  State = Known;
  feed = new_setuid_feed;
  key = λ f. f.path;
  muted = λ d. d.muted;
  cooldown = λ d. d.cooldown_ms;
  feed_keeps = λ f now s. (new_setuid_feed-Mutes f now s).0;
  feed_mutes = λ f now s. (new_setuid_feed-Mutes f now s).1;
}

abbrev pub kmod_load_detector : KeyedDetector
kmod_load_detector = record {
  Event = ModuleScanEvent;
  State = Known;
  feed = kmod_load_feed;
  key = λ m. m.name;
  muted = λ d. d.muted;
  cooldown = λ d. d.cooldown_ms;
  feed_keeps = λ m now s. (kmod_load_feed-Mutes m now s).0;
  feed_mutes = λ m now s. (kmod_load_feed-Mutes m now s).1;
}

abbrev pub root_shell_detector : KeyedDetector
root_shell_detector = record {
  Event = ExecEvent;
  State = Muting;
  feed = root_shell_feed;
  key = λ e. c_string (e.comm);
  muted = λ d. d.muted;
  cooldown = λ d. d.cooldown_ms;
  feed_keeps = λ e now s. (root_shell_feed-Mutes e now s).0;
  feed_mutes = λ e now s. (root_shell_feed-Mutes e now s).1;
}

-- Times that are far enough below 2 ^ 64 for the cooldown.
abbrev pub IsEarly : {A : Type 0} → ℕ → List (A × ℕ) → Type 0
IsEarly c events = All (λ e. e.1 + c < 18446744073709551616) events

-- Whatever events a detector is fed, at whatever times, two of its alerts for one key are at least
-- its cooldown apart: unknown programs and escalations by program, reverse shells by parent, files by
-- path, modules by name and root shells by command. The times with the cooldown stay below 2^64.
pub alerts_are_spaced :
    (execs : List (ExecEvent × ℕ)) (files : List (FileScanEvent × ℕ))
    (modules : List (ModuleScanEvent × ℕ)) (unknown : UnknownExec) (escalation root : Muting)
    (reverse : RevShell) (changed : FileMod) (setuid kmod : Known)
    → IsEarly (unknown.cooldown_ms) execs
    → IsEarly (escalation.cooldown_ms) execs
    → IsEarly (reverse.cooldown_ms) execs
    → IsEarly (root.cooldown_ms) execs
    → IsEarly (changed.cooldown_ms) files
    → IsEarly (setuid.cooldown_ms) files
    → IsEarly (kmod.cooldown_ms) modules
    → (spaced (unknown.cooldown_ms) (alerts_of unknown_exec_detector execs unknown) ≡ true)
      × (spaced (escalation.cooldown_ms) (alerts_of priv_esc_detector execs escalation) ≡ true)
      × (spaced (reverse.cooldown_ms) (alerts_of rev_shell_detector execs reverse) ≡ true)
      × (spaced (root.cooldown_ms) (alerts_of root_shell_detector execs root) ≡ true)
      × (spaced (changed.cooldown_ms) (alerts_of file_mod_detector files changed) ≡ true)
      × (spaced (setuid.cooldown_ms) (alerts_of new_setuid_detector files setuid) ≡ true)
      × (spaced (kmod.cooldown_ms) (alerts_of kmod_load_detector modules kmod) ≡ true)
alerts_are_spaced execs files modules unknown escalation root reverse changed setuid kmod a b c d e
      f g =
    (
      alerts_of-spaced unknown_exec_detector (unknown.cooldown_ms) execs unknown a refl,
      alerts_of-spaced priv_esc_detector (escalation.cooldown_ms) execs escalation b refl,
      alerts_of-spaced rev_shell_detector (reverse.cooldown_ms) execs reverse c refl,
      alerts_of-spaced root_shell_detector (root.cooldown_ms) execs root d refl,
      alerts_of-spaced file_mod_detector (changed.cooldown_ms) files changed e refl,
      alerts_of-spaced new_setuid_detector (setuid.cooldown_ms) files setuid f refl,
      alerts_of-spaced kmod_load_detector (kmod.cooldown_ms) modules kmod g refl,
    )
