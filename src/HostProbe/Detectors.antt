-- ===== src/HostProbe/Detectors.antt =====
-- The detectors of apps/host_probe/detectors.h and detectors.cpp that are muted by key: a feed gives
-- an alert, or none, and the detector's next state.
use Prim.Native.Nat.{bit_or}
use autosar_idsm.Prelude.{
  ℕ, ◌+◌, ◌/◌, ◌%◌, Bool, true, false, not, ◌&&◌, ◌||◌, Option, none, some, List, [], ◌∷◌, ltb,
  ◌==◌, if◌then◌else◌, u64, ◌~~◌, bytes_key,
}
use autosar_idsm.Prelude.Assoc.{lookup, store, member}
use autosar_idsm.HostProbe.Event.{
  ExecEvent, FileScanEvent, ModuleScanEvent, c_string, has_slash, base_name,
}
use autosar_idsm.HostProbe.Alert.{
  HostAlert, make_exec_alert, make_file_alert, make_name_alert, dt_unknown_exec, dt_priv_esc,
  dt_rev_shell, dt_file_mod, dt_new_setuid, dt_kmod_load, dt_root_shell, hf_setuid, hf_setgid,
  hf_missing, hf_net_parent, file_mod_hash, file_mod_gone, root_shell_tty, root_shell_net,
}
use autosar_idsm.HostProbe.Names.{k_shells, remote_logins}

-- `muted_`: the time until which a key is muted.
abbrev pub Muted : Type 0
Muted = List (List ℕ × ℕ)

unfoldable pub muted_until : Muted → List ℕ → ℕ → Bool
unfolding lookup
muted_until muted key now = elim (lookup key muted) [ none ↦ false | some until ↦ ltb now until ]

-- `muted_[key] = now_ms + cfg_.cooldown_ms`
unfoldable pub mute : Muted → List ℕ → ℕ → ℕ → Muted
unfolding store
mute muted key now cooldown = store key (u64 (now + cooldown)) muted

-- A set's insertion.
unfoldable pub insert_name : List ℕ → List (List ℕ) → List (List ℕ)
unfolding member
insert_name name names = if member name names then names else name ∷ names

abbrev pub is_nil : List (List ℕ) → Bool
is_nil [] = true
is_nil (x ∷ xs) = false

unfoldable pub alert_key : ExecEvent → List ℕ
unfolding c_string
alert_key e = elim (e.exe) [ [] ↦ c_string (e.comm) | c ∷ s ↦ c ∷ s ]

unfoldable pub is_shell_comm : List ℕ → Bool
unfolding member
is_shell_comm comm = member comm k_shells

pub record UnknownExec : Type 0 where
  pub cooldown_ms : ℕ
  pub exact : List (List ℕ)
  pub base : List (List ℕ)
  pub muted : Muted

abbrev pub enabled : UnknownExec → Bool
enabled d = not (is_nil (d.exact)) || not (is_nil (d.base))

unfoldable pub add_allowed : List ℕ → UnknownExec → UnknownExec
unfolding has_slash insert_name
add_allowed entry d =
    if has_slash entry
    then record d { exact = insert_name entry (d.exact) }
    else record d { base = insert_name entry (d.base) }

-- The two lookups of a path that is not empty.
unfoldable pub exe_allowed : List ℕ → UnknownExec → Bool
unfolding member base_name
exe_allowed [] d = false
exe_allowed (c ∷ s) d = member (c ∷ s) (d.exact) || member (base_name (c ∷ s)) (d.base)

unfoldable pub is_allowed : ExecEvent → UnknownExec → Bool
unfolding exe_allowed
is_allowed e d = exe_allowed (e.exe) d || member (c_string (e.comm)) (d.base)

unfoldable pub unknown_exec_feed : ExecEvent → ℕ → UnknownExec → Option HostAlert × UnknownExec
unfolding is_allowed alert_key muted_until mute make_exec_alert
unknown_exec_feed e now d =
    if not (enabled d) || is_allowed e d
    then (none, d)
    else if muted_until (d.muted) (alert_key e) now
    then (none, d)
    else (
      some (make_exec_alert dt_unknown_exec e 0 0),
      record d { muted = mute (d.muted) (alert_key e) now (d.cooldown_ms) },
    )

-- The detectors that keep nothing but their configuration and the muted keys.
pub record Muting : Type 0 where
  pub cooldown_ms : ℕ
  pub muted : Muted

unfoldable pub priv_esc_feed : ExecEvent → ℕ → Muting → Option HostAlert × Muting
unfolding alert_key muted_until mute make_exec_alert
priv_esc_feed e now d =
    let flags : ℕ =
      if (e.egid == 0) && not (e.gid == 0) then bit_or hf_setuid hf_setgid else hf_setuid in
    if not (e.euid == 0) || (e.uid == 0)
    then (none, d)
    else if muted_until (d.muted) (alert_key e) now
    then (none, d)
    else (
      some (make_exec_alert dt_priv_esc e flags 0),
      record d { muted = mute (d.muted) (alert_key e) now (d.cooldown_ms) },
    )

pub record RevShell : Type 0 where
  pub cooldown_ms : ℕ
  pub net_parents : List (List ℕ)
  pub muted : Muted

unfoldable pub add_net_parent : List ℕ → RevShell → RevShell
unfolding insert_name
add_net_parent comm d = record d { net_parents = insert_name comm (d.net_parents) }

abbrev pub is_empty_name : List ℕ → Bool
is_empty_name [] = true
is_empty_name (c ∷ s) = false

unfoldable pub rev_shell_feed : ExecEvent → ℕ → RevShell → Option HostAlert × RevShell
unfolding is_shell_comm c_string member muted_until mute make_exec_alert
rev_shell_feed e now d =
    let parent = c_string (e.parent_comm) in
    if not (is_shell_comm (c_string (e.comm)))
    then (none, d)
    else if is_empty_name parent || not (member parent (d.net_parents))
    then (none, d)
    else if muted_until (d.muted) parent now
    then (none, d)
    else (
      some (make_exec_alert dt_rev_shell e hf_net_parent (e.ppid)),
      record d { muted = mute (d.muted) parent now (d.cooldown_ms) },
    )

-- The baseline gives the digest of a path.
pub record FileMod : Type 0 where
  pub cooldown_ms : ℕ
  pub baseline : List (List ℕ × List ℕ)
  pub muted : Muted

-- A path that is in the baseline with this digest, and is not muted.
unfoldable pub file_mod_step : List ℕ → FileScanEvent → ℕ → FileMod → Option HostAlert × FileMod
unfolding mute make_file_alert
file_mod_step digest f now d =
    let later = record d { muted = mute (d.muted) (f.path) now (d.cooldown_ms) } in
    if not (f.present)
    then (some (make_file_alert dt_file_mod (f.path) 0 hf_missing file_mod_gone), later)
    else if not (f.sha256 ~~ digest)
    then (some (make_file_alert dt_file_mod (f.path) (f.mode) 0 file_mod_hash), later)
    else (none, d)

unfoldable pub file_mod_feed : FileScanEvent → ℕ → FileMod → Option HostAlert × FileMod
unfolding lookup muted_until file_mod_step
file_mod_feed f now d = elim (lookup (f.path) (d.baseline)) [
  | none ↦ (none, d)
  | some digest ↦
      if muted_until (d.muted) (f.path) now then (none, d) else file_mod_step digest f now d
]

-- The detectors with a set of known names.
pub record Known : Type 0 where
  pub cooldown_ms : ℕ
  pub baseline : List (List ℕ)
  pub muted : Muted

-- `enabled`, for a set that is not empty.
abbrev pub known_enabled : Known → Bool
known_enabled d = not (is_nil (d.baseline))

-- add_baseline_path and add_baseline
unfoldable pub add_baseline : List ℕ → Known → Known
unfolding insert_name
add_baseline name d = record d { baseline = insert_name name (d.baseline) }

unfoldable pub new_setuid_feed : FileScanEvent → ℕ → Known → Option HostAlert × Known
unfolding member muted_until mute make_file_alert
new_setuid_feed f now d =
    if not (known_enabled d)
    then (none, d)
    else if not (f.present) || (f.mode / 2048 % 2 == 0) || not (f.uid == 0)
    then (none, d)
    else if member (f.path) (d.baseline)
    then (none, d)
    else if muted_until (d.muted) (f.path) now
    then (none, d)
    else (
      some (record (make_file_alert dt_new_setuid (f.path) (f.mode) hf_setuid 0) { uid = f.uid }),
      record d { muted = mute (d.muted) (f.path) now (d.cooldown_ms) },
    )

unfoldable pub kmod_load_feed : ModuleScanEvent → ℕ → Known → Option HostAlert × Known
unfolding member muted_until mute make_name_alert
kmod_load_feed m now d =
    if not (known_enabled d) || member (m.name) (d.baseline)
    then (none, d)
    else if muted_until (d.muted) (m.name) now
    then (none, d)
    else (
      some (make_name_alert dt_kmod_load (m.name)),
      record d { muted = mute (d.muted) (m.name) now (d.cooldown_ms) },
    )

unfoldable pub root_shell_feed : ExecEvent → ℕ → Muting → Option HostAlert × Muting
unfolding is_shell_comm c_string member muted_until mute make_exec_alert
root_shell_feed e now d =
    let key = c_string (e.comm) in
    let aux : ℕ =
      if member (c_string (e.parent_comm)) remote_logins then root_shell_net else root_shell_tty in
    if not (e.uid == 0) || not (is_shell_comm key)
    then (none, d)
    else if muted_until (d.muted) key now
    then (none, d)
    else (
      some (make_exec_alert dt_root_shell e 0 aux),
      record d { muted = mute (d.muted) key now (d.cooldown_ms) },
    )
