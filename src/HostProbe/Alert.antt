-- ===== src/HostProbe/Alert.antt =====
-- The alerts of apps/host_probe/alert.h and alert.cpp.
use autosar_idsm.Prelude.{ℕ, ◌-◌, List, [], ◌∷◌, ◌++◌, take, replicate, length, ◌==◌, if◌then◌else◌}
use autosar_idsm.HostProbe.Event.{ExecEvent, SnapshotEvent, c_string, base_name}

abbrev pub dt_unknown_exec : ℕ
dt_unknown_exec = 1

abbrev pub dt_priv_esc : ℕ
dt_priv_esc = 2

abbrev pub dt_fork_flood : ℕ
dt_fork_flood = 3

abbrev pub dt_rev_shell : ℕ
dt_rev_shell = 4

abbrev pub dt_file_mod : ℕ
dt_file_mod = 5

abbrev pub dt_new_setuid : ℕ
dt_new_setuid = 6

abbrev pub dt_kmod_load : ℕ
dt_kmod_load = 7

abbrev pub dt_zombie_storm : ℕ
dt_zombie_storm = 8

abbrev pub dt_res_exhaust : ℕ
dt_res_exhaust = 9

abbrev pub dt_root_shell : ℕ
dt_root_shell = 10

abbrev pub hf_setuid : ℕ
hf_setuid = 0x01

abbrev pub hf_setgid : ℕ
hf_setgid = 0x02

abbrev pub hf_missing : ℕ
hf_missing = 0x04

abbrev pub hf_net_parent : ℕ
hf_net_parent = 0x08

abbrev pub file_mod_hash : ℕ
file_mod_hash = 1

abbrev pub file_mod_gone : ℕ
file_mod_gone = 2

abbrev pub res_exhaust_cpu : ℕ
res_exhaust_cpu = 1

abbrev pub res_exhaust_mem : ℕ
res_exhaust_mem = 2

abbrev pub root_shell_tty : ℕ
root_shell_tty = 1

abbrev pub root_shell_net : ℕ
root_shell_net = 2

pub record HostAlert : Type 0 where
  pub detector_type : ℕ
  pub flags : ℕ
  pub pid : ℕ
  pub uid : ℕ
  pub count : ℕ
  pub aux : ℕ
  pub name : List ℕ

-- `HostAlert{}`
abbrev pub empty_alert : HostAlert
empty_alert = record {
  detector_type = 0;
  flags = 0;
  pid = 0;
  uid = 0;
  count = 1;
  aux = 0;
  name = replicate 12 0;
}

-- The base name, at most 11 bytes of it, padded to 12.
unfoldable pub fill_name : List ℕ → List ℕ
unfolding base_name
fill_name s = let short = take 11 (base_name s) in short ++ replicate (12 - length short) 0

-- `e.comm[0] != '\0'` is that the string of it is not empty.
unfoldable pub exec_name : ExecEvent → List ℕ
unfolding c_string
exec_name e = elim (c_string (e.comm)) [ [] ↦ e.exe | c ∷ s ↦ c ∷ s ]

unfoldable pub make_exec_alert : ℕ → ExecEvent → ℕ → ℕ → HostAlert
unfolding fill_name exec_name
make_exec_alert dt e flags aux = record empty_alert {
  detector_type = dt;
  flags = flags;
  pid = e.pid;
  uid = e.uid;
  aux = aux;
  name = fill_name (exec_name e);
}

unfoldable pub make_file_alert : ℕ → List ℕ → ℕ → ℕ → ℕ → HostAlert
unfolding fill_name
make_file_alert dt path mode flags aux = record empty_alert {
  detector_type = dt;
  flags = flags;
  uid = mode;
  aux = aux;
  name = fill_name path;
}

unfoldable pub make_name_alert : ℕ → List ℕ → HostAlert
unfolding fill_name
make_name_alert dt name = record empty_alert { detector_type = dt; name = fill_name name }

unfoldable pub make_snap_alert : ℕ → SnapshotEvent → ℕ → HostAlert
unfolding fill_name c_string
make_snap_alert dt s aux =
    if aux == res_exhaust_mem
    then record empty_alert {
      detector_type = dt;
      aux = aux;
      pid = s.top_mem_pid;
      uid = s.top_mem_uid;
      name = fill_name (c_string (s.top_mem_comm));
    }
    else record empty_alert {
      detector_type = dt;
      aux = aux;
      pid = s.top_cpu_pid;
      uid = s.top_cpu_uid;
      name = fill_name (c_string (s.top_cpu_comm));
    }
