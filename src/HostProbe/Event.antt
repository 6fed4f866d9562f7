-- ===== src/HostProbe/Event.antt =====
-- The events of apps/host_probe/event.h. A string is its bytes, a char array its bytes with the
-- padding.
use autosar_idsm.Prelude.{ℕ, Bool, false, ◌||◌, List, [], ◌∷◌, ◌==◌, if◌then◌else◌}

pub data HostEventKind : Type 0 where
  exec : HostEventKind
  file_scan : HostEventKind
  module_scan : HostEventKind
  snapshot : HostEventKind

pub record ExecEvent : Type 0 where
  pub pid : ℕ
  pub ppid : ℕ
  pub uid : ℕ
  pub euid : ℕ
  pub gid : ℕ
  pub egid : ℕ
  pub comm : List ℕ
  pub parent_comm : List ℕ
  pub exe : List ℕ

pub record FileScanEvent : Type 0 where
  pub path : List ℕ
  pub sha256 : List ℕ
  pub present : Bool
  pub mode : ℕ
  pub uid : ℕ

pub record ModuleScanEvent : Type 0 where
  pub name : List ℕ

pub record SnapshotEvent : Type 0 where
  pub zombies : ℕ
  pub top_cpu_pid : ℕ
  pub top_cpu_uid : ℕ
  pub top_cpu_ppm : ℕ
  pub top_cpu_comm : List ℕ
  pub top_mem_pid : ℕ
  pub top_mem_uid : ℕ
  pub top_mem_rss_kb : ℕ
  pub top_mem_comm : List ℕ

pub record HostEvent : Type 0 where
  pub kind : HostEventKind
  pub ts_ms : ℕ
  pub exec_ : ExecEvent
  pub file : FileScanEvent
  pub module_ : ModuleScanEvent
  pub snap : SnapshotEvent

-- The std::string that a char array converts to: its bytes before the first NUL.
unfoldable pub c_string : List ℕ → List ℕ
c_string [] = []
c_string (c ∷ s) = let rest = c_string s in if c == 0 then [] else c ∷ rest

-- `s.find('/') != npos`
unfoldable pub has_slash : List ℕ → Bool
has_slash [] = false
has_slash (c ∷ s) = (c == 47) || has_slash s

-- base_name: what is behind the last slash.
unfoldable pub base_name : List ℕ → List ℕ
unfolding has_slash
base_name [] = []
base_name (c ∷ s) =
    let rest = base_name s in if has_slash s then rest else if c == 47 then s else c ∷ s
