-- ===== src/Agent/Monitor.antt =====
-- agent/internal/process/monitor.go. What the runtime and the system report is the record MonitorIo.
use Prim.Native.Nat.{◌/◌}
use pocketclaude.Base.{ℕ, GoString, text, str_eq, Bool, Option, none, some, List, [], if◌then◌else◌}
use pocketclaude.Agent.Rpc.{Rpc, result, unknown_method}

pub record MemInfo : Type 0 where
  pub alloc : ℕ
  pub total_alloc : ℕ
  pub sys : ℕ
  pub num_gc : ℕ

pub record SystemInfo : Type 0 where
  pub os : GoString
  pub arch : GoString
  pub hostname : GoString
  pub go_version : GoString
  pub num_cpu : ℕ
  pub mem_stats : MemInfo
  pub timestamp : GoString

-- `mem` is runtime.ReadMemStats, in bytes; `timestamp` is the time in RFC 3339; `since` is the text of
-- the duration since a time.
pub record MonitorIo : Type 0 where
  pub os : GoString
  pub arch : GoString
  pub hostname : Option GoString
  pub go_version : GoString
  pub num_cpu : ℕ
  pub mem : MemInfo
  pub timestamp : GoString
  pub since : ℕ → GoString
  pub num_goroutine : ℕ

pub record Monitor : Type 0 where
  pub start_time : ℕ

abbrev pub new_monitor : ℕ → Monitor
new_monitor now = record { start_time = now }

pub record ProcessInfo : Type 0 where
  pub pid : ℕ
  pub name : GoString
  pub command : GoString
  pub running : Bool
  pub started : ℕ

pub record Health : Type 0 where
  pub status : GoString
  pub uptime : GoString
  pub goroutines : ℕ
  pub timestamp : GoString

pub data MonitorResult : Type 0 where
  system_info : SystemInfo → MonitorResult
  health : Health → MonitorResult
  processes : List ProcessInfo → MonitorResult

module _ (io : MonitorIo) where
  unfoldable pub get_system_info : SystemInfo
  get_system_info = record {
    os = io.os;
    arch = io.arch;
    hostname = elim io.hostname [ none ↦ [] | some h ↦ h ];
    go_version = io.go_version;
    num_cpu = io.num_cpu;
    mem_stats = record {
      alloc = io.mem.alloc / 1024 / 1024;
      total_alloc = io.mem.total_alloc / 1024 / 1024;
      sys = io.mem.sys / 1024 / 1024;
      num_gc = io.mem.num_gc;
    };
    timestamp = io.timestamp;
  }

  abbrev pub uptime : Monitor → GoString
  uptime m = io.since m.start_time

  abbrev pub find_processes_unix : List ProcessInfo
  find_processes_unix = []

  abbrev pub find_processes_windows : List ProcessInfo
  find_processes_windows = []

  unfoldable pub find_claude_code : List ProcessInfo
  find_claude_code =
      if str_eq io.os (text "windows") then find_processes_windows else find_processes_unix

  unfoldable pub health_check : Monitor → Health
  health_check m = record {
    status = text "healthy";
    uptime = uptime m;
    goroutines = io.num_goroutine;
    timestamp = io.timestamp;
  }

  unfoldable pub handle_rpc : {E : Type 0} → Monitor → GoString → Rpc MonitorResult E
  unfolding get_system_info health_check find_claude_code
  handle_rpc m method =
      if str_eq method (text "system.info")
      then result (system_info get_system_info)
      else if str_eq method (text "system.health")
      then result (health (health_check m))
      else if str_eq method (text "system.find_claude")
      then result (processes find_claude_code)
      else unknown_method
