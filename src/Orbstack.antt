-- ===== src/Orbstack.antt =====
-- internal/orbstack/cli.go: machines as OrbStack reports them, and the adapter of `orbctl`.
pub mod Client
mod Examples
use garm_provider_orbstack.Prelude.{String, Bool, List, ℤ, ◌==◌}

pub record Image : Type 0 where
  pub distro : String
  pub version : String
  pub arch : String
  pub variant : String

pub record MachineConfig : Type 0 where
  pub isolated : Bool
  pub forward_ssh_agent : Bool
  pub isolate_network : Bool
  pub default_username : String
  pub http_port : ℤ
  pub https_port : ℤ

pub record Machine : Type 0 where
  pub id : String
  pub name : String
  pub image : Image
  pub config : MachineConfig
  pub builtin : Bool
  pub state : String

-- `Info`; its machine is the field `record` in the source.
pub record Info : Type 0 where
  pub machine : Machine
  pub disk_size : ℤ
  pub ip4 : String
  pub ip6 : String

abbrev pub state_running : String
state_running = "running"

abbrev pub state_stopped : String
state_stopped = "stopped"

pub record CreateOptions : Type 0 where
  pub name : String
  pub distro : String
  pub version : String
  pub arch : String
  pub user : String
  pub isolated : Bool
  pub isolate_network : Bool

pub record MachineSettings : Type 0 where
  pub cpus : ℤ
  pub memory_mib : ℤ
  pub disk_bytes : ℤ
  pub isolated : Bool
  pub forward_ssh_agent : Bool
  pub isolate_network : Bool

-- `RunOptions`, with the text of its standard input
pub record RunOptions : Type 0 where
  pub machine : String
  pub user : String
  pub workdir : String
  pub command : List String
  pub stdin : String
