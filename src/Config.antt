-- ===== src/Config.antt =====
-- internal/config/config.go: the host configuration.
pub mod Validate
pub mod Store
pub mod Samples
mod Examples
use garm_provider_orbstack.Prelude.{String, ℤ, List}

-- an approved template machine under an image ID
pub record Image : Type 0 where
  pub machine_id : String
  pub manifest_path : String
  pub arch : String

pub record Flavor : Type 0 where
  pub cpus : ℤ
  pub memory_mib : ℤ
  pub disk_bytes : ℤ

-- `Host`; the timeout is in nanoseconds, as a `time.Duration` is.
pub record Host : Type 0 where
  pub controller_id : String
  pub orbctl_path : String
  pub state_dir : String
  pub max_instances : ℤ
  pub operation_timeout : ℤ
  pub images : List (String × Image)
  pub flavors : List (String × Flavor)
