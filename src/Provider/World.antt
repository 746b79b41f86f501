-- ===== src/Provider/World.antt =====
-- What the provider works on (internal/provider/provider.go): the registry's disk, the machines
-- behind the interface `machineClient`, the template manifests and the source of random bytes.
use garm_provider_orbstack.Prelude.{String, Bool, List, [], ◌∷◌}
use Prim.Native.String.{◌++◌ as append}
use garm_provider_orbstack.Error.{Result, ok, err, external}
use garm_provider_orbstack.Exec.{Exec, pure, ◌>>=◌}
use garm_provider_orbstack.Disk.{Disk, close_lock}
use garm_provider_orbstack.Orbstack.{Machine, Info, MachineSettings, RunOptions}
use garm_provider_orbstack.Templates.Manifest.{ManifestFile}
use garm_provider_orbstack.Config.{Host}
use garm_provider_orbstack.State.Registry.{Registry}

-- `machineClient`. The command of `CloneCmd` is started and waited for in two steps. `cancelled` is
-- whether the context is done.
pub record Machines (O : Type 0) : Type 0 where
  pub start_clone : String → String → Exec O (Unit {0})
  pub wait_clone : Exec O (Unit {0})
  pub info : String → Exec O Info
  pub list : Exec O (List Machine)
  pub apply_settings : String → MachineSettings → Exec O (Unit {0})
  pub start : String → Exec O (Unit {0})
  pub stop : String → Exec O (Unit {0})
  pub delete : String → Exec O (Unit {0})
  pub run : RunOptions → Exec O (Unit {0})
  pub cancelled : O → Bool

-- The provider's calls of the machine interface, as they are recorded.
pub data Request : Type 0 where
  clone_request : String → String → Request
  wait_request : Request
  info_request : String → Request
  list_request : Request
  settings_request : String → MachineSettings → Request
  start_request : String → Request
  stop_request : String → Request
  delete_request : String → Request
  run_request : RunOptions → Request

-- `requests` holds the calls made so far, the last one first; `drawn` the outcomes of the coming
-- reads of random bytes, in hexadecimal.
pub record World (O : Type 0) : Type 0 where
  pub disk : Disk
  pub machines : O
  pub requests : List Request
  pub manifests : String → ManifestFile
  pub drawn : List (Result String)

pub record Provider : Type 0 where
  pub host : Host
  pub pool_id : String
  pub registry : Registry

module _ {O : Type 0} where
  -- a call of the registry
  unfoldable pub on_disk {ℓ} : {A : Type ℓ} → Exec Disk A → Exec (World O) A
  on_disk m w = let (r, d) = m w.disk in (r, record w { disk = d })

  -- a call of the machine interface
  unfoldable pub on_machines {ℓ} : {A : Type ℓ} → Request → Exec O A → Exec (World O) A
  on_machines q m w =
      let (r, o) = m w.machines in (r, record w { machines = o; requests = q ∷ w.requests })

  -- `defer lock.Close()` around the rest of a function
  unfoldable pub closing {ℓ} : {A : Type ℓ} → String → Exec (World O) A → Exec (World O) A
  closing path body w =
      let (r, w') = body w in (r, record w' { disk = (close_lock path w'.disk).1 })

  abbrev pub closed_unless_ok {ℓ} : {A : Type ℓ} → String → Result A → World O → World O
  closed_unless_ok path (ok a) w = w
  closed_unless_ok path (err e) w = record w { disk = (close_lock path w.disk).1 }

  -- `lock.Close()` before each return of an error
  unfoldable pub closing_on_error {ℓ} : {A : Type ℓ} → String → Exec (World O) A → Exec (World O) A
  closing_on_error path body w = let (r, w') = body w in (r, closed_unless_ok path r w')

  abbrev pub draw_from : List (Result String) → World O → Result String × World O
  draw_from [] w = (err (external "rand"), w)
  draw_from (r ∷ rest) w = (r, record w { drawn = rest })

  -- `generatedName`
  unfoldable pub generated_name : String → Exec (World O) String
  generated_name prefix = do hex ← λ w. draw_from w.drawn w; pure (append prefix hex)
