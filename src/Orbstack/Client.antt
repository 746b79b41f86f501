-- ===== src/Orbstack/Client.antt =====
-- The methods of `Client` in internal/orbstack/cli.go, over the `orbctl` program.
pub mod Delete
pub mod Wait
pub mod Sends
use Prim.Native.String.{◌++◌ as append}
use garm_provider_orbstack.Prelude.{
  ℕ, String, Bool, true, false, not, ◌==◌, ◌&&◌, ◌||◌, Option, some, none, List, [], ◌∷◌, ◌++◌,
  itoa, has_prefix, format_bool, is_blank, trim_space, split_on, before_first, cut_prefix, contains,
  if◌then◌else◌,
}
use garm_provider_orbstack.Error.{
  Error, Result, ok, err, sentinel, external, message, wrapped, machine_not_found, is, context_done,
}
use garm_provider_orbstack.Exec.{
  Exec, pure, raise, lift, attempt, ◌>>=◌, ◌>>◌, refuse_if, raise_if, wrapping,
}
use garm_provider_orbstack.Orbstack.{Machine, Info, CreateOptions, MachineSettings, RunOptions}

-- What one run of a program leaves: its two outputs, and the error of `Run`, if any.
pub record Output : Type 0 where
  pub stdout : String
  pub stderr : String
  pub failure : Option Error

-- `orbctl` and OrbStack behind it, the source of random bytes, and what the JSON decoder makes of an
-- output: `none` where it is refused, and for a list `some none` where it is `null`.
pub record Orbctl (S : Type 0) : Type 0 where
  pub spawn : List String → S → Output × S
  pub random_hex : ℕ → S → Result String × S
  pub decode_info : String → Option Info
  pub decode_list : String → Option (Option (List Machine))

-- The adapter's state: OrbStack behind it, and the argument lists sent so far, the last one first.
pub record Session (S : Type 0) : Type 0 where
  pub backend : S
  pub sent : List (List String)

-- `firstLine`
unfoldable pub first_line : String → String
unfolding before_first
first_line s = before_first b'\n' s

module _ {S : Type 0} (orbctl : Orbctl S) (path : String) where
  -- the error that `runOutput` makes of a failed run
  abbrev run_error : Output → Error → Error
  run_error o e =
      if trim_space o.stderr == "" && trim_space o.stdout == ""
      then wrapped "orbctl" e
      else wrapped
          (first_line
            (if trim_space o.stderr == "" then trim_space o.stdout else trim_space o.stderr))
          e

  abbrev pub judge : Output → Result String
  judge o = elim o.failure [ none ↦ ok o.stdout | some e ↦ err (run_error o e) ]

  abbrev pub spawned : List String → Exec (Session S) Output
  spawned args s =
      let (o, after) = orbctl.spawn args s.backend in
      (ok o, record { backend = after; sent = args ∷ s.sent })

  -- `runOutput`
  unfoldable pub run_output : List String → Exec (Session S) String
  run_output args = do
    refuse_if (is_blank path) "orbstack: orbctl path is empty"
    o ← spawned args
    lift (judge o)

  abbrev when_set : Bool → List String → List String
  when_set true args = args
  when_set false args = []

  -- the arguments of `Create`
  unfoldable pub create_args : CreateOptions → List String
  create_args o =
      ("create" ∷ "--arch" ∷ o.arch ∷ [])
      ++ (when_set (not (o.user == "")) ("--user" ∷ o.user ∷ [])
          ++ (when_set o.isolated ("--isolated" ∷ [])
              ++ (when_set o.isolate_network ("--isolate-network" ∷ [])
                  ++ ((if o.version == "" then o.distro else append o.distro (append ":" o.version))
                      ∷ o.name
                      ∷ []))))

  -- `Create`
  unfoldable pub create : CreateOptions → Exec (Session S) (Unit {0})
  create o = do _ ← run_output (create_args o); pure tt

  -- `CloneCmd` and `Clone`: the prepared command, and the command run to its end
  unfoldable pub clone_args : String → String → List String
  clone_args source dest = "clone" ∷ source ∷ dest ∷ []

  unfoldable pub clone : String → String → Exec (Session S) (Unit {0})
  clone source dest = do
    o ← spawned (clone_args source dest)
    λ s. elim o.failure [ none ↦ (ok tt, s) | some e ↦ (err e, s) ]

  -- the JSON of `Info` and its check
  unfoldable pub read_info : String → Result Info
  read_info out = elim (orbctl.decode_info out) [
    | none ↦ err (message "decoding orbctl info output")
    | some info ↦
        if info.machine.id == "" || info.machine.name == ""
        then err (message "orbstack: info returned an empty record")
        else ok info
  ]

  -- `Info`
  unfoldable pub info : String → Exec (Session S) Info
  info id_or_name = do
    out ← run_output ("info" ∷ id_or_name ∷ "--format" ∷ "json" ∷ [])
    lift (read_info out)

  -- the loop of `List` over the machines, with the IDs seen
  unfoldable pub check_machines : List String → List Machine → Result (Unit {0})
  check_machines seen [] = ok tt
  check_machines seen (m ∷ rest) =
      if m.id == "" || m.name == ""
      then err (message "orbstack: list returned a machine with empty ID or name")
      else if contains m.id seen
      then err (message "orbstack: list returned duplicate machine ID")
      else check_machines (m.id ∷ seen) rest

  abbrev checked : List Machine → Result (Unit {0}) → Result (List Machine)
  checked machines (ok _) = ok machines
  checked machines (err e) = err e

  unfoldable pub read_list : String → Result (List Machine)
  read_list out = elim (orbctl.decode_list out) [
    | none ↦ err (message "decoding orbctl list output")
    | some none ↦ err (message "orbstack: list returned null inventory")
    | some (some machines) ↦ checked machines (check_machines [] machines)
  ]

  -- `List`
  unfoldable pub list : Exec (Session S) (List Machine)
  list = do out ← run_output ("list" ∷ "--format" ∷ "json" ∷ []); lift (read_list out)

  -- `Start`, `Rename` and `SetConfig`
  unfoldable pub start : String → Exec (Session S) (Unit {0})
  start id_or_name = do _ ← run_output ("start" ∷ id_or_name ∷ []); pure tt

  unfoldable pub rename : String → String → Exec (Session S) (Unit {0})
  rename id_or_name new_name = do _ ← run_output ("rename" ∷ id_or_name ∷ new_name ∷ []); pure tt

  unfoldable pub set_config : String → String → Exec (Session S) (Unit {0})
  set_config key value = do _ ← run_output ("config" ∷ "set" ∷ key ∷ value ∷ []); pure tt

  -- `Stop`
  unfoldable pub stop : String → Exec (Session S) (Unit {0})
  stop id_or_name = do
    refuse_if (is_blank id_or_name) "orbstack: refusing stop with empty machine target"
    _ ← run_output ("stop" ∷ id_or_name ∷ [])
    pure tt

  -- the loop of `findByID`
  unfoldable pub first_with_id : String → List Machine → Result Machine
  first_with_id id [] = err (sentinel machine_not_found)
  first_with_id id (m ∷ rest) = if m.id == id then ok m else first_with_id id rest

  -- `findByID`
  unfoldable pub find_by_id : String → Exec (Session S) Machine
  find_by_id id = do machines ← list; lift (first_with_id id machines)

  abbrev draw : ℕ → Exec (Session S) String
  draw n s = let (r, after) = orbctl.random_hex n s.backend in (r, record s { backend = after })

  -- `randomMachineName`
  unfoldable pub random_machine_name : String → Exec (Session S) String
  random_machine_name prefix = do hex ← draw 8; pure (append prefix (append "-" hex))

  abbrev quota_key : String → String
  quota_key id = append "machine." (append id ".disk_bytes")

  -- After the second lookup of `Delete`: the name must still be the fresh one.
  unfoldable pub delete_bound : String → Machine → Exec (Session S) (Unit {0})
  delete_bound fresh m = do
    refuse_if (not (m.name == fresh)) "machine renamed concurrently; aborting delete"
    _ ← run_output ("delete" ∷ "--force" ∷ fresh ∷ [])
    pure tt

  -- a machine that is absent is deleted already
  abbrev unless_absent :
      Result Machine → (Machine → Exec (Session S) (Unit {0})) → Exec (Session S) (Unit {0})
  unless_absent (ok m) k = k m
  unless_absent (err e) k = if is e machine_not_found then pure tt else raise e

  unfoldable pub delete_found : String → Exec (Session S) (Unit {0})
  delete_found id = do
    _ ← attempt (run_output ("config" ∷ "set" ∷ quota_key id ∷ "0" ∷ []))
    fresh ← wrapping "generating deletion name" (random_machine_name "garm-del")
    wrapping "binding deletion name to machine" (rename id fresh)
    found ← attempt (find_by_id id)
    unless_absent found (delete_bound fresh)

  -- `Delete`
  unfoldable pub delete : String → Exec (Session S) (Unit {0})
  delete id = do
    refuse_if (is_blank id) "orbstack: refusing delete with empty machine ID"
    found ← attempt (find_by_id id)
    unless_absent found (λ _. delete_found id)

  -- the settings of `ApplySettings` in their order
  unfoldable pub settings_list : MachineSettings → List (String × String)
  settings_list s =
      ("cpu", itoa s.cpus)
      ∷ ("memory_mib", itoa s.memory_mib)
      ∷ ("disk_bytes", itoa s.disk_bytes)
      ∷ ("isolated", format_bool s.isolated)
      ∷ ("forward_ssh_agent", format_bool s.forward_ssh_agent)
      ∷ ("isolate_network", format_bool s.isolate_network)
      ∷ ("mounts", "")
      ∷ []

  abbrev pub setting_key : String → String → String
  setting_key name suffix = append "machine." (append name (append "." suffix))

  unfoldable pub apply_each : String → List (String × String) → Exec (Session S) (Unit {0})
  apply_each name [] = pure tt
  apply_each name ((suffix, value) ∷ rest) = do
    wrapping "setting machine option" (set_config (setting_key name suffix) value)
    apply_each name rest

  -- `ApplySettings`
  unfoldable pub apply_settings : String → MachineSettings → Exec (Session S) (Unit {0})
  apply_settings name s = apply_each name (settings_list s)

  -- the arguments of `RunCmd`
  unfoldable pub run_args : RunOptions → List String
  run_args o =
      ("run" ∷ [])
      ++ (when_set (not (o.machine == "")) ("--machine" ∷ o.machine ∷ [])
          ++ (when_set (not (o.user == "")) ("--user" ∷ o.user ∷ [])
              ++ (when_set (not (o.workdir == "")) ("--workdir" ∷ o.workdir ∷ []) ++ o.command)))

  -- whether `Run` refuses the guest command
  unfoldable pub bad_command : List String → Bool
  bad_command [] = true
  bad_command (c ∷ _) = has_prefix c "-"

  -- `Run`, with what it writes to the two outputs
  unfoldable pub run_streams : RunOptions → Exec (Session S) Output
  run_streams o = do
    refuse_if (bad_command o.command) "orbstack: guest command must be a non-empty argv"
    spawned (run_args o)

  -- `Run`
  unfoldable pub run : RunOptions → Exec (Session S) (Unit {0})
  run o = do out ← run_streams o; λ s. elim out.failure [ none ↦ (ok tt, s) | some e ↦ (err e, s) ]

  -- the version in one line of `orbctl version`, if it has one
  unfoldable pub version_in : String → Option String
  version_in line = elim (cut_prefix (trim_space line) "Version:") [
    | none ↦ none
    | some rest ↦
        let ver = before_first b' ' (trim_space rest) in if ver == "" then none else some ver
  ]

  unfoldable pub first_version : List String → Result String
  first_version [] = err (message "orbstack: could not parse version output")
  first_version (line ∷ rest) = elim (version_in line) [
    | some ver ↦ ok ver
    | none ↦ first_version rest
  ]

  -- `Version`
  unfoldable pub version : Exec (Session S) String
  version = do out ← run_output ("version" ∷ []); lift (first_version (split_on b'\n' out))
