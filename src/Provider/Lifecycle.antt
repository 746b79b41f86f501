-- ===== src/Provider/Lifecycle.antt =====
-- The other operations of internal/provider/provider.go that GARM and the operator call.
pub mod Listing
use garm_provider_orbstack.Prelude.{
  String, Bool, true, false, not, ◌==◌, ◌&&◌, ◌||◌, List, [], ◌∷◌, Option, none, some, pos,
  if◌then◌else◌,
}
use garm_provider_orbstack.Error.{Result, ok, err, sentinel, message, entity_not_found}
use garm_provider_orbstack.Exec.{Exec, pure, lift, ◌>>=◌, ◌>>◌, refuse_if, raise_if}
use garm_provider_orbstack.Platform.{Platform}
use garm_provider_orbstack.State.Record.{Record, reserved, created, same_phase}
use garm_provider_orbstack.State.Registry.{save, snapshot, clear_clone_intent, open_registry}
use garm_provider_orbstack.Config.{Host}
use garm_provider_orbstack.Orbstack.{Machine, Info}
use garm_provider_orbstack.Provider.World.{
  Machines, World, Provider, on_disk, on_machines, closing, start_request, stop_request,
}
use garm_provider_orbstack.Provider.Owned.{
  ProviderInstance, instance_of, is_template, inventory, owned_info, observe,
}
use garm_provider_orbstack.Provider.Resolve.{locked}
use garm_provider_orbstack.Provider.Delete.{release_reservation}

-- `New`: both identities parse to the same UUID before the registry is opened.
abbrev same_uuid : Option String → Option String → Bool
same_uuid (some a) (some b) = a == b
same_uuid _ _ = false

abbrev known : Option String → Bool
known none = false
known (some _) = true

module _ {O : Type 0} ⦃platform : Platform⦄ where
  unfoldable pub new : Host → String → String → Exec (World O) Provider
  new host controller_id pool_id = do
    refuse_if (not (known (platform.parse_uuid controller_id))) "invalid controller identity"
    refuse_if
        (not
          (same_uuid (platform.parse_uuid controller_id) (platform.parse_uuid host.controller_id)))
        "controller identity does not match host configuration"
    registry ← on_disk (open_registry host.controller_id)
    pure (record { host = host; pool_id = pool_id; registry = registry })

-- a map by ID: the last machine listed under the ID
unfoldable pub machine_of : String → List Machine → Option Machine
machine_of id [] = none
machine_of id (m ∷ rest) = elim (machine_of id rest) [
  | some later ↦ some later
  | none ↦ if m.id == id then some m else none
]

abbrev pub bare_info : Machine → Info
bare_info m = record { machine = m; disk_size = pos 0; ip4 = ""; ip6 = "" }

abbrev pub keep_instance :
    ProviderInstance → Result (List ProviderInstance) → Result (List ProviderInstance)
keep_instance i (ok rest) = ok (i ∷ rest)
keep_instance i (err e) = err e

module _ {O : Type 0} ⦃platform : Platform⦄ (orb : Machines O) (p : Provider) where
  -- the loop of `ListInstances`
  unfoldable pub list_each : String → List Machine → List Record → Result (List ProviderInstance)
  list_each pool machines [] = ok []
  list_each pool machines (r ∷ rest) =
      let others = list_each pool machines rest in
      if not (r.pool_id == pool) || r.machine_id == ""
      then others
      else (elim (machine_of r.machine_id machines) [
        | none ↦ others
        | some m ↦
            if is_template orb p r.machine_id
            then err (message "registry illegally assigns a template as a runner")
            else keep_instance (instance_of r (bare_info m)) others
      ])

  -- `ListInstances`
  unfoldable pub list_instances : String → Exec (World O) (List ProviderInstance)
  list_instances pool = do
    refuse_if (pool == "" || not (p.pool_id == "") && not (p.pool_id == pool))
        "list requires the invocation pool identity"
    records ← on_disk (snapshot p.registry.controller_id)
    machines ← inventory orb p
    lift (list_each pool machines records)

  -- `GetInstance`
  unfoldable pub get_instance : String → Exec (World O) ProviderInstance
  get_instance target = do
    (r, lock) ← locked p target true
    closing lock do raise_if (r.machine_id == "") (sentinel entity_not_found); observe orb p r

  -- `Start`
  unfoldable pub start : String → Exec (World O) (Unit {0})
  start target = do
    (r, lock) ← locked p target true
    closing lock do
      raise_if (r.machine_id == "") (sentinel entity_not_found)
      _ ← owned_info orb p r
      on_machines (start_request r.machine_id) (orb.start r.machine_id)

  -- `Stop`, which ignores its `force` argument
  unfoldable pub stop : String → Bool → Exec (World O) (Unit {0})
  stop target force = do
    (r, lock) ← locked p target true
    closing lock do
      raise_if (r.machine_id == "") (sentinel entity_not_found)
      _ ← owned_info orb p r
      on_machines (stop_request r.machine_id) (orb.stop r.machine_id)

  -- the first machine listed under an ID
  unfoldable pub observed_as : String → List Machine → Option Machine
  observed_as id [] = none
  observed_as id (m ∷ rest) = if m.id == id then some m else observed_as id rest

  abbrev pub check_observed : Option Machine → Record → Result (Unit {0})
  check_observed none r = err (sentinel entity_not_found)
  check_observed (some m) r =
      if not (m.name == r.machine_name)
      then err (message "adopted machine does not match the reserved name")
      else ok tt

  -- the part of `Recover` that adopts a machine
  unfoldable pub adopt : Record → String → String → Exec (World O) (Unit {0})
  adopt r runner_name machine_id = do
    refuse_if (is_template orb p machine_id) "cannot adopt a registered template"
    machines ← inventory orb p
    lift (check_observed (observed_as machine_id machines) r)
    on_disk (save p.registry (record r { machine_id = machine_id; phase = created }))
    on_disk (clear_clone_intent p.registry runner_name)

  -- `Recover`
  unfoldable pub recover : String → String → Bool → Exec (World O) (Unit {0})
  recover runner_name machine_id release = do
    refuse_if
        (runner_name == ""
          || (machine_id == "") && not release
          || not (machine_id == "") && release)
        "recover requires runner-name and exactly one of machine-id or release"
    (r, lock) ← locked p runner_name false
    closing lock do
      refuse_if
          (not (r.runner_name == runner_name)
            || not (same_phase r.phase reserved)
            || not (r.machine_id == ""))
          "recovery requires a machine-less pending reservation"
      if release then release_reservation orb p r true else adopt r runner_name machine_id
