-- ===== src/Provider/Create.antt =====
-- `CreateInstance` of internal/provider/provider.go.
use garm_provider_orbstack.Prelude.{
  String, Bool, true, false, not, ◌==◌, Option, none, some, if◌then◌else◌,
}
use garm_provider_orbstack.Error.{
  Error, Result, ok, err, wrapped, sentinel, conflict, duplicate_entity, is,
}
use garm_provider_orbstack.Exec.{Exec, raise, lift, attempt, ◌>>=◌, ◌>>◌, refuse_if}
use garm_provider_orbstack.Platform.{Platform}
use garm_provider_orbstack.State.Record.{
  Record, schema_version, reserved, bootstrapping, active, same_phase,
}
use garm_provider_orbstack.State.Registry.{save, reserve, lock_instance, instance_lock}
use garm_provider_orbstack.Orbstack.{MachineSettings, state_stopped}
use garm_provider_orbstack.Config.{Flavor}
use garm_provider_orbstack.Provider.World.{
  Machines, World, Provider, on_disk, on_machines, closing, settings_request, start_request,
  generated_name,
}
use garm_provider_orbstack.Provider.Owned.{ProviderInstance, owned_info, observe}
use garm_provider_orbstack.Provider.Bootstrap.{BootstrapInstance, BootstrapPlan, Tooling}
use garm_provider_orbstack.Provider.Admission.{Admitted, admitted}
use garm_provider_orbstack.Provider.Inject.{inject_bootstrap}
use garm_provider_orbstack.Provider.Delete.{delete_record}
use garm_provider_orbstack.Provider.Clone.{clone}

-- the machine settings of a runner
abbrev pub runner_settings : Flavor → MachineSettings
runner_settings flavor = record {
  cpus = flavor.cpus;
  memory_mib = flavor.memory_mib;
  disk_bytes = flavor.disk_bytes;
  isolated = true;
  forward_ssh_agent = false;
  isolate_network = false;
}

-- an ErrConflict of `Reserve` becomes GARM's error
abbrev pub reserve_error : Error → Error
reserve_error e =
    if is e conflict
    then wrapped "runner name belongs to a different request" (sentinel duplicate_entity)
    else e

abbrev pub or_duplicate {ℓ} : {A : Type ℓ} → Result A → Result A
or_duplicate (ok a) = ok a
or_duplicate (err e) = err (reserve_error e)

module _ {O : Type 0} ⦃platform : Platform⦄ (tooling : Tooling) (orb : Machines O)
    (p : Provider) where
  -- the checks of `CreateInstance`, which take no lock
  abbrev pub admit : BootstrapInstance → Exec (World O) Admitted
  admit b w = (admitted tooling p w.manifests b, w)

  -- the record that is reserved under a generated machine name
  abbrev pub desired_record : BootstrapInstance → String → Record
  desired_record b machine_name = record {
    schema_version = schema_version;
    controller_id = p.host.controller_id;
    pool_id = b.pool_id;
    runner_name = b.name;
    machine_id = "";
    machine_name = machine_name;
    image_id = b.image;
    flavor = b.flavor;
    phase = reserved;
  }

  abbrev pub retained : Error → Result (Unit {0}) → Error
  retained cause (ok _) = cause
  retained cause (err e) = wrapped "owned machine retained for deletion" cause

  -- `fail`: the machine of a failed creation is deleted, and its cause is returned.
  unfoldable pub fail {ℓ} : {A : Type ℓ} → Record → Error → Exec (World O) A
  fail r cause = do cleanup ← attempt (delete_record orb p r false); raise (retained cause cleanup)

  -- the machine gets its settings while it is stopped, and is started
  unfoldable pub start_runner : Record → Flavor → Exec (World O) (Unit {0})
  start_runner r flavor = do
    info ← owned_info orb p r
    refuse_if (not (info.machine.state == state_stopped)) "new clone is not stopped before settings"
    on_machines (settings_request info.machine.name (runner_settings flavor))
        (orb.apply_settings info.machine.name (runner_settings flavor))
    on_machines (start_request r.machine_id) (orb.start r.machine_id)

  -- from the recorded clone to the runner whose bootstrap is queued
  unfoldable pub bring_up : Record → Flavor → BootstrapPlan → Exec (World O) ProviderInstance
  bring_up r flavor plan = do
    start_runner r flavor
    let booting = record r { phase = bootstrapping }
    on_disk (save p.registry booting)
    inject_bootstrap orb tooling r.machine_id plan
    observe orb p booting

  -- Enqueueing succeeded: a commit that fails keeps the runner.
  abbrev pub committed : ProviderInstance → Result (Unit {0}) → Result ProviderInstance
  committed seen (ok _) = ok seen
  committed seen (err e) =
      err (wrapped "bootstrap queued but active commit failed; inspect owned runner" e)

  abbrev pub finish : Record → Result ProviderInstance → Exec (World O) ProviderInstance
  finish r (err e) = fail r e
  finish r (ok seen) = do
    saved ← attempt (on_disk (save p.registry (record r { phase = active })))
    lift (committed seen saved)

  abbrev pub after_clone : Admitted → Record × Option Error → Exec (World O) ProviderInstance
  after_clone a (r, some e) = fail r e
  after_clone a (r, none) = do up ← attempt (bring_up r a.flavor a.plan); finish r up

  -- the part of `CreateInstance` from the reservation on
  abbrev pub create_reserved : Admitted → Record × Bool → Exec (World O) ProviderInstance
  create_reserved a (r, false) =
      if same_phase r.phase active
      then observe orb p r
      else raise (
          wrapped "runner creation is incomplete; delete or recover its reservation"
            (sentinel duplicate_entity))
  create_reserved a (r, true) = do taken ← clone orb p r a.image a.manifest; after_clone a taken

  -- the part of `CreateInstance` under the instance lock
  unfoldable pub create_locked : Admitted → BootstrapInstance → Exec (World O) ProviderInstance
  create_locked a b = do
    name ← generated_name "garm-runner-"
    result ← attempt (on_disk (reserve p.registry (desired_record b name) p.host.max_instances))
    reservation ← lift (or_duplicate result)
    create_reserved a reservation

  -- `CreateInstance`
  unfoldable pub create_instance : BootstrapInstance → Exec (World O) ProviderInstance
  create_instance b = do
    a ← admit b
    on_disk (lock_instance p.registry b.name true)
    closing (instance_lock p.registry b.name) (create_locked a b)
