-- ===== src/Provider/Delete.antt =====
-- Deletion in internal/provider/provider.go: `deleteRecord`, `releaseReservation`, `DeleteInstance`
-- and `RemoveAllInstances`.
pub mod Order
use garm_provider_orbstack.Prelude.{
  String, Bool, false, not, ◌==◌, ◌&&◌, ◌||◌, List, [], ◌∷◌, Option, none, some, if◌then◌else◌,
}
use garm_provider_orbstack.Error.{
  Error, Result, ok, err, wrapped, joined, entity_not_found, machine_not_found, is,
}
use garm_provider_orbstack.Exec.{Exec, pure, raise, lift, attempt, ◌>>=◌, ◌>>◌, refuse_if}
use garm_provider_orbstack.Platform.{Platform}
use garm_provider_orbstack.State.Record.{Record, reserved, deleting, same_phase}
use garm_provider_orbstack.State.Registry.{
  save, remove, snapshot, clone_uncertain, clear_clone_intent,
}
use garm_provider_orbstack.Orbstack.{Info}
use garm_provider_orbstack.Provider.World.{
  Machines, World, Provider, on_disk, on_machines, closing, delete_request,
}
use garm_provider_orbstack.Provider.Owned.{is_template, inventory, owned_info, lists_id, lists_name}
use garm_provider_orbstack.Provider.Resolve.{locked}

module _ {O : Type 0} ⦃platform : Platform⦄ (orb : Machines O) (p : Provider) where
  -- `releaseReservation`
  unfoldable pub release_reservation : Record → Bool → Exec (World O) (Unit {0})
  release_reservation r explicit = do
    refuse_if (not (same_phase r.phase reserved) || not (r.machine_id == ""))
        "only machine-less reservations can be released"
    uncertain ← on_disk (clone_uncertain p.registry r.runner_name)
    refuse_if (uncertain && not explicit)
        "clone outcome is uncertain; inspect OrbStack and use explicit recover"
    machines ← inventory orb p
    refuse_if (lists_name r.machine_name machines)
        "reserved machine name exists; inspect and explicitly adopt its ID"
    on_disk (clear_clone_intent p.registry r.runner_name)
    on_disk (remove p.registry r.runner_name)

  -- an error of the machine's deletion that says it is gone already is no error
  abbrev pub gone_is_fine : Result (Unit {0}) → Result (Unit {0})
  gone_is_fine (ok _) = ok tt
  gone_is_fine (err e) = if is e machine_not_found then ok tt else err e

  -- deleting the machine, if it was found to be there and owned
  abbrev pub delete_observed : Result Info → Record → Exec (World O) (Unit {0})
  delete_observed (ok _) r = do
    outcome ← attempt (on_machines (delete_request r.machine_id) (orb.delete r.machine_id))
    lift (gone_is_fine outcome)
  delete_observed (err e) r = if is e entity_not_found then pure tt else raise e

  -- `deleteRecord` for a record with a machine
  unfoldable pub delete_machine : Record → Exec (World O) (Unit {0})
  delete_machine r = do
    refuse_if (not (r.controller_id == p.host.controller_id) || is_template orb p r.machine_id)
        "refusing deletion of an unowned machine or template"
    let doomed = record r { phase = deleting }
    on_disk (save p.registry doomed)
    observed ← attempt (owned_info orb p doomed)
    delete_observed observed doomed
    machines ← inventory orb p
    refuse_if (lists_id r.machine_id machines) "owned machine remains after delete"
    on_disk (clear_clone_intent p.registry r.runner_name)
    on_disk (remove p.registry r.runner_name)

  -- `deleteRecord`
  unfoldable pub delete_record : Record → Bool → Exec (World O) (Unit {0})
  delete_record r explicit_release =
      if r.machine_id == "" then release_reservation r explicit_release else delete_machine r

  -- `DeleteInstance` where no record is found: a machine of that ID or name must not exist.
  unfoldable pub delete_unregistered : String → Exec (World O) (Unit {0})
  delete_unregistered target = do
    machines ← inventory orb p
    refuse_if (lists_id target machines || lists_name target machines)
        "refusing deletion of an unregistered existing machine"
    pure tt

  abbrev pub delete_resolved : String → Result (Record × String) → Exec (World O) (Unit {0})
  delete_resolved target (ok (r, lock)) = closing lock (delete_record r false)
  delete_resolved target (err e) =
      if is e entity_not_found then delete_unregistered target else raise e

  -- `DeleteInstance`
  unfoldable pub delete_instance : String → Exec (World O) (Unit {0})
  delete_instance target = do found ← attempt (locked p target false); delete_resolved target found

-- `errors.Join(failures...)`, nil where there is none
abbrev pub join : List Error → Option Error
join [] = none
join (e ∷ rest) = elim (join rest) [ none ↦ some e | some f ↦ some (joined e f) ]

abbrev pub note_failure : Result (Unit {0}) → List Error → List Error
note_failure (ok _) failures = failures
note_failure (err e) failures = wrapped "deleting runner" e ∷ failures

abbrev pub return_error {ℓ} : {S : Type ℓ} → Option Error → Exec S (Unit {0})
return_error none = pure tt
return_error (some e) = raise e

-- the copy of the provider with an empty pool
abbrev pub controller_scope : Provider → Provider
controller_scope p = record p { pool_id = "" }

module _ {O : Type 0} ⦃platform : Platform⦄ (orb : Machines O) (p : Provider) where
  -- the loop of `RemoveAllInstances`: every record is tried, and the failures are kept
  unfoldable pub delete_each : List Record → Exec (World O) (List Error)
  delete_each [] = pure []
  delete_each (r ∷ rest) = do
    outcome ← attempt (delete_instance orb p r.runner_name)
    failures ← delete_each rest
    pure (note_failure outcome failures)

module _ {O : Type 0} ⦃platform : Platform⦄ (orb : Machines O) (p : Provider) where
  -- `RemoveAllInstances`, in the scope of the controller
  unfoldable pub remove_all_instances : Exec (World O) (Unit {0})
  remove_all_instances = do
    records ← on_disk (snapshot p.registry.controller_id)
    failures ← delete_each orb (controller_scope p) records
    return_error (join failures)
