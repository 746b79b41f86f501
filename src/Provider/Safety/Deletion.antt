-- ===== src/Provider/Safety/Deletion.antt =====
-- `deleteRecord`, `releaseReservation`, `DeleteInstance` and `RemoveAllInstances` of
-- internal/provider/provider.go.
use garm_provider_orbstack.Prelude.{
  String, Bool, false, not, ◌≡◌, refl, arith, ◌==◌, ◌||◌, ◌&&◌, List, [], ◌∷◌, Option, some, none,
}
use garm_provider_orbstack.Error.{Error, Result, ok, err, entity_not_found, is}
use garm_provider_orbstack.Exec.{Exec, refuse_if}
use garm_provider_orbstack.Exec.Keeps.{Moves, Moves-if}
use garm_provider_orbstack.Platform.{Platform}
use garm_provider_orbstack.State.Record.{Record, deleting}
use garm_provider_orbstack.State.Registry.Health.Operations.{
  save-Tidy, remove-Tidy, clear_clone_intent-Tidy, clone_uncertain-Tidy, snapshot-Tidy,
}
use garm_provider_orbstack.Orbstack.{Info}
use garm_provider_orbstack.Provider.World.{World, Machines, Provider, delete_request}
use garm_provider_orbstack.Provider.Owned.{is_template, lists_id}
use garm_provider_orbstack.Provider.Resolve.{locked}
use garm_provider_orbstack.Provider.Delete.{
  release_reservation, gone_is_fine, delete_observed, delete_machine, delete_record,
  delete_unregistered, delete_resolved, delete_instance, note_failure, return_error, join,
  controller_scope, delete_each, remove_all_instances,
}
use garm_provider_orbstack.Provider.Safety.{
  Proper, Proper-order, on_disk-Proper, on_machines-Proper, then_do, then_knowing, pure-Proper,
  raise-Proper, lift-Proper, attempt-Proper, refuse_if-Proper,
}
use garm_provider_orbstack.Provider.Safety.Locks.{holding_or}
use garm_provider_orbstack.Provider.Safety.Owned.{
  inventory-Proper, owned_info-Proper, locked-Takes, lock_of, allowed,
}

module _ {O : Type 0} ⦃platform : Platform⦄ (orb : Machines O) (p : Provider) where
  pub release_reservation-Proper :
      (r : Record) (explicit : Bool) → Moves (Proper p) (release_reservation orb p r explicit)
  unfolding release_reservation
  release_reservation-Proper r explicit = then_do p _ _ (refuse_if-Proper p _ _) λ _.
      then_do p _ _ (on_disk-Proper p _ (clone_uncertain-Tidy p.registry r.runner_name))
        λ uncertain.
          then_do p _ _
            (refuse_if-Proper p (uncertain && not explicit)
              "clone outcome is uncertain; inspect OrbStack and use explicit recover")
            λ _. then_do p _ _ (inventory-Proper orb p) λ machines.
              then_do p _ _ (refuse_if-Proper p _ _) λ _.
                then_do p _ _
                  (on_disk-Proper p _ (clear_clone_intent-Tidy p.registry r.runner_name))
                  λ _. on_disk-Proper p _ (remove-Tidy p.registry r.runner_name)

  delete_observed-Proper :
      (observed : Result Info) (r : Record)
      → is_template orb p r.machine_id ≡ false
      → Moves (Proper p) (delete_observed orb p observed r)
  unfolding is_template
  delete_observed-Proper (ok _) r spared =
      then_do p _ _
        (attempt-Proper p _
          (on_machines-Proper p (delete_request r.machine_id) (orb.delete r.machine_id) spared))
        λ outcome. lift-Proper p (gone_is_fine orb p outcome)
  delete_observed-Proper (err e) r spared =
      Moves-if (Proper-order p) (is e entity_not_found) _ _ (λ _. pure-Proper p tt)
        (λ _. raise-Proper p e)

  -- `deleteRecord` refuses a template before it does anything
  checked_spares :
      (r : Record) (s : World O) {a : Unit {0}}
      → (refuse_if
          (not (r.controller_id == p.host.controller_id) || is_template orb p r.machine_id)
          "refusing deletion of an unowned machine or template"
          s).0
        ≡ ok a
      → is_template orb p r.machine_id ≡ false
  checked_spares r s h =
      let none : (not (r.controller_id == p.host.controller_id) || is_template orb p r.machine_id)
          ≡ false =
        allowed _ _ s h in
      ground arith

  delete_machine-Proper : (r : Record) → Moves (Proper p) (delete_machine orb p r)
  unfolding delete_machine
  delete_machine-Proper r = then_knowing p _ _ (refuse_if-Proper p _ _) λ _ s passed.
      then_do p _ _ (on_disk-Proper p _ (save-Tidy p.registry _)) λ _.
        then_do p _ _ (attempt-Proper p _ (owned_info-Proper orb p _)) λ observed.
          then_do p _ _
            (delete_observed-Proper observed (record r { phase = deleting })
              (checked_spares r s passed))
            λ _. then_do p _ _ (inventory-Proper orb p) λ machines.
              then_do p _ _
                (refuse_if-Proper p (lists_id r.machine_id machines)
                  "owned machine remains after delete")
                λ _.
                  then_do p _ _
                    (on_disk-Proper p _ (clear_clone_intent-Tidy p.registry r.runner_name))
                    λ _. on_disk-Proper p _ (remove-Tidy p.registry r.runner_name)

  pub delete_record-Proper :
      (r : Record) (explicit : Bool) → Moves (Proper p) (delete_record orb p r explicit)
  unfolding delete_record
  delete_record-Proper r explicit =
      Moves-if (Proper-order p) (r.machine_id == "") _ _
        (λ _. release_reservation-Proper r explicit) (λ _. delete_machine-Proper r)

  delete_unregistered-Proper :
      (target : String) → Moves (Proper p) (delete_unregistered orb p target)
  unfolding delete_unregistered
  delete_unregistered-Proper target =
      then_do p _ _ (inventory-Proper orb p)
        λ machines. then_do p _ _ (refuse_if-Proper p _ _) λ _. pure-Proper p tt

  pub delete_instance-Proper : (target : String) → Moves (Proper p) (delete_instance orb p target)
  unfolding delete_instance
  delete_instance-Proper target =
      holding_or p lock_of (locked p target false) (delete_resolved orb p target)
        (λ x. delete_record orb p x.0 false) (locked-Takes p target false) (λ x. refl)
        (λ x. delete_record-Proper x.0 false)
        (λ e.
          Moves-if (Proper-order p) (is e entity_not_found) _ _
            (λ _. delete_unregistered-Proper target) (λ _. raise-Proper p e))

  pub delete_each-Proper : (records : List Record) → Moves (Proper p) (delete_each orb p records)
  unfolding delete_each
  delete_each-Proper [] = pure-Proper p []
  delete_each-Proper (r ∷ rest) =
      then_do p _ _ (attempt-Proper p _ (delete_instance-Proper r.runner_name)) λ outcome.
        then_do p _ _ (delete_each-Proper rest)
          λ failures. pure-Proper p (note_failure outcome failures)

module _ {O : Type 0} ⦃platform : Platform⦄ (orb : Machines O) (p : Provider) where
  -- the provider in the scope of its controller has the same templates
  widen :
      {A : Type 0} (m : Exec (World O) A)
      → Moves (Proper (controller_scope p)) m
      → Moves (Proper p) m
  widen m h = record { at = λ s. record { tidy = (h.at s).tidy; calls = (h.at s).calls } }

  return_error-Proper : (e : Option Error) → Moves (Proper {O = O} p) (return_error e)
  return_error-Proper none = pure-Proper p tt
  return_error-Proper (some e) = raise-Proper p e

  pub remove_all_instances-Proper : Moves (Proper p) (remove_all_instances orb p)
  unfolding remove_all_instances
  remove_all_instances-Proper =
      then_do p _ _ (on_disk-Proper p _ (snapshot-Tidy p.registry.controller_id)) λ records.
        then_do p _ _ (widen _ (delete_each-Proper orb (controller_scope p) records))
          λ failures. return_error-Proper (join failures)
