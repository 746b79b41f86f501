-- ===== src/Provider/Safety/Operations.antt =====
-- Every operation of the provider that GARM or the operator calls, and sequences of them
-- (internal/provider/provider.go).
use garm_provider_orbstack.Prelude.{
  String, Bool, true, false, not, ◌≡◌, ◌==◌, ◌||◌, List, [], ◌∷◌, All,
}
use garm_provider_orbstack.Error.{sentinel, entity_not_found}
use garm_provider_orbstack.Exec.{Exec, pure, ◌>>=◌}
use garm_provider_orbstack.Exec.Keeps.{Moves, Moves-if}
use garm_provider_orbstack.Platform.{Platform}
use garm_provider_orbstack.State.Record.{Record, reserved, same_phase}
use garm_provider_orbstack.State.Registry.Health.{IsSound}
use garm_provider_orbstack.State.Registry.Health.Operations.{
  save-Tidy, clear_clone_intent-Tidy, snapshot-Tidy,
}
use garm_provider_orbstack.Provider.World.{World, Machines, Provider, start_request, stop_request}
use garm_provider_orbstack.Provider.Owned.{is_template}
use garm_provider_orbstack.Provider.Bootstrap.{Tooling, BootstrapInstance}
use garm_provider_orbstack.Provider.Resolve.{locked}
use garm_provider_orbstack.Provider.Delete.{delete_instance, remove_all_instances}
use garm_provider_orbstack.Provider.Create.{create_instance}
use garm_provider_orbstack.Provider.Lifecycle.{
  list_each, list_instances, get_instance, start, stop, check_observed, observed_as, adopt, recover,
}
use garm_provider_orbstack.Provider.Safety.{
  Safe, Proper, Proper-order, on_disk-Proper, on_machines-Proper, then_do, then_knowing,
  pure-Proper, lift-Proper, refuse_if-Proper, raise_if-Proper,
}
use garm_provider_orbstack.Provider.Safety.Locks.{holding}
use garm_provider_orbstack.Provider.Safety.Owned.{
  inventory-Proper, owned_info-Proper, owned_info-spares, observe-Proper, locked-Takes, lock_of,
}
use garm_provider_orbstack.Provider.Safety.Deletion.{
  release_reservation-Proper, delete_instance-Proper, remove_all_instances-Proper,
}
use garm_provider_orbstack.Provider.Safety.Creation.{create_instance-Proper}

module _ {O : Type 0} ⦃platform : Platform⦄ (orb : Machines O) (p : Provider) where
  list_instances-Proper : (pool : String) → Moves (Proper p) (list_instances orb p pool)
  unfolding list_instances
  list_instances-Proper pool = then_do p _ _ (refuse_if-Proper p _ _) λ _.
      then_do p _ _ (on_disk-Proper p _ (snapshot-Tidy p.registry.controller_id)) λ records.
        then_do p _ _ (inventory-Proper orb p)
          λ machines. lift-Proper p (list_each orb p pool machines records)

  get_instance-Proper : (target : String) → Moves (Proper p) (get_instance orb p target)
  unfolding get_instance
  get_instance-Proper target =
      holding p lock_of (locked p target true) _ (locked-Takes p target true) λ x.
        then_do p _ _ (raise_if-Proper p (x.0.machine_id == "") (sentinel entity_not_found))
          λ _. observe-Proper orb p x.0

  start-Proper : (target : String) → Moves (Proper p) (start orb p target)
  unfolding start is_template
  start-Proper target = holding p lock_of (locked p target true) _ (locked-Takes p target true) λ x.
      then_do p _ _ (raise_if-Proper p (x.0.machine_id == "") (sentinel entity_not_found)) λ _.
        then_knowing p _ _ (owned_info-Proper orb p x.0) λ info s known.
          on_machines-Proper p (start_request x.0.machine_id) (orb.start x.0.machine_id)
            (owned_info-spares orb p x.0 s info known)

  stop-Proper : (target : String) (force : Bool) → Moves (Proper p) (stop orb p target force)
  unfolding stop is_template
  stop-Proper target force =
      holding p lock_of (locked p target true) _ (locked-Takes p target true) λ x.
        then_do p _ _ (raise_if-Proper p (x.0.machine_id == "") (sentinel entity_not_found)) λ _.
          then_knowing p _ _ (owned_info-Proper orb p x.0) λ info s known.
            on_machines-Proper p (stop_request x.0.machine_id) (orb.stop x.0.machine_id)
              (owned_info-spares orb p x.0 s info known)

  adopt-Proper :
      (r : Record) (runner_name machine_id : String)
      → Moves (Proper p) (adopt orb p r runner_name machine_id)
  unfolding adopt
  adopt-Proper r runner_name machine_id = then_do p _ _ (refuse_if-Proper p _ _) λ _.
      then_do p _ _ (inventory-Proper orb p) λ machines.
        then_do p _ _
          (lift-Proper p (check_observed orb p (observed_as orb p machine_id machines) r))
          λ _.
            then_do p _ _ (on_disk-Proper p _ (save-Tidy p.registry _))
              λ _. on_disk-Proper p _ (clear_clone_intent-Tidy p.registry runner_name)

  abbrev not_pending : Record → String → Bool
  not_pending r runner_name =
      not (r.runner_name == runner_name)
      || not (same_phase r.phase reserved)
      || not (r.machine_id == "")

  recover-Proper :
      (runner_name machine_id : String) (release : Bool)
      → Moves (Proper p) (recover orb p runner_name machine_id release)
  unfolding recover
  recover-Proper runner_name machine_id release = then_do p _ _ (refuse_if-Proper p _ _) λ _.
      holding p lock_of (locked p runner_name false) _ (locked-Takes p runner_name false) λ x.
        then_do p _ _
          (refuse_if-Proper p (not_pending x.0 runner_name)
            "recovery requires a machine-less pending reservation")
          λ _.
            Moves-if (Proper-order p) release _ _ (λ _. release_reservation-Proper orb p x.0 true)
              (λ _. adopt-Proper x.0 runner_name machine_id)

-- a call by GARM or by the operator
pub data Operation : Type 0 where
  creating : BootstrapInstance → Operation
  deleting_one : String → Operation
  getting : String → Operation
  listing : String → Operation
  removing_all : Operation
  starting : String → Operation
  stopping : String → Bool → Operation
  recovering : String → String → Bool → Operation

module _ {O : Type 0} ⦃platform : Platform⦄ (tooling : Tooling) (orb : Machines O)
    (p : Provider) where
  abbrev pub perform : Operation → Exec (World O) (Unit {0})
  perform (creating b) = do _ ← create_instance tooling orb p b; pure tt
  perform (deleting_one target) = delete_instance orb p target
  perform (getting target) = do _ ← get_instance orb p target; pure tt
  perform (listing pool) = do _ ← list_instances orb p pool; pure tt
  perform removing_all = remove_all_instances orb p
  perform (starting target) = start orb p target
  perform (stopping target force) = stop orb p target force
  perform (recovering name id release) = recover orb p name id release

  perform-Proper : (op : Operation) → Moves (Proper p) (perform op)
  perform-Proper (creating b) =
      then_do p _ _ (create_instance-Proper tooling orb p b) λ _. pure-Proper p tt
  perform-Proper (deleting_one target) = delete_instance-Proper orb p target
  perform-Proper (getting target) =
      then_do p _ _ (get_instance-Proper orb p target) λ _. pure-Proper p tt
  perform-Proper (listing pool) =
      then_do p _ _ (list_instances-Proper orb p pool) λ _. pure-Proper p tt
  perform-Proper removing_all = remove_all_instances-Proper orb p
  perform-Proper (starting target) = start-Proper orb p target
  perform-Proper (stopping target force) = stop-Proper orb p target force
  perform-Proper (recovering name id release) = recover-Proper orb p name id release

  -- the world after a sequence of operations, of which each may succeed or fail
  abbrev pub after_all : List Operation → World O → World O
  after_all [] w = w
  after_all (op ∷ rest) w = after_all rest (perform op w).1

  after_all-Proper : (ops : List Operation) (w : World O) → Proper p w (after_all ops w)
  after_all-Proper [] w = (Proper-order p).same w
  after_all-Proper (op ∷ rest) w =
      (Proper-order p).chain ((perform-Proper op).at w) (after_all-Proper rest (perform op w).1)

  -- Where other processes leave a readable registry readable: whatever the machines and the system
  -- calls do, after any sequence of operations on a readable registry it is readable again, which
  -- means one JSON array of records that pass validation, and every lock that was taken is released.
  pub after_all-IsSound :
      (ops : List Operation) (w : World O)
      → IsSound w.disk
      → IsSound (after_all ops w).disk × ((after_all ops w).disk.held ≡ w.disk.held)
  after_all-IsSound ops w sound =
      let moved = (after_all-Proper ops w).tidy in (moved.sound sound, moved.held)

  -- Whatever the machines and the registry answer, where this held of the calls before: no sequence of
  -- operations starts, stops, deletes or enters a registered template, only registered templates are cloned, commands in a machine run
  -- as root, and settings isolate the runner and forward no SSH agent.
  pub after_all-Safe :
      (ops : List Operation) (w : World O)
      → All (λ q. Safe p q) w.requests
      → All (λ q. Safe p q) (after_all ops w).requests
  after_all-Safe ops w safe = (after_all-Proper ops w).calls safe
