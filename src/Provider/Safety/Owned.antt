-- ===== src/Provider/Safety/Owned.antt =====
-- `inventory`, `ownedInfo`, `observe`, `resolve` and `locked` of internal/provider/provider.go.
use garm_provider_orbstack.Prelude.{
  String, Bool, true, false, not, ◌≡◌, refl, arith, ◌==◌, ◌||◌, ◌&&◌,
}
use garm_provider_orbstack.Error.{ok}
use garm_provider_orbstack.Exec.{Exec, pure, ◌>>=◌, refuse_if}
use garm_provider_orbstack.Exec.Keeps.{Moves, bind-eq-ok}
use garm_provider_orbstack.Platform.{Platform}
use garm_provider_orbstack.State.Record.{Record}
use garm_provider_orbstack.State.Registry.{lock_instance, instance_lock}
use garm_provider_orbstack.State.Registry.Health.Operations.{find-Tidy}
use garm_provider_orbstack.State.Registry.Health.Locks.{lock_instance-Asked}
use garm_provider_orbstack.Orbstack.{Info}
use garm_provider_orbstack.Provider.World.{World, Machines, Provider, info_request, list_request}
use garm_provider_orbstack.Provider.Owned.{inventory, owned_info, observe, is_template, instance_of}
use garm_provider_orbstack.Provider.Resolve.{resolve, locked, found_or_absent}
use garm_provider_orbstack.Provider.Safety.{
  Proper, on_disk-Proper, on_machines-Proper, then_do, pure-Proper, lift-Proper, attempt-Proper,
  refuse_if-Proper, raise_if-Proper,
}
use garm_provider_orbstack.Provider.Safety.Locks.{Takes, then_take, take_then}

pub allowed {ℓ} :
    {S : Type ℓ} (b : Bool) (m : String) (s : S) {a : Unit {0}}
    → (refuse_if b m s).0 ≡ ok a
    → b ≡ false
allowed true m s h = cc
allowed false m s h = refl

module _ {O : Type 0} ⦃platform : Platform⦄ (orb : Machines O) (p : Provider) where
  pub inventory-Proper : Moves (Proper p) (inventory orb p)
  unfolding inventory
  inventory-Proper =
      then_do p _ _ (on_machines-Proper p list_request orb.list tt)
        λ machines. then_do p _ _ (refuse_if-Proper p _ _) λ _. pure-Proper p machines

  pub owned_info-Proper : (r : Record) → Moves (Proper p) (owned_info orb p r)
  unfolding owned_info
  owned_info-Proper r = then_do p _ _ (refuse_if-Proper p _ _) λ _.
      then_do p _ _ inventory-Proper λ machines. then_do p _ _ (raise_if-Proper p _ _) λ _.
        then_do p _ _ (on_machines-Proper p (info_request r.machine_id) (orb.info r.machine_id) tt)
          λ info. then_do p _ _ (refuse_if-Proper p _ _) λ _. pure-Proper p info

  -- the machine that `ownedInfo` answers for is no template
  pub owned_info-spares :
      (r : Record) (s : World O) (i : Info)
      → (owned_info orb p r s).0 ≡ ok i
      → is_template orb p r.machine_id ≡ false
  unfolding owned_info
  owned_info-spares r s i h =
      let (_, passed, _) = bind-eq-ok (refuse_if _ "refusing unowned or template target") _ s h in
      let none : (not (r.controller_id == p.host.controller_id)
            || r.machine_id == ""
            || is_template orb p r.machine_id)
          ≡ false =
        allowed _ _ s passed in
      ground arith

  pub observe-Proper : (r : Record) → Moves (Proper p) (observe orb p r)
  unfolding observe
  observe-Proper r = then_do p _ _ (owned_info-Proper r) λ info. pure-Proper p (instance_of r info)

abbrev changed : Record → Record → Bool
changed current r =
    not (current.runner_name == r.runner_name) || not (current.machine_name == r.machine_name)

abbrev pub lock_of : Record × String → String
lock_of x = x.1

module _ {O : Type 0} ⦃platform : Platform⦄ (p : Provider) where
  -- what `locked` does under the lock
  abbrev again : String → Record → Exec (World O) (Record × String)
  again target r = resolve p target >>= λ current.
      refuse_if (changed current r) "runner ownership changed during operation" >>= λ _.
      pure (current, instance_lock p.registry r.runner_name)

  resolve-Proper : (target : String) → Moves (Proper {O = O} p) (resolve p target)
  unfolding resolve
  resolve-Proper target = then_do p _ _ (refuse_if-Proper p _ _) λ _.
      then_do p _ _ (attempt-Proper p _ (on_disk-Proper p _ (find-Tidy p.registry target))) λ found.
        then_do p _ _ (lift-Proper p (found_or_absent found)) λ r.
          then_do p _ _
            (refuse_if-Proper p (not (p.pool_id == "") && not (r.pool_id == p.pool_id))
              "instance belongs to another pool")
            λ _. pure-Proper p r

  -- `locked` returns with the lock that it names, or with none
  pub locked-Takes :
      (target : String) (wait : Bool) → Takes {O = O} p lock_of (locked p target wait)
  unfolding locked
  locked-Takes target wait = then_take p lock_of _ _ (resolve-Proper target) λ r.
      take_then p lock_of (instance_lock p.registry r.runner_name)
        (lock_instance p.registry r.runner_name wait) (again target r)
        (lock_instance-Asked p.registry r.runner_name wait)
        (then_do p _ _ (resolve-Proper target) λ current.
          then_do p _ _
            (refuse_if-Proper p (changed current r) "runner ownership changed during operation")
            λ _. pure-Proper p (current, instance_lock p.registry r.runner_name))
        (ends r)
    where
      ends :
          (r : Record) (s : World O) (x : Record × String)
          → (again target r s).0 ≡ ok x
          → x.1 ≡ instance_lock p.registry r.runner_name
      ends r s x h =
          let (current, _, k) = bind-eq-ok (resolve p target) _ s h in
          let (_, _, e) =
            bind-eq-ok (refuse_if (changed current r) "runner ownership changed during operation")
              (λ _. pure (current, instance_lock p.registry r.runner_name)) (resolve p target s).1
              k in
          cc (e)
