-- ===== src/State/Registry/Health/Locks.antt =====
-- The registry's instance and template locks (internal/state/registry.go).
use garm_provider_orbstack.Prelude.{String, Bool, true, false, ◌≡◌, refl, List, ◌∷◌, ◌==◌}
use garm_provider_orbstack.Platform.{Platform}
use garm_provider_orbstack.Exec.{Exec, ◌>>=◌, refuse_if}
use garm_provider_orbstack.Disk.{Disk, close_lock}
use garm_provider_orbstack.State.Registry.{
  Registry, lock_instance, lock_template, instance_lock, template_lock,
}
use garm_provider_orbstack.State.Registry.Health.{IsSound, Asked, acquire-Asked, drop_lock-head}

module _ ⦃p : Platform⦄ where
  refused_or_Asked :
      (path : String) (b : Bool) (m : String) (ask : Exec Disk (Unit {0})) (s : Disk)
      → Asked path (ask s).0 s (ask s).1
      → Asked path ((refuse_if b m >>= λ _. ask) s).0 s ((refuse_if b m >>= λ _. ask) s).1
  refused_or_Asked path true m ask s h = record {
    sound = λ k. k;
    taken = λ q. cc;
    refused = λ e q. refl;
  }
  refused_or_Asked path false m ask s h = h

  pub lock_instance-Asked :
      (r : Registry) (name : String) (wait : Bool) (s : Disk)
      → Asked
          (instance_lock r name)
          (lock_instance r name wait s).0
          s
          (lock_instance r name wait s).1
  unfolding lock_instance
  lock_instance-Asked r name wait s =
      refused_or_Asked _ (name == "") _ _ s (acquire-Asked (instance_lock r name) true false wait s)

  pub lock_template-Asked :
      (machine_id : String) (s : Disk)
      → Asked
          (template_lock machine_id)
          (lock_template machine_id s).0
          s
          (lock_template machine_id s).1
  unfolding lock_template
  lock_template-Asked machine_id s =
      refused_or_Asked _ (machine_id == "") _ _ s
        (acquire-Asked (template_lock machine_id) true false true s)

  -- closing the lock that was taken last
  pub close_lock-head :
      (path : String) (held : List String) (s : Disk)
      → s.held ≡ path ∷ held
      → (close_lock path s).1.held ≡ held
  unfolding close_lock
  close_lock-head path held s h = rw h (drop_lock-head path held)

  pub close_lock-IsSound : (path : String) (s : Disk) → IsSound s → IsSound (close_lock path s).1
  unfolding close_lock
  close_lock-IsSound path s h = record { readable = h.readable; others = h.others }
