-- ===== src/Provider/Safety/Cloning.antt =====
-- `clone` and `injectBootstrap` of internal/provider.
use garm_provider_orbstack.Prelude.{String, Bool, true, false, not, ◌≡◌, refl, ◌==◌, ◌||◌, List}
use garm_provider_orbstack.Error.{Error, Result, ok, err, wrapped, joined}
use garm_provider_orbstack.Exec.Keeps.{Moves}
use garm_provider_orbstack.Platform.{Platform}
use garm_provider_orbstack.Config.{Image}
use garm_provider_orbstack.Orbstack.{Info}
use garm_provider_orbstack.Templates.Manifest.{Manifest}
use garm_provider_orbstack.State.Record.{Record, created}
use garm_provider_orbstack.State.Registry.Health.Operations.{
  save-Tidy, remove-Tidy, mark_clone_intent-Tidy, clear_clone_intent-Tidy,
}
use garm_provider_orbstack.State.Registry.Health.{system_call-Tidy}
use garm_provider_orbstack.State.Registry.Health.Locks.{lock_template-Asked}
use garm_provider_orbstack.State.Registry.{lock_template, template_lock}
use garm_provider_orbstack.Provider.World.{
  Machines, Provider, on_disk, clone_request, wait_request, info_request, run_request,
}
use garm_provider_orbstack.Provider.Owned.{is_template, registered}
use garm_provider_orbstack.Provider.Bootstrap.{Tooling, BootstrapPlan}
use garm_provider_orbstack.Provider.Inject.{
  guest, guest_options, guest_result, remove_cached, inject_bootstrap, clear_cache, make_directory,
  extract, own_script, install_unit, reload_units, start_unit,
}
use garm_provider_orbstack.Provider.Clone.{
  before_clone_failure, after_clearing, or_start_failed, or_give_up, cloned_with, or_wrapped,
  with_cleared, prepare_clone, run_clone, identify_clone, clone,
}
use garm_provider_orbstack.Provider.Safety.{
  Proper, Proper-order, on_disk-Proper, on_machines-Proper, then_do, pure-Proper, raise-Proper,
  lift-Proper, attempt-Proper, refuse_if-Proper,
}
use garm_provider_orbstack.Provider.Safety.Locks.{holding, lock-Takes}
use garm_provider_orbstack.Provider.Safety.Owned.{inventory-Proper}

module _ {O : Type 0} ⦃platform : Platform⦄ (orb : Machines O) (p : Provider) where
  guest_result-Proper : (r : Result (Unit {0})) → Moves (Proper p) (guest_result orb r)
  guest_result-Proper (ok _) = pure-Proper p tt
  guest_result-Proper (err e) = record { at = (Proper-order p).same }

  -- a command in a machine that is no template
  guest-Proper :
      (id : String) (argv : List String) (stdin : String)
      → is_template orb p id ≡ false
      → Moves (Proper p) (guest orb id argv stdin)
  unfolding guest is_template
  guest-Proper id argv stdin spared =
      then_do p _ _
        (attempt-Proper p _ (
          on_machines-Proper p (run_request (guest_options id argv stdin))
            (orb.run (guest_options id argv stdin)) (spared, refl)))
        guest_result-Proper

  remove_cached-Proper :
      (b : Bool) (id : String)
      → is_template orb p id ≡ false
      → Moves (Proper p) (remove_cached orb b id)
  remove_cached-Proper true id spared = guest-Proper id clear_cache "" spared
  remove_cached-Proper false id spared = pure-Proper p tt

  pub inject_bootstrap-Proper :
      (tooling : Tooling) (id : String) (plan : BootstrapPlan)
      → is_template orb p id ≡ false
      → Moves (Proper p) (inject_bootstrap orb tooling id plan)
  unfolding inject_bootstrap
  inject_bootstrap-Proper tooling id plan spared =
      then_do p _ _ (remove_cached-Proper plan.remove_cache id spared) λ _.
        then_do p _ _ (guest-Proper id make_directory "" spared) λ _.
          then_do p _ _ (lift-Proper p (tooling.tar plan.files)) λ payload.
            then_do p _ _ (guest-Proper id extract payload spared) λ _.
              then_do p _ _ (guest-Proper id own_script "" spared) λ _.
                then_do p _ _ (guest-Proper id install_unit "" spared) λ _.
                  then_do p _ _ (guest-Proper id reload_units "" spared)
                    λ _. guest-Proper id start_unit "" spared

  before_clone_failure-Proper :
      {A : Type 0} (r : Record) (cause : Error)
      → Moves (Proper p) (before_clone_failure orb p {A = A} r cause)
  unfolding before_clone_failure
  before_clone_failure-Proper r cause =
      then_do p _ _ (attempt-Proper p _ (on_disk-Proper p _ (remove-Tidy p.registry r.runner_name)))
        λ removed. raise-Proper p (cloned_with orb p cause removed)

  or_give_up-Proper : (r : Record) (x : Result (Unit {0})) → Moves (Proper p) (or_give_up orb p r x)
  or_give_up-Proper r (ok a) = pure-Proper p a
  or_give_up-Proper r (err e) = before_clone_failure-Proper r e

  or_wrapped-Proper :
      {A : Type 0} (m : String) (x : Result A) → Moves (Proper p) (or_wrapped orb p m x)
  or_wrapped-Proper m (ok a) = pure-Proper p a
  or_wrapped-Proper m (err e) = raise-Proper p (wrapped m e)

  after_clearing-Proper :
      (r : Record) (e : Error) (x : Result (Unit {0}))
      → Moves (Proper p) (after_clearing orb p r e x)
  after_clearing-Proper r e (ok _) = before_clone_failure-Proper r _
  after_clearing-Proper r e (err f) = raise-Proper p (joined e f)

  or_start_failed-Proper :
      (r : Record) (x : Result (Unit {0})) → Moves (Proper p) (or_start_failed orb p r x)
  or_start_failed-Proper r (ok _) = pure-Proper p tt
  or_start_failed-Proper r (err e) =
      then_do p _ _
        (attempt-Proper p _ (on_disk-Proper p _ (clear_clone_intent-Tidy p.registry r.runner_name)))
        (after_clearing-Proper r e)

  abbrev uncertain : Record → Info → Bool
  uncertain r info =
      not (info.machine.name == r.machine_name)
      || info.machine.id == ""
      || is_template orb p info.machine.id

  abbrev taken : Record → Info → Record
  taken r info = record r { machine_id = info.machine.id; phase = created }

  module _ (image : Image) where
    prepare_clone-Proper :
        (r : Record) (manifest : Manifest) → Moves (Proper p) (prepare_clone orb p r image manifest)
    unfolding prepare_clone
    prepare_clone-Proper r manifest =
        then_do p _ _
          (on_machines-Proper p (info_request image.machine_id) (orb.info image.machine_id) tt)
          λ template. then_do p _ _ (lift-Proper p _) λ _.
            then_do p _ _ (inventory-Proper orb p) λ machines.
              then_do p _ _ (refuse_if-Proper p _ _) λ _. on_disk-Proper p _ system_call-Tidy

    run_clone-Proper :
        (r : Record)
        → registered image.machine_id p.host.images ≡ true
        → Moves (Proper p) (run_clone orb p r image)
    unfolding run_clone
    run_clone-Proper r template =
        then_do p _ _ (on_disk-Proper p _ (mark_clone_intent-Tidy p.registry r.runner_name)) λ _.
          then_do p _ _
            (attempt-Proper p _ (
              on_machines-Proper p (clone_request image.machine_id r.machine_name)
                (orb.start_clone image.machine_id r.machine_name) template))
            λ started. then_do p _ _ (or_start_failed-Proper r started) λ _.
              then_do p _ _
                (attempt-Proper p _ (on_machines-Proper p wait_request orb.wait_clone tt))
                (or_wrapped-Proper "clone outcome uncertain; inspect reservation and use recover")

    identify_clone-Proper : (r : Record) → Moves (Proper p) (identify_clone orb p r)
    unfolding identify_clone
    identify_clone-Proper r =
        then_do p _ _
          (attempt-Proper p _
            (on_machines-Proper p (info_request r.machine_name) (orb.info r.machine_name) tt))
          λ found.
            then_do p _ _
              (or_wrapped-Proper "clone completed but ID is unrecorded; explicit recovery required"
                found)
              λ info.
                then_do p _ _
                  (refuse_if-Proper p (uncertain r info)
                    "clone identity is uncertain; explicit recovery required")
                  λ _.
                    then_do p _ _
                      (attempt-Proper p _
                        (on_disk-Proper p _ (save-Tidy p.registry (taken r info))))
                      λ saved.
                        then_do p _ _
                          (or_wrapped-Proper
                            "clone ID commit uncertain; retain machine for recovery" saved)
                          λ _. pure-Proper p (taken r info)

    pub clone-Proper :
        (r : Record) (manifest : Manifest)
        → registered image.machine_id p.host.images ≡ true
        → Moves (Proper p) (clone orb p r image manifest)
    unfolding clone
    clone-Proper r manifest template =
        holding p (λ _. template_lock image.machine_id) (on_disk (lock_template image.machine_id)) _
          (lock-Takes p (template_lock image.machine_id) (lock_template image.machine_id)
            (lock_template-Asked image.machine_id))
          λ _. then_do p _ _ (attempt-Proper p _ (prepare_clone-Proper r manifest)) λ prepared.
            then_do p _ _ (or_give_up-Proper r prepared) λ _.
              then_do p _ _ (run_clone-Proper r template) λ _.
                then_do p _ _ (identify_clone-Proper r) λ taken.
                  then_do p _ _
                    (attempt-Proper p _
                      (on_disk-Proper p _ (clear_clone_intent-Tidy p.registry r.runner_name)))
                    λ cleared. pure-Proper p (with_cleared orb p taken cleared)
