-- ===== src/Provider/Safety/Creation.antt =====
-- `CreateInstance` of internal/provider/provider.go.
use garm_provider_orbstack.Prelude.{
  String, Bool, true, false, not, ◌≡◌, refl, arith, ◌==◌, List, [], ◌∷◌, Option, some, none, lookup,
  Bool-cases, inl, inr, eq_refl,
}
use garm_provider_orbstack.Error.{Error, Result, ok, err}
use garm_provider_orbstack.Exec.Keeps.{Moves, Moves-if, bind-eq-ok}
use garm_provider_orbstack.Platform.{Platform}
use garm_provider_orbstack.Config.{Image, Flavor}
use garm_provider_orbstack.State.Record.{Record, bootstrapping, active, same_phase}
use garm_provider_orbstack.State.Registry.Health.Operations.{save-Tidy, reserve-Tidy}
use garm_provider_orbstack.State.Registry.Health.Locks.{lock_instance-Asked}
use garm_provider_orbstack.State.Registry.{lock_instance, instance_lock}
use garm_provider_orbstack.Templates.Manifest.{ManifestFile, load_manifest}
use garm_provider_orbstack.Outcome.{chain-eq-ok}
use garm_provider_orbstack.Outcome
use garm_provider_orbstack.Provider.Admission.{Admitted, admitted, check_request, disagree}
use garm_provider_orbstack.Provider.Plan.{prepare_bootstrap}
use garm_provider_orbstack.Provider.World.{
  World, Machines, Provider, on_disk, settings_request, start_request, generated_name, draw_from,
}
use garm_provider_orbstack.Provider.Owned.{ProviderInstance, owned_info, is_template, registered}
use garm_provider_orbstack.Provider.Bootstrap.{Tooling, BootstrapInstance, BootstrapPlan, or_refuse}
use garm_provider_orbstack.Provider.Create.{
  create_locked, runner_settings, or_duplicate, admit, retained, fail, start_runner, bring_up,
  committed, finish, after_clone, create_reserved, create_instance,
}
use garm_provider_orbstack.Provider.Safety.{
  Proper, Proper-order, on_disk-Proper, on_machines-Proper, then_do, then_knowing, pure-Proper,
  raise-Proper, lift-Proper, attempt-Proper, refuse_if-Proper,
}
use garm_provider_orbstack.Provider.Safety.Locks.{holding, lock-Takes}
use garm_provider_orbstack.Provider.Safety.Owned.{
  owned_info-Proper, owned_info-spares, observe-Proper,
}
use garm_provider_orbstack.Provider.Safety.Deletion.{delete_record-Proper}
use garm_provider_orbstack.Provider.Safety.Cloning.{clone-Proper, inject_bootstrap-Proper}

-- an image that is found is registered
registered-lookup :
    (id : String) (images : List (String × Image)) (image : Image) (m : String)
    → or_refuse (lookup id images) m ≡ ok image
    → registered image.machine_id images ≡ true
unfolding registered lookup
registered-lookup id [] image m h = cc
registered-lookup id ((found, x) ∷ rest) image m h = elim (Bool-cases (found == id)) [
  | inl same ↦
      let e : ok x ≡ ok image = rw same at h in
      let i : x.machine_id ≡ image.machine_id = cc (e) in rw (i, eq_refl image.machine_id) refl
  | inr other ↦
      let later : registered image.machine_id rest ≡ true =
        registered-lookup id rest image m (rw other at h) in
      ground arith
]

module _ {O : Type 0} ⦃platform : Platform⦄ (tooling : Tooling) (orb : Machines O)
    (p : Provider) where
  fail-Proper :
      {A : Type 0} (r : Record) (cause : Error)
      → Moves (Proper p) (fail tooling orb p {A = A} r cause)
  unfolding fail
  fail-Proper r cause =
      then_do p _ _ (attempt-Proper p _ (delete_record-Proper orb p r false))
        λ cleanup. raise-Proper p (retained tooling orb p cause cleanup)

  start_runner-Proper :
      (r : Record) (flavor : Flavor) → Moves (Proper p) (start_runner tooling orb p r flavor)
  unfolding start_runner is_template
  start_runner-Proper r flavor = then_knowing p _ _ (owned_info-Proper orb p r) λ info s known.
      then_do p _ _ (refuse_if-Proper p _ _) λ _.
        then_do p _ _
          (on_machines-Proper p (settings_request info.machine.name (runner_settings flavor))
            (orb.apply_settings info.machine.name (runner_settings flavor)) (refl, refl))
          λ _.
            on_machines-Proper p (start_request r.machine_id) (orb.start r.machine_id)
              (owned_info-spares orb p r s info known)

  start_runner-spares :
      (r : Record) (flavor : Flavor) (s : World O) {a : Unit {0}}
      → (start_runner tooling orb p r flavor s).0 ≡ ok a
      → is_template orb p r.machine_id ≡ false
  unfolding start_runner
  start_runner-spares r flavor s h =
      let (info, known, _) = bind-eq-ok (owned_info orb p r) _ s h in
      owned_info-spares orb p r s info known

  bring_up-Proper :
      (r : Record) (flavor : Flavor) (plan : BootstrapPlan)
      → Moves (Proper p) (bring_up tooling orb p r flavor plan)
  unfolding bring_up
  bring_up-Proper r flavor plan = then_knowing p _ _ (start_runner-Proper r flavor) λ _ s known.
      then_do p _ _ (on_disk-Proper p _ (save-Tidy p.registry _)) λ _.
        then_do p _ _
          (inject_bootstrap-Proper orb p tooling r.machine_id plan
            (start_runner-spares r flavor s known))
          λ _. observe-Proper orb p (record r { phase = bootstrapping })

  finish-Proper :
      (r : Record) (x : Result ProviderInstance) → Moves (Proper p) (finish tooling orb p r x)
  finish-Proper r (err e) = fail-Proper r e
  finish-Proper r (ok seen) =
      then_do p _ _ (attempt-Proper p _ (on_disk-Proper p _ (save-Tidy p.registry _)))
        λ saved. lift-Proper p (committed tooling orb p seen saved)

  after_clone-Proper :
      (a : Admitted) (x : Record × Option Error) → Moves (Proper p) (after_clone tooling orb p a x)
  after_clone-Proper a (r, some e) = fail-Proper r e
  after_clone-Proper a (r, none) =
      then_do p _ _ (attempt-Proper p _ (bring_up-Proper r a.flavor a.plan))
        λ up. finish-Proper r up

  create_reserved-Proper :
      (a : Admitted) (x : Record × Bool)
      → registered a.image.machine_id p.host.images ≡ true
      → Moves (Proper p) (create_reserved tooling orb p a x)
  create_reserved-Proper a (r, false) template =
      Moves-if (Proper-order p) (same_phase r.phase active) _ _ (λ _. observe-Proper orb p r)
        (λ _. raise-Proper p _)
  create_reserved-Proper a (r, true) template =
      then_do p _ _ (clone-Proper orb p a.image r a.manifest template)
        λ taken. after_clone-Proper a taken

  generated_name-Proper : (prefix : String) → Moves (Proper {O = O} p) (generated_name prefix)
  unfolding generated_name
  generated_name-Proper prefix =
      then_do p _ _ (record { at = λ w. drawn w.drawn w }) λ hex. pure-Proper p _
    where
      drawn : (l : List (Result String)) (w : World O) → Proper p w (draw_from l w).1
      drawn [] w = (Proper-order p).same w
      drawn (r ∷ rest) w = record { tidy = ((Proper-order p).same w).tidy; calls = λ h. h }

  create_locked-Proper :
      (a : Admitted) (b : BootstrapInstance)
      → registered a.image.machine_id p.host.images ≡ true
      → Moves (Proper p) (create_locked tooling orb p a b)
  unfolding create_locked
  create_locked-Proper a b template = then_do p _ _ (generated_name-Proper "garm-runner-") λ name.
      then_do p _ _ (attempt-Proper p _ (on_disk-Proper p _ (reserve-Tidy p.registry _ _)))
        λ result.
          then_do p _ _ (lift-Proper p (or_duplicate result))
            λ reservation. create_reserved-Proper a reservation template

  -- the image of an admitted request is registered
  admitted-registered :
      (manifests : String → ManifestFile) (b : BootstrapInstance) (a : Admitted)
      → admitted tooling p manifests b ≡ ok a
      → registered a.image.machine_id p.host.images ≡ true
  unfolding admitted
  admitted-registered manifests b a h =
      let (_, _, h1) = chain-eq-ok _ (check_request p b) h in
      let (image, found, h2) = chain-eq-ok _ (or_refuse (lookup b.image p.host.images) _) h1 in
      let (_, _, h3) = chain-eq-ok _ (Outcome.refuse_if (not (image.arch == b.os_arch)) _) h2 in
      let (_, _, h4) = chain-eq-ok _ (or_refuse (lookup b.flavor p.host.flavors) _) h3 in
      let (manifest, _, h5) = chain-eq-ok _ (load_manifest (manifests image.manifest_path)) h4 in
      let (_, _, h6) = chain-eq-ok _ (Outcome.refuse_if (disagree b image manifest) _) h5 in
      let (_, _, h7) = chain-eq-ok _ (prepare_bootstrap tooling b manifest) h6 in
      let same : image.machine_id ≡ a.image.machine_id = cc (h7) in
      rw (← same) (registered-lookup b.image p.host.images image _ found)

  pub create_instance-Proper :
      (b : BootstrapInstance) → Moves (Proper p) (create_instance tooling orb p b)
  unfolding create_instance
  create_instance-Proper b =
      then_knowing p (admit tooling orb p b) _ (record { at = (Proper-order p).same })
        λ a s known.
          holding p (λ _. instance_lock p.registry b.name)
            (on_disk (lock_instance p.registry b.name true)) _
            (lock-Takes p (instance_lock p.registry b.name) (lock_instance p.registry b.name true)
              (lock_instance-Asked p.registry b.name true))
            λ _. create_locked-Proper a b (admitted-registered s.manifests b a known)
