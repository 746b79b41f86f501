-- ===== src/Provider/Clone.antt =====
-- `clone` of internal/provider/provider.go.
use garm_provider_orbstack.Prelude.{String, not, ◌==◌, ◌||◌, Option, none, some}
use garm_provider_orbstack.Error.{Error, Result, ok, err, wrapped, joined}
use garm_provider_orbstack.Exec.{Exec, pure, raise, lift, attempt, ◌>>=◌, ◌>>◌, refuse_if}
use garm_provider_orbstack.Platform.{Platform}
use garm_provider_orbstack.Disk.{system_call}
use garm_provider_orbstack.State.Record.{Record, created}
use garm_provider_orbstack.State.Registry.{
  save, remove, mark_clone_intent, clear_clone_intent, lock_template, template_lock,
}
use garm_provider_orbstack.Config.{Image}
use garm_provider_orbstack.Templates.Manifest.{Manifest, validate_machine}
use garm_provider_orbstack.Provider.World.{
  Machines, World, Provider, on_disk, on_machines, closing, info_request, clone_request,
  wait_request,
}
use garm_provider_orbstack.Provider.Owned.{is_template, inventory, lists_name}

module _ {O : Type 0} ⦃platform : Platform⦄ (orb : Machines O) (p : Provider) where
  abbrev pub cloned_with : Error → Result (Unit {0}) → Error
  cloned_with cause (ok _) = cause
  cloned_with cause (err e) = joined cause e

  -- `beforeCloneFailure`: the reservation is given up, since no clone was started.
  unfoldable pub before_clone_failure {ℓ} : {A : Type ℓ} → Record → Error → Exec (World O) A
  before_clone_failure r cause = do
    removed ← attempt (on_disk (remove p.registry r.runner_name))
    raise (cloned_with cause removed)

  -- a step before the clone, whose error gives up the reservation
  abbrev pub or_give_up {ℓ} : {A : Type ℓ} → Record → Result A → Exec (World O) A
  or_give_up r (ok a) = pure a
  or_give_up r (err e) = before_clone_failure r e

  -- from the template lock to the file handles of the command, all of it before the clone
  unfoldable pub prepare_clone : Record → Image → Manifest → Exec (World O) (Unit {0})
  prepare_clone r image manifest = do
    template ← on_machines (info_request image.machine_id) (orb.info image.machine_id)
    lift (validate_machine manifest template.machine)
    machines ← inventory orb p
    refuse_if (lists_name r.machine_name machines) "generated clone name already exists"
    on_disk system_call

  abbrev pub after_clearing : Record → Error → Result (Unit {0}) → Exec (World O) (Unit {0})
  after_clearing r e (ok _) = before_clone_failure r (wrapped "starting template clone" e)
  after_clearing r e (err f) = raise (joined e f)

  -- `cmd.Start` failed, so that no clone runs
  abbrev pub start_failed : Record → Error → Exec (World O) (Unit {0})
  start_failed r e = do
    cleared ← attempt (on_disk (clear_clone_intent p.registry r.runner_name))
    after_clearing r e cleared

  abbrev pub or_start_failed : Record → Result (Unit {0}) → Exec (World O) (Unit {0})
  or_start_failed r (ok _) = pure tt
  or_start_failed r (err e) = start_failed r e

  -- the error that a step's failure is wrapped in
  abbrev pub or_wrapped {ℓ} : {A : Type ℓ} → String → Result A → Exec (World O) A
  or_wrapped m (ok a) = pure a
  or_wrapped m (err e) = raise (wrapped m e)

  -- running the command, with the intent marked before
  unfoldable pub run_clone : Record → Image → Exec (World O) (Unit {0})
  run_clone r image = do
    on_disk (mark_clone_intent p.registry r.runner_name)
    started ← attempt (
        on_machines (clone_request image.machine_id r.machine_name)
          (orb.start_clone image.machine_id r.machine_name))
    or_start_failed r started
    waited ← attempt (on_machines wait_request orb.wait_clone)
    or_wrapped "clone outcome uncertain; inspect reservation and use recover" waited

  -- the identity of the clone, and its record
  unfoldable pub identify_clone : Record → Exec (World O) Record
  identify_clone r = do
    found ← attempt (on_machines (info_request r.machine_name) (orb.info r.machine_name))
    info ← or_wrapped "clone completed but ID is unrecorded; explicit recovery required" found
    refuse_if
        (not (info.machine.name == r.machine_name)
          || info.machine.id == ""
          || is_template orb p info.machine.id)
        "clone identity is uncertain; explicit recovery required"
    let taken = record r { machine_id = info.machine.id; phase = created }
    saved ← attempt (on_disk (save p.registry taken))
    or_wrapped "clone ID commit uncertain; retain machine for recovery" saved
    pure taken

  abbrev pub with_cleared : Record → Result (Unit {0}) → Record × Option Error
  with_cleared r (ok _) = (r, none)
  with_cleared r (err e) = (r, some (wrapped "clone recorded but intent cleanup failed" e))

  -- `clone`. An error result comes with the empty record; a clone that is recorded comes with the
  -- error of clearing its intent, where there is one.
  unfoldable pub clone : Record → Image → Manifest → Exec (World O) (Record × Option Error)
  clone r image manifest = do
    on_disk (lock_template image.machine_id)
    closing (template_lock image.machine_id) do
      prepared ← attempt (prepare_clone r image manifest)
      or_give_up r prepared
      run_clone r image
      taken ← identify_clone r
      cleared ← attempt (on_disk (clear_clone_intent p.registry r.runner_name))
      pure (with_cleared taken cleared)
