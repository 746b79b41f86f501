-- ===== src/Provider/Resolve.antt =====
-- `resolve` and `locked` of internal/provider/provider.go: from a target to an owned record.
pub mod Scope
use garm_provider_orbstack.Prelude.{String, Bool, not, ◌==◌, ◌&&◌, ◌||◌, is_blank, if◌then◌else◌}
use garm_provider_orbstack.Error.{Result, ok, err, sentinel, entity_not_found, not_found, is}
use garm_provider_orbstack.Exec.{Exec, pure, lift, attempt, ◌>>=◌, ◌>>◌, refuse_if}
use garm_provider_orbstack.Platform.{Platform}
use garm_provider_orbstack.State.Record.{Record}
use garm_provider_orbstack.State.Registry.{find, lock_instance, instance_lock}
use garm_provider_orbstack.Provider.World.{World, Provider, on_disk, closing_on_error}

-- the registry's ErrNotFound becomes GARM's
abbrev pub found_or_absent : Result Record → Result Record
found_or_absent (ok r) = ok r
found_or_absent (err e) = if is e not_found then err (sentinel entity_not_found) else err e

module _ {O : Type 0} ⦃platform : Platform⦄ (p : Provider) where
  -- `resolve`
  unfoldable pub resolve : String → Exec (World O) Record
  resolve target = do
    refuse_if (is_blank target) "empty instance target"
    found ← attempt (on_disk (find p.registry target))
    r ← lift (found_or_absent found)
    refuse_if (not (p.pool_id == "") && not (r.pool_id == p.pool_id))
        "instance belongs to another pool"
    pure r

  -- `locked`: the record and the lock that is then held
  unfoldable pub locked : String → Bool → Exec (World O) (Record × String)
  locked target wait = do
    r ← resolve target
    on_disk (lock_instance p.registry r.runner_name wait)
    let lock = instance_lock p.registry r.runner_name
    closing_on_error lock do
      current ← resolve target
      refuse_if
          (not (current.runner_name == r.runner_name)
            || not (current.machine_name == r.machine_name))
          "runner ownership changed during operation"
      pure (current, lock)
