-- ===== src/Provider/Examples.antt =====
-- Runs of the provider (internal/provider) on one runner and one template.
use garm_provider_orbstack.State.Sort.{comes_before, insert_sorted, sort_records}
use garm_provider_orbstack.State.Registry.Update.{
  keeps_ownership, may_follow, remove_update, replace, save_update,
}
use garm_provider_orbstack.Provider.Owned.{
  inventory, is_template, lists_id, lists_name, owned_info, registered, unambiguous,
}
use garm_provider_orbstack.Prelude.{
  true, ◌≡◌, refl, List, [], ◌∷◌, All, contains, contains_rune, filter, is_blank, is_space,
  trim_left, trim_right, trim_space,
}
use garm_provider_orbstack.Error.{ok}
use garm_provider_orbstack.Disk.{
  acquire, close_lock, poll_lock, sync_dir, system_call, then_close, verdict, write_atomic,
}
use garm_provider_orbstack.State.Record.{phase_text, record_key, same_record, valid}
use garm_provider_orbstack.State.Validate.{
  validate_records, check_phase, check_record, check_uuid, is_duplicate, mark, validate_from,
}
use garm_provider_orbstack.State.Registry.Health.{IsSound}
use garm_provider_orbstack.Provider.World.{
  delete_request, info_request, list_request, closing, closing_on_error, on_disk, on_machines,
}
use garm_provider_orbstack.State.Registry.{
  instance_lock, check_layout, clear_clone_intent, clone_uncertain, decode_records, find,
  find_first, find_in, lock_instance, read_records, remove, save, snapshot, transaction,
}
use garm_provider_orbstack.Provider.Resolve.{locked, resolve}
use garm_provider_orbstack.Provider.Resolve.Scope.{Reread, locked-IsOwn}
use garm_provider_orbstack.Provider.Plan.{prepare_bootstrap, choose_tools}
use garm_provider_orbstack.Provider.Bootstrap.Plain.{IsPlain, prepare_bootstrap-IsPlain}
use garm_provider_orbstack.Provider.Patterns.{package_matches, script_name_matches}
use garm_provider_orbstack.Provider.Bootstrap.{
  cache_matches, certificates, every, scripts_of, sort_scripts,
}
use garm_provider_orbstack.Provider.Delete.{
  delete_instance, delete_machine, delete_record, delete_unregistered, release_reservation,
}
use garm_provider_orbstack.Provider.Delete.Order.{Went, delete_machine-Went}
use garm_provider_orbstack.Provider.Owned.{instance_of}
use garm_provider_orbstack.Provider.Lifecycle.{list_instances, bare_info, list_each, machine_of}
use garm_provider_orbstack.Provider.Lifecycle.Listing.{Listed, list_instances-Listed}
use garm_provider_orbstack.Provider.Safety.{Safe}
use garm_provider_orbstack.Provider.Safety.Operations.{
  Operation, deleting_one, listing, after_all, after_all-IsSound, after_all-Safe,
}
use garm_provider_orbstack.Samples.{plain_platform, alpha_created, registry, machine}
use garm_provider_orbstack.Provider.Shelf.{
  shelf_machines, provider, tooling, world, request, manifest, plan,
}

world-IsSound : IsSound world.disk
unfolding validate_records check_record valid contains_rune is_duplicate contains
world-IsSound = record {
  readable = record {
    records = alpha_created ∷ [];
    holds = record { stored = refl; valid = refl };
  };
  others = tt;
}

-- the calls of a deletion that succeeds, the last one first
delete_alpha :
    (delete_instance shelf_machines provider "alpha" world).1.requests
    ≡ list_request ∷ delete_request "id-1" ∷ info_request "id-1" ∷ list_request ∷ []
unfolding delete_instance locked resolve is_blank on_disk find snapshot check_layout system_call
    acquire poll_lock then_close read_records decode_records validate_records check_record valid
    contains_rune close_lock sync_dir verdict write_atomic contains filter is_space trim_left
    trim_right trim_space delete_machine delete_record delete_unregistered release_reservation
    inventory is_template lists_id lists_name owned_info registered unambiguous closing
    closing_on_error on_machines phase_text record_key same_record keeps_ownership may_follow
    remove_update replace save_update clear_clone_intent clone_uncertain find_first find_in
    lock_instance remove save transaction comes_before insert_sorted sort_records check_phase
    check_uuid is_duplicate mark validate_from
delete_alpha = refl

abbrev two_operations : List Operation
two_operations = deleting_one "alpha" ∷ listing "p" ∷ []

after_all-IsSound_example :
    IsSound (after_all tooling shelf_machines provider two_operations world).disk
    × ((after_all tooling shelf_machines provider two_operations world).disk.held ≡ [])
after_all-IsSound_example =
    after_all-IsSound tooling shelf_machines provider two_operations world world-IsSound

after_all-Safe_example :
    All
      (λ q. Safe provider q)
      (after_all tooling shelf_machines provider two_operations world).requests
after_all-Safe_example = after_all-Safe tooling shelf_machines provider two_operations world tt

locked_alpha :
    (locked provider "id-1" true world).0 ≡ ok (alpha_created, instance_lock registry "alpha")
unfolding locked resolve is_blank on_disk find snapshot check_layout system_call acquire poll_lock
    then_close read_records decode_records validate_records check_record valid contains_rune
    is_duplicate close_lock verdict contains filter is_space trim_left trim_right trim_space
    closing_on_error phase_text record_key find_first find_in lock_instance check_phase check_uuid
    mark validate_from
locked_alpha = refl

locked-IsOwn_example :
    Reread provider "id-1" true world alpha_created (instance_lock registry "alpha")
locked-IsOwn_example = locked-IsOwn provider "id-1" true world locked_alpha

accepted : prepare_bootstrap tooling request manifest ≡ ok plan
unfolding prepare_bootstrap scripts_of trim_space every script_name_matches package_matches
    choose_tools certificates sort_scripts cache_matches
accepted = refl

prepare_bootstrap-IsPlain_example : IsPlain tooling request
prepare_bootstrap-IsPlain_example = prepare_bootstrap-IsPlain tooling request manifest accepted

delete_machine-Went_example :
    Went shelf_machines provider alpha_created world
      (delete_machine shelf_machines provider alpha_created world).1
delete_machine-Went_example = delete_machine-Went shelf_machines provider alpha_created world

listed_alpha :
    (list_instances shelf_machines provider "p" world).0
    ≡ ok (instance_of alpha_created (bare_info (machine "id-1" "m-alpha" "running")) ∷ [])
unfolding list_instances on_disk snapshot check_layout system_call acquire poll_lock then_close
    read_records decode_records validate_records check_record valid contains_rune is_duplicate
    inventory on_machines unambiguous list_each filter machine_of is_template registered
listed_alpha = refl

list_instances-Listed_example :
    Listed shelf_machines provider "p" world
      (instance_of alpha_created (bare_info (machine "id-1" "m-alpha" "running")) ∷ [])
list_instances-Listed_example = list_instances-Listed shelf_machines provider "p" world listed_alpha
