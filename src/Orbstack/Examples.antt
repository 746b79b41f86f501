-- ===== src/Orbstack/Examples.antt =====
-- A run of the adapter's deletion (internal/orbstack/cli.go).
use garm_provider_orbstack.Prelude.{[], ◌∷◌, ◌≡◌, refl, contains, is_blank}
use garm_provider_orbstack.Orbstack.Client.{
  delete, check_machines, delete_bound, delete_found, find_by_id, first_with_id, list,
  random_machine_name, read_list, rename, run_output,
}
use garm_provider_orbstack.Error.{ok}
use garm_provider_orbstack.Orbstack.Client.Wait.{SeenBy, wait_for_state, wait_for_state-lists}
use garm_provider_orbstack.Samples.{machine, one_machine, session}

-- the five commands of a deletion that succeeds, the last one first
delete_one :
    (delete one_machine "orbctl" "id-1" session).1.sent
    ≡ ("delete" ∷ "--force" ∷ "garm-del-0011" ∷ [])
      ∷ ("list" ∷ "--format" ∷ "json" ∷ [])
      ∷ ("rename" ∷ "id-1" ∷ "garm-del-0011" ∷ [])
      ∷ ("config" ∷ "set" ∷ "machine.id-1.disk_bytes" ∷ "0" ∷ [])
      ∷ ("list" ∷ "--format" ∷ "json" ∷ [])
      ∷ []
unfolding delete is_blank find_by_id list run_output read_list check_machines contains first_with_id
    delete_found random_machine_name rename delete_bound
delete_one = refl

waited :
    (wait_for_state one_machine "orbctl" "id-1" "running" 3 session).0
    ≡ ok (machine "id-1" "m-alpha" "running")
unfolding wait_for_state list run_output is_blank read_list check_machines contains
waited = refl

wait_for_state-lists_example :
    SeenBy one_machine "orbctl" "id-1" "running" 3 session (machine "id-1" "m-alpha" "running")
wait_for_state-lists_example =
    wait_for_state-lists one_machine "orbctl" "id-1" "running" (machine "id-1" "m-alpha" "running")
      3 session waited
