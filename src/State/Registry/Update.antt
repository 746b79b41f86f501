-- ===== src/State/Registry/Update.antt =====
-- The callbacks that `Reserve`, `Save` and `Remove` of internal/state/registry.go give to
-- `transaction`.
use garm_provider_orbstack.Prelude.{
  String, Bool, true, false, ◌==◌, not, ◌&&◌, ◌||◌, List, [], ◌∷◌, ◌++◌, ℤ, ℕ, ◌+◌, reaches,
  if◌then◌else◌,
}
use garm_provider_orbstack.Error.{
  Result, ok, err, sentinel, not_found, conflict, capacity, unchanged,
}
use garm_provider_orbstack.Outcome.{◌>>=◌}
use garm_provider_orbstack.State.Record.{
  Record, Phase, reserved, created, bootstrapping, active, deleting, same_record,
}

-- the owner's record of a runner name
abbrev pub owns : String → String → Record → Bool
owns controller_id name r = r.controller_id == controller_id && r.runner_name == name

-- the request that a reservation was made for
unfoldable pub same_request : Record → Record → Bool
same_request a b = a.pool_id == b.pool_id && a.image_id == b.image_id && a.flavor == b.flavor

-- What the loop of `Reserve` returns from inside, or the number of records counted.
pub data Scan : Type 0 where
  mismatch : Scan
  existing : Record → Scan
  counted : ℕ → Scan

unfoldable pub reserve_scan : String → Record → ℕ → List Record → Scan
unfolding same_request
reserve_scan controller_id desired n [] = counted n
reserve_scan controller_id desired n (r ∷ rest) =
    if not (r.controller_id == controller_id)
    then reserve_scan controller_id desired n rest
    else (let next = reserve_scan controller_id desired (n + 1) rest in
        if r.runner_name == desired.runner_name
        then (if same_request r desired then existing r else mismatch)
        else next)

abbrev pub finish_reserve : Record → ℤ → List Record → Scan → (Record × Bool) × Result (List Record)
finish_reserve desired max records mismatch = ((desired, true), err (sentinel conflict))
finish_reserve desired max records (existing r) = ((r, false), err (sentinel unchanged))
finish_reserve desired max records (counted n) =
    if reaches n max
    then ((desired, true), err (sentinel capacity))
    else ((desired, true), ok (records ++ desired ∷ []))

unfoldable pub reserve_update :
    String → Record → ℤ → List Record → (Record × Bool) × Result (List Record)
unfolding reserve_scan
reserve_update controller_id desired max records =
    finish_reserve desired max records (reserve_scan controller_id desired 0 records)

-- the `switch old.Phase` of `Save`: whether the new phase may follow
unfoldable pub may_follow : Phase → Phase → Bool
may_follow reserved created = true
may_follow created bootstrapping = true
may_follow created deleting = true
may_follow bootstrapping active = true
may_follow bootstrapping deleting = true
may_follow active deleting = true
may_follow _ _ = false

-- whether the fields that a record keeps for its life are kept
unfoldable pub keeps_ownership : Record → Record → Bool
keeps_ownership old r =
    old.pool_id == r.pool_id
    && old.image_id == r.image_id
    && old.flavor == r.flavor
    && old.machine_name == r.machine_name
    && (old.machine_id == "" || old.machine_id == r.machine_id)

unfoldable pub replace : Record → Record → Result Record
unfolding keeps_ownership same_record may_follow
replace old r =
    if not (keeps_ownership old r)
    then err (sentinel conflict)
    else if same_record old r
    then err (sentinel unchanged)
    else if may_follow old.phase r.phase
    then ok r
    else err (sentinel conflict)

unfoldable pub save_update : String → Record → List Record → Result (List Record)
unfolding replace
save_update controller_id r [] = err (sentinel not_found)
save_update controller_id r (old ∷ rest) =
    if not (old.controller_id == controller_id) || not (old.runner_name == r.runner_name)
    then (do rest' ← save_update controller_id r rest; ok (old ∷ rest'))
    else (do r' ← replace old r; ok (r' ∷ rest))

unfoldable pub remove_update : String → String → List Record → Result (List Record)
remove_update controller_id name [] = err (sentinel unchanged)
remove_update controller_id name (old ∷ rest) =
    if owns controller_id name old
    then ok rest
    else (do rest' ← remove_update controller_id name rest; ok (old ∷ rest'))
