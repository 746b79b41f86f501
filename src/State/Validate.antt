-- ===== src/State/Validate.antt =====
-- `validateRecords` of internal/state/registry.go: the check of everything read or written.
pub mod Sound
use Prim.Native.String.{◌++◌ as append}
use garm_provider_orbstack.Prelude.{
  String, Bool, true, false, not, ◌&&◌, ◌||◌, ◌==◌, Option, some, none, List, [], ◌∷◌, contains,
  contains_rune, if◌then◌else◌,
}
use garm_provider_orbstack.Error.{Result, ok, err, message}
use garm_provider_orbstack.Outcome.{◌>>=◌, ◌>>◌, refuse_if}
use garm_provider_orbstack.Platform.{Platform}
use garm_provider_orbstack.State.Record.{
  Record, Phase, reserved, created, bootstrapping, active, deleting, other, valid, record_key,
}

-- the `switch r.Phase`
unfoldable pub check_phase : Phase → String → Result (Unit {0})
check_phase reserved id =
    refuse_if (not (id == "")) "corrupt registry: reservation has a machine ID"
check_phase (other t) id = err (message "corrupt registry: unknown phase")
check_phase _ id = refuse_if (id == "") "corrupt registry: machine-backed phase without ID"

unfoldable pub check_uuid : ⦃p : Platform⦄ → String → Result (Unit {0})
check_uuid ⦃p⦄ id = elim (p.parse_uuid id) [
  | none ↦ err (message "corrupt registry: invalid controller UUID")
  | some _ ↦ ok tt
]

-- what the loop body checks of one record by itself
unfoldable pub check_record : ⦃p : Platform⦄ → Record → Result (Unit {0})
unfolding check_phase check_uuid
check_record r = do
  refuse_if
      (not (valid r)
        || contains_rune 0
            (append r.controller_id (append r.runner_name (append r.machine_name r.machine_id))))
      "corrupt registry: invalid record"
  check_uuid r.controller_id
  check_phase r.phase r.machine_id

-- the sets of keys, IDs and names that the loop has met
pub record Seen : Type 0 where
  pub keys : List String
  pub ids : List String
  pub names : List String

unfoldable pub is_duplicate : ⦃p : Platform⦄ → Seen → Record → Bool
is_duplicate seen r =
    contains (record_key r.controller_id r.runner_name) seen.keys
    || contains r.machine_name seen.names
    || not (r.machine_id == "") && contains r.machine_id seen.ids

unfoldable pub mark : ⦃p : Platform⦄ → Seen → Record → Seen
mark seen r = record {
  keys = record_key r.controller_id r.runner_name ∷ seen.keys;
  ids = if r.machine_id == "" then seen.ids else r.machine_id ∷ seen.ids;
  names = r.machine_name ∷ seen.names;
}

unfoldable pub validate_from : ⦃p : Platform⦄ → Seen → List Record → Result (Unit {0})
validate_from seen [] = ok tt
validate_from seen (r ∷ rest) = do
  check_record r
  refuse_if (is_duplicate seen r) "corrupt registry: duplicate ownership"
  validate_from (mark seen r) rest

unfoldable pub validate_records : ⦃p : Platform⦄ → List Record → Result (Unit {0})
unfolding validate_from
validate_records = validate_from (record { keys = []; ids = []; names = [] })
