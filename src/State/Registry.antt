-- ===== src/State/Registry.antt =====
-- internal/state/registry.go: the operations of the registry over the disk.
pub mod Update
pub mod Capacity
pub mod Transaction
pub mod Reserve
pub mod Lifecycle
pub mod History
pub mod Serial
pub mod Calm
pub mod Health
use mathlib.Core.List.{map}
use garm_provider_orbstack.Prelude.{
  String, Bool, true, false, ◌==◌, not, ◌&&◌, ◌||◌, Option, some, none, List, [], ◌∷◌, ◌++◌, ℤ, ℕ,
  filter, contains, below_one, if◌then◌else◌,
}
use garm_provider_orbstack.Error.{
  Error, Result, ok, err, sentinel, external, message, wrapped, not_found, conflict, not_exist,
  unchanged, is, joined,
}
use garm_provider_orbstack.Exec.{
  Exec, pure, raise, lift, gets, attempt, ◌>>=◌, ◌>>◌, refuse_if, raise_if, wrapping,
}
use garm_provider_orbstack.Platform.{Platform}
use garm_provider_orbstack.Disk.{
  Kind, directory, regular, symlink, special, Content, undecodable, null, array, Files, Disk,
  change, system_call, acquire, then_close, write_atomic, sync_dir,
}
use garm_provider_orbstack.State.Record.{Record, record_key, reserved, same_phase}
use garm_provider_orbstack.State.Validate.{validate_records}
use garm_provider_orbstack.State.Sort.{sort_records}
use Update.{reserve_update, save_update, remove_update}

-- An opened registry, bound to a controller. The directory is the one of `Disk`.
pub record Registry : Type 0 where
  pub controller_id : String

abbrev layout_names : List String
layout_names =
    "" ∷ "instances" ∷ "templates" ∷ "clone-intents" ∷ "global.lock" ∷ "records.json" ∷ []

abbrev directory_names : List String
directory_names = "" ∷ "instances" ∷ "templates" ∷ "clone-intents" ∷ []

-- whether an entry has the kind that the layout wants
abbrev right_kind : Bool → Kind → Bool
right_kind true directory = true
right_kind false regular = true
right_kind _ _ = false

abbrev check_entry : Bool → Option Kind → Exec Disk (Unit {0})
check_entry want_dir none = raise (wrapped "registry is not initialized" (sentinel not_exist))
check_entry want_dir (some k) =
    refuse_if (not (right_kind want_dir k)) "invalid registry layout entry"

check_names : List String → Exec Disk (Unit {0})
check_names [] = pure tt
check_names (name ∷ rest) = do
  wrapping "registry is not initialized" system_call
  λ d. check_entry (contains name directory_names) (d.files.entries name) d
  check_names rest

-- `checkLayout`
unfoldable pub check_layout : Exec Disk (Unit {0})
unfolding check_names contains
check_layout = check_names layout_names

-- `json.Decoder.Decode`, the null check and the check for trailing data
unfoldable pub decode_records : Content → Result (List Record)
decode_records undecodable = err (message "corrupt registry")
decode_records null = err (message "corrupt registry: expected an array, not null")
decode_records (array rs true) = err (message "corrupt registry: trailing data")
decode_records (array rs false) = ok rs

-- opening `records.json` without following a symbolic link
abbrev open_records : Option Kind → Exec Disk (Unit {0})
open_records none = raise (sentinel not_exist)
open_records (some symlink) = raise (external "open")
open_records (some _) = pure tt

-- `err == errUnchanged`
abbrev pub is_unchanged : Error → Bool
is_unchanged (sentinel unchanged) = true
is_unchanged _ = false

module _ ⦃p : Platform⦄ where
  -- `readRecords`
  unfoldable pub read_records : Exec Disk (List Record)
  read_records = do
    system_call
    λ d. open_records (d.files.entries "records.json") d
    records ← λ d. (decode_records d.files.content, d)
    lift (validate_records records)
    pure records

  abbrev pub belongs : String → Record → Bool
  belongs controller_id r = controller_id == "" || r.controller_id == controller_id

  -- `Snapshot(ctx, stateDir, controllerID)`
  unfoldable pub snapshot : String → Exec Disk (List Record)
  snapshot controller_id = do
    check_layout
    acquire "global.lock" false true true
    then_close "global.lock"
        do records ← read_records; pure (filter (belongs controller_id) records)

  -- `Open`
  unfoldable pub open_registry : String → Exec Disk Registry
  open_registry controller_id = do
    refuse_if (controller_id == "") "registry requires controller identity"
    _ ← snapshot controller_id
    pure (record { controller_id = controller_id })

  -- the names of lock and intent files
  abbrev pub instance_lock : Registry → String → String
  instance_lock r name = record_key r.controller_id name

  abbrev pub template_lock : String → String
  template_lock machine_id = record_key "template" machine_id

  -- `LockInstance` and `TryLockInstance`, by whether to wait
  unfoldable pub lock_instance : Registry → String → Bool → Exec Disk (Unit {0})
  lock_instance r name wait = do
    refuse_if (name == "") "empty runner lock target"
    acquire (instance_lock r name) true false wait

  -- `LockTemplate`
  unfoldable pub lock_template : String → Exec Disk (Unit {0})
  lock_template machine_id = do
    refuse_if (machine_id == "") "empty template lock target"
    acquire (template_lock machine_id) true false true

  -- the first record that passes a test, as the loops of `Find` look for it
  unfoldable pub find_first : (Record → Bool) → List Record → Option Record
  find_first test [] = none
  find_first test (r ∷ rest) = if test r then some r else find_first test rest

  abbrev pub has_id : String → Record → Bool
  has_id target r = not (r.machine_id == "") && r.machine_id == target

  abbrev pub has_name : String → Record → Bool
  has_name target r = r.runner_name == target

  unfoldable pub find_in : String → List Record → Result Record
  unfolding find_first
  find_in target records = elim (find_first (has_id target) records) [
    | some r ↦ ok r
    | none ↦ elim (find_first (has_name target) records) [
      | some r ↦ ok r
      | none ↦ err (sentinel not_found)
    ]
  ]

  -- `Find`: an ID takes precedence over a runner name.
  unfoldable pub find : Registry → String → Exec Disk Record
  find r target = do
    raise_if (target == "") (sentinel not_found)
    records ← snapshot r.controller_id
    lift (find_in target records)

  -- what the rename of `records.json` publishes
  abbrev pub publish_records : List Record → Files → Files
  publish_records records files = record files {
    entries = λ name. if name == "records.json" then some regular else files.entries name;
    content = array records false;
  }

  -- A callback of `transaction`: what it assigns to the variables around it, and the records or the
  -- error that it returns. The value is `transaction`'s where the error is nil.
  abbrev pub Callback {ℓ} : Type ℓ → Type ℓ
  Callback A = List Record → A × Result (List Record)

  abbrev pub commit {ℓ} : {A : Type ℓ} → A × Result (List Record) → Exec Disk A
  commit (a, err e) = if is_unchanged e then pure a else raise e
  commit (a, ok records) = do
    lift (validate_records records)
    write_atomic (publish_records (sort_records records))
    pure a

  -- `transaction`
  unfoldable pub transaction {ℓ} : {A : Type ℓ} → Callback A → Exec Disk A
  transaction update = do
    acquire "global.lock" false false true
    then_close "global.lock" do records ← read_records; commit (update records)

  -- the requests that `Reserve` turns away at once
  abbrev pub turned_away : Registry → Record → ℤ → Bool
  turned_away r desired max =
      not (desired.controller_id == r.controller_id)
      || not (same_phase desired.phase reserved)
      || below_one max

  -- `Reserve`: the record, and whether it is a fresh reservation
  unfoldable pub reserve : Registry → Record → ℤ → Exec Disk (Record × Bool)
  reserve r desired max = do
    raise_if (turned_away r desired max) (sentinel conflict)
    transaction (reserve_update r.controller_id desired max)

  -- `Save`
  unfoldable pub save : Registry → Record → Exec Disk (Unit {0})
  save r updated = do
    raise_if (not (updated.controller_id == r.controller_id)) (sentinel conflict)
    transaction (λ records. (tt, save_update r.controller_id updated records))

  -- `Remove`
  unfoldable pub remove : Registry → String → Exec Disk (Unit {0})
  remove r name = transaction (λ records. (tt, remove_update r.controller_id name records))

  -- `MarkCloneIntent`
  unfoldable pub mark_clone_intent : Registry → String → Exec Disk (Unit {0})
  mark_clone_intent r name =
      write_atomic λ files. record files { intents = instance_lock r name ∷ files.intents }

  -- `CloneUncertain`
  unfoldable pub clone_uncertain : Registry → String → Exec Disk Bool
  unfolding contains
  clone_uncertain r name = do system_call; gets λ d. contains (instance_lock r name) d.files.intents

  abbrev pub forget_intent : String → Files → Files
  forget_intent key files = record files { intents = filter (λ k. not (k == key)) files.intents }

  -- `ClearCloneIntent`: a file that is not there is no error.
  unfoldable pub clear_clone_intent : Registry → String → Exec Disk (Unit {0})
  unfolding filter
  clear_clone_intent r name = do
    system_call
    change (forget_intent (instance_lock r name))
    sync_dir
