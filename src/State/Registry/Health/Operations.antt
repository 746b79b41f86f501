-- ===== src/State/Registry/Health/Operations.antt =====
-- The registry's operations on `records.json` and on clone intents (internal/state/registry.go).
use garm_provider_orbstack.Prelude.{
  String, Bool, true, false, ◌≡◌, refl, List, [], ◌∷◌, ℤ, not, Option, some, none, ◌∙◌, contains,
}
use garm_provider_orbstack.Error.{Error, Result, ok, err}
use garm_provider_orbstack.Platform.{Platform}
use garm_provider_orbstack.Exec.{pure, lift, continue, ◌>>=◌, raise_if, refuse_if, wrapping}
use garm_provider_orbstack.Exec.Keeps.{
  Moves, Moves-pure, Moves-raise, Moves-lift, Moves-gets, Moves-if,
}
use garm_provider_orbstack.Disk.{Kind, symlink, Files, Disk, system_call, write_atomic}
use garm_provider_orbstack.State.Record.{Record}
use garm_provider_orbstack.State.Validate.{validate_records}
use garm_provider_orbstack.State.Validate.Sound.{validate_records_iff}
use garm_provider_orbstack.State.Sort.{sort_records, sort_records-IsWellFormed}
use garm_provider_orbstack.State.Registry.{
  Registry, Callback, transaction, reserve, save, remove, snapshot, find, check_layout,
  read_records, mark_clone_intent, clear_clone_intent, clone_uncertain, commit, publish_records,
  check_names, open_registry, open_records, decode_records, is_unchanged, check_entry, right_kind,
  directory_names, layout_names,
}
use garm_provider_orbstack.State.Registry.Health.{
  IsReadable, Tidy, Tidy-order, system_call-Tidy, under_lock, and_then, then_call, change-Tidy,
  sync_dir-Tidy, write_atomic-Tidy,
}

module _ ⦃p : Platform⦄ where
  open_records-Tidy : (k : Option Kind) (s : Disk) → Tidy s (open_records k s).1
  open_records-Tidy none s = Tidy-order.same s
  open_records-Tidy (some symlink) s = Tidy-order.same s
  open_records-Tidy (some _) s = Tidy-order.same s

  lift-Tidy : {A : Type 0} (r : Result A) → Moves Tidy (lift r)
  lift-Tidy = Moves-lift Tidy-order

  pure-Tidy : {A : Type 0} (a : A) → Moves Tidy (pure a)
  pure-Tidy = Moves-pure Tidy-order

  read_records-Tidy : Moves Tidy read_records
  unfolding read_records
  read_records-Tidy = then_call _ (
      and_then (λ d. open_records (d.files.entries "records.json") d) _
        (record { at = λ s. open_records-Tidy (s.files.entries "records.json") s })
        λ _.
          and_then (λ d. (decode_records d.files.content, d)) _ (record { at = Tidy-order.same })
            λ records. and_then _ _ (lift-Tidy (validate_records records)) λ _. pure-Tidy records)

  publish-IsReadable :
      (updated : List Record) (g : Files)
      → validate_records updated ≡ ok tt
      → IsReadable (publish_records (sort_records updated) g)
  publish-IsReadable updated g valid = record {
    records = sort_records updated;
    holds = record {
      stored = refl;
      valid =
          (validate_records_iff (sort_records updated)).1
            (sort_records-IsWellFormed updated ((validate_records_iff updated).0 valid));
    };
  }

  commit-Tidy : {A : Type 0} (u : A × Result (List Record)) → Moves Tidy (commit u)
  commit-Tidy (a, err e) =
      Moves-if Tidy-order (is_unchanged e) _ _ (λ _. pure-Tidy a) (λ _. Moves-raise Tidy-order e)
  commit-Tidy (a, ok updated) = go (validate_records updated) refl
    where
      go :
          (r : Result (Unit {0}))
          → validate_records updated ≡ r
          → Moves Tidy (λ s.
            continue r
              (λ _. write_atomic (publish_records (sort_records updated)) >>= λ _. pure a)
              s)
      go (ok _) valid =
          and_then _ _ (write_atomic-Tidy _ (λ g _. publish-IsReadable updated g valid))
            (λ _. pure-Tidy a)
      go (err e) valid = Moves-raise Tidy-order e

  pub transaction-Tidy : {A : Type 0} (update : Callback A) → Moves Tidy (transaction update)
  unfolding transaction
  transaction-Tidy update =
      under_lock "global.lock" false false true _
        (and_then read_records _ read_records-Tidy (λ records. commit-Tidy (update records)))

  raise_if-Tidy : (b : Bool) (e : Error) → Moves Tidy (raise_if b e)
  raise_if-Tidy true e = Moves-raise Tidy-order e
  raise_if-Tidy false e = pure-Tidy tt

  refuse_if-Tidy : (b : Bool) (m : String) → Moves Tidy (refuse_if b m)
  refuse_if-Tidy true m = Moves-raise Tidy-order _
  refuse_if-Tidy false m = pure-Tidy tt

  pub reserve-Tidy :
      (r : Registry) (desired : Record) (max : ℤ) → Moves Tidy (reserve r desired max)
  unfolding reserve
  reserve-Tidy r desired max = and_then _ _ (raise_if-Tidy _ _) (λ _. transaction-Tidy _)

  pub save-Tidy : (r : Registry) (updated : Record) → Moves Tidy (save r updated)
  unfolding save
  save-Tidy r updated = and_then _ _ (raise_if-Tidy _ _) (λ _. transaction-Tidy _)

  pub remove-Tidy : (r : Registry) (name : String) → Moves Tidy (remove r name)
  unfolding remove
  remove-Tidy r name = transaction-Tidy _

  intents-IsReadable : (f g : Files) → g.content ≡ f.content → IsReadable f → IsReadable g
  intents-IsReadable f g same h = record {
    records = h.records;
    holds = record { stored = same ∙ h.holds.stored; valid = h.holds.valid };
  }

  pub mark_clone_intent-Tidy :
      (r : Registry) (name : String) → Moves Tidy (mark_clone_intent r name)
  unfolding mark_clone_intent
  mark_clone_intent-Tidy r name = write_atomic-Tidy _ (λ g h. intents-IsReadable g _ refl h)

  pub clone_uncertain-Tidy : (r : Registry) (name : String) → Moves Tidy (clone_uncertain r name)
  unfolding clone_uncertain
  clone_uncertain-Tidy r name = then_call _ (Moves-gets Tidy-order _)

  pub clear_clone_intent-Tidy :
      (r : Registry) (name : String) → Moves Tidy (clear_clone_intent r name)
  unfolding clear_clone_intent
  clear_clone_intent-Tidy r name =
      then_call _
        (and_then _ _ (change-Tidy _ (λ g h. intents-IsReadable g _ refl h)) (λ _. sync_dir-Tidy))

  check_entry-Tidy :
      (want_dir : Bool) (k : Option Kind) (s : Disk) → Tidy s (check_entry want_dir k s).1
  check_entry-Tidy want_dir none s = Tidy-order.same s
  check_entry-Tidy want_dir (some k) s = (refuse_if-Tidy (not (right_kind want_dir k)) _).at s

  check_names-Tidy : (names : List String) → Moves Tidy (check_names names)
  unfolding check_names
  check_names-Tidy [] = pure-Tidy tt
  check_names-Tidy (name ∷ rest) =
      and_then (wrapping "registry is not initialized" system_call) _
        (record { at = system_call-Tidy.at })
        λ _.
          (and_then (λ d. check_entry (contains name directory_names) (d.files.entries name) d) _
            (record { at = λ s. check_entry-Tidy _ (s.files.entries name) s })
            (λ _. check_names-Tidy rest))

  pub snapshot-Tidy : (controller_id : String) → Moves Tidy (snapshot controller_id)
  unfolding snapshot check_layout
  snapshot-Tidy controller_id = and_then check_layout _ (check_names-Tidy layout_names) λ _.
      under_lock "global.lock" false true true _
        (and_then read_records _ read_records-Tidy (λ records. pure-Tidy _))

  pub find-Tidy : (r : Registry) (target : String) → Moves Tidy (find r target)
  unfolding find
  find-Tidy r target =
      and_then _ _ (raise_if-Tidy _ _)
        λ _. and_then _ _ (snapshot-Tidy r.controller_id) (λ records. lift-Tidy _)

  -- `Open` reads only.
  pub open_registry-Tidy : (controller_id : String) → Moves Tidy (open_registry controller_id)
  unfolding open_registry
  open_registry-Tidy controller_id =
      and_then _ _ (refuse_if-Tidy _ _)
        λ _. and_then _ _ (snapshot-Tidy controller_id) (λ _. pure-Tidy _)
