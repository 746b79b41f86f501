-- ===== src/State/Registry/Serial.antt =====
-- The registry operations that write are single steps of a history, whatever fails on the way
-- (internal/state/registry.go).
use garm_provider_orbstack.Prelude.{
  String, Bool, true, false, ◌≡◌, ◌⊎◌, inl, inr, refl, List, ℤ, ap, not, ◌==◌, arith, eq_iff,
}
use garm_provider_orbstack.Error.{Result, ok, err, sentinel, conflict}
use garm_provider_orbstack.Platform.{Platform}
use garm_provider_orbstack.Exec.{Exec, pure, continue, ◌>>=◌, raise_if}
use garm_provider_orbstack.Disk.{Files, Disk, array}
use garm_provider_orbstack.State.Record.{Record}
use garm_provider_orbstack.State.Sort.{sort_records}
use garm_provider_orbstack.State.Registry.{
  Registry, Callback, turned_away, transaction, reserve, save, remove,
}
use garm_provider_orbstack.State.Registry.Update.{reserve_update, save_update, remove_update}
use garm_provider_orbstack.State.Registry.Transaction.{
  Holds, Changes, untouched, done, FilesSay, files_at_lock, transaction-all_or_nothing,
}
use garm_provider_orbstack.State.Registry.History.{Operation, reserving, saving, removing, Step}

module _ ⦃p : Platform⦄ where
  -- a call of an exported operation that writes `records.json`
  pub data Call : Type 0 where
    reserve_call : Record → Call
    save_call : Record → Call
    remove_call : String → Call

  abbrev pub run : (String → ℤ) → Registry → Call → Exec Disk (Unit {0})
  run limit r (reserve_call desired) = do _ ← reserve r desired (limit r.controller_id); pure tt
  run limit r (save_call updated) = save r updated
  run limit r (remove_call name) = remove r name

  -- the records in the files have made a step of a history
  pub record Stepped (limit : String → ℤ) (f g : Files) : Type 0 where
    pub before : List Record
    pub after : List Record
    pub stored : Holds f before
    pub now : g.content ≡ array after false
    pub step : Step limit before after

  abbrev pub OneStep : (String → ℤ) → Disk → Files → Type 0
  OneStep limit d g = (g ≡ d.files) ⊎ (g ≡ files_at_lock d) ⊎ Stepped limit (files_at_lock d) g

  stepped :
      {A : Type 0} (limit : String → ℤ) (update : Callback A) (f g : Files)
      → Operation limit (λ rs. (update rs).1)
      → Changes update f g
      → Stepped limit f g
  stepped limit update f g op c = record {
    before = c.records;
    after = sort_records c.updated;
    stored = c.accepts.holds;
    now = ap (λ (h : Files). h.content) c.publishes;
    step = record {
      update = λ rs. (update rs).1;
      operation = op;
      updated = c.updated;
      returns = c.accepts.returns;
      valid = c.accepts.valid;
      sorted = refl;
    };
  }

  OneStep-of_say :
      {A : Type 0} (limit : String → ℤ) (update : Callback A) (d : Disk) (r : Result A) (t : Disk)
      → Operation limit (λ rs. (update rs).1)
      → FilesSay update (files_at_lock d) r t
      → OneStep limit d t.files
  OneStep-of_say limit update d (ok a) t op (untouched _ _ _ same) = inr (inl same)
  OneStep-of_say limit update d (ok a) t op (done change _) =
      inr (inr (stepped limit update _ _ op change))
  OneStep-of_say limit update d (err e) t op (inl same) = inr (inl same)
  OneStep-of_say limit update d (err e) t op (inr change) =
      inr (inr (stepped limit update _ _ op change))

  transaction-OneStep :
      {A : Type 0} (limit : String → ℤ) (update : Callback A) (d : Disk)
      → Operation limit (λ rs. (update rs).1)
      → OneStep limit d (transaction update d).1.files
  transaction-OneStep limit update d op =
      OneStep-of_say limit update d _ _ op (transaction-all_or_nothing update d)

  guarded :
      {A : Type 0} (limit : String → ℤ) (refused : Bool) (m : Exec Disk A) (d : Disk)
      → (refused ≡ false → OneStep limit d (m d).1.files)
      → OneStep limit d ((raise_if refused (sentinel conflict) >>= λ _. m) d).1.files
  guarded limit true m d h = inl refl
  guarded limit false m d h = h refl

  dropped : {A : Type 0} (m : Exec Disk A) (d : Disk) → ((m >>= λ _. pure (tt {0})) d).1 ≡ (m d).1
  dropped {A} m d = go (m d).0
    where
      go : (r : Result A) → (continue r (λ _. pure (tt {0})) (m d).1).1 ≡ (m d).1
      go (ok a) = refl
      go (err e) = refl

  -- An operation that writes, by any controller, at any time and with any failure: the files are
  -- left as they are, or the records stored under the global lock make one step of a history.
  pub run-OneStep :
      (limit : String → ℤ) (r : Registry) (call : Call) (d : Disk)
      → OneStep limit d (run limit r call d).1.files
  unfolding reserve save remove
  run-OneStep limit r (reserve_call desired) d =
      rw (dropped (reserve r desired (limit r.controller_id)) d) (
        guarded limit (turned_away r desired (limit r.controller_id)) _ d λ accepted.
          transaction-OneStep limit (reserve_update r.controller_id desired (limit r.controller_id))
            d
            (reserving r.controller_id desired
              (ground (arith, eq_iff desired.controller_id r.controller_id))))
  run-OneStep limit r (save_call updated) d =
      guarded limit (not (updated.controller_id == r.controller_id)) _ d λ accepted.
        transaction-OneStep limit (λ records. (tt, save_update r.controller_id updated records)) d
          (saving r.controller_id updated
            (ground (arith, eq_iff updated.controller_id r.controller_id)))
  run-OneStep limit r (remove_call name) d =
      transaction-OneStep limit (λ records. (tt, remove_update r.controller_id name records)) d
        (removing r.controller_id name)
