-- ===== src/State/Registry/Transaction.antt =====
-- `transaction` of internal/state/registry.go publishes all or nothing, and only valid registries.
use garm_provider_orbstack.Prelude.{true, false, ◌≡◌, ◌⊎◌, inl, inr, refl, List, arith, ap}
use garm_provider_orbstack.Error.{Error, Result, ok, err, sentinel, unchanged}
use garm_provider_orbstack.Exec.{pure, continue, ◌>>=◌}
use garm_provider_orbstack.Exec.Ensures.{
  Post, Ensures, ensures-bind, ensures-weaken, ensures-raise, ensures-pure, ensures-if,
  ensures-lift,
}
use garm_provider_orbstack.Platform.{Platform}
use garm_provider_orbstack.Disk.{array, Files, Disk, acquire, then_close, close_lock}
use garm_provider_orbstack.Disk.Laws.{core, At, write_atomic-At, after_call}
use garm_provider_orbstack.State.Record.{Record}
use garm_provider_orbstack.State.Validate.{validate_records}
use garm_provider_orbstack.State.Sort.{sort_records}
use garm_provider_orbstack.State.Registry.{
  is_unchanged, read_records, decode_records, open_records, Callback, commit, transaction,
  publish_records,
}

module _ ⦃p : Platform⦄ where
  -- the files hold these records, and they are valid
  pub record Holds (f : Files) (records : List Record) : Type 0 where
    pub stored : f.content ≡ array records false
    pub valid : validate_records records ≡ ok tt

  module _ {A : Type 0} (update : Callback A) where
    -- the callback accepts what is stored, and what it returns is valid
    pub record Accepts (f : Files) (records updated : List Record) : Type 0 where
      pub holds : Holds f records
      pub returns : (update records).1 ≡ ok updated
      pub valid : validate_records updated ≡ ok tt

    -- what the files become when a change is published
    pub record Changes (f g : Files) : Type 0 where
      pub records : List Record
      pub updated : List Record
      pub accepts : Accepts f records updated
      pub publishes : g ≡ publish_records (sort_records updated) f

    -- what success means: nothing to do, or the change is published
    pub data Committed (a : A) (f g : Files) : Type 0 where
      untouched :
          (records : List Record)
          → Holds f records
          → update records ≡ (a, err (sentinel unchanged))
          → g ≡ f
          → Committed a f g
      done : (change : Changes f g) → (update change.records).0 ≡ a → Committed a f g

  opened :
      (c : Disk)
      → Ensures
          (At c)
          (λ d. open_records (d.files.entries "records.json") d)
          (λ _. At c)
          (λ _. At c)
  opened c = record { at = λ d a. ground arith }

  decoded :
      (c : Disk)
      → Ensures
          (At c)
          (λ d. (decode_records d.files.content, d))
          (λ rs d. At c d × (c.files.content ≡ array rs false))
          (λ _. At c)
  unfolding decode_records
  decoded c = record { at = λ d a. ground arith }

  validated :
      (c : Disk) (rs : List Record) (r : Result (Unit {0}))
      → validate_records rs ≡ r
      → (d : Disk) → At c d
      → c.files.content ≡ array rs false
      → Post
          (λ us t. At c t × Holds c.files us)
          (λ _. At c)
          (continue r (λ _. pure rs) d).0
          (continue r (λ _. pure rs) d).1
  validated c rs (ok _) v d a h = (a, record { stored = h; valid = v })
  validated c rs (err e) v d a h = a

  read_records-Holds :
      (c : Disk) → Ensures (At c) read_records (λ rs d. At c d × Holds c.files rs) (λ _. At c)
  unfolding read_records
  read_records-Holds c =
      after_call c _
        (ensures-bind _ _ (opened c) λ _. ensures-bind _ _ (decoded c) λ records. record {
          at = λ d h. validated c records (validate_records records) refl d h.0 h.1;
        })
        (λ _ _ a. a)

  is_unchanged→eq : (e : Error) → is_unchanged e ≡ true → e ≡ sentinel unchanged
  is_unchanged→eq e h = ground arith

  module _ {A : Type 0} (update : Callback A) (c : Disk) where
    abbrev Succeeds : A → Disk → Type 0
    Succeeds a d = (g : Files) × Committed update a c.files g × At (record c { files = g }) d

    abbrev Fails : Error → Disk → Type 0
    Fails e d = At c d ⊎ (g : Files) × Changes update c.files g × At (record c { files = g }) d

    commit_lem :
        (records : List Record)
        → Holds c.files records
        → (u : A × Result (List Record)) → update records ≡ u
        → Ensures (At c) (commit u) Succeeds Fails
    commit_lem records holds (a, err e) eq =
        ensures-if (is_unchanged e) _ _
          (λ same. ensures-pure a λ d at_c.
            (c.files, untouched records holds (rw eq (cc (is_unchanged→eq e same))) refl, at_c))
          (λ _. ensures-raise e λ d at_c. inl at_c)
    commit_lem records holds (a, ok updated) eq =
        ensures-lift (validate_records updated) _
          (λ _ valid.
            ensures-bind _ _
              (ensures-weaken _ (write_atomic-At (publish_records (sort_records updated)) c)
                (λ _ _ at_g. at_g)
                (λ _ d s. elim s [ inl at_c ↦ inl at_c | inr at_g ↦ inr (_, changes valid, at_g) ]))
              (λ _. ensures-pure a λ d at_g.
                (_, done (changes valid) (ap (λ (u : A × Result (List Record)). u.0) eq), at_g)))
          (λ _ _ d at_c. inl at_c)
      where
        changes :
            validate_records updated ≡ ok tt
            → Changes update c.files (publish_records (sort_records updated) c.files)
        changes v = record {
          records = records;
          updated = updated;
          accepts = record {
            holds = holds;
            returns = ap (λ (u : A × Result (List Record)). u.1) eq;
            valid = v;
          };
          publishes = refl;
        }

    body_lem : Ensures (At c) (read_records >>= λ records. commit (update records)) Succeeds Fails
    body_lem =
        ensures-bind _ _
          (ensures-weaken _ (read_records-Holds c) (λ _ _ h. h) (λ _ _ at_c. inl at_c))
          λ records. record { at = λ d h. (commit_lem records h.1 _ refl).at d h.0 }

  -- the files as other processes left them when the wait for the global lock ended
  abbrev pub files_at_lock : Disk → Files
  files_at_lock d = (acquire "global.lock" false false true d).1.files

  module _ {A : Type 0} (update : Callback A) where
    abbrev pub FilesSay : Files → Result A → Disk → Type 0
    FilesSay f r t =
        Post (λ a u. Committed update a f u.files) (λ _ u. (u.files ≡ f) ⊎ Changes update f u.files)
          r t

    say_files :
        (c : Disk) (r : Result A) (t : Disk)
        → Post (Succeeds update c) (Fails update c) r t
        → FilesSay c.files r (close_lock "global.lock" t).1
    unfolding close_lock
    say_files c (ok a) t (g, committed, at_g) = rw (ap (λ (u : Disk). u.files) at_g) committed
    say_files c (err e) t (inl at_c) = inl (ap (λ (u : Disk). u.files) at_c)
    say_files c (err e) t (inr (g, changes, at_g)) =
        inr (rw (ap (λ (u : Disk). u.files) at_g) changes)

    after_acquire :
        (r : Result (Unit {0})) (d : Disk)
        → FilesSay d.files
            (continue r
              (λ _. then_close "global.lock" (read_records >>= λ rs. commit (update rs)))
              d).0
            (continue r
              (λ _. then_close "global.lock" (read_records >>= λ rs. commit (update rs)))
              d).1
    unfolding then_close
    after_acquire (ok _) d = say_files (core d) _ _ ((body_lem update (core d)).at d refl)
    after_acquire (err e) d = inl refl

    -- Whatever system call fails: on success the callback had nothing to change, or its records are
    -- published, sorted and valid; on failure the files are as they were when the wait for the
    -- global lock ended, or the same publication has been made.
    pub transaction-all_or_nothing :
        (d : Disk) → FilesSay (files_at_lock d) (transaction update d).0 (transaction update d).1
    unfolding transaction
    transaction-all_or_nothing d = after_acquire (acquire "global.lock" false false true d).0 _
