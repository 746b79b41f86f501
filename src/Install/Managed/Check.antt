-- ===== src/Install/Managed/Check.antt =====
-- `checkManagedFiles` of internal/install/install.go, and what it promises of the writes that follow.
use garm_provider_orbstack.Prelude.{
  ap, String, Bool, true, false, not, ◌≡◌, ◌≢◌, arith, ◌==◌, inl, inr, List, [], ◌∷◌, All, Option,
  none, some, lookup, if◌then◌else◌, Bool-cases,
}
use garm_provider_orbstack.Error.{Error, Result, ok, err, message}
use garm_provider_orbstack.Outcome.{refuse_if, ◌>>◌, chain-eq-ok, not_refused}
use garm_provider_orbstack.Exec.{refuse_if as refuse_now, continue}
use garm_provider_orbstack.Exec.Ensures.{Post, Ensures, ensures-bind}
use garm_provider_orbstack.Platform.{Platform}
use garm_provider_orbstack.Install.Managed.{
  refuse_irregular, Calls, working, failing_before, failing_after, Shelf, recorded, read_result,
  acceptable_managed, read_file, touch, put, next_calls, is_text, atomic_file, write_noted,
  write_over, managed_write,
}

-- a file that is to be written: the anonymous type of the parameter `specs`
pub record FileSpec : Type 0 where
  pub path : String
  pub wanted : String
  pub allowed : List String

module _ ⦃p : Platform⦄ where
  abbrev pub check_old : FileSpec → String → Result (Option String) → Result (Unit {0})
  check_old f digest (err e) = err e
  check_old f digest (ok none) = ok tt
  check_old f digest (ok (some old)) =
      refuse_if (not (acceptable_managed old f.wanted f.allowed digest))
        "managed file was changed by something else; refusing version change"

  -- `checkManagedFiles`
  unfoldable pub check_managed_files : List FileSpec → Shelf → Result (Unit {0})
  unfolding lookup acceptable_managed
  check_managed_files [] s = ok tt
  check_managed_files (f ∷ rest) s =
      check_old f (recorded (lookup f.path s.managed))
        (read_result (s.unreadable f.path) (lookup f.path s.files))
      >> check_managed_files rest s

  abbrev pub refusal : Error
  refusal = message "refusing to overwrite changed/unmanaged file"

  abbrev is_refusal : Error → Bool
  is_refusal (message m) = m == "refusing to overwrite changed/unmanaged file"
  is_refusal _ = false

  abbrev pub Other : Error → Shelf → Type 0
  Other e t = e ≢ refusal

  module _ (path content : String) where
    read-Other : {P : Shelf → Type 0} → Ensures P (read_file path) (λ old t. Unit {0}) Other
    unfolding read_file
    read-Other = record { at = λ s h. go s (s.unreadable path) }
      where
        go :
            (s : Shelf) (trouble : Option String)
            → Post (λ old t. Unit {0}) Other (read_result trouble (lookup path s.files)) s
        go s none = tt
        go s (some e) = λ q. cc (q)

    end-Other :
        (b : Bool) (c : Calls) {P : Shelf → Type 0}
        → Ensures P (if b then touch c else put path content c) (λ u t. Unit {0}) Other
    end-Other true working = record { at = λ s h. tt }
    end-Other true (failing_before e) = record { at = λ s h q. cc (q) }
    end-Other true (failing_after e) = record { at = λ s h q. cc (q) }
    end-Other false working = record { at = λ s h. tt }
    end-Other false (failing_before e) = record { at = λ s h q. cc (q) }
    end-Other false (failing_after e) = record { at = λ s h q. cc (q) }

    regular-Other :
        (b : Bool) (s : Shelf)
        → Post
            (λ u t. Unit {0})
            Other
            (refuse_now b "refusing non-regular managed file" s).0
            (refuse_now b "refusing non-regular managed file" s).1
    regular-Other true s = λ q. let b : false ≡ true = ap is_refusal q in cc (b)
    regular-Other false s = tt

    write_noted-Other :
        {P : Shelf → Type 0} → Ensures P (write_noted path content) (λ b t. Unit {0}) Other
    unfolding write_noted atomic_file
    write_noted-Other =
        ensures-bind {M = λ u t. Unit {0}} (atomic_file path content) _
          (ensures-bind {M = λ u t. Unit {0}} (refuse_irregular path) _
            (record { at = λ s h. regular-Other (s.irregular path) s })
            (λ u. ensures-bind (read_file path) _ read-Other (λ old.
              ensures-bind {M = λ c t. Unit {0}} next_calls
                (λ c. if is_text old content then touch c else put path content c)
                (record { at = λ s h. tt }) (λ c. end-Other (is_text old content) c))))
          (λ u. record { at = λ s h. tt })

  failed :
      {A : Type 0} (r : Result A) (t : Shelf) → Post (λ a s. Unit {0}) Other r t → r ≢ err refusal
  failed (ok a) t h q = cc (q)
  failed (err e) t h q = h (ground arith)

  module _ (f : FileSpec) (u : Shelf) where
    accepted_write :
        (old digest : String)
        → acceptable_managed old f.wanted f.allowed digest ≡ true
        → (write_over f.path f.wanted f.allowed digest (some old) u).0 ≢ err refusal
    accepted_write old digest fine = elim (Bool-cases (old == f.wanted)) [
      | inl same ↦ rw (fine, same) (λ q. cc (q))
      | inr other ↦
          rw (fine, other)
            (failed _ _ ((write_noted-Other f.path f.wanted {P = λ t. Unit {0}}).at u tt))
    ]

    checked_write :
        (digest : String) (trouble found : Option String) {v : Unit {0}}
        → check_old f digest (read_result trouble found) ≡ ok v
        → (continue (read_result trouble found) (write_over f.path f.wanted f.allowed digest) u).0
          ≢ err refusal
    checked_write digest none none h =
        failed _ _ ((write_noted-Other f.path f.wanted {P = λ t. Unit {0}}).at u tt)
    checked_write digest none (some old) h =
        let k = not_refused (not (acceptable_managed old f.wanted f.allowed digest)) _ h in
        accepted_write old digest (ground arith)
    checked_write digest (some e) found h = cc (h)

  -- the write of the file is not refused for its content on a shelf like this, however its system calls
  -- end
  abbrev pub IsWelcome : Shelf → FileSpec → Type 0
  IsWelcome s f =
      (calls : List Calls)
      → (managed_write f.path f.wanted f.allowed (record s { calls = calls })).0 ≢ err refusal

  -- Where `checkManagedFiles` accepts a list of files, `managedWrite` does not answer for any of them
  -- that it refuses to overwrite a changed or unmanaged file, while the files and the record are as they
  -- were and however its system calls end. It may still fail otherwise, also where the path is a link to
  -- such a file.
  pub check_managed_files-IsWelcome :
      (files : List FileSpec) (s : Shelf) {u : Unit {0}}
      → check_managed_files files s ≡ ok u
      → All (IsWelcome s) files
  unfolding check_managed_files managed_write read_file
  check_managed_files-IsWelcome [] s h = tt
  check_managed_files-IsWelcome (f ∷ rest) s h =
      let (_, one, h1) =
        chain-eq-ok (λ _. check_managed_files rest s)
          (check_old f (recorded (lookup f.path s.managed))
            (read_result (s.unreadable f.path) (lookup f.path s.files)))
          h in
      (
        λ calls.
            checked_write f (record s { calls = calls }) (recorded (lookup f.path s.managed))
              (s.unreadable f.path) (lookup f.path s.files) one,
        check_managed_files-IsWelcome rest s h1,
      )
