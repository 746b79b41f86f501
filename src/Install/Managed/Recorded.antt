-- ===== src/Install/Managed/Recorded.antt =====
-- What a success of `managedWrite` of internal/install/install.go leaves.
use garm_provider_orbstack.Prelude.{
  String, Bool, true, false, not, ◌≡◌, refl, ◌∙◌, ◌==◌, List, ◌∷◌, Option, none, some, lookup,
  eq_iff, if◌then◌else◌,
}
use garm_provider_orbstack.Error.{ok}
use garm_provider_orbstack.Exec.{pure, refuse_if, ◌>>◌}
use garm_provider_orbstack.Exec.Ensures.{
  Post, Ensures, ensures-bind, ensures-pure, ensures-raise, success,
}
use garm_provider_orbstack.Platform.{Platform}
use garm_provider_orbstack.Install.Managed.{
  refuse_irregular, Calls, working, failing_before, failing_after, Shelf, read_result,
  acceptable_managed, read_file, touch, put, next_calls, is_text, atomic_file, note_digest,
  write_noted, known_digest, write_over, managed_write,
}

lookup-head : (path v : String) (l : List (String × String)) → lookup path ((path, v) ∷ l) ≡ some v
unfolding lookup
lookup-head path v l = rw ((eq_iff path path).1 refl) refl

module _ ⦃p : Platform⦄ (path wanted : String) where
  abbrev Found : Option String → Shelf → Type 0
  Found old t = lookup path t.files ≡ old

  abbrev Has : Shelf → Type 0
  Has t = lookup path t.files ≡ some wanted

  -- the file has the content that was wanted, and the record has its digest
  pub record Recorded (t : Shelf) : Type 0 where
    pub content : lookup path t.files ≡ some wanted
    pub digest : lookup path t.managed ≡ some (p.sha256_hex wanted)

  read-Post :
      (s : Shelf) (trouble : Option String)
      → Post Found (λ e t. Unit {0}) (read_result trouble (lookup path s.files)) s
  read-Post s none = refl
  read-Post s (some e) = tt

  read-Found : {P : Shelf → Type 0} → Ensures P (read_file path) Found (λ e t. Unit {0})
  unfolding read_file
  read-Found = record { at = λ s h. read-Post s (s.unreadable path) }

  is_text-eq : (old : Option String) → is_text old wanted ≡ true → old ≡ some wanted
  is_text-eq none h = cc (h)
  is_text-eq (some old) h = let i : old ≡ wanted = (eq_iff old wanted).0 h in rw i refl

  end-Has :
      (old : Option String) (b : Bool) (c : Calls)
      → is_text old wanted ≡ b
      → Ensures (Found old) (if b then touch c else put path wanted c) (λ u. Has) (λ e t. Unit {0})
  end-Has old true working h = ensures-pure tt (λ s found. found ∙ is_text-eq old h)
  end-Has old true (failing_before e) h = ensures-raise _ (λ s found. tt)
  end-Has old true (failing_after e) h = ensures-raise _ (λ s found. tt)
  end-Has old false working h = record { at = λ s found. lookup-head path wanted s.files }
  end-Has old false (failing_before e) h = record { at = λ s found. tt }
  end-Has old false (failing_after e) h = record { at = λ s found. tt }

  regular :
      (b : Bool) (s : Shelf)
      → Post
          (λ u t. Unit {0})
          (λ e t. Unit {0})
          (refuse_if b "refusing non-regular managed file" s).0
          (refuse_if b "refusing non-regular managed file" s).1
  regular true s = tt
  regular false s = tt

  atomic_file-Has :
      {P : Shelf → Type 0} → Ensures P (atomic_file path wanted) (λ u. Has) (λ e t. Unit {0})
  unfolding atomic_file
  atomic_file-Has =
      ensures-bind {M = λ u t. Unit {0}} (refuse_irregular path) _
        (record { at = λ s h. regular (s.irregular path) s })
        (λ u. ensures-bind (read_file path) _ read-Found (λ old.
          ensures-bind {M = λ c. Found old} next_calls
            (λ c. if is_text old wanted then touch c else put path wanted c)
            (record { at = λ s h. h }) (λ c. end-Has old (is_text old wanted) c refl)))

  note-Recorded : Ensures Has (note_digest path wanted) (λ u. Recorded) (λ e t. Unit {0})
  note-Recorded = record {
    at = λ s h. record { content = h; digest = lookup-head path (p.sha256_hex wanted) s.managed };
  }

  write_noted-Recorded :
      {P : Shelf → Type 0} → Ensures P (write_noted path wanted) (λ b. Recorded) (λ e t. Unit {0})
  unfolding write_noted
  write_noted-Recorded = ensures-bind (atomic_file path wanted) _ atomic_file-Has (λ u.
      ensures-bind (note_digest path wanted) _ note-Recorded (λ u. ensures-pure true (λ s h. h)))

  module _ (allowed : List String) where
    kept_or_written :
        (old : String) (unchanged : Bool)
        → (old == wanted) ≡ unchanged
        → Ensures
            (Found (some old))
            (if unchanged then note_digest path wanted >> pure false else write_noted path wanted)
            (λ b. Recorded)
            (λ e t. Unit {0})
    kept_or_written old false h = write_noted-Recorded
    kept_or_written old true h =
        let kept : Ensures Has (note_digest path wanted >> pure false) (λ b. Recorded)
            (λ e t. Unit {0}) =
          ensures-bind (note_digest path wanted) (λ u. pure false) note-Recorded
            (λ u. ensures-pure false (λ s h. h)) in
        record { at = λ s found. kept.at s (found ∙ is_text-eq (some old) h) }

    refusable :
        (accepted : Bool) (old : String)
        → Ensures
            (Found (some old))
            (refuse_if (not accepted) "refusing to overwrite changed/unmanaged file")
            (λ u. Found (some old))
            (λ e t. Unit {0})
    refusable true old = ensures-pure tt (λ s h. h)
    refusable false old = ensures-raise _ (λ s h. tt)

    over-Recorded :
        (digest : String) (old : Option String)
        → Ensures
            (Found old)
            (write_over path wanted allowed digest old)
            (λ b. Recorded)
            (λ e t. Unit {0})
    over-Recorded digest none = write_noted-Recorded
    over-Recorded digest (some old) =
        ensures-bind
          (refuse_if (not (acceptable_managed old wanted allowed digest))
            "refusing to overwrite changed/unmanaged file")
          _ (refusable (acceptable_managed old wanted allowed digest) old)
          (λ u. kept_or_written old (old == wanted) refl)

    -- Where `managedWrite` succeeds, the path has the content that was wanted, and the record has the
    -- digest of it: a later release may replace the file as long as nobody changes it.
    pub managed_write-Recorded :
        (s : Shelf) (changed : Bool)
        → (managed_write path wanted allowed s).0 ≡ ok changed
        → Recorded (managed_write path wanted allowed s).1
    unfolding managed_write
    managed_write-Recorded s changed h =
        let e : Ensures (λ t. Unit {0}) (managed_write path wanted allowed) (λ b. Recorded)
            (λ e t. Unit {0}) =
          ensures-bind {M = λ d t. Unit {0}} (known_digest path) _ (record { at = λ s h. tt })
            (λ digest.
              ensures-bind (read_file path) _ read-Found (λ old. over-Recorded digest old)) in
        success (λ b. Recorded) (managed_write path wanted allowed s).0
          (managed_write path wanted allowed s).1 (e.at s tt) h
