-- ===== src/Install/Managed/Owned.antt =====
-- What `managedWrite` of internal/install/install.go overwrites.
use garm_provider_orbstack.Prelude.{
  String, Bool, true, false, not, ◌≡◌, refl, arith, ◌==◌, ◌⊎◌, inl, inr, List, ◌∷◌, Option, none,
  some, contains, ◌&&◌, ◌∙◌, lookup, eq_iff, if◌then◌else◌, Bool-cases,
}
use garm_provider_orbstack.Exec.{pure, refuse_if, continue, ◌>>◌}
use garm_provider_orbstack.Exec.Keeps.{Moves, Moves-mixed}
use garm_provider_orbstack.Platform.{Platform}
use garm_provider_orbstack.Install.Managed.{
  refuse_irregular, Calls, working, failing_before, failing_after, Shelf, recorded, read_result,
  acceptable_managed, read_file, touch, put, next_calls, is_text, atomic_file, note_digest,
  write_noted, write_over, managed_write,
}

-- the files are the same, and so is the record or not
abbrev Same : Shelf → Shelf → Type 0
Same s t = t.files ≡ s.files

-- the files are the same, or one path has a new content
abbrev pub Put : String → String → Shelf → Shelf → Type 0
Put path content s t = t.files ≡ s.files ⊎ t.files ≡ (path, content) ∷ s.files

module _ (path content : String) where
  Same-Put : (s t u : Shelf) → Same s t → Put path content t u → Put path content s u
  Same-Put s t u h k = rw (← h) k

  Put-Same : (s t u : Shelf) → Put path content s t → Same t u → Put path content s u
  Put-Same s t u h k = rw k h

  module _ ⦃p : Platform⦄ where
    put-Put : (c : Calls) → Moves (Put path content) (put path content c)
    put-Put working = record { at = λ s. inr refl }
    put-Put (failing_before e) = record { at = λ s. inl refl }
    put-Put (failing_after e) = record { at = λ s. inr refl }

    touch-Put : (c : Calls) → Moves (Put path content) (touch c)
    touch-Put working = record { at = λ s. inl refl }
    touch-Put (failing_before e) = record { at = λ s. inl refl }
    touch-Put (failing_after e) = record { at = λ s. inl refl }

    either-Put :
        (b : Bool) (c : Calls)
        → Moves (Put path content) (if b then touch c else put path content c)
    either-Put true c = touch-Put c
    either-Put false c = put-Put c

    Put-first : (b : Bool) (m : String) (s : Shelf) → (refuse_if b m s).1.files ≡ s.files
    Put-first true m s = refl
    Put-first false m s = refl

    atomic_file-Put : Moves (Put path content) (atomic_file path content)
    unfolding atomic_file read_file
    atomic_file-Put =
        Moves-mixed {R = Same} {T = Put path content} {U = Put path content} (λ s t h. inl h)
          Same-Put (refuse_irregular path) _
          (record { at = λ s. Put-first (s.irregular path) "refusing non-regular managed file" s })
          (λ _.
            Moves-mixed {R = Same} {T = Put path content} {U = Put path content} (λ s t h. inl h)
              Same-Put (read_file path) _ (record { at = λ s. refl })
              (λ old.
                Moves-mixed {R = Same} {T = Put path content} {U = Put path content}
                  (λ s t h. inl h) Same-Put next_calls
                  (λ c. if is_text old content then touch c else put path content c)
                  (record { at = λ s. refl }) (λ c. either-Put (is_text old content) c)))

    write_noted-Put : Moves (Put path content) (write_noted path content)
    unfolding write_noted
    write_noted-Put =
        Moves-mixed {R = Put path content} {T = Same} {U = Put path content} (λ s t h. h) Put-Same
          (atomic_file path content) _ atomic_file-Put (λ u. record { at = λ s. refl })

-- What may be overwritten: nothing, or a file that already has the content, or has one of those allowed,
-- or has the digest that the record has for the path.
pub data MayReplace ⦃p : Platform⦄ (path wanted : String) (allowed : List String) (s : Shelf)
    : Type 0 where
  no_file : lookup path s.files ≡ none → MayReplace path wanted allowed s
  same_content : lookup path s.files ≡ some wanted → MayReplace path wanted allowed s
  listed_content :
      (old : String)
      → lookup path s.files ≡ some old
      → contains old allowed ≡ true
      → MayReplace path wanted allowed s
  own_content :
      (old digest : String)
      → lookup path s.files ≡ some old
      → lookup path s.managed ≡ some digest
      → p.sha256_hex old ≡ digest
      → MayReplace path wanted allowed s

-- the files are the same, or one that may be replaced has the content that was wanted
pub data Owned ⦃p : Platform⦄ (path wanted : String) (allowed : List String) (s t : Shelf)
    : Type 0 where
  untouched : t.files ≡ s.files → Owned path wanted allowed s t
  replaced :
      t.files ≡ (path, wanted) ∷ s.files
      → MayReplace path wanted allowed s
      → Owned path wanted allowed s t

module _ ⦃p : Platform⦄ (path wanted : String) (allowed : List String) where
  Put-Owned :
      (s t : Shelf)
      → MayReplace path wanted allowed s
      → Put path wanted s t
      → Owned path wanted allowed s t
  Put-Owned s t may (inl same) = untouched same
  Put-Owned s t may (inr new) = replaced new may

  own_digest :
      (s : Shelf) (old : String) (known : Option String)
      → lookup path s.files ≡ some old
      → lookup path s.managed ≡ known
      → (not (recorded known == "") && p.sha256_hex old == recorded known) ≡ true
      → MayReplace path wanted allowed s
  own_digest s old none found was h = ground arith
  own_digest s old (some digest) found was h =
      own_content old digest found was (ground (arith, eq_iff (p.sha256_hex old) digest))

  accepted-MayReplace :
      (s : Shelf) (old : String)
      → lookup path s.files ≡ some old
      → acceptable_managed old wanted allowed (recorded (lookup path s.managed)) ≡ true
      → MayReplace path wanted allowed s
  unfolding acceptable_managed
  accepted-MayReplace s old found h = elim (Bool-cases (old == wanted)) [
    | inl same ↦
        let i : old ≡ wanted = (eq_iff old wanted).0 same in same_content (found ∙ rw i refl)
    | inr other ↦ elim (Bool-cases (contains old allowed)) [
      | inl listed ↦ listed_content old found listed
      | inr unlisted ↦
          own_digest s old (lookup path s.managed) found refl (rw (other, unlisted) at h)
    ]
  ]

  accepted-Owned :
      (s : Shelf) (old : String) (accepted unchanged : Bool)
      → lookup path s.files ≡ some old
      → acceptable_managed old wanted allowed (recorded (lookup path s.managed)) ≡ accepted
      → Owned path wanted allowed s
          ((refuse_if (not accepted) "refusing to overwrite changed/unmanaged file"
              >> (if unchanged
                  then note_digest path wanted >> pure false
                  else write_noted path wanted))
            s).1
  accepted-Owned s old false unchanged found refused = untouched refl
  accepted-Owned s old true true found fine = untouched refl
  accepted-Owned s old true false found fine =
      Put-Owned s _ (accepted-MayReplace s old found fine) ((write_noted-Put path wanted).at s)

  over-Owned :
      (s : Shelf) (old : Option String)
      → lookup path s.files ≡ old
      → Owned path wanted allowed s
          (write_over path wanted allowed (recorded (lookup path s.managed)) old s).1
  over-Owned s none found = Put-Owned s _ (no_file found) ((write_noted-Put path wanted).at s)
  over-Owned s (some old) found = accepted-Owned s old _ (old == wanted) found refl

  read-Owned :
      (s : Shelf) (trouble : Option String)
      → Owned path wanted allowed s
          (continue
            (read_result trouble (lookup path s.files))
            (write_over path wanted allowed (recorded (lookup path s.managed)))
            s).1
  read-Owned s none = over-Owned s (lookup path s.files) refl
  read-Owned s (some e) = untouched refl

  -- Whatever its result, `managedWrite` leaves all files alone, or gives its path the wanted content; the
  -- latter only where there was no file, or its content was the wanted one, one of those allowed, or the
  -- one whose digest the record has for the path.
  pub managed_write-Owned :
      (s : Shelf) → Owned path wanted allowed s (managed_write path wanted allowed s).1
  unfolding managed_write read_file
  managed_write-Owned s = read-Owned s (s.unreadable path)
