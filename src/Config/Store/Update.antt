-- ===== src/Config/Store/Update.antt =====
-- What `UpdateHost` of internal/config/config.go leaves in the file, whichever system calls fail.
use garm_provider_orbstack.Prelude.{
  ap, String, Bool, true, false, ◌≡◌, refl, ◌⊎◌, inl, inr, Option, some, none, List, [], ◌∷◌, not,
}
use garm_provider_orbstack.Error.{Error, Result}
use garm_provider_orbstack.Exec.{◌>>=◌, refuse_if}
use garm_provider_orbstack.Exec.Ensures.{Post, Ensures, ensures-bind, ensures-weaken}
use garm_provider_orbstack.Platform.{Platform}
use garm_provider_orbstack.Config.{Host}
use garm_provider_orbstack.Config.Validate.{is_abs}
use garm_provider_orbstack.Exec.{wrapping}
use garm_provider_orbstack.Config.Store.{
  Codec, HostDir, outcome, host_call, take_lock, lock_host, update_locked, update_host,
  after_rivals,
}
use garm_provider_orbstack.Config.Store.Load.{Holding}
use garm_provider_orbstack.Config.Store.Publish.{Published, update_locked-Done}

abbrev text_after : List (Option String → Option String) → Option String → Option String
text_after [] text = text
text_after (f ∷ rest) text = f text

-- the text of the file when the first lock on it is granted
abbrev pub locked_text : HostDir → Option String
locked_text d = text_after d.rivals d.text

module _ ⦃codec : Codec⦄ ⦃p : Platform⦄ (update : Host → Result Host) (start : HostDir) where
  -- the update is in the file
  abbrev pub Committed : Unit {0} → HostDir → Type 0
  Committed _ d =
      (text : String) × Published update (locked_text start) start.stat text
      × Holding (some text) start.stat d

  -- the file as this update found it, as it was when the lock was granted, or with the update
  abbrev pub Spared : Error → HostDir → Type 0
  Spared _ d = (d.text ≡ start.text) ⊎ ((d.text ≡ locked_text start) ⊎ Committed tt d)

  abbrev Waiting : HostDir → Type 0
  Waiting d = Holding start.text start.stat d × (d.rivals ≡ start.rivals)

  call-Waiting : (m : String) → Ensures Waiting (wrapping m host_call) (λ _. Waiting) Spared
  unfolding host_call
  call-Waiting m = record { at = λ d h. go d.faults d h }
    where
      go :
          (l : List (Option String)) (d : HostDir)
          → Waiting d
          → Post (λ _. Waiting) Spared (wrapping m (outcome l) d).0 (wrapping m (outcome l) d).1
      go [] d h = h
      go (none ∷ rest) d h = h
      go (some e ∷ rest) d h = inl h.0.0

  granted :
      (l : List (Option String → Option String)) (d : HostDir)
      → l ≡ start.rivals
      → Holding start.text start.stat d
      → Holding (locked_text start) start.stat (after_rivals l d)
  granted [] d i h = rw (← i) h
  granted (f ∷ rest) d i h = rw (← i) (ap f h.0, h.1)

  lock-Holding :
      (m : String)
      → Ensures Waiting (wrapping m lock_host) (λ _. Holding (locked_text start) start.stat) Spared
  unfolding lock_host host_call
  lock-Holding m = record { at = λ d h. go d.faults d h }
    where
      go :
          (l : List (Option String)) (d : HostDir)
          → Waiting d
          → Post
              (λ _. Holding (locked_text start) start.stat)
              Spared
              (wrapping m (outcome l >>= λ _. take_lock) d).0
              (wrapping m (outcome l >>= λ _. take_lock) d).1
      go [] d h = granted d.rivals d h.1 h.0
      go (none ∷ rest) d h = granted d.rivals (record d { faults = rest }) h.1 h.0
      go (some e ∷ rest) d h = inl h.0.0

  locked-Committed :
      Ensures (Holding (locked_text start) start.stat) (update_locked update) Committed Spared
  locked-Committed =
      ensures-weaken {E' = Spared} (update_locked update)
        (update_locked-Done (locked_text start) start.stat update) (λ _ _ k. k)
        (λ _ _ k. elim k [
          | inl kept ↦ inr (inl kept.0)
          | inr (text, published, k) ↦ inr (inr (text, published, k))
        ])

  update_host-Committed :
      (path : String) → Ensures (λ d. d ≡ start) (update_host path update) Committed Spared
  unfolding update_host
  update_host-Committed path =
      ensures-bind (refuse_if (not (is_abs path)) "host config path must be absolute") _
        (refused (not (is_abs path)))
        λ _.
          ensures-bind (wrapping "creating host config directory" host_call) _ (call-Waiting _) λ _.
            ensures-bind (wrapping "opening host config lock" host_call) _ (call-Waiting _) λ _.
              ensures-bind (wrapping "locking host config lock" lock_host)
                (λ _. update_locked update) (lock-Holding _) (λ _. locked-Committed)
    where
      refused :
          (b : Bool)
          → Ensures
              (λ d. d ≡ start)
              (refuse_if b "host config path must be absolute")
              (λ _. Waiting)
              Spared
      refused true = record { at = λ d i. inl (ap (λ d. d.text) i) }
      refused false = record {
        at = λ d i. ((ap (λ d. d.text) i, ap (λ d. d.stat) i), ap (λ d. d.rivals) i);
      }

  -- An update that succeeds has put a valid host into the file, made by the callback of a base: the host
  -- that the file held when the lock was granted, if that passes validation; the zero host, if there was
  -- no file; or the zero host too, if the validation of the file's host failed on a manifest that does not
  -- exist. An update that fails leaves the file as it found it, as it was when the lock was granted, or
  -- with the whole update in it, whichever system calls fail.
  pub update_host-all_or_nothing :
      (path : String)
      → Post Committed Spared (update_host path update start).0 (update_host path update start).1
  update_host-all_or_nothing path = (update_host-Committed path).at start refl
