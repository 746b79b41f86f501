-- ===== src/Config/Store/Publish.antt =====
-- What `UpdateHost` of internal/config/config.go does under its lock, whichever system calls fail.
use garm_provider_orbstack.Prelude.{ap, String, ◌≡◌, refl, sym, ◌⊎◌, inl, inr, Option, some}
use garm_provider_orbstack.Error.{Error, Result, ok, err}
use garm_provider_orbstack.Exec.{Exec, lift, attempt, ◌>>=◌}
use garm_provider_orbstack.Exec.Ensures.{
  Post, Ensures, ensures-bind, ensures-weaken, ensures-attempt, ensures-known,
}
use garm_provider_orbstack.Platform.{Platform}
use garm_provider_orbstack.Config.{Host}
use garm_provider_orbstack.Config.Validate.{validate_host}
use garm_provider_orbstack.Exec.{wrapping, wrap}
use garm_provider_orbstack.Config.Store.{
  Codec, HostDir, host_call, to_toml, load_host, current_host, publish_update, write_host_atomic,
  update_locked, write_text, publish_text,
}
use garm_provider_orbstack.Config.Store.Load.{
  Holding, Base, host_call-Holding, load_host-Holding, current_host-Loaded,
}

module _ ⦃codec : Codec⦄ ⦃p : Platform⦄ where
  -- A text that the update publishes: the encoding of a valid host that the callback has made of the
  -- host that the file held.
  pub record Published (update : Host → Result Host) (t : Option String)
      (s : String → Result (Unit {0})) (text : String) : Type 0 where
    pub before : Host
    pub after : Host
    pub base : Base t s before
    pub updated : update before ≡ ok after
    pub valid : validate_host s after ≡ ok tt
    pub encoded : codec.encode (to_toml after) ≡ ok text

  module _ (t : Option String) (s : String → Result (Unit {0})) where
    -- what a failed update leaves: the file as it was, or the text that it was to publish
    abbrev pub Left : (String → Type 0) → Error → HostDir → Type 0
    Left P e d = Holding t s d ⊎ ((text : String) × P text × Holding (some text) s d)

    abbrev pub Done : (String → Type 0) → Unit {0} → HostDir → Type 0
    Done P _ d = (text : String) × P text × Holding (some text) s d

    -- the steps of `write_text` before the rename, after it, and the rename
    abbrev Written : String → Exec HostDir (Unit {0}) → Type 0
    Written text m = Ensures (Holding t s) m (λ _. Holding (some text) s) (Left (λ u. u ≡ text))

    before_rename :
        (text m : String) {k : Exec HostDir (Unit {0})}
        → Written text k
        → Written text (wrapping m host_call >>= λ _. k)
    before_rename text m {k} h =
        ensures-bind _ (λ _. k)
          (ensures-weaken (wrapping m host_call) (host_call-Holding t s m) (λ _ _ h. h)
            (λ _ _ h. inl h))
          (λ _. h)

    synced :
        (text m : String)
        → Ensures
            (Holding (some text) s)
            (wrapping m host_call)
            (λ _. Holding (some text) s)
            (Left (λ u. u ≡ text))
    synced text m =
        ensures-weaken (wrapping m host_call) (host_call-Holding (some text) s m) (λ _ _ h. h)
          (λ _ _ h. inr (text, refl, h))

    write_text-Written : (text : String) → Written text (write_text text)
    unfolding write_text
    write_text-Written text =
        let sync = λ (m : String). synced text m in
        let renamed : Written text _ =
          ensures-bind (publish_text text) _ (record { at = λ d h. (refl, h.1) })
            (λ _.
              ensures-bind (wrapping "opening host config directory for fsync" host_call)
                (λ _. wrapping "fsyncing host config directory" host_call)
                (sync "opening host config directory for fsync")
                (λ _. sync "fsyncing host config directory")) in
        before_rename text "creating host config temp file" (
          before_rename text "setting host config permissions" (
            before_rename text "writing host config temp file" (
              before_rename text "syncing host config temp file" (
                before_rename text "closing host config temp file"
                  (before_rename text "publishing host config" renamed)))))

    write_host_atomic-Holding :
        (host : Host) (P : String → Type 0)
        → ((text : String) → codec.encode (to_toml host) ≡ ok text → P text)
        → Ensures (Holding t s) (write_host_atomic host) (Done P) (Left P)
    unfolding write_host_atomic
    write_host_atomic-Holding host P encodes = record {
      at = go (codec.encode (to_toml host)) encodes;
    }
      where
        go :
            (r : Result String)
            → ((text : String) → r ≡ ok text → P text)
            → (d : HostDir) → Holding t s d
            → Post
                (Done P)
                (Left P)
                ((wrapping "encoding host config" (lift r) >>= write_text) d).0
                ((wrapping "encoding host config" (lift r) >>= write_text) d).1
        go (err e) encoded d h = inl h
        go (ok text) encoded d h =
            (ensures-weaken {E' = Left P} (write_text text) (write_text-Written text)
                (λ _ _ k. (text, encoded text refl, k))
                (λ e d' k. elim k [
                  | inl kept ↦ inl kept
                  | inr (u, same, k) ↦ inr (u, encoded u (ap ok (sym same)), k)
                ])).at
              d h

    wrapped-Holding :
        (m : String) (r : Result Host) (P : String → Type 0)
        → Ensures (Holding t s) (wrapping m (lift r)) (λ a d. Holding t s d × (r ≡ ok a)) (Left P)
    wrapped-Holding m r P = record { at = λ d h. go r d h }
      where
        go :
            (r : Result Host) (d : HostDir)
            → Holding t s d
            → Post (λ a d. Holding t s d × (r ≡ ok a)) (Left P) (wrap m r) d
        go (ok a) d h = (h, refl)
        go (err e) d h = inl h

    module _ (update : Host → Result Host) where
      abbrev Publish : String → Type 0
      Publish = Published update t s

      validated-Done :
          (before after : Host)
          → Base t s before
          → update before ≡ ok after
          → Ensures
              (Holding t s)
              ((λ d. (validate_host d.stat after, d)) >>= λ _. write_host_atomic after)
              (Done Publish)
              (Left Publish)
      validated-Done before after base updated =
          ensures-bind (λ d. (validate_host d.stat after, d)) (λ _. write_host_atomic after)
            (ensures-weaken (λ d. (validate_host d.stat after, d))
              (ensures-known (Holding t s) (λ d. validate_host d.stat after) (validate_host s after)
                (λ d h. rw (h.1) refl))
              (λ _ _ h. h) (λ _ _ h. inl h.0))
            (λ _. record {
              at = λ d (h, valid).
                  (write_host_atomic-Holding after Publish (λ text encoded. record {
                    before = before;
                    after = after;
                    base = base;
                    updated = updated;
                    valid = valid;
                    encoded = encoded;
                  })).at
                    d h;
            })

      publish_update-Done :
          (before : Host)
          → Base t s before
          → Ensures (Holding t s) (publish_update update before) (Done Publish) (Left Publish)
      unfolding publish_update
      publish_update-Done before base =
          ensures-bind (wrapping "host config update callback" (lift (update before)))
            (λ after. (λ d. (validate_host d.stat after, d)) >>= λ _. write_host_atomic after)
            (wrapped-Holding "host config update callback" (update before) Publish)
            (λ after. record {
              at = λ d (h, updated). (validated-Done before after base updated).at d h;
            })

      pub update_locked-Done :
          Ensures (Holding t s) (update_locked update) (Done Publish) (Left Publish)
      unfolding update_locked
      update_locked-Done =
          ensures-bind (attempt load_host) (λ found. current_host found >>= publish_update update)
            (ensures-attempt load_host (load_host-Holding t s))
            λ found.
              ensures-bind (current_host found) (publish_update update)
                (ensures-weaken (current_host found) (record { at = current_host-Loaded t s found })
                  (λ _ _ h. h) (λ _ _ h. inl h))
                (λ before. record { at = λ d (h, base). (publish_update-Done before base).at d h })
