-- ===== src/Templates/Remove/Locked.antt =====
-- `Remove` of internal/templates/builder.go under the lock of the template.
use garm_provider_orbstack.Prelude.{
  String, Bool, true, false, ◌≡◌, refl, ◌⊎◌, inl, inr, List, ◌∷◌, some, lookup,
}
use garm_provider_orbstack.Error.{Error, Result, ok, err}
use garm_provider_orbstack.Exec.{Exec, ◌>>=◌, ◌>>◌, refuse_if}
use garm_provider_orbstack.Exec.Ensures.{Post, Ensures, ensures-bind, ensures-weaken, success}
use garm_provider_orbstack.Platform.{Platform}
use garm_provider_orbstack.Disk.{Disk, close_lock}
use garm_provider_orbstack.State.Record.{Record}
use garm_provider_orbstack.State.Registry.{
  Registry, open_registry, lock_template, template_lock, snapshot,
}
use garm_provider_orbstack.Orbstack.Client.{Orbctl}
use garm_provider_orbstack.Config.{Image, Host}
use garm_provider_orbstack.Config.Store.{Codec}
use garm_provider_orbstack.Config.Store.Load.{Base}
use garm_provider_orbstack.Templates.Manifest.{Manifest, load_manifest}
use garm_provider_orbstack.Templates.Builder.{differs}
use garm_provider_orbstack.Templates.Bench.{Bench, on_registry, closing, stats_of}
use garm_provider_orbstack.Templates.Remove.{
  is_shared, in_use, remove_drained, remove_locked, remove_registered,
}
use garm_provider_orbstack.Templates.Remove.Deletion.{
  Intact, Fresh, HoldsLock, opened, at_lock, lock_template-held, open_registry-controller,
  Authorized, deletion, Deleted, remove_drained-Deleted,
}

module _ {S : Type 0} ⦃codec : Codec⦄ ⦃p : Platform⦄ (orbctl : Orbctl S) (start : Bench S) where
  -- Either nothing was asked of OrbStack, or one deletion was, of a machine that passed the checks.
  abbrev pub Stopped : String → Error → Bench S → Type 0
  Stopped id _ b =
      Intact start b
      ⊎ ((host : Host) × (image : Image) × Authorized start id host image
          × Deleted orbctl start host image b)

  abbrev pub Removed : String → Unit {0} → Bench S → Type 0
  Removed id _ b =
      (host : Host) × (image : Image) × Authorized start id host image
      × Deleted orbctl start host image b
      × ((deletion orbctl start host image).0 ≡ ok tt)

  unlocked :
      (path : String) (host : Host) (image : Image) (b : Bench S)
      → Deleted orbctl start host image b
      → Deleted orbctl start host image (record b { disk = (close_lock path b.disk).1 })
  unlocked path host image b d = record { session = d.session; after_failure = d.after_failure }

module _ {S : Type 0} (start : Bench S) where
  -- the registration agrees with the manifest, and no other image shares what it names
  pub record Agreeing (id : String) (host : Host) (image : Image) : Type 0 where
    pub manifest : Manifest
    pub loads : load_manifest (start.manifests image.manifest_path) ≡ ok manifest
    pub agrees : differs id image manifest ≡ false
    pub alone : is_shared id image host.images ≡ false

module _ {S : Type 0} ⦃codec : Codec⦄ ⦃p : Platform⦄ (start : Bench S) where
  -- the checks up to the lock
  pub record Checked (id : String) (host : Host) (image : Image) : Type 0 where
    pub base : Base start.host.text (stats_of start.manifests) host
    pub registered : lookup id host.images ≡ some image
    pub agreeing : Agreeing start id host image

module _ {S : Type 0} ⦃codec : Codec⦄ ⦃p : Platform⦄ (orbctl : Orbctl S) (config_path : String)
    (start : Bench S) where
  -- the directory of the registry is this one
  abbrev At : Disk → Bench S → Type 0
  At d b = Intact start b × (b.disk ≡ d)

  -- an operation of the registry leaves the rest, and does there what it does
  module _ (id : String) where
    on_registry-At :
        {A : Type 0} (d : Disk) (m : Exec Disk A)
        → Ensures
            (At d)
            (on_registry m)
            (λ a b. At (m d).1 b × ((m d).0 ≡ ok a))
            (Stopped orbctl start id)
    unfolding on_registry
    on_registry-At {A} d m = record {
      at = λ b (intact, same). rw (← same) (go (m b.disk).0 (m b.disk).1 b intact);
    }
      where
        go :
            (r : Result A) (e : Disk) (b : Bench S)
            → Intact start b
            → Post (λ a c. At e c × (r ≡ ok a)) (Stopped orbctl start id) r (record b { disk = e })
        go (ok a) e b intact = ((intact, refl), refl)
        go (err x) e b intact = inl intact

  module _ (id : String) (host : Host) (image : Image) (checked : Checked start id host image) where
    -- the template's lock is granted and held
    record Granted : Type 0 where
      done : (lock_template image.machine_id (opened start host)).0 ≡ ok tt
      locks : List String
      pub holds : (at_lock start host image).held ≡ template_lock image.machine_id ∷ locks

    abbrev Locked : Bench S → Type 0
    Locked b = At (at_lock start host image) b × Granted

    abbrev Counted : List Record → Bench S → Type 0
    Counted records b =
        Intact start b
        × Granted
        × ((snapshot host.controller_id (at_lock start host image)).0 ≡ ok records)

    authorized :
        (records : List Record)
        → Granted
        → (snapshot host.controller_id (at_lock start host image)).0 ≡ ok records
        → in_use id records ≡ false
        → Authorized start id host image
    authorized records granted drained unused = record {
      base = checked.base;
      registered = checked.registered;
      manifest = checked.agreeing.manifest;
      loads = checked.agreeing.loads;
      agrees = checked.agreeing.agrees;
      alone = checked.agreeing.alone;
      granted = granted.done;
      locks = granted.locks;
      held = granted.holds;
      records = records;
      drained = drained;
      unused = unused;
    }

    snapshot-Counted :
        Ensures Locked (on_registry (snapshot host.controller_id)) Counted (Stopped orbctl start id)
    snapshot-Counted = record {
      at = λ b (here, granted).
          go (on_registry (snapshot host.controller_id) b).0
            (on_registry (snapshot host.controller_id) b).1 granted
            ((on_registry-At id (at_lock start host image) (snapshot host.controller_id)).at b
              here);
    }
      where
        go :
            (r : Result (List Record)) (b : Bench S)
            → Granted
            → Post
                (λ records c.
                  At (snapshot host.controller_id (at_lock start host image)).1 c
                  × ((snapshot host.controller_id (at_lock start host image)).0 ≡ ok records))
                (Stopped orbctl start id)
                r
                b
            → Post Counted (Stopped orbctl start id) r b
        go (ok records) b granted (here, read) = (here.0, granted, read)
        go (err e) b granted h = h

    drained-Removed :
        (records : List Record)
        → Ensures
            (Counted records)
            (refuse_if (in_use id records) "a runner still uses the image" >>= λ _.
              remove_drained orbctl config_path id host image)
            (Removed orbctl start id)
            (Stopped orbctl start id)
    drained-Removed records = record {
      at = λ b (intact, granted, read).
          go (in_use id records) b intact (authorized records granted read);
    }
      where
        go :
            (used : Bool) (b : Bench S)
            → Intact start b
            → (used ≡ false → Authorized start id host image)
            → Post
                (Removed orbctl start id)
                (Stopped orbctl start id)
                ((refuse_if used "a runner still uses the image" >>= λ _.
                    remove_drained orbctl config_path id host image)
                  b).0
                ((refuse_if used "a runner still uses the image" >>= λ _.
                    remove_drained orbctl config_path id host image)
                  b).1
        go true b intact auth = inl intact
        go false b intact auth =
            (ensures-weaken {Q' = Removed orbctl start id} {E' = Stopped orbctl start id}
                (remove_drained orbctl config_path id host image)
                (remove_drained-Deleted orbctl config_path start id host image)
                (λ _ _ (deleted, done). (host, image, auth refl, deleted, done))
                (λ _ _ deleted. inr (host, image, auth refl, deleted))).at
              b intact

    remove_locked-Removed :
        (reg : Registry)
        → reg.controller_id ≡ host.controller_id
        → Ensures Locked
            (remove_locked orbctl config_path id host image reg)
            (Removed orbctl start id)
            (Stopped orbctl start id)
    unfolding remove_locked
    remove_locked-Removed reg same = rw same (
        ensures-bind (on_registry (snapshot host.controller_id)) _ snapshot-Counted
          (λ records. drained-Removed records))

    closing-Removed :
        (path : String) (body : Exec (Bench S) (Unit {0}))
        → Ensures Locked body (Removed orbctl start id) (Stopped orbctl start id)
        → Ensures Locked (closing path body) (Removed orbctl start id) (Stopped orbctl start id)
    unfolding closing
    closing-Removed path body h = record {
      at = λ b locked. go (body b).0 (body b).1 (h.at b locked);
    }
      where
        go :
            (r : Result (Unit {0})) (b : Bench S)
            → Post (Removed orbctl start id) (Stopped orbctl start id) r b
            → Post
                (Removed orbctl start id)
                (Stopped orbctl start id)
                r
                (record b { disk = (close_lock path b.disk).1 })
        go (ok _) b (found_host, found_image, auth, deleted, done) = (
          found_host,
          found_image,
          auth,
          unlocked orbctl start path found_host found_image b deleted,
          done,
        )
        go (err e) b (inl intact) = inl intact
        go (err e) b (inr (found_host, found_image, auth, deleted)) = inr (
          found_host,
          found_image,
          auth,
          unlocked orbctl start path found_host found_image b deleted,
        )

    granted-lock :
        (lock_template image.machine_id (opened start host)).0 ≡ ok tt
        → HoldsLock (template_lock image.machine_id) (at_lock start host image)
        → Granted
    granted-lock done (locks, holds) = record { done = done; locks = locks; holds = holds }

    lock-Locked :
        Ensures
          (At (opened start host))
          (on_registry (lock_template image.machine_id))
          (λ _. Locked)
          (Stopped orbctl start id)
    lock-Locked =
        ensures-weaken (on_registry (lock_template image.machine_id))
          (on_registry-At id (opened start host) (lock_template image.machine_id))
          (λ _ b (here, done). (
            here,
            granted-lock done (
                success (λ _. HoldsLock (template_lock image.machine_id))
                  (lock_template image.machine_id (opened start host)).0 (at_lock start host image)
                  ((lock_template-held image.machine_id).at (opened start host) tt) done),
          ))
          (λ _ _ h. h)

    locked : Registry → Exec (Bench S) (Unit {0})
    locked reg =
        on_registry (lock_template image.machine_id)
        >> closing (template_lock image.machine_id)
            (remove_locked orbctl config_path id host image reg)

    pub remove_registered-Removed :
        Ensures
          (Fresh start)
          (remove_registered orbctl config_path id host image)
          (Removed orbctl start id)
          (Stopped orbctl start id)
    unfolding remove_registered locked
    remove_registered-Removed =
        ensures-bind (on_registry (open_registry host.controller_id)) (λ reg. locked reg)
          (on_registry-At id start.disk (open_registry host.controller_id))
          (λ reg. record {
            at = λ b (here, done).
                (ensures-bind (on_registry (lock_template image.machine_id)) _ lock-Locked (λ _.
                    closing-Removed _ _ (
                      remove_locked-Removed reg (
                        success (λ (r : Registry) (d : Disk). r.controller_id ≡ host.controller_id)
                          (open_registry host.controller_id start.disk).0 (opened start host)
                          ((open_registry-controller host.controller_id).at start.disk tt)
                          done)))).at
                  b here;
          })
