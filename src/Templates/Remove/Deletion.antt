-- ===== src/Templates/Remove/Deletion.antt =====
-- The deletion that `Remove` of internal/templates/builder.go makes, and what follows it.
use garm_provider_orbstack.Prelude.{
  String, true, false, ◌≡◌, refl, sym, ap, ◌∙◌, List, ◌∷◌, some, lookup, ◌==◌,
}
use garm_provider_orbstack.Error.{Error, Result, ok, err}
use garm_provider_orbstack.Exec.{refuse_if, wrap, wrapping, continue}
use garm_provider_orbstack.Exec.Keeps.{Moves, Moves-bind}
use garm_provider_orbstack.Exec.Ensures.{Post, Ensures, ensures-pure, ensures-bind, ensures-nothing}
use garm_provider_orbstack.Platform.{Platform}
use garm_provider_orbstack.Disk.{Disk}
use garm_provider_orbstack.Disk.Laws.{acquire-held}
use garm_provider_orbstack.State.Record.{Record}
use garm_provider_orbstack.State.Registry.{open_registry, lock_template, template_lock, snapshot}
use garm_provider_orbstack.Orbstack.Client.{Orbctl, Session, delete}
use garm_provider_orbstack.Config.{Image, Host}
use garm_provider_orbstack.Config.Store.{Codec, update_host}
use garm_provider_orbstack.Config.Store.Load.{Base}
use garm_provider_orbstack.Templates.Manifest.{Manifest, load_manifest}
use garm_provider_orbstack.Templates.Builder.{differs}
use garm_provider_orbstack.Templates.Bench.Keeps.{
  SameSession, SameSession-Preorder, Moves-on_host, Moves-remove_manifest, Moves-wrapping,
}
use garm_provider_orbstack.Templates.Bench.{Bench, on_host, on_session, remove_manifest, stats_of}
use garm_provider_orbstack.Templates.Remove.{
  is_shared, in_use, deregister, forget_image, remove_drained,
}

module _ {S : Type 0} where
  -- OrbStack, the configuration and the manifests are as they were.
  abbrev pub Intact : Bench S → Bench S → Type 0
  Intact b b' =
      (b'.session ≡ b.session) × (b'.host.text ≡ b.host.text) × (b'.manifests ≡ b.manifests)

-- and the registry's directory has not been touched
module _ {S : Type 0} where
  abbrev pub Fresh : Bench S → Bench S → Type 0
  Fresh b b' = Intact b b' × (b'.disk ≡ b.disk)

abbrev pub HoldsLock : String → Disk → Type 0
HoldsLock path d = (locks : List String) × (d.held ≡ path ∷ locks)

pub wrap-eq-ok {ℓ} : {A : Type ℓ} (m : String) (r : Result A) {a : A} → wrap m r ≡ ok a → r ≡ ok a
wrap-eq-ok m (ok a) h = h
wrap-eq-ok m (err e) h = cc

module _ ⦃p : Platform⦄ where
  pub lock_template-held :
      (id : String)
      → Ensures
          (λ _. Unit {0})
          (lock_template id)
          (λ _. HoldsLock (template_lock id))
          (λ _ _. Unit {0})
  unfolding lock_template
  lock_template-held id =
      ensures-bind (refuse_if (id == "") "empty template lock target") _ (ensures-nothing _)
        (λ _. acquire-held (template_lock id) true false true)

  pub open_registry-controller :
      (controller : String)
      → Ensures
          (λ _. Unit {0})
          (open_registry controller)
          (λ reg _. reg.controller_id ≡ controller)
          (λ _ _. Unit {0})
  unfolding open_registry
  open_registry-controller controller =
      ensures-bind (refuse_if (controller == "") "registry requires controller identity") _
        (ensures-nothing _)
        λ _.
          ensures-bind (snapshot controller) _ (ensures-nothing (snapshot controller))
            λ _. ensures-pure _ (λ _ _. refl)

module _ {S : Type 0} ⦃p : Platform⦄ (start : Bench S) where
  -- the registry's directory after it was opened, and after the template's lock was asked for
  abbrev pub opened : Host → Disk
  opened host = (open_registry host.controller_id start.disk).1

  abbrev pub at_lock : Host → Image → Disk
  at_lock host image = (lock_template image.machine_id (opened host)).1

module _ {S : Type 0} ⦃codec : Codec⦄ ⦃p : Platform⦄ (start : Bench S) where
  -- What was found before the deletion of a template's machine: the configuration holds the image, it
  -- agrees with its manifest, no other image names its machine or manifest, and in the registry, as it
  -- is when the lock of the template has been granted, no record of the controller uses the image.
  pub record Authorized (id : String) (host : Host) (image : Image) : Type 0 where
    pub base : Base start.host.text (stats_of start.manifests) host
    pub registered : lookup id host.images ≡ some image
    pub manifest : Manifest
    pub loads : load_manifest (start.manifests image.manifest_path) ≡ ok manifest
    pub agrees : differs id image manifest ≡ false
    pub alone : is_shared id image host.images ≡ false
    pub granted : (lock_template image.machine_id (opened start host)).0 ≡ ok tt
    pub locks : List String
    pub held : (at_lock start host image).held ≡ template_lock image.machine_id ∷ locks
    pub records : List Record
    pub drained : (snapshot host.controller_id (at_lock start host image)).0 ≡ ok records
    pub unused : in_use id records ≡ false

module _ {S : Type 0} (orbctl : Orbctl S) (start : Bench S) where
  abbrev pub deletion : Host → Image → Result (Unit {0}) × Session S
  deletion host image = delete orbctl host.orbctl_path image.machine_id start.session

  -- One deletion was asked of OrbStack, and where it failed the image is still registered.
  pub record Deleted (host : Host) (image : Image) (b : Bench S) : Type 0 where
    pub session : b.session ≡ (deletion host image).1
    pub after_failure :
        (e : Error)
        → (deletion host image).0 ≡ err e
        → (b.host.text ≡ start.host.text) × (b.manifests ≡ start.manifests)

module _ {S : Type 0} ⦃codec : Codec⦄ ⦃p : Platform⦄ (orbctl : Orbctl S) (config_path : String)
    (start : Bench S) where
  Moves-forget_image :
      (id : String) (image : Image) → Moves SameSession (forget_image orbctl config_path id image)
  unfolding forget_image
  Moves-forget_image id image =
      Moves-bind SameSession-Preorder
        (wrapping "machine already deleted; re-run template remove to converge"
          (on_host (update_host config_path (deregister id))))
        (λ _.
          wrapping "template deregistered but manifest remains"
            (remove_manifest image.manifest_path))
        (Moves-wrapping _ _ (Moves-on_host _))
        (λ _. Moves-wrapping _ _ (Moves-remove_manifest image.manifest_path))

  pub remove_drained-Deleted :
      (id : String) (host : Host) (image : Image)
      → Ensures
          (Intact start)
          (remove_drained orbctl config_path id host image)
          (λ _ b.
            Deleted orbctl start host image b × ((deletion orbctl start host image).0 ≡ ok tt))
          (λ _ b. Deleted orbctl start host image b)
  unfolding remove_drained on_session
  remove_drained-Deleted id host image = record {
    at = λ b (session, text, manifests).
        go (delete orbctl host.orbctl_path image.machine_id b.session).0
          (record b { session = (delete orbctl host.orbctl_path image.machine_id b.session).1 })
          (ap (λ s. (delete orbctl host.orbctl_path image.machine_id s).0) session)
          (ap (λ s. (delete orbctl host.orbctl_path image.machine_id s).1) session) text manifests;
  }
    where
      either :
          (r : Result (Unit {0})) (b : Bench S)
          → Deleted orbctl start host image b
          → ((deletion orbctl start host image).0 ≡ ok tt)
          → Post
              (λ _ b.
                Deleted orbctl start host image b × ((deletion orbctl start host image).0 ≡ ok tt))
              (λ _ b. Deleted orbctl start host image b)
              r
              b
      either (ok _) b d i = (d, i)
      either (err e) b d i = d

      go :
          (r : Result (Unit {0})) (b : Bench S)
          → r ≡ (deletion orbctl start host image).0
          → b.session ≡ (deletion orbctl start host image).1
          → b.host.text ≡ start.host.text
          → b.manifests ≡ start.manifests
          → Post
              (λ _ b.
                Deleted orbctl start host image b × ((deletion orbctl start host image).0 ≡ ok tt))
              (λ _ b. Deleted orbctl start host image b)
              (continue
                (wrap "deleting template machine (image stays registered)" r)
                (λ _. forget_image orbctl config_path id image)
                b).0
              (continue
                (wrap "deleting template machine (image stays registered)" r)
                (λ _. forget_image orbctl config_path id image)
                b).1
      go (ok _) b i session text manifests =
          either (forget_image orbctl config_path id image b).0
            (forget_image orbctl config_path id image b).1
            (record {
              session = (Moves-forget_image id image).at b ∙ session;
              after_failure = λ e failed. cc (i, failed);
            })
            (sym i)
      go (err e) b i session text manifests = record {
        session = session;
        after_failure = λ _ _. (text, manifests);
      }
