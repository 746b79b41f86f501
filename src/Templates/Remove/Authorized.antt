-- ===== src/Templates/Remove/Authorized.antt =====
-- What `Remove` of internal/templates/builder.go checks before it deletes a machine, and what it
-- leaves where it stops.
use garm_provider_orbstack.Prelude.{
  String, Bool, true, false, ◌≡◌, refl, ap, inl, Option, none, some, lookup, ◌==◌, arith,
}
use garm_provider_orbstack.Error.{Result, ok, err}
use garm_provider_orbstack.Exec.{Exec, ◌>>◌, refuse_if, wrap}
use garm_provider_orbstack.Exec.Ensures.{
  Post, Ensures, ensures-bind, ensures-weaken, ensures-lift, ensures-known,
}
use garm_provider_orbstack.Platform.{Platform}
use garm_provider_orbstack.Orbstack.Client.{Orbctl}
use garm_provider_orbstack.Config.{Image, Host}
use garm_provider_orbstack.Config.Store.{Codec, HostDir, load_host}
use garm_provider_orbstack.Config.Store.Load.{Base, Loaded, Failed, load_host-Holding}
use garm_provider_orbstack.Templates.Manifest.{Manifest, ManifestFile, load_manifest}
use garm_provider_orbstack.Templates.Builder.{differs}
use garm_provider_orbstack.Templates.Bench.{Bench, on_host, stats_of, seen_host}
use garm_provider_orbstack.Templates.Remove.{
  is_shared, check_registration, remove_registered, remove, registered_image,
}
use garm_provider_orbstack.Templates.Remove.Deletion.{Fresh, wrap-eq-ok}
use garm_provider_orbstack.Templates.Remove.Locked.{
  Stopped, Removed, Agreeing, remove_registered-Removed,
}

module _ {S : Type 0} ⦃codec : Codec⦄ ⦃p : Platform⦄ (orbctl : Orbctl S) (config_path : String)
    (start : Bench S) where
  module _ (id : String) (host : Host) (image : Image) where
    abbrev Examined : Unit {0} → Bench S → Type 0
    Examined _ b = Fresh start b × Agreeing start id host image

    abbrev Read : Manifest → Bench S → Type 0
    Read m b =
        Fresh start b × (wrap "image" (load_manifest (start.manifests image.manifest_path)) ≡ ok m)

    manifest-Read :
        Ensures
          (Fresh start)
          (λ b. (wrap "image" (load_manifest (b.manifests image.manifest_path)), b))
          Read
          (Stopped orbctl start id)
    manifest-Read =
        ensures-weaken _
          (ensures-known (Fresh start) _
            (wrap "image" (load_manifest (start.manifests image.manifest_path)))
            (λ b intact.
              ap
                (λ (m : String → ManifestFile).
                  wrap "image" (load_manifest (m image.manifest_path)))
                intact.0.2))
          (λ _ _ h. h) (λ _ _ h. inl h.0.0)

    abbrev compared : Manifest → Exec (Bench S) (Unit {0})
    compared m =
        refuse_if (differs id image m) "registration differs from its manifest; refusing to delete"
        >> refuse_if (is_shared id image host.images)
            "image shares its machine or manifest; refusing"

    compared-Examined :
        (m : Manifest) → Ensures (Read m) (compared m) Examined (Stopped orbctl start id)
    compared-Examined m = record {
      at = λ b (intact, read).
          go (differs id image m) (is_shared id image host.images) b intact (λ agrees alone.
            record {
              manifest = m;
              loads = wrap-eq-ok "image" (load_manifest (start.manifests image.manifest_path)) read;
              agrees = agrees;
              alone = alone;
            });
    }
      where
        go :
            (other shared : Bool) (b : Bench S)
            → Fresh start b
            → (other ≡ false → shared ≡ false → Agreeing start id host image)
            → Post Examined
                (Stopped orbctl start id)
                ((refuse_if other "registration differs from its manifest; refusing to delete"
                    >> refuse_if shared "image shares its machine or manifest; refusing")
                  b).0
                ((refuse_if other "registration differs from its manifest; refusing to delete"
                    >> refuse_if shared "image shares its machine or manifest; refusing")
                  b).1
        go true shared b intact agreeing = inl intact.0
        go false true b intact agreeing = inl intact.0
        go false false b intact agreeing = (intact, agreeing refl refl)

    check_registration-Examined :
        Ensures (Fresh start) (check_registration id host image) Examined (Stopped orbctl start id)
    unfolding check_registration
    check_registration-Examined =
        ensures-bind (λ b. (wrap "image" (load_manifest (b.manifests image.manifest_path)), b))
          compared manifest-Read compared-Examined

  module _ (id : String) where
    abbrev Found : Host → Bench S → Type 0
    Found host b = Fresh start b × Base start.host.text (stats_of start.manifests) host

    load-Found : Ensures (Fresh start) (on_host load_host) Found (Stopped orbctl start id)
    unfolding on_host
    load-Found = record {
      at = λ b intact. go (load_host (seen_host b)).0 (load_host (seen_host b)).1 b intact (
          (load_host-Holding start.host.text (stats_of start.manifests)).at (seen_host b)
            (intact.0.1, ap stats_of intact.0.2));
    }
      where
        go :
            (r : Result Host) (h : HostDir) (b : Bench S)
            → Fresh start b
            → Post
                (Loaded start.host.text (stats_of start.manifests))
                (Failed start.host.text (stats_of start.manifests))
                r
                h
            → Post Found (Stopped orbctl start id) r (record b { host = h })
        go (ok host) h b intact (held, base) = (((intact.0.0, held.0, intact.0.2), intact.1), base)
        go (err e) h b intact (held, _) = inl (intact.0.0, held.0, intact.0.2)

    chosen-Removed :
        (host : Host) (image : Image)
        → Base start.host.text (stats_of start.manifests) host
        → lookup id host.images ≡ some image
        → Ensures
            (Fresh start)
            (check_registration id host image >> remove_registered orbctl config_path id host image)
            (Removed orbctl start id)
            (Stopped orbctl start id)
    chosen-Removed host image base registered =
        ensures-bind (check_registration id host image)
          (λ _. remove_registered orbctl config_path id host image)
          (check_registration-Examined id host image)
          (λ _. record {
            at = λ b (intact, agreeing).
                (remove_registered-Removed orbctl config_path start id host image
                    (record { base = base; registered = registered; agreeing = agreeing })).at
                  b intact;
          })

    registered_image-some :
        (found : Option Image) {image : Image}
        → registered_image found ≡ ok image
        → found ≡ some image
    registered_image-some none h = cc
    registered_image-some (some image) h = ground arith

    remove-Ensures :
        Ensures
          (Fresh start)
          (remove orbctl config_path id)
          (Removed orbctl start id)
          (Stopped orbctl start id)
    unfolding remove
    remove-Ensures =
        ensures-bind (refuse_if (id == "") "image ID is required") _ (named (id == "")) λ _.
          ensures-bind (on_host load_host) _ load-Found λ host. record {
            at = λ b (intact, base).
                (ensures-lift (registered_image (lookup id host.images)) _
                    (λ image found.
                      chosen-Removed host image base
                        (registered_image-some (lookup id host.images) found))
                    (λ _ _ _ h. inl h.0)).at
                  b intact;
          }
      where
        named :
            (empty : Bool)
            → Ensures
                (Fresh start)
                (refuse_if empty "image ID is required")
                (λ _. Fresh start)
                (Stopped orbctl start id)
        named true = record { at = λ b h. inl h.0 }
        named false = record { at = λ b h. h }

    -- `Remove` asks nothing of OrbStack but one deletion, of a machine that the configuration holds
    -- under the image ID, whose registration agrees with its manifest, whose machine and manifest no
    -- other image names, and whose image no record used that the registry has for the controller when the
    -- template's lock has been granted. Where it stops before that, or the deletion fails, the configuration and
    -- the manifests are as they were, so the image stays registered; it succeeds only after the deletion has.
    pub remove-Authorized :
        Post
          (Removed orbctl start id)
          (Stopped orbctl start id)
          (remove orbctl config_path id start).0
          (remove orbctl config_path id start).1
    remove-Authorized = remove-Ensures.at start ((refl, refl, refl), refl)
