-- ===== src/Templates/Build/Committed.antt =====
-- What `Build` and `RegisterImage` of internal/templates/builder.go leave where they succeed.
use garm_provider_orbstack.Templates.Recipe.{Toolbox, recipe}
use garm_provider_orbstack.Prelude.{some, String, false, ◌≡◌, refl, eq_refl, inl, inr, Bool-cases}
use garm_provider_orbstack.Error.{Error, Result, ok, err}
use garm_provider_orbstack.Exec.{Exec, lift, continue, ◌>>=◌, wrap, wrapping}
use garm_provider_orbstack.Exec.Ensures.{
  Post, Ensures, ensures-pure, ensures-bind, ensures-nothing, ensures-lift, success,
}
use garm_provider_orbstack.Platform.{Platform}
use garm_provider_orbstack.Orbstack.Client.{Orbctl, version}
use garm_provider_orbstack.Config.{Host}
use garm_provider_orbstack.Config.Store.{Codec, HostDir, host_call, load_host, update_host}
use garm_provider_orbstack.Config.Validate.{validate_host}
use garm_provider_orbstack.Config.Store.{to_toml}
use garm_provider_orbstack.Config.Store.Load.{Base}
use garm_provider_orbstack.Config.Store.Publish.{Published}
use garm_provider_orbstack.Config.Store.Update.{
  Committed, Spared, locked_text, update_host-all_or_nothing,
}
use garm_provider_orbstack.Exec.Keeps.{Moves, Moves-lift}
use garm_provider_orbstack.Templates.Build.Steady.{
  SameFile, Steady, Steady-Preorder, chained, Moves-host_call, Moves-load_host, on_host-Steady,
  on_session-Steady, draw-Steady, write_manifest-Steady,
}
use garm_provider_orbstack.Templates.Manifest.{Manifest, decoded, validate_manifest}
use garm_provider_orbstack.Templates.Builder.{
  BuildOptions, validate_options, image_of, register_update,
}
use garm_provider_orbstack.Templates.Builder.Registered.{Registered, register_update-Registered}
use garm_provider_orbstack.Templates.Bench.{
  Bench, on_host, on_session, seen_host, write_manifest, link_manifest, is_absent, stats_of,
}
use garm_provider_orbstack.Templates.Build.{
  draw_nonce, make_machine, manifest_path_of, register_image, commit_template, build,
}

module _ {S : Type 0} where
  abbrev Stored : String → Manifest → Bench S → Type 0
  Stored path m b = b.manifests path ≡ decoded m false

  abbrev Nothing : Error → Bench S → Type 0
  Nothing _ _ = Unit {0}

  on_host-Stored :
      {A : Type 0} (path : String) (m : Manifest) (act : Exec HostDir A)
      → Ensures (Stored path m) (on_host act) (λ _. Stored path m) Nothing
  unfolding on_host
  on_host-Stored {A} path m act = record {
    at = λ b h. go (act (seen_host b)).0 (act (seen_host b)).1 b h;
  }
    where
      go :
          (r : Result A) (d : HostDir) (b : Bench S)
          → Stored path m b
          → Post (λ _. Stored path m) Nothing r (record b { host = d })
      go (ok a) d b h = h
      go (err e) d b h = tt

  link_manifest-Stored :
      (path : String) (m : Manifest)
      → Ensures (λ _. Unit {0}) (link_manifest path m) (λ _. Stored path m) Nothing
  unfolding link_manifest
  link_manifest-Stored path m = record {
    at = λ b _. elim (Bool-cases (is_absent (b.manifests path))) [
      | inl absent ↦ rw (absent, eq_refl path) refl
      | inr there ↦ rw there tt
    ];
  }

  write_manifest-Stored :
      (path : String) (m : Manifest)
      → Ensures (λ _. Unit {0}) (write_manifest path m) (λ _. Stored path m) Nothing
  unfolding write_manifest
  write_manifest-Stored path m =
      ensures-bind _ _ (ensures-nothing (lift (validate_manifest m))) λ _.
        ensures-bind _ _ (ensures-nothing (on_host host_call)) λ _.
          ensures-bind _ _ (ensures-nothing (on_host host_call)) λ _.
            ensures-bind _ _ (ensures-nothing (on_host host_call)) λ _.
              ensures-bind _ _ (ensures-nothing (on_host host_call)) λ _.
                ensures-bind _ _ (ensures-nothing (on_host host_call)) λ _.
                  ensures-bind _ _ (ensures-nothing (on_host host_call)) λ _.
                    ensures-bind _ _ (link_manifest-Stored path m) λ _.
                      ensures-bind _ _ (on_host-Stored path m host_call)
                        λ _. on_host-Stored path m host_call

module _ {S : Type 0} where
  -- a postcondition, and what the step leaves alone
  both :
      {A : Type 0} {Q : A → Bench S → Type 0} (start : Bench S) (act : Exec (Bench S) A)
      → Ensures (λ _. Unit {0}) act Q Nothing
      → Moves Steady act
      → Ensures (Steady start) act (λ a b. Q a b × Steady start b) Nothing
  both {A} {Q} start act h k = record {
    at = λ b same. go (act b).0 (act b).1 (h.at b tt) (chained start b (act b).1 same (k.at b));
  }
    where
      go :
          (r : Result A) (b : Bench S)
          → Post Q Nothing r b
          → Steady start b
          → Post (λ a b. Q a b × Steady start b) Nothing r b
      go (ok a) b q same = (q, same)
      go (err e) b q same = tt

  still :
      {A : Type 0} (start : Bench S) (act : Exec (Bench S) A)
      → Moves Steady act
      → Ensures (Steady start) act (λ a b. Steady start b) Nothing
  still start act k = record {
    at = λ b same. go (act b).0 (act b).1 (chained start b (act b).1 same (k.at b));
  }
    where
      go :
          {A : Type 0} (r : Result A) (b : Bench S)
          → Steady start b
          → Post (λ a b. Steady start b) Nothing r b
      go (ok a) b same = same
      go (err e) b same = tt

module _ {S : Type 0} ⦃codec : Codec⦄ ⦃p : Platform⦄ (start : Bench S) where
  -- What a build leaves: the manifest under its path, and a configuration made of the one that was there
  -- when the lock on it was granted, with the image and with everything else as it was.
  pub record InPlace (m : Manifest) (b : Bench S) : Type 0 where
    pub original : Host
    pub loaded : (load_host (seen_host start)).0 ≡ ok original
    pub stored : b.manifests (manifest_path_of original m.image_id) ≡ decoded m false
    pub text : String
    pub content : b.host.text ≡ some text
    pub before : Host
    pub after : Host
    pub base : Base (locked_text start.host) (stats_of b.manifests) before
    pub registered :
        Registered m.image_id (image_of m (manifest_path_of original m.image_id)) before after
    pub valid : validate_host (stats_of b.manifests) after ≡ ok tt
    pub encoded : codec.encode (to_toml after) ≡ ok text

module _ {S : Type 0} ⦃codec : Codec⦄ ⦃p : Platform⦄ (config_path : String) (start : Bench S)
    (original : Host) (loaded : (load_host (seen_host start)).0 ≡ ok original) (m : Manifest) where
  abbrev path : String
  path = manifest_path_of original m.image_id

  abbrev registering : HostDir → Result (Unit {0}) × HostDir
  registering = update_host config_path (register_update original m path)

  same_locked : (b : Bench S) → Steady start b → locked_text (seen_host b) ≡ locked_text start.host
  same_locked b h = rw (h.1, h.0) refl

  Published-InPlace :
      (b : Bench S) (d : HostDir) (text : String)
      → Stored path m b
      → Steady start b
      → Published
          (register_update original m path)
          (locked_text (seen_host b))
          (stats_of b.manifests)
          text
      → d.text ≡ some text
      → InPlace start m (record b { host = d })
  Published-InPlace b d text stored same k there = record {
    original = original;
    loaded = loaded;
    stored = stored;
    text = text;
    content = there;
    before = k.before;
    after = k.after;
    base = rw (← same_locked b same) k.base;
    registered = register_update-Registered original m path k.before k.updated;
    valid = k.valid;
    encoded = k.encoded;
  }

  registered-InPlace :
      (b : Bench S) (r : Result (Unit {0})) (d : HostDir)
      → Stored path m b
      → Steady start b
      → Post
          (Committed (register_update original m path) (seen_host b))
          (Spared (register_update original m path) (seen_host b))
          r
          d
      → Post (λ _. InPlace start m) Nothing r (record b { host = d })
  registered-InPlace b (ok _) d stored same (text, k, (there, _)) =
      Published-InPlace b d text stored same k there
  registered-InPlace b (err e) d stored same h = tt

  register_image-InPlace :
      Ensures
        (λ b. Stored path m b × Steady start b)
        (on_host (register_image config_path original m path))
        (λ _. InPlace start m)
        Nothing
  unfolding on_host register_image
  register_image-InPlace = record {
    at = λ b (stored, same). valid (validate_manifest m) b stored same;
  }
    where
      valid :
          (v : Result (Unit {0})) (b : Bench S)
          → Stored path m b
          → Steady start b
          → Post
              (λ _. InPlace start m)
              Nothing
              (continue v (λ _. registering) (seen_host b)).0
              (record b { host = (continue v (λ _. registering) (seen_host b)).1 })
      valid (ok _) b stored same =
          registered-InPlace b (registering (seen_host b)).0 (registering (seen_host b)).1 stored
            same
            (update_host-all_or_nothing (register_update original m path) (seen_host b) config_path)
      valid (err e) b stored same = tt

module _ {S : Type 0} where
  wrapping-Nothing :
      {A : Type 0} {P : Bench S → Type 0} {Q : A → Bench S → Type 0} (text : String)
      (act : Exec (Bench S) A)
      → Ensures P act Q Nothing
      → Ensures P (wrapping text act) Q Nothing
  wrapping-Nothing {A} {P} {Q} text act h = record { at = λ b k. go (act b).0 (act b).1 (h.at b k) }
    where
      go : (r : Result A) (b : Bench S) → Post Q Nothing r b → Post Q Nothing (wrap text r) b
      go (ok a) b k = k
      go (err e) b k = tt

module _ {S : Type 0} ⦃codec : Codec⦄ ⦃p : Platform⦄ (config_path : String) (orbctl : Orbctl S)
    (box : Toolbox) (start : Bench S) where
  commit_template-InPlace :
      (host : Host) (m : Manifest)
      → (load_host (seen_host start)).0 ≡ ok host
      → Ensures
          (Steady start)
          (commit_template orbctl box config_path host m)
          (InPlace start)
          Nothing
  unfolding commit_template
  commit_template-InPlace host m loaded =
      ensures-bind _ _
        (wrapping-Nothing "sealed template retained; creating manifest directory"
          (on_host host_call)
          (still start (on_host host_call) (on_host-Steady host_call Moves-host_call)))
        λ _.
          ensures-bind _ _
            (wrapping-Nothing _ _ (
              both start (write_manifest (manifest_path_of host m.image_id) m)
                (write_manifest-Stored (manifest_path_of host m.image_id) m)
                (write_manifest-Steady (manifest_path_of host m.image_id) m)))
            λ _.
              ensures-bind _ _
                (wrapping-Nothing _ _ (register_image-InPlace config_path start host loaded m))
                λ _. ensures-pure m (λ _ h. h)

  load-Steady :
      Ensures
        (λ b. b ≡ start)
        (on_host load_host)
        (λ host b. ((load_host (seen_host start)).0 ≡ ok host) × Steady start b)
        Nothing
  unfolding on_host
  load-Steady = record {
    at = λ b i. rw i (
        go (load_host (seen_host start)).0 (load_host (seen_host start)).1 refl
          (Moves-load_host.at (seen_host start)));
  }
    where
      go :
          (r : Result Host) (d : HostDir)
          → (load_host (seen_host start)).0 ≡ r
          → SameFile (seen_host start) d
          → Post
              (λ host b. ((load_host (seen_host start)).0 ≡ ok host) × Steady start b)
              Nothing
              r
              (record start { host = d })
      go (ok host) d i same = (i, same)
      go (err e) d i same = tt

  built-InPlace :
      (o : BuildOptions) (host : Host)
      → (load_host (seen_host start)).0 ≡ ok host
      → Ensures
          (Steady start)
          (lift (recipe box) >>= λ r. on_session (version orbctl host.orbctl_path) >>= λ ver.
            (λ b. draw_nonce b.drawn b) >>= λ nonce.
            on_session (make_machine orbctl box config_path o host r ver nonce) >>= λ m.
            commit_template orbctl box config_path host m)
          (InPlace start)
          Nothing
  built-InPlace o host loaded =
      ensures-bind _ _ (still start (lift (recipe box)) (Moves-lift Steady-Preorder (recipe box)))
        λ r.
          ensures-bind _ _
            (still start (on_session (version orbctl host.orbctl_path)) (on_session-Steady _))
            λ ver. ensures-bind _ _ (still start (λ b. draw_nonce b.drawn b) draw-Steady) λ nonce.
              ensures-bind _ _
                (still start (on_session (make_machine orbctl box config_path o host r ver nonce))
                  (on_session-Steady _))
                λ m. commit_template-InPlace host m loaded

  build-Ensures :
      (o : BuildOptions)
      → Ensures (λ b. b ≡ start) (build orbctl box config_path o) (InPlace start) Nothing
  unfolding build
  build-Ensures o =
      ensures-lift (validate_options o) _
        (λ _ _.
          ensures-bind (on_host load_host) _ load-Steady
            λ host. record { at = λ b (loaded, same). (built-InPlace o host loaded).at b same })
        (λ _ _ _ _. tt)

  -- Where `Build` returns a manifest, the manifest is a file under the directory of the configuration that
  -- was loaded, and the configuration is the text of a valid host. That host is made of the base of the
  -- update, which is the host that the file held when the lock was granted, or the zero host where there
  -- was none or it had a manifest that does not exist: it has the image under its ID, under every other ID
  -- what the base has, and the flavors, limits and other settings of the base.
  pub build-InPlace :
      (o : BuildOptions) {m : Manifest}
      → (build orbctl box config_path o start).0 ≡ ok m
      → InPlace start m (build orbctl box config_path o start).1
  build-InPlace o {m} done =
      success (InPlace start) (build orbctl box config_path o start).0
        (build orbctl box config_path o start).1 ((build-Ensures o).at start refl) done
