-- ===== src/Templates/Builder/Registered.antt =====
-- What the registration of an image does (internal/templates/builder.go, `RegisterImage`).
use garm_provider_orbstack.Prelude.{
  String, Bool, true, false, not, ◌≡◌, ◌≢◌, sym, refl, arith, ◌==◌, ◌||◌, List, [], ◌∷◌, Option,
  none, some, lookup, eq_iff, eq_refl, Bool-cases, inl, inr,
}
use garm_provider_orbstack.Error.{ok}
use garm_provider_orbstack.Outcome.{chain-eq-ok, refuse_if}
use garm_provider_orbstack.Config.{Image, Host}
use garm_provider_orbstack.Templates.Manifest.{Manifest}
use garm_provider_orbstack.Templates.Builder.{
  same_image, has_machine, add_image, image_of, register_update,
}

-- no machine is registered under two image IDs
abbrev pub IsExclusive : List (String × Image) → Type 0
IsExclusive [] = Unit
IsExclusive ((_, image) ∷ rest) = (has_machine image.machine_id rest ≡ false) × IsExclusive rest

-- What a registration leaves in the configuration.
pub record Registered (id : String) (image : Image) (before after : Host) : Type 0 where
  pub found : lookup id after.images ≡ some image
  pub kept : (key : String) → key ≢ id → lookup key after.images ≡ lookup key before.images
  pub unchanged : (other : Image) → lookup id before.images ≡ some other → other ≡ image
  pub exclusive : IsExclusive before.images → IsExclusive after.images
  pub flavors : after.flavors ≡ before.flavors
  pub capacity : after.max_instances ≡ before.max_instances
  pub controller : after.controller_id ≡ before.controller_id
  pub directory : after.state_dir ≡ before.state_dir
  pub program : after.orbctl_path ≡ before.orbctl_path
  pub timeout : after.operation_timeout ≡ before.operation_timeout

same_image→eq : (a b : Image) → same_image a b ≡ true → a ≡ b
same_image→eq a b h =
    let id : a.machine_id ≡ b.machine_id = ground (arith, eq_iff a.machine_id b.machine_id) in
    let path : a.manifest_path ≡ b.manifest_path =
      ground (arith, eq_iff a.manifest_path b.manifest_path) in
    let arch : a.arch ≡ b.arch = ground (arith, eq_iff a.arch b.arch) in cc (id, path, arch)

kept_behind :
    (id key : String) (image : Image) (images : List (String × Image))
    → key ≢ id
    → lookup key ((id, image) ∷ images) ≡ lookup key images
unfolding lookup
kept_behind id key image images other = elim (Bool-cases (id == key)) [
  | inl same ↦ absurd (other (sym ((eq_iff id key).0 same)))
  | inr differs ↦ rw differs refl
]

add_image-Registered :
    (id : String) (image : Image) (host after : Host) (previous : Option Image)
    → lookup id host.images ≡ previous
    → add_image id image host previous ≡ ok after
    → Registered id image host after
unfolding lookup
add_image-Registered id image host after (some previous) present h =
    let same : same_image previous image ≡ true = ground arith in
    let unchanged : host ≡ after = ground arith in
    rw (← unchanged) (record {
      found = cc (present, same_image→eq previous image same);
      kept = λ key other. refl;
      unchanged = λ other k. cc (k, present, same_image→eq previous image same);
      exclusive = λ e. e;
      flavors = refl;
      capacity = refl;
      controller = refl;
      directory = refl;
      program = refl;
      timeout = refl;
    })
add_image-Registered id image host after none absent h =
    let free : has_machine image.machine_id host.images ≡ false = ground arith in
    let e : record host { images = (id, image) ∷ host.images } ≡ after = ground arith in
    rw (← e) (record {
      found = rw (eq_refl id, lookup) refl;
      kept = λ key other. kept_behind id key image host.images other;
      unchanged = λ other k. cc (k, absent);
      exclusive = λ x. (free, x);
      flavors = refl;
      capacity = refl;
      controller = refl;
      directory = refl;
      program = refl;
      timeout = refl;
    })

abbrev moved : Host → Host → Bool
moved original host =
    not (host.controller_id == original.controller_id)
    || not (host.state_dir == original.state_dir)
    || not (host.orbctl_path == original.orbctl_path)

-- A registration that is accepted leaves the image under its ID, where there was none or the same one,
-- and under every other ID what was there, an image or none. Every other setting is as it was, and if no
-- machine was registered under two image IDs, none is.
pub register_update-Registered :
    (original : Host) (m : Manifest) (path : String) (host : Host) {after : Host}
    → register_update original m path host ≡ ok after
    → Registered m.image_id (image_of m path) host after
unfolding register_update
register_update-Registered original m path host {after} h =
    let (_, _, added) =
      chain-eq-ok (λ _. add_image m.image_id (image_of m path) host (lookup m.image_id host.images))
        (refuse_if (moved original host) "host identity or paths changed during template build")
        h in
    add_image-Registered m.image_id (image_of m path) host after (lookup m.image_id host.images)
      refl added
