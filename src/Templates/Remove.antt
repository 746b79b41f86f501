-- ===== src/Templates/Remove.antt =====
-- `Remove` of internal/templates/builder.go: a template is deregistered and its machine deleted.
pub mod Deletion
pub mod Locked
pub mod Authorized
mod Examples
use garm_provider_orbstack.Prelude.{
  String, Bool, true, false, not, ◌==◌, ◌&&◌, ◌||◌, List, [], ◌∷◌, Option, none, some, lookup,
  filter, if◌then◌else◌,
}
use garm_provider_orbstack.Error.{Error, Result, ok, err, message}
use garm_provider_orbstack.Exec.{Exec, pure, raise, lift, ◌>>=◌, ◌>>◌, refuse_if, wrap, wrapping}
use garm_provider_orbstack.Platform.{Platform}
use garm_provider_orbstack.State.Record.{Record}
use garm_provider_orbstack.State.Registry.{
  Registry, open_registry, lock_template, template_lock, snapshot,
}
use garm_provider_orbstack.Orbstack.Client.{Orbctl, delete}
use garm_provider_orbstack.Config.{Image, Host}
use garm_provider_orbstack.Config.Store.{Codec, load_host, update_host}
use garm_provider_orbstack.Templates.Manifest.{Manifest, load_manifest}
use garm_provider_orbstack.Templates.Builder.{differs}
use garm_provider_orbstack.Templates.Bench.{
  Bench, on_host, on_registry, on_session, closing, remove_manifest,
}

abbrev pub registered_image : Option Image → Result Image
registered_image none = err (message "image is not registered")
registered_image (some image) = ok image

-- the loop over the other images: one that shares the machine or the manifest
unfoldable pub is_shared : String → Image → List (String × Image) → Bool
is_shared id image [] = false
is_shared id image ((other_id, other) ∷ rest) =
    not (other_id == id)
      && (other.machine_id == image.machine_id || other.manifest_path == image.manifest_path)
    || is_shared id image rest

-- the loop over the records: one that uses the image
unfoldable pub in_use : String → List Record → Bool
in_use id [] = false
in_use id (r ∷ rest) = r.image_id == id || in_use id rest

-- `delete(h.Images, imageID)`
unfoldable pub without_image : String → List (String × Image) → List (String × Image)
unfolding filter
without_image id images = filter (λ entry. not (entry.0 == id)) images

abbrev pub deregistered : String → Host → Option Image → Result Host
deregistered id h none = err (message "image disappeared concurrently")
deregistered id h (some _) = ok (record h { images = without_image id h.images })

-- the callback that `Remove` gives to `UpdateHost`
unfoldable pub deregister : String → Host → Result Host
deregister id h = deregistered id h (lookup id h.images)

module _ {S : Type 0} where
  -- the registration must agree with its manifest, and no other image may share what it names
  unfoldable pub check_registration : String → Host → Image → Exec (Bench S) (Unit {0})
  check_registration id host image = do
    m ← (λ b. (wrap "image" (load_manifest (b.manifests image.manifest_path)), b))
    refuse_if (differs id image m) "registration differs from its manifest; refusing to delete"
    refuse_if (is_shared id image host.images) "image shares its machine or manifest; refusing"

module _ {S : Type 0} ⦃codec : Codec⦄ ⦃p : Platform⦄ (orbctl : Orbctl S)
    (config_path : String) where
  -- what follows the deletion of the machine: the registration and the manifest go, in this order
  unfoldable pub forget_image : String → Image → Exec (Bench S) (Unit {0})
  forget_image id image = do
    wrapping "machine already deleted; re-run template remove to converge"
        (on_host (update_host config_path (deregister id)))
    wrapping "template deregistered but manifest remains" (remove_manifest image.manifest_path)

  -- what follows the checks
  unfoldable pub remove_drained : String → Host → Image → Exec (Bench S) (Unit {0})
  remove_drained id host image = do
    wrapping "deleting template machine (image stays registered)"
        (on_session (delete orbctl host.orbctl_path image.machine_id))
    forget_image id image

  -- under the template's lock
  unfoldable pub remove_locked : String → Host → Image → Registry → Exec (Bench S) (Unit {0})
  remove_locked id host image reg = do
    records ← on_registry (snapshot reg.controller_id)
    refuse_if (in_use id records) "a runner still uses the image"
    remove_drained id host image

  -- the locked part of `Remove`
  unfoldable pub remove_registered : String → Host → Image → Exec (Bench S) (Unit {0})
  remove_registered id host image = do
    reg ← on_registry (open_registry host.controller_id)
    on_registry (lock_template image.machine_id)
    closing (template_lock image.machine_id) (remove_locked id host image reg)

  -- `Remove`
  unfoldable pub remove : String → Exec (Bench S) (Unit {0})
  remove id = do
    refuse_if (id == "") "image ID is required"
    host ← on_host load_host
    image ← lift (registered_image (lookup id host.images))
    check_registration id host image
    remove_registered id host image
