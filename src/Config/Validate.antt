-- ===== src/Config/Validate.antt =====
-- `validateHost` of internal/config/config.go.
use garm_provider_orbstack.Prelude.{
  String, Bool, true, false, not, ◌==◌, ◌&&◌, ◌||◌, List, [], ◌∷◌, Option, none, some, is_blank,
  below_one, has_prefix,
}
use garm_provider_orbstack.Error.{Result, ok, err, message, wrapped}
use garm_provider_orbstack.Outcome.{◌>>◌, refuse_if}
use garm_provider_orbstack.Platform.{Platform}
use garm_provider_orbstack.Config.{Image, Flavor, Host}

-- `filepath.IsAbs` on macOS and Linux
unfoldable pub is_abs : String → Bool
unfolding has_prefix
is_abs path = has_prefix path "/"

module _ ⦃p : Platform⦄ (stat : String → Result (Unit {0})) where
  abbrev stat_manifest : Result (Unit {0}) → Result (Unit {0})
  stat_manifest (ok _) = ok tt
  stat_manifest (err e) = err (wrapped "manifest" e)

  -- the checks of one image; `stat` is the file system's answer
  unfoldable pub check_image : String → Image → Result (Unit {0})
  unfolding is_abs is_blank
  check_image id img = do
    refuse_if (is_blank id) "image id must not be empty"
    refuse_if (is_blank img.machine_id) "machine_id is required"
    refuse_if (not (is_abs img.manifest_path) || is_blank img.manifest_path)
        "manifest_path must be an absolute path"
    stat_manifest (stat img.manifest_path)
    refuse_if (not (img.arch == "arm64") && not (img.arch == "amd64")) "arch must be arm64 or amd64"

  unfoldable pub check_images : List (String × Image) → Result (Unit {0})
  unfolding check_image
  check_images [] = ok tt
  check_images ((id, img) ∷ rest) = do check_image id img; check_images rest

  unfoldable pub check_flavor : String → Flavor → Result (Unit {0})
  unfolding is_blank
  check_flavor id fl = do
    refuse_if (is_blank id) "flavor id must not be empty"
    refuse_if (below_one fl.cpus) "cpus must be >= 1"
    refuse_if (below_one fl.memory_mib) "memory_mib must be >= 1"
    refuse_if (below_one fl.disk_bytes) "disk_bytes must be >= 1"

  unfoldable pub check_flavors : List (String × Flavor) → Result (Unit {0})
  unfolding check_flavor
  check_flavors [] = ok tt
  check_flavors ((id, fl) ∷ rest) = do check_flavor id fl; check_flavors rest

  abbrev is_empty {ℓ} : {A : Type ℓ} → List A → Bool
  is_empty [] = true
  is_empty (x ∷ xs) = false

  abbrev parsed : Option String → Result (Unit {0})
  parsed none = err (message "controller_id must be a UUID")
  parsed (some _) = ok tt

  -- `validateHost`
  unfoldable pub validate_host : Host → Result (Unit {0})
  unfolding check_images check_flavors is_abs is_blank
  validate_host h = do
    parsed (p.parse_uuid h.controller_id)
    refuse_if (not (is_abs h.orbctl_path) || is_blank h.orbctl_path)
        "orbctl_path must be an absolute path"
    refuse_if (not (is_abs h.state_dir) || is_blank h.state_dir)
        "state_dir must be an absolute path"
    refuse_if (below_one h.max_instances) "max_instances must be >= 1"
    refuse_if (below_one h.operation_timeout) "operation_timeout must be positive"
    refuse_if (is_empty h.flavors) "at least one flavor is required"
    check_images h.images
    check_flavors h.flavors
