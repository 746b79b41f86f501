-- ===== src/Templates/Manifest.antt =====
-- internal/templates/types.go and manifest.go: the manifest of a template machine.
use Prim.Native.String.{◌++◌ as append, len, count}
use garm_provider_orbstack.Prelude.{
  ℕ, String, Bool, true, false, not, ◌==◌, ◌&&◌, ◌||◌, ℤ, pos, int_eq, List, [], ◌∷◌, is_blank,
  has_prefix, has_suffix, trim_prefix, trim_suffix, contains_any, all_chars, split_on, is_digit,
  is_lower, leb, eqb, if◌then◌else◌,
}
use Prim.Native.Char.{code}
use garm_provider_orbstack.Error.{Result, ok, err, message, Error}
use garm_provider_orbstack.Outcome.{◌>>◌, refuse_if}
use garm_provider_orbstack.Orbstack.{Machine, state_stopped}

pub record Manifest : Type 0 where
  pub schema_version : ℤ
  pub image_id : String
  pub machine_id : String
  pub os_version : String
  pub variant : String
  pub recipe_sha256 : String
  pub arch : String
  pub runner_filename : String
  pub runner_sha256 : String
  pub orbstack_version : String
  pub packages : List (String × String)

abbrev pub schema_version : ℤ
schema_version = pos 1

-- `imageIDPattern`: `^[a-z0-9][a-z0-9._-]{0,160}$`
abbrev image_id_char : ℕ → Bool
image_id_char c = is_lower c || is_digit c || eqb c b'.' || eqb c b'_' || eqb c b'-'

unfoldable pub image_id_matches : String → Bool
unfolding all_chars
image_id_matches String.[] = false
image_id_matches (String.◌∷◌ c rest) =
    (is_lower (code c) || is_digit (code c)) && all_chars image_id_char rest && leb (count rest) 160

-- `runnerVersionPattern`: `^[0-9]+\.[0-9]+\.[0-9]+$`
abbrev is_number : String → Bool
is_number s = not (s == "") && all_chars is_digit s

abbrev three_numbers : List String → Bool
three_numbers (a ∷ b ∷ c ∷ []) = is_number a && is_number b && is_number c
three_numbers _ = false

unfoldable pub runner_version_matches : String → Bool
unfolding all_chars split_on
runner_version_matches s = three_numbers (split_on b'.' s)

-- a digit that `hex.DecodeString` takes
abbrev is_hex : ℕ → Bool
is_hex c = is_digit c || leb b'a' c && leb c b'f' || leb b'A' c && leb c b'F'

-- `ValidSHA256`
unfoldable pub valid_sha256 : String → Bool
unfolding all_chars
valid_sha256 s = eqb (len s) 64 && all_chars is_hex s

-- the name of an architecture in the runner's archives
abbrev pub archive_arch : String → String
archive_arch arch = if arch == "amd64" then "x64" else arch

abbrev pub archive_prefix : String → String
archive_prefix arch = append "actions-runner-linux-" (append (archive_arch arch) "-")

unfoldable pub check_packages : List (String × String) → Result (Unit {0})
check_packages [] = ok tt
check_packages ((name, version) ∷ rest) = do
  refuse_if
      (is_blank name
        || is_blank version
        || contains_any (0 ∷ b'\r' ∷ b'\n' ∷ []) (append name version))
      "invalid package version in template manifest"
  check_packages rest

abbrev is_empty {ℓ} : {A : Type ℓ} → List A → Bool
is_empty [] = true
is_empty (x ∷ xs) = false

-- the first half of `validateManifest`: schema, identity, architecture and checksums
unfoldable pub check_identity : Manifest → Result (Unit {0})
unfolding image_id_matches valid_sha256 is_blank has_prefix contains_any
check_identity m = do
  refuse_if (not (int_eq m.schema_version schema_version)) "unsupported template manifest schema"
  refuse_if
      (not (image_id_matches m.image_id)
        || is_blank m.machine_id
        || has_prefix m.machine_id "-"
        || contains_any (b'/' ∷ 0 ∷ b'\r' ∷ b'\n' ∷ []) m.machine_id)
      "invalid template image or machine identity"
  refuse_if (not (m.arch == "arm64") && not (m.arch == "amd64")) "invalid template architecture"
  refuse_if (not (valid_sha256 m.recipe_sha256) || not (valid_sha256 m.runner_sha256))
      "template manifest requires SHA-256 recipe and runner checksums"

-- the second half: the runner's archive and the provenance
unfoldable pub check_provenance : Manifest → Result (Unit {0})
unfolding runner_version_matches has_prefix has_suffix trim_prefix trim_suffix is_blank contains_any
    check_packages
check_provenance m = do
  refuse_if
      (not (has_prefix m.runner_filename (archive_prefix m.arch))
        || not (has_suffix m.runner_filename ".tar.gz"))
      "runner filename does not match template architecture"
  refuse_if
      (not (
        runner_version_matches
          (trim_suffix (trim_prefix m.runner_filename (archive_prefix m.arch)) ".tar.gz")))
      "runner archive version is not pinned"
  refuse_if (is_blank m.os_version || contains_any (0 ∷ b'\r' ∷ b'\n' ∷ []) m.os_version)
      "template manifest lacks the OrbStack-recorded OS version"
  refuse_if (not (m.variant == "minimal") && not (m.variant == "full"))
      "template manifest variant must be minimal or full"
  refuse_if (is_blank m.orbstack_version || is_empty m.packages)
      "template manifest lacks OrbStack or package provenance"
  check_packages m.packages

-- `validateManifest`
unfoldable pub validate_manifest : Manifest → Result (Unit {0})
validate_manifest m = do check_identity m; check_provenance m

-- What opening and decoding a manifest file gives: an error, or a manifest and whether anything
-- follows it. A file with an unknown field does not decode.
pub data ManifestFile : Type 0 where
  unreadable : Error → ManifestFile
  undecodable : ManifestFile
  decoded : Manifest → Bool → ManifestFile

abbrev with_variant : Manifest → Manifest
with_variant m = if m.variant == "" then record m { variant = "minimal" } else m

-- `LoadManifest`
unfoldable pub load_manifest : ManifestFile → Result Manifest
load_manifest (unreadable e) = err e
load_manifest undecodable = err (message "decoding template manifest")
load_manifest (decoded m true) = err (message "template manifest contains trailing data")
load_manifest (decoded m false) = do validate_manifest (with_variant m); ok (with_variant m)

-- `ValidateMachine`
unfoldable pub validate_machine : Manifest → Machine → Result (Unit {0})
validate_machine manifest machine = do
  validate_manifest manifest
  refuse_if (not (machine.id == manifest.machine_id) || not (machine.state == state_stopped))
      "approved template must be present and stopped with its recorded ID"
  refuse_if
      (not (machine.image.distro == "ubuntu")
        || not (machine.image.version == manifest.os_version)
        || not (machine.image.arch == manifest.arch))
      "template operating system does not match manifest"
  refuse_if
      (not machine.config.isolated
        || machine.config.forward_ssh_agent
        || machine.config.isolate_network)
      "template isolation settings do not match the approved baseline"
