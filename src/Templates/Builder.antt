-- ===== src/Templates/Builder.antt =====
-- internal/templates/builder.go: the options of a build, the inventory of packages, the registration
-- of an image and the list of templates.
pub mod Registered
pub mod Packages
use Prim.Native.String.{compare}
use Prim.Native.Char.{code}
use text.Mathlib.Text.{is_lt}
use garm_provider_orbstack.Prelude.{
  ℕ, String, Bool, true, false, not, ◌==◌, ◌&&◌, ◌||◌, pos, List, [], ◌∷◌, Option, none, some,
  lookup, contains, contains_any, split_on, trim_suffix, eqb, if◌then◌else◌,
}
use garm_provider_orbstack.Error.{Result, ok, err, message, wrapped}
use garm_provider_orbstack.Outcome.{◌>>=◌, ◌>>◌, refuse_if}
use garm_provider_orbstack.Config.{Image, Host}
use garm_provider_orbstack.Orbstack.{Machine}
use garm_provider_orbstack.Templates.Manifest.{
  Manifest, ManifestFile, load_manifest, validate_machine, runner_version_matches, valid_sha256,
}

pub record BuildOptions : Type 0 where
  pub arch : String
  pub runner_version : String
  pub runner_sha256 : String
  pub variant : String

abbrev pub variant_of : String → String
variant_of v = if v == "" then "minimal" else v

-- `BuildOptions.Validate`
unfoldable pub validate_options : BuildOptions → Result (Unit {0})
validate_options o = do
  refuse_if (not (o.arch == "arm64") && not (o.arch == "amd64"))
      "template architecture must be arm64 or amd64"
  refuse_if (not (runner_version_matches o.runner_version))
      "runner-version must be an explicit numeric X.Y.Z release"
  refuse_if (not (valid_sha256 o.runner_sha256))
      "runner-sha256 must be a verified 64-character SHA-256"
  refuse_if (not (variant_of o.variant == "minimal") && not (variant_of o.variant == "full"))
      "variant must be minimal or full"
  refuse_if (variant_of o.variant == "full" && not (o.arch == "arm64"))
      "the full runner-images toolset variant is currently pinned to arm64"

-- `strings.Cut(line, "\t")`
unfoldable pub cut_tab : String → Option (String × String)
cut_tab String.[] = none
cut_tab (String.◌∷◌ c s) =
    let rest = cut_tab s in
    if eqb (code c) 9
    then some ("", s)
    else elim rest [ none ↦ none | some (name, version) ↦ some (String.◌∷◌ c name, version) ]

abbrev pub parse_line : Option (String × String) → Result (String × String)
parse_line none = err (message "invalid installed package inventory")
parse_line (some (name, version)) =
    if name == "" || version == "" || contains_any (9 ∷ 13 ∷ []) version
    then err (message "invalid installed package inventory")
    else ok (name, version)

-- The loop of `parsePackages`, with the names met so far.
unfoldable pub parse_lines : List String → List String → Result (List (String × String))
unfolding cut_tab
parse_lines seen [] = ok []
parse_lines seen (line ∷ rest) = do
  entry ← parse_line (cut_tab line)
  refuse_if (contains entry.0 seen) "duplicate installed package entry"
  others ← parse_lines (entry.0 ∷ seen) rest
  ok (entry ∷ others)

-- `parsePackages`
unfoldable pub parse_packages : String → Result (List (String × String))
unfolding parse_lines
parse_packages output = parse_lines [] (split_on 10 (trim_suffix output "\n"))

abbrev pub same_image : Image → Image → Bool
same_image a b =
    a.machine_id == b.machine_id && a.manifest_path == b.manifest_path && a.arch == b.arch

-- the loop over the images of the host
unfoldable pub has_machine : String → List (String × Image) → Bool
has_machine id [] = false
has_machine id ((_, image) ∷ rest) = image.machine_id == id || has_machine id rest

abbrev pub add_image : String → Image → Host → Option Image → Result Host
add_image id image host (some previous) =
    if not (same_image previous image)
    then err (message "immutable image ID is already registered differently")
    else ok host
add_image id image host none =
    if has_machine image.machine_id host.images
    then err (message "template machine already registered under another image ID")
    else ok (record host { images = (id, image) ∷ host.images })

abbrev pub image_of : Manifest → String → Image
image_of m path = record { machine_id = m.machine_id; manifest_path = path; arch = m.arch }

-- the callback that `RegisterImage` gives to `UpdateHost`
unfoldable pub register_update : Host → Manifest → String → Host → Result Host
register_update original m path host = do
  refuse_if
      (not (host.controller_id == original.controller_id)
        || not (host.state_dir == original.state_dir)
        || not (host.orbctl_path == original.orbctl_path))
      "host identity or paths changed during template build"
  add_image m.image_id (image_of m path) host (lookup m.image_id host.images)

-- The first loop of `List`.
unfoldable pub check_inventory : List String → List Machine → Result (Unit {0})
check_inventory seen [] = ok tt
check_inventory seen (m ∷ rest) = do
  refuse_if (m.id == "") "invalid OrbStack inventory"
  refuse_if (contains m.id seen) "duplicate machine ID in OrbStack inventory"
  check_inventory (m.id ∷ seen) rest

-- a map lookup: the zero `Machine` where the ID is missing
abbrev no_machine : Machine
no_machine = record {
  id = "";
  name = "";
  image = record { distro = ""; version = ""; arch = ""; variant = "" };
  config = record {
    isolated = false;
    forward_ssh_agent = false;
    isolate_network = false;
    default_username = "";
    http_port = pos 0;
    https_port = pos 0;
  };
  builtin = false;
  state = "";
}

unfoldable pub machine_by_id : String → List Machine → Machine
machine_by_id id [] = no_machine
machine_by_id id (m ∷ rest) = if m.id == id then m else machine_by_id id rest

-- `sort.Strings` on the image IDs
unfoldable pub insert_image : String × Image → List (String × Image) → List (String × Image)
insert_image entry [] = entry ∷ []
insert_image (id, image) ((k, other) ∷ rest) =
    if is_lt (compare id k)
    then (id, image) ∷ (k, other) ∷ rest
    else (k, other) ∷ insert_image (id, image) rest

unfoldable pub sort_images : List (String × Image) → List (String × Image)
unfolding insert_image
sort_images [] = []
sort_images (entry ∷ rest) = insert_image entry (sort_images rest)

abbrev name_template {ℓ} : {A : Type ℓ} → Result A → Result A
name_template (ok a) = ok a
name_template (err e) = err (wrapped "template" e)

abbrev pub differs : String → Image → Manifest → Bool
differs id image m =
    not (m.image_id == id) || not (m.machine_id == image.machine_id) || not (m.arch == image.arch)

-- the second loop of `List`
unfoldable pub list_images :
    (String → ManifestFile) → List Machine → List (String × Image) → Result (List Manifest)
list_images manifests machines [] = ok []
list_images manifests machines ((id, image) ∷ rest) = do
  m ← load_manifest (manifests image.manifest_path)
  refuse_if (differs id image m) "registered image differs from its manifest"
  name_template (validate_machine m (machine_by_id image.machine_id machines))
  others ← list_images manifests machines rest
  ok (m ∷ others)

-- `List`, after OrbStack has listed its machines
unfoldable pub list_templates :
    Host → (String → ManifestFile) → List Machine → Result (List Manifest)
list_templates host manifests machines = do
  check_inventory [] machines
  list_images manifests machines (sort_images host.images)
