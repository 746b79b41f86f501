-- ===== src/Templates/Recipe.antt =====
-- The recipe of a template and the names that a build gives (internal/templates/builder.go).
use Prim.Native.String.{◌++◌ as append, len}
use Prim.Native.Char.{Char, code, nul as nul_char}
use garm_provider_orbstack.Prelude.{String, true, false, pos, eqb, decimal, if◌then◌else◌}
use garm_provider_orbstack.Error.{Result, ok, err}
use garm_provider_orbstack.Platform.{Platform}
use garm_provider_orbstack.Orbstack.{CreateOptions, MachineSettings}
use garm_provider_orbstack.Templates.Manifest.{Manifest, archive_prefix}
use garm_provider_orbstack.Templates.Builder.{BuildOptions, variant_of}

-- The embedded recipe, or the one that the operator names, file by file, and `json.Marshal` of a
-- manifest.
pub record Toolbox : Type 0 where
  pub read : String → Result String
  pub encode_manifest : Manifest → Result String

pub record Recipe : Type 0 where
  pub prepare : String
  pub seal : String
  pub toolset : String
  pub hash : String

abbrev pub runner_images_tag : String
runner_images_tag = "ubuntu24/20260920.314"

abbrev pub runner_images_commit : String
runner_images_commit = "e75633902841aa5479c759492b73409e6d317f12"

-- the separator NUL
abbrev nul : String
nul = String.◌∷◌ nul_char String.[]

-- what the digest of a recipe takes of one of its entries
unfoldable pub recipe_entry : String → String → String
recipe_entry name bytes = append name (append nul (append (decimal (len bytes)) (append nul bytes)))

-- a capital digit of a hexadecimal number, as `strings.ToLower` gives it
abbrev lower_digit : Char → Char
lower_digit c =
    if eqb (code c) b'A'
    then "a"
    else if eqb (code c) b'B'
    then "b"
    else if eqb (code c) b'C'
    then "c"
    else if eqb (code c) b'D'
    then "d"
    else if eqb (code c) b'E'
    then "e"
    else if eqb (code c) b'F'
    then "f"
    else c

-- `strings.ToLower` on a text of hexadecimal digits
unfoldable pub lower_hex : String → String
lower_hex String.[] = String.[]
lower_hex (String.◌∷◌ c s) = String.◌∷◌ (lower_digit c) (lower_hex s)

abbrev pub plain_settings : MachineSettings
plain_settings = record {
  cpus = pos 0;
  memory_mib = pos 0;
  disk_bytes = pos 0;
  isolated = true;
  forward_ssh_agent = false;
  isolate_network = false;
}

abbrev pub work_dir : String
work_dir = "/var/tmp/garm-template-build"

abbrev pub in_work_dir : String → String
in_work_dir name = append work_dir (append "/" name)

-- the name of the runner's archive
abbrev pub runner_filename : BuildOptions → String
runner_filename o = append (archive_prefix o.arch) (append o.runner_version ".tar.gz")

abbrev pub create_options : BuildOptions → String → CreateOptions
create_options o name = record {
  name = name;
  distro = "ubuntu";
  version = "24.04";
  arch = o.arch;
  user = "runner";
  isolated = true;
  isolate_network = false;
}

-- the image's ID and the machine's name, from the random bytes
abbrev pub image_id_of : BuildOptions → String → String
image_id_of o nonce = append "ubuntu-24.04-" (
    append o.arch (
      append "-"
        (append (variant_of o.variant) (append "-" (append o.runner_version (append "-" nonce))))))

abbrev pub machine_name_of : BuildOptions → String → String
machine_name_of o nonce = append "garm-template-" (append o.arch (append "-" nonce))

module _ ⦃p : Platform⦄ where
  -- `recipe`
  unfoldable pub recipe : Toolbox → Result Recipe
  unfolding recipe_entry
  recipe files =
      recipe_of (files.read "prepare.sh") (files.read "seal.sh")
        (files.read "install-github-toolset.sh")
    where
      recipe_of : Result String → Result String → Result String → Result Recipe
      recipe_of (err e) _ _ = err e
      recipe_of (ok prepare) (err e) _ = err e
      recipe_of (ok prepare) (ok seal) (err e) = err e
      recipe_of (ok prepare) (ok seal) (ok toolset) = ok (record {
        prepare = prepare;
        seal = seal;
        toolset = toolset;
        hash = p.sha256_hex (
            append (recipe_entry "prepare.sh" prepare) (
              append (recipe_entry "seal.sh" seal) (
                append (recipe_entry "install-github-toolset.sh" toolset) (
                  recipe_entry "runner-images-pin"
                    (append runner_images_tag (append nul runner_images_commit))))));
      })
