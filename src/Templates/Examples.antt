-- ===== src/Templates/Examples.antt =====
-- Runs of the template builder's pure parts (internal/templates/builder.go).
use garm_provider_orbstack.Prelude.{
  split_on, trim_suffix, String, ◌≡◌, refl, List, [], ◌∷◌, pos, contains, contains_any, lookup,
  split_on, trim_suffix,
}
use garm_provider_orbstack.Error.{ok}
use garm_provider_orbstack.Config.{Image, Host}
use garm_provider_orbstack.Templates.Manifest.{Manifest}
use garm_provider_orbstack.Templates.Builder.{
  image_of, register_update, parse_packages, has_machine,
}
use garm_provider_orbstack.Templates.Builder.Registered.{Registered, register_update-Registered}
use garm_provider_orbstack.Templates.Builder.Packages.{
  ReadFrom, IsInventory, parse_packages-IsInventory,
}

abbrev host : List (String × Image) → Host
host images = record {
  controller_id = "c";
  orbctl_path = "/usr/local/bin/orbctl";
  state_dir = "/var/state";
  max_instances = pos 2;
  operation_timeout = pos 60;
  images = images;
  flavors = [];
}

abbrev old_images : List (String × Image)
old_images = ("old", record { machine_id = "t-0"; manifest_path = "/old"; arch = "arm64" }) ∷ []

abbrev manifest : Manifest
manifest = record {
  schema_version = pos 1;
  image_id = "noble";
  machine_id = "t-1";
  os_version = "24.04";
  variant = "minimal";
  recipe_sha256 = "";
  arch = "arm64";
  runner_filename = "runner.tar.gz";
  runner_sha256 = "";
  orbstack_version = "2";
  packages = [];
}

registered_noble :
    register_update (host old_images) manifest "/new" (host old_images)
    ≡ ok (host (("noble", image_of manifest "/new") ∷ old_images))
unfolding register_update lookup has_machine
registered_noble = refl

register_update-Registered_example :
    Registered "noble"
      (image_of manifest "/new")
      (host old_images)
      (host (("noble", image_of manifest "/new") ∷ old_images))
register_update-Registered_example =
    register_update-Registered (host old_images) manifest "/new" (host old_images) registered_noble

two_packages : parse_packages "jq\t1.7\ngit\t2.43\n" ≡ ok (("jq", "1.7") ∷ ("git", "2.43") ∷ [])
unfolding parse_packages split_on trim_suffix contains_any contains
two_packages = refl

parse_packages-IsInventory_example :
    ReadFrom
      (split_on 10 (trim_suffix "jq\t1.7\ngit\t2.43\n" "\n"))
      (("jq", "1.7") ∷ ("git", "2.43") ∷ [])
    × IsInventory (("jq", "1.7") ∷ ("git", "2.43") ∷ [])
parse_packages-IsInventory_example = parse_packages-IsInventory "jq\t1.7\ngit\t2.43\n" two_packages
