-- ===== src/Templates/Samples.antt =====
-- Small values for the tests of the template builder: a platform, a machine, configurations and a
-- manifest.
use garm_provider_orbstack.Prelude.{String, ◌==◌, pos, List, [], ◌∷◌, none, some, if◌then◌else◌}
use garm_provider_orbstack.Error.{ok}
use garm_provider_orbstack.Platform.{Platform}
use garm_provider_orbstack.Samples.{machine, disk_with}
use garm_provider_orbstack.Orbstack.Client.{Orbctl}
use garm_provider_orbstack.Config.{Image}
use garm_provider_orbstack.Config.Store.{HostToml}
use garm_provider_orbstack.Templates.Manifest.{Manifest, ManifestFile}
use garm_provider_orbstack.Templates.Bench.{Bench}

abbrev pub digest : String
digest = "0123456789abcdef0123456789abcdef0123456789abcdef0123456789abcdef"

instance abbrev pub one_digest : Platform
one_digest = record { sha256_hex = λ _. digest; parse_uuid = λ s. some s }

abbrev pub template_name : String
template_name = "garm-template-arm64-ab"

abbrev pub image_id : String
image_id = "ubuntu-24.04-arm64-minimal-2.300.0-ab"

-- a machine that runs until it is stopped; the listing shows it under its last new name
abbrev pub reply : List String → String → String
reply (command ∷ rest) state =
    if command == "version"
    then "Version: 2.2.3 (1)"
    else if command == "run"
    then "jq\t1.7\n"
    else state
reply [] state = ""

abbrev pub after_command : List String → String → String
after_command (command ∷ id ∷ []) state = if command == "stop" then "stopped" else state
after_command (command ∷ id ∷ fresh ∷ []) state = if command == "rename" then fresh else state
after_command _ state = state

abbrev pub one_template : Orbctl String
one_template = record {
  spawn = λ args state.
      (record { stdout = reply args state; stderr = ""; failure = none }, after_command args state);
  random_hex = λ n s. (ok "0011", s);
  decode_info = λ state. some (record {
    machine = machine "t-1" template_name state;
    disk_size = pos 1;
    ip4 = "";
    ip6 = "";
  });
  decode_list = λ s. some (some (machine "t-1" s "stopped" ∷ []));
}

abbrev pub toml : List (String × Image) → HostToml
toml images = record {
  controller_id = "c";
  orbctl_path = "/orbctl";
  state_dir = "/state";
  max_instances = pos 2;
  operation_timeout = "+ii";
  images = images;
  flavors = ("small", record { cpus = pos 2; memory_mib = pos 4; disk_bytes = pos 8 }) ∷ [];
}

abbrev pub manifest_path : String
manifest_path = "/state/manifests/ubuntu-24.04-arm64-minimal-2.300.0-ab.json"

abbrev pub with_template : HostToml
with_template =
    toml (
      (image_id, record { machine_id = "t-1"; manifest_path = manifest_path; arch = "arm64" }) ∷ [])

abbrev pub sealed : Manifest
sealed = record {
  schema_version = pos 1;
  image_id = image_id;
  machine_id = "t-1";
  os_version = "noble";
  variant = "minimal";
  recipe_sha256 = digest;
  arch = "arm64";
  runner_filename = "actions-runner-linux-arm64-2.300.0.tar.gz";
  runner_sha256 = digest;
  orbstack_version = "2.2.3";
  packages = ("jq", "1.7") ∷ [];
}

abbrev pub bench : String → (String → ManifestFile) → Bench String
bench state manifests = record {
  host = record { text = some "before"; stat = λ _. ok tt; faults = []; rivals = [] };
  disk = disk_with [];
  session = record { backend = state; sent = [] };
  manifests = manifests;
  drawn = ok "ab" ∷ [];
}
