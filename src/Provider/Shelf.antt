-- ===== src/Provider/Shelf.antt =====
-- A small provider for the tests: machines on a shelf, a host with one template, and a request.
use garm_provider_orbstack.Prelude.{
  String, false, ◌==◌, List, [], ◌∷◌, pos, some, none, if◌then◌else◌,
}
use garm_provider_orbstack.Error.{Result, ok, err, external, sentinel, machine_not_found}
use garm_provider_orbstack.Exec.{pure}
use garm_provider_orbstack.Config.{Host}
use garm_provider_orbstack.Orbstack.{Machine, Info}
use garm_provider_orbstack.Templates.Manifest.{unreadable}
use garm_provider_orbstack.Provider.World.{World, Machines, Provider}
use garm_provider_orbstack.Templates.Manifest.{Manifest}
use garm_provider_orbstack.Provider.Bootstrap.{
  Tooling, BootstrapInstance, BootstrapPlan, plan_files,
}
use garm_provider_orbstack.Samples.{plain_platform, alpha_created, disk_with, registry, machine}

abbrev pub Shelf : Type 0
Shelf = List Machine

abbrev pub look_up : String → Shelf → Result Info
look_up id [] = err (sentinel machine_not_found)
look_up id (m ∷ rest) =
    if m.id == id
    then ok (record { machine = m; disk_size = pos 0; ip4 = ""; ip6 = "" })
    else look_up id rest

abbrev pub without : String → Shelf → Shelf
without id [] = []
without id (m ∷ rest) = if m.id == id then without id rest else m ∷ without id rest

-- a backend that lists and deletes
abbrev pub shelf_machines : Machines Shelf
shelf_machines = record {
  start_clone = λ source name. pure tt;
  wait_clone = pure tt;
  info = λ id o. (look_up id o, o);
  list = λ o. (ok o, o);
  apply_settings = λ name settings. pure tt;
  start = λ id. pure tt;
  stop = λ id. pure tt;
  delete = λ id o. (ok tt, without id o);
  run = λ options. pure tt;
  cancelled = λ o. false;
}

abbrev pub host : Host
host = record {
  controller_id = "c";
  orbctl_path = "/usr/local/bin/orbctl";
  state_dir = "/var/state";
  max_instances = pos 2;
  operation_timeout = pos 60;
  images = ("noble", record { machine_id = "t-1"; manifest_path = "/m"; arch = "arm64" }) ∷ [];
  flavors = [];
}

abbrev pub provider : Provider
provider = record { host = host; pool_id = "p"; registry = registry }

abbrev pub tooling : Tooling
tooling = record {
  decode_specs = λ s. some (("first.sh", s) ∷ [], false);
  get_tools = λ arch offer. some (record { filename = "runner.tar.gz"; sha256_checksum = "" });
  render_script = λ b t name. some "#!/bin/sh";
  pem_decode = λ s. none;
  pem_encode = λ b. "";
  parse_certificate = λ s. false;
  tar = λ files. err (external "tar");
  equal_fold = λ a b. a == b;
}

abbrev pub world : World Shelf
world = record {
  disk = disk_with (alpha_created ∷ []);
  machines = machine "t-1" "template" "stopped" ∷ machine "id-1" "m-alpha" "running" ∷ [];
  requests = [];
  manifests = λ path. unreadable (external "open");
  drawn = [];
}

abbrev pub request : BootstrapInstance
request = record {
  name = "alpha";
  pool_id = "p";
  os_type = "linux";
  os_arch = "arm64";
  image = "noble";
  flavor = "small";
  ssh_keys = [];
  extra_specs = "x";
  extra_packages = "jq" ∷ "libc6:arm64=2.39-0ubuntu8" ∷ [];
  ca_cert_bundle = "";
  tools = [];
}

abbrev pub manifest : Manifest
manifest = record {
  schema_version = pos 1;
  image_id = "noble";
  machine_id = "t-1";
  os_version = "24.04";
  variant = "minimal";
  recipe_sha256 = "";
  arch = "arm64";
  runner_filename = "runner.tar.gz";
  runner_sha256 = "";
  orbstack_version = "2";
  packages = [];
}

abbrev pub plan : BootstrapPlan
plan = record {
  files = plan_files "#!/bin/sh" ([], "") request.extra_packages (("first.sh", "x") ∷ []);
  remove_cache = false;
}
