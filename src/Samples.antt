-- ===== src/Samples.antt =====
-- Small concrete values for the tests: a platform, a disk, records and a machine backend.
use garm_provider_orbstack.Prelude.{
  String, true, false, ◌==◌, List, [], ◌∷◌, pos, Option, some, none, if◌then◌else◌, contains,
}
use garm_provider_orbstack.Error.{ok}
use garm_provider_orbstack.Platform.{Platform}
use garm_provider_orbstack.Disk.{Disk, Files, Kind, directory, regular, array}
use garm_provider_orbstack.State.Record.{Record, Phase, reserved, created}
use garm_provider_orbstack.State.Registry.{Registry}
use garm_provider_orbstack.Orbstack.{Machine}
use garm_provider_orbstack.Orbstack.Client.{Orbctl, Output, Session}

instance abbrev pub plain_platform : Platform
plain_platform = record { sha256_hex = λ s. s; parse_uuid = λ s. some s }

abbrev pub runner : String → String → String → Phase → Record
runner name machine_name id phase = record {
  schema_version = pos 1;
  controller_id = "c";
  pool_id = "p";
  runner_name = name;
  machine_name = machine_name;
  machine_id = id;
  image_id = "noble";
  flavor = "small";
  phase = phase;
}

abbrev pub alpha : Record
alpha = runner "alpha" "m-alpha" "" reserved

abbrev pub alpha_created : Record
alpha_created = runner "alpha" "m-alpha" "id-1" created

abbrev pub beta : Record
beta = runner "beta" "m-beta" "" reserved

abbrev pub entry_kind : String → Option Kind
entry_kind name =
    if contains name ("" ∷ "instances" ∷ "templates" ∷ "clone-intents" ∷ [])
    then some directory
    else if contains name ("global.lock" ∷ "records.json" ∷ [])
    then some regular
    else none

abbrev pub files_with : List Record → Files
files_with records = record { entries = entry_kind; content = array records false; intents = [] }

abbrev pub disk_with : List Record → Disk
disk_with records = record { files = files_with records; faults = []; polls = []; held = [] }

abbrev pub registry : Registry
registry = record { controller_id = "c" }

abbrev pub machine : String → String → String → Machine
machine id name state = record {
  id = id;
  name = name;
  image = record { distro = "ubuntu"; version = "noble"; arch = "arm64"; variant = "default" };
  config = record {
    isolated = true;
    forward_ssh_agent = false;
    isolate_network = false;
    default_username = "runner";
    http_port = pos 0;
    https_port = pos 0;
  };
  builtin = false;
  state = state;
}

-- One machine of a given ID, whose name is the state: a renaming sets it.
abbrev pub answer : List String → String → Output × String
answer (command ∷ id ∷ fresh ∷ []) name = (
  record { stdout = name; stderr = ""; failure = none },
  if command == "rename" then fresh else name,
)
answer _ name = (record { stdout = name; stderr = ""; failure = none }, name)

abbrev pub one_machine : Orbctl String
one_machine = record {
  spawn = answer;
  random_hex = λ n s. (ok "0011", s);
  decode_info = λ s. none;
  decode_list = λ s. some (some (machine "id-1" s "running" ∷ []));
}

abbrev pub session : Session String
session = record { backend = "m-alpha"; sent = [] }
