-- ===== src/Provider/Owned.antt =====
-- The checks of internal/provider/provider.go that a machine is the one a record owns.
pub mod Seen
use garm_provider_orbstack.Prelude.{
  String, Bool, true, false, not, ◌==◌, ◌&&◌, ◌||◌, List, [], ◌∷◌, ◌++◌, contains, if◌then◌else◌,
}
use garm_provider_orbstack.Error.{sentinel, entity_not_found}
use garm_provider_orbstack.Exec.{Exec, pure, ◌>>=◌, ◌>>◌, refuse_if, raise_if}
use garm_provider_orbstack.Orbstack.{Machine, Info, state_running, state_stopped}
use garm_provider_orbstack.Config.{Image}
use garm_provider_orbstack.State.Record.{Record}
use garm_provider_orbstack.Provider.World.{
  Machines, World, Provider, on_machines, info_request, list_request,
}

-- the status that GARM is told
pub data InstanceStatus : Type 0 where
  running_status stopped_status error_status unknown_status : InstanceStatus

-- `params.ProviderInstance`
pub record ProviderInstance : Type 0 where
  pub provider_id : String
  pub name : String
  pub os_type : String
  pub os_name : String
  pub os_version : String
  pub os_arch : String
  pub status : InstanceStatus
  pub addresses : List String

-- the `switch` of `instance` on the machine's state
unfoldable pub status_of : String → InstanceStatus
status_of s =
    if s == state_running
    then running_status
    else if s == state_stopped
    then stopped_status
    else if s == "error" || s == "fault" || s == "failed"
    then error_status
    else unknown_status

abbrev present : String → List String
present ip = if ip == "" then [] else ip ∷ []

-- `instance`
unfoldable pub instance_of : Record → Info → ProviderInstance
unfolding status_of
instance_of r i = record {
  provider_id = r.machine_id;
  name = r.runner_name;
  os_type = "linux";
  os_name = i.machine.image.distro;
  os_version = i.machine.image.version;
  os_arch = i.machine.image.arch;
  status = status_of i.machine.state;
  addresses = present i.ip4 ++ present i.ip6;
}

-- the loop of `isTemplate`
unfoldable pub registered : String → List (String × Image) → Bool
registered id [] = false
registered id ((_, image) ∷ rest) = image.machine_id == id || registered id rest

-- the loop of `inventory`, with the IDs and names seen
unfoldable pub unambiguous : List String → List String → List Machine → Bool
unambiguous ids names [] = true
unambiguous ids names (m ∷ rest) =
    not (m.id == "" || m.name == "" || contains m.id ids || contains m.name names)
    && unambiguous (m.id ∷ ids) (m.name ∷ names) rest

-- whether a machine of this ID, or of this name, is listed
unfoldable pub lists_id : String → List Machine → Bool
lists_id id [] = false
lists_id id (m ∷ rest) = m.id == id || lists_id id rest

unfoldable pub lists_name : String → List Machine → Bool
lists_name name [] = false
lists_name name (m ∷ rest) = m.name == name || lists_name name rest

module _ {O : Type 0} (orb : Machines O) (p : Provider) where
  -- `isTemplate`
  unfoldable pub is_template : String → Bool
  is_template id = registered id p.host.images

  -- `inventory`
  unfoldable pub inventory : Exec (World O) (List Machine)
  inventory = do
    machines ← on_machines list_request orb.list
    refuse_if (not (unambiguous [] [] machines))
        "OrbStack returned an incomplete or ambiguous inventory"
    pure machines

  -- `ownedInfo`
  unfoldable pub owned_info : Record → Exec (World O) Info
  owned_info r = do
    refuse_if
        (not (r.controller_id == p.host.controller_id)
          || r.machine_id == ""
          || is_template r.machine_id)
        "refusing unowned or template target"
    machines ← inventory
    raise_if (not (lists_id r.machine_id machines)) (sentinel entity_not_found)
    info ← on_machines (info_request r.machine_id) (orb.info r.machine_id)
    refuse_if (not (info.machine.id == r.machine_id)) "OrbStack machine identity changed"
    pure info

  -- `observe`
  unfoldable pub observe : Record → Exec (World O) ProviderInstance
  observe r = do info ← owned_info r; pure (instance_of r info)
