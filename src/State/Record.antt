-- ===== src/State/Record.antt =====
-- internal/state/types.go: the registry record and its phases.
use Prim.Native.String.{◌++◌ as append}
use garm_provider_orbstack.Prelude.{String, Bool, true, false, not, ◌&&◌, ◌==◌, ℤ, pos, int_eq}
use garm_provider_orbstack.Platform.{Platform}

-- The values of the `phase` text that the code knows; any other text is `other`.
pub data Phase : Type 0 where
  reserved created bootstrapping active deleting : Phase
  other : String → Phase

unfoldable pub phase_text : Phase → String
phase_text reserved = "reserved"
phase_text created = "created"
phase_text bootstrapping = "bootstrapping"
phase_text active = "active"
phase_text deleting = "deleting"
phase_text (other t) = t

abbrev pub same_phase : Phase → Phase → Bool
same_phase reserved reserved = true
same_phase created created = true
same_phase bootstrapping bootstrapping = true
same_phase active active = true
same_phase deleting deleting = true
same_phase (other s) (other t) = s == t
same_phase _ _ = false

pub record Record : Type 0 where
  pub schema_version : ℤ
  pub controller_id : String
  pub pool_id : String
  pub runner_name : String
  pub machine_name : String
  pub machine_id : String
  pub image_id : String
  pub flavor : String
  pub phase : Phase

abbrev pub schema_version : ℤ
schema_version = pos 1

-- `Record.Valid`
unfoldable pub valid : Record → Bool
unfolding phase_text
valid r =
    int_eq r.schema_version schema_version
    && not (r.controller_id == "")
    && not (r.runner_name == "")
    && not (r.machine_name == "")
    && not (r.pool_id == "")
    && not (r.image_id == "")
    && not (r.flavor == "")
    && not (phase_text r.phase == "")

-- Go's `==` on records
unfoldable pub same_record : Record → Record → Bool
same_record a b =
    int_eq a.schema_version b.schema_version
    && a.controller_id == b.controller_id
    && a.pool_id == b.pool_id
    && a.runner_name == b.runner_name
    && a.machine_name == b.machine_name
    && a.machine_id == b.machine_id
    && a.image_id == b.image_id
    && a.flavor == b.flavor
    && same_phase a.phase b.phase

-- `recordKey` of registry.go
unfoldable pub record_key : ⦃p : Platform⦄ → String → String → String
record_key ⦃p⦄ controller_id name = p.sha256_hex (append controller_id (append "\0" name))
