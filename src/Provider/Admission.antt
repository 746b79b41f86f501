-- ===== src/Provider/Admission.antt =====
-- The checks of `CreateInstance` of internal/provider/provider.go, up to its lock.
use garm_provider_orbstack.Prelude.{
  String, Bool, not, ◌==◌, ◌&&◌, ◌||◌, is_blank, contains_rune, lookup,
}
use garm_provider_orbstack.Error.{Result, ok}
use garm_provider_orbstack.Outcome.{◌>>=◌, ◌>>◌, refuse_if}
use garm_provider_orbstack.Config.{Image, Flavor}
use garm_provider_orbstack.Templates.Manifest.{Manifest, ManifestFile, load_manifest}
use garm_provider_orbstack.Provider.World.{Provider}
use garm_provider_orbstack.Provider.Bootstrap.{BootstrapInstance, BootstrapPlan, Tooling, or_refuse}
use garm_provider_orbstack.Provider.Plan.{prepare_bootstrap}

-- What the checks of a request find: its image, its flavor, the manifest and the plan.
pub record Admitted : Type 0 where
  pub image : Image
  pub flavor : Flavor
  pub manifest : Manifest
  pub plan : BootstrapPlan

abbrev pub disagree : BootstrapInstance → Image → Manifest → Bool
disagree b image manifest =
    not (manifest.image_id == b.image)
    || not (manifest.machine_id == image.machine_id)
    || not (manifest.arch == image.arch)

-- the checks of the request by itself
unfoldable pub check_request : Provider → BootstrapInstance → Result (Unit {0})
check_request p b = do
  refuse_if (is_blank b.name || contains_rune 0 b.name) "runner name is required"
  refuse_if (p.pool_id == "" || not (b.pool_id == p.pool_id))
      "bootstrap pool does not match invocation pool"
  refuse_if (not (b.os_type == "linux")) "only Linux runners are supported"
  refuse_if (not (b.os_arch == "arm64") && not (b.os_arch == "amd64"))
      "only arm64 and amd64 runners are supported"

-- the checks of `CreateInstance`, with the manifest files of the host
unfoldable pub admitted :
    Tooling → Provider → (String → ManifestFile) → BootstrapInstance → Result Admitted
admitted tooling p manifests b = do
  check_request p b
  image ← or_refuse (lookup b.image p.host.images) "unknown registered image"
  refuse_if (not (image.arch == b.os_arch)) "runner architecture does not match registered image"
  flavor ← or_refuse (lookup b.flavor p.host.flavors) "unknown runner flavor"
  manifest ← load_manifest (manifests image.manifest_path)
  refuse_if (disagree b image manifest) "registered image and template manifest disagree"
  plan ← prepare_bootstrap tooling b manifest
  ok (record { image = image; flavor = flavor; manifest = manifest; plan = plan })
