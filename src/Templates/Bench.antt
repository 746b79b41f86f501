-- ===== src/Templates/Bench.antt =====
-- What the template builder works on (internal/templates/builder.go): the host configuration, the
-- registry's disk, the machines behind `orbctl`, and the manifest files with `WriteManifest` of
-- internal/templates/manifest.go.
pub mod Keeps
use garm_provider_orbstack.Prelude.{String, Bool, true, false, ◌==◌, List, [], ◌∷◌, if◌then◌else◌}
use garm_provider_orbstack.Error.{Error, Result, ok, err, sentinel, external, is, not_exist}
use garm_provider_orbstack.Exec.{Exec, pure, lift, ◌>>=◌, ◌>>◌}
use garm_provider_orbstack.Disk.{Disk, close_lock}
use garm_provider_orbstack.Orbstack.Client.{Session}
use garm_provider_orbstack.Config.Store.{HostDir, host_call}
use garm_provider_orbstack.Templates.Manifest.{
  Manifest, ManifestFile, unreadable, undecodable, decoded, validate_manifest,
}

-- `drawn` holds the outcomes of the coming reads of random bytes, in hexadecimal.
pub record Bench (S : Type 0) : Type 0 where
  pub host : HostDir
  pub disk : Disk
  pub session : Session S
  pub manifests : String → ManifestFile
  pub drawn : List (Result String)

-- `os.Stat` of a manifest
abbrev pub stat_of : ManifestFile → Result (Unit {0})
stat_of (unreadable e) = if is e not_exist then err e else ok tt
stat_of undecodable = ok tt
stat_of (decoded m trailing) = ok tt

-- `os.Stat` of each manifest
abbrev pub stats_of : (String → ManifestFile) → String → Result (Unit {0})
stats_of manifests path = stat_of (manifests path)

abbrev pub is_absent : ManifestFile → Bool
is_absent (unreadable e) = is e not_exist
is_absent undecodable = false
is_absent (decoded m trailing) = false

module _ {S : Type 0} where
  abbrev pub seen_host : Bench S → HostDir
  seen_host b = record b.host { stat = stats_of b.manifests }

  -- an operation on the host configuration, which sees the manifests that there are
  unfoldable pub on_host {ℓ} : {A : Type ℓ} → Exec HostDir A → Exec (Bench S) A
  on_host m b = let (r, h) = m (seen_host b) in (r, record b { host = h })

  unfoldable pub on_registry {ℓ} : {A : Type ℓ} → Exec Disk A → Exec (Bench S) A
  on_registry m b = let (r, d) = m b.disk in (r, record b { disk = d })

  unfoldable pub on_session {ℓ} : {A : Type ℓ} → Exec (Session S) A → Exec (Bench S) A
  on_session m b = let (r, s) = m b.session in (r, record b { session = s })

  -- `defer lock.Close()` around the rest of a function
  unfoldable pub closing {ℓ} : {A : Type ℓ} → String → Exec (Bench S) A → Exec (Bench S) A
  closing path body b =
      let (r, b') = body b in (r, record b' { disk = (close_lock path b'.disk).1 })

  abbrev pub put_manifest : String → ManifestFile → Bench S → Bench S
  put_manifest path file b = record b { manifests = λ p. if p == path then file else b.manifests p }

  -- `os.Link` of the temporary file, which never replaces a file
  unfoldable pub link_manifest : String → Manifest → Exec (Bench S) (Unit {0})
  link_manifest path m b =
      if is_absent (b.manifests path)
      then (ok tt, put_manifest path (decoded m false) b)
      else (err (external "file exists"), b)

  -- `WriteManifest`: create the temporary file, set its mode, encode, sync, close, link, and open and
  -- sync the directory
  unfoldable pub write_manifest : String → Manifest → Exec (Bench S) (Unit {0})
  write_manifest path m = do
    lift (validate_manifest m)
    on_host host_call
    on_host host_call
    on_host host_call
    on_host host_call
    on_host host_call
    on_host host_call
    link_manifest path m
    on_host host_call
    on_host host_call

  abbrev pub vanish : String → Exec (Bench S) (Unit {0})
  vanish path b = (ok tt, put_manifest path (unreadable (sentinel not_exist)) b)

  -- `os.Remove` of a manifest: a file that is not there is no error
  unfoldable pub remove_manifest : String → Exec (Bench S) (Unit {0})
  remove_manifest path = do on_host host_call; vanish path
