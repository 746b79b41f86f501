-- ===== src/Templates/Build.antt =====
-- `Build` and `RegisterImage` of internal/templates/builder.go: a sealed template machine is made,
-- described by a manifest and registered.
mod Examples
pub mod Own
pub mod Identity
pub mod Commands
pub mod Steady
pub mod Committed
use Prim.Native.String.{◌++◌ as append, len}
use Prim.Native.Char.{Char, code, nul as nul_char}
use garm_provider_orbstack.Prelude.{
  String, Bool, true, false, not, ◌==◌, ◌&&◌, ◌||◌, ℤ, pos, List, [], ◌∷◌, ◌++◌, Option, none, some,
  eqb, decimal, if◌then◌else◌,
}
use garm_provider_orbstack.Error.{Error, Result, ok, err, message, external, wrapped, joined}
use garm_provider_orbstack.Exec.{Exec, pure, raise, lift, attempt, ◌>>=◌, ◌>>◌, refuse_if, wrapping}
use garm_provider_orbstack.Platform.{Platform}
use garm_provider_orbstack.Orbstack.{Machine, Info, CreateOptions, MachineSettings, RunOptions}
use garm_provider_orbstack.Orbstack.Client.{
  Orbctl, Output, Session, version, create, info, apply_settings, run_streams, stop,
}
use garm_provider_orbstack.Config.{Host}
use garm_provider_orbstack.Config.Store.{Codec, HostDir, host_call, load_host, update_host}
use garm_provider_orbstack.Templates.Manifest.{
  Manifest, schema_version, validate_manifest, validate_machine, archive_prefix,
}
use garm_provider_orbstack.Templates.Builder.{
  BuildOptions, validate_options, variant_of, parse_packages, register_update,
}
use garm_provider_orbstack.Templates.Bench.{Bench, on_host, on_session, write_manifest}
use garm_provider_orbstack.Templates.Recipe.{
  Toolbox, Recipe, runner_images_tag, runner_images_commit, lower_hex, plain_settings, work_dir,
  in_work_dir, runner_filename, create_options, image_id_of, machine_name_of, recipe,
}

-- `RegisterImage`
unfoldable pub register_image :
    ⦃codec : Codec⦄ ⦃p : Platform⦄ → String → Host → Manifest → String → Exec HostDir (Unit {0})
register_image path original m manifest_path = do
  lift (validate_manifest m)
  update_host path (register_update original m manifest_path)

module _ {S : Type 0} (orbctl : Orbctl S) (orbctl_path : String) where
  abbrev judged : Output → Result String
  judged o = elim o.failure [
    | none ↦ ok o.stdout
    | some e ↦ err (wrapped "template provisioning command failed" e)
  ]

  -- the closure `run`: a command of the guest's root, with its input and what it prints
  unfoldable pub run_guest : String → List String → String → Exec (Session S) String
  run_guest id command input = do
    out ← wrapping "template provisioning command failed" (
        run_streams orbctl orbctl_path
          (record { machine = id; user = "root"; workdir = ""; command = command; stdin = input }))
    lift (judged out)

  -- the commands whose output is thrown away
  unfoldable pub run_quiet : String → List String → String → Exec (Session S) (Unit {0})
  run_quiet id command input = do _ ← run_guest id command input; pure tt

  -- the scripts are written into the machine
  unfoldable pub write_scripts : String → Recipe → Exec (Session S) (Unit {0})
  write_scripts id r = do
    run_quiet id ("install" ∷ "-d" ∷ "-m" ∷ "0700" ∷ work_dir ∷ []) ""
    run_quiet id ("tee" ∷ in_work_dir "prepare.sh" ∷ []) r.prepare
    run_quiet id ("tee" ∷ in_work_dir "seal.sh" ∷ []) r.seal
    run_quiet id ("tee" ∷ in_work_dir "install-github-toolset.sh" ∷ []) r.toolset

  abbrev pub prepare_command : BuildOptions → List String
  prepare_command o =
      "sh"
      ∷ in_work_dir "prepare.sh"
      ∷ o.arch
      ∷ o.runner_version
      ∷ lower_hex o.runner_sha256
      ∷ runner_filename o
      ∷ []

  abbrev pub toolset_command : List String
  toolset_command =
      "bash"
      ∷ in_work_dir "install-github-toolset.sh"
      ∷ runner_images_tag
      ∷ runner_images_commit
      ∷ []

  -- the full variant installs the official toolset
  unfoldable pub install_toolset : String → BuildOptions → Exec (Session S) (Unit {0})
  install_toolset id o =
      if variant_of o.variant == "full" then run_quiet id toolset_command "" else pure tt

  -- from the settings to the inventory of packages
  unfoldable pub provision :
      BuildOptions → Recipe → String → String → Exec (Session S) (List (String × String))
  provision o r name id = do
    apply_settings orbctl orbctl_path name plain_settings
    write_scripts id r
    run_quiet id (prepare_command o) ""
    install_toolset id o
    run_quiet id ("sh" ∷ in_work_dir "seal.sh" ∷ []) ""
    inventory ← run_guest id ("dpkg-query" ∷ "-W" ∷ "-f=${binary:Package}\t${Version}\n" ∷ []) ""
    lift (parse_packages inventory)

  -- the manifest is left in the machine, which is stopped and looked at once more
  unfoldable pub seal_machine : Manifest → String → Exec (Session S) (Unit {0})
  seal_machine m metadata = do
    run_quiet m.machine_id ("install" ∷ "-d" ∷ "-m" ∷ "0755" ∷ "/etc/garm-template" ∷ []) ""
    run_quiet m.machine_id ("tee" ∷ "/etc/garm-template/manifest.json" ∷ []) metadata
    run_quiet m.machine_id ("chmod" ∷ "0644" ∷ "/etc/garm-template/manifest.json" ∷ []) ""
    run_quiet m.machine_id ("rm" ∷ "-rf" ∷ work_dir ∷ []) ""
    stop orbctl orbctl_path m.machine_id
    stopped ← info orbctl orbctl_path m.machine_id
    lift (validate_machine m stopped.machine)

  -- the manifest of the machine
  abbrev pub manifest_for :
      BuildOptions → Recipe → String → String → Machine → List (String × String) → Manifest
  manifest_for o r ver nonce machine packages = record {
    schema_version = schema_version;
    image_id = image_id_of o nonce;
    machine_id = machine.id;
    os_version = machine.image.version;
    variant = variant_of o.variant;
    recipe_sha256 = r.hash;
    arch = o.arch;
    runner_filename = runner_filename o;
    runner_sha256 = lower_hex o.runner_sha256;
    orbstack_version = ver;
    packages = packages;
  }

  -- the part of `Build` whose failure stops the machine and keeps it for inspection
  unfoldable pub make_template :
      Toolbox → BuildOptions → Recipe → String → String → Machine → Exec (Session S) Manifest
  make_template box o r ver nonce machine = do
    packages ← provision o r (machine_name_of o nonce) machine.id
    metadata ← lift (box.encode_manifest (manifest_for o r ver nonce machine packages))
    seal_machine (manifest_for o r ver nonce machine packages) metadata
    pure (manifest_for o r ver nonce machine packages)

  -- `errors.Join` of the cause and what stopping gave
  abbrev pub joined_with : Error → Result (Unit {0}) → Error
  joined_with cause (ok _) = cause
  joined_with cause (err e) = joined cause e

  -- the closure `fail`
  unfoldable pub retain {ℓ} : {A : Type ℓ} → String → Error → Exec (Session S) A
  retain id cause = do
    stopped ← attempt (stop orbctl orbctl_path id)
    raise (wrapped "template retained for inspection" (joined_with cause stopped))

  -- `return fail(err)` for every error of a part
  unfoldable pub retaining {ℓ} : {A : Type ℓ} → String → Exec (Session S) A → Exec (Session S) A
  retaining id body = do made ← attempt body; elim made [ ok a ↦ pure a | err e ↦ retain id e ]

  -- the machine is created, and its identity is what OrbStack reports for its name
  unfoldable pub create_template : BuildOptions → String → Exec (Session S) Machine
  create_template o name = do
    wrapping "template creation outcome uncertain"
        (create orbctl orbctl_path (create_options o name))
    found ← wrapping "template created but identity unrecorded" (info orbctl orbctl_path name)
    refuse_if (found.machine.id == "" || not (found.machine.name == name))
        "template identity is uncertain"
    pure found.machine

-- the path of the manifest, of a state directory without a trailing slash
abbrev pub manifest_path_of : Host → String → String
manifest_path_of host image_id =
    append host.state_dir (append "/manifests/" (append image_id ".json"))

module _ {S : Type 0} where
  -- `rand.Read`
  abbrev pub draw_nonce : List (Result String) → Bench S → Result String × Bench S
  draw_nonce [] b = (err (external "rand"), b)
  draw_nonce (r ∷ rest) b = (r, record b { drawn = rest })

module _ {S : Type 0} ⦃codec : Codec⦄ ⦃p : Platform⦄ (orbctl : Orbctl S) (box : Toolbox)
    (config_path : String) where
  -- what follows once the template is sealed: its manifest is written and the image registered
  unfoldable pub commit_template : Host → Manifest → Exec (Bench S) Manifest
  commit_template host m = do
    wrapping "sealed template retained; creating manifest directory" (on_host host_call)
    wrapping "sealed template retained; manifest commit failed"
        (write_manifest (manifest_path_of host m.image_id) m)
    wrapping "sealed template retained with manifest; registration uncertain"
        (on_host (register_image config_path host m (manifest_path_of host m.image_id)))
    pure m

  -- the part of `Build` that talks to OrbStack
  unfoldable pub make_machine :
      BuildOptions → Host → Recipe → String → String → Exec (Session S) Manifest
  make_machine o host r ver nonce = do
    machine ← create_template orbctl host.orbctl_path o (machine_name_of o nonce)
    retaining orbctl host.orbctl_path machine.id
        (make_template orbctl host.orbctl_path box o r ver nonce machine)

  -- `Build`
  unfoldable pub build : BuildOptions → Exec (Bench S) Manifest
  build o = do
    lift (validate_options o)
    host ← on_host load_host
    r ← lift (recipe box)
    ver ← on_session (version orbctl host.orbctl_path)
    nonce ← λ b. draw_nonce b.drawn b
    m ← on_session (make_machine o host r ver nonce)
    commit_template host m
