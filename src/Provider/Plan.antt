-- ===== src/Provider/Plan.antt =====
-- `prepareBootstrap` of internal/provider/bootstrap.go.
use Prim.Native.String.{count}
use garm_provider_orbstack.Prelude.{not, ◌==◌, ◌&&◌, trim_space}
use garm_provider_orbstack.Error.{Result, ok}
use garm_provider_orbstack.Outcome.{◌>>=◌, ◌>>◌, refuse_if}
use garm_provider_orbstack.Templates.Manifest.{Manifest, valid_sha256}
use garm_provider_orbstack.Provider.Patterns.{package_matches}
use garm_provider_orbstack.Provider.Bootstrap.{
  Tooling, Tools, BootstrapInstance, BootstrapPlan, scripts_of, script_names_ok, every, is_empty,
  certificates, cache_matches, plan_files, or_refuse, sort_scripts,
}

module _ (tooling : Tooling) (bootstrap : BootstrapInstance) where
  -- the choice of the runner's tools
  unfoldable pub choose_tools : Result Tools
  choose_tools = do
    tools ←
        or_refuse (tooling.get_tools bootstrap.os_arch bootstrap.tools)
          "no compatible Linux runner tools supplied"
    refuse_if (not (tools.sha256_checksum == "") && not (valid_sha256 tools.sha256_checksum))
        "invalid runner tools SHA-256"
    ok tools

  -- `prepareBootstrap`
  unfoldable pub prepare_bootstrap : Manifest → Result BootstrapPlan
  prepare_bootstrap manifest = do
    refuse_if (not (is_empty bootstrap.ssh_keys))
        "ssh-keys are unsupported: runners have no guest SSH service"
    scripts ← scripts_of tooling bootstrap.extra_specs
    refuse_if (not (script_names_ok scripts))
        "pre-install scripts require safe single-component filenames"
    refuse_if (not (every package_matches bootstrap.extra_packages))
        "extra_packages contains an invalid Debian package specification"
    tools ← choose_tools
    script ←
        or_refuse (tooling.render_script bootstrap tools bootstrap.name)
          "unable to render GARM runner-install template"
    certs ←
        certificates tooling (count bootstrap.ca_cert_bundle) 0
          (trim_space bootstrap.ca_cert_bundle)
    ok (record {
      files = plan_files script certs bootstrap.extra_packages (sort_scripts scripts);
      remove_cache = not (cache_matches tooling manifest tools);
    })
