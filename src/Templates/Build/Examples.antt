-- ===== src/Templates/Build/Examples.antt =====
-- A build of a template from its beginning to its registration (internal/templates/builder.go), and
-- the removal of the template.
use garm_provider_orbstack.Templates.Recipe.{Toolbox, lower_hex, recipe, recipe_entry}
use garm_provider_orbstack.Config.Validate.{
  check_flavor, check_flavors, check_image, check_images, is_abs, validate_host,
}
use garm_provider_orbstack.Prelude.{
  String, ◌≡◌, refl, [], all_chars, before_first, contains, contains_any, contains_rune, cut_prefix,
  cut_suffix, decimal, has_prefix, has_suffix, is_blank, is_space, itoa, lookup, split_on,
  trim_left, trim_prefix, trim_right, trim_space, trim_suffix,
}
use garm_provider_orbstack.Error.{ok, sentinel, not_exist}
use garm_provider_orbstack.Orbstack.Client.{
  apply_each, apply_settings, bad_command, create, create_args, first_line, first_version, info,
  read_info, run_args, run_output, run_streams, set_config, settings_list, stop, version,
  version_in,
}
use garm_provider_orbstack.Config.Samples.{two_texts, strokes, count_strokes, same_table}
use garm_provider_orbstack.Config.Store.{
  Codec, current_host, host_call, host_of, load_host, lock_host, publish_update, to_host, to_toml,
  update_host, update_locked, write_host_atomic, write_text,
}
use garm_provider_orbstack.Templates.Manifest.{
  unreadable, check_identity, check_packages, check_provenance, image_id_matches,
  runner_version_matches, valid_sha256, validate_machine, validate_manifest,
}
use garm_provider_orbstack.Templates.Builder.{
  BuildOptions, cut_tab, has_machine, parse_lines, parse_packages, register_update,
  validate_options,
}
use garm_provider_orbstack.Templates.Bench.{
  Bench, link_manifest, on_host, on_session, write_manifest,
}
use garm_provider_orbstack.Templates.Build.{
  build, commit_template, create_template, install_toolset, make_machine, make_template, provision,
  register_image, retain, retaining, run_guest, run_quiet, seal_machine, write_scripts,
}
use garm_provider_orbstack.Templates.Build.Committed.{InPlace, build-InPlace}
use garm_provider_orbstack.Templates.Samples.{
  digest, one_digest, one_template, toml, with_template, sealed, bench,
}

instance abbrev texts : Codec
texts = two_texts (toml []) with_template

abbrev start : Bench String
start = bench "running" (λ _. unreadable (sentinel not_exist))

abbrev box : Toolbox
box = record { read = λ name. ok name; encode_manifest = λ _. ok "{}" }

abbrev options : BuildOptions
options = record {
  arch = "arm64";
  runner_version = "2.300.0";
  runner_sha256 = digest;
  variant = "";
}

built : (build one_template box "/host.toml" options start).0 ≡ ok sealed
unfolding build validate_options runner_version_matches valid_sha256 on_host load_host host_call
    host_of validate_host count_strokes recipe on_session version run_output first_version
    version_in before_first make_machine create_template create info read_info retaining
    make_template provision apply_settings apply_each settings_list set_config write_scripts
    run_quiet run_guest run_streams current_host lock_host publish_update to_host to_toml
    update_host update_locked write_host_atomic write_text check_flavor check_flavors check_image
    check_images is_abs bad_command create_args first_line run_args stop contains lookup all_chars
    contains_any contains_rune cut_prefix cut_suffix decimal has_prefix has_suffix is_blank is_space
    itoa split_on trim_left trim_prefix trim_right trim_space trim_suffix link_manifest
    write_manifest commit_template install_toolset lower_hex recipe_entry register_image retain
    seal_machine cut_tab has_machine parse_lines parse_packages register_update check_identity
    check_packages check_provenance image_id_matches validate_machine validate_manifest strokes
    same_table
built = refl

build-InPlace_example : InPlace start sealed (build one_template box "/host.toml" options start).1
build-InPlace_example = build-InPlace "/host.toml" one_template box start options built
