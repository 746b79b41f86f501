-- ===== src/Templates/Remove/Examples.antt =====
-- A removal of a template (internal/templates/builder.go).
use garm_provider_orbstack.Config.Validate.{
  check_flavor, check_flavors, check_image, check_images, is_abs, validate_host,
}
use garm_provider_orbstack.Prelude.{
  ℕ, String, Bool, true, false, ◌==◌, ◌≡◌, refl, ap, pos, List, [], ◌∷◌, Option, none, some,
  if◌then◌else◌, all_chars, before_first, contains, contains_any, contains_rune, cut_prefix,
  cut_suffix, decimal, has_prefix, has_suffix, is_blank, is_space, itoa, lookup, split_on,
  trim_left, trim_prefix, trim_right, trim_space, trim_suffix,
}
use garm_provider_orbstack.Error.{ok}
use garm_provider_orbstack.Exec.Ensures.{Post}
use garm_provider_orbstack.Orbstack.{Machine, Info}
use garm_provider_orbstack.Orbstack.Client.{
  Orbctl, Output, Session, apply_each, apply_settings, bad_command, create, create_args, first_line,
  first_version, info, read_info, run_args, run_output, run_streams, set_config, settings_list,
  stop, version, version_in,
}
use garm_provider_orbstack.Config.Samples.{two_texts, strokes, count_strokes, same_table}
use garm_provider_orbstack.Config.Store.{
  Codec, current_host, host_call, host_of, load_host, lock_host, publish_update, to_host, to_toml,
  update_host, update_locked, write_host_atomic, write_text,
}
use garm_provider_orbstack.Templates.Manifest.{
  decoded, Manifest, unreadable, check_identity, check_packages, check_provenance, image_id_matches,
  runner_version_matches, valid_sha256, validate_machine, validate_manifest,
}
use garm_provider_orbstack.Templates.Bench.{
  Bench, link_manifest, on_host, on_session, write_manifest,
}
use garm_provider_orbstack.Templates.Samples.{
  one_digest, image_id, one_template, toml, with_template, sealed, bench,
}
use garm_provider_orbstack.Templates.Remove.{remove}
use garm_provider_orbstack.Templates.Remove.Locked.{Removed, Stopped}
use garm_provider_orbstack.Templates.Remove.Authorized.{remove-Authorized}

instance abbrev texts : Codec
texts = two_texts with_template (toml [])

abbrev start : Bench String
start = bench "stopped" (λ _. decoded sealed false)

removed : (remove one_template "/host.toml" image_id start).0 ≡ ok tt
unfolding remove on_host load_host host_call host_of validate_host count_strokes lookup
    garm_provider_orbstack.Templates.Remove.check_registration
    garm_provider_orbstack.Templates.Manifest.load_manifest validate_manifest check_identity
    check_provenance garm_provider_orbstack.Templates.Remove.is_shared
    garm_provider_orbstack.Templates.Remove.remove_registered
    garm_provider_orbstack.Templates.Bench.on_registry
    garm_provider_orbstack.State.Registry.open_registry
    garm_provider_orbstack.State.Registry.snapshot
    garm_provider_orbstack.State.Registry.check_layout garm_provider_orbstack.Disk.system_call
    garm_provider_orbstack.Disk.acquire garm_provider_orbstack.Disk.poll_lock
    garm_provider_orbstack.Disk.then_close garm_provider_orbstack.State.Registry.read_records
    garm_provider_orbstack.State.Registry.decode_records
    garm_provider_orbstack.State.Validate.validate_records
    garm_provider_orbstack.State.Registry.lock_template garm_provider_orbstack.Disk.close_lock
    garm_provider_orbstack.Templates.Bench.closing
    garm_provider_orbstack.Templates.Remove.remove_locked
    garm_provider_orbstack.Templates.Remove.in_use garm_provider_orbstack.Prelude.filter
    garm_provider_orbstack.Templates.Remove.remove_drained current_host lock_host publish_update
    to_host to_toml update_host update_locked write_host_atomic write_text check_flavor
    check_flavors check_image check_images is_abs garm_provider_orbstack.Disk.verdict
    garm_provider_orbstack.Orbstack.Client.check_machines
    garm_provider_orbstack.Orbstack.Client.delete
    garm_provider_orbstack.Orbstack.Client.delete_bound
    garm_provider_orbstack.Orbstack.Client.delete_found
    garm_provider_orbstack.Orbstack.Client.find_by_id first_line
    garm_provider_orbstack.Orbstack.Client.first_with_id garm_provider_orbstack.Orbstack.Client.list
    garm_provider_orbstack.Orbstack.Client.random_machine_name
    garm_provider_orbstack.Orbstack.Client.read_list garm_provider_orbstack.Orbstack.Client.rename
    run_output contains all_chars before_first contains_any contains_rune cut_prefix cut_suffix
    has_prefix has_suffix is_blank is_space split_on trim_left trim_prefix trim_right trim_space
    trim_suffix garm_provider_orbstack.State.Record.phase_text
    garm_provider_orbstack.State.Record.record_key garm_provider_orbstack.State.Record.valid
    garm_provider_orbstack.State.Validate.check_phase
    garm_provider_orbstack.State.Validate.check_record
    garm_provider_orbstack.State.Validate.check_uuid
    garm_provider_orbstack.State.Validate.is_duplicate garm_provider_orbstack.State.Validate.mark
    garm_provider_orbstack.State.Validate.validate_from on_session
    garm_provider_orbstack.Templates.Bench.remove_manifest check_packages image_id_matches
    runner_version_matches valid_sha256 garm_provider_orbstack.Templates.Remove.deregister
    garm_provider_orbstack.Templates.Remove.forget_image
    garm_provider_orbstack.Templates.Remove.without_image strokes same_table
removed = refl

remove-Authorized_example :
    Post
      (Removed one_template start image_id)
      (Stopped one_template start image_id)
      (remove one_template "/host.toml" image_id start).0
      (remove one_template "/host.toml" image_id start).1
remove-Authorized_example = remove-Authorized one_template "/host.toml" start image_id
