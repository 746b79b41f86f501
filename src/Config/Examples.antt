-- ===== src/Config/Examples.antt =====
-- Runs of the host configuration's operations (internal/config/config.go).
use garm_provider_orbstack.Prelude.{arith, ℕ, String, ◌≡◌, refl, ap, pos, some, none, List, [], ◌∷◌}
use garm_provider_orbstack.Error.{Result, ok, err, external, wrapped}
use garm_provider_orbstack.Exec.Ensures.{Post}
use garm_provider_orbstack.Config.Samples.{
  count_strokes, strokes, same_table, two_texts, two_texts-Faithful,
}
use garm_provider_orbstack.Samples.{plain_platform}
use garm_provider_orbstack.Config.{Image, Flavor, Host}
use garm_provider_orbstack.Config.Store.{
  Codec, HostDir, HostToml, update_host, current_host, host_call, host_of, to_toml,
}
use garm_provider_orbstack.Config.Store.Update.{update_host-all_or_nothing, Committed, Spared}
use garm_provider_orbstack.Config.Store.Reload.{Reloaded, load_host-update_host}

abbrev small : List (String × Flavor)
small = ("small", record { cpus = pos 2; memory_mib = pos 4; disk_bytes = pos 8 }) ∷ []

abbrev toml : ℕ → HostToml
toml max = record {
  controller_id = "c";
  orbctl_path = "/orbctl";
  state_dir = "/state";
  max_instances = pos max;
  operation_timeout = "+ii";
  images = [];
  flavors = small;
}

instance abbrev texts : Codec
texts = two_texts (toml 2) (toml 3)

-- the file allows two instances; the coming system calls succeed
abbrev start : HostDir
start = record { text = some "before"; stat = λ _. ok tt; faults = []; rivals = [] }

abbrev three_instances : Host → Result Host
three_instances host = ok (record host { max_instances = pos 3 })

raised :
    update_host "/host.toml" three_instances start ≡ (ok tt, record start { text = some "after" })
unfolding update_host garm_provider_orbstack.Config.Validate.is_abs host_call
    garm_provider_orbstack.Config.Store.lock_host garm_provider_orbstack.Config.Store.update_locked
    current_host garm_provider_orbstack.Config.Store.load_host host_of
    garm_provider_orbstack.Config.Validate.validate_host count_strokes
    garm_provider_orbstack.Config.Store.publish_update
    garm_provider_orbstack.Config.Store.write_host_atomic to_toml strokes same_table
raised = refl

load_host-update_host_example :
    Reloaded three_instances start (update_host "/host.toml" three_instances start).1
load_host-update_host_example =
    load_host-update_host (two_texts-Faithful (toml 2) (toml 3) (tt, (tt, tt)) (tt, (tt, tt)))
      three_instances
      (λ h after ordered updated.
        let images : h.images ≡ after.images = ground arith in
        let flavors : h.flavors ≡ after.flavors = ground arith in
        rw (← images) (rw (← flavors) ordered))
      "/host.toml" start (ap (λ (r : Result (Unit {0}) × HostDir). r.0) raised)

-- The rename fails: directory, lock file, lock, reading, four steps of the temporary file, its closing.
abbrev faulty : HostDir
faulty = record start {
  faults = none ∷ none ∷ none ∷ none ∷ none ∷ none ∷ none ∷ none ∷ none ∷ some "EIO" ∷ [];
  rivals = (λ _. some "after") ∷ [];
}

not_renamed : update_host "/host.toml" three_instances faulty ≡ (
  err (wrapped "publishing host config" (external "EIO")),
  record start { text = some "after" },
)
unfolding update_host garm_provider_orbstack.Config.Validate.is_abs host_call
    garm_provider_orbstack.Config.Store.lock_host garm_provider_orbstack.Config.Store.update_locked
    current_host garm_provider_orbstack.Config.Store.load_host host_of
    garm_provider_orbstack.Config.Validate.validate_host count_strokes
    garm_provider_orbstack.Config.Store.publish_update
    garm_provider_orbstack.Config.Store.write_host_atomic to_toml strokes same_table
not_renamed = refl

update_host-all_or_nothing_example :
    Post
      (Committed three_instances faulty)
      (Spared three_instances faulty)
      (update_host "/host.toml" three_instances faulty).0
      (update_host "/host.toml" three_instances faulty).1
update_host-all_or_nothing_example = update_host-all_or_nothing three_instances faulty "/host.toml"
