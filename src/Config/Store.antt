-- ===== src/Config/Store.antt =====
-- The host configuration file (internal/config/config.go): `loadHostFile`, `UpdateHost` and
-- `writeHostAtomic`, over the file that other processes also write and system calls that may fail.
pub mod Plain
pub mod Load
pub mod Publish
pub mod Update
pub mod Reload
use garm_provider_orbstack.Prelude.{
  String, Bool, true, false, not, ◌==◌, ℤ, pos, int_eq, Option, some, none, List, [], ◌∷◌,
  if◌then◌else◌,
}
use garm_provider_orbstack.Error.{
  Error, Result, ok, err, sentinel, external, message, wrapped, is, not_exist,
}
use garm_provider_orbstack.Exec.{
  Exec, pure, raise, lift, attempt, ◌>>=◌, ◌>>◌, refuse_if, wrap, wrapping,
}
use garm_provider_orbstack.Platform.{Platform}
use garm_provider_orbstack.Config.{Image, Flavor, Host}
use garm_provider_orbstack.Config.Validate.{validate_host, is_abs}

-- `hostTOML`: the timeout is a text.
pub record HostToml : Type 0 where
  pub controller_id : String
  pub orbctl_path : String
  pub state_dir : String
  pub max_instances : ℤ
  pub operation_timeout : String
  pub images : List (String × Image)
  pub flavors : List (String × Flavor)

-- github.com/BurntSushi/toml on `hostTOML`, where decoding also gives the keys it did not use, and
-- the texts of a `time.Duration`.
pub record Codec : Type 0 where
  pub encode : HostToml → Result String
  pub decode : String → Option (HostToml × List String)
  pub parse_duration : String → Option ℤ
  pub format_duration : ℤ → String

-- The text of `host.toml`, if it exists, and what the file system answers about manifests. `faults`
-- holds the outcomes of the coming system calls as for `Disk`. `rivals` holds, for each coming lock
-- on `host.toml.lock`, what other processes did to the file before the lock was granted.
pub record HostDir : Type 0 where
  pub text : Option String
  pub stat : String → Result (Unit {0})
  pub faults : List (Option String)
  pub rivals : List (Option String → Option String)

abbrev pub outcome : List (Option String) → HostDir → Result (Unit {0}) × HostDir
outcome [] d = (ok tt, d)
outcome (none ∷ rest) d = (ok tt, record d { faults = rest })
outcome (some e ∷ rest) d = (err (external e), record d { faults = rest })

unfoldable pub host_call : Exec HostDir (Unit {0})
host_call d = outcome d.faults d

abbrev pub seconds_of : Option ℤ → Result ℤ
seconds_of none = err (message "invalid operation_timeout")
seconds_of (some d) = ok d

abbrev pub without_unknown : Option (HostToml × List String) → Result HostToml
without_unknown none = err (external "parsing host config")
without_unknown (some (t, [])) = ok t
without_unknown (some (t, key ∷ keys)) = err (message "host config has unknown keys")

-- `os.ReadFile` and `os.Stat` of the file
abbrev pub content_of : Option String → Result String
content_of none = err (sentinel not_exist)
content_of (some text) = ok text

abbrev pub exists : Option String → Result (Unit {0})
exists none = err (sentinel not_exist)
exists (some text) = ok tt

abbrev pub read_file : Exec HostDir String
read_file = do host_call; λ d. (content_of d.text, d)

abbrev pub stat_file : Exec HostDir (Unit {0})
stat_file = do host_call; λ d. (exists d.text, d)

-- `Host{}`
abbrev pub zero_host : Host
zero_host = record {
  controller_id = "";
  orbctl_path = "";
  state_dir = "";
  max_instances = pos 0;
  operation_timeout = pos 0;
  images = [];
  flavors = [];
}

abbrev pub unless_there : Error → Result (Unit {0}) → Exec HostDir Host
unless_there e (ok _) = raise e
unless_there e (err _) = pure zero_host

abbrev pub after_rivals : List (Option String → Option String) → HostDir → HostDir
after_rivals [] d = d
after_rivals (f ∷ rest) d = record d { text = f d.text; rivals = rest }

abbrev pub take_lock : Exec HostDir (Unit {0})
take_lock d = (ok tt, after_rivals d.rivals d)

-- the exclusive `flock`, which waits for the other writers
unfoldable pub lock_host : Exec HostDir (Unit {0})
lock_host = do host_call; take_lock

abbrev pub publish_text : String → Exec HostDir (Unit {0})
publish_text text d = (ok tt, record d { text = some text })

-- The file operations of `writeHostAtomic`: create the temporary file, set its mode, write, sync,
-- close, rename, and open and sync the directory.
unfoldable pub write_text : String → Exec HostDir (Unit {0})
write_text text = do
  wrapping "creating host config temp file" host_call
  wrapping "setting host config permissions" host_call
  wrapping "writing host config temp file" host_call
  wrapping "syncing host config temp file" host_call
  wrapping "closing host config temp file" host_call
  wrapping "publishing host config" host_call
  publish_text text
  wrapping "opening host config directory for fsync" host_call
  wrapping "fsyncing host config directory" host_call

module _ ⦃codec : Codec⦄ where
  abbrev pub timeout_of : String → Result ℤ
  timeout_of text = if text == "" then ok (pos 0) else seconds_of (codec.parse_duration text)

  abbrev pub with_timeout : HostToml → Result ℤ → Result Host
  with_timeout t (err e) = err e
  with_timeout t (ok timeout) = ok (record {
    controller_id = t.controller_id;
    orbctl_path = t.orbctl_path;
    state_dir = t.state_dir;
    max_instances = t.max_instances;
    operation_timeout = timeout;
    images = t.images;
    flavors = t.flavors;
  })

  -- `hostTOML.toHost`
  unfoldable pub to_host : HostToml → Result Host
  to_host t = with_timeout t (timeout_of t.operation_timeout)

  -- `Host.toTOML`
  unfoldable pub to_toml : Host → HostToml
  to_toml h = record {
    controller_id = h.controller_id;
    orbctl_path = h.orbctl_path;
    state_dir = h.state_dir;
    max_instances = h.max_instances;
    operation_timeout =
        if int_eq h.operation_timeout (pos 0)
        then ""
        else codec.format_duration h.operation_timeout;
    images = h.images;
    flavors = h.flavors;
  }

  -- the host of a text, not validated yet
  unfoldable pub host_of : String → Result Host
  unfolding to_host
  host_of text = elim (without_unknown (codec.decode text)) [
    | err e ↦ err e
    | ok t ↦ wrap "host config" (to_host t)
  ]

  module _ ⦃p : Platform⦄ where
    -- `loadHostFile`
    unfoldable pub load_host : Exec HostDir Host
    load_host = do
      text ← wrapping "reading host config" read_file
      host ← lift (host_of text)
      (λ d. (validate_host d.stat host, d))
      pure host

    -- the host to update: the one that was loaded, or a zero one where there is no file
    unfoldable pub current_host : Result Host → Exec HostDir Host
    current_host (ok host) = pure host
    current_host (err e) =
        if is e not_exist then (attempt stat_file >>= λ there. unless_there e there) else raise e

    -- `writeHostAtomic`
    unfoldable pub write_host_atomic : Host → Exec HostDir (Unit {0})
    unfolding write_text
    write_host_atomic host = do
      text ← wrapping "encoding host config" (lift (codec.encode (to_toml host)))
      write_text text

    -- `UpdateHost` on the host that it starts from: the callback, the validation and the publication
    unfoldable pub publish_update : (Host → Result Host) → Host → Exec HostDir (Unit {0})
    publish_update update host = do
      updated ← wrapping "host config update callback" (lift (update host))
      (λ d. (validate_host d.stat updated, d))
      write_host_atomic updated

    -- `UpdateHost` under the lock
    unfoldable pub update_locked : (Host → Result Host) → Exec HostDir (Unit {0})
    update_locked update = do
      found ← attempt load_host
      host ← current_host found
      publish_update update host

    -- `UpdateHost`
    unfoldable pub update_host : String → (Host → Result Host) → Exec HostDir (Unit {0})
    update_host path update = do
      refuse_if (not (is_abs path)) "host config path must be absolute"
      wrapping "creating host config directory" host_call
      wrapping "opening host config lock" host_call
      wrapping "locking host config lock" lock_host
      update_locked update
