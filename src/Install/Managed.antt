-- ===== src/Install/Managed.antt =====
-- The files that an installation manages: `managedWrite` and its checks in internal/install/install.go,
-- and `atomicFile` of internal/install/paths.go.
pub mod Owned
pub mod Recorded
pub mod Check
mod Examples
use garm_provider_orbstack.Prelude.{
  String, Bool, true, false, not, ◌==◌, ◌&&◌, ◌||◌, List, [], ◌∷◌, Option, none, some, lookup,
  contains, if◌then◌else◌,
}
use garm_provider_orbstack.Error.{Error, Result, ok, err, external}
use garm_provider_orbstack.Exec.{Exec, pure, raise, refuse_if, ◌>>=◌, ◌>>◌}
use garm_provider_orbstack.Platform.{Platform}

-- how the system calls of one `atomicFile` end: they all work, one fails before the file is in place, or
-- the directory cannot be synced after
pub data Calls : Type 0 where
  working : Calls
  failing_before failing_after : String → Calls

-- The files and `ManagedFiles` of the installation's record, both with the latest entry of a path first.
-- Where a path is a symbolic link, its entry is the content that is read through it. A path that is
-- there and cannot be read is `unreadable`; one where `os.Lstat` sees no regular file, but a link or a
-- directory, is `irregular`.
pub record Shelf : Type 0 where
  pub files : List (String × String)
  pub managed : List (String × String)
  pub unreadable : String → Option String
  pub irregular : String → Bool
  pub calls : List Calls

abbrev pub recorded : Option String → String
recorded none = ""
recorded (some digest) = digest

abbrev pub first_calls : List Calls → Calls
first_calls [] = working
first_calls (c ∷ rest) = c

abbrev pub later_calls : List Calls → List Calls
later_calls [] = []
later_calls (c ∷ rest) = rest

-- what a read gives, by the error and by the entry of the path
abbrev pub read_result : Option String → Option String → Result (Option String)
read_result none found = ok found
read_result (some e) found = err (external e)

module _ ⦃p : Platform⦄ where
  -- `acceptableManaged`; `contentDigest` is the digest in hexadecimal
  unfoldable pub acceptable_managed : String → String → List String → String → Bool
  unfolding contains
  acceptable_managed existing wanted allowed digest =
      existing == wanted
      || contains existing allowed
      || not (digest == "") && p.sha256_hex existing == digest

  -- `os.ReadFile`, which follows a link: nothing where the file does not exist
  unfoldable pub read_file : String → Exec Shelf (Option String)
  unfolding lookup
  read_file path s = (read_result (s.unreadable path) (lookup path s.files), s)

  -- the chmod of a file that has the content already
  abbrev pub touch : Calls → Exec Shelf (Unit {0})
  touch working = pure tt
  touch (failing_before e) = raise (external e)
  touch (failing_after e) = raise (external e)

  -- the temporary file, the rename and the sync of the directory
  abbrev pub put : String → String → Calls → Exec Shelf (Unit {0})
  put path content working s = (
    ok tt,
    record {
      files = (path, content) ∷ s.files;
      managed = s.managed;
      unreadable = s.unreadable;
      irregular = s.irregular;
      calls = s.calls;
    },
  )
  put path content (failing_before e) s = (err (external e), s)
  put path content (failing_after e) s = (
    err (external e),
    record {
      files = (path, content) ∷ s.files;
      managed = s.managed;
      unreadable = s.unreadable;
      irregular = s.irregular;
      calls = s.calls;
    },
  )

  abbrev pub next_calls : Exec Shelf Calls
  next_calls s = (
    ok (first_calls s.calls),
    record {
      files = s.files;
      managed = s.managed;
      unreadable = s.unreadable;
      irregular = s.irregular;
      calls = later_calls s.calls;
    },
  )

  abbrev pub is_text : Option String → String → Bool
  is_text none content = false
  is_text (some old) content = old == content

  -- the test of `os.Lstat`, which does not follow a link
  abbrev pub refuse_irregular : String → Exec Shelf (Unit {0})
  refuse_irregular path s = refuse_if (s.irregular path) "refusing non-regular managed file" s

  -- `atomicFile`, without the mode
  unfoldable pub atomic_file : String → String → Exec Shelf (Unit {0})
  unfolding read_file
  atomic_file path content = do
    refuse_irregular path
    old ← read_file path
    c ← next_calls
    (if is_text old content then touch c else put path content c)

  -- `record.ManagedFiles[path] = contentDigest(wanted)`
  abbrev pub note_digest : String → String → Exec Shelf (Unit {0})
  note_digest path wanted s = (
    ok tt,
    record {
      files = s.files;
      managed = (path, p.sha256_hex wanted) ∷ s.managed;
      unreadable = s.unreadable;
      irregular = s.irregular;
      calls = s.calls;
    },
  )

  unfoldable pub write_noted : String → String → Exec Shelf Bool
  unfolding atomic_file
  write_noted path wanted = do atomic_file path wanted; note_digest path wanted; pure true

  -- the digest that the record has for the path
  abbrev pub known_digest : String → Exec Shelf String
  known_digest path s = (ok (recorded (lookup path s.managed)), s)

  abbrev pub write_over : String → String → List String → String → Option String → Exec Shelf Bool
  write_over path wanted allowed digest none = write_noted path wanted
  write_over path wanted allowed digest (some old) =
      refuse_if (not (acceptable_managed old wanted allowed digest))
        "refusing to overwrite changed/unmanaged file"
      >> (if old == wanted then note_digest path wanted >> pure false else write_noted path wanted)

  -- `managedWrite`: whether the content has changed
  unfoldable pub managed_write : String → String → List String → Exec Shelf Bool
  unfolding lookup read_file acceptable_managed write_noted
  managed_write path wanted allowed = do
    digest ← known_digest path
    old ← read_file path
    write_over path wanted allowed digest old
