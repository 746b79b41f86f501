-- ===== src/Disk.antt =====
-- The operating system as the registry uses it (internal/state/registry.go): the registry directory,
-- system calls that may fail, `flock` with other processes at work, and atomic publication.
pub mod Laws
use garm_provider_orbstack.Prelude.{
  String, Bool, true, false, ◌==◌, Option, some, none, List, [], ◌∷◌, if◌then◌else◌,
}
use garm_provider_orbstack.Error.{
  Result, ok, err, sentinel, external, busy, context_done, not_exist,
}
use garm_provider_orbstack.Exec.{Exec, pure, raise, ◌>>◌}
use garm_provider_orbstack.State.Record.{Record}

pub data Kind : Type 0 where
  directory regular symlink special : Kind

-- What the JSON decoder makes of `records.json`: not an array of records (or one with an unknown
-- field), `null`, or an array and whether anything follows it.
pub data Content : Type 0 where
  undecodable null : Content
  array : List Record → Bool → Content

-- The registry directory: the kind of each entry, the content of `records.json`, and the names of
-- the files in `clone-intents`.
pub record Files : Type 0 where
  pub entries : String → Option Kind
  pub content : Content
  pub intents : List String

pub data Flock : Type 0 where
  granted would_block failed : Flock

-- One round of the loop in `acquire`: what other processes did to the files before it, whether the
-- context was done at its head, what `flock` answers to a shared or an exclusive request, and
-- whether the context ended the wait of 20 ms.
pub record Poll : Type 0 where
  pub meanwhile : Files → Files
  pub cancelled : Bool
  pub flock : Bool → Flock
  pub expired : Bool

-- `faults` holds the outcomes of the coming system calls, `none` for success, and `polls` the coming
-- rounds of waiting for a lock. Where a list ends, calls succeed and locks are free.
-- `held` lists the locks that this process holds.
pub record Disk : Type 0 where
  pub files : Files
  pub faults : List (Option String)
  pub polls : List Poll
  pub held : List String

-- One system call.
abbrev pub outcome : List (Option String) → Disk → Result (Unit {0}) × Disk
outcome [] d = (ok tt, d)
outcome (none ∷ rest) d = (ok tt, record d { faults = rest })
outcome (some e ∷ rest) d = (err (external e), record d { faults = rest })

unfoldable pub system_call : Exec Disk (Unit {0})
system_call d = outcome d.faults d

abbrev pub change : (Files → Files) → Exec Disk (Unit {0})
change f d = (ok tt, record d { files = f d.files })

-- One round of the loop in `acquire`: the result that ends it, or `none` to wait for the next. The
-- context is looked at first, then the lock, then whether to wait, then the context once more.
unfoldable pub verdict : Bool → Flock → Bool → Bool → Option (Result (Unit {0}))
verdict true _ _ _ = some (err (sentinel context_done))
verdict false granted _ _ = some (ok tt)
verdict false failed _ _ = some (err (external "flock"))
verdict false would_block false _ = some (err (sentinel busy))
verdict false would_block true true = some (err (sentinel context_done))
verdict false would_block true false = none

-- The loop of `acquire`, whose rounds are the list.
unfoldable pub poll_lock : Bool → Bool → List Poll → Files → Result (Unit {0}) × List Poll × Files
unfolding verdict
poll_lock shared wait [] files = (ok tt, [], files)
poll_lock shared wait (p ∷ rest) files =
    let files' = p.meanwhile files in
    let next = poll_lock shared wait rest files' in
    elim (verdict p.cancelled (p.flock shared) wait p.expired) [
      | some r ↦ (r, rest, files')
      | none ↦ next
    ]

abbrev pub after_polls : Result (Unit {0}) × List Poll × Files → String → Exec Disk (Unit {0})
after_polls (ok _, polls, files) path d =
    (ok tt, record d { files = files; polls = polls; held = path ∷ d.held })
after_polls (err e, polls, files) path d = (err e, record d { files = files; polls = polls })

-- Opening a lock file without `O_CREATE`, and never through a symbolic link.
abbrev pub open_existing : Option Kind → Exec Disk (Unit {0})
open_existing (some regular) = pure tt
open_existing (some special) = pure tt
open_existing (some _) = raise (external "open")
open_existing none = raise (sentinel not_exist)

-- `acquire(ctx, path, create, shared, wait)`
unfoldable pub acquire : String → Bool → Bool → Bool → Exec Disk (Unit {0})
acquire path create shared wait = do
  system_call
  λ d. if create then (ok tt, d) else open_existing (d.files.entries path) d
  λ d. after_polls (poll_lock shared wait d.polls d.files) path d

abbrev pub drop_lock : String → List String → List String
drop_lock path [] = []
drop_lock path (x ∷ xs) = if x == path then xs else x ∷ drop_lock path xs

-- `Lock.Close`: closing the file releases the lock; no caller looks at its error.
unfoldable pub close_lock : String → Exec Disk (Unit {0})
close_lock path d = (ok tt, record d { held = drop_lock path d.held })

-- `defer lock.Close()` around the rest of a function.
unfoldable pub then_close {ℓ} : {A : Type ℓ} → String → Exec Disk A → Exec Disk A
then_close path body d = let (r, d') = body d in (r, (close_lock path d').1)

-- `syncDir`
unfoldable pub sync_dir : Exec Disk (Unit {0})
sync_dir = do system_call; system_call

-- `writeAtomic`, where `publish` is what the rename does to the files: create the temporary file, set
-- its mode, encode, sync, close, rename, and sync the directory.
unfoldable pub write_atomic : (Files → Files) → Exec Disk (Unit {0})
write_atomic publish = do
  system_call
  system_call
  system_call
  system_call
  system_call
  system_call
  change publish
  sync_dir
