-- ===== src/State/Registry/Calm.antt =====
-- Where no system call fails and no other process holds a lock, the transactions of
-- internal/state/registry.go go through.
pub mod Reserve
use garm_provider_orbstack.Prelude.{
  String, Bool, true, false, ◌≡◌, refl, List, [], ◌∷◌, ℤ, Option, some, none, ap, Bool-cases, inl,
  inr, if◌then◌else◌,
}
use garm_provider_orbstack.Error.{Error, Result, ok, err}
use garm_provider_orbstack.Exec.{continue, pure, ◌>>=◌}
use garm_provider_orbstack.Platform.{Platform}
use garm_provider_orbstack.Disk.{
  Kind, regular, Files, Disk, array, acquire, system_call, poll_lock, then_close, close_lock,
  sync_dir, write_atomic, open_existing,
}
use garm_provider_orbstack.State.Record.{Record}
use garm_provider_orbstack.State.Validate.{validate_records}
use garm_provider_orbstack.State.Sort.{sort_records}
use garm_provider_orbstack.State.Registry.{
  is_unchanged, Registry, Callback, transaction, read_records, decode_records, commit,
  publish_records, open_records, save,
}
use garm_provider_orbstack.State.Registry.Transaction.{Holds}

-- a disk on which nothing fails and no lock is held by others
abbrev pub calm : Files → List String → Disk
calm f held = record { files = f; faults = []; polls = []; held = held }

-- the files that a transaction opens are there
pub record IsLaidOut (f : Files) : Type 0 where
  pub lock : f.entries "global.lock" ≡ some regular
  pub records : f.entries "records.json" ≡ some regular

module _ ⦃p : Platform⦄ where
  acquire-calm :
      (f : Files) (held : List String)
      → IsLaidOut f
      → acquire "global.lock" false false true (calm f held)
        ≡ (ok tt, calm f ("global.lock" ∷ held))
  unfolding acquire system_call poll_lock
  acquire-calm f held there = rw (there.lock) refl

  read_records-calm :
      (f : Files) (held : List String) (records : List Record)
      → IsLaidOut f
      → Holds f records
      → read_records (calm f held) ≡ (ok records, calm f held)
  unfolding read_records system_call decode_records
  read_records-calm f held records there holds = rw (there.records, holds.stored, holds.valid) refl

  commit-calm :
      {A : Type 0} (a : A) (f : Files) (held : List String) (updated : List Record)
      → validate_records updated ≡ ok tt
      → commit (a, ok updated) (calm f held)
        ≡ (ok a, calm (publish_records (sort_records updated) f) held)
  unfolding write_atomic system_call sync_dir
  commit-calm a f held updated valid = rw valid refl

  -- Where nothing fails and no other process holds the lock, a transaction whose callback accepts
  -- the stored records, and returns a valid list, succeeds: it publishes the list in order, changes
  -- nothing else in the files and releases the lock.
  pub transaction-calm :
      {A : Type 0} (update : Callback A) (a : A) (f : Files) (held : List String)
      (records updated : List Record)
      → IsLaidOut f
      → Holds f records
      → update records ≡ (a, ok updated)
      → validate_records updated ≡ ok tt
      → transaction update (calm f held)
        ≡ (ok a, calm (publish_records (sort_records updated) f) held)
  unfolding transaction then_close close_lock
  transaction-calm update a f held records updated there holds returns valid =
      rw
        (
          acquire-calm f held there,
          read_records-calm f ("global.lock" ∷ held) records there holds,
          returns,
          commit-calm a f ("global.lock" ∷ held) updated valid,
        )
        refl

  -- the same for a callback that returns an error: the result is the error, or the callback's value
  -- where the error is "unchanged", and nothing changes
  pub transaction-calm_refused :
      {A : Type 0} (update : Callback A) (a : A) (e : Error) (f : Files) (held : List String)
      (records : List Record)
      → IsLaidOut f
      → Holds f records
      → update records ≡ (a, err e)
      → transaction update (calm f held) ≡ (if is_unchanged e then ok a else err e, calm f held)
  unfolding transaction then_close close_lock
  transaction-calm_refused update a e f held records there holds returns =
      elim (Bool-cases (is_unchanged e)) [
        | inl kept ↦
            rw
              (
                acquire-calm f held there,
                read_records-calm f ("global.lock" ∷ held) records there holds,
                returns,
                kept,
              )
              refl
        | inr failed ↦
            rw
              (
                acquire-calm f held there,
                read_records-calm f ("global.lock" ∷ held) records there holds,
                returns,
                failed,
              )
              refl
      ]
