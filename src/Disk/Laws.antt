-- ===== src/Disk/Laws.antt =====
-- What the disk operations do, in the presence of any faults.
use garm_provider_orbstack.Prelude.{
  String, Bool, refl, if◌then◌else◌, ◌≡◌, ◌⊎◌, inl, inr, List, [], ◌∷◌, Option, some, none,
}
use garm_provider_orbstack.Error.{Error, Result, ok, err}
use garm_provider_orbstack.Exec.{Exec, ◌>>=◌}
use garm_provider_orbstack.Exec.Ensures.{
  Post, Ensures, ensures-bind, ensures-weaken, ensures-nothing,
}
use garm_provider_orbstack.Disk.{
  Files, Poll, acquire, after_polls, open_existing, poll_lock, Disk, change, outcome, system_call,
  sync_dir, write_atomic,
}

-- the disk without the outcomes of the system calls to come
abbrev pub core : Disk → Disk
core d = record d { faults = [] }

abbrev pub At : Disk → Disk → Type 0
At c d = core d ≡ c

-- A system call that fails or succeeds changes nothing.
pub system_call-At : (c : Disk) → Ensures (At c) system_call (λ _. At c) (λ _. At c)
unfolding system_call
system_call-At c = record { at = λ d h. go d.faults d h }
  where
    go :
        (l : List (Option String)) (d : Disk)
        → At c d
        → Post (λ _. At c) (λ _. At c) (outcome l d).0 (outcome l d).1
    go [] d h = h
    go (none ∷ rest) d h = h
    go (some e ∷ rest) d h = h

module _ {ℓ} {A : Type ℓ} (c : Disk) (k : Exec Disk A) {Q : A → Disk → Type 0}
    {E : Error → Disk → Type 0} where
  -- one more system call in front, whose failure is covered
  pub after_call :
      Ensures (At c) k Q E
      → ((e : Error) (d : Disk) → At c d → E e d)
      → Ensures (At c) (system_call >>= λ _. k) Q E
  after_call h fails =
      ensures-bind system_call (λ _. k) (ensures-weaken _ (system_call-At c) (λ _ _ a. a) fails)
        (λ _. h)

abbrev pub published : (Files → Files) → Disk → Disk
published f c = record c { files = f c.files }

pub sync_dir-At : (c : Disk) → Ensures (At c) sync_dir (λ _. At c) (λ _. At c)
unfolding sync_dir
sync_dir-At c = ensures-bind system_call _ (system_call-At c) (λ _. system_call-At c)

-- A file is published whole or not at all: after success the new content is there, and after a
-- failure either nothing has changed or the new content is there.
pub write_atomic-At :
    (f : Files → Files) (c : Disk)
    → Ensures
        (At c)
        (write_atomic f)
        (λ _. At (published f c))
        (λ _ d. At c d ⊎ At (published f c) d)
unfolding write_atomic
write_atomic-At f c =
    call (call (call (call (call (call (ensures-bind (change f) _ renamed (λ _. synced)))))))
  where
    call :
        {k : Exec Disk (Unit {0})}
        → Ensures (At c) k (λ _. At (published f c)) (λ _ d. At c d ⊎ At (published f c) d)
        → Ensures
            (At c)
            (system_call >>= λ _. k)
            (λ _. At (published f c))
            (λ _ d. At c d ⊎ At (published f c) d)
    call {k} h = after_call c k h (λ _ _ a. inl a)

    renamed :
        Ensures (At c) (change f) (λ _. At (published f c)) (λ _ d. At c d ⊎ At (published f c) d)
    renamed = record { at = λ d a. cc }

    synced :
        Ensures
          (At (published f c))
          sync_dir
          (λ _. At (published f c))
          (λ _ d. At c d ⊎ At (published f c) d)
    synced = ensures-weaken sync_dir (sync_dir-At (published f c)) (λ _ _ a. a) (λ _ _ a. inr a)

-- A lock that is granted is the last one held.
pub acquire-held :
    (path : String) (create shared wait : Bool)
    → Ensures
        (λ _. Unit {0})
        (acquire path create shared wait)
        (λ _ d. (locks : List String) × (d.held ≡ path ∷ locks))
        (λ _ _. Unit {0})
unfolding acquire
acquire-held path create shared wait = ensures-bind system_call _ (ensures-nothing system_call) λ _.
    ensures-bind (λ d. if create then (ok tt, d) else open_existing (d.files.entries path) d) _
      (ensures-nothing _) λ _. record { at = λ d _. go (poll_lock shared wait d.polls d.files) d }
  where
    go :
        (r : Result (Unit {0}) × List Poll × Files) (d : Disk)
        → Post
            (λ _ d. (locks : List String) × (d.held ≡ path ∷ locks))
            (λ _ _. Unit {0})
            (after_polls r path d).0
            (after_polls r path d).1
    go (ok _, polls, files) d = (d.held, refl)
    go (err e, polls, files) d = tt
