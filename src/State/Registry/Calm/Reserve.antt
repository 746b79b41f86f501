-- ===== src/State/Registry/Calm/Reserve.antt =====
-- `Reserve` of internal/state/registry.go where nothing fails: a new name and one that is taken.
use garm_provider_orbstack.Prelude.{
  String, Bool, true, false, ◌≡◌, refl, List, [], ◌∷◌, ◌++◌, ℤ, ℕ, ◌+◌, All, arith, count,
  Bool-cases, inl, inr, if◌then◌else◌, eq_iff, ◌==◌, reaches, ap, ◌∙◌,
}
use garm_provider_orbstack.Error.{Result, ok, err, sentinel, conflict, unchanged}
use garm_provider_orbstack.Platform.{Platform}
use garm_provider_orbstack.Disk.{Files}
use garm_provider_orbstack.State.Record.{Record}
use garm_provider_orbstack.State.Validate.{check_record}
use garm_provider_orbstack.State.Validate.Sound.{Apart, IsWellFormed, validate_records_iff}
use garm_provider_orbstack.State.Sort.{sort_records}
use garm_provider_orbstack.State.Registry.{Registry, turned_away, reserve, publish_records}
use garm_provider_orbstack.State.Registry.Update.{
  Scan, counted, existing, mismatch, reserve_scan, reserve_update, owns, same_request,
}
use garm_provider_orbstack.State.Registry.Capacity.{of_controller, NameFree}
use garm_provider_orbstack.State.Registry.Transaction.{Holds}
use garm_provider_orbstack.State.Registry.Calm.{
  calm, IsLaidOut, transaction-calm, transaction-calm_refused,
}

-- over names that are all free, the loop counts the controller's records
reserve_scan-counted :
    (c : String) (desired : Record) (n : ℕ) (rs : List Record)
    → All (NameFree c desired.runner_name) rs
    → reserve_scan c desired n rs ≡ counted (n + count (of_controller c) rs)
unfolding reserve_scan count
reserve_scan-counted c desired n [] free = ap counted (omega arith)
reserve_scan-counted c desired n (r ∷ rest) (free, others) =
    elim (Bool-cases (r.controller_id == c)) [
      | inr foreign ↦ rw (foreign, reserve_scan-counted c desired n rest others) refl
      | inl own ↦ elim (Bool-cases (r.runner_name == desired.runner_name)) [
        | inl named ↦
            elim (free ((eq_iff r.controller_id c).0 own)
              ((eq_iff r.runner_name desired.runner_name).0 named)) [ ]
        | inr other ↦
            rw (own, other, reserve_scan-counted c desired (n + 1) rest others)
              (ap counted (omega arith))
      ]
    ]

-- what `Reserve` answers where a record of the runner name is stored
abbrev pub answer_to : Record → Record → Result (Record × Bool)
answer_to stored desired =
    if same_request stored desired then ok (stored, false) else err (sentinel conflict)

abbrev scan_of : Record → Record → Scan
scan_of stored desired = if same_request stored desired then existing stored else mismatch

-- behind names that are all free, the loop stops at the first record of the name
reserve_scan-taken :
    (c : String) (desired : Record) (n : ℕ) (before after : List Record) (x : Record)
    → All (NameFree c desired.runner_name) before
    → owns c desired.runner_name x ≡ true
    → reserve_scan c desired n (before ++ x ∷ after) ≡ scan_of x desired
unfolding reserve_scan
reserve_scan-taken c desired n [] after x free own =
    let (a, b) : (x.controller_id == c ≡ true) × (x.runner_name == desired.runner_name ≡ true) =
      ground arith in
    rw (a, b) refl
reserve_scan-taken c desired n (r ∷ rest) after x (free, others) own =
    elim (Bool-cases (r.controller_id == c)) [
      | inr foreign ↦ rw (foreign, reserve_scan-taken c desired n rest after x others own) refl
      | inl mine ↦ elim (Bool-cases (r.runner_name == desired.runner_name)) [
        | inl named ↦
            elim (free ((eq_iff r.controller_id c).0 mine)
              ((eq_iff r.runner_name desired.runner_name).0 named)) [ ]
        | inr other ↦
            rw (mine, other, reserve_scan-taken c desired (n + 1) rest after x others own) refl
      ]
    ]

module _ ⦃p : Platform⦄ where
  -- what a new record must be beside the records stored
  pub record Fits (desired : Record) (records : List Record) : Type 0 where
    pub valid : check_record desired ≡ ok tt
    pub apart : All (λ s. Apart s desired) records

  All-append_one :
      (P : Record → Type 0) (rs : List Record) (r : Record) → All P rs → P r → All P (rs ++ r ∷ [])
  All-append_one P [] r h k = (k, tt)
  All-append_one P (x ∷ rest) r (h, hs) k = (h, All-append_one P rest r hs k)

  append-IsWellFormed :
      (records : List Record) (r : Record)
      → IsWellFormed records
      → check_record r ≡ ok tt
      → All (λ s. Apart s r) records
      → IsWellFormed (records ++ r ∷ [])
  append-IsWellFormed [] r w valid apart = (valid, tt, tt)
  append-IsWellFormed (x ∷ rest) r (checked, others, w) valid (a, apart) = (
    checked,
    All-append_one (λ s. Apart x s) rest r others a,
    append-IsWellFormed rest r w valid apart,
  )

  appends :
      (r : Registry) (desired : Record) (max : ℤ) (records : List Record)
      → All (NameFree r.controller_id desired.runner_name) records
      → reaches (count (of_controller r.controller_id) records) max ≡ false
      → reserve_update r.controller_id desired max records
        ≡ ((desired, true), ok (records ++ desired ∷ []))
  unfolding reserve_update
  appends r desired max records free room =
      let scanned : reserve_scan r.controller_id desired 0 records
          ≡ counted (count (of_controller r.controller_id) records) =
        reserve_scan-counted r.controller_id desired 0 records free ∙ ap counted (omega arith) in
      rw (scanned, room) refl

  -- Where nothing fails and no other process holds the lock: a reservation that is asked for
  -- correctly, whose runner name is free, whose record is valid and shares no key, machine name or
  -- machine ID with a stored one, and for which the controller has room, succeeds as a fresh one. The
  -- files then hold the stored records and the new one, in order, and the lock is released.
  pub reserve-calm :
      (r : Registry) (desired : Record) (max : ℤ) (f : Files) (held : List String)
      (records : List Record)
      → IsLaidOut f
      → Holds f records
      → turned_away r desired max ≡ false
      → All (NameFree r.controller_id desired.runner_name) records
      → reaches (count (of_controller r.controller_id) records) max ≡ false
      → Fits desired records
      → reserve r desired max (calm f held) ≡ (
        ok (desired, true),
        calm (publish_records (sort_records (records ++ desired ∷ [])) f) held,
      )
  unfolding reserve
  reserve-calm r desired max f held records there holds asked free room fits = rw asked (
      transaction-calm (reserve_update r.controller_id desired max) (desired, true) f held records
        (records ++ desired ∷ []) there holds (appends r desired max records free room)
        ((validate_records_iff (records ++ desired ∷ [])).1 (
          append-IsWellFormed records desired ((validate_records_iff records).0 holds.valid)
            fits.valid fits.apart)))

  -- Where nothing fails and no other process holds the lock: a well-formed request for a runner name
  -- that the controller has a record of gets the first such record, as one that is not fresh, where
  -- that has the pool, the image and the flavor asked for, however full the controller is; else it
  -- gets ErrConflict. Either way nothing in the files changes and the lock is released.
  pub reserve-idempotent :
      (r : Registry) (desired : Record) (max : ℤ) (f : Files) (held : List String)
      (before after : List Record) (x : Record)
      → IsLaidOut f
      → Holds f (before ++ x ∷ after)
      → turned_away r desired max ≡ false
      → All (NameFree r.controller_id desired.runner_name) before
      → owns r.controller_id desired.runner_name x ≡ true
      → reserve r desired max (calm f held) ≡ (answer_to x desired, calm f held)
  unfolding reserve reserve_update
  reserve-idempotent r desired max f held before after x there holds asked free own =
      let scanned = reserve_scan-taken r.controller_id desired 0 before after x free own in
      elim (Bool-cases (same_request x desired)) [
        | inl same ↦
            rw (asked, same)
              (transaction-calm_refused (reserve_update r.controller_id desired max) (x, false)
                (sentinel unchanged) f held (before ++ x ∷ after) there holds
                (rw (scanned, same) refl))
        | inr unlike ↦
            rw (asked, unlike)
              (transaction-calm_refused (reserve_update r.controller_id desired max) (desired, true)
                (sentinel conflict) f held (before ++ x ∷ after) there holds
                (rw (scanned, unlike) refl))
      ]
