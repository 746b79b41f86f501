-- ===== src/State/Registry/Capacity.antt =====
-- `Reserve` of internal/state/registry.go never passes the capacity, and is idempotent.
use garm_provider_orbstack.Prelude.{
  pos, negsuc, ◌≤◌, String, Bool, true, false, ◌≡◌, inl, inr, refl, ◌==◌, eq_iff, List, [], ◌∷◌,
  ◌++◌, ℤ, ℕ, ◌+◌, arith, count, All, reaches, Bool-cases,
}
use mathlib.Core.List.{Memᴰ}
use garm_provider_orbstack.Error.{ok, err, sentinel, unchanged}
use garm_provider_orbstack.State.Record.{Record}
use garm_provider_orbstack.State.Registry.Update.{
  finish_reserve, owns, Scan, mismatch, existing, counted, reserve_scan, reserve_update,
  same_request,
}

-- the records of one controller
abbrev pub of_controller : String → Record → Bool
of_controller controller_id r = r.controller_id == controller_id

abbrev pub NameFree : String → String → Record → Type 0
NameFree controller_id name r = (r.controller_id ≡ controller_id) → (r.runner_name ≡ name) → ⊥

-- What the loop of `Reserve` found: a count over names that are all free, or a record of the name
-- and whether it is for the same request.
abbrev ScanSays : String → Record → ℕ → List Record → Scan → Type 0
ScanSays c desired n records (counted m) =
    (m ≡ n + count (of_controller c) records) × All (NameFree c desired.runner_name) records
ScanSays c desired n records (existing r) =
    Memᴰ r records × (owns c desired.runner_name r ≡ true) × (same_request r desired ≡ true)
ScanSays c desired n records mismatch =
    (r : Record) × Memᴰ r records
    × (owns c desired.runner_name r ≡ true)
    × (same_request r desired ≡ false)

module _ (c : String) (desired : Record) where
  skip_foreign :
      (n : ℕ) (r : Record) (rest : List Record) (s : Scan)
      → (r.controller_id == c) ≡ false
      → ScanSays c desired n rest s
      → ScanSays c desired n (r ∷ rest) s
  unfolding count
  skip_foreign n r rest (counted m) h (e, free) =
      (ground arith, (λ own. ground (arith, eq_iff r.controller_id c), free))
  skip_foreign n r rest (existing x) h (m, own, same) = (Memᴰ.tail m, own, same)
  skip_foreign n r rest mismatch h (x, m, own, same) = (x, Memᴰ.tail m, own, same)

  count_other :
      (n : ℕ) (r : Record) (rest : List Record) (s : Scan)
      → (r.controller_id == c) ≡ true
      → (r.runner_name == desired.runner_name) ≡ false
      → ScanSays c desired (n + 1) rest s
      → ScanSays c desired n (r ∷ rest) s
  unfolding count
  count_other n r rest (counted m) h k (e, free) =
      (ground arith, (λ own name. ground (arith, eq_iff r.runner_name desired.runner_name), free))
  count_other n r rest (existing x) h k (m, own, same) = (Memᴰ.tail m, own, same)
  count_other n r rest mismatch h k (x, m, own, same) = (x, Memᴰ.tail m, own, same)

  reserve_scan_says :
      (n : ℕ) (records : List Record)
      → ScanSays c desired n records (reserve_scan c desired n records)
  unfolding reserve_scan count
  reserve_scan_says n [] = (omega arith, tt)
  reserve_scan_says n (r ∷ rest) = elim (Bool-cases (r.controller_id == c)) [
    | inr foreign ↦
        rw foreign
          (skip_foreign n r rest (reserve_scan c desired n rest) foreign (reserve_scan_says n rest))
    | inl own ↦ elim (Bool-cases (r.runner_name == desired.runner_name)) [
      | inr named ↦
          rw (own, named)
            (count_other n r rest (reserve_scan c desired (n + 1) rest) own named
              (reserve_scan_says (n + 1) rest))
      | inl named ↦ elim (Bool-cases (same_request r desired)) [
        | inl same ↦ rw (own, named, same) (Memᴰ.head refl, rw (own, named) refl, same)
        | inr differs ↦ rw (own, named, differs) (r, Memᴰ.head refl, rw (own, named) refl, differs)
      ]
    ]
  ]

  reserve_update_of_scan :
      (max : ℤ) (records rs : List Record) (s : Scan)
      → ScanSays c desired 0 records s
      → (finish_reserve desired max records s).1 ≡ ok rs
      → (rs ≡ records ++ desired ∷ [])
        × (reaches (count (of_controller c) records) max ≡ false)
        × All (NameFree c desired.runner_name) records
  reserve_update_of_scan max records rs (counted m) (e, free) h =
      let counts : m ≡ count (of_controller c) records = omega arith in
      (ground arith, rw (← counts) (ground arith), free)
  reserve_update_of_scan max records rs (existing r) says h = cc
  reserve_update_of_scan max records rs mismatch says h = cc

  -- A reservation that is made is appended, under a name that no record of the controller has, and
  -- only while the count of the controller's records, machine-less ones too, is below the maximum.
  pub reserve_update-appends :
      (max : ℤ) (records rs : List Record)
      → (reserve_update c desired max records).1 ≡ ok rs
      → (rs ≡ records ++ desired ∷ [])
        × (reaches (count (of_controller c) records) max ≡ false)
        × All (NameFree c desired.runner_name) records
  unfolding reserve_update
  reserve_update-appends max records rs h =
      reserve_update_of_scan max records rs _ (reserve_scan_says 0 records) h

  reserve_kept_of_scan :
      (max : ℤ) (records : List Record) (x : Record) (fresh : Bool) (s : Scan)
      → ScanSays c desired 0 records s
      → finish_reserve desired max records s ≡ ((x, fresh), err (sentinel unchanged))
      → (fresh ≡ false)
        × Memᴰ x records
        × (owns c desired.runner_name x ≡ true)
        × (same_request x desired ≡ true)
  reserve_kept_of_scan max records x fresh (counted m) says h = ground arith
  reserve_kept_of_scan max records x fresh (existing r) (m, own, same) h =
      let e : r ≡ x = cc in (cc, rw (← e) m, rw (← e) own, rw (← e) same)
  reserve_kept_of_scan max records x fresh mismatch says h = ground arith

  -- A reservation that exists already is returned, for the same request only, and not as fresh.
  pub reserve_update-keeps :
      (max : ℤ) (records : List Record) (x : Record) (fresh : Bool)
      → reserve_update c desired max records ≡ ((x, fresh), err (sentinel unchanged))
      → (fresh ≡ false)
        × Memᴰ x records
        × (owns c desired.runner_name x ≡ true)
        × (same_request x desired ≡ true)
  unfolding reserve_update
  reserve_update-keeps max records x fresh h =
      reserve_kept_of_scan max records x fresh _ (reserve_scan_says 0 records) h

  reserve_fresh_of_scan :
      (max : ℤ) (records rs : List Record) (s : Scan)
      → (finish_reserve desired max records s).1 ≡ ok rs
      → (finish_reserve desired max records s).0 ≡ (desired, true)
  reserve_fresh_of_scan max records rs (counted m) h = ground arith
  reserve_fresh_of_scan max records rs (existing r) h = cc
  reserve_fresh_of_scan max records rs mismatch h = cc

  pub reserve_update-fresh :
      (max : ℤ) (records rs : List Record)
      → (reserve_update c desired max records).1 ≡ ok rs
      → (reserve_update c desired max records).0 ≡ (desired, true)
  unfolding reserve_update
  reserve_update-fresh max records rs h = reserve_fresh_of_scan max records rs _ h

-- One more record than a count that does not reach the maximum is within it.
pub one_more : (n : ℕ) (max : ℤ) → reaches n max ≡ false → (m : ℕ) × (max ≡ pos m) × (n + 1 ≤ m)
one_more n (pos m) h = (m, refl, ground arith)
one_more n (negsuc m) h = cc
