-- ===== src/State/Registry/Reserve.antt =====
-- `Reserve` of internal/state/registry.go, as its callers see it.
use garm_provider_orbstack.Prelude.{
  All, String, Bool, true, false, ◌≡◌, inl, inr, List, [], ◌∷◌, ◌++◌, arith, ap, ℤ, pos, ℕ, ◌≤◌,
  count, count-append, Bool-cases, ◌+◌,
}
use garm_provider_orbstack.Error.{Result, ok, err}
use garm_provider_orbstack.Platform.{Platform}
use garm_provider_orbstack.Disk.{Files, Disk, array}
use garm_provider_orbstack.State.Record.{Record}
use garm_provider_orbstack.State.Sort.{sort_records, count-sort_records}
use garm_provider_orbstack.State.Registry.{Registry, Callback, turned_away, reserve}
use garm_provider_orbstack.State.Registry.Update.{reserve_update}
use garm_provider_orbstack.State.Registry.Capacity.{
  of_controller, NameFree, reserve_update-appends, reserve_update-keeps, reserve_update-fresh,
  one_more,
}
use garm_provider_orbstack.State.Registry.Transaction.{
  Holds, Committed, untouched, done, FilesSay, files_at_lock, transaction-all_or_nothing,
}

pub le_of_room :
    (c : String) (desired : Record) (n m : ℕ)
    → n + 1 ≤ m
    → n + count (of_controller c) (desired ∷ []) ≤ m
unfolding count
le_of_room c desired n m h = ground arith

module _ ⦃p : Platform⦄ where
  -- What a successful transaction did, by its result.
  pub Committed-of_ok :
      {A : Type 0} (update : Callback A) (f : Files) (r : Result A) (t : Disk) (a : A)
      → FilesSay update f r t
      → r ≡ ok a
      → Committed update a f t.files
  Committed-of_ok update f (ok b) t a says h = let e : b ≡ a = ground arith in rw (← e) says
  Committed-of_ok update f (err e) t a says h = cc

  -- What an accepted reservation did to the files.
  pub reserve-Committed :
      (r : Registry) (desired : Record) (max : ℤ) (d : Disk) (x : Record × Bool)
      → (reserve r desired max d).0 ≡ ok x
      → Committed
          (reserve_update r.controller_id desired max)
          x
          (files_at_lock d)
          (reserve r desired max d).1.files
  unfolding reserve
  reserve-Committed r desired max d x h = elim (Bool-cases (turned_away r desired max)) [
    | inl refused ↦ cc
    | inr accepted ↦ rw accepted (
        Committed-of_ok (reserve_update r.controller_id desired max) (files_at_lock d) _ _ x
          (transaction-all_or_nothing (reserve_update r.controller_id desired max) d)
          (rw accepted at h))
  ]

  -- A fresh reservation: what was stored, and what is stored now.
  pub record FreshlyReserved (c : String) (desired : Record) (max : ℤ) (f g : Files) : Type 0 where
    pub records : List Record
    pub before : Holds f records
    pub after : g.content ≡ array (sort_records (records ++ desired ∷ [])) false
    pub name_free : All (NameFree c desired.runner_name) records
    pub capacity : ℕ
    pub limit : max ≡ pos capacity
    pub fits : count (of_controller c) (sort_records (records ++ desired ∷ [])) ≤ capacity

  fresh_of_Committed :
      (c : String) (desired : Record) (max : ℤ) (f g : Files) (x : Record)
      → Committed (reserve_update c desired max) (x, true) f g
      → (x ≡ desired) × FreshlyReserved c desired max f g
  fresh_of_Committed c desired max f g x (untouched records holds e same) =
      cc ((reserve_update-keeps c desired max records x true e).0)
  fresh_of_Committed c desired max f g x (done change e) =
      let (appended, room, free) =
        reserve_update-appends c desired max change.records change.updated change.accepts.returns in
      let (m, limit, fits) = one_more _ max room in
      (
        cc (
          e,
          reserve_update-fresh c desired max change.records change.updated change.accepts.returns,
        ),
        record {
          records = change.records;
          before = change.accepts.holds;
          after = rw (← appended) (ap (λ (h : Files). h.content) change.publishes);
          name_free = free;
          capacity = m;
          limit = limit;
          fits = rw (count-sort_records, count-append) (le_of_room c desired _ m fits);
        },
      )

  -- A fresh reservation is returned only if the record was appended to a valid registry in which
  -- the controller had no record of the name, and the controller's records, pending reservations
  -- too, are then at most the maximum.
  pub reserve-within_capacity :
      (r : Registry) (desired : Record) (max : ℤ) (d : Disk) (x : Record)
      → (reserve r desired max d).0 ≡ ok (x, true)
      → (x ≡ desired)
        × FreshlyReserved r.controller_id desired max
            (files_at_lock d)
            (reserve r desired max d).1.files
  reserve-within_capacity r desired max d x h =
      fresh_of_Committed r.controller_id desired max _ _ x (reserve-Committed r desired max d _ h)
