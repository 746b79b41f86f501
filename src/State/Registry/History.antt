-- ===== src/State/Registry/History.antt =====
-- What every history of registry transactions keeps, whichever controllers make them and in
-- whichever order (internal/state/registry.go).
use garm_provider_orbstack.Prelude.{
  reaches, subst, String, false, ◌≡◌, inl, inr, List, [], ◌∷◌, arith, ℤ, pos, ℕ, ◌≤◌, ◌+◌, count,
  count-append, Bool-cases, ◌==◌, eq_iff,
}
use garm_provider_orbstack.Error.{Result, ok}
use garm_provider_orbstack.Platform.{Platform}
use garm_provider_orbstack.State.Record.{Record}
use garm_provider_orbstack.State.Validate.{validate_records}
use garm_provider_orbstack.State.Validate.Sound.{IsWellFormed, validate_records_iff}
use garm_provider_orbstack.State.Sort.{sort_records, sort_records-IsWellFormed, count-sort_records}
use garm_provider_orbstack.State.Registry.Update.{reserve_update, save_update, remove_update}
use garm_provider_orbstack.State.Registry.Capacity.{of_controller, reserve_update-appends, one_more}
use garm_provider_orbstack.State.Registry.Lifecycle.{
  save_update-Replaced, remove_update-Removed, count-Replaced, count-Removed,
}

count_one_more :
    (r : Record) (d : String) (n m : ℕ)
    → n ≤ m
    → (r.controller_id ≡ d → n + 1 ≤ m)
    → n + count (of_controller d) (r ∷ []) ≤ m
unfolding count
count_one_more r d n m h k = elim (Bool-cases (r.controller_id == d)) [
  | inl own ↦ rw own (k ((eq_iff r.controller_id d).0 own))
  | inr foreign ↦ rw foreign (omega arith)
]

module _ ⦃p : Platform⦄ where
  -- The callback of some operation of some controller; each controller reserves up to its maximum.
  pub data Operation (limit : String → ℤ) : (List Record → Result (List Record)) → Type 0 where
    reserving :
        (c : String) (desired : Record)
        → desired.controller_id ≡ c
        → Operation limit (λ rs. (reserve_update c desired (limit c) rs).1)
    saving : (c : String) (r : Record) → r.controller_id ≡ c → Operation limit (save_update c r)
    removing : (c name : String) → Operation limit (remove_update c name)

  -- One transaction that publishes.
  pub record Step (limit : String → ℤ) (before after : List Record) : Type 0 where
    pub update : List Record → Result (List Record)
    pub operation : Operation limit update
    pub updated : List Record
    pub returns : update before ≡ ok updated
    pub valid : validate_records updated ≡ ok tt
    pub sorted : after ≡ sort_records updated

  pub data History (limit : String → ℤ) (start : List Record) : List Record → Type 0 where
    begin : History limit start start
    then :
        {rs rs' : List Record}
        → History limit start rs
        → Step limit rs rs'
        → History limit start rs'

  -- no controller has more records than its maximum
  pub record IsWithin (limit : String → ℤ) (rs : List Record) : Type 0 where
    pub capacity : String → ℕ
    pub limits : (c : String) → limit c ≡ pos (capacity c)
    pub fits : (c : String) → count (of_controller c) rs ≤ capacity c

  room_of :
      (limit : String → ℤ) (cap : String → ℕ)
      → ((c : String) → limit c ≡ pos (cap c))
      → (n : ℕ) (c : String) → reaches n (limit c) ≡ false
      → n + 1 ≤ cap c
  room_of limit cap limits n c h =
      let (m, e, fits) = one_more n (limit c) h in ground (arith, limits c)

  count-step :
      (limit : String → ℤ) (cap : String → ℕ)
      → ((c : String) → limit c ≡ pos (cap c))
      → {update : List Record → Result (List Record)} → Operation limit update
      → (rs updated : List Record) → update rs ≡ ok updated
      → (d : String) → count (of_controller d) rs ≤ cap d
      → count (of_controller d) updated ≤ cap d
  count-step limit cap limits (reserving c desired own) rs updated h d fits =
      let (appended, room, _) = reserve_update-appends c desired (limit c) rs updated h in
      rw (appended, count-append)
        (count_one_more desired d (count (of_controller d) rs) (cap d) fits λ e.
          room_of limit cap limits (count (of_controller d) rs) d (
            subst (λ x. reaches (count (of_controller x) rs) (limit x) ≡ false) (cc (e, own)) room))
  count-step limit cap limits (saving c r own) rs updated h d fits =
      omega (arith, count-Replaced d own (save_update-Replaced c r rs updated h))
  count-step limit cap limits (removing c name) rs updated h d fits =
      omega (arith, count-Removed d (remove_update-Removed c name rs updated h))

  Step-IsWithin :
      {limit : String → ℤ} {rs rs' : List Record}
      → Step limit rs rs'
      → IsWithin limit rs
      → IsWithin limit rs'
  Step-IsWithin {limit} {rs} st w = record {
    capacity = w.capacity;
    limits = w.limits;
    fits = λ d.
        rw (st.sorted, count-sort_records)
          (count-step limit w.capacity w.limits st.operation rs st.updated st.returns d (w.fits d));
  }

  Step-IsWellFormed :
      {limit : String → ℤ} {rs rs' : List Record} → Step limit rs rs' → IsWellFormed rs'
  Step-IsWellFormed st =
      rw (st.sorted)
        (sort_records-IsWellFormed st.updated ((validate_records_iff st.updated).0 st.valid))

  -- From a well-formed registry in which no controller is past its maximum, however many controllers
  -- reserve, save and remove, in whatever order: no controller passes its maximum, every record is
  -- valid, and no two share a key, a machine name or a machine ID.
  pub History-IsWithin :
      {limit : String → ℤ} {rs rs' : List Record}
      → IsWellFormed rs
      → IsWithin limit rs
      → History limit rs rs'
      → IsWellFormed rs' × IsWithin limit rs'
  History-IsWithin v w begin = (v, w)
  History-IsWithin v w (then h st) =
      (Step-IsWellFormed st, Step-IsWithin st (History-IsWithin v w h).1)
