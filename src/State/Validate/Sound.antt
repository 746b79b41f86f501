-- ===== src/State/Validate/Sound.antt =====
-- `validate_records` decides an order-free description of a well-formed registry.
use garm_provider_orbstack.Prelude.{
  String, false, ◌≡◌, ◌≢◌, ◌↔◌, refl, List, [], ◌∷◌, eq_iff, arith, contains, All,
}
use garm_provider_orbstack.Error.{ok}
use garm_provider_orbstack.Outcome.{chain-eq-ok, refuse_if}
use garm_provider_orbstack.Platform.{Platform}
use garm_provider_orbstack.State.Record.{Record, record_key}
use garm_provider_orbstack.State.Validate.{
  Seen, check_record, is_duplicate, mark, validate_from, validate_records,
}

module _ ⦃p : Platform⦄ where
  abbrev pub key_of : Record → String
  key_of r = record_key r.controller_id r.runner_name

  -- Two records own nothing in common: neither the key, nor the machine name, nor a machine ID.
  pub record Apart (a b : Record) : Type 0 where
    pub keys : key_of a ≢ key_of b
    pub names : a.machine_name ≢ b.machine_name
    pub ids : a.machine_id ≡ b.machine_id → a.machine_id ≡ ""

  pub Apart-symm : {a b : Record} → Apart a b → Apart b a
  Apart-symm h = record {
    keys = λ e. h.keys (cc);
    names = λ e. h.names (cc);
    ids = λ e. cc (h.ids (cc));
  }

  -- each record passes the checks of its own, and every two are apart
  abbrev pub IsWellFormed : List Record → Type 0
  IsWellFormed [] = Unit
  IsWellFormed (r ∷ rest) = (check_record r ≡ ok tt) × All (λ s. Apart r s) rest × IsWellFormed rest

  is_duplicate-mark :
      (seen : Seen) (a b : Record)
      → is_duplicate (mark seen a) b ≡ false
      → (is_duplicate seen b ≡ false) × Apart a b
  unfolding is_duplicate mark contains
  is_duplicate-mark seen a b h = (
    ground (arith),
    record {
      keys = λ e. ground (arith, eq_iff (key_of a) (key_of b));
      names = λ e. ground (arith, eq_iff a.machine_name b.machine_name);
      ids = λ e.
          ground (
            arith,
            eq_iff a.machine_id b.machine_id,
            eq_iff a.machine_id "",
            eq_iff b.machine_id "",
          );
    },
  )

  mark-is_duplicate :
      (seen : Seen) (a b : Record)
      → is_duplicate seen b ≡ false
      → Apart a b
      → is_duplicate (mark seen a) b ≡ false
  unfolding is_duplicate mark contains
  mark-is_duplicate seen a b h apart = ground (
    arith,
    apart.keys,
    apart.names,
    apart.ids,
    eq_iff (key_of a) (key_of b),
    eq_iff a.machine_name b.machine_name,
    eq_iff a.machine_id b.machine_id,
    eq_iff a.machine_id "",
    eq_iff b.machine_id "",
  )

  abbrev Fresh : Seen → List Record → Type 0
  Fresh seen rs = All (λ r. is_duplicate seen r ≡ false) rs

  Fresh-mark :
      (seen : Seen) (a : Record) (rs : List Record)
      → Fresh (mark seen a) rs
      → Fresh seen rs × All (λ s. Apart a s) rs
  Fresh-mark seen a [] h = (tt, tt)
  Fresh-mark seen a (b ∷ rs) (h, rest) =
      let (fresh, apart) = is_duplicate-mark seen a b h in
      let (all_fresh, all_apart) = Fresh-mark seen a rs rest in
      ((fresh, all_fresh), (apart, all_apart))

  mark-Fresh :
      (seen : Seen) (a : Record) (rs : List Record)
      → Fresh seen rs
      → All (λ s. Apart a s) rs
      → Fresh (mark seen a) rs
  mark-Fresh seen a [] h k = tt
  mark-Fresh seen a (b ∷ rs) (h, rest) (apart, all_apart) =
      (mark-is_duplicate seen a b h apart, mark-Fresh seen a rs rest all_apart)

  validate_from_sound :
      (seen : Seen) (rs : List Record)
      → validate_from seen rs ≡ ok tt
      → IsWellFormed rs × Fresh seen rs
  unfolding validate_from
  validate_from_sound seen [] h = (tt, tt)
  validate_from_sound seen (r ∷ rs) h =
      let (_, checked, after) = chain-eq-ok _ (check_record r) h in
      let (_, fresh, rest) = chain-eq-ok _ (refuse_if (is_duplicate seen r) _) after in
      let (well_formed, marked) = validate_from_sound (mark seen r) rs rest in
      let (all_fresh, all_apart) = Fresh-mark seen r rs marked in
      ((ground arith, all_apart, well_formed), (ground arith, all_fresh))

  validate_from_complete :
      (seen : Seen) (rs : List Record)
      → IsWellFormed rs
      → Fresh seen rs
      → validate_from seen rs ≡ ok tt
  unfolding validate_from
  validate_from_complete seen [] h k = refl
  validate_from_complete seen (r ∷ rs) (checked, all_apart, well_formed) (fresh, all_fresh) =
      rw (checked, fresh)
        (validate_from_complete (mark seen r) rs well_formed
          (mark-Fresh seen r rs all_fresh all_apart))

  Fresh-nil : (rs : List Record) → Fresh (record { keys = []; ids = []; names = [] }) rs
  unfolding is_duplicate contains
  Fresh-nil [] = tt
  Fresh-nil (r ∷ rs) = (ground arith, Fresh-nil rs)

  -- The loop over the three sets accepts a registry exactly when every record passes its own checks
  -- and no two records share a key, a machine name or a machine ID.
  pub validate_records_iff : (rs : List Record) → (validate_records rs ≡ ok tt) ↔ IsWellFormed rs
  unfolding validate_records
  validate_records_iff rs =
      (λ h. (validate_from_sound _ rs h).0, λ w. validate_from_complete _ rs w (Fresh-nil rs))
