-- ===== src/State/Registry/Lifecycle.antt =====
-- `Save` and `Remove` of internal/state/registry.go: one record changes, along the life of a runner.
use garm_provider_orbstack.Prelude.{
  subst, String, true, false, ◌≡◌, ◌⊎◌, inl, inr, refl, List, [], ◌∷◌, arith, ◌≤◌, ◌||◌, count,
  Bool-cases, ◌==◌, not, eq_iff,
}
use garm_provider_orbstack.Error.{ok}
use garm_provider_orbstack.Outcome.{chain-eq-ok}
use garm_provider_orbstack.State.Record.{
  Record, Phase, reserved, created, bootstrapping, active, deleting,
}
use garm_provider_orbstack.State.Registry.Update.{
  owns, may_follow, keeps_ownership, replace, save_update, remove_update,
}
use garm_provider_orbstack.State.Registry.Capacity.{of_controller}

-- The life of a runner, as comments of internal/state/types.go describe its phases.
pub data Next : Phase → Phase → Type 0 where
  clone_recorded : Next reserved created
  bootstrap_begins : Next created bootstrapping
  creation_completes : Next bootstrapping active
  created_deleted : Next created deleting
  bootstrapping_deleted : Next bootstrapping deleting
  active_deleted : Next active deleting

-- the `switch` of `Save` lets exactly these steps pass
pub may_follow→Next : (p q : Phase) → may_follow p q ≡ true → Next p q
unfolding may_follow
may_follow→Next p q h = grind (
  arith, clone_recorded, bootstrap_begins, creation_completes, created_deleted,
  bootstrapping_deleted, active_deleted,
)

pub Next→may_follow : {p q : Phase} → Next p q → may_follow p q ≡ true
unfolding may_follow
Next→may_follow clone_recorded = refl
Next→may_follow bootstrap_begins = refl
Next→may_follow creation_completes = refl
Next→may_follow created_deleted = refl
Next→may_follow bootstrapping_deleted = refl
Next→may_follow active_deleted = refl

-- What is kept from one record of a runner to the next, and the step of its life.
pub record Succeeds (old new : Record) : Type 0 where
  pub pool : old.pool_id ≡ new.pool_id
  pub image : old.image_id ≡ new.image_id
  pub flavor : old.flavor ≡ new.flavor
  pub machine_name : old.machine_name ≡ new.machine_name
  pub machine_id : (old.machine_id ≡ "") ⊎ (old.machine_id ≡ new.machine_id)
  pub phase : Next old.phase new.phase

keeps_ownership→eqs :
    (old r : Record)
    → keeps_ownership old r ≡ true
    → (old.pool_id ≡ r.pool_id)
      × (old.image_id ≡ r.image_id)
      × (old.flavor ≡ r.flavor)
      × (old.machine_name ≡ r.machine_name)
      × ((old.machine_id ≡ "") ⊎ (old.machine_id ≡ r.machine_id))
unfolding keeps_ownership
keeps_ownership→eqs old r h = ground (
  arith,
  eq_iff old.pool_id r.pool_id,
  eq_iff old.image_id r.image_id,
  eq_iff old.flavor r.flavor,
  eq_iff old.machine_name r.machine_name,
  eq_iff old.machine_id "",
  eq_iff old.machine_id r.machine_id,
)

pub replace-ok : (old r r' : Record) → replace old r ≡ ok r' → (r' ≡ r) × Succeeds old r
unfolding replace
replace-ok old r r' h =
    let kept : keeps_ownership old r ≡ true = ground arith in
    let edge : may_follow old.phase r.phase ≡ true = ground arith in
    let (pool, image, flavor, name, id) = keeps_ownership→eqs old r kept in
    (
      ground arith,
      record {
        pool = pool;
        image = image;
        flavor = flavor;
        machine_name = name;
        machine_id = id;
        phase = may_follow→Next old.phase r.phase edge;
      },
    )

-- Exactly one record, the controller's first of the runner name, gives way to `r`.
pub data Replaced (c : String) (r : Record) : List Record → List Record → Type 0 where
  here :
      {old : Record} {rest : List Record}
      → owns c r.runner_name old ≡ true
      → Succeeds old r
      → Replaced c r (old ∷ rest) (r ∷ rest)
  there :
      {x : Record} {rest rest' : List Record}
      → owns c r.runner_name x ≡ false
      → Replaced c r rest rest'
      → Replaced c r (x ∷ rest) (x ∷ rest')

-- Where the callback of `Save` succeeds, the controller's first record of the runner name is replaced
-- and all others stay: the pool, the image, the flavor, the machine name and a machine ID once set are
-- kept, and the phase makes one step of a runner's life.
pub save_update-Replaced :
    (c : String) (r : Record) (records records' : List Record)
    → save_update c r records ≡ ok records'
    → Replaced c r records records'
unfolding save_update
save_update-Replaced c r [] records' h = cc
save_update-Replaced c r (old ∷ rest) records' h =
    elim (Bool-cases (not (old.controller_id == c) || not (old.runner_name == r.runner_name))) [
      | inl skipped ↦
          let (rest', saved, e) = chain-eq-ok _ (save_update c r rest) (rw skipped at h) in
          subst (Replaced c r (old ∷ rest)) (cc (e))
            (there (ground arith) (save_update-Replaced c r rest rest' saved))
      | inr found ↦
          let (r', replaced, e) = chain-eq-ok _ (replace old r) (rw found at h) in
          let (same, succeeds) = replace-ok old r r' replaced in
          subst (Replaced c r (old ∷ rest)) (cc (e, same)) (here (ground arith) succeeds)
    ]

-- Exactly one record, the controller's first of the runner name, is gone.
pub data Removed (c name : String) : List Record → List Record → Type 0 where
  here :
      {old : Record} {rest : List Record}
      → owns c name old ≡ true
      → Removed c name (old ∷ rest) rest
  there :
      {x : Record} {rest rest' : List Record}
      → owns c name x ≡ false
      → Removed c name rest rest'
      → Removed c name (x ∷ rest) (x ∷ rest')

-- Where the callback of `Remove` succeeds, exactly the controller's first record of the runner name is
-- gone, and the others stay in their order.
pub remove_update-Removed :
    (c name : String) (records records' : List Record)
    → remove_update c name records ≡ ok records'
    → Removed c name records records'
unfolding remove_update
remove_update-Removed c name [] records' h = cc
remove_update-Removed c name (old ∷ rest) records' h = elim (Bool-cases (owns c name old)) [
  | inl found ↦ subst (Removed c name (old ∷ rest)) (ground arith) (Removed.here found)
  | inr skipped ↦
      let (rest', removed, e) = chain-eq-ok _ (remove_update c name rest) (rw skipped at h) in
      subst (Removed c name (old ∷ rest)) (cc (e))
        (Removed.there skipped (remove_update-Removed c name rest rest' removed))
]

pub count-Replaced :
    {c : String} {r : Record} {xs ys : List Record}
    → (d : String) → r.controller_id ≡ c
    → Replaced c r xs ys
    → count (of_controller d) ys ≡ count (of_controller d) xs
unfolding count
count-Replaced {c} {r} {xs} {ys} d own (here {old} found _) =
    ground (arith, eq_iff old.controller_id c)
count-Replaced {c} {r} {xs} {ys} d own (there _ more) = ground (arith, count-Replaced d own more)

pub count-Removed :
    {c name : String} {xs ys : List Record}
    → (d : String) → Removed c name xs ys
    → count (of_controller d) ys ≤ count (of_controller d) xs
unfolding count
count-Removed d (here _) = ground arith
count-Removed d (there _ more) = ground (arith, count-Removed d more)
