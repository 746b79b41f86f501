-- ===== src/Provider/Lifecycle/Listing.antt =====
-- What `ListInstances` of internal/provider/provider.go reports.
use mathlib.Core.List.{Memᴰ}
use garm_provider_orbstack.Prelude.{
  ap, sym, ◌∙◌, String, Bool, true, false, not, ◌&&◌, ◌≡◌, refl, arith, ◌==◌, ◌||◌, List, [], ◌∷◌,
  All, some, Option-cases, Bool-cases, inl, inr, eq_iff, if◌then◌else◌,
}
use garm_provider_orbstack.Error.{Result, ok, err, message}
use garm_provider_orbstack.Exec.{lift, ◌>>=◌, refuse_if}
use garm_provider_orbstack.Exec.Keeps.{bind-eq-ok}
use garm_provider_orbstack.Platform.{Platform}
use garm_provider_orbstack.State.Registry.{belongs, snapshot}
use garm_provider_orbstack.Provider.Resolve.Scope.{snapshot-belongs}
use garm_provider_orbstack.State.Record.{Record}
use garm_provider_orbstack.Orbstack.{Machine}
use garm_provider_orbstack.Provider.World.{World, Machines, Provider, on_disk}
use garm_provider_orbstack.Provider.Owned.{ProviderInstance, instance_of, is_template, inventory}
use garm_provider_orbstack.Provider.Owned.Seen.{inventory-answered, refused_state}
use garm_provider_orbstack.Provider.Lifecycle.{
  list_instances, machine_of, list_each, bare_info, keep_instance,
}

module _ {O : Type 0} ⦃platform : Platform⦄ (orb : Machines O) (p : Provider) where
  -- An instance that is reported: of a record of the pool, whose machine OrbStack lists and is no
  -- template.
  pub record IsListed (pool : String) (machines : List Machine) (records : List Record)
      (i : ProviderInstance) : Type 0 where
    pub owner : Record
    pub stored : Memᴰ owner records
    pub pool_id : owner.pool_id ≡ pool
    pub machine : Machine
    pub listed : machine_of owner.machine_id machines ≡ some machine
    pub spared : is_template orb p owner.machine_id ≡ false
    pub reports : i ≡ instance_of owner (bare_info machine)

  later :
      (pool : String) (machines : List Machine) (r : Record) (rest : List Record)
      (is : List ProviderInstance)
      → All (IsListed pool machines rest) is
      → All (IsListed pool machines (r ∷ rest)) is
  later pool machines r rest [] h = tt
  later pool machines r rest (i ∷ is) (h, hs) = (
    record {
      owner = h.owner;
      stored = Memᴰ.tail h.stored;
      pool_id = h.pool_id;
      machine = h.machine;
      listed = h.listed;
      spared = h.spared;
      reports = h.reports;
    },
    later pool machines r rest is hs,
  )

  module _ (pool : String) (machines : List Machine) (r : Record) (rest : List Record) where
    abbrev others : Result (List ProviderInstance)
    others = list_each orb p pool machines rest

    -- a machine that is listed
    abbrev listed_as : Machine → Result (List ProviderInstance)
    listed_as m =
        if is_template orb p r.machine_id
        then err (message "registry illegally assigns a template as a runner")
        else keep_instance (instance_of r (bare_info m)) others

    kept :
        (m : Machine) (found : Result (List ProviderInstance)) {is : List ProviderInstance}
        → ((js : List ProviderInstance) → found ≡ ok js → All (IsListed pool machines rest) js)
        → r.pool_id ≡ pool
        → machine_of r.machine_id machines ≡ some m
        → is_template orb p r.machine_id ≡ false
        → keep_instance (instance_of r (bare_info m)) found ≡ ok is
        → All (IsListed pool machines (r ∷ rest)) is
    kept m (ok js) {is} more own listed spared h =
        let e : instance_of r (bare_info m) ∷ js ≡ is = cc (h) in
        rw (← e) (
          record {
            owner = r;
            stored = Memᴰ.head refl;
            pool_id = own;
            machine = m;
            listed = listed;
            spared = spared;
            reports = refl;
          },
          later pool machines r rest js (more js refl),
        )
    kept m (err x) more own listed spared h = cc

  list_each-IsListed :
      (pool : String) (machines : List Machine) (records : List Record) (is : List ProviderInstance)
      → list_each orb p pool machines records ≡ ok is
      → All (IsListed pool machines records) is
  unfolding list_each
  list_each-IsListed pool machines [] is h = let e : [] ≡ is = cc (h) in rw (← e) tt
  list_each-IsListed pool machines (r ∷ rest) is h =
      elim (Bool-cases (not (r.pool_id == pool) || r.machine_id == "")) [
        | inl skipped ↦
            later pool machines r rest is
              (list_each-IsListed pool machines rest is (rw skipped at h))
        | inr owned ↦ elim (Option-cases (machine_of r.machine_id machines)) [
          | inl absent ↦
              later pool machines r rest is
                (list_each-IsListed pool machines rest is (rw (owned, absent) at h))
          | inr (m, listed) ↦
              let k : listed_as pool machines r rest m ≡ ok is = rw (owned, listed) at h in
              let spared : is_template orb p r.machine_id ≡ false = ground arith in
              let own : r.pool_id ≡ pool = ground (arith, eq_iff r.pool_id pool) in
              kept pool machines r rest m (others pool machines r rest)
                (λ js e. list_each-IsListed pool machines rest js e) own listed spared
                (rw spared at k)
        ]
      ]

  -- What a listing is drawn from: the records that the registry has for the controller, and the
  -- machines that OrbStack answers with.
  pub record Listed (pool : String) (w : World O) (is : List ProviderInstance) : Type 0 where
    pub records : List Record
    pub machines : List Machine
    pub read : (snapshot p.registry.controller_id w.disk).0 ≡ ok records
    pub answered : (orb.list w.machines).0 ≡ ok machines
    pub owned : All (λ r. belongs p.registry.controller_id r ≡ true) records
    pub instances : All (IsListed pool machines records) is

  abbrev refuses : String → Bool
  refuses pool = pool == "" || not (p.pool_id == "") && not (p.pool_id == pool)

  -- A listing that succeeds reports only runners that the registry has for the controller, of the pool
  -- asked for, each of which has a machine that OrbStack's answer to this call lists and that is no
  -- template.
  pub list_instances-Listed :
      (pool : String) (w : World O) {is : List ProviderInstance}
      → (list_instances orb p pool w).0 ≡ ok is
      → Listed pool w is
  unfolding list_instances on_disk
  list_instances-Listed pool w {is} h =
      let m : String = "list requires the invocation pool identity" in
      let (_, _, h1) = bind-eq-ok (refuse_if (refuses pool) m) _ w h in
      let t : World O = (refuse_if (refuses pool) m w).1 in
      let same : t ≡ w = refused_state (refuses pool) m w in
      let (records, taken, h2) =
        bind-eq-ok (on_disk (snapshot p.registry.controller_id))
          (λ records. inventory orb p >>= λ machines. lift (list_each orb p pool machines records))
          t h1 in
      let u : World O = (on_disk (snapshot p.registry.controller_id) t).1 in
      let (machines, found, h3) =
        bind-eq-ok (inventory orb p) (λ machines. lift (list_each orb p pool machines records)) u
          h2 in
      let answered : (orb.list t.machines).0 ≡ ok machines = inventory-answered orb p u found in
      record {
        records = records;
        machines = machines;
        read =
            ap (λ (x : World O). (snapshot p.registry.controller_id x.disk).0) (sym same) ∙ taken;
        answered = ap (λ (x : World O). (orb.list x.machines).0) (sym same) ∙ answered;
        owned = snapshot-belongs p.registry.controller_id t.disk taken;
        instances = list_each-IsListed pool machines records is h3;
      }
