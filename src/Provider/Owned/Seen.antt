-- ===== src/Provider/Owned/Seen.antt =====
-- What `inventory` and `ownedInfo` of internal/provider/provider.go have asked OrbStack where they succeed.
use garm_provider_orbstack.Prelude.{
  String, Bool, true, false, not, ◌≡◌, refl, arith, ap, sym, ◌∙◌, ◌==◌, ◌||◌, List, [], eq_iff,
}
use garm_provider_orbstack.Error.{Error, Result, ok, err, sentinel, entity_not_found}
use garm_provider_orbstack.Exec.{Exec, pure, continue, ◌>>=◌, refuse_if, raise_if}
use garm_provider_orbstack.Exec.Keeps.{bind-eq-ok}
use garm_provider_orbstack.State.Record.{Record}
use garm_provider_orbstack.Orbstack.{Machine, Info}
use garm_provider_orbstack.Provider.World.{
  World, Machines, Provider, on_machines, list_request, info_request,
}
use garm_provider_orbstack.Provider.Owned.{
  unambiguous, lists_id, is_template, inventory, owned_info,
}

pub refused_state : {S : Type 0} (b : Bool) (m : String) (w : S) → (refuse_if b m w).1 ≡ w
refused_state true m w = refl
refused_state false m w = refl

raised_state : {S : Type 0} (b : Bool) (e : Error) (w : S) → (raise_if b e w).1 ≡ w
raised_state true e w = refl
raised_state false e w = refl

passed :
    {S : Type 0} (b : Bool) (m : String) (w : S) {u : Unit {0}}
    → (refuse_if b m w).0 ≡ ok u
    → b ≡ false
passed true m w h = cc (h)
passed false m w h = refl

not_raised :
    {S : Type 0} (b : Bool) (e : Error) (w : S) {u : Unit {0}}
    → (raise_if b e w).0 ≡ ok u
    → b ≡ false
not_raised true e w h = cc (h)
not_raised false e w h = refl

module _ {O : Type 0} (orb : Machines O) (p : Provider) where
  abbrev ambiguous : List Machine → Exec (World O) (List Machine)
  ambiguous machines =
      refuse_if (not (unambiguous [] [] machines))
        "OrbStack returned an incomplete or ambiguous inventory"
      >>= λ _. pure machines

  -- an inventory is what the listing answered
  pub inventory-answered :
      (t : World O) {machines : List Machine}
      → (inventory orb p t).0 ≡ ok machines
      → (orb.list t.machines).0 ≡ ok machines
  unfolding inventory on_machines
  inventory-answered t h =
      let (found, listed, h1) = bind-eq-ok (on_machines list_request orb.list) ambiguous t h in
      let (_, _, h2) =
        bind-eq-ok
          (refuse_if (not (unambiguous [] [] found))
            "OrbStack returned an incomplete or ambiguous inventory")
          (λ _. pure found) (on_machines list_request orb.list t).1 h1 in
      cc (listed, h2)

  ambiguous-state :
      (machines : List Machine) (b : Bool) (t : World O)
      → ((refuse_if b "OrbStack returned an incomplete or ambiguous inventory" >>= λ _.
            pure machines)
          t).1
        ≡ t
  ambiguous-state machines true t = refl
  ambiguous-state machines false t = refl

  inventory-machines : (t : World O) → (inventory orb p t).1.machines ≡ (orb.list t.machines).1
  unfolding inventory on_machines
  inventory-machines t = go (orb.list t.machines).0 (on_machines list_request orb.list t).1
    where
      go :
          (r : Result (List Machine)) (u : World O)
          → (continue r ambiguous u).1.machines ≡ u.machines
      go (ok machines) u =
          ap (λ (x : World O). x.machines)
            (ambiguous-state machines (not (unambiguous [] [] machines)) u)
      go (err e) u = refl

  -- The machine of a record that the controller owns and that is no template: the listing has its ID,
  -- and the lookup of the ID, made after the listing, answers with the information and with that ID.
  pub record Seen (r : Record) (t : World O) (info : Info) : Type 0 where
    pub controller : r.controller_id ≡ p.host.controller_id
    pub spared : is_template orb p r.machine_id ≡ false
    pub machines : List Machine
    pub listed : (orb.list t.machines).0 ≡ ok machines
    pub present : lists_id r.machine_id machines ≡ true
    pub answered : (orb.info r.machine_id (orb.list t.machines).1).0 ≡ ok info
    pub identity : info.machine.id ≡ r.machine_id

  pub owned_info-Seen :
      (r : Record) (t : World O) {info : Info} → (owned_info orb p r t).0 ≡ ok info → Seen r t info
  unfolding owned_info on_machines
  owned_info-Seen r t {info} h =
      let m : String = "refusing unowned or template target" in
      let bad : Bool =
        not (r.controller_id == p.host.controller_id)
        || r.machine_id == ""
        || is_template orb p r.machine_id in
      let looked : Exec (World O) Info =
        on_machines (info_request r.machine_id) (orb.info r.machine_id) >>= λ i.
        refuse_if (not (i.machine.id == r.machine_id)) "OrbStack machine identity changed" >>= λ _.
        pure i in
      let missing : List Machine → Bool = λ ms. not (lists_id r.machine_id ms) in
      let (_, fine, h1) = bind-eq-ok (refuse_if bad m) _ t h in
      let u : World O = (refuse_if bad m t).1 in
      let same : u ≡ t = refused_state bad m t in
      let (machines, found, h2) =
        bind-eq-ok (inventory orb p)
          (λ ms. raise_if (missing ms) (sentinel entity_not_found) >>= λ _. looked) u h1 in
      let v : World O = (inventory orb p u).1 in
      let (_, there, h3) =
        bind-eq-ok (raise_if (missing machines) (sentinel entity_not_found)) (λ _. looked) v h2 in
      let w : World O = (raise_if (missing machines) (sentinel entity_not_found) v).1 in
      let (i, told, h4) =
        bind-eq-ok (on_machines (info_request r.machine_id) (orb.info r.machine_id))
          (λ i.
            refuse_if (not (i.machine.id == r.machine_id)) "OrbStack machine identity changed"
            >>= λ _. pure i)
          w h3 in
      let x : World O = (on_machines (info_request r.machine_id) (orb.info r.machine_id) w).1 in
      let (_, kept, h5) =
        bind-eq-ok
          (refuse_if (not (i.machine.id == r.machine_id)) "OrbStack machine identity changed")
          (λ _. pure i) x h4 in
      let e : i ≡ info = cc (h5) in
      let good : bad ≡ false = passed bad m t fine in
      let unique : not (i.machine.id == r.machine_id) ≡ false = passed _ _ x kept in
      let here : missing machines ≡ false = not_raised _ _ v there in
      let at_list : w.machines ≡ (orb.list t.machines).1 =
        ap (λ (y : World O). y.machines)
          (raised_state (missing machines) (sentinel entity_not_found) v)
        ∙ inventory-machines u
        ∙ ap (λ (y : World O). (orb.list y.machines).1) same in
      record {
        controller = ground (arith, eq_iff r.controller_id p.host.controller_id);
        spared = ground arith;
        machines = machines;
        listed =
            ap (λ (y : World O). (orb.list y.machines).0) (sym same) ∙ inventory-answered u found;
        present = ground arith;
        answered = ap (λ (y : O). (orb.info r.machine_id y).0) (sym at_list) ∙ told ∙ ap ok e;
        identity = rw (← e) ((eq_iff i.machine.id r.machine_id).0 (ground arith));
      }
