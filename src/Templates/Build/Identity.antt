-- ===== src/Templates/Build/Identity.antt =====
-- The identity of the machine that `Build` of internal/templates/builder.go creates.
use garm_provider_orbstack.Templates.Recipe.{Toolbox, Recipe, create_options, machine_name_of}
use garm_provider_orbstack.Prelude.{
  String, Bool, true, false, not, ◌≡◌, refl, ◌⊎◌, inl, inr, arith, ◌==◌, ◌||◌, eq_iff, ◌≢◌,
}
use garm_provider_orbstack.Error.{Result, ok, err}
use garm_provider_orbstack.Exec.{Exec, wrap, pure, continue, ◌>>=◌, refuse_if, wrapping}
use garm_provider_orbstack.Exec.Keeps.{
  bind-eq-ok, Moves, Preorder, Moves-bind, Moves-lift, Moves-pure,
}
use garm_provider_orbstack.Orbstack.{Machine, Info}
use garm_provider_orbstack.Orbstack.Client.{Orbctl, Session, info, create}
use garm_provider_orbstack.Orbstack.Client.Sends.{
  Sends, Sends-Preorder, Sends-weaken, Moves-create, Moves-info, Moves-wrapping, Moves-refuse_if,
}
use garm_provider_orbstack.Platform.{Platform}
use garm_provider_orbstack.Config.Store.{Codec}
use garm_provider_orbstack.Config.{Host}
use garm_provider_orbstack.Templates.Manifest.{Manifest}
use garm_provider_orbstack.Templates.Builder.{BuildOptions}
use garm_provider_orbstack.Templates.Build.{make_template, retaining, create_template, make_machine}
use garm_provider_orbstack.Templates.Build.Own.{
  Creating, creates, looks_up, Own, creating, order, Moves-provision, Moves-seal_machine,
  Moves-retaining,
}

refuse_if-false {ℓ} :
    {S : Type ℓ} (b : Bool) (m : String) (s : S) → (refuse_if b m s).0 ≡ ok tt → b ≡ false
refuse_if-false true m s h = cc
refuse_if-false false m s h = refl

module _ {S : Type 0} (orbctl : Orbctl S) (path : String) (o : BuildOptions) (nonce : String) where
  abbrev pub name : String
  name = machine_name_of o nonce

  Moves-make_template :
      (box : Toolbox) (r : Recipe) (ver : String) (machine : Machine)
      → Moves
          (Sends (Own orbctl path o name machine.id))
          (make_template orbctl path box o r ver nonce machine)
  unfolding make_template
  Moves-make_template box r ver machine =
      Moves-bind (order orbctl path o name machine.id) _ _
        (Moves-provision orbctl path o name machine.id r)
        λ packages.
          Moves-bind (order orbctl path o name machine.id) _ _
            (Moves-lift (order orbctl path o name machine.id) _)
            λ metadata.
              Moves-bind (order orbctl path o name machine.id) _ _
                (Moves-seal_machine orbctl path o name machine.id _ metadata refl)
                λ _. Moves-pure (order orbctl path o name machine.id) _

  Moves-create_template :
      Moves (Sends (Creating orbctl path o name)) (create_template orbctl path o name)
  unfolding create_template
  Moves-create_template =
      Moves-bind early _ _ (Moves-wrapping _ orbctl path _ _ (Moves-create _ orbctl path _ creates))
        λ _.
          Moves-bind early _ _
            (Moves-wrapping _ orbctl path _ _ (Moves-info _ orbctl path name looks_up))
            λ found.
              Moves-bind early _ _ (Moves-refuse_if _ orbctl path _ _) λ _. Moves-pure early _
    where
      early : Preorder (Sends {S = S} (Creating orbctl path o name))
      early = Sends-Preorder (Creating orbctl path o name)

  -- what OrbStack reports for the new name right after the machine was created from `s`
  abbrev pub reported : Session S → Result Info
  reported s = (info orbctl path name (create orbctl path (create_options o name) s).1).0

  -- What the commands between two states are: the first steps only, or the first steps and then
  -- commands about the machine that OrbStack reported for the new name.
  abbrev pub Addressed : Session S → Session S → Type 0
  Addressed s t =
      Sends (Creating orbctl path o name) s t
      ⊎ ((found : Info) × (reported s ≡ ok found)
          × (found.machine.id ≢ "")
          × (found.machine.name ≡ name)
          × Sends (Own orbctl path o name found.machine.id) s t)

  identified :
      (m : Machine) → (m.id == "" || not (m.name == name)) ≡ false → (m.id ≢ "") × (m.name ≡ name)
  identified m h = ((λ q. ground (arith, eq_iff m.id "")), ground (arith, eq_iff m.name name))

  wrap-ok : {A : Type 0} (m : String) (r : Result A) {x : A} → wrap m r ≡ ok x → r ≡ ok x
  wrap-ok m (ok x) h = h
  wrap-ok m (err e) h = cc (h)

  -- a machine that is created is the one that OrbStack reports
  create_template-identified :
      (s : Session S) (m : Machine)
      → (create_template orbctl path o name s).0 ≡ ok m
      → (found : Info) × (reported s ≡ ok found)
        × (found.machine ≡ m)
        × (m.id ≢ "")
        × (m.name ≡ name)
  unfolding create_template
  create_template-identified s m h =
      let (_, _, h1) =
        bind-eq-ok
          (wrapping "template creation outcome uncertain"
            (create orbctl path (create_options o name)))
          _ s h in
      let t : Session S = (create orbctl path (create_options o name) s).1 in
      let (found, told, h2) =
        bind-eq-ok (wrapping "template created but identity unrecorded" (info orbctl path name))
          (λ found.
            refuse_if (found.machine.id == "" || not (found.machine.name == name))
              "template identity is uncertain"
            >>= λ _. pure found.machine)
          t h1 in
      let (_, kept, h3) =
        bind-eq-ok
          (refuse_if (found.machine.id == "" || not (found.machine.name == name))
            "template identity is uncertain")
          (λ _. pure found.machine) (info orbctl path name t).1 h2 in
      let same : found.machine ≡ m = cc (h3) in
      let answered : (info orbctl path name t).0 ≡ ok found =
        wrap-ok "template created but identity unrecorded" (info orbctl path name t).0 told in
      let (known, named) =
        identified found.machine
          (refuse_if-false (found.machine.id == "" || not (found.machine.name == name)) _ _ kept) in
      (found, answered, same, rw (← same) known, rw (← same) named)

  pub make_machine-Addressed :
      ⦃p : Platform⦄ ⦃codec : Codec⦄ (box : Toolbox) (config_path : String) (host : Host)
      → host.orbctl_path ≡ path
      → (r : Recipe) (ver : String) (s : Session S)
      → Addressed s (make_machine orbctl box config_path o host r ver nonce s).1
  unfolding make_machine
  make_machine-Addressed box config_path host same r ver s =
      rw same (go (create_template orbctl path o name s).0 refl)
    where
      after : Machine → Exec (Session S) Manifest
      after m = retaining orbctl path m.id (make_template orbctl path box o r ver nonce m)

      addressed :
          (m : Machine) (t : Session S) (found : Info)
          → reported s ≡ ok found
          → found.machine ≡ m
          → m.id ≢ ""
          → m.name ≡ name
          → Sends (Own orbctl path o name m.id) s t
          → Addressed s t
      addressed m t found told i known named sent =
          inr (found, told, rw i known, rw i named, rw i sent)

      go :
          (made : Result Machine)
          → (create_template orbctl path o name s).0 ≡ made
          → Addressed s (continue made after (create_template orbctl path o name s).1).1
      go (err e) h = inl (Moves-create_template.at s)
      go (ok m) h =
          let (found, told, i, known, named) = create_template-identified s m h in
          let early : Sends (Own orbctl path o name m.id) s
              (create_template orbctl path o name s).1 =
            Sends-weaken creating (Moves-create_template.at s) in
          addressed m _ found told i known named (
            (order orbctl path o name m.id).chain early (
              (Moves-retaining orbctl path o name m.id
                  (make_template orbctl path box o r ver nonce m)
                  (Moves-make_template box r ver m)).at
                (create_template orbctl path o name s).1))
