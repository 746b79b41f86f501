-- ===== src/Templates/Build/Own.antt =====
-- The commands about the new machine that `Build` of internal/templates/builder.go sends.
use garm_provider_orbstack.Templates.Recipe.{Recipe, create_options}
use garm_provider_orbstack.Prelude.{String, ◌≡◌, ◌==◌, List, [], ◌∷◌}
use garm_provider_orbstack.Error.{Error, Result, ok, err, wrapped}
use garm_provider_orbstack.Exec.{Exec, pure, attempt}
use garm_provider_orbstack.Exec.Keeps.{
  Moves, Preorder, Moves-bind, Moves-lift, Moves-pure, Moves-raise, Moves-attempt, Moves-if,
}
use garm_provider_orbstack.Orbstack.Client.{
  Orbctl, Session, create_args, setting_key, run_args, stop,
}
use garm_provider_orbstack.Orbstack.Client.Sends.{
  Sends, Sends-Preorder, Moves-info, Moves-stop, Moves-run_streams, Moves-apply_settings,
  Moves-wrapping,
}
use garm_provider_orbstack.Templates.Manifest.{Manifest}
use garm_provider_orbstack.Templates.Builder.{BuildOptions, variant_of}
use garm_provider_orbstack.Templates.Build.{
  joined_with, run_guest, run_quiet, write_scripts, install_toolset, provision, seal_machine,
  retain, retaining,
}

module _ {S : Type 0} (orbctl : Orbctl S) (path : String) (o : BuildOptions) (name : String) where
  -- what is sent before the new machine's identity is known
  pub data Creating : List String → Type 0 where
    asks_version : Creating ("version" ∷ [])
    creates : Creating (create_args orbctl path (create_options o name))
    looks_up : Creating ("info" ∷ name ∷ "--format" ∷ "json" ∷ [])

  -- what is sent about the new machine: settings under its name, and commands, a stop and a lookup
  -- under the ID that was reported for it
  pub data Own (id : String) : List String → Type 0 where
    creating : (args : List String) → Creating args → Own id args
    sets :
        (suffix value : String)
        → Own id ("config" ∷ "set" ∷ setting_key orbctl path name suffix ∷ value ∷ [])
    runs :
        (command : List String) (input : String)
        → Own id (
            run_args orbctl path (record {
              machine = id;
              user = "root";
              workdir = "";
              command = command;
              stdin = input;
            }))
    stops : Own id ("stop" ∷ id ∷ [])
    looks_at : Own id ("info" ∷ id ∷ "--format" ∷ "json" ∷ [])

  module _ (id : String) where
    abbrev pub order : Preorder (Sends {S = S} (Own id))
    order = Sends-Preorder (Own id)

    Moves-run_guest :
        (command : List String) (input : String)
        → Moves (Sends (Own id)) (run_guest orbctl path id command input)
    unfolding run_guest
    Moves-run_guest command input =
        Moves-bind order _ _
          (Moves-wrapping (Own id) orbctl path "template provisioning command failed" _
            (Moves-run_streams (Own id) orbctl path _ (runs command input)))
          (λ _. Moves-lift order _)

    Moves-run_quiet :
        (command : List String) (input : String)
        → Moves (Sends (Own id)) (run_quiet orbctl path id command input)
    unfolding run_quiet
    Moves-run_quiet command input =
        Moves-bind order _ _ (Moves-run_guest command input) (λ _. Moves-pure order tt)

    Moves-write_scripts : (r : Recipe) → Moves (Sends (Own id)) (write_scripts orbctl path id r)
    unfolding write_scripts
    Moves-write_scripts r = Moves-bind order _ _ (Moves-run_quiet _ _) λ _.
        Moves-bind order _ _ (Moves-run_quiet _ _)
          λ _. Moves-bind order _ _ (Moves-run_quiet _ _) λ _. Moves-run_quiet _ _

    Moves-install_toolset : Moves (Sends (Own id)) (install_toolset orbctl path id o)
    unfolding install_toolset
    Moves-install_toolset =
        Moves-if order (variant_of o.variant == "full") _ _ (λ _. Moves-run_quiet _ _)
          (λ _. Moves-pure order tt)

    pub Moves-provision : (r : Recipe) → Moves (Sends (Own id)) (provision orbctl path o r name id)
    unfolding provision
    Moves-provision r =
        Moves-bind order _ _ (Moves-apply_settings (Own id) orbctl path name sets _) λ _.
          Moves-bind order _ _ (Moves-write_scripts r) λ _.
            Moves-bind order _ _ (Moves-run_quiet _ _) λ _.
              Moves-bind order _ _ Moves-install_toolset λ _.
                Moves-bind order _ _ (Moves-run_quiet _ _)
                  λ _. Moves-bind order _ _ (Moves-run_guest _ _) λ _. Moves-lift order _

    pub Moves-seal_machine :
        (m : Manifest) (metadata : String)
        → m.machine_id ≡ id
        → Moves (Sends (Own id)) (seal_machine orbctl path m metadata)
    unfolding seal_machine
    Moves-seal_machine m metadata same = rw same (
        Moves-bind order _ _ (Moves-run_quiet _ _) λ _.
          Moves-bind order _ _ (Moves-run_quiet _ _) λ _.
            Moves-bind order _ _ (Moves-run_quiet _ _) λ _.
              Moves-bind order _ _ (Moves-run_quiet _ _) λ _.
                Moves-bind order _ _ (Moves-stop (Own id) orbctl path id stops) λ _.
                  Moves-bind order _ _ (Moves-info (Own id) orbctl path id looks_at)
                    λ _. Moves-lift order _)

    Moves-retain {ℓ} :
        {A : Type ℓ} (cause : Error) → Moves (Sends (Own id)) (retain orbctl path {A = A} id cause)
    unfolding retain
    Moves-retain cause =
        Moves-bind order (attempt (stop orbctl path id)) _
          (Moves-attempt order (stop orbctl path id) (Moves-stop (Own id) orbctl path id stops))
          (λ stopped.
            Moves-raise order
              (wrapped "template retained for inspection" (joined_with orbctl path cause stopped)))

    pub Moves-retaining {ℓ} :
        {A : Type ℓ} (body : Exec (Session S) A)
        → Moves (Sends (Own id)) body
        → Moves (Sends (Own id)) (retaining orbctl path id body)
    unfolding retaining
    Moves-retaining {A} body h = Moves-bind order (attempt body) _ (Moves-attempt order body h) go
      where
        go :
            (r : Result A)
            → Moves
                (Sends {S = S} (Own id))
                (elim r [ ok a ↦ pure a | err e ↦ retain orbctl path id e ])
        go (ok a) = Moves-pure order a
        go (err e) = Moves-retain e
