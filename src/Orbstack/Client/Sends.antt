-- ===== src/Orbstack/Client/Sends.antt =====
-- Which commands the methods of internal/orbstack/cli.go send.
use garm_provider_orbstack.Prelude.{
  String, Bool, true, false, ◌≡◌, refl, ap, ◌∙◌, List, [], ◌∷◌, All, All-append, ◌++◌, append_assoc,
  is_blank, split_on,
}
use garm_provider_orbstack.Exec.{Exec, lift, refuse_if, wrapping}
use garm_provider_orbstack.Exec.Keeps.{
  Moves, Preorder, Moves-bind, Moves-lift, Moves-pure, Moves-raise,
}
use garm_provider_orbstack.Orbstack.{CreateOptions, MachineSettings, RunOptions}
use garm_provider_orbstack.Orbstack.Client.{
  Orbctl, Session, spawned, judge, run_output, create, create_args, read_info, info, set_config,
  stop, apply_each, apply_settings, setting_key, settings_list, run_args, bad_command, run_streams,
  version, first_version,
}

module _ {S : Type 0} where
  -- the commands that were sent between two states, the last one first, all have a property
  pub record Sends (P : List String → Type 0) (s t : Session S) : Type 0 where
    pub commands : List (List String)
    pub sent : t.sent ≡ commands ++ s.sent
    pub each : All P commands

  pub Sends-Preorder : (P : List String → Type 0) → Preorder (Sends P)
  Sends-Preorder P = record {
    same = λ s. record { commands = []; sent = refl; each = tt };
    chain = λ h k. record {
      commands = k.commands ++ h.commands;
      sent = k.sent ∙ ap (λ l. k.commands ++ l) h.sent ∙ append_assoc k.commands h.commands _;
      each = All-append P k.commands h.commands k.each h.each;
    };
  }

  pub Sends-weaken :
      {P Q : List String → Type 0} {s t : Session S}
      → ((args : List String) → P args → Q args)
      → Sends P s t
      → Sends Q s t
  Sends-weaken {P} {Q} f h = record {
    commands = h.commands;
    sent = h.sent;
    each = each_of h.commands h.each;
  }
    where
      each_of : (xs : List (List String)) → All P xs → All Q xs
      each_of [] k = tt
      each_of (x ∷ xs) (p, k) = (f x p, each_of xs k)

  module _ (P : List String → Type 0) (orbctl : Orbctl S) (path : String) where
    pub Moves-refuse_if : (b : Bool) (m : String) → Moves (Sends P) (refuse_if {S = Session S} b m)
    Moves-refuse_if true m = Moves-raise (Sends-Preorder P) _
    Moves-refuse_if false m = Moves-pure (Sends-Preorder P) tt

    Moves-spawned : (args : List String) → P args → Moves (Sends P) (spawned orbctl path args)
    Moves-spawned args p = record {
      at = λ s. record { commands = args ∷ []; sent = refl; each = (p, tt) };
    }

    pub Moves-run_output :
        (args : List String) → P args → Moves (Sends P) (run_output orbctl path args)
    unfolding run_output
    Moves-run_output args p =
        Moves-bind (Sends-Preorder P) (refuse_if (is_blank path) "orbstack: orbctl path is empty") _
          (Moves-refuse_if (is_blank path) _)
          (λ _.
            Moves-bind (Sends-Preorder P) (spawned orbctl path args)
              (λ o. lift (judge orbctl path o)) (Moves-spawned args p)
              (λ o. Moves-lift (Sends-Preorder P) _))

    pub Moves-create :
        (o : CreateOptions) → P (create_args orbctl path o) → Moves (Sends P) (create orbctl path o)
    unfolding create
    Moves-create o p =
        Moves-bind (Sends-Preorder P) (run_output orbctl path (create_args orbctl path o)) _
          (Moves-run_output _ p) (λ _. Moves-pure (Sends-Preorder P) tt)

    pub Moves-info :
        (id : String)
        → P ("info" ∷ id ∷ "--format" ∷ "json" ∷ [])
        → Moves (Sends P) (info orbctl path id)
    unfolding info
    Moves-info id p =
        Moves-bind (Sends-Preorder P)
          (run_output orbctl path ("info" ∷ id ∷ "--format" ∷ "json" ∷ []))
          (λ out. lift (read_info orbctl path out)) (Moves-run_output _ p)
          (λ _. Moves-lift (Sends-Preorder P) _)

    pub Moves-stop : (id : String) → P ("stop" ∷ id ∷ []) → Moves (Sends P) (stop orbctl path id)
    unfolding stop
    Moves-stop id p =
        Moves-bind (Sends-Preorder P)
          (refuse_if (is_blank id) "orbstack: refusing stop with empty machine target") _
          (Moves-refuse_if (is_blank id) _)
          (λ _.
            Moves-bind (Sends-Preorder P) (run_output orbctl path ("stop" ∷ id ∷ [])) _
              (Moves-run_output _ p) (λ _. Moves-pure (Sends-Preorder P) tt))

    pub Moves-version : P ("version" ∷ []) → Moves (Sends P) (version orbctl path)
    unfolding version
    Moves-version p =
        Moves-bind (Sends-Preorder P) (run_output orbctl path ("version" ∷ []))
          (λ out. lift (first_version orbctl path (split_on b'\n' out))) (Moves-run_output _ p)
          (λ _. Moves-lift (Sends-Preorder P) _)

    pub Moves-wrapping {ℓ} :
        {A : Type ℓ} (m : String) (body : Exec (Session S) A)
        → Moves (Sends P) body
        → Moves (Sends P) (wrapping m body)
    Moves-wrapping m body h = record { at = h.at }

    pub Moves-run_streams :
        (o : RunOptions) → P (run_args orbctl path o) → Moves (Sends P) (run_streams orbctl path o)
    unfolding run_streams
    Moves-run_streams o p =
        Moves-bind (Sends-Preorder P)
          (refuse_if (bad_command orbctl path o.command)
            "orbstack: guest command must be a non-empty argv")
          _ (Moves-refuse_if (bad_command orbctl path o.command) _)
          (λ _. Moves-spawned (run_args orbctl path o) p)

    module _ (name : String)
        (sets : (suffix value : String)
          → P ("config" ∷ "set" ∷ setting_key orbctl path name suffix ∷ value ∷ [])) where
      Moves-set_config :
          (suffix value : String)
          → Moves (Sends P) (set_config orbctl path (setting_key orbctl path name suffix) value)
      unfolding set_config
      Moves-set_config suffix value =
          Moves-bind (Sends-Preorder P)
            (run_output orbctl path
              ("config" ∷ "set" ∷ setting_key orbctl path name suffix ∷ value ∷ []))
            _ (Moves-run_output _ (sets suffix value)) (λ _. Moves-pure (Sends-Preorder P) tt)

      Moves-apply_each :
          (l : List (String × String)) → Moves (Sends P) (apply_each orbctl path name l)
      unfolding apply_each
      Moves-apply_each [] = Moves-pure (Sends-Preorder P) tt
      Moves-apply_each ((suffix, value) ∷ rest) =
          Moves-bind (Sends-Preorder P)
            (wrapping "setting machine option"
              (set_config orbctl path (setting_key orbctl path name suffix) value))
            (λ _. apply_each orbctl path name rest)
            (Moves-wrapping _ _ (Moves-set_config suffix value)) (λ _. Moves-apply_each rest)

      pub Moves-apply_settings :
          (settings : MachineSettings) → Moves (Sends P) (apply_settings orbctl path name settings)
      unfolding apply_settings
      Moves-apply_settings settings = Moves-apply_each (settings_list orbctl path settings)
