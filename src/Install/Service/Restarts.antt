-- ===== src/Install/Service/Restarts.antt =====
-- When `ensureProvider` of internal/install/cli.go restarts the controller.
use garm_provider_orbstack.Prelude.{
  ℕ, zero, suc, String, Bool, true, false, ◌==◌, ◌&&◌, ◌≡◌, refl, ◌∙◌, ◌⊎◌, inl, inr, List, [], ◌∷◌,
  contains, eqb, if◌then◌else◌, Bool-cases,
}
use garm_provider_orbstack.Error.{Error, Result, ok, err}
use garm_provider_orbstack.Exec.{Exec, pure, raise, lift, attempt, ◌>>=◌}
use garm_provider_orbstack.Exec.Keeps.{
  Moves, Preorder, Moves-bind, Moves-lift, Moves-pure, Moves-raise, Moves-if, Moves-attempt,
  Moves-mixed,
}
use garm_provider_orbstack.Install.Service.{
  Signal, alive, gone, denied, Answer, listed, unanswered, Desk, Event, ran, signalled, Session,
  read_status, launch_pid, required, judge_answer, output_command, send_signal, must_run,
  launch_status, exit_or, still_alive, never_ready, await_exit, wait_process_exit, bootstrap_unless,
  kickstart_args, start_service, probe_http, ready_or, wait_controller, check_provider, joining,
  recheck, ensure_from, ensure_provider,
}

-- `launchctl kickstart -k`, which kills the running controller
abbrev pub is_restart : List String → Bool
is_restart [] = false
is_restart (a ∷ []) = false
is_restart (a ∷ b ∷ rest) = a == "kickstart" && b == "-k"

-- the number of restarts in a log
abbrev pub restarts : List Event → ℕ
restarts [] = 0
restarts (signalled pid k ∷ l) = restarts l
restarts (ran args r ∷ l) = if is_restart args then suc (restarts l) else restarts l

module _ {W : Type 0} where
  pub Quiet : Session W → Session W → Type 0
  Quiet s t = restarts t.log ≡ restarts s.log

  pub AtMostOne : Session W → Session W → Type 0
  AtMostOne s t = Quiet s t ⊎ restarts t.log ≡ suc (restarts s.log)

  Quiet-Preorder : Preorder Quiet
  unfolding Quiet
  Quiet-Preorder = record { same = λ s. refl; chain = λ h k. k ∙ h }

  after-Quiet : (s t u : Session W) → Quiet s t → AtMostOne t u → AtMostOne s u
  unfolding Quiet AtMostOne
  after-Quiet s t u h (inl k) = inl (k ∙ h)
  after-Quiet s t u h (inr k) = inr (rw (← h) k)

  before-Quiet : (s t u : Session W) → AtMostOne s t → Quiet t u → AtMostOne s u
  unfolding Quiet AtMostOne
  before-Quiet s t u (inl h) k = inl (k ∙ h)
  before-Quiet s t u (inr h) k = inr (k ∙ h)

  module _ {A B : Type 0} (m : Exec (Session W) A) (f : A → Exec (Session W) B) where
    later : Moves Quiet m → ((a : A) → Moves AtMostOne (f a)) → Moves AtMostOne (m >>= f)
    unfolding AtMostOne Quiet
    later = Moves-mixed {R = Quiet} {T = AtMostOne} {U = AtMostOne} (λ s t h. inl h) after-Quiet m f

    earlier : Moves AtMostOne m → ((a : A) → Moves Quiet (f a)) → Moves AtMostOne (m >>= f)
    unfolding AtMostOne Quiet
    earlier = Moves-mixed {R = AtMostOne} {T = Quiet} {U = AtMostOne} (λ s t h. h) before-Quiet m f

  module _ (desk : Desk W) where
    Moves-output :
        (args : List String) → is_restart args ≡ false → Moves Quiet (output_command desk args)
    unfolding Quiet
    Moves-output args h = record { at = λ s. rw h refl }

    Moves-must :
        (m : String) (args : List String)
        → is_restart args ≡ false
        → Moves Quiet (must_run desk m args)
    Moves-must m args h =
        Moves-bind Quiet-Preorder (output_command desk args) (λ r. lift (required m r))
          (Moves-output args h) (λ r. Moves-lift Quiet-Preorder (required m r))

    Moves-status : Moves Quiet (launch_status desk)
    unfolding launch_status
    Moves-status =
        Moves-bind Quiet-Preorder (output_command desk ("print" ∷ desk.target ∷ []))
          (λ r. lift (read_status r)) (Moves-output _ refl)
          (λ r. Moves-lift Quiet-Preorder (read_status r))

    Moves-signal : (pid : ℕ) → Moves Quiet (send_signal desk pid)
    unfolding Quiet
    Moves-signal pid = record { at = λ s. refl }

    Moves-exit_or :
        (k : Signal) (next : Exec (Session W) (Unit {0}))
        → Moves Quiet next
        → Moves Quiet (exit_or desk k next)
    Moves-exit_or gone next h = Moves-pure Quiet-Preorder tt
    Moves-exit_or alive next h = h
    Moves-exit_or (denied e) next h = Moves-raise Quiet-Preorder _

    Moves-await_exit : (pid ticks : ℕ) → Moves Quiet (await_exit desk pid ticks)
    unfolding await_exit
    Moves-await_exit pid zero =
        Moves-bind Quiet-Preorder (send_signal desk pid) _ (Moves-signal pid)
          (λ k. Moves-exit_or k (raise still_alive) (Moves-raise Quiet-Preorder still_alive))
    Moves-await_exit pid (suc ticks) =
        Moves-bind Quiet-Preorder (send_signal desk pid) _ (Moves-signal pid)
          (λ k. Moves-exit_or k (await_exit desk pid ticks) (Moves-await_exit pid ticks))

    Moves-wait : (ticks pid : ℕ) → Moves Quiet (wait_process_exit desk ticks pid)
    unfolding wait_process_exit
    Moves-wait ticks pid =
        Moves-if Quiet-Preorder (eqb pid 0) (pure tt) (await_exit desk pid ticks)
          (λ _. Moves-pure Quiet-Preorder tt) (λ _. Moves-await_exit pid ticks)

    Moves-kickstart : (m : String) → Moves AtMostOne (must_run desk m (kickstart_args desk true))
    unfolding AtMostOne Quiet
    Moves-kickstart m =
        earlier (output_command desk (kickstart_args desk true)) (λ r. lift (required m r))
          (record { at = λ s. inr refl }) (λ r. Moves-lift Quiet-Preorder (required m r))

    Moves-bootstrap : (loaded : Bool) → Moves Quiet (bootstrap_unless desk loaded)
    Moves-bootstrap true = Moves-pure Quiet-Preorder ""
    Moves-bootstrap false = Moves-must _ _ refl

    -- a restart of the service sends the command for it once at most
    Moves-start : (ticks : ℕ) → Moves AtMostOne (start_service desk ticks true)
    unfolding start_service
    Moves-start ticks = later (launch_status desk) _ Moves-status (λ found.
        later (lift (launch_pid found.0)) _ (Moves-lift Quiet-Preorder _) (λ pid.
          later (bootstrap_unless desk found.1) _ (Moves-bootstrap found.1) (λ _.
            earlier (must_run desk "kickstart LaunchAgent" (kickstart_args desk true)) _
              (Moves-kickstart "kickstart LaunchAgent")
              (λ _.
                Moves-bind Quiet-Preorder (wait_process_exit desk ticks pid) _
                  (Moves-wait ticks pid) (λ _. Moves-pure Quiet-Preorder false)))))

    Moves-probe : Moves Quiet (probe_http desk)
    unfolding Quiet
    Moves-probe = record { at = λ s. refl }

    Moves-ready_or :
        (r : Result ℕ) (next : Error → Exec (Session W) ℕ)
        → ((e : Error) → Moves Quiet (next e))
        → Moves Quiet (ready_or desk r next)
    Moves-ready_or (ok n) next h = Moves-pure Quiet-Preorder n
    Moves-ready_or (err e) next h = h e

    Moves-controller : (ticks : ℕ) → Moves Quiet (wait_controller desk ticks)
    unfolding wait_controller
    Moves-controller zero = Moves-bind Quiet-Preorder (probe_http desk) _ Moves-probe (λ r.
        Moves-ready_or r (λ last. raise (never_ready last))
          (λ last. Moves-raise Quiet-Preorder (never_ready last)))
    Moves-controller (suc ticks) = Moves-bind Quiet-Preorder (probe_http desk) _ Moves-probe (λ r.
        Moves-ready_or r (λ last. wait_controller desk ticks) (λ last. Moves-controller ticks))

    Moves-check : Moves Quiet (check_provider desk)
    unfolding Quiet check_provider
    Moves-check = record { at = λ s. refl }

    Moves-recheck : (exits ticks : ℕ) (e : Error) → Moves AtMostOne (recheck desk exits ticks e)
    unfolding recheck
    Moves-recheck exits ticks e =
        earlier (attempt (start_service desk exits true >>= λ _. pure tt)) _
          (record {
            at =
                (earlier (start_service desk exits true) (λ _. pure tt) (Moves-start exits)
                  (λ _. Moves-pure Quiet-Preorder tt)).at;
          })
          (λ restarted.
            Moves-bind Quiet-Preorder (lift (joining desk e restarted)) _
              (Moves-lift Quiet-Preorder _)
              (λ _.
                Moves-bind Quiet-Preorder (attempt (wait_controller desk ticks >>= λ _. pure tt)) _
                  (Moves-attempt Quiet-Preorder (wait_controller desk ticks >>= λ _. pure tt) (
                    Moves-bind Quiet-Preorder (wait_controller desk ticks) (λ _. pure tt)
                      (Moves-controller ticks) (λ _. Moves-pure Quiet-Preorder tt)))
                  (λ waited.
                    Moves-bind Quiet-Preorder (lift (joining desk e waited)) _
                      (Moves-lift Quiet-Preorder _) (λ _. Moves-check))))

    -- The log has no restart more, or the controller has answered the first request for its providers,
    -- without the one for OrbStack, and there is one restart more.
    abbrev pub Proven : Session W → Session W → Type 0
    Proven s t =
        Quiet s t
        ⊎ ((names : List String) × ((desk.providers s.world).0 ≡ listed names)
            × (contains "orbstack" names ≡ false)
            × (restarts t.log ≡ suc (restarts s.log)))

    module _ (exits ticks : ℕ) where
      once-Proven :
          (names : List String) (s t : Session W)
          → (desk.providers s.world).0 ≡ listed names
          → contains "orbstack" names ≡ false
          → AtMostOne s t
          → Proven s t
      unfolding AtMostOne
      once-Proven names s t a absent (inl quiet) = inl quiet
      once-Proven names s t a absent (inr once) = inr (names, a, absent, once)

      ensure_from-Proven :
          (s u : Session W) (a : Answer)
          → (desk.providers s.world).0 ≡ a
          → Quiet s u
          → Proven s (ensure_from desk exits ticks (judge_answer a) u).1
      ensure_from-Proven s u (unanswered e) said quiet = inl quiet
      ensure_from-Proven s u (listed names) said quiet =
          elim (Bool-cases (contains "orbstack" names)) [
            | inl present ↦ rw present (inl quiet)
            | inr absent ↦ rw absent (
                once-Proven names s _ said absent
                  (after-Quiet s u _ quiet ((Moves-recheck exits ticks _).at u)))
          ]

      -- `ensureProvider` restarts the controller once at most, and only when the controller has answered
      -- the request for its providers and the one for OrbStack is not among them. After an error of that
      -- request the controller that runs is left alone.
      pub ensure_provider-Proven : (s : Session W) → Proven s (ensure_provider desk exits ticks s).1
      unfolding ensure_provider
      ensure_provider-Proven s =
          ensure_from-Proven s (check_provider desk s).1 (desk.providers s.world).0 refl
            (Moves-check.at s)
