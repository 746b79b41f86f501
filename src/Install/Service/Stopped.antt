-- ===== src/Install/Service/Stopped.antt =====
-- What a success of `stopService` of internal/install/service.go means.
use garm_provider_orbstack.Prelude.{
  ℕ, zero, suc, String, Bool, true, false, ◌≡◌, refl, arith, inl, inr, List, [], ◌∷◌, eqb,
  if◌then◌else◌, Bool-cases,
}
use garm_provider_orbstack.Error.{Error, Result, ok, err}
use garm_provider_orbstack.Exec.{Exec, pure, raise, raise_if}
use garm_provider_orbstack.Exec.Ensures.{
  Post, Ensures, ensures-bind, ensures-lift, ensures-pure, ensures-raise, ensures-if, success,
  ensures-weaken,
}
use garm_provider_orbstack.Install.Service.{
  Ran, done, exited, broken, Signal, alive, gone, denied, Desk, Event, ran, signalled, Session,
  required, has_infix, missing, read_status, launch_pid, must_run, send_signal, launch_status,
  exit_or, still_alive, await_exit, wait_process_exit, await_unloaded, stop_loaded, stop_service,
}

-- the log of a first status, of a bootout that launchd has done, and of the statuses asked for since,
-- all after the log `base`
pub data BootedOut (target : String) (base : List Event) : List Event → Type 0 where
  booted_out :
      (out : String) (first : Ran)
      → BootedOut target base
          (ran ("bootout" ∷ target ∷ []) (done out) ∷ ran ("print" ∷ target ∷ []) first ∷ base)
  asked :
      (r : Ran) (rest : List Event)
      → BootedOut target base rest
      → BootedOut target base (ran ("print" ∷ target ∷ []) r ∷ rest)

-- the log of a wait for a process: the job was booted out, then reported missing, and then the process
-- was alive
pub data Waited (target : String) (base : List Event) (pid : ℕ) : List Event → Type 0 where
  unloaded :
      (r : Ran) (rest : List Event)
      → BootedOut target base rest
      → missing r ≡ true
      → Waited target base pid (ran ("print" ∷ target ∷ []) r ∷ rest)
  waited :
      (rest : List Event)
      → Waited target base pid rest
      → Waited target base pid (signalled pid alive ∷ rest)

-- the log of a wait that has ended well: there was no process, or the last signal found none
pub data Halted (target : String) (base : List Event) (pid : ℕ) : List Event → Type 0 where
  no_process : (l : List Event) → pid ≡ 0 → Waited target base pid l → Halted target base pid l
  vanished :
      (rest : List Event)
      → Waited target base pid rest
      → Halted target base pid (signalled pid gone ∷ rest)

known_ok :
    {A S : Type 0} (r : Result A) (t : S) → Post (λ a s. (s ≡ t) × (r ≡ ok a)) (λ e s. Unit {0}) r t
known_ok (ok a) t = (refl, refl)
known_ok (err e) t = tt

module _ {W : Type 0} (desk : Desk W) (base : List Event) where
  status-Post :
      (pid : ℕ) (r : Ran) (s : Session W) (rest : List Event)
      → s.log ≡ ran ("print" ∷ desk.target ∷ []) r ∷ rest
      → BootedOut desk.target base rest
      → Post
          (λ (found : String × Bool) (t : Session W).
            found.1 ≡ false → Waited desk.target base pid t.log)
          (λ e t. Unit {0})
          (read_status r)
          s
  unfolding read_status
  status-Post pid (done output) s rest h booted = λ q. ground arith
  status-Post pid (exited stderr) s rest h booted =
      elim (Bool-cases (has_infix "Could not find service" stderr)) [
        | inl m ↦ rw m (λ q. rw h (unloaded (exited stderr) rest booted m))
        | inr m ↦ rw m tt
      ]
  status-Post pid (broken e) s rest h booted = tt

  abbrev Booted : Session W → Type 0
  Booted t = BootedOut desk.target base t.log

  -- a status that still has the job leaves the log of a bootout
  status_again :
      (pid : ℕ) (r : Ran) (s : Session W) (rest : List Event)
      → s.log ≡ ran ("print" ∷ desk.target ∷ []) r ∷ rest
      → BootedOut desk.target base rest
      → Post
          (λ (found : String × Bool) (t : Session W).
            Booted t × (found.1 ≡ false → Waited desk.target base pid t.log))
          (λ e t. Unit {0})
          (read_status r)
          s
  status_again pid r s rest h booted =
      with_log (read_status r) (rw h (asked r rest booted)) (status-Post pid r s rest h booted)
    where
      with_log :
          (found : Result (String × Bool))
          → Booted s
          → Post
              (λ (x : String × Bool) (t : Session W).
                x.1 ≡ false → Waited desk.target base pid t.log)
              (λ e t. Unit {0})
              found
              s
          → Post
              (λ (x : String × Bool) (t : Session W).
                Booted t × (x.1 ≡ false → Waited desk.target base pid t.log))
              (λ e t. Unit {0})
              found
              s
      with_log (ok x) b k = (b, k)
      with_log (err e) b k = tt

  status-Waited :
      (pid : ℕ)
      → Ensures Booted
          (launch_status desk)
          (λ found t. Booted t × (found.1 ≡ false → Waited desk.target base pid t.log))
          (λ e t. Unit {0})
  unfolding launch_status
  status-Waited pid = record {
    at = λ s booted.
        status_again pid (desk.launchctl ("print" ∷ desk.target ∷ []) s.world).0 _ s.log refl
          booted;
  }

  abbrev Left : ℕ → Session W → Type 0
  Left pid t = Waited desk.target base pid t.log

  raise_if-Left :
      (pid : ℕ) (loaded : Bool) (late : Error)
      → Ensures
          (λ t. Booted t × (loaded ≡ false → Left pid t))
          (raise_if loaded late)
          (λ u t. Left pid t)
          (λ e t. Unit {0})
  raise_if-Left pid true late = ensures-raise late (λ s h. tt)
  raise_if-Left pid false late = ensures-pure tt (λ s h. h.1 refl)

  await_unloaded-Left :
      (pid : ℕ) (late : Error) (rounds : ℕ)
      → Ensures Booted (await_unloaded desk late rounds) (λ u t. Left pid t) (λ e t. Unit {0})
  unfolding await_unloaded
  await_unloaded-Left pid late zero =
      ensures-bind (launch_status desk) (λ found. raise_if found.1 late) (status-Waited pid)
        (λ found. raise_if-Left pid found.1 late)
  await_unloaded-Left pid late (suc rounds) =
      ensures-bind (launch_status desk)
        (λ found. if found.1 then await_unloaded desk late rounds else pure tt) (status-Waited pid)
        (λ found.
          ensures-if found.1 (await_unloaded desk late rounds) (pure tt)
            (λ loaded. record { at = λ s h. (await_unloaded-Left pid late rounds).at s h.0 })
            (λ missing. ensures-pure tt (λ s h. h.1 missing)))

  abbrev Over : ℕ → Session W → Type 0
  Over pid t = Halted desk.target base pid t.log

  abbrev Answered : ℕ → Signal → Session W → Type 0
  Answered pid gone t = Over pid t
  Answered pid alive t = Left pid t
  Answered pid (denied e) t = Unit {0}

  answered :
      (pid : ℕ) (k : Signal) (l : List Event) (w : W)
      → Waited desk.target base pid l
      → Answered pid k (record { world = w; log = signalled pid k ∷ l })
  answered pid gone l w h = vanished l h
  answered pid alive l w h = waited l h
  answered pid (denied e) l w h = tt

  signal-Answered :
      (pid : ℕ) → Ensures (Left pid) (send_signal desk pid) (Answered pid) (λ e t. Unit {0})
  signal-Answered pid = record { at = λ s h. answered pid (desk.kill pid s.world).0 s.log _ h }

  exit_or-Over :
      (pid : ℕ) (k : Signal) (next : Exec (Session W) (Unit {0}))
      → Ensures (Left pid) next (λ u t. Over pid t) (λ e t. Unit {0})
      → Ensures (Answered pid k) (exit_or desk k next) (λ u t. Over pid t) (λ e t. Unit {0})
  exit_or-Over pid gone next h = ensures-pure tt (λ s over. over)
  exit_or-Over pid alive next h = h
  exit_or-Over pid (denied e) next h = ensures-raise _ (λ s over. tt)

  await_exit-Over :
      (pid ticks : ℕ)
      → Ensures (Left pid) (await_exit desk pid ticks) (λ u t. Over pid t) (λ e t. Unit {0})
  unfolding await_exit
  await_exit-Over pid zero =
      ensures-bind (send_signal desk pid) (λ k. exit_or desk k (raise still_alive))
        (signal-Answered pid)
        (λ k. exit_or-Over pid k (raise still_alive) (ensures-raise still_alive (λ s h. tt)))
  await_exit-Over pid (suc ticks) =
      ensures-bind (send_signal desk pid) (λ k. exit_or desk k (await_exit desk pid ticks))
        (signal-Answered pid)
        (λ k. exit_or-Over pid k (await_exit desk pid ticks) (await_exit-Over pid ticks))

  wait-Over :
      (ticks pid : ℕ)
      → Ensures (Left pid) (wait_process_exit desk ticks pid) (λ u t. Over pid t) (λ e t. Unit {0})
  unfolding wait_process_exit
  wait-Over ticks pid =
      ensures-if (eqb pid 0) (pure tt) (await_exit desk pid ticks)
        (λ none. ensures-pure tt (λ s h. no_process s.log (ground arith) h))
        (λ some. await_exit-Over pid ticks)

module _ {W : Type 0} (desk : Desk W) where
  -- A service that is stopped: launchd did not know the job, or the job was loaded, and after it was
  -- booted out launchd reported it missing and its process, if there was one, was found gone.
  pub data Stopped (s t : Session W) : Type 0 where
    absent : (text : String) → (launch_status desk s).0 ≡ ok (text, false) → Stopped s t
    halted :
        (text : String) (pid : ℕ)
        → (launch_status desk s).0 ≡ ok (text, true)
        → launch_pid text ≡ ok pid
        → Halted desk.target s.log pid t.log
        → Stopped s t

  bootout_post :
      (s : Session W) (first r : Ran) (t : Session W)
      → t.log
        ≡ ran ("bootout" ∷ desk.target ∷ []) r ∷ ran ("print" ∷ desk.target ∷ []) first ∷ s.log
      → Post
          (λ (out : String) u. Booted desk s.log u)
          (λ e u. Unit {0})
          (required "bootout LaunchAgent" r)
          t
  bootout_post s first (done out) t h = rw h (booted_out out first)
  bootout_post s first (exited e) t h = tt
  bootout_post s first (broken e) t h = tt

  -- a bootout that succeeds right behind the first status
  bootout-Booted :
      (s : Session W)
      → Ensures
          (λ t. t ≡ (launch_status desk s).1)
          (must_run desk "bootout LaunchAgent" ("bootout" ∷ desk.target ∷ []))
          (λ out u. Booted desk s.log u)
          (λ e u. Unit {0})
  unfolding launch_status
  bootout-Booted s = record {
    at = λ t e.
        bootout_post s (desk.launchctl ("print" ∷ desk.target ∷ []) s.world).0
          (desk.launchctl ("bootout" ∷ desk.target ∷ []) t.world).0 _ (rw e refl);
  }

  module _ (late : Error) (rounds ticks : ℕ) where
    stop_loaded-Stopped :
        (s : Session W) (text : String)
        → (launch_status desk s).0 ≡ ok (text, true)
        → Ensures
            (λ t. t ≡ (launch_status desk s).1)
            (stop_loaded desk late rounds ticks text)
            (λ u t. Stopped s t)
            (λ e t. Unit {0})
    unfolding stop_loaded
    stop_loaded-Stopped s text was =
        ensures-lift (launch_pid text) _
          (λ pid named.
            ensures-bind (must_run desk "bootout LaunchAgent" ("bootout" ∷ desk.target ∷ [])) _
              (bootout-Booted s)
              (λ out.
                ensures-bind (await_unloaded desk late rounds)
                  (λ _. wait_process_exit desk ticks pid)
                  (await_unloaded-Left desk s.log pid late rounds)
                  (λ _.
                    ensures-weaken (wait_process_exit desk ticks pid)
                      (wait-Over desk s.log ticks pid) (λ _ t over. halted text pid was named over)
                      (λ _ _ _. tt))))
          (λ e failed t p. tt)

    known-status :
        (s : Session W)
        → Ensures
            (λ t. t ≡ s)
            (launch_status desk)
            (λ found t. (t ≡ (launch_status desk s).1) × ((launch_status desk s).0 ≡ ok found))
            (λ e t. Unit {0})
    known-status s = record {
      at = λ t e. rw e (known_ok (launch_status desk s).0 (launch_status desk s).1);
    }

    decided :
        (s : Session W) (found : String × Bool)
        → Ensures
            (λ t. (t ≡ (launch_status desk s).1) × ((launch_status desk s).0 ≡ ok found))
            (if found.1 then stop_loaded desk late rounds ticks found.0 else pure tt)
            (λ u t. Stopped s t)
            (λ e t. Unit {0})
    decided s (text, true) = record {
      at = λ t (here, was). (stop_loaded-Stopped s text was).at t here;
    }
    decided s (text, false) = ensures-pure tt (λ t (here, was). absent text was)

    -- Where `stopService` succeeds, launchd did not know the job, or `launchctl bootout` succeeded right
    -- after the first status, launchd reported the job missing afterwards, and the process that the first
    -- status had named, if it had named one, was found gone in the end.
    pub stop_service-Stopped :
        (s : Session W)
        → (stop_service desk late rounds ticks s).0 ≡ ok tt
        → Stopped s (stop_service desk late rounds ticks s).1
    unfolding stop_service
    stop_service-Stopped s h =
        success (λ u t. Stopped s t) (stop_service desk late rounds ticks s).0
          (stop_service desk late rounds ticks s).1
          ((ensures-bind (launch_status desk)
              (λ found. if found.1 then stop_loaded desk late rounds ticks found.0 else pure tt)
              (known-status s) (λ found. decided s found)).at
            s refl)
          h
