-- ===== src/Install/Service/Examples.antt =====
-- A launchd for tests of internal/install/service.go and of `ensureProvider`.
use garm_provider_orbstack.Prelude.{ℕ, zero, suc, String, ◌≡◌, refl, List, [], ◌∷◌}
use garm_provider_orbstack.Error.{ok, sentinel, context_done}
use garm_provider_orbstack.Install.Service.{
  Ran, done, exited, Signal, alive, gone, status, Answer, listed, Desk, Session, stop_service,
  ensure_provider,
}
use garm_provider_orbstack.Install.Service.Restarts.{Proven, restarts, ensure_provider-Proven}
use garm_provider_orbstack.Install.Service.Stopped.{Stopped, stop_service-Stopped}

abbrev running : String
running = "\tstate = running\n\tpid = 42\n"

-- the world is the number of what was asked before
abbrev launchd : ℕ → Ran
launchd zero = done running
launchd (suc zero) = done ""
launchd (suc (suc zero)) = done running
launchd (suc (suc (suc n))) = exited "Could not find service"

abbrev process : ℕ → Signal
process (suc (suc (suc (suc (suc n))))) = gone
process n = alive

abbrev answer : ℕ → Answer
answer zero = listed ("lxd_local" ∷ [])
answer (suc n) = listed ("lxd_local" ∷ "orbstack" ∷ [])

abbrev leaving : Desk ℕ
leaving = record {
  launchctl = λ args n. (launchd n, suc n);
  kill = λ pid n. (process n, suc n);
  probe = λ n. (status 401, n);
  providers = λ n. (answer n, n);
  domain = "gui/501";
  target = "gui/501/dev.orbstack.garm";
  plist = "/Users/u/Library/LaunchAgents/dev.orbstack.garm.plist";
}

abbrev staying : Desk ℕ
staying = record {
  launchctl = λ args n. (done running, suc n);
  kill = λ pid n. (gone, suc n);
  probe = λ n. (status 401, n);
  providers = λ n. (answer n, n);
  domain = "gui/501";
  target = "gui/501/dev.orbstack.garm";
  plist = "/Users/u/Library/LaunchAgents/dev.orbstack.garm.plist";
}

abbrev start : Session ℕ
start = record { world = 0; log = [] }

-- the second status still has the job, and the first signal finds the process
stopped : (stop_service leaving (sentinel context_done) 3 3 start).0 ≡ ok tt
unfolding stop_service
stopped = refl

-- the controller that does not know the provider yet
restarted : (ensure_provider staying 3 3 start).0 ≡ ok tt
unfolding ensure_provider garm_provider_orbstack.Prelude.contains
restarted = refl

once : restarts (ensure_provider staying 3 3 start).1.log ≡ 1
unfolding ensure_provider garm_provider_orbstack.Prelude.contains
once = refl

stop_service-Stopped_example :
    Stopped leaving start (stop_service leaving (sentinel context_done) 3 3 start).1
stop_service-Stopped_example =
    stop_service-Stopped leaving (sentinel context_done) 3 3 start stopped

ensure_provider-Proven_example : Proven staying start (ensure_provider staying 3 3 start).1
ensure_provider-Proven_example = ensure_provider-Proven staying 3 3 start
