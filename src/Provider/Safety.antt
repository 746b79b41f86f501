-- ===== src/Provider/Safety.antt =====
-- What every operation of the provider keeps (internal/provider/provider.go): the registry on disk,
-- and the calls that machines may get.
pub mod Locks
pub mod Owned
pub mod Deletion
pub mod Cloning
pub mod Creation
pub mod Operations
use garm_provider_orbstack.Prelude.{String, Bool, true, false, ◌≡◌, refl, List, [], ◌∷◌, All}
use garm_provider_orbstack.Error.{Error, Result, ok, err}
use garm_provider_orbstack.Exec.{Exec, pure, raise, lift, attempt, ◌>>=◌, refuse_if, raise_if}
use garm_provider_orbstack.Exec.Keeps.{
  Moves, Preorder, Moves-pure, Moves-raise, Moves-lift, Moves-attempt, Moves-bind, Moves-bind_known,
}
use garm_provider_orbstack.Platform.{Platform}
use garm_provider_orbstack.Disk.{Disk}
use garm_provider_orbstack.State.Registry.Health.{Tidy, Tidy-order}
use garm_provider_orbstack.Provider.World.{
  World, Provider, Request, clone_request, wait_request, info_request, list_request,
  settings_request, start_request, stop_request, delete_request, run_request, on_disk, on_machines,
}
use garm_provider_orbstack.Provider.Owned.{registered}

-- The calls that the provider may make: a registered template may be cloned and looked at; what
-- starts, stops, deletes or enters a machine is never aimed at one, and a runner is isolated from
-- the host and gets no SSH agent.
abbrev pub Safe : Provider → Request → Type 0
Safe p (clone_request source name) = registered source p.host.images ≡ true
Safe p wait_request = Unit
Safe p (info_request id) = Unit
Safe p list_request = Unit
Safe p (settings_request name settings) =
    (settings.isolated ≡ true) × (settings.forward_ssh_agent ≡ false)
Safe p (start_request id) = registered id p.host.images ≡ false
Safe p (stop_request id) = registered id p.host.images ≡ false
Safe p (delete_request id) = registered id p.host.images ≡ false
Safe p (run_request options) =
    (registered options.machine p.host.images ≡ false) × (options.user ≡ "root")

module _ {O : Type 0} ⦃platform : Platform⦄ (p : Provider) where
  -- The registry stays readable, the locks held are the ones held before, and where every call so
  -- far is one that the provider may make, so is every call after.
  pub record Proper (s t : World O) : Type 0 where
    pub tidy : Tidy s.disk t.disk
    pub calls : All (λ q. Safe p q) s.requests → All (λ q. Safe p q) t.requests

  pub Proper-order : Preorder Proper
  Proper-order = record {
    same = λ s. record { tidy = Tidy-order.same s.disk; calls = λ h. h };
    chain =
        λ a b. record { tidy = Tidy-order.chain a.tidy b.tidy; calls = λ h. b.calls (a.calls h) };
  }

  pub on_disk-Proper : {A : Type 0} (m : Exec Disk A) → Moves Tidy m → Moves Proper (on_disk m)
  unfolding on_disk
  on_disk-Proper m h = record { at = λ s. record { tidy = h.at s.disk; calls = λ k. k } }

  pub on_machines-Proper :
      {A : Type 0} (q : Request) (m : Exec O A) → Safe p q → Moves Proper (on_machines q m)
  unfolding on_machines
  on_machines-Proper q m safe = record {
    at = λ s. record { tidy = Tidy-order.same s.disk; calls = λ k. (safe, k) };
  }

  pub then_do :
      {A B : Type 0} (m : Exec (World O) A) (f : A → Exec (World O) B)
      → Moves Proper m
      → ((a : A) → Moves Proper (f a))
      → Moves Proper (m >>= f)
  then_do m f = Moves-bind Proper-order m f

  pub then_knowing :
      {A B : Type 0} (m : Exec (World O) A) (f : A → Exec (World O) B)
      → Moves Proper m
      → ((a : A) (s : World O) → (m s).0 ≡ ok a → Moves Proper (f a))
      → Moves Proper (m >>= f)
  then_knowing m f = Moves-bind_known Proper-order m f

  pub pure-Proper : {A : Type 0} (a : A) → Moves Proper (pure a)
  pure-Proper = Moves-pure Proper-order

  pub raise-Proper : {A : Type 0} (e : Error) → Moves Proper (raise {A = A} e)
  raise-Proper = Moves-raise Proper-order

  pub lift-Proper : {A : Type 0} (r : Result A) → Moves Proper (lift r)
  lift-Proper = Moves-lift Proper-order

  pub attempt-Proper :
      {A : Type 0} (m : Exec (World O) A) → Moves Proper m → Moves Proper (attempt m)
  attempt-Proper = Moves-attempt Proper-order

  pub refuse_if-Proper : (b : Bool) (m : String) → Moves Proper (refuse_if b m)
  refuse_if-Proper true m = raise-Proper _
  refuse_if-Proper false m = pure-Proper tt

  pub raise_if-Proper : (b : Bool) (e : Error) → Moves Proper (raise_if b e)
  raise_if-Proper true e = raise-Proper e
  raise_if-Proper false e = pure-Proper tt
