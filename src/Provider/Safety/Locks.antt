-- ===== src/Provider/Safety/Locks.antt =====
-- Instance and template locks around an operation of the provider.
use garm_provider_orbstack.Prelude.{String, ◌≡◌, refl, ◌∷◌, All, ap, ◌∙◌}
use garm_provider_orbstack.Error.{Error, Result, ok, err}
use garm_provider_orbstack.Exec.{Exec, attempt, continue, ◌>>=◌}
use garm_provider_orbstack.Exec.Keeps.{Moves}
use garm_provider_orbstack.Platform.{Platform}
use garm_provider_orbstack.Disk.{Disk}
use garm_provider_orbstack.State.Registry.Health.{IsSound, Asked}
use garm_provider_orbstack.State.Registry.Health.Locks.{close_lock-head, close_lock-IsSound}
use garm_provider_orbstack.Provider.World.{
  World, Provider, on_disk, closing, closing_on_error, closed_unless_ok,
}
use garm_provider_orbstack.Provider.Safety.{Safe, Proper, Proper-order}

module _ {O : Type 0} ⦃platform : Platform⦄ (p : Provider) where
  -- what a step does that ends with one more lock on success, and with none more on failure
  pub record Took {A : Type 0} (path_of : A → String) (r : Result A) (s t : World O) : Type 0 where
    pub sound : IsSound s.disk → IsSound t.disk
    pub calls : All (λ q. Safe p q) s.requests → All (λ q. Safe p q) t.requests
    pub taken : (a : A) → r ≡ ok a → t.disk.held ≡ path_of a ∷ s.disk.held
    pub refused : (e : Error) → r ≡ err e → t.disk.held ≡ s.disk.held

  pub record Takes {A : Type 0} (path_of : A → String) (m : Exec (World O) A) : Type 0 where
    pub at : (s : World O) → Took path_of (m s).0 s (m s).1

  -- asking the registry for a lock
  pub lock-Takes :
      (path : String) (m : Exec Disk (Unit {0}))
      → ((d : Disk) → Asked path (m d).0 d (m d).1)
      → Takes (λ _. path) (on_disk m)
  unfolding on_disk
  lock-Takes path m asked = record {
    at = λ s. record {
      sound = (asked s.disk).sound;
      calls = λ h. h;
      taken = λ a q. (asked s.disk).taken q;
      refused = (asked s.disk).refused;
    };
  }

  pub then_take :
      {A B : Type 0} (path_of : B → String) (m : Exec (World O) A) (f : A → Exec (World O) B)
      → Moves (Proper p) m
      → ((a : A) → Takes path_of (f a))
      → Takes path_of (m >>= f)
  then_take {A} path_of m f moves takes = record { at = λ s. go s (m s).0 (m s).1 (moves.at s) }
    where
      go :
          (s : World O) (r : Result A) (t : World O)
          → Proper p s t
          → Took path_of (continue r f t).0 s (continue r f t).1
      go s (ok a) t k = record {
        sound = λ h. ((takes a).at t).sound (k.tidy.sound h);
        calls = λ h. ((takes a).at t).calls (k.calls h);
        taken = λ b q. ((takes a).at t).taken b q ∙ ap (◌∷◌ (path_of b)) k.tidy.held;
        refused = λ e q. ((takes a).at t).refused e q ∙ k.tidy.held;
      }
      go s (err x) t k = record {
        sound = k.tidy.sound;
        calls = k.calls;
        taken = λ b q. cc;
        refused = λ e q. k.tidy.held;
      }

  -- a deferred `Close` releases the lock whatever happens in between
  closed-Proper :
      {A : Type 0} (path : String) (s t : World O) (body : Exec (World O) A)
      → (IsSound s.disk → IsSound t.disk)
      → (All (λ q. Safe p q) s.requests → All (λ q. Safe p q) t.requests)
      → t.disk.held ≡ path ∷ s.disk.held
      → Moves (Proper p) body
      → Proper p s (closing path body t).1
  unfolding closing
  closed-Proper path s t body sound calls taken moves =
      let after = moves.at t in
      record {
        tidy = record {
          sound = λ h. close_lock-IsSound path (body t).1.disk (after.tidy.sound (sound h));
          held = close_lock-head path s.disk.held (body t).1.disk (after.tidy.held ∙ taken);
        };
        calls = λ h. after.calls (calls h);
      }

  pub holding :
      {A B : Type 0} (path_of : A → String) (m : Exec (World O) A) (body : A → Exec (World O) B)
      → Takes path_of m
      → ((a : A) → Moves (Proper p) (body a))
      → Moves (Proper p) (m >>= λ a. closing (path_of a) (body a))
  holding {A} path_of m body takes moves = record { at = λ s. go s (m s).0 (m s).1 (takes.at s) }
    where
      go :
          (s : World O) (r : Result A) (t : World O)
          → Took path_of r s t
          → Proper p s (continue r (λ a. closing (path_of a) (body a)) t).1
      go s (ok a) t k =
          closed-Proper (path_of a) s t (body a) k.sound k.calls (k.taken a refl) (moves a)
      go s (err e) t k = record {
        tidy = record { sound = k.sound; held = k.refused e refl };
        calls = k.calls;
      }

  -- the same where the error of taking the lock is looked at
  pub holding_or :
      {A B : Type 0} (path_of : A → String) (m : Exec (World O) A) (k : Result A → Exec (World O) B)
      (body : A → Exec (World O) B)
      → Takes path_of m
      → ((a : A) → k (ok a) ≡ closing (path_of a) (body a))
      → ((a : A) → Moves (Proper p) (body a))
      → ((e : Error) → Moves (Proper p) (k (err e)))
      → Moves (Proper p) (attempt m >>= k)
  holding_or {A} path_of m k body takes same moves other = record {
    at = λ s. go s (m s).0 (m s).1 (takes.at s);
  }
    where
      go : (s : World O) (r : Result A) (t : World O) → Took path_of r s t → Proper p s (k r t).1
      go s (ok a) t u =
          rw (same a)
            (closed-Proper (path_of a) s t (body a) u.sound u.calls (u.taken a refl) (moves a))
      go s (err e) t u =
          (Proper-order p).chain
            (record { tidy = record { sound = u.sound; held = u.refused e refl }; calls = u.calls })
            ((other e).at t)

  -- a lock that is taken and closed before each return of an error
  pub take_then :
      {A : Type 0} (path_of : A → String) (path : String) (m : Exec Disk (Unit {0}))
      (body : Exec (World O) A)
      → ((d : Disk) → Asked path (m d).0 d (m d).1)
      → Moves (Proper p) body
      → ((s : World O) (a : A) → (body s).0 ≡ ok a → path_of a ≡ path)
      → Takes path_of (on_disk m >>= λ _. closing_on_error path body)
  unfolding on_disk closing_on_error
  take_then {A} path_of path m body asked moves ends = record {
    at = λ s. first s (m s.disk).0 (m s.disk).1 (asked s.disk);
  }
    where
      ended :
          (s t : World O) (r : Result A) (u : World O)
          → Proper p t u
          → (IsSound s.disk → IsSound t.disk)
          → (All (λ q. Safe p q) s.requests → All (λ q. Safe p q) t.requests)
          → t.disk.held ≡ path ∷ s.disk.held
          → ((a : A) → r ≡ ok a → path_of a ≡ path)
          → Took path_of r s (closed_unless_ok path r u)
      ended s t (ok a) u k sound calls taken e = record {
        sound = λ h. k.tidy.sound (sound h);
        calls = λ h. k.calls (calls h);
        taken = λ b q. k.tidy.held ∙ taken ∙ cc (e b q);
        refused = λ x q. cc;
      }
      ended s t (err x) u k sound calls taken e = record {
        sound = λ h. close_lock-IsSound path u.disk (k.tidy.sound (sound h));
        calls = λ h. k.calls (calls h);
        taken = λ b q. cc;
        refused = λ y q. close_lock-head path s.disk.held u.disk (k.tidy.held ∙ taken);
      }

      first :
          (s : World O) (r : Result (Unit {0})) (d : Disk)
          → Asked path r s.disk d
          → Took path_of
              (continue r (λ _. closing_on_error path body) (record s { disk = d })).0
              s
              (continue r (λ _. closing_on_error path body) (record s { disk = d })).1
      first s (ok _) d k =
          let t : World O = record s { disk = d } in
          ended s t (body t).0 (body t).1 (moves.at t) k.sound (λ h. h) (k.taken refl) (ends t)
      first s (err e) d k = record {
        sound = k.sound;
        calls = λ h. h;
        taken = λ b q. cc;
        refused = λ x q. k.refused e refl;
      }
