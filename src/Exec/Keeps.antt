-- ===== src/Exec/Keeps.antt =====
-- Rules for how the states before and after an effectful method are related.
use garm_provider_orbstack.Prelude.{Bool, true, false, ◌≡◌, refl, if◌then◌else◌}
use garm_provider_orbstack.Error.{Error, Result, ok, err}
use garm_provider_orbstack.Exec.{Exec, pure, raise, lift, gets, attempt, continue, ◌>>=◌}

-- Whatever the result, the state after `m` is related to the state before it.
pub record Moves {ℓ κ μ} {S : Type ℓ} {A : Type κ} (R : S → S → Type μ) (m : Exec S A)
    : Type (ℓ ⊔ μ) where
  pub at : (s : S) → R s (m s).1

-- What the rules need of the relation.
pub record Preorder {ℓ μ} {S : Type ℓ} (R : S → S → Type μ) : Type (ℓ ⊔ μ) where
  pub same : (s : S) → R s s
  pub chain : {s t u : S} → R s t → R t u → R s u

module _ {ℓ κ μ} {S : Type ℓ} {A : Type κ} {R : S → S → Type μ} (o : Preorder R) where
  pub Moves-pure : (a : A) → Moves R (pure {S = S} a)
  Moves-pure a = record { at = o.same }

  pub Moves-raise : (e : Error) → Moves R (raise {S = S} {A = A} e)
  Moves-raise e = record { at = o.same }

  pub Moves-lift : (r : Result A) → Moves R (lift {S = S} r)
  Moves-lift r = record { at = o.same }

  pub Moves-gets : (f : S → A) → Moves R (gets f)
  Moves-gets f = record { at = o.same }

  pub Moves-if :
      (b : Bool) (m n : Exec S A)
      → (b ≡ true → Moves R m)
      → (b ≡ false → Moves R n)
      → Moves R (if b then m else n)
  Moves-if true m n km kn = km refl
  Moves-if false m n km kn = kn refl

  pub Moves-attempt : (m : Exec S A) → Moves R m → Moves R (attempt m)
  Moves-attempt m km = record { at = km.at }

module _ {ℓ κ μ ν} {S : Type ℓ} {A : Type κ} {B : Type μ} {R : S → S → Type ν}
    (o : Preorder R) where
  Moves-continue :
      (r : Result A) (f : A → Exec S B) (s t : S)
      → R s t
      → ((a : A) → r ≡ ok a → Moves R (f a))
      → R s (continue r f t).1
  Moves-continue (ok a) f s t h kf = o.chain h ((kf a refl).at t)
  Moves-continue (err e) f s t h kf = h

  pub Moves-bind :
      (m : Exec S A) (f : A → Exec S B) → Moves R m → ((a : A) → Moves R (f a)) → Moves R (m >>= f)
  Moves-bind m f km kf = record {
    at = λ s. Moves-continue (m s).0 f s (m s).1 (km.at s) (λ a _. kf a);
  }

  -- the same, where the second step may use that the first has succeeded with its argument
  pub Moves-bind_known :
      (m : Exec S A) (f : A → Exec S B)
      → Moves R m
      → ((a : A) (s : S) → (m s).0 ≡ ok a → Moves R (f a))
      → Moves R (m >>= f)
  Moves-bind_known m f km kf = record {
    at = λ s. Moves-continue (m s).0 f s (m s).1 (km.at s) (λ a. kf a s);
  }

module _ {ℓ κ μ} {S : Type ℓ} {A : Type κ} {B : Type μ} where
  -- Where a chain succeeds, its first step has succeeded, and so has the rest on its value.
  pub bind-eq-ok :
      (m : Exec S A) (f : A → Exec S B) (s : S) {b : B}
      → ((m >>= f) s).0 ≡ ok b
      → (a : A) × ((m s).0 ≡ ok a) × ((f a (m s).1).0 ≡ ok b)
  bind-eq-ok m f s {b} h = go (m s).0 refl h
    where
      go :
          (r : Result A)
          → (m s).0 ≡ r
          → (continue r f (m s).1).0 ≡ ok b
          → (a : A) × ((m s).0 ≡ ok a) × ((f a (m s).1).0 ≡ ok b)
      go (ok a) e k = (a, e, k)
      go (err x) e k = cc

module _ {ℓ κ μ} {S : Type ℓ} {A : Type κ} {B : Type μ} where
  -- a pure end of a chain leaves the state
  pub state-pure : (m : Exec S A) (f : A → B) (s : S) → ((m >>= λ a. pure (f a)) s).1 ≡ (m s).1
  state-pure m f s = go (m s).0
    where
      go : (r : Result A) → (continue r (λ a. pure (f a)) (m s).1).1 ≡ (m s).1
      go (ok a) = refl
      go (err e) = refl

  pub state-lift :
      (m : Exec S A) (f : A → Result B) (s : S) → ((m >>= λ a. lift (f a)) s).1 ≡ (m s).1
  state-lift m f s = go (m s).0
    where
      go : (r : Result A) → (continue r (λ a. lift (f a)) (m s).1).1 ≡ (m s).1
      go (ok a) = refl
      go (err e) = refl

-- A chain of steps whose states are related in different ways.
module _ {ℓ κ μ ν} {S : Type ℓ} {A : Type κ} {B : Type μ} {R T U : S → S → Type ν} where
  mixed_continue :
      (stopped : (s t : S) → R s t → U s t) (chain : (s t u : S) → R s t → T t u → U s u)
      (r : Result A) (f : A → Exec S B) (s t : S)
      → R s t
      → ((a : A) → Moves T (f a))
      → U s (continue r f t).1
  mixed_continue stopped chain (ok a) f s t h kf = chain s t (f a t).1 h ((kf a).at t)
  mixed_continue stopped chain (err e) f s t h kf = stopped s t h

  pub Moves-mixed :
      (stopped : (s t : S) → R s t → U s t) (chain : (s t u : S) → R s t → T t u → U s u)
      (m : Exec S A) (f : A → Exec S B)
      → Moves R m
      → ((a : A) → Moves T (f a))
      → Moves U (m >>= f)
  Moves-mixed stopped chain m f km kf = record {
    at = λ s. mixed_continue stopped chain (m s).0 f s (m s).1 (km.at s) kf;
  }
