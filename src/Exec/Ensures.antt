-- ===== src/Exec/Ensures.antt =====
-- Postconditions of effectful methods, one for each way to return.
use garm_provider_orbstack.Prelude.{arith, Bool, true, false, ◌≡◌, refl, if◌then◌else◌}
use garm_provider_orbstack.Error.{Error, Result, ok, err}
use garm_provider_orbstack.Exec.{attempt, lift, Exec, pure, raise, continue, ◌>>=◌}

-- `Q` holds of the value and the state after success, `E` of the error and the state after failure.
abbrev pub Post {ℓ κ μ} :
    {S : Type ℓ} {A : Type κ} → (A → S → Type μ) → (Error → S → Type μ) → Result A → S → Type μ
Post Q E (ok a) s = Q a s
Post Q E (err e) s = E e s

pub record Ensures {ℓ κ μ} {S : Type ℓ} {A : Type κ} (P : S → Type μ) (m : Exec S A)
    (Q : A → S → Type μ) (E : Error → S → Type μ) : Type (ℓ ⊔ μ) where
  pub at : (s : S) → P s → Post Q E (m s).0 (m s).1

module _ {ℓ κ μ} {S : Type ℓ} {A : Type κ} {Q : A → S → Type μ} {E : Error → S → Type μ} where
  weaken-Post :
      {Q' : A → S → Type μ} {E' : Error → S → Type μ} (r : Result A) (s : S)
      → ((a : A) (t : S) → Q a t → Q' a t)
      → ((e : Error) (t : S) → E e t → E' e t)
      → Post Q E r s
      → Post Q' E' r s
  weaken-Post (ok a) s q e h = q a s h
  weaken-Post (err x) s q e h = e x s h

module _ {ℓ κ μ} {S : Type ℓ} {A : Type κ} {P : S → Type μ} {Q : A → S → Type μ}
    {E : Error → S → Type μ} where
  pub ensures-pure : (a : A) → ((s : S) → P s → Q a s) → Ensures P (pure a) Q E
  ensures-pure a h = record { at = h }

  pub ensures-raise : (e : Error) → ((s : S) → P s → E e s) → Ensures P (raise e) Q E
  ensures-raise e h = record { at = h }

  pub ensures-weaken :
      {Q' : A → S → Type μ} {E' : Error → S → Type μ} (m : Exec S A)
      → Ensures P m Q E
      → ((a : A) (t : S) → Q a t → Q' a t)
      → ((e : Error) (t : S) → E e t → E' e t)
      → Ensures P m Q' E'
  ensures-weaken m h q e = record { at = λ s p. weaken-Post (m s).0 (m s).1 q e (h.at s p) }

  pub ensures-if :
      (b : Bool) (m n : Exec S A)
      → (b ≡ true → Ensures P m Q E)
      → (b ≡ false → Ensures P n Q E)
      → Ensures P (if b then m else n) Q E
  ensures-if true m n km kn = km refl
  ensures-if false m n km kn = kn refl

module _ {ℓ κ μ ν} {S : Type ℓ} {A : Type κ} {B : Type ν} {M : A → S → Type μ} {Q : B → S → Type μ}
    {E : Error → S → Type μ} where
  Post-continue :
      (r : Result A) (f : A → Exec S B) (s : S)
      → Post M E r s
      → ((a : A) → r ≡ ok a → Ensures (M a) (f a) Q E)
      → Post Q E (continue r f s).0 (continue r f s).1
  Post-continue (ok a) f s h k = (k a refl).at s h
  Post-continue (err e) f s h k = h

module _ {ℓ κ μ ν} {S : Type ℓ} {A : Type κ} {B : Type ν} {P : S → Type μ} {M : A → S → Type μ}
    {Q : B → S → Type μ} {E : Error → S → Type μ} where
  pub ensures-bind :
      (m : Exec S A) (f : A → Exec S B)
      → Ensures P m M E
      → ((a : A) → Ensures (M a) (f a) Q E)
      → Ensures P (m >>= f) Q E
  ensures-bind m f h k = record {
    at = λ s p. Post-continue (m s).0 f (m s).1 (h.at s p) (λ a _. k a);
  }

module _ {ℓ κ μ ν} {S : Type ℓ} {A : Type κ} {B : Type ν} {P : S → Type μ} {Q : B → S → Type μ}
    {E : Error → S → Type μ} where
  -- a pure step: the rest may use that it succeeded
  pub ensures-lift :
      (r : Result A) (f : A → Exec S B)
      → ((a : A) → r ≡ ok a → Ensures P (f a) Q E)
      → ((e : Error) → r ≡ err e → (s : S) → P s → E e s)
      → Ensures P (lift r >>= f) Q E
  ensures-lift (ok a) f k h = k a refl
  ensures-lift (err e) f k h = record { at = h e refl }

module _ {ℓ κ μ} {S : Type ℓ} {A : Type κ} where
  -- what holds of the state whatever the result
  pub Post-always : (P : S → Type μ) (r : Result A) (s : S) → P s → Post (λ _. P) (λ _. P) r s
  Post-always P (ok a) s h = h
  Post-always P (err e) s h = h

  -- what holds in either case, of the result as a value
  pub ensures-attempt :
      {P : S → Type μ} {Q : A → S → Type μ} {E : Error → S → Type μ} {E' : Error → S → Type μ}
      (m : Exec S A)
      → Ensures P m Q E
      → Ensures P (attempt m) (λ r s. Post Q E r s) E'
  ensures-attempt m h = record { at = h.at }

module _ {ℓ μ} {S : Type ℓ} {A : Type μ} (P : S → Type μ) where
  Post-known :
      (r : Result A) (s : S) → P s → Post (λ a s. P s × (r ≡ ok a)) (λ e s. P s × (r ≡ err e)) r s
  Post-known (ok a) s h = (h, refl)
  Post-known (err e) s h = (h, refl)

  -- a step that reads from the state what the precondition determines
  pub ensures-known :
      (f : S → Result A) (r : Result A)
      → ((s : S) → P s → f s ≡ r)
      → Ensures P (λ s. (f s, s)) (λ a s. P s × (r ≡ ok a)) (λ e s. P s × (r ≡ err e))
  ensures-known f r known = record { at = λ s h. rw (known s h) (Post-known r s h) }

module _ {ℓ κ} {S : Type ℓ} {A : Type κ} where
  -- nothing is asked and nothing promised
  pub ensures-nothing :
      (m : Exec S A) → Ensures (λ _. Unit {0}) m (λ _ _. Unit {0}) (λ _ _. Unit {0})
  ensures-nothing m = record { at = λ s _. Post-always (λ _. Unit {0}) (m s).0 (m s).1 tt }

-- what holds after a success
pub success :
    {A S : Type 0} (Q : A → S → Type 0) (r : Result A) (t : S) {a : A}
    → Post Q (λ e s. Unit {0}) r t
    → r ≡ ok a
    → Q a t
success Q (ok b) t {a} h e = let i : b ≡ a = ground arith in rw (← i) h
success Q (err x) t h e = cc
