-- ===== src/Exec.antt =====
-- Effectful methods: a state goes in, and comes back with the result also when an error is
-- returned, since what was done before a failure stays done.
pub mod Keeps
pub mod Ensures
use garm_provider_orbstack.Prelude.{Bool, true, false, String, if◌then◌else◌}
use garm_provider_orbstack.Error.{Error, Result, ok, err, message, wrapped}

abbrev pub Exec {ℓ κ} : Type ℓ → Type κ → Type (ℓ ⊔ κ)
Exec S A = S → Result A × S

module _ {ℓ κ} {S : Type ℓ} {A : Type κ} where
  abbrev pub pure : A → Exec S A
  pure a s = (ok a, s)

  abbrev pub raise : Error → Exec S A
  raise e s = (err e, s)

  abbrev pub lift : Result A → Exec S A
  lift r s = (r, s)

  abbrev pub gets : (S → A) → Exec S A
  gets f s = (ok (f s), s)

  -- the error comes back as a value, as every Go call hands it
  abbrev pub attempt : Exec S A → Exec S (Result A)
  attempt m s = let (r, s') = m s in (ok r, s')

module _ {ℓ κ μ} {S : Type ℓ} {A : Type κ} {B : Type μ} where
  abbrev pub continue : Result A → (A → Exec S B) → Exec S B
  continue (ok a) f s = f a s
  continue (err e) f s = (err e, s)

  infixl 10 ◌>>=◌
  abbrev pub ◌>>=◌ : Exec S A → (A → Exec S B) → Exec S B
  ◌>>=◌ m f s = let (r, s') = m s in continue r f s'

infixl 10 ◌>>◌
abbrev pub ◌>>◌ {ℓ κ} : {S : Type ℓ} {B : Type κ} → Exec S (Unit {0}) → Exec S B → Exec S B
m >> k = m >>= λ _. k

-- `if b { return errors.New(m) }`
abbrev pub refuse_if {ℓ} : {S : Type ℓ} → Bool → String → Exec S (Unit {0})
refuse_if true m = raise (message m)
refuse_if false m = pure tt

-- `if b { return e }`
abbrev pub raise_if {ℓ} : {S : Type ℓ} → Bool → Error → Exec S (Unit {0})
raise_if true e = raise e
raise_if false e = pure tt

abbrev pub wrap {ℓ} : {A : Type ℓ} → String → Result A → Result A
wrap m (ok a) = ok a
wrap m (err e) = err (wrapped m e)

-- `return fmt.Errorf("...: %w", err)`
abbrev pub wrapping {ℓ κ} : {S : Type ℓ} {A : Type κ} → String → Exec S A → Exec S A
wrapping m body s = let (r, s') = body s in (wrap m r, s')
