-- ===== src/Outcome.antt =====
-- Pure functions that return `(value, error)`: the monad of results.
use garm_provider_orbstack.Prelude.{Bool, true, false, ◌≡◌, refl, String}
use garm_provider_orbstack.Error.{message, Result, ok, err}

module _ {ℓ κ} {A : Type ℓ} {B : Type κ} where
  infixl 10 ◌>>=◌
  abbrev pub ◌>>=◌ : Result A → (A → Result B) → Result B
  err e >>= f = err e
  ok a >>= f = f a

infixl 10 ◌>>◌
abbrev pub ◌>>◌ {ℓ} : {B : Type ℓ} → Result (Unit {0}) → Result B → Result B
checked >> next = checked >>= λ _. next

-- `if b { return errors.New(m) }`
abbrev pub refuse_if : Bool → String → Result (Unit {0})
refuse_if true m = err (message m)
refuse_if false m = ok tt

-- Where a chain succeeds, its first step has succeeded, and so has the rest on its value.
module _ {ℓ κ} {A : Type ℓ} {B : Type κ} (rest : A → Result B) {b : B} where
  pub chain-eq-ok :
      (first : Result A) → (first >>= rest) ≡ ok b → (a : A) × (first ≡ ok a) × (rest a ≡ ok b)
  chain-eq-ok (err e) failed = cc
  chain-eq-ok (ok a) done = (a, refl, done)

pub not_refused : (b : Bool) (m : String) {a : Unit {0}} → refuse_if b m ≡ ok a → b ≡ false
not_refused true m h = cc
not_refused false m h = refl
