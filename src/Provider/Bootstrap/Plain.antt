-- ===== src/Provider/Bootstrap/Plain.antt =====
-- What the patterns of internal/provider/bootstrap.go let into a root shell.
use Prim.Native.Char.{code}
use garm_provider_orbstack.Prelude.{
  ℕ, String, Bool, true, false, not, ◌≡◌, refl, arith, ◌||◌, List, [], ◌∷◌, All, some, none,
  all_chars, eqb, is_upper, is_lower, is_digit, inl, inr, Option-cases,
}
use garm_provider_orbstack.Error.{ok}
use garm_provider_orbstack.Outcome.{refuse_if, chain-eq-ok, not_refused}
use garm_provider_orbstack.Templates.Manifest.{Manifest}
use garm_provider_orbstack.Provider.Plan.{prepare_bootstrap}
use garm_provider_orbstack.Provider.Patterns.{
  is_alnum, script_char, PackagePart, name_start, name_rest, arch_start, arch_rest, version_start,
  version_rest, package_step, package_from, package_matches, script_name_matches,
}
use garm_provider_orbstack.Provider.Bootstrap.{
  Tooling, BootstrapInstance, BootstrapPlan, scripts_of, script_names_ok, is_empty, every,
}

-- letters, digits and the marks + . : ~ _ = - , none of which means anything to a shell in a word
-- that does not begin with ~ or =
abbrev pub is_plain : ℕ → Bool
is_plain c =
    is_upper c
    || is_lower c
    || is_digit c
    || eqb c b'+'
    || eqb c b'.'
    || eqb c b':'
    || eqb c b'~'
    || eqb c b'_'
    || eqb c b'='
    || eqb c b'-'

package_step-is_plain :
    (q q' : PackagePart) (c : ℕ) → package_step q c ≡ some q' → is_plain c ≡ true
unfolding package_step
package_step-is_plain name_start q' c h = ground arith
package_step-is_plain name_rest q' c h = ground arith
package_step-is_plain arch_start q' c h = ground arith
package_step-is_plain arch_rest q' c h = ground arith
package_step-is_plain version_start q' c h = ground arith
package_step-is_plain version_rest q' c h = ground arith

package_from-none : (s : String) → package_from none s ≡ false
unfolding package_from
package_from-none String.[] = refl
package_from-none (String.◌∷◌ c s) = refl

package_from-is_plain :
    (q : PackagePart) (s : String) → package_from (some q) s ≡ true → all_chars is_plain s ≡ true
unfolding package_from all_chars
package_from-is_plain q String.[] h = refl
package_from-is_plain q (String.◌∷◌ c s) h = elim (Option-cases (package_step q (code c))) [
  | inl stuck ↦
      let e : package_from none s ≡ true = rw (stuck, package_from) at h in
      cc (e, package_from-none s)
  | inr (q', step) ↦
      let e : package_from (some q') s ≡ true = rw (step, package_from) at h in
      rw (package_step-is_plain q q' (code c) step, package_from-is_plain q' s e) refl
]

package_matches-is_plain : (s : String) → package_matches s ≡ true → all_chars is_plain s ≡ true
unfolding package_matches
package_matches-is_plain s h = package_from-is_plain name_start s h

all_chars-weaken :
    (f g : ℕ → Bool) (s : String)
    → ((c : ℕ) → f c ≡ true → g c ≡ true)
    → all_chars f s ≡ true
    → all_chars g s ≡ true
unfolding all_chars
all_chars-weaken f g String.[] k h = refl
all_chars-weaken f g (String.◌∷◌ c s) k h =
    let first : f (code c) ≡ true = ground arith in
    let rest : all_chars f s ≡ true = ground arith in
    rw (k (code c) first, all_chars-weaken f g s k rest) refl

script_name-is_plain : (s : String) → script_name_matches s ≡ true → all_chars is_plain s ≡ true
unfolding script_name_matches
script_name-is_plain String.[] h = cc
script_name-is_plain (String.◌∷◌ c s) h =
    let first : is_alnum (code c) ≡ true = ground arith in
    let rest : all_chars script_char s ≡ true = ground arith in
    rw
      (
        plain_alnum (code c) first,
        all_chars-weaken script_char is_plain s plain_script rest,
        all_chars,
      )
      refl
  where
    plain_alnum : (n : ℕ) → is_alnum n ≡ true → is_plain n ≡ true
    plain_alnum n k = ground arith

    plain_script : (n : ℕ) → script_char n ≡ true → is_plain n ≡ true
    plain_script n k = ground arith

every-All :
    {A : Type 0} (f g : A → Bool) (xs : List A)
    → ((x : A) → f x ≡ true → g x ≡ true)
    → every f xs ≡ true
    → All (λ x. g x ≡ true) xs
unfolding every
every-All f g [] k h = tt
every-All f g (x ∷ xs) k h =
    let first : f x ≡ true = ground arith in
    let rest : every f xs ≡ true = ground arith in (k x first, every-All f g xs k rest)

-- What a plan lets into the guest's root shell: every package and the name of every pre-install
-- script is made of letters, digits and the marks + . : ~ _ = - only, and there are no SSH keys.
pub record IsPlain (tooling : Tooling) (b : BootstrapInstance) : Type 0 where
  pub scripts : List (String × String)
  pub decoded : scripts_of tooling b.extra_specs ≡ ok scripts
  pub names : All (λ (s : String × String). all_chars is_plain s.0 ≡ true) scripts
  pub packages : All (λ k. all_chars is_plain k ≡ true) b.extra_packages
  pub keyless : is_empty b.ssh_keys ≡ true

-- A request whose plan is accepted has pre-install scripts whose names, and extra packages whose texts, are
-- made of letters, digits and + . : ~ _ = - only; it has no SSH keys. The bodies of the scripts may be any.
pub prepare_bootstrap-IsPlain :
    (tooling : Tooling) (b : BootstrapInstance) (manifest : Manifest) {plan : BootstrapPlan}
    → prepare_bootstrap tooling b manifest ≡ ok plan
    → IsPlain tooling b
unfolding prepare_bootstrap
prepare_bootstrap-IsPlain tooling b manifest h =
    let (_, no_keys, h1) = chain-eq-ok _ (refuse_if (not (is_empty b.ssh_keys)) _) h in
    let (scripts, decoded, h2) = chain-eq-ok _ (scripts_of tooling b.extra_specs) h1 in
    let (_, names, h3) = chain-eq-ok _ (refuse_if (not (script_names_ok scripts)) _) h2 in
    let (_, packages, _) =
      chain-eq-ok _ (refuse_if (not (every package_matches b.extra_packages)) _) h3 in
    let named : script_names_ok scripts ≡ true = ground (arith, not_refused _ _ names) in
    let packaged : every package_matches b.extra_packages ≡ true =
      ground (arith, not_refused _ _ packages) in
    record {
      scripts = scripts;
      decoded = decoded;
      names = every-All _ _ scripts (λ s. script_name-is_plain s.0) named;
      packages = every-All _ _ b.extra_packages package_matches-is_plain packaged;
      keyless = ground (arith, not_refused _ _ no_keys);
    }
