-- ===== src/Provider/Patterns.antt =====
-- The regular expressions of internal/provider/bootstrap.go, as matchers of texts.
use Prim.Native.String.{count}
use Prim.Native.Char.{code}
use garm_provider_orbstack.Prelude.{
  ℕ, String, Bool, true, false, ◌&&◌, ◌||◌, Option, none, some, all_chars, is_digit, is_lower,
  is_upper, leb, eqb, if◌then◌else◌,
}

-- `scriptNamePattern`: `^[A-Za-z0-9][A-Za-z0-9_.-]{0,127}$`
abbrev pub is_alnum : ℕ → Bool
is_alnum c = is_upper c || is_lower c || is_digit c

abbrev pub script_char : ℕ → Bool
script_char c = is_alnum c || eqb c b'_' || eqb c b'.' || eqb c b'-'

unfoldable pub script_name_matches : String → Bool
unfolding all_chars
script_name_matches String.[] = false
script_name_matches (String.◌∷◌ c rest) =
    is_alnum (code c) && all_chars script_char rest && leb (count rest) 127

-- Where the matcher of `packagePattern` is: at the start, in the name, after the colon, in the
-- architecture, after the equals sign, in the version.
pub data PackagePart : Type 0 where
  name_start name_rest arch_start arch_rest version_start version_rest : PackagePart

abbrev low_alnum : ℕ → Bool
low_alnum c = is_lower c || is_digit c

abbrev name_char : ℕ → Bool
name_char c = low_alnum c || eqb c b'+' || eqb c b'.' || eqb c b'-'

abbrev version_char : ℕ → Bool
version_char c =
    is_alnum c || eqb c b'.' || eqb c b'+' || eqb c b':' || eqb c b'~' || eqb c b'_' || eqb c b'-'

-- one character of `^[a-z0-9][a-z0-9+.-]*(?::[a-z0-9][a-z0-9-]*)?(?:=[A-Za-z0-9.+:~_-]+)?$`
unfoldable pub package_step : PackagePart → ℕ → Option PackagePart
package_step name_start c = if low_alnum c then some name_rest else none
package_step name_rest c =
    if name_char c
    then some name_rest
    else if eqb c b':'
    then some arch_start
    else if eqb c b'='
    then some version_start
    else none
package_step arch_start c = if low_alnum c then some arch_rest else none
package_step arch_rest c =
    if low_alnum c || eqb c b'-'
    then some arch_rest
    else if eqb c b'='
    then some version_start
    else none
package_step version_start c = if version_char c then some version_rest else none
package_step version_rest c = if version_char c then some version_rest else none

abbrev may_end : PackagePart → Bool
may_end name_rest = true
may_end arch_rest = true
may_end version_rest = true
may_end _ = false

-- `packagePattern`; a text that has failed is at `none`
unfoldable pub package_from : Option PackagePart → String → Bool
unfolding package_step
package_from none s = false
package_from (some q) String.[] = may_end q
package_from (some q) (String.◌∷◌ c s) = package_from (package_step q (code c)) s

unfoldable pub package_matches : String → Bool
unfolding package_from
package_matches s = package_from (some name_start) s
