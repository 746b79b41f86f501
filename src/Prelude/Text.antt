-- ===== src/Prelude/Text.antt =====
-- Go's `strings` functions that the program calls, over texts of code points.
use Prim.Native.Nat.{ℕ, zero, suc, ◌/◌, ◌%◌}
use Prim.Native.Char.{Char, code}
use Prim.Native.String.{String, ◌++◌ as append}
use mathlib.Core.Path.{◌≡◌, refl}
use mathlib.Core.Bool.{Bool, true, false, ◌&&◌, ◌||◌}
use mathlib.Core.Option.{Option, none, some}
use mathlib.Core.List.{List, [], ◌∷◌}
use text.Mathlib.Text.{◌==◌}
use garm_provider_orbstack.Prelude.Int.{ℤ, pos, negsuc}
use garm_provider_orbstack.Prelude.Tests.{leb, ltb, eqb, if◌then◌else◌}

-- `strings.ContainsRune(s, c)`
unfoldable pub contains_rune : ℕ → String → Bool
contains_rune r String.[] = false
contains_rune r (String.◌∷◌ c s) = eqb (code c) r || contains_rune r s

-- `unicode.IsSpace`
unfoldable pub is_space : ℕ → Bool
is_space c =
    leb 9 c && leb c 13
    || eqb c 32
    || eqb c 0x85
    || eqb c 0xA0
    || eqb c 0x1680
    || leb 0x2000 c && leb c 0x200A
    || eqb c 0x2028
    || eqb c 0x2029
    || eqb c 0x202F
    || eqb c 0x205F
    || eqb c 0x3000

unfoldable pub trim_left : String → String
unfolding is_space
trim_left String.[] = String.[]
trim_left (String.◌∷◌ c s) =
    let rest = trim_left s in if is_space (code c) then rest else String.◌∷◌ c s

unfoldable pub trim_right : String → String
unfolding is_space
trim_right String.[] = String.[]
trim_right (String.◌∷◌ c s) =
    let rest = trim_right s in
    if is_space (code c) && rest == "" then String.[] else String.◌∷◌ c rest

-- `strings.TrimSpace`
unfoldable pub trim_space : String → String
unfolding trim_left trim_right
trim_space s = trim_left (trim_right s)

-- `strings.TrimSpace(s) == ""`
unfoldable pub is_blank : String → Bool
unfolding trim_space
is_blank s = trim_space s == ""

-- the part before the first `c`, or all
unfoldable pub before_first : ℕ → String → String
before_first c String.[] = String.[]
before_first c (String.◌∷◌ x s) =
    let rest = before_first c s in if eqb (code x) c then String.[] else String.◌∷◌ x rest

abbrev prepend : Char → List String → List String
prepend x [] = String.◌∷◌ x String.[] ∷ []
prepend x (part ∷ parts) = String.◌∷◌ x part ∷ parts

-- `strings.Split(s, sep)` for a separator of one character
unfoldable pub split_on : ℕ → String → List String
split_on c String.[] = String.[] ∷ []
split_on c (String.◌∷◌ x s) =
    let rest = split_on c s in if eqb (code x) c then String.[] ∷ rest else prepend x rest

-- `strings.CutPrefix(s, prefix)`
unfoldable pub cut_prefix : String → String → Option String
cut_prefix s String.[] = some s
cut_prefix String.[] (String.◌∷◌ d t) = none
cut_prefix (String.◌∷◌ c s) (String.◌∷◌ d t) =
    if eqb (code c) (code d) then cut_prefix s t else none

abbrev is_some {ℓ} : {A : Type ℓ} → Option A → Bool
is_some none = false
is_some (some a) = true

-- `strings.HasPrefix(s, prefix)`
unfoldable pub has_prefix : String → String → Bool
unfolding cut_prefix
has_prefix s prefix = is_some (cut_prefix s prefix)

-- the decimal digits of a number, `strconv.Itoa`
abbrev digit : ℕ → String
digit zero = "0"
digit (suc zero) = "1"
digit (suc (suc zero)) = "2"
digit (suc (suc (suc zero))) = "3"
digit (suc (suc (suc (suc zero)))) = "4"
digit (suc (suc (suc (suc (suc zero))))) = "5"
digit (suc (suc (suc (suc (suc (suc zero)))))) = "6"
digit (suc (suc (suc (suc (suc (suc (suc zero))))))) = "7"
digit (suc (suc (suc (suc (suc (suc (suc (suc zero)))))))) = "8"
digit _ = "9"

-- `fuel` bounds the number of digits; a number has at most one more digit than its size
digits_from : ℕ → ℕ → String → String
digits_from zero n rest = append (digit (n % 10)) rest
digits_from (suc fuel) n rest =
    let more = digits_from fuel (n / 10) (append (digit (n % 10)) rest) in
    if ltb n 10 then append (digit n) rest else more

unfoldable pub decimal : ℕ → String
unfolding digits_from
decimal n = digits_from n n String.[]

unfoldable pub itoa : ℤ → String
unfolding decimal
itoa (pos n) = decimal n
itoa (negsuc n) = append "-" (decimal (suc n))

-- `strconv.FormatBool`
abbrev pub format_bool : Bool → String
format_bool true = "true"
format_bool false = "false"

itoa_samples : (itoa (pos 4096) ≡ "4096") × (itoa (negsuc 6) ≡ "-7") × (itoa (pos 0) ≡ "0")
unfolding itoa
itoa_samples = (refl, refl, refl)

trim_samples : (trim_space " a b\n" ≡ "a b") × (is_blank "\t \n" ≡ true)
unfolding trim_space is_blank
trim_samples = (refl, refl)

-- whether every character passes a test
unfoldable pub all_chars : (ℕ → Bool) → String → Bool
all_chars p String.[] = true
all_chars p (String.◌∷◌ c s) = p (code c) && all_chars p s

-- `strings.ContainsAny(s, chars)`, the characters given by their codes
unfoldable pub contains_any : List ℕ → String → Bool
unfolding contains_rune
contains_any [] s = false
contains_any (c ∷ cs) s = contains_rune c s || contains_any cs s

abbrev with_head : Char → Option String → Option String
with_head c none = none
with_head c (some s) = some (String.◌∷◌ c s)

-- `strings.CutSuffix(s, suffix)`
unfoldable pub cut_suffix : String → String → Option String
cut_suffix String.[] suffix = if suffix == "" then some String.[] else none
cut_suffix (String.◌∷◌ c s) suffix =
    let rest = cut_suffix s suffix in
    if String.◌∷◌ c s == suffix then some String.[] else with_head c rest

abbrev or_else : Option String → String → String
or_else none s = s
or_else (some t) s = t

-- `strings.TrimPrefix`, `strings.HasSuffix` and `strings.TrimSuffix`
unfoldable pub trim_prefix : String → String → String
unfolding cut_prefix
trim_prefix s prefix = or_else (cut_prefix s prefix) s

unfoldable pub has_suffix : String → String → Bool
unfolding cut_suffix
has_suffix s suffix = is_some (cut_suffix s suffix)

unfoldable pub trim_suffix : String → String → String
unfolding cut_suffix
trim_suffix s suffix = or_else (cut_suffix s suffix) s

abbrev pub is_digit : ℕ → Bool
is_digit c = leb b'0' c && leb c b'9'

abbrev pub is_lower : ℕ → Bool
is_lower c = leb b'a' c && leb c b'z'

abbrev pub is_upper : ℕ → Bool
is_upper c = leb b'A' c && leb c b'Z'

affix_samples :
    (trim_suffix (trim_prefix "a-1.2.tgz" "a-") ".tgz" ≡ "1.2")
    × (has_suffix "x.tar" ".tar.gz" ≡ false)
    × (split_on b'.' "1..2" ≡ "1" ∷ "" ∷ "2" ∷ [])
unfolding trim_suffix trim_prefix has_suffix split_on
affix_samples = (refl, refl, refl)
