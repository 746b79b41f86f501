-- ===== src/Templates/Builder/Packages.antt =====
-- What `parsePackages` of internal/templates/builder.go accepts.
use Prim.Native.Char.{Char, code}
use garm_provider_orbstack.Prelude.{
  ℕ, ap, refl, ◌++◌, eqb, contains_rune, Bool-cases, inl, inr, String, false, ◌≡◌, ◌≢◌, arith, List,
  [], ◌∷◌, All, Option, none, some, contains, contains_any, split_on, trim_suffix, eq_iff,
}
use garm_provider_orbstack.Error.{Result, ok}
use garm_provider_orbstack.Outcome.{◌>>=◌, chain-eq-ok, refuse_if}
use garm_provider_orbstack.Templates.Builder.{cut_tab, parse_line, parse_lines, parse_packages}

-- an entry has a name and a version, and the version neither a tab nor a carriage return
pub record IsEntry (e : String × String) : Type 0 where
  pub name : e.0 ≢ ""
  pub version : e.1 ≢ ""
  pub one_line : contains_any (9 ∷ 13 ∷ []) e.1 ≡ false

-- every line gives an entry, and no two have a name in common
abbrev pub IsInventory : List (String × String) → Type 0
IsInventory [] = Unit
IsInventory (e ∷ rest) =
    IsEntry e × All (λ (f : String × String). f.0 ≢ e.0) rest × IsInventory rest

-- the code points of a text
abbrev pub codes : String → List ℕ
codes String.[] = []
codes (String.◌∷◌ c s) = code c ∷ codes s

-- the line is the name, a tab and the version, and the name has no tab
pub record IsCut (line : String) (e : String × String) : Type 0 where
  pub parts : codes line ≡ codes e.0 ++ 9 ∷ codes e.1
  pub first : contains_rune 9 e.0 ≡ false

-- an entry for each line, in the order of the lines
pub data ReadFrom : List String → List (String × String) → Type 0 where
  no_line : ReadFrom [] []
  one_line :
      (line : String) (e : String × String) (lines : List String) (es : List (String × String))
      → IsCut line e
      → ReadFrom lines es
      → ReadFrom (line ∷ lines) (e ∷ es)

IsCut-later :
    (c : Char) (s : String) (found : Option (String × String)) (e : String × String)
    → eqb (code c) 9 ≡ false
    → ((x : String × String) → found ≡ some x → IsCut s x)
    → (elim found [ none ↦ none | some (name, version) ↦ some (String.◌∷◌ c name, version) ])
      ≡ some e
    → IsCut (String.◌∷◌ c s) e
unfolding contains_rune
IsCut-later c s none e other below h = cc
IsCut-later c s (some (name, version)) e other below h =
    let rest : IsCut s (name, version) = below (name, version) refl in
    let i : (String.◌∷◌ c name, version) ≡ e = ground arith in
    rw (← i) (record { parts = ap (◌∷◌ (code c)) rest.parts; first = rw (other, rest.first) refl })

cut_tab-IsCut : (line : String) (e : String × String) → cut_tab line ≡ some e → IsCut line e
unfolding cut_tab contains_rune
cut_tab-IsCut String.[] e h = cc
cut_tab-IsCut (String.◌∷◌ c s) e h = elim (Bool-cases (eqb (code c) 9)) [
  | inl tab ↦
      let k : some ("", s) ≡ some e = rw tab at h in
      let i : ("", s) ≡ e = cc (k) in
      let n : code c ≡ 9 = ground arith in
      rw (← i) (record { parts = ap (λ n. n ∷ codes s) n; first = refl })
  | inr other ↦ IsCut-later c s (cut_tab s) e other (λ x k. cut_tab-IsCut s x k) (rw other at h)
]

parsed_cut :
    (found : Option (String × String)) {e : String × String}
    → parse_line found ≡ ok e
    → found ≡ some e
parsed_cut none h = cc
parsed_cut (some (name, version)) h = ground arith

parse_line-IsEntry :
    (found : Option (String × String)) {e : String × String} → parse_line found ≡ ok e → IsEntry e
parse_line-IsEntry none h = cc
parse_line-IsEntry (some (name, version)) {e} h =
    let i : (name, version) ≡ e = ground arith in
    rw (← i) (record {
      name = λ q. ground (arith, eq_iff name "");
      version = λ q. ground (arith, eq_iff version "");
      one_line = ground arith;
    })

module _ (seen : List String) (name : String) where
  unseen :
      (es : List (String × String))
      → All (λ (f : String × String). contains f.0 (name ∷ seen) ≡ false) es
      → All (λ (f : String × String). contains f.0 seen ≡ false) es
        × All (λ (f : String × String). f.0 ≢ name) es
  unfolding contains
  unseen [] all = (tt, tt)
  unseen (f ∷ rest) (here, all) =
      let (free, apart) = unseen rest all in
      ((ground arith, free), ((λ q. ground (arith, eq_iff name f.0)), apart))

abbrev with_others : List String → List String → String × String → Result (List (String × String))
with_others seen rest e = parse_lines (e.0 ∷ seen) rest >>= λ others. ok (e ∷ others)

abbrev after : List String → List String → String × String → Result (List (String × String))
after seen rest e = refuse_if (contains e.0 seen) "duplicate installed package entry" >>= λ _.
    with_others seen rest e

parse_lines-IsInventory :
    (seen : List String) (lines : List String) (es : List (String × String))
    → parse_lines seen lines ≡ ok es
    → IsInventory es × All (λ (f : String × String). contains f.0 seen ≡ false) es
unfolding parse_lines
parse_lines-IsInventory seen [] es h = let i : [] ≡ es = ground arith in rw (← i) (tt, tt)
parse_lines-IsInventory seen (line ∷ rest) es h =
    let (e, parsed, h1) = chain-eq-ok (λ e. after seen rest e) (parse_line (cut_tab line)) h in
    let (_, fresh, h2) =
      chain-eq-ok (λ _. with_others seen rest e)
        (refuse_if (contains e.0 seen) "duplicate installed package entry") h1 in
    let (others, read, h3) =
      chain-eq-ok (λ others. ok (e ∷ others)) (parse_lines (e.0 ∷ seen) rest) h2 in
    let (inventory, free) = parse_lines-IsInventory (e.0 ∷ seen) rest others read in
    let (unmet, apart) = unseen seen e.0 others free in
    let i : e ∷ others ≡ es = ground arith in
    let new : contains e.0 seen ≡ false = ground arith in
    rw (← i) ((parse_line-IsEntry (cut_tab line) parsed, apart, inventory), (new, unmet))

parse_lines-ReadFrom :
    (seen : List String) (lines : List String) (es : List (String × String))
    → parse_lines seen lines ≡ ok es
    → ReadFrom lines es
unfolding parse_lines
parse_lines-ReadFrom seen [] es h = let i : [] ≡ es = ground arith in rw (← i) no_line
parse_lines-ReadFrom seen (line ∷ rest) es h =
    let (e, parsed, h1) = chain-eq-ok (λ e. after seen rest e) (parse_line (cut_tab line)) h in
    let (_, fresh, h2) =
      chain-eq-ok (λ _. with_others seen rest e)
        (refuse_if (contains e.0 seen) "duplicate installed package entry") h1 in
    let (others, read, h3) =
      chain-eq-ok (λ others. ok (e ∷ others)) (parse_lines (e.0 ∷ seen) rest) h2 in
    let i : e ∷ others ≡ es = ground arith in
    rw (← i) (
      one_line line e rest others (cut_tab-IsCut line e (parsed_cut (cut_tab line) parsed))
        (parse_lines-ReadFrom (e.0 ∷ seen) rest others read))

-- An inventory that is accepted has one entry for each line of the output, less its last line feed, in
-- their order: the name up to the first tab, and the version behind it. Neither is empty, the version has
-- no tab and no carriage return, and no name comes twice.
pub parse_packages-IsInventory :
    (output : String) {es : List (String × String)}
    → parse_packages output ≡ ok es
    → ReadFrom (split_on 10 (trim_suffix output "\n")) es × IsInventory es
unfolding parse_packages
parse_packages-IsInventory output {es} h = (
  parse_lines-ReadFrom [] (split_on 10 (trim_suffix output "\n")) es h,
  (parse_lines-IsInventory [] (split_on 10 (trim_suffix output "\n")) es h).0,
)
