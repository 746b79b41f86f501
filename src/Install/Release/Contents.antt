-- ===== src/Install/Release/Contents.antt =====
-- What `verifyRelease` of internal/install/release.go finds in the directory of a release.
use garm_provider_orbstack.Prelude.{
  String, Bool, true, false, not, ◌≡◌, ◌≢◌, arith, ◌==◌, ◌&&◌, ◌||◌, inl, inr, List, [], ◌∷◌, ◌++◌,
  All, contains, eq_iff, if◌then◌else◌, Bool-cases,
}
use garm_provider_orbstack.Error.{Result, ok}
use garm_provider_orbstack.Outcome.{◌>>=◌, ◌>>◌, refuse_if, chain-eq-ok, not_refused}
use garm_provider_orbstack.Install.Release.{
  executable_assets, EntryKind, regular_entry, directory_entry, other_entry, is_directory,
  is_regular, Tree, sum_of, verify_digest, placed, verify_assets, check_staged, check_installed,
  names_of, side_files, check_entries,
}

else_part :
    (b : Bool) (r : Result (Unit {0})) {u : Unit {0}}
    → b ≡ false
    → (if b then ok tt else r) ≡ ok u
    → r ≡ ok u
else_part true r q h = cc
else_part false r q h = h

module _ (tree : Tree) (sums : List (String × String)) where
  -- the file has the digest that the list of checksums gives for the name
  pub record Attested (path name : String) : Type 0 where
    pub listed : sum_of name sums ≢ ""
    pub same : tree.digest path ≡ ok (sum_of name sums)

  pub verify_digest-Attested :
      (path name : String) {u : Unit {0}}
      → verify_digest tree path (sum_of name sums) ≡ ok u
      → Attested path name
  unfolding verify_digest
  verify_digest-Attested path name h =
      let (_, listed, h1) =
        chain-eq-ok
          (λ _. tree.digest path >>= λ got.
            refuse_if (not (got == sum_of name sums)) "checksum mismatch")
          (refuse_if (sum_of name sums == "") "missing checksum") h in
      let (got, read, h2) =
        chain-eq-ok (λ got. refuse_if (not (got == sum_of name sums)) "checksum mismatch")
          (tree.digest path) h1 in
      let same : not (got == sum_of name sums) ≡ false =
        not_refused (not (got == sum_of name sums)) "checksum mismatch" h2 in
      let given : (sum_of name sums == "") ≡ false =
        not_refused (sum_of name sums == "") "missing checksum" listed in
      record {
        listed = λ q. ground (arith, eq_iff (sum_of name sums) "");
        same =
            let i : got ≡ sum_of name sums = ground (arith, eq_iff got (sum_of name sums)) in
            rw (← i) read;
      }

  abbrev pub AllAttested : Bool → List (String × String) → Type 0
  AllAttested installed [] = Unit
  AllAttested installed ((rel, asset) ∷ rest) =
      Attested (placed tree installed (rel, asset)) asset × AllAttested installed rest

  pub verify_assets-AllAttested :
      (installed : Bool) (assets files : List (String × String))
      → verify_assets tree installed sums assets ≡ ok files
      → AllAttested installed assets
  unfolding verify_assets
  verify_assets-AllAttested installed [] files h = tt
  verify_assets-AllAttested installed ((rel, asset) ∷ rest) files h =
      let path = placed tree installed (rel, asset) in
      let (_, _, h1) =
        chain-eq-ok
          (λ _.
            verify_digest tree path (sum_of asset sums)
            >> (verify_assets tree installed sums rest >>= λ others. ok ((rel, path) ∷ others)))
          (tree.reject_symlinks path) h in
      let (_, attested, h2) =
        chain-eq-ok
          (λ _. verify_assets tree installed sums rest >>= λ others. ok ((rel, path) ∷ others))
          (verify_digest tree path (sum_of asset sums)) h1 in
      let (others, below, _) =
        chain-eq-ok (λ others. ok ((rel, path) ∷ others)) (verify_assets tree installed sums rest)
          h2 in
      (
        verify_digest-Attested path asset attested,
        verify_assets-AllAttested installed rest others below,
      )

  -- a staged entry is one of the names allowed, not a directory, and has its checksum, the list itself
  -- excepted
  pub record Staged (allowed : List String) (e : String × EntryKind) : Type 0 where
    pub known : contains e.0 allowed ≡ true
    pub file : is_directory e.1 ≡ false
    pub attested : e.0 ≢ "SHA256SUMS" → Attested e.0 e.0

  check_staged-Staged :
      (allowed : List String) (entries : List (String × EntryKind)) {u : Unit {0}}
      → check_staged tree allowed sums entries ≡ ok u
      → All (Staged allowed) entries
  unfolding check_staged
  check_staged-Staged allowed [] h = tt
  check_staged-Staged allowed ((name, kind) ∷ rest) h =
      let unexpected = not (contains name allowed) || is_directory kind in
      let checked : Result (Unit {0}) =
        if name == "SHA256SUMS" then ok tt else verify_digest tree name (sum_of name sums) in
      let (_, expected, h1) =
        chain-eq-ok (λ _. checked >> check_staged tree allowed sums rest)
          (refuse_if unexpected "unexpected staging entry") h in
      let (_, one, h2) = chain-eq-ok (λ _. check_staged tree allowed sums rest) checked h1 in
      let fine : unexpected ≡ false = not_refused unexpected "unexpected staging entry" expected in
      (
        record {
          known = ground arith;
          file = ground arith;
          attested = λ other. verify_digest-Attested name name (
              else_part (name == "SHA256SUMS") (verify_digest tree name (sum_of name sums))
                (ground (arith, eq_iff name "SHA256SUMS")) one);
        },
        check_staged-Staged allowed rest h2,
      )

-- a path below an installed release is the directory itself, the directory of the providers, or a
-- regular file with one of the names allowed
pub data Installed (allowed : List String) : String × EntryKind → Type 0 where
  root : (kind : EntryKind) → Installed allowed (".", kind)
  providers : Installed allowed ("providers.d", directory_entry)
  file : (name : String) → contains name allowed ≡ true → Installed allowed (name, regular_entry)

expected-Installed :
    (allowed : List String) (rel : String) (kind : EntryKind)
    → (not (rel == "." || rel == "providers.d" && is_directory kind)
        && (not (contains rel allowed) || not (is_regular kind)))
      ≡ false
    → Installed allowed (rel, kind)
expected-Installed allowed rel directory_entry h = elim (Bool-cases (rel == ".")) [
  | inl dot ↦ let i : rel ≡ "." = ground (arith, eq_iff rel ".") in rw i (root directory_entry)
  | inr other ↦
      let i : rel ≡ "providers.d" = ground (arith, eq_iff rel "providers.d") in rw i providers
]
expected-Installed allowed rel regular_entry h = elim (Bool-cases (rel == ".")) [
  | inl dot ↦ let i : rel ≡ "." = ground (arith, eq_iff rel ".") in rw i (root regular_entry)
  | inr other ↦ file rel (ground arith)
]
expected-Installed allowed rel other_entry h = elim (Bool-cases (rel == ".")) [
  | inl dot ↦ let i : rel ≡ "." = ground (arith, eq_iff rel ".") in rw i (root other_entry)
  | inr other ↦ ground arith
]

check_installed-Installed :
    (tree : Tree) (allowed : List String) (paths : List (String × EntryKind)) {u : Unit {0}}
    → check_installed tree allowed paths ≡ ok u
    → All (Installed allowed) paths
unfolding check_installed
check_installed-Installed tree allowed [] h = tt
check_installed-Installed tree allowed ((rel, kind) ∷ rest) h =
    let unexpected =
      not (rel == "." || rel == "providers.d" && is_directory kind)
      && (not (contains rel allowed) || not (is_regular kind)) in
    let (_, one, h1) =
      chain-eq-ok (λ _. check_installed tree allowed rest)
        (refuse_if unexpected "unexpected installed release entry") h in
    (
      expected-Installed allowed rel kind
          (not_refused unexpected "unexpected installed release entry" one),
      check_installed-Installed tree allowed rest h1,
    )

-- the names that an accepted release may have
abbrev pub allowed_names : Tree → Bool → String → String → List String
allowed_names tree installed version arch =
    side_files tree installed ++ names_of tree installed (executable_assets version arch)

-- what stands in the directory of an accepted release
abbrev pub HoldsOnly : Tree → Bool → String → String → List (String × String) → Type 0
HoldsOnly tree false version arch sums =
    (es : List (String × EntryKind)) × (tree.entries ≡ ok es)
    × All (Staged tree sums (allowed_names tree false version arch)) es
HoldsOnly tree true version arch sums =
    (es : List (String × EntryKind)) × (tree.paths ≡ ok es)
    × All (Installed (allowed_names tree true version arch)) es

pub check_entries-HoldsOnly :
    (tree : Tree) (installed : Bool) (version arch : String) (sums : List (String × String))
    {u : Unit {0}}
    → check_entries tree installed (executable_assets version arch) sums ≡ ok u
    → HoldsOnly tree installed version arch sums
unfolding check_entries
check_entries-HoldsOnly tree false version arch sums h =
    let allowed = allowed_names tree false version arch in
    let (es, read, h1) = chain-eq-ok (λ es. check_staged tree allowed sums es) tree.entries h in
    (es, read, check_staged-Staged tree sums allowed es h1)
check_entries-HoldsOnly tree true version arch sums h =
    let allowed = allowed_names tree true version arch in
    let (es, read, h1) = chain-eq-ok (λ es. check_installed tree allowed es) tree.paths h in
    (es, read, check_installed-Installed tree allowed es h1)
