-- ===== src/Install/Classify/Permitted.antt =====
-- Which `profile` commands `classifyCLI` of internal/install/cli.go lets through, by a grammar.
use garm_provider_orbstack.Prelude.{
  ℕ, suc, String, Bool, true, false, not, ◌≡◌, ◌≢◌, refl, arith, ◌==◌, ◌&&◌, ◌||◌, ◌⊎◌, inl, inr,
  eq_iff, List, [], ◌∷◌, Option, none, some, contains, has_prefix, Bool-cases,
}
use garm_provider_orbstack.Error.{Result, ok}
use garm_provider_orbstack.Outcome.{◌>>=◌, refuse_if, chain-eq-ok, not_refused}
use garm_provider_orbstack.Install.Classify.{
  profile_name, controller_url, long_name, check_flag, flag_name, cut_equals, refused_name,
  walk_flags,
}

-- A value that a flag may have. The URL and the name belong to `profile add` and are the managed
-- ones; the name of a user belongs to a command that logs in.
pub data Value (action : String) (login : Bool) : String → String → Type 0 where
  username : (value : String) → login ≡ true → value ≢ "" → Value action login "--username" value
  url : action ≡ "add" → Value action login "--url" controller_url
  name : action ≡ "add" → Value action login "--name" profile_name

-- What may follow `profile` and its action, with the flags given so far and the number of names: the
-- managed profile for `delete` and `switch`, once, and each flag once, with its value in the same word
-- or in the next.
pub data Line (action : String) (login : Bool) : List String → ℕ → List String → Type 0 where
  finished : (seen : List String) (n : ℕ) → Line action login seen n []
  profile :
      (seen rest : List String)
      → action ≡ "delete" ⊎ action ≡ "switch"
      → Line action login seen 1 rest
      → Line action login seen 0 (profile_name ∷ rest)
  attached :
      (seen rest : List String) (n : ℕ) (arg value : String)
      → (cut_equals arg).1 ≡ some value
      → contains (long_name (cut_equals arg).0) seen ≡ false
      → Value action login (long_name (cut_equals arg).0) value
      → Line action login (long_name (cut_equals arg).0 ∷ seen) n rest
      → Line action login seen n (arg ∷ rest)
  separate :
      (seen rest : List String) (n : ℕ) (arg value : String)
      → (cut_equals arg).1 ≡ none
      → contains (long_name (cut_equals arg).0) seen ≡ false
      → Value action login (long_name (cut_equals arg).0) value
      → Line action login (long_name (cut_equals arg).0 ∷ seen) n rest
      → Line action login seen n (arg ∷ value ∷ rest)

module _ (action : String) (login : Bool) where
  abbrev Supported : String → Type 0
  Supported key = key ≡ "--name" ⊎ (key ≡ "--url" ⊎ key ≡ "--username")

  supported :
      (key : String)
      → (not (key == "--name") && not (key == "--url") && not (key == "--username")) ≡ false
      → Supported key
  supported key h = elim (Bool-cases (key == "--name")) [
    | inl a ↦ inl ((eq_iff key "--name").0 a)
    | inr a ↦ elim (Bool-cases (key == "--url")) [
      | inl b ↦ inr (inl ((eq_iff key "--url").0 b))
      | inr b ↦ inr (inr ((eq_iff key "--username").0 (ground arith)))
    ]
  ]

  flag_name-Supported :
      (seen : List String) (given key : String)
      → flag_name seen given ≡ ok key
      → (long_name given ≡ key) × (contains key seen ≡ false) × Supported key
  unfolding flag_name
  flag_name-Supported seen given key h =
      let (_, known, h1) =
        chain-eq-ok (λ _. fresh) (refuse_if unknown "unsupported recovery flag") h in
      let (_, new, h2) =
        chain-eq-ok (λ _. ok (long_name given))
          (refuse_if (contains (long_name given) seen) "duplicate recovery flag") h1 in
      let same : long_name given ≡ key = ground arith in
      rw (← same)
        (refl, not_refused _ _ new, supported (long_name given) (not_refused unknown _ known))
    where
      unknown : Bool
      unknown =
          not (long_name given == "--name")
          && not (long_name given == "--url")
          && not (long_name given == "--username")

      fresh : Result String
      fresh = refuse_if (contains (long_name given) seen) "duplicate recovery flag" >>= λ _.
          ok (long_name given)

  username-Value :
      (value : String)
      → check_flag action login "--username" value ≡ ok tt
      → Value action login "--username" value
  unfolding check_flag
  username-Value value h =
      let b : (not login || value == "") ≡ false = not_refused (not login || value == "") _ h in
      username value (ground arith) (λ q. ground (arith, eq_iff value ""))

  url-Value :
      (value : String)
      → check_flag action login "--url" value ≡ ok tt
      → Value action login "--url" value
  unfolding check_flag
  url-Value value h =
      let a : action ≡ "add" = ground (arith, eq_iff action "add") in
      let v : value ≡ controller_url = ground (arith, eq_iff value controller_url) in rw v (url a)

  name-Value :
      (value : String)
      → check_flag action login "--name" value ≡ ok tt
      → Value action login "--name" value
  unfolding check_flag
  name-Value value h =
      let a : action ≡ "add" = ground (arith, eq_iff action "add") in
      let v : value ≡ profile_name = ground (arith, eq_iff value profile_name) in rw v (name a)

  check_flag-Value :
      (key value : String)
      → Supported key
      → check_flag action login key value ≡ ok tt
      → Value action login key value
  check_flag-Value key value (inl e) h = rw e (name-Value value (rw e at h))
  check_flag-Value key value (inr (inl e)) h = rw e (url-Value value (rw e at h))
  check_flag-Value key value (inr (inr e)) h = rw e (username-Value value (rw e at h))

  selected :
      (arg : String) (n : ℕ)
      → refused_name action n arg ≡ false
      → (action ≡ "delete" ⊎ action ≡ "switch") × (arg ≡ profile_name) × (n ≡ 0)
  selected arg n h =
      let a : arg ≡ profile_name = ground (arith, eq_iff arg profile_name) in
      let z : n ≡ 0 = ground arith in
      (
        elim (Bool-cases (action == "delete")) [
          | inl d ↦ inl ((eq_iff action "delete").0 d)
          | inr d ↦ inr ((eq_iff action "switch").0 (ground arith))
        ],
        a,
        z,
      )

  -- what an accepted rest of a line is, by the flag whose value comes next
  abbrev pub Shape : Option String → List String → ℕ → List String → Type 0
  Shape none seen n rest = Line action login seen n rest
  Shape (some key) seen n rest =
      (value : String) × (after : List String) × (rest ≡ value ∷ after)
      × (check_flag action login key value ≡ ok tt)
      × Line action login seen n after

  -- a word of a line, where the rest of the line is known already
  module _ (arg : String) (rest seen : List String) (n : ℕ) (found : List String × ℕ)
      (below : (pending : Option String) (seen : List String) (n : ℕ) (found : List String × ℕ)
        → walk_flags action login pending rest seen n ≡ ok found
        → Shape pending seen n rest) where
    valued-Line :
        (key : String)
        → long_name (cut_equals arg).0 ≡ key
        → contains key seen ≡ false
        → Supported key
        → (value : Option String) → (cut_equals arg).1 ≡ value
        → elim value [
          | some value ↦ check_flag action login key value >>= λ _.
              walk_flags action login none rest (key ∷ seen) n
          | none ↦ walk_flags action login (some key) rest (key ∷ seen) n
        ]
          ≡ ok found
        → Line action login seen n (arg ∷ rest)
    valued-Line key same new s (some value) cut k =
        let (_, checked, k1) =
          chain-eq-ok (λ _. walk_flags action login none rest (key ∷ seen) n)
            (check_flag action login key value) k in
        attached seen rest n arg value cut (rw same new)
          (rw same (check_flag-Value key value s checked))
          (rw same (below none (key ∷ seen) n found k1))
    valued-Line key same new s none cut k =
        let (value, after, split, checked, line) = below (some key) (key ∷ seen) n found k in
        rw split (
          separate seen after n arg value cut (rw same new)
            (rw same (check_flag-Value key value s checked)) (rw same line))

    word-Line :
        (flag : Bool)
        → elim flag [
          | false ↦
              refuse_if
                (refused_name action n arg)
                "only the managed garm-orbstack profile may be selected"
              >>= λ _. walk_flags action login none rest seen (suc n)
          | true ↦ flag_name seen (cut_equals arg).0 >>= λ key. elim (cut_equals arg).1 [
            | some value ↦ check_flag action login key value >>= λ _.
                walk_flags action login none rest (key ∷ seen) n
            | none ↦ walk_flags action login (some key) rest (key ∷ seen) n
          ]
        ]
          ≡ ok found
        → Line action login seen n (arg ∷ rest)
    word-Line false k =
        let (_, kept, k1) =
          chain-eq-ok (λ _. walk_flags action login none rest seen (suc n))
            (refuse_if (refused_name action n arg)
              "only the managed garm-orbstack profile may be selected")
            k in
        let (chosen, is_profile, first) = selected arg n (not_refused _ _ kept) in
        let counted : Line action login seen (suc n) rest = below none seen (suc n) found k1 in
        let line : Line action login seen 1 rest = rw first at counted in
        rw (is_profile, first) (profile seen rest chosen line)
    word-Line true k =
        let (key, named, k1) =
          chain-eq-ok
            (λ key. elim (cut_equals arg).1 [
              | some value ↦ check_flag action login key value >>= λ _.
                  walk_flags action login none rest (key ∷ seen) n
              | none ↦ walk_flags action login (some key) rest (key ∷ seen) n
            ])
            (flag_name seen (cut_equals arg).0) k in
        let (same, new, s) = flag_name-Supported seen (cut_equals arg).0 key named in
        valued-Line key same new s (cut_equals arg).1 refl k1

  pub walk_flags-Shape :
      (pending : Option String) (rest seen : List String) (n : ℕ) (found : List String × ℕ)
      → walk_flags action login pending rest seen n ≡ ok found
      → Shape pending seen n rest
  unfolding walk_flags
  walk_flags-Shape (some key) [] seen n found h = cc
  walk_flags-Shape (some key) (value ∷ rest) seen n found h =
      let (_, checked, h1) =
        chain-eq-ok (λ _. walk_flags action login none rest seen n)
          (check_flag action login key value) h in
      (value, rest, refl, checked, walk_flags-Shape none rest seen n found h1)
  walk_flags-Shape none [] seen n found h = finished seen n
  walk_flags-Shape none (arg ∷ rest) seen n found h =
      word-Line arg rest seen n found (λ p s m f k. walk_flags-Shape p rest s m f k)
        (has_prefix arg "-") h
