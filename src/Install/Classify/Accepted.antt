-- ===== src/Install/Classify/Accepted.antt =====
-- What `classifyCLI` of internal/install/cli.go accepts as a whole.
use garm_provider_orbstack.Prelude.{
  none, ℕ, String, Bool, true, false, not, ◌≡◌, ◌≢◌, refl, arith, ◌==◌, ◌&&◌, ◌||◌, inl, inr, eqb,
  eq_iff, List, [], ◌∷◌, has_prefix, trim_prefix, if◌then◌else◌, Bool-cases,
}
use garm_provider_orbstack.Error.{Result, ok, err}
use garm_provider_orbstack.Outcome.{◌>>=◌, refuse_if, chain-eq-ok, not_refused}
use garm_provider_orbstack.Install.Classify.{
  CommandClass, is_debug, with_word, scan_args, recovery_action, walk_flags, with_defaults,
  finish_recovery, classify_profile, plain_class, classify_words, classify_cli,
}
use garm_provider_orbstack.Install.Classify.Permitted.{Line, walk_flags-Shape}

-- How all the arguments are read: the words that are no format option, and the format. No argument
-- asks for debugging, but what follows a `--format` may be any value.
pub data Scanned : List String → String → List String → String → Type 0 where
  finished : (format : String) → Scanned [] format [] format
  valued :
      (value : String) (rest : List String) (start : String) (words : List String) (format : String)
      → Scanned rest value words format
      → Scanned ("--format" ∷ value ∷ rest) start words format
  attached :
      (arg : String) (rest : List String) (start : String) (words : List String) (format : String)
      → is_debug arg ≡ false
      → has_prefix arg "--format=" ≡ true
      → Scanned rest (trim_prefix arg "--format=") words format
      → Scanned (arg ∷ rest) start words format
  plain_word :
      (arg : String) (rest : List String) (start : String) (words : List String) (format : String)
      → is_debug arg ≡ false
      → arg ≢ "--format"
      → has_prefix arg "--format=" ≡ false
      → Scanned rest start words format
      → Scanned (arg ∷ rest) start (arg ∷ words) format

-- the same, where the value of a `--format` may come next
abbrev ScannedAfter : Bool → List String → String → List String → String → Type 0
ScannedAfter true args start words format =
    (value : String) × (rest : List String) × (args ≡ value ∷ rest)
    × Scanned rest value words format
ScannedAfter false args start words format = Scanned args start words format

with_word-Scanned :
    (arg : String) (rest : List String) (start : String) (r : Result (List String × String))
    (words : List String) (format : String)
    → is_debug arg ≡ false
    → arg ≢ "--format"
    → has_prefix arg "--format=" ≡ false
    → ((ws : List String) (f : String) → r ≡ ok (ws, f) → Scanned rest start ws f)
    → with_word arg r ≡ ok (words, format)
    → Scanned (arg ∷ rest) start words format
with_word-Scanned arg rest start (ok (ws, f)) words format q other unattached below h =
    let i : arg ∷ ws ≡ words = ground arith in
    let j : f ≡ format = ground arith in
    rw (← i) (rw (← j) (plain_word arg rest start ws f q other unattached (below ws f refl)))
with_word-Scanned arg rest start (err e) words format q other unattached below h = cc

valued-Scanned :
    (arg : String) (rest : List String) (start : String) (words : List String) (format : String)
    → arg ≡ "--format"
    → ScannedAfter true rest start words format
    → Scanned (arg ∷ rest) start words format
valued-Scanned arg rest start words format i (value, more, j, h) =
    rw (i, j) (valued value more start words format h)

scan_args-Scanned :
    (expects : Bool) (args : List String) (start : String) (words : List String) (format : String)
    → scan_args expects args start ≡ ok (words, format)
    → ScannedAfter expects args start words format
unfolding scan_args
scan_args-Scanned true [] start words format h = cc
scan_args-Scanned true (value ∷ rest) start words format h =
    (value, rest, refl, scan_args-Scanned false rest value words format h)
scan_args-Scanned false [] start words format h =
    let i : [] ≡ words = ground arith in
    let j : start ≡ format = ground arith in rw (← i) (rw (← j) (finished start))
scan_args-Scanned false (arg ∷ rest) start words format h = elim (Bool-cases (is_debug arg)) [
  | inl debug ↦ let k = rw debug at h in cc
  | inr quiet ↦ elim (Bool-cases (arg == "--format")) [
    | inl named ↦
        valued-Scanned arg rest start words format ((eq_iff arg "--format").0 named)
          (scan_args-Scanned true rest start words format (rw (quiet, named) at h))
    | inr other ↦ elim (Bool-cases (has_prefix arg "--format=")) [
      | inl joined ↦ attached arg rest start words format quiet joined (
          scan_args-Scanned false rest (trim_prefix arg "--format=") words format
            (rw (quiet, other, joined) at h))
      | inr word ↦
          with_word-Scanned arg rest start (scan_args false rest start) words format quiet
            (λ q. ground (arith, eq_iff arg "--format")) word
            (λ ws f k. scan_args-Scanned false rest start ws f k) (rw (quiet, other, word) at h)
    ]
  ]
]

-- The commands that are let through, by their words and the format of the output.
pub data Accepted (args : List String) : List String → String → CommandClass → Type 0 where
  nothing : (format : String) → Accepted args [] format (plain_class args)
  ordinary :
      (word : String) (rest : List String) (format : String)
      → has_prefix word "-" ≡ false
      → word ≢ "init"
      → word ≢ "profile"
      → Accepted args (word ∷ rest) format (plain_class args)
  recovery :
      (word : String) (rest : List String) (format action : String) (login : Bool)
      (seen : List String) (n : ℕ)
      → recovery_action word ≡ ok (action, login)
      → (action ≡ "list" → format ≡ "table")
      → Line action login [] 0 rest
      → walk_flags action login none rest [] 0 ≡ ok (seen, n)
      → ((action == "delete" || action == "switch") ≡ true → n ≡ 1)
      → Accepted args ("profile" ∷ word ∷ rest) format (record {
        recovery = true;
        login = login;
        args = if action == "add" then with_defaults seen args else args;
        action = action;
      })

finish_recovery-Accepted :
    (args : List String) (word : String) (rest : List String) (format action : String)
    (login : Bool) (found : List String × ℕ) (class : CommandClass)
    → recovery_action word ≡ ok (action, login)
    → (action ≡ "list" → format ≡ "table")
    → walk_flags action login none rest [] 0 ≡ ok found
    → finish_recovery args action login found ≡ ok class
    → Accepted args ("profile" ∷ word ∷ rest) format class
unfolding finish_recovery
finish_recovery-Accepted args word rest format action login (seen, n) class acts tables walked h =
    let (_, counted, h1) =
      chain-eq-ok (λ _. ok made)
        (refuse_if ((action == "delete" || action == "switch") && not (eqb n 1))
          "specify the managed garm-orbstack profile name")
        h in
    let few : ((action == "delete" || action == "switch") && not (eqb n 1)) ≡ false =
      not_refused _ _ counted in
    let same : made ≡ class = ground arith in
    rw (← same) (
      recovery word rest format action login seen n acts tables
        (walk_flags-Shape action login none rest [] 0 (seen, n) walked) walked
        (λ one. ground arith))
  where
    made : CommandClass
    made = record {
      recovery = true;
      login = login;
      args = if action == "add" then with_defaults seen args else args;
      action = action;
    }

classify_profile-Accepted :
    (args : List String) (format : String) (words : List String) (class : CommandClass)
    → classify_profile args format words ≡ ok class
    → Accepted args ("profile" ∷ words) format class
unfolding classify_profile
classify_profile-Accepted args format [] class h = cc
classify_profile-Accepted args format (word ∷ rest) class h =
    let ((action, login), acts, h1) =
      chain-eq-ok (λ (a : String × Bool). listed a) (recovery_action word) h in
    let (_, safe, h2) =
      chain-eq-ok (λ _. walked (action, login))
        (refuse_if (action == "list" && not (format == "table"))
          "profile JSON output exposes bearer tokens; use table format")
        h1 in
    let (found, flags, h3) =
      chain-eq-ok (λ found. finish_recovery args action login found)
        (walk_flags action login none rest [] 0) h2 in
    let shown : (action == "list" && not (format == "table")) ≡ false = not_refused _ _ safe in
    finish_recovery-Accepted args word rest format action login found class acts
      (λ is_list. ground (arith, eq_iff action "list", eq_iff format "table")) flags h3
  where
    walked : String × Bool → Result CommandClass
    walked a = walk_flags a.0 a.1 none rest [] 0 >>= λ found. finish_recovery args a.0 a.1 found

    listed : String × Bool → Result CommandClass
    listed a =
        refuse_if (a.0 == "list" && not (format == "table"))
          "profile JSON output exposes bearer tokens; use table format"
        >>= λ _. walked a

classify_words-Accepted :
    (args words : List String) (format : String) (class : CommandClass)
    → classify_words args (words, format) ≡ ok class
    → Accepted args words format class
unfolding classify_words
classify_words-Accepted args [] format class h =
    let i : plain_class args ≡ class = ground arith in rw (← i) (nothing format)
classify_words-Accepted args (word ∷ rest) format class h =
    elim (Bool-cases (has_prefix word "-")) [
      | inl option ↦ let k = rw option at h in cc
      | inr plain ↦ elim (Bool-cases (word == "init")) [
        | inl is_init ↦ let k = rw (plain, is_init) at h in cc
        | inr not_init ↦ elim (Bool-cases (word == "profile")) [
          | inl is_profile ↦
              let e : word ≡ "profile" = (eq_iff word "profile").0 is_profile in
              rw e (
                classify_profile-Accepted args format rest class
                  (rw (plain, not_init, is_profile) at h))
          | inr other ↦
              let k : ok (plain_class args) ≡ ok class = rw (plain, not_init, other) at h in
              let i : plain_class args ≡ class = ground arith in
              rw (← i) (
                ordinary word rest format plain (λ q. ground (arith, eq_iff word "init"))
                  (λ q. ground (arith, eq_iff word "profile")))
        ]
      ]
    ]

-- What an accepted command line is.
pub record Cleared (args : List String) (class : CommandClass) : Type 0 where
  pub words : List String
  pub format : String
  pub scanned : Scanned args "table" words format
  pub accepted : Accepted args words format class

-- No argument of a command line that is let through asks for debugging, but as the value of `--format`. It
-- is passed on as it is, or it is a `profile` command of the grammar, in which a listing is a table, a
-- flag is given once, only the managed profile is selected, and only the managed URL and name may be
-- added; to an `add` the ones that are not given are appended.
pub classify_cli-Cleared :
    (args : List String) (class : CommandClass) → classify_cli args ≡ ok class → Cleared args class
unfolding classify_cli
classify_cli-Cleared args class h =
    let ((words, format), scanned, h1) =
      chain-eq-ok (λ s. classify_words args s) (scan_args false args "table") h in
    record {
      words = words;
      format = format;
      scanned = scan_args-Scanned false args "table" words format scanned;
      accepted = classify_words-Accepted args words format class h1;
    }
