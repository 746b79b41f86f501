-- ===== src/Install/Classify.antt =====
-- `classifyCLI` of internal/install/cli.go: which arguments are given to garm-cli.
pub mod Permitted
pub mod Accepted
mod Examples
use Prim.Native.Char.{code}
use garm_provider_orbstack.Prelude.{
  ℕ, zero, suc, String, Bool, true, false, not, ◌==◌, ◌&&◌, ◌||◌, eqb, List, [], ◌∷◌, ◌++◌, Option,
  none, some, contains, has_prefix, trim_prefix, if◌then◌else◌,
}
use garm_provider_orbstack.Error.{Result, ok, err, message}
use garm_provider_orbstack.Outcome.{◌>>=◌, ◌>>◌, refuse_if}

abbrev pub profile_name : String
profile_name = "garm-orbstack"

abbrev pub controller_url : String
controller_url = "https://localhost:9997"

-- `commandClass`
pub record CommandClass : Type 0 where
  pub recovery : Bool
  pub login : Bool
  pub args : List String
  pub action : String

abbrev pub is_debug : String → Bool
is_debug arg = arg == "--debug" || has_prefix arg "--debug="

abbrev with_word : String → Result (List String × String) → Result (List String × String)
with_word word (ok (words, format)) = ok (word ∷ words, format)
with_word word (err e) = err e

-- The first loop: the words without the format options, and the format. The Boolean says whether
-- the value of `--format` comes next.
unfoldable pub scan_args : Bool → List String → String → Result (List String × String)
scan_args true [] format = err (message "--format requires a value")
scan_args true (value ∷ rest) format = scan_args false rest value
scan_args false [] format = ok ([], format)
scan_args false (arg ∷ rest) format =
    let valued = scan_args true rest format in
    let attached = scan_args false rest (trim_prefix arg "--format=") in
    let others = scan_args false rest format in
    if is_debug arg
    then err (message "debug HTTP logging is disabled to protect managed bearer tokens")
    else if arg == "--format"
    then valued
    else if has_prefix arg "--format="
    then attached
    else with_word arg others

-- `class.Action` and `class.Login` of the word after `profile`
unfoldable pub recovery_action : String → Result (String × Bool)
recovery_action word =
    if word == "add" || word == "create"
    then ok ("add", true)
    else if word == "login"
    then ok ("login", true)
    else if word == "list" || word == "ls"
    then ok ("list", false)
    else if word == "delete" || word == "remove" || word == "rm" || word == "del"
    then ok ("delete", false)
    else if word == "switch"
    then ok ("switch", false)
    else err (message "unsupported profile recovery command")

-- `strings.Cut(arg, "=")`: the text before the sign, and after it if there is one
unfoldable pub cut_equals : String → String × Option String
cut_equals String.[] = (String.[], none)
cut_equals (String.◌∷◌ c s) =
    let (key, value) = cut_equals s in
    if eqb (code c) b'=' then (String.[], some s) else (String.◌∷◌ c key, value)

-- the long name of a flag
abbrev pub long_name : String → String
long_name key =
    if key == "-n"
    then "--name"
    else if key == "-a"
    then "--url"
    else if key == "-u"
    then "--username"
    else key

-- the checks of a flag's value, by the action
unfoldable pub check_flag : String → Bool → String → String → Result (Unit {0})
check_flag action login key value =
    if key == "--username"
    then refuse_if (not login || value == "") "username applies only to recovery login"
    else (do
      refuse_if (not (action == "add")) "profile URL/name flags apply only to profile add"
      refuse_if (key == "--url" && not (value == controller_url))
          "recovery must use the installed controller URL"
      refuse_if (key == "--name" && not (value == profile_name))
          "recovery must use the managed profile name")

-- the name of a flag, where it is a supported one that has not been given before
unfoldable pub flag_name : List String → String → Result String
flag_name seen key = do
  refuse_if
      (not (long_name key == "--name")
        && not (long_name key == "--url")
        && not (long_name key == "--username"))
      "unsupported recovery flag"
  refuse_if (contains (long_name key) seen) "duplicate recovery flag"
  ok (long_name key)

-- whether a positional argument is refused, when `positionals` were there before
abbrev pub refused_name : String → ℕ → String → Bool
refused_name action positionals arg =
    not (action == "delete") && not (action == "switch")
    || not (arg == profile_name)
    || not (eqb positionals 0)

module _ (action : String) (login : Bool) where
  -- The second loop: the flags that were given, and the number of positional arguments. The flag is
  -- the one whose value comes next.
  unfoldable pub walk_flags :
      Option String → List String → List String → ℕ → Result (List String × ℕ)
  unfolding cut_equals flag_name check_flag
  walk_flags (some key) [] seen positionals = err (message "the flag requires a value")
  walk_flags (some key) (value ∷ rest) seen positionals = do
    check_flag action login key value
    walk_flags none rest seen positionals
  walk_flags none [] seen positionals = ok (seen, positionals)
  walk_flags none (arg ∷ rest) seen positionals = elim (has_prefix arg "-") [
    | false ↦
        refuse_if (refused_name action positionals arg)
          "only the managed garm-orbstack profile may be selected"
        >> walk_flags none rest seen (suc positionals)
    | true ↦ flag_name seen (cut_equals arg).0 >>= λ key. elim (cut_equals arg).1 [
      | some value ↦
          check_flag action login key value >> walk_flags none rest (key ∷ seen) positionals
      | none ↦ walk_flags (some key) rest (key ∷ seen) positionals
    ]
  ]

-- what is added to a `profile add`
abbrev pub with_defaults : List String → List String → List String
with_defaults seen args =
    (args ++ (if contains "--name" seen then [] else "--name" ∷ profile_name ∷ []))
    ++ (if contains "--url" seen then [] else "--url" ∷ controller_url ∷ [])

-- the end of `classifyCLI`
unfoldable pub finish_recovery : List String → String → Bool → List String × ℕ → Result CommandClass
finish_recovery args action login (seen, positionals) = do
  refuse_if ((action == "delete" || action == "switch") && not (eqb positionals 1))
      "specify the managed garm-orbstack profile name"
  ok (record {
    recovery = true;
    login = login;
    args = if action == "add" then with_defaults seen args else args;
    action = action;
  })

-- the commands `profile`
unfoldable pub classify_profile : List String → String → List String → Result CommandClass
classify_profile args format [] =
    err (message "specify profile add, login, list, switch, or delete")
classify_profile args format (word ∷ rest) = do
  a ← recovery_action word
  refuse_if (a.0 == "list" && not (format == "table"))
      "profile JSON output exposes bearer tokens; use table format"
  found ← walk_flags a.0 a.1 none rest [] 0
  finish_recovery args a.0 a.1 found

abbrev pub plain_class : List String → CommandClass
plain_class args = record { recovery = false; login = false; args = args; action = "" }

unfoldable pub classify_words : List String → List String × String → Result CommandClass
classify_words args ([], format) = ok (plain_class args)
classify_words args (word ∷ rest, format) =
    let profile = classify_profile args format rest in
    if has_prefix word "-"
    then err (message "unsupported global CLI option")
    else if word == "init"
    then err (message "controller init is installer-only; use profile add/login for recovery")
    else if word == "profile"
    then profile
    else ok (plain_class args)

-- `classifyCLI`
unfoldable pub classify_cli : List String → Result CommandClass
classify_cli args = do scanned ← scan_args false args "table"; classify_words args scanned
