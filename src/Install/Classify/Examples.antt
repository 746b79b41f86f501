-- ===== src/Install/Classify/Examples.antt =====
-- Runs of `classifyCLI` (internal/install/cli.go).
use garm_provider_orbstack.Prelude.{◌≡◌, refl, true, [], ◌∷◌, has_prefix, contains}
use garm_provider_orbstack.Error.{ok, err, message}
use garm_provider_orbstack.Install.Classify.{
  CommandClass, classify_cli, scan_args, classify_profile, classify_words, finish_recovery,
  recovery_action, walk_flags,
}
use garm_provider_orbstack.Install.Classify.Accepted.{Cleared, classify_cli-Cleared}

abbrev logged_in : CommandClass
logged_in = record {
  recovery = true;
  login = true;
  args =
      "profile" ∷ "add" ∷ "-u=admin" ∷ "--name" ∷ "garm-orbstack" ∷ "--url"
      ∷ "https://localhost:9997" ∷ [];
  action = "add";
}

added : classify_cli ("profile" ∷ "add" ∷ "-u=admin" ∷ []) ≡ ok logged_in
unfolding classify_cli scan_args has_prefix classify_words classify_profile recovery_action
    walk_flags contains finish_recovery
added = refl

foreign :
    classify_cli ("profile" ∷ "create" ∷ "--url" ∷ "https://example.org" ∷ [])
    ≡ err (message "recovery must use the installed controller URL")
unfolding classify_cli scan_args has_prefix classify_words classify_profile recovery_action
    walk_flags contains
foreign = refl

classify_cli-Cleared_example : Cleared ("profile" ∷ "add" ∷ "-u=admin" ∷ []) logged_in
classify_cli-Cleared_example =
    classify_cli-Cleared ("profile" ∷ "add" ∷ "-u=admin" ∷ []) logged_in added
