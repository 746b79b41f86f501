-- ===== src/Install/Release/Examples.antt =====
-- A staged release for tests of internal/install/release.go.
use garm_provider_orbstack.Templates.Manifest.{runner_version_matches}
use garm_provider_orbstack.Prelude.{String, ◌≡◌, refl, false, List, [], ◌∷◌, some, trim_prefix}
use garm_provider_orbstack.Error.{ok, err, message}
use garm_provider_orbstack.Install.Release.{
  upstream_tag, upstream_commit, EntryKind, regular_entry, ReleaseLock, Tree, VerifiedRelease,
  verify_release,
}
use garm_provider_orbstack.Install.Release.Verified.{Verified, verify_release-Verified}

abbrev digest_text : String
digest_text = "0123456789abcdef0123456789abcdef0123456789abcdef0123456789abcdef"

abbrev sums_text : String
sums_text =
    "0123456789abcdef0123456789abcdef0123456789abcdef0123456789abcdef  garm-orbstack_v1.2.3_darwin_arm64\n0123456789abcdef0123456789abcdef0123456789abcdef0123456789abcdef *garm-provider-orbstack_v1.2.3_darwin_arm64\r\n\n0123456789abcdef0123456789abcdef0123456789abcdef0123456789abcdef  garm_v1.2.3_darwin_arm64\n0123456789ABCDEF0123456789abcdef0123456789abcdef0123456789abcdef  garm-cli_v1.2.3_darwin_arm64\n0123456789abcdef0123456789abcdef0123456789abcdef0123456789abcdef  release-lock.json\n"

abbrev lock : ReleaseLock
lock = record {
  version = "v1.2.3";
  tag = upstream_tag;
  commit = upstream_commit;
  go_version = "go1.26.1";
  cli_patch_sha256 = digest_text;
}

abbrev entries : List (String × EntryKind)
entries =
    ("SHA256SUMS", regular_entry)
    ∷ ("release-lock.json", regular_entry)
    ∷ ("garm_v1.2.3_darwin_arm64", regular_entry)
    ∷ []

abbrev tree_with : List (String × EntryKind) → Tree
tree_with entries = record {
  digest = λ path. ok digest_text;
  read = λ path. ok sums_text;
  reject_symlinks = λ path. ok tt;
  entries = ok entries;
  paths = ok entries;
  decode_lock = λ text. some (lock, false);
}

abbrev sums : List (String × String)
sums =
    ("garm-orbstack_v1.2.3_darwin_arm64", digest_text)
    ∷ ("garm-provider-orbstack_v1.2.3_darwin_arm64", digest_text)
    ∷ ("garm_v1.2.3_darwin_arm64", digest_text)
    ∷ ("garm-cli_v1.2.3_darwin_arm64", digest_text)
    ∷ ("release-lock.json", digest_text)
    ∷ []

abbrev release : VerifiedRelease
release = record {
  lock = lock;
  files =
      ("garm-orbstack", "garm-orbstack_v1.2.3_darwin_arm64")
      ∷ ("providers.d/garm-provider-orbstack", "garm-provider-orbstack_v1.2.3_darwin_arm64")
      ∷ ("garm", "garm_v1.2.3_darwin_arm64")
      ∷ ("garm-cli", "garm-cli_v1.2.3_darwin_arm64")
      ∷ ("release-lock.json", "release-lock.json")
      ∷ ("SHA256SUMS", "SHA256SUMS")
      ∷ [];
  sums = sums;
}

staged : verify_release (tree_with entries) "v1.2.3" "arm64" false ≡ ok release
unfolding verify_release runner_version_matches trim_prefix
staged = refl

stray_entry :
    verify_release (tree_with (("notes.txt", regular_entry) ∷ entries)) "v1.2.3" "arm64" false
    ≡ err (message "unexpected staging entry")
unfolding verify_release runner_version_matches trim_prefix
stray_entry = refl

verify_release-Verified_example : Verified (tree_with entries) "v1.2.3" "arm64" false release
verify_release-Verified_example =
    verify_release-Verified (tree_with entries) "v1.2.3" "arm64" false release staged
