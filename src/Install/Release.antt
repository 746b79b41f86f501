-- ===== src/Install/Release.antt =====
-- internal/install/release.go: the checks of a release, staged or installed.
pub mod Contents
pub mod Verified
mod Examples
use Prim.Native.String.{◌++◌ as append, len}
use garm_provider_orbstack.Prelude.{
  ℕ, zero, suc, String, Bool, true, false, not, ◌==◌, ◌&&◌, ◌||◌, eqb, ltb, leb, List, [], ◌∷◌,
  ◌++◌, Option, none, some, lookup, contains, contains_any, contains_rune, split_on, trim_suffix,
  trim_prefix, has_prefix, if◌then◌else◌,
}
use garm_provider_orbstack.Error.{Error, Result, ok, err, message, external, wrapped}
use garm_provider_orbstack.Outcome.{◌>>=◌, ◌>>◌, refuse_if}
use garm_provider_orbstack.Templates.Manifest.{runner_version_matches, valid_sha256}
use garm_provider_orbstack.Templates.Recipe.{lower_hex}

abbrev pub upstream_tag : String
upstream_tag = "v0.2.1"

abbrev pub upstream_commit : String
upstream_commit = "154638445c3949c1958b01812f69d9a1e4d82684"

-- `validVersion`: `^v[0-9]+\.[0-9]+\.[0-9]+$`
unfoldable pub valid_version : String → Bool
valid_version v = has_prefix v "v" && runner_version_matches (trim_prefix v "v")

-- `executableAssets`, in the order of the source: the installed path and the name of the asset
abbrev asset_name : String → String → String → String
asset_name program version arch =
    append program (append "_" (append version (append "_darwin_" arch)))

unfoldable pub executable_assets : String → String → List (String × String)
executable_assets version arch =
    ("garm-orbstack", asset_name "garm-orbstack" version arch)
    ∷ ("providers.d/garm-provider-orbstack", asset_name "garm-provider-orbstack" version arch)
    ∷ ("garm", asset_name "garm" version arch)
    ∷ ("garm-cli", asset_name "garm-cli" version arch)
    ∷ []

-- the first `n` characters of a text, and the rest
unfoldable pub split_at : ℕ → String → String × String
split_at zero s = (String.[], s)
split_at (suc n) String.[] = (String.[], String.[])
split_at (suc n) (String.◌∷◌ c s) = let (front, back) = split_at n s in (String.◌∷◌ c front, back)

-- `filepath.Base(name) == name`
abbrev pub is_base : String → Bool
is_base name = name == "/" || not (name == "") && not (contains_rune b'/' name)

-- the mark between a digest and a name: a space, and a space or an asterisk
abbrev pub is_mark : String → Bool
is_mark mark = mark == "  " || mark == " *"

-- one line of `SHA256SUMS`; the digest and the mark are ASCII where the line is accepted
unfoldable pub parse_sum : String → Result (String × String)
unfolding split_at valid_sha256 lower_hex contains_any contains_rune
parse_sum line =
    let (digest, rest) = split_at 64 line in
    let (mark, name) = split_at 2 rest in
    (do
      refuse_if (ltb (len line) 67 || not (is_mark mark)) "malformed SHA256SUMS entry"
      refuse_if
          (not (valid_sha256 digest)
            || name == ""
            || not (is_base name)
            || contains_any (b'\\' ∷ b'\r' ∷ b'\n' ∷ b'\t' ∷ b' ' ∷ []) name)
          "invalid digest or asset filename in SHA256SUMS"
      ok (name, lower_hex digest))

-- The loop of `parseSums`, with the names met so far. The scanner takes no line of 64 KiB or more,
-- and drops a carriage return at the end of a line.
unfoldable pub parse_sum_lines : List String → List String → Result (List (String × String))
unfolding parse_sum trim_suffix contains
parse_sum_lines seen [] = ok []
parse_sum_lines seen (line ∷ rest) =
    let skipped = parse_sum_lines seen rest in
    if leb 65536 (len line)
    then err (external "bufio.Scanner: token too long")
    else if trim_suffix line "\r" == ""
    then skipped
    else (do
      entry ← parse_sum (trim_suffix line "\r")
      refuse_if (contains entry.0 seen) "duplicate checksum entry"
      others ← parse_sum_lines (entry.0 ∷ seen) rest
      ok (entry ∷ others))

-- `parseSums`
unfoldable pub parse_sums : String → Result (List (String × String))
unfolding parse_sum_lines split_on
parse_sums text = parse_sum_lines [] (split_on b'\n' text)

-- `ReleaseLock`
pub record ReleaseLock : Type 0 where
  pub version : String
  pub tag : String
  pub commit : String
  pub go_version : String
  pub cli_patch_sha256 : String

pub data EntryKind : Type 0 where
  regular_entry directory_entry other_entry : EntryKind

abbrev pub is_directory : EntryKind → Bool
is_directory directory_entry = true
is_directory _ = false

abbrev pub is_regular : EntryKind → Bool
is_regular regular_entry = true
is_regular _ = false

-- A directory with a release, as the checks see it: the digest of a regular file, the text of a file,
-- whether a path goes through a symbolic link, the entries of the directory, the paths below it, and
-- what the JSON decoder makes of the lock, with whether anything follows it.
pub record Tree : Type 0 where
  pub digest : String → Result String
  pub read : String → Result String
  pub reject_symlinks : String → Result (Unit {0})
  pub entries : Result (List (String × EntryKind))
  pub paths : Result (List (String × EntryKind))
  pub decode_lock : String → Option (ReleaseLock × Bool)

-- `verifiedRelease`, with the paths below the directory
pub record VerifiedRelease : Type 0 where
  pub lock : ReleaseLock
  pub files : List (String × String)
  pub sums : List (String × String)

-- `sums[name]`: an empty text where the name is missing
abbrev or_empty : Option String → String
or_empty none = ""
or_empty (some s) = s

unfoldable pub sum_of : String → List (String × String) → String
unfolding lookup
sum_of name sums = or_empty (lookup name sums)

module _ (tree : Tree) where
  -- `verifyDigest`
  unfoldable pub verify_digest : String → String → Result (Unit {0})
  verify_digest path expected = do
    refuse_if (expected == "") "missing checksum"
    got ← tree.digest path
    refuse_if (not (got == expected)) "checksum mismatch"

  abbrev pub placed : Bool → String × String → String
  placed true (rel, asset) = rel
  placed false (rel, asset) = asset

  -- The loop over the executables: each installed path with the path that was verified.
  unfoldable pub verify_assets :
      Bool → List (String × String) → List (String × String) → Result (List (String × String))
  unfolding verify_digest sum_of
  verify_assets installed sums [] = ok []
  verify_assets installed sums ((rel, asset) ∷ rest) = do
    tree.reject_symlinks (placed installed (rel, asset))
    verify_digest (placed installed (rel, asset)) (sum_of asset sums)
    others ← verify_assets installed sums rest
    ok ((rel, placed installed (rel, asset)) ∷ others)

  -- the loop over the entries of a staging directory
  unfoldable pub check_staged :
      List String → List (String × String) → List (String × EntryKind) → Result (Unit {0})
  unfolding verify_digest sum_of contains
  check_staged allowed sums [] = ok tt
  check_staged allowed sums ((name, kind) ∷ rest) = do
    refuse_if (not (contains name allowed) || is_directory kind) "unexpected staging entry"
    if name == "SHA256SUMS" then ok tt else verify_digest name (sum_of name sums)
    check_staged allowed sums rest

  -- the walk over an installed release
  unfoldable pub check_installed : List String → List (String × EntryKind) → Result (Unit {0})
  unfolding contains
  check_installed allowed [] = ok tt
  check_installed allowed ((rel, kind) ∷ rest) = do
    refuse_if
        (not (rel == "." || rel == "providers.d" && is_directory kind)
          && (not (contains rel allowed) || not (is_regular kind)))
        "unexpected installed release entry"
    check_installed allowed rest

  abbrev pub names_of : Bool → List (String × String) → List String
  names_of installed [] = []
  names_of installed (a ∷ rest) = placed installed a ∷ names_of installed rest

  -- the names that may stand beside the executables
  abbrev pub side_files : Bool → List String
  side_files true = "SHA256SUMS" ∷ "release-lock.json" ∷ []
  side_files false = "SHA256SUMS" ∷ "release-lock.json" ∷ "install.sh" ∷ []

  unfoldable pub check_entries :
      Bool → List (String × String) → List (String × String) → Result (Unit {0})
  unfolding check_staged check_installed
  check_entries false assets sums = do
    entries ← tree.entries
    check_staged (side_files false ++ names_of false assets) sums entries
  check_entries true assets sums = do
    paths ← tree.paths
    check_installed (side_files true ++ names_of true assets) paths

  -- `json.Decoder.Decode` of the lock, and the check that nothing follows it
  abbrev pub decoded_lock : Option (ReleaseLock × Bool) → Result ReleaseLock
  decoded_lock none = err (message "invalid release lock")
  decoded_lock (some (lock, true)) = err (message "release lock must contain one JSON object")
  decoded_lock (some (lock, false)) = ok lock

  -- whether the lock is not the one that this program was made for
  abbrev pub other_contract : String → ReleaseLock → Bool
  other_contract version lock =
      not (lock.version == version)
      || not (lock.tag == upstream_tag)
      || not (lock.commit == upstream_commit)
      || not (has_prefix lock.go_version "go1.26.")
      || not (valid_sha256 lock.cli_patch_sha256)

  unfoldable pub verify_lock : String → Result ReleaseLock
  unfolding valid_sha256 has_prefix
  verify_lock version = do
    text ← tree.read "release-lock.json"
    lock ← decoded_lock (tree.decode_lock text)
    refuse_if (other_contract version lock)
        "release lock provenance does not match the pinned release contract"
    ok lock

  -- `verifyRelease`
  unfoldable pub verify_release : String → String → Bool → Result VerifiedRelease
  unfolding valid_version executable_assets parse_sums verify_assets verify_digest sum_of
      check_entries verify_lock
  verify_release version arch installed = do
    refuse_if (not (valid_version version) || not (arch == "arm64") && not (arch == "amd64"))
        "unsupported release version or architecture"
    _ ← tree.digest "SHA256SUMS"
    text ← tree.read "SHA256SUMS"
    sums ← parse_sums text
    files ← verify_assets installed sums (executable_assets version arch)
    verify_digest "release-lock.json" (sum_of "release-lock.json" sums)
    check_entries installed (executable_assets version arch) sums
    lock ← verify_lock version
    ok (record {
      lock = lock;
      files =
          files ++ ("release-lock.json", "release-lock.json") ∷ ("SHA256SUMS", "SHA256SUMS") ∷ [];
      sums = sums;
    })
