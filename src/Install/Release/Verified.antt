-- ===== src/Install/Release/Verified.antt =====
-- What `verifyRelease` of internal/install/release.go accepts.
use garm_provider_orbstack.Prelude.{
  String, Bool, true, false, not, ◌≡◌, arith, ◌==◌, ◌&&◌, ◌||◌, List, [], ◌∷◌, ◌++◌, has_prefix,
  eq_iff,
}
use garm_provider_orbstack.Error.{Result, ok}
use garm_provider_orbstack.Outcome.{◌>>=◌, ◌>>◌, refuse_if, chain-eq-ok, not_refused}
use garm_provider_orbstack.Templates.Manifest.{valid_sha256}
use garm_provider_orbstack.Install.Release.{
  upstream_tag, upstream_commit, valid_version, executable_assets, parse_sums, ReleaseLock, Tree,
  VerifiedRelease, sum_of, verify_digest, verify_assets, check_entries, decoded_lock,
  other_contract, verify_lock, verify_release,
}
use garm_provider_orbstack.Install.Release.Contents.{
  Attested, verify_digest-Attested, AllAttested, verify_assets-AllAttested, HoldsOnly,
  check_entries-HoldsOnly,
}

-- the lock of the release is the one that this program was made for
pub record IsPinned (version : String) (lock : ReleaseLock) : Type 0 where
  pub same_version : lock.version ≡ version
  pub same_tag : lock.tag ≡ upstream_tag
  pub same_commit : lock.commit ≡ upstream_commit
  pub same_go : has_prefix lock.go_version "go1.26." ≡ true
  pub patched : valid_sha256 lock.cli_patch_sha256 ≡ true

other_contract-IsPinned :
    (tree : Tree) (version : String) (lock : ReleaseLock)
    → other_contract tree version lock ≡ false
    → IsPinned version lock
other_contract-IsPinned tree version lock h = record {
  same_version = ground (arith, eq_iff lock.version version);
  same_tag = ground (arith, eq_iff lock.tag upstream_tag);
  same_commit = ground (arith, eq_iff lock.commit upstream_commit);
  same_go = ground arith;
  patched = ground arith;
}

verify_lock-IsPinned :
    (tree : Tree) (version : String) (lock : ReleaseLock)
    → verify_lock tree version ≡ ok lock
    → IsPinned version lock
unfolding verify_lock
verify_lock-IsPinned tree version lock h =
    let pinned : String = "release lock provenance does not match the pinned release contract" in
    let guarded : ReleaseLock → Result ReleaseLock =
      λ l. refuse_if (other_contract tree version l) pinned >> ok l in
    let (text, _, h1) =
      chain-eq-ok (λ text. decoded_lock tree (tree.decode_lock text) >>= guarded)
        (tree.read "release-lock.json") h in
    let (l, _, h2) = chain-eq-ok guarded (decoded_lock tree (tree.decode_lock text)) h1 in
    let (_, fine, h3) =
      chain-eq-ok (λ _. ok l) (refuse_if (other_contract tree version l) pinned) h2 in
    let i : l ≡ lock = ground arith in
    rw (← i) (
      other_contract-IsPinned tree version l
        (not_refused (other_contract tree version l) pinned fine))

abbrev released : List (String × String) → List (String × String) → ReleaseLock → VerifiedRelease
released sums files lock = record {
  lock = lock;
  files = files ++ ("release-lock.json", "release-lock.json") ∷ ("SHA256SUMS", "SHA256SUMS") ∷ [];
  sums = sums;
}

-- A release with everything that `verifyRelease` promises of it: the version is well formed, the
-- checksums are those of its list, each executable and the lock have the digest listed, nothing else
-- stands in the directory, and the lock is the one this program was made for.
pub record Verified (tree : Tree) (version arch : String) (installed : Bool) (r : VerifiedRelease)
    : Type 0 where
  pub well_formed : valid_version version ≡ true
  pub text : String
  pub read : tree.read "SHA256SUMS" ≡ ok text
  pub parsed : parse_sums text ≡ ok r.sums
  pub executables : AllAttested tree r.sums installed (executable_assets version arch)
  pub locked : Attested tree r.sums "release-lock.json" "release-lock.json"
  pub closed : HoldsOnly tree installed version arch r.sums
  pub pinned : IsPinned version r.lock

-- A release that `verifyRelease` accepts, staged or installed, has a well-formed version; each of its
-- executables and its lock have the digest that its list of checksums gives for the asset; nothing
-- else stands in its directory, where a staged file has its digest listed too and an installed one
-- is a regular file; and its lock names the pinned tag, commit and toolchain.
pub verify_release-Verified :
    (tree : Tree) (version arch : String) (installed : Bool) (r : VerifiedRelease)
    → verify_release tree version arch installed ≡ ok r
    → Verified tree version arch installed r
unfolding verify_release
verify_release-Verified tree version arch installed r h =
    let assets = executable_assets version arch in
    let finish : List (String × String)
        → List (String × String)
        → ReleaseLock
        → Result VerifiedRelease =
      λ sums files lock. ok (released sums files lock) in
    let at_lock : List (String × String) → List (String × String) → Result VerifiedRelease =
      λ sums files. verify_lock tree version >>= finish sums files in
    let at_entries : List (String × String) → List (String × String) → Result VerifiedRelease =
      λ sums files. check_entries tree installed assets sums >> at_lock sums files in
    let at_digest : List (String × String) → List (String × String) → Result VerifiedRelease =
      λ sums files.
        verify_digest tree "release-lock.json" (sum_of "release-lock.json" sums)
        >> at_entries sums files in
    let at_assets : List (String × String) → Result VerifiedRelease =
      λ sums. verify_assets tree installed sums assets >>= at_digest sums in
    let at_sums : String → Result VerifiedRelease = λ text. parse_sums text >>= at_assets in
    let bad = not (valid_version version) || not (arch == "arm64") && not (arch == "amd64") in
    let m : String = "unsupported release version or architecture" in
    let (_, formed, h1) =
      chain-eq-ok (λ _. tree.digest "SHA256SUMS" >>= λ _. tree.read "SHA256SUMS" >>= at_sums)
        (refuse_if bad m) h in
    let (_, _, h2) =
      chain-eq-ok (λ _. tree.read "SHA256SUMS" >>= at_sums) (tree.digest "SHA256SUMS") h1 in
    let (text, read, h3) = chain-eq-ok at_sums (tree.read "SHA256SUMS") h2 in
    let (sums, parsed, h4) = chain-eq-ok at_assets (parse_sums text) h3 in
    let (files, attested, h5) =
      chain-eq-ok (at_digest sums) (verify_assets tree installed sums assets) h4 in
    let (_, locked, h6) =
      chain-eq-ok (λ _. at_entries sums files)
        (verify_digest tree "release-lock.json" (sum_of "release-lock.json" sums)) h5 in
    let (_, closed, h7) =
      chain-eq-ok (λ _. at_lock sums files) (check_entries tree installed assets sums) h6 in
    let (lock, pinned, h8) = chain-eq-ok (finish sums files) (verify_lock tree version) h7 in
    let i : released sums files lock ≡ r = ground arith in
    let fine : bad ≡ false = not_refused bad m formed in
    rw (← i) (record {
      well_formed = ground arith;
      text = text;
      read = read;
      parsed = parsed;
      executables = verify_assets-AllAttested tree sums installed assets files attested;
      locked = verify_digest-Attested tree sums "release-lock.json" "release-lock.json" locked;
      closed = check_entries-HoldsOnly tree installed version arch sums closed;
      pinned = verify_lock-IsPinned tree version lock pinned;
    })
