-- ===== src/Provider/Bootstrap.antt =====
-- internal/provider/bootstrap.go: the plan of a runner's bootstrap, and its injection.
pub mod Plain
use Prim.Native.String.{◌++◌ as append, count, compare}
use text.Mathlib.Text.{is_lt}
use Prim.Native.Char.{code}
use garm_provider_orbstack.Prelude.{
  ℕ, zero, suc, ◌+◌, String, Bool, true, false, not, ◌==◌, ◌&&◌, ◌||◌, List, [], ◌∷◌, ◌++◌, Option,
  none, some, trim_space, has_prefix, all_chars, is_digit, is_lower, is_upper, leb, eqb, decimal,
  if◌then◌else◌, ltb,
}
use garm_provider_orbstack.Error.{Result, ok, err, message}
use garm_provider_orbstack.Templates.Manifest.{Manifest}
use garm_provider_orbstack.Provider.Patterns.{script_name_matches}

-- `params.RunnerApplicationDownload`, as far as it is read
pub record Tools : Type 0 where
  pub filename : String
  pub sha256_checksum : String

-- `params.BootstrapInstance`, as far as it is read. `tools` is the offer that GARM makes.
pub record BootstrapInstance : Type 0 where
  pub name : String
  pub pool_id : String
  pub os_type : String
  pub os_arch : String
  pub image : String
  pub flavor : String
  pub ssh_keys : List String
  pub extra_specs : String
  pub extra_packages : List String
  pub ca_cert_bundle : String
  pub tools : List (String × Tools)

-- a block that `pem.Decode` found: its type, its bytes and the text behind it
pub record Block : Type 0 where
  pub kind : String
  pub bytes : String
  pub rest : String

pub record GuestFile : Type 0 where
  pub name : String
  pub data_text : String
  pub mode : ℕ

-- What garm-provider-common and Go's encoders do for the plan: decode `extra_specs` into the
-- pre-install scripts, with whether anything follows (`none` where a field is unknown or the JSON is
-- bad), choose the tools, render the install script, read and write PEM, parse certificates, and
-- write a tar archive.
pub record Tooling : Type 0 where
  pub decode_specs : String → Option (List (String × String) × Bool)
  pub get_tools : String → List (String × Tools) → Option Tools
  pub render_script : BootstrapInstance → Tools → String → Option String
  pub pem_decode : String → Option Block
  pub pem_encode : Block → String
  pub parse_certificate : String → Bool
  pub tar : List GuestFile → Result String
  -- `strings.EqualFold`
  pub equal_fold : String → String → Bool

-- `bootstrapPlan`
pub record BootstrapPlan : Type 0 where
  pub files : List GuestFile
  pub remove_cache : Bool

-- every element passes
unfoldable pub every {ℓ} : {A : Type ℓ} → (A → Bool) → List A → Bool
every p [] = true
every p (x ∷ xs) = p x && every p xs

abbrev pub script_names_ok : List (String × String) → Bool
script_names_ok scripts = every (λ (s : String × String). script_name_matches s.0) scripts

abbrev pub is_empty {ℓ} : {A : Type ℓ} → List A → Bool
is_empty [] = true
is_empty (x ∷ xs) = false

-- four digits, `%04d`
abbrev four_digits : ℕ → String
four_digits n =
    append (if ltb n 1000 then "0" else "")
      (append (if ltb n 100 then "0" else "") (append (if ltb n 10 then "0" else "") (decimal n)))

abbrev begin_certificate : String
begin_certificate = "-----BEGIN CERTIFICATE-----"

abbrev pub install_line : ℕ → String
install_line n = append "install -m 0644 /run/garm/ca-" (
    append (four_digits n)
      (append ".crt /usr/local/share/ca-certificates/garm-" (append (four_digits n) ".crt\n")))

abbrev pub certificate_file : Tooling → ℕ → Block → GuestFile
certificate_file tooling n block = record {
  name = append "ca-" (append (four_digits n) ".crt");
  data_text = tooling.pem_encode block;
  mode = 0o600;
}

-- The certificates of a bundle, and the lines that install them.
abbrev pub Certificates : Type 0
Certificates = List GuestFile × String

abbrev with_certificate : GuestFile → String → Result Certificates → Result Certificates
with_certificate file line (err e) = err e
with_certificate file line (ok (files, lines)) = ok (file ∷ files, append line lines)

abbrev check_block : Tooling → Block → Result (Unit {0})
check_block tooling block =
    if not (block.kind == "CERTIFICATE")
    then err (message "invalid controller CA bundle")
    else if not (tooling.parse_certificate block.bytes)
    then err (message "invalid controller CA certificate")
    else ok tt

-- The loop over the bundle from certificate `n` on. The fuel bounds its rounds: each takes a block
-- from the text, so as many as the text has characters are enough.
unfoldable pub certificates : Tooling → ℕ → ℕ → String → Result Certificates
certificates tooling zero n bundle =
    if bundle == "" then ok ([], "") else err (message "invalid controller CA bundle")
certificates tooling (suc fuel) n bundle =
    if bundle == ""
    then ok ([], "")
    else if not (has_prefix bundle begin_certificate)
    then err (message "invalid controller CA bundle")
    else (elim (tooling.pem_decode bundle) [
      | none ↦ err (message "invalid controller CA bundle")
      | some block ↦
          let rest = certificates tooling fuel (n + 1) (trim_space block.rest) in
          (elim (check_block tooling block) [
            | err e ↦ err e
            | ok _ ↦ with_certificate (certificate_file tooling n block) (install_line n) rest
          ])
    ])

-- `sort.Strings` on the names of the scripts
unfoldable pub insert_script : String × String → List (String × String) → List (String × String)
insert_script s [] = s ∷ []
insert_script (n, t) ((m, u) ∷ rest) =
    if is_lt (compare n m) then (n, t) ∷ (m, u) ∷ rest else (m, u) ∷ insert_script (n, t) rest

unfoldable pub sort_scripts : List (String × String) → List (String × String)
unfolding insert_script
sort_scripts [] = []
sort_scripts (s ∷ rest) = insert_script s (sort_scripts rest)

abbrev script_files : List (String × String) → List GuestFile
script_files [] = []
script_files ((n, t) ∷ rest) =
    record { name = append "pre-" n; data_text = t; mode = 0o700 } ∷ script_files rest

abbrev script_lines : List (String × String) → String
script_lines [] = ""
script_lines ((n, t) ∷ rest) = append "/run/garm/pre-" (append n (append "\n" (script_lines rest)))

abbrev package_words : List String → String
package_words [] = ""
package_words (pkg ∷ rest) = append " '" (append pkg (append "'" (package_words rest)))

abbrev apt_line : List String → String
apt_line [] = ""
apt_line packages =
    append "export DEBIAN_FRONTEND=noninteractive\napt-get -o DPkg::Lock::Timeout=600 update\n" (
      append "apt-get -o DPkg::Lock::Timeout=600 install -y --no-install-recommends --"
        (append (package_words packages) "\n"))

abbrev preamble : String
preamble = "#!/bin/sh\nset -eu\numask 077\ntrap 'rm -rf /run/garm' EXIT\n"

abbrev run_line : String
run_line = "su -l -c /run/garm/runner-install.sh runner\n"

abbrev bootstrap_unit : String
bootstrap_unit =
    append
      "[Unit]\nDescription=GARM ephemeral runner bootstrap\nAfter=network-online.target docker.service\n"
      (append
        "Wants=network-online.target\n\n[Service]\nType=oneshot\nExecStart=/bin/sh /run/garm/prepare.sh\n"
        (append "ExecStopPost=/usr/bin/rm -rf /run/garm\nTimeoutStartSec=infinity\n" (
          append "StandardOutput=append:/var/log/garm-bootstrap.log\n"
            "StandardError=append:/var/log/garm-bootstrap.log\nUMask=0077\n")))

-- the text of `prepare.sh`
unfoldable pub prepare_script : Certificates → List String → List (String × String) → String
prepare_script (files, lines) packages scripts = append preamble (
    append lines (
      append (if is_empty files then "" else "update-ca-certificates\n")
        (append (apt_line packages) (append (script_lines scripts) run_line))))

-- `cacheMatches`
unfoldable pub cache_matches : Tooling → Manifest → Tools → Bool
cache_matches tooling m t =
    m.runner_filename == t.filename
    && (t.sha256_checksum == "" || tooling.equal_fold m.runner_sha256 t.sha256_checksum)

abbrev pub plan_files :
    String → Certificates → List String → List (String × String) → List GuestFile
plan_files script (files, lines) packages scripts =
    record { name = "runner-install.sh"; data_text = script; mode = 0o700 }
    ∷ (files
        ++ (script_files scripts
            ++ (record {
              name = "prepare.sh";
              data_text = prepare_script (files, lines) packages scripts;
              mode = 0o700;
            }
                ∷ record {
                  name = "garm-bootstrap.service";
                  data_text = bootstrap_unit;
                  mode = 0o600;
                }
                ∷ [])))

abbrev decode_or_refuse : Option (List (String × String) × Bool) → Result (List (String × String))
decode_or_refuse none = err (
    message
      "invalid extra_specs: only runner_install_template, extra_context and pre_install_scripts are supported")
decode_or_refuse (some (scripts, true)) = err (message "extra_specs contains trailing data")
decode_or_refuse (some (scripts, false)) = ok scripts

-- the pre-install scripts of `extra_specs`
unfoldable pub scripts_of : Tooling → String → Result (List (String × String))
scripts_of tooling specs =
    if specs == ""
    then ok []
    else if trim_space specs == "null"
    then err (message "extra_specs must be an object")
    else decode_or_refuse (tooling.decode_specs specs)

abbrev pub or_refuse {ℓ} : {A : Type ℓ} → Option A → String → Result A
or_refuse none m = err (message m)
or_refuse (some a) m = ok a
