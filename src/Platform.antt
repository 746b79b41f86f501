-- ===== src/Platform.antt =====
-- What the program calls and does not implement: the digest of crypto/sha256 in hexadecimal, and
-- github.com/google/uuid's `Parse`, whose result is read as the canonical text of the identifier.
use garm_provider_orbstack.Prelude.{String, Option}

pub record Platform : Type 0 where
  pub sha256_hex : String → String
  pub parse_uuid : String → Option String
