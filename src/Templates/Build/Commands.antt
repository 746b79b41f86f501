-- ===== src/Templates/Build/Commands.antt =====
-- The commands that `Build` of internal/templates/builder.go sends to OrbStack.
use garm_provider_orbstack.Templates.Recipe.{Toolbox, Recipe}
use garm_provider_orbstack.Prelude.{String, ◌≡◌, List, ◌∷◌}
use garm_provider_orbstack.Error.{Result, ok}
use garm_provider_orbstack.Exec.Ensures.{Ensures}
use garm_provider_orbstack.Templates.Bench.Keeps.{Moves-wrapping as Moves-wrapping_bench}
use garm_provider_orbstack.Templates.Bench.{Bench, seen_host}
use garm_provider_orbstack.Config.Store.{load_host}
use garm_provider_orbstack.Orbstack.Client.{Orbctl, Session, version}
use garm_provider_orbstack.Platform.{Platform}
use garm_provider_orbstack.Config.Store.{Codec}
use garm_provider_orbstack.Config.{Host}
use garm_provider_orbstack.Templates.Manifest.{Manifest}
use garm_provider_orbstack.Templates.Builder.{BuildOptions}
use garm_provider_orbstack.Templates.Build.Identity.{Addressed}

module _ {S : Type 0} ⦃codec : Codec⦄ ⦃p : Platform⦄ (orbctl : Orbctl S) (box : Toolbox)
    (config_path : String) (o : BuildOptions) (start : Bench S) where
  -- the configuration that the build has read
  abbrev pub Read : Host → Type 0
  Read host = (load_host (seen_host start)).0 ≡ ok host

  -- the session after OrbStack's version was asked for, the first command of a build
  abbrev pub asked_version : Host → Session S
  asked_version host = (version orbctl host.orbctl_path start.session).1

  -- What was sent since the start: nothing; the question for the version, to the program of the
  -- configuration; or then the commands about a machine that is made under a name with the random bytes
  -- of this build.
  pub data Harmless (b : Bench S) : Type 0 where
    silent : b.session ≡ start.session → Harmless b
    asked : (host : Host) → Read host → b.session ≡ asked_version host → Harmless b
    made :
        (host : Host) (nonce : String) (rest : List (Result String))
        → Read host
        → start.drawn ≡ ok nonce ∷ rest
        → Addressed orbctl host.orbctl_path o nonce (asked_version host) b.session
        → Harmless b

  abbrev Loaded : Host → Bench S → Type 0
  Loaded host b = Read host × (b.session ≡ start.session) × (b.drawn ≡ start.drawn)

  abbrev Asked : Host → Bench S → Type 0
  Asked host b = Read host × (b.session ≡ asked_version host) × (b.drawn ≡ start.drawn)

  abbrev Drawn : Host → String → Bench S → Type 0
  Drawn host nonce b =
      Read host
      × (b.session ≡ asked_version host)
      × ((rest : List (Result String)) × (start.drawn ≡ ok nonce ∷ rest))
