-- ===== src/Prelude/Maps.antt =====
-- Go maps from texts as association lists.
use Prim.Native.String.{String}
use mathlib.Core.Option.{Option, none, some}
use mathlib.Core.List.{List, [], ◌∷◌}
use text.Mathlib.Text.{◌==◌}
use garm_provider_orbstack.Prelude.Tests.{if◌then◌else◌}

-- `v, ok := m[key]`
unfoldable pub lookup {ℓ} : {V : Type ℓ} → String → List (String × V) → Option V
lookup key [] = none
lookup key ((found, value) ∷ rest) = if found == key then some value else lookup key rest
