-- ===== src/Orbstack/Client/Delete.antt =====
-- The commands that `Delete` of internal/orbstack/cli.go sends, in their order.
use Prim.Native.String.{◌++◌ as append}
use garm_provider_orbstack.Prelude.{String, false, ◌≡◌, List, [], ◌∷◌, is_blank}
use garm_provider_orbstack.Error.{ok}
use garm_provider_orbstack.Orbstack.{Machine}
use garm_provider_orbstack.Orbstack.Client.{Orbctl, Session, find_by_id, quota_key}

module _ {S : Type 0} (orbctl : Orbctl S) (path : String) (id : String) where
  abbrev pub list_command : List String
  list_command = "list" ∷ "--format" ∷ "json" ∷ []

  abbrev pub lift_quota_command : List String
  lift_quota_command = "config" ∷ "set" ∷ quota_key orbctl path id ∷ "0" ∷ []

  abbrev pub rename_command : String → List String
  rename_command fresh = "rename" ∷ id ∷ fresh ∷ []

  abbrev pub delete_command : String → List String
  delete_command fresh = "delete" ∷ "--force" ∷ fresh ∷ []

  -- a name made of eight random bytes, in hexadecimal, that were drawn after the quota was lifted
  pub record Drawn (base : List (List String)) (fresh : String) : Type 0 where
    pub at : Session S
    pub sent : at.sent ≡ lift_quota_command ∷ list_command ∷ base
    pub hex : String
    pub random : (orbctl.random_hex 8 at.backend).0 ≡ ok hex
    pub name : fresh ≡ append "garm-del" (append "-" hex)

  -- How far `Delete` came. The last command is reached only by a lookup of the ID, made after the
  -- renaming, that found the machine under the fresh name.
  pub data Progress (base : List (List String)) : List (List String) → Type 0 where
    nothing_sent : Progress base base
    looked_up : Progress base (list_command ∷ base)
    quota_lifted : Progress base (lift_quota_command ∷ list_command ∷ base)
    renamed :
        (fresh : String)
        → Drawn base fresh
        → Progress base (rename_command fresh ∷ lift_quota_command ∷ list_command ∷ base)
    looked_again :
        (fresh : String)
        → Drawn base fresh
        → Progress base
            (list_command ∷ rename_command fresh ∷ lift_quota_command ∷ list_command ∷ base)
    deleted :
        (fresh : String) (s t : Session S) (m : Machine)
        → Drawn base fresh
        → s.sent ≡ rename_command fresh ∷ lift_quota_command ∷ list_command ∷ base
        → find_by_id orbctl path id s ≡ (ok m, t)
        → m.id ≡ id
        → m.name ≡ fresh
        → Progress base (
            delete_command fresh
            ∷ list_command
            ∷ rename_command fresh
            ∷ lift_quota_command
            ∷ list_command
            ∷ base)

  abbrev SentIs : List (List String) → Session S → Type 0
  SentIs l s = s.sent ≡ l

  abbrev sent_of : Session S → List (List String)
  sent_of s = s.sent

  module _ (usable : is_blank path ≡ false) where
    module _ (base : List (List String)) where
      abbrev Went : Session S → Type 0
      Went s = Progress base s.sent

      abbrev bound_to : String → List (List String)
      bound_to fresh = rename_command fresh ∷ lift_quota_command ∷ list_command ∷ base
