-- ===== src/Install/Managed/Examples.antt =====
-- Managed files for tests of internal/install/install.go.
use garm_provider_orbstack.Prelude.{◌==◌, List, All, true, ◌≡◌, refl, [], ◌∷◌, none}
use garm_provider_orbstack.Error.{ok, err, message}
use garm_provider_orbstack.Platform.{Platform}
use garm_provider_orbstack.Install.Managed.{Shelf, managed_write}
use garm_provider_orbstack.Install.Managed.Check.{
  FileSpec, check_managed_files, IsWelcome, check_managed_files-IsWelcome,
}
use garm_provider_orbstack.Install.Managed.Owned.{Owned, managed_write-Owned}
use garm_provider_orbstack.Install.Managed.Recorded.{Recorded, managed_write-Recorded}

-- a digest that is the text itself
abbrev plain_platform : Platform
plain_platform = record { sha256_hex = λ s. s; parse_uuid = λ s. none }

abbrev shelf : Shelf
shelf = record {
  files = ("/etc/garm.toml", "old") ∷ ("/etc/other", "theirs") ∷ ("/etc/link", "theirs") ∷ [];
  managed = ("/etc/garm.toml", "old") ∷ [];
  unreadable = λ path. none;
  irregular = λ path. path == "/etc/link";
  calls = [];
}

upgraded : (managed_write ⦃p = plain_platform⦄ "/etc/garm.toml" "new" [] shelf).0 ≡ ok true
unfolding managed_write
upgraded = refl

foreign_file :
    (managed_write ⦃p = plain_platform⦄ "/etc/other" "new" [] shelf).0
    ≡ err (message "refusing to overwrite changed/unmanaged file")
unfolding managed_write
foreign_file = refl

managed_write-Owned_example :
    Owned ⦃p = plain_platform⦄ "/etc/garm.toml" "new" [] shelf
      (managed_write ⦃p = plain_platform⦄ "/etc/garm.toml" "new" [] shelf).1
managed_write-Owned_example =
    managed_write-Owned ⦃p = plain_platform⦄ "/etc/garm.toml" "new" [] shelf

managed_write-Recorded_example :
    Recorded ⦃p = plain_platform⦄ "/etc/garm.toml" "new"
      (managed_write ⦃p = plain_platform⦄ "/etc/garm.toml" "new" [] shelf).1
managed_write-Recorded_example =
    managed_write-Recorded ⦃p = plain_platform⦄ "/etc/garm.toml" "new" [] shelf true upgraded

abbrev wanted_files : List FileSpec
wanted_files =
    record { path = "/etc/garm.toml"; wanted = "new"; allowed = [] }
    ∷ record { path = "/etc/plist"; wanted = "job"; allowed = [] }
    ∷ []

abbrev linked_files : List FileSpec
linked_files = record { path = "/etc/link"; wanted = "new"; allowed = "theirs" ∷ [] } ∷ []

-- a link to a file with a content that is allowed passes the check, and the write refuses it
link_checked : check_managed_files ⦃p = plain_platform⦄ linked_files shelf ≡ ok tt
unfolding check_managed_files
link_checked = refl

link_refused :
    (managed_write ⦃p = plain_platform⦄ "/etc/link" "new" ("theirs" ∷ []) shelf).0
    ≡ err (message "refusing non-regular managed file")
unfolding managed_write
link_refused = refl

checked : check_managed_files ⦃p = plain_platform⦄ wanted_files shelf ≡ ok tt
unfolding check_managed_files
checked = refl

check_managed_files-IsWelcome_example : All (IsWelcome ⦃p = plain_platform⦄ shelf) wanted_files
check_managed_files-IsWelcome_example =
    check_managed_files-IsWelcome ⦃p = plain_platform⦄ wanted_files shelf checked
