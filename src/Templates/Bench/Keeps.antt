-- ===== src/Templates/Bench/Keeps.antt =====
-- What leaves OrbStack alone (internal/templates/builder.go and manifest.go): operations on the
-- configuration and on manifests.
use garm_provider_orbstack.Prelude.{String, ◌≡◌, refl, ◌∙◌, Bool-cases, inl, inr}
use garm_provider_orbstack.Exec.{Exec, ◌>>=◌, wrapping}
use garm_provider_orbstack.Exec.Keeps.{Moves, Preorder, Moves-bind, Moves-lift}
use garm_provider_orbstack.Config.Store.{HostDir, host_call}
use garm_provider_orbstack.Templates.Manifest.{Manifest, validate_manifest}
use garm_provider_orbstack.Templates.Bench.{
  Bench, on_host, vanish, remove_manifest, write_manifest, link_manifest, is_absent,
}

module _ {S : Type 0} where
  abbrev pub SameSession : Bench S → Bench S → Type 0
  SameSession b b' = b'.session ≡ b.session

  pub SameSession-Preorder : Preorder SameSession
  SameSession-Preorder = record { same = λ _. refl; chain = λ h k. k ∙ h }

  pub Moves-on_host {ℓ} : {A : Type ℓ} (m : Exec HostDir A) → Moves SameSession (on_host m)
  unfolding on_host
  Moves-on_host m = record { at = λ b. refl }

  pub Moves-remove_manifest : (path : String) → Moves SameSession (remove_manifest path)
  unfolding remove_manifest on_host
  Moves-remove_manifest path =
      Moves-bind SameSession-Preorder (on_host host_call) (λ _. vanish path)
        (Moves-on_host host_call) (λ _. record { at = λ b. refl })

  pub Moves-wrapping :
      (m : String) (body : Exec (Bench S) (Unit {0}))
      → Moves SameSession body
      → Moves SameSession (wrapping m body)
  Moves-wrapping m body h = record { at = h.at }

  Moves-link_manifest : (path : String) (m : Manifest) → Moves SameSession (link_manifest path m)
  unfolding link_manifest
  Moves-link_manifest path m = record {
    at = λ b. elim (Bool-cases (is_absent (b.manifests path))) [
      | inl absent ↦ rw absent refl
      | inr there ↦ rw there refl
    ];
  }

  pub Moves-write_manifest :
      (path : String) (m : Manifest) → Moves SameSession (write_manifest path m)
  unfolding write_manifest
  Moves-write_manifest path m =
      Moves-bind SameSession-Preorder _ _ (Moves-lift SameSession-Preorder (validate_manifest m))
        λ _. after_call (
          after_call (
            after_call (
              after_call (
                after_call (
                  after_call (
                    Moves-bind SameSession-Preorder _ _ (Moves-link_manifest path m)
                      λ _. after_call (Moves-on_host host_call)))))))
    where
      after_call :
          {k : Exec (Bench S) (Unit {0})}
          → Moves SameSession k
          → Moves SameSession (on_host host_call >>= λ _. k)
      after_call h =
          Moves-bind SameSession-Preorder (on_host host_call) _ (Moves-on_host host_call) (λ _. h)
