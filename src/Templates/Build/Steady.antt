-- ===== src/Templates/Build/Steady.antt =====
-- What leaves the text of the configuration alone while a template is built (internal/templates/builder.go).
use garm_provider_orbstack.Prelude.{
  String, ◌≡◌, refl, ◌∙◌, Bool-cases, inl, inr, List, [], ◌∷◌, Option, none, some,
}
use garm_provider_orbstack.Error.{Result}
use garm_provider_orbstack.Exec.{Exec, lift, ◌>>=◌, wrapping}
use garm_provider_orbstack.Exec.Keeps.{Moves, Preorder, Moves-bind, Moves-lift, Moves-pure}
use garm_provider_orbstack.Platform.{Platform}
use garm_provider_orbstack.Config.Validate.{validate_host}
use garm_provider_orbstack.Config.Store.{
  Codec, HostDir, outcome, host_call, read_file, content_of, host_of, load_host,
}
use garm_provider_orbstack.Orbstack.Client.{Session}
use garm_provider_orbstack.Templates.Manifest.{Manifest, validate_manifest}
use garm_provider_orbstack.Templates.Bench.{
  Bench, stats_of, on_host, on_session, write_manifest, link_manifest, is_absent,
}
use garm_provider_orbstack.Templates.Build.{draw_nonce}

-- the text is the same, and so is what others will do to it
abbrev pub SameFile : HostDir → HostDir → Type 0
SameFile d e = (e.text ≡ d.text) × (e.rivals ≡ d.rivals)

file_order : Preorder SameFile
file_order = record { same = λ d. (refl, refl); chain = λ h k. (k.0 ∙ h.0, k.1 ∙ h.1) }

pub Moves-host_call : Moves SameFile host_call
unfolding host_call
Moves-host_call = record { at = λ d. go d.faults d }
  where
    go : (l : List (Option String)) (d : HostDir) → SameFile d (outcome l d).1
    go [] d = (refl, refl)
    go (none ∷ rest) d = (refl, refl)
    go (some e ∷ rest) d = (refl, refl)

module _ ⦃codec : Codec⦄ ⦃p : Platform⦄ where
  pub Moves-load_host : Moves SameFile load_host
  unfolding load_host
  Moves-load_host =
      Moves-bind file_order (wrapping "reading host config" read_file) _
        (record {
          at =
              (Moves-bind file_order host_call (λ _ d. (content_of d.text, d)) Moves-host_call
                (λ _. record { at = λ d. (refl, refl) })).at;
        })
        (λ text.
          Moves-bind file_order (lift (host_of text)) _ (Moves-lift file_order (host_of text))
            (λ host.
              Moves-bind file_order (λ d. (validate_host d.stat host, d)) _
                (record { at = λ d. (refl, refl) }) (λ _. Moves-pure file_order host)))

module _ {S : Type 0} where
  abbrev pub Steady : Bench S → Bench S → Type 0
  Steady b c = SameFile b.host c.host

  pub Steady-Preorder : Preorder Steady
  Steady-Preorder = record { same = λ b. (refl, refl); chain = λ h k. (k.0 ∙ h.0, k.1 ∙ h.1) }

  pub on_host-Steady :
      {A : Type 0} (m : Exec HostDir A) → Moves SameFile m → Moves Steady (on_host m)
  unfolding on_host
  on_host-Steady m h = record { at = λ b. h.at (record b.host { stat = stats_of b.manifests }) }

  pub on_session-Steady : {A : Type 0} (m : Exec (Session S) A) → Moves Steady (on_session m)
  unfolding on_session
  on_session-Steady m = record { at = λ b. (refl, refl) }

  pub draw-Steady : Moves Steady (λ b. draw_nonce b.drawn b)
  draw-Steady = record { at = λ b. go b.drawn b }
    where
      go : (l : List (Result String)) (b : Bench S) → Steady b (draw_nonce l b).1
      go [] b = (refl, refl)
      go (r ∷ rest) b = (refl, refl)

  link_manifest-Steady : (path : String) (m : Manifest) → Moves Steady (link_manifest path m)
  unfolding link_manifest
  link_manifest-Steady path m = record {
    at = λ b. elim (Bool-cases (is_absent (b.manifests path))) [
      | inl absent ↦ rw absent (refl, refl)
      | inr there ↦ rw there (refl, refl)
    ];
  }

  pub write_manifest-Steady : (path : String) (m : Manifest) → Moves Steady (write_manifest path m)
  unfolding write_manifest
  write_manifest-Steady path m =
      Moves-bind Steady-Preorder _ _ (Moves-lift Steady-Preorder (validate_manifest m)) λ _.
        after_call (
          after_call (
            after_call (
              after_call (
                after_call (
                  after_call (
                    Moves-bind Steady-Preorder _ _ (link_manifest-Steady path m)
                      λ _. after_call (on_host-Steady host_call Moves-host_call)))))))
    where
      after_call :
          {k : Exec (Bench S) (Unit {0})}
          → Moves Steady k
          → Moves Steady (on_host host_call >>= λ _. k)
      after_call h =
          Moves-bind Steady-Preorder (on_host host_call) _
            (on_host-Steady host_call Moves-host_call) (λ _. h)

  pub chained : (b c d : Bench S) → Steady b c → Steady c d → Steady b d
  chained b c d h k = (k.0 ∙ h.0, k.1 ∙ h.1)
