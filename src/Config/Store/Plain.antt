-- ===== src/Config/Store/Plain.antt =====
-- The errors that the text of a host configuration can cause (internal/config/config.go,
-- `loadHostFile` and `toHost`): none of them reports a missing file.
use garm_provider_orbstack.Prelude.{
  String, Bool, true, false, ◌≡◌, refl, Option, some, none, List, [], ◌∷◌, if◌then◌else◌, ◌==◌, ℤ,
  pos, arith,
}
use garm_provider_orbstack.Error.{Error, Result, ok, err, is, not_exist}
use garm_provider_orbstack.Exec.{wrap}
use garm_provider_orbstack.Config.Store.{
  Codec, host_of, without_unknown, seconds_of, timeout_of, with_timeout, HostToml, to_host,
}

-- an error that does not report a missing file
abbrev pub IsPlain {ℓ} : {A : Type ℓ} → Result A → Type 0
IsPlain (ok a) = Unit
IsPlain (err e) = is e not_exist ≡ false

pub plain {ℓ} :
    {A : Type ℓ} {e : Error} (r : Result A) → IsPlain r → r ≡ err e → is e not_exist ≡ false
plain (ok a) h i = cc
plain {e} (err f) h i = let j : f ≡ e = ground arith in rw (← j) h

wrap-IsPlain {ℓ} : {A : Type ℓ} (m : String) (r : Result A) → IsPlain r → IsPlain (wrap m r)
wrap-IsPlain m (ok a) h = h
wrap-IsPlain m (err e) h = h

unknown-IsPlain : (found : Option (HostToml × List String)) → IsPlain (without_unknown found)
unknown-IsPlain none = refl
unknown-IsPlain (some (t, [])) = tt
unknown-IsPlain (some (t, key ∷ keys)) = refl

seconds-IsPlain : (found : Option ℤ) → IsPlain (seconds_of found)
seconds-IsPlain none = refl
seconds-IsPlain (some d) = tt

module _ ⦃codec : Codec⦄ where
  timeout_of-IsPlain : (text : String) → IsPlain (timeout_of text)
  timeout_of-IsPlain text = go (text == "")
    where
      go : (b : Bool) → IsPlain (if b then ok (pos 0) else seconds_of (codec.parse_duration text))
      go true = tt
      go false = seconds-IsPlain (codec.parse_duration text)

  timeout-IsPlain : (t : HostToml) (r : Result ℤ) → IsPlain r → IsPlain (with_timeout t r)
  timeout-IsPlain t (ok d) h = tt
  timeout-IsPlain t (err e) h = h

  pub host_of-IsPlain : (text : String) → IsPlain (host_of text)
  unfolding host_of to_host
  host_of-IsPlain text =
      go (without_unknown (codec.decode text)) (unknown-IsPlain (codec.decode text))
    where
      go :
          (r : Result HostToml)
          → IsPlain r
          → IsPlain (elim r [ err e ↦ err e | ok t ↦ wrap "host config" (to_host t) ])
      go (err e) h = h
      go (ok toml) h = wrap-IsPlain "host config" (to_host toml) (
          timeout-IsPlain toml (timeout_of toml.operation_timeout)
            (timeout_of-IsPlain toml.operation_timeout))
