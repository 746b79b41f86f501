-- ===== src/Config/Store/Load.antt =====
-- What loading the host configuration gives (internal/config/config.go, `loadHostFile`), and the host
-- that `UpdateHost` starts from.
use garm_provider_orbstack.Prelude.{
  String, Bool, true, false, ◌≡◌, refl, sym, Option, some, none, List, [], ◌∷◌, if◌then◌else◌,
}
use garm_provider_orbstack.Error.{Error, Result, ok, err, is, not_exist}
use garm_provider_orbstack.Exec.{raise, attempt, ◌>>=◌}
use garm_provider_orbstack.Exec.Ensures.{
  Post, Ensures, ensures-pure, ensures-bind, ensures-weaken, ensures-lift, ensures-attempt,
  ensures-known,
}
use garm_provider_orbstack.Platform.{Platform}
use garm_provider_orbstack.Config.{Host}
use garm_provider_orbstack.Config.Validate.{validate_host}
use garm_provider_orbstack.Exec.{wrapping, wrap}
use garm_provider_orbstack.Config.Store.{
  Codec, HostDir, outcome, host_call, host_of, load_host, zero_host, current_host, exists,
  content_of, read_file, stat_file, unless_there,
}
use garm_provider_orbstack.Config.Store.Plain.{plain, host_of-IsPlain}

-- the file holds `t`, and manifests are found as `s` says
abbrev pub Holding : Option String → (String → Result (Unit {0})) → HostDir → Type 0
Holding t s d = (d.text ≡ t) × (d.stat ≡ s)

module _ ⦃codec : Codec⦄ ⦃p : Platform⦄ where
  -- The host that an update starts from: the one that the file holds and that passes validation, or
  -- the zero host where there is no file. A file whose host has a manifest that does not exist is
  -- taken for absent if the file itself cannot be examined.
  pub data Base (t : Option String) (s : String → Result (Unit {0})) : Host → Type 0 where
    loaded :
        (text : String) (host : Host)
        → t ≡ some text
        → host_of text ≡ ok host
        → validate_host s host ≡ ok tt
        → Base t s host
    absent : t ≡ none → Base t s zero_host
    unexamined :
        (text : String) (host : Host) (e : Error)
        → t ≡ some text
        → host_of text ≡ ok host
        → validate_host s host ≡ err e
        → is e not_exist ≡ true
        → Base t s zero_host

  pub host_call-Holding :
      (t : Option String) (s : String → Result (Unit {0})) (m : String)
      → Ensures (Holding t s) (wrapping m host_call) (λ _. Holding t s) (λ _. Holding t s)
  unfolding host_call
  host_call-Holding t s m = record { at = λ d h. go d.faults d h }
    where
      go :
          (l : List (Option String)) (d : HostDir)
          → Holding t s d
          → Post
              (λ _. Holding t s)
              (λ _. Holding t s)
              (wrapping m (outcome l) d).0
              (wrapping m (outcome l) d).1
      go [] d h = h
      go (none ∷ rest) d h = h
      go (some e ∷ rest) d h = h

  module _ (t : Option String) (s : String → Result (Unit {0})) where
    abbrev pub Loaded : Host → HostDir → Type 0
    Loaded h d = Holding t s d × Base t s h

    -- what a failed load says: where it reports a missing file, an update may start from nothing
    abbrev pub Failed : Error → HostDir → Type 0
    Failed e d = Holding t s d × (is e not_exist ≡ true → Base t s zero_host)

    content-Post :
        (u : Option String) (d : HostDir)
        → u ≡ t
        → Holding t s d
        → Post
            (λ text d. Holding t s d × (t ≡ some text))
            Failed
            (wrap "reading host config" (content_of u))
            d
    content-Post none d i h = (h, λ _. absent (sym i))
    content-Post (some text) d i h = (h, sym i)

    read_file-Holding :
        Ensures
          (Holding t s)
          (wrapping "reading host config" read_file)
          (λ text d. Holding t s d × (t ≡ some text))
          Failed
    unfolding host_call
    read_file-Holding = record { at = λ d h. go d.faults d h }
      where
        go :
            (l : List (Option String)) (d : HostDir)
            → Holding t s d
            → Post
                (λ text d. Holding t s d × (t ≡ some text))
                Failed
                (wrapping "reading host config"
                  (outcome l >>= λ _. λ d. (content_of d.text, d))
                  d).0
                (wrapping "reading host config"
                  (outcome l >>= λ _. λ d. (content_of d.text, d))
                  d).1
        go [] d h = content-Post d.text d h.0 h
        go (none ∷ rest) d h = content-Post d.text (record d { faults = rest }) h.0 h
        go (some e ∷ rest) d h = (h, λ k. cc)

    validated :
        (text : String) (host : Host)
        → t ≡ some text
        → host_of text ≡ ok host
        → Ensures (Holding t s) (λ d. (validate_host d.stat host, d)) (λ _. Loaded host) Failed
    validated text host i decoded =
        ensures-weaken _
          (ensures-known (Holding t s) _ (validate_host s host) (λ d h. rw (h.1) refl))
          (λ _ d (h, valid). (h, loaded text host i decoded valid))
          (λ e d (h, invalid). (h, λ missing. unexamined text host e i decoded invalid missing))

    pub load_host-Holding : Ensures (Holding t s) load_host Loaded Failed
    unfolding load_host
    load_host-Holding = ensures-bind _ _ read_file-Holding λ text. record {
      at = λ d (h, i).
          (ensures-lift (host_of text) _
              (λ host decoded.
                ensures-bind _ _ (validated text host i decoded)
                  (λ _. ensures-pure host (λ d k. k)))
              (λ e failed d h. (
                h,
                λ missing. cc (missing, plain (host_of text) (host_of-IsPlain text) failed),
              ))).at
            d h;
    }

    stat_file-Holding : Ensures (Holding t s) stat_file (λ _. Holding t s) (λ _. Holding t s)
    unfolding host_call
    stat_file-Holding = record { at = λ d h. go d.faults d h }
      where
        there :
            (u : Option String) (d : HostDir)
            → Holding t s d
            → Post (λ _. Holding t s) (λ _. Holding t s) (exists u) d
        there none d h = h
        there (some text) d h = h

        go :
            (l : List (Option String)) (d : HostDir)
            → Holding t s d
            → Post
                (λ _. Holding t s)
                (λ _. Holding t s)
                ((outcome l >>= λ _. λ d. (exists d.text, d)) d).0
                ((outcome l >>= λ _. λ d. (exists d.text, d)) d).1
        go [] d h = there d.text d h
        go (none ∷ rest) d h = there d.text (record d { faults = rest }) h
        go (some e ∷ rest) d h = h

    abbrev pub Kept : Error → HostDir → Type 0
    Kept _ d = Holding t s d

    pub current_host-Loaded :
        (r : Result Host) (d : HostDir)
        → Post Loaded Failed r d
        → Post Loaded Kept (current_host r d).0 (current_host r d).1
    unfolding current_host
    current_host-Loaded (ok host) d h = h
    current_host-Loaded (err e) d (h, missing) = go (is e not_exist) missing
      where
        examined :
            Base t s zero_host
            → (r : Result (Unit {0})) (d : HostDir) → Post (λ _. Holding t s) (λ _. Holding t s) r d
            → Post Loaded Kept (unless_there e r d).0 (unless_there e r d).1
        examined base (ok _) d h = h
        examined base (err e) d h = (h, base)

        start :
            Base t s zero_host
            → Ensures (Holding t s) (attempt stat_file >>= unless_there e) Loaded Kept
        start base =
            ensures-bind _ (unless_there e) (ensures-attempt stat_file stat_file-Holding)
              λ r. record { at = examined base r }

        go :
            (b : Bool)
            → (b ≡ true → Base t s zero_host)
            → Post Loaded Kept
                ((if b then (attempt stat_file >>= λ there. unless_there e there) else raise e) d).0
                ((if b then (attempt stat_file >>= λ there. unless_there e there) else raise e) d).1
        go true base = (start (base refl)).at d h
        go false base = h
