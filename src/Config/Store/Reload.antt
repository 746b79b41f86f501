-- ===== src/Config/Store/Reload.antt =====
-- What `LoadHost` reads back after `UpdateHost` (internal/config/config.go).
use Prim.Native.String.{compare}
use text.Mathlib.Text.{is_lt}
use garm_provider_orbstack.Prelude.{
  true, All, List, ◌∷◌, Option, arith, String, ◌≡◌, refl, sym, ap, eq_iff, ◌==◌, ℤ, pos, int_eq,
  int_eq→eq, some, none, [], Bool-cases, inl, inr,
}
use garm_provider_orbstack.Error.{Result, ok, err}
use garm_provider_orbstack.Exec.Ensures.{Post}
use garm_provider_orbstack.Platform.{Platform}
use garm_provider_orbstack.Config.{Host}
use garm_provider_orbstack.Config.Validate.{validate_host}
use garm_provider_orbstack.Exec.{wrap}
use garm_provider_orbstack.Config.Store.{
  Codec, HostDir, without_unknown, timeout_of, with_timeout, HostToml, host_call, to_toml, to_host,
  host_of, load_host, update_host,
}
use garm_provider_orbstack.Config.Store.Load.{Base, loaded, absent, unexamined}
use garm_provider_orbstack.Config.Store.Update.{
  Committed, Spared, locked_text, update_host-all_or_nothing,
}

-- the keys of a map, as a list, in the order in which the TOML library writes them, each one once
abbrev pub IsAscending : {V : Type 0} → List (String × V) → Type 0
IsAscending [] = Unit {0}
IsAscending ((key, value) ∷ rest) =
    All (λ f. is_lt (compare key f.0) ≡ true) rest × IsAscending rest

abbrev pub HasOrder : HostToml → Type 0
HasOrder t = IsAscending t.images × IsAscending t.flavors

abbrev pub IsOrdered : Host → Type 0
IsOrdered h = IsAscending h.images × IsAscending h.flavors

-- What is documented of the two libraries: the encoder writes a map in the order of its keys, and a
-- decoder reads what it wrote and uses all its keys. The list that stands for a decoded map is the one in
-- that order. `time.ParseDuration` reads what `Duration.String` wrote and refuses an empty text.
pub record Faithful (codec : Codec) : Type 0 where
  pub decode-encode :
      (t : HostToml) (text : String)
      → HasOrder t
      → codec.encode t ≡ ok text
      → codec.decode text ≡ some (t, [])
  pub decode-HasOrder :
      (text : String) (t : HostToml) (unused : List String)
      → codec.decode text ≡ some (t, unused)
      → HasOrder t
  pub parse-format : (d : ℤ) → codec.parse_duration (codec.format_duration d) ≡ some d
  pub parse-empty : codec.parse_duration "" ≡ none

-- the directory where the coming system calls succeed
abbrev pub calm : HostDir → HostDir
calm d = record d { faults = [] }

module _ ⦃codec : Codec⦄ ⦃p : Platform⦄ where
  -- what a load gives that follows an update
  pub record Reloaded (update : Host → Result Host) (start after : HostDir) : Type 0 where
    pub before : Host
    pub host : Host
    pub base : Base (locked_text start) start.stat before
    pub updated : update before ≡ ok host
    pub stat : after.stat ≡ start.stat
    pub loads : load_host (calm after) ≡ (ok host, calm after)

module _ ⦃codec : Codec⦄ (laws : Faithful codec) where
  timeout_of-format : (d : ℤ) → timeout_of (codec.format_duration d) ≡ ok d
  timeout_of-format d = elim (Bool-cases (codec.format_duration d == "")) [
    | inl empty ↦
        let e : codec.format_duration d ≡ "" = (eq_iff (codec.format_duration d) "").0 empty in
        let none_found : codec.parse_duration (codec.format_duration d) ≡ none =
          rw e laws.parse-empty in
        cc (none_found, laws.parse-format d)
    | inr full ↦ rw (full, laws.parse-format d) refl
  ]

  timeout_of-to_toml :
      (h : Host) → timeout_of (to_toml h).operation_timeout ≡ ok h.operation_timeout
  unfolding to_toml
  timeout_of-to_toml h = elim (Bool-cases (int_eq h.operation_timeout (pos 0))) [
    | inl zero ↦ rw zero (ap ok (sym (int_eq→eq h.operation_timeout (pos 0) zero)))
    | inr other ↦ rw other (timeout_of-format h.operation_timeout)
  ]

  -- The TOML form of a host gives the host back.
  pub to_host-to_toml : (h : Host) → to_host (to_toml h) ≡ ok h
  unfolding to_host to_toml
  to_host-to_toml h = ap (with_timeout (to_toml h)) (timeout_of-to_toml h)

  host_of-encode :
      (h : Host) (text : String)
      → IsOrdered h
      → codec.encode (to_toml h) ≡ ok text
      → host_of text ≡ ok h
  unfolding host_of to_host to_toml
  host_of-encode h text ordered written =
      rw (laws.decode-encode (to_toml h) text ordered written, host_of)
        (ap (wrap "host config") (to_host-to_toml h))

  timeout-IsOrdered :
      (t : HostToml) (r : Result ℤ) (h : Host)
      → HasOrder t
      → wrap "host config" (with_timeout t r) ≡ ok h
      → IsOrdered h
  timeout-IsOrdered t (ok d) h order i =
      let images : t.images ≡ h.images = ground arith in
      let flavors : t.flavors ≡ h.flavors = ground arith in rw (← images) (rw (← flavors) order)
  timeout-IsOrdered t (err e) h order i = cc (i)

  -- a host that is read has its maps in order
  host_of-IsOrdered : (text : String) (h : Host) → host_of text ≡ ok h → IsOrdered h
  unfolding host_of to_host
  host_of-IsOrdered text h i = go (codec.decode text) refl i
    where
      go :
          (found : Option (HostToml × List String))
          → codec.decode text ≡ found
          → (elim (without_unknown found) [ err e ↦ err e | ok t ↦ wrap "host config" (to_host t) ])
            ≡ ok h
          → IsOrdered h
      go none f k = cc (k)
      go (some (t, [])) f k =
          timeout-IsOrdered t (timeout_of t.operation_timeout) h (laws.decode-HasOrder text t [] f)
            k
      go (some (t, key ∷ keys)) f k = cc (k)

  module _ ⦃p : Platform⦄ where
    load_host-Holding :
        (h : Host) (text : String) (d : HostDir)
        → d.text ≡ some text
        → host_of text ≡ ok h
        → validate_host d.stat h ≡ ok tt
        → load_host (calm d) ≡ (ok h, calm d)
    unfolding load_host host_call
    load_host-Holding h text d there read valid = rw (there, read, valid) refl

    Base-IsOrdered :
        (t : Option String) (stat : String → Result (Unit {0})) (h : Host)
        → Base t stat h
        → IsOrdered h
    Base-IsOrdered t stat h (loaded text h' i read valid) = host_of-IsOrdered text h read
    Base-IsOrdered t stat h (absent i) = (tt, tt)
    Base-IsOrdered t stat h (unexamined text h' e i read invalid missing) = (tt, tt)

    -- Where the libraries keep what they document, and the callback keeps the maps in the order of their
    -- keys, an update that succeeds is read back as it was made: a load finds the host that the callback
    -- has made of its base. That is the host that the file held when the lock was granted, or the zero host
    -- where there was no file or its host had a manifest that does not exist.
    pub load_host-update_host :
        (update : Host → Result Host)
        (keeps : (h after : Host) → IsOrdered h → update h ≡ ok after → IsOrdered after)
        (path : String) (start : HostDir)
        → (update_host path update start).0 ≡ ok tt
        → Reloaded update start (update_host path update start).1
    load_host-update_host update keeps path start done =
        go (update_host path update start).0 (update_host path update start).1 done
          (update_host-all_or_nothing update start path)
      where
        go :
            (r : Result (Unit {0})) (after : HostDir)
            → r ≡ ok tt
            → Post (Committed update start) (Spared update start) r after
            → Reloaded update start after
        go (err e) after i h = cc
        go (ok _) after i (text, p, (there, same)) = record {
          before = p.before;
          host = p.after;
          base = p.base;
          updated = p.updated;
          stat = same;
          loads =
              load_host-Holding p.after text after there
                (host_of-encode p.after text
                  (keeps p.before p.after
                    (Base-IsOrdered (locked_text start) start.stat p.before p.base) p.updated)
                  p.encoded)
                (rw same p.valid);
        }
