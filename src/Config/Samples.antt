-- ===== src/Config/Samples.antt =====
-- A small codec for the tests: two texts, for two configurations.
use Prim.Native.Nat.{zero, suc}
use Prim.Native.Char.{code}
use garm_provider_orbstack.Prelude.{
  ℕ, String, Bool, true, false, ◌&&◌, ◌==◌, ◌≡◌, refl, ap, arith, ℤ, pos, negsuc, int_eq, int_eq→eq,
  eq_iff, Option, some, none, List, [], ◌∷◌, if◌then◌else◌, eqb, Bool-cases, inl, inr,
}
use garm_provider_orbstack.Error.{ok, err, message}
use garm_provider_orbstack.Samples.{plain_platform}
use garm_provider_orbstack.Config.{Image, Flavor}
use garm_provider_orbstack.Config.Store.{Codec, HostToml}
use garm_provider_orbstack.Config.Store.Reload.{HasOrder, Faithful}

-- durations written with a stroke for each nanosecond
unfoldable pub strokes : ℕ → String
strokes zero = ""
strokes (suc n) = String.◌∷◌ "i" (strokes n)

unfoldable pub count_strokes : String → ℕ
count_strokes String.[] = 0
count_strokes (String.◌∷◌ c s) = suc (count_strokes s)

abbrev pub parse_strokes : String → Option ℤ
parse_strokes String.[] = none
parse_strokes (String.◌∷◌ c s) =
    if eqb (code c) b'+' then some (pos (count_strokes s)) else some (negsuc (count_strokes s))

abbrev pub format_strokes : ℤ → String
format_strokes (pos n) = String.◌∷◌ "+" (strokes n)
format_strokes (negsuc n) = String.◌∷◌ "-" (strokes n)

count-strokes : (n : ℕ) → count_strokes (strokes n) ≡ n
unfolding count_strokes strokes
count-strokes zero = refl
count-strokes (suc n) = ap suc (count-strokes n)

abbrev pub same_image : Image → Image → Bool
same_image a b =
    a.machine_id == b.machine_id && a.manifest_path == b.manifest_path && a.arch == b.arch

abbrev pub same_flavor : Flavor → Flavor → Bool
same_flavor a b =
    int_eq a.cpus b.cpus && int_eq a.memory_mib b.memory_mib && int_eq a.disk_bytes b.disk_bytes

same_image→eq : (a b : Image) → same_image a b ≡ true → a ≡ b
same_image→eq a b h =
    let i : a.machine_id ≡ b.machine_id = ground (arith, eq_iff a.machine_id b.machine_id) in
    let j : a.manifest_path ≡ b.manifest_path =
      ground (arith, eq_iff a.manifest_path b.manifest_path) in
    let k : a.arch ≡ b.arch = ground (arith, eq_iff a.arch b.arch) in cc (i, j, k)

same_flavor→eq : (a b : Flavor) → same_flavor a b ≡ true → a ≡ b
same_flavor→eq a b h =
    let i : a.cpus ≡ b.cpus = ground (arith, int_eq→eq a.cpus b.cpus) in
    let j : a.memory_mib ≡ b.memory_mib = ground (arith, int_eq→eq a.memory_mib b.memory_mib) in
    let k : a.disk_bytes ≡ b.disk_bytes = ground (arith, int_eq→eq a.disk_bytes b.disk_bytes) in
    cc (i, j, k)

module _ {A : Type 0} (same : A → A → Bool) where
  -- whether two tables have the same entries in the same order
  unfoldable pub same_table : List (String × A) → List (String × A) → Bool
  same_table [] [] = true
  same_table ((k, a) ∷ xs) ((l, b) ∷ ys) = k == l && same a b && same_table xs ys
  same_table _ _ = false

  same_table→eq :
      ((a b : A) → same a b ≡ true → a ≡ b)
      → (xs ys : List (String × A)) → same_table xs ys ≡ true
      → xs ≡ ys
  unfolding same_table
  same_table→eq f [] [] h = refl
  same_table→eq f [] (y ∷ ys) h = cc
  same_table→eq f (x ∷ xs) [] h = cc
  same_table→eq f ((k, a) ∷ xs) ((l, b) ∷ ys) h =
      let i : k ≡ l = ground (arith, eq_iff k l) in
      let q : same a b ≡ true = ground arith in
      let j : a ≡ b = f a b q in
      let t : same_table xs ys ≡ true = ground arith in
      let r : xs ≡ ys = same_table→eq f xs ys t in cc (i, j, r)

abbrev pub same_toml : HostToml → HostToml → Bool
same_toml a b =
    a.controller_id == b.controller_id
    && a.orbctl_path == b.orbctl_path
    && a.state_dir == b.state_dir
    && int_eq a.max_instances b.max_instances
    && a.operation_timeout == b.operation_timeout
    && same_table same_image a.images b.images
    && same_table same_flavor a.flavors b.flavors

same_toml→eq : (a b : HostToml) → same_toml a b ≡ true → a ≡ b
same_toml→eq a b h =
    let i : a.controller_id ≡ b.controller_id =
      ground (arith, eq_iff a.controller_id b.controller_id) in
    let j : a.orbctl_path ≡ b.orbctl_path = ground (arith, eq_iff a.orbctl_path b.orbctl_path) in
    let k : a.state_dir ≡ b.state_dir = ground (arith, eq_iff a.state_dir b.state_dir) in
    let l : a.max_instances ≡ b.max_instances =
      ground (arith, int_eq→eq a.max_instances b.max_instances) in
    let m : a.operation_timeout ≡ b.operation_timeout =
      ground (arith, eq_iff a.operation_timeout b.operation_timeout) in
    let q : same_table same_image a.images b.images ≡ true = ground arith in
    let r : same_table same_flavor a.flavors b.flavors ≡ true = ground arith in
    let n : a.images ≡ b.images = same_table→eq same_image same_image→eq a.images b.images q in
    let o : a.flavors ≡ b.flavors =
      same_table→eq same_flavor same_flavor→eq a.flavors b.flavors r in
    cc (i, j, k, l, m, n, o)

-- the codec that knows two configurations
abbrev pub two_texts : HostToml → HostToml → Codec
two_texts before after = record {
  encode = λ t. if same_toml t after then ok "after" else err (message "unsupported");
  decode = λ text.
      if text == "after"
      then some (after, [])
      else if text == "before"
      then some (before, [])
      else none;
  parse_duration = parse_strokes;
  format_duration = format_strokes;
}

pub two_texts-Faithful :
    (before after : HostToml) → HasOrder before → HasOrder after → Faithful (two_texts before after)
two_texts-Faithful before after first last = record {
  decode-encode = λ t text order h. decode_encode t text h;
  decode-HasOrder = decoded_order;
  parse-format = parse_format;
  parse-empty = refl;
}
  where
    decoded_order :
        (text : String) (t : HostToml) (unused : List String)
        → (two_texts before after).decode text ≡ some (t, unused)
        → HasOrder t
    decoded_order text t unused h = elim (Bool-cases (text == "after")) [
      | inl second ↦
          let k : some (after, []) ≡ some (t, unused) = rw second at h in
          let i : after ≡ t = ground arith in rw (← i) last
      | inr other ↦ elim (Bool-cases (text == "before")) [
        | inl initial ↦
            let k : some (before, []) ≡ some (t, unused) = rw (other, initial) at h in
            let i : before ≡ t = ground arith in rw (← i) first
        | inr neither ↦ let k = rw (other, neither) at h in cc (k)
      ]
    ]

    decode_encode :
        (t : HostToml) (text : String)
        → (two_texts before after).encode t ≡ ok text
        → (two_texts before after).decode text ≡ some (t, [])
    decode_encode t text h = elim (Bool-cases (same_toml t after)) [
      | inl same ↦ let e : "after" ≡ text = ground arith in rw (← e, same_toml→eq t after same) refl
      | inr other ↦ ground arith
    ]

    parse_format : (d : ℤ) → parse_strokes (format_strokes d) ≡ some d
    parse_format (pos n) = ap (λ k. some (pos k)) (count-strokes n)
    parse_format (negsuc n) = ap (λ k. some (negsuc k)) (count-strokes n)
