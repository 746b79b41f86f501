-- ===== src/Provider/Resolve/Scope.antt =====
-- What `resolve` and `locked` of internal/provider/provider.go find: a runner of the caller's own.
use garm_provider_orbstack.Prelude.{
  String, Bool, true, false, not, ◌≡◌, ◌⊎◌, inl, inr, arith, ◌==◌, ◌||◌, ◌&&◌, List, [], ◌∷◌, All,
  some, filter, is_blank, Bool-cases, Option-cases, eq_iff,
}
use garm_provider_orbstack.Error.{Result, ok, err, sentinel, not_found}
use garm_provider_orbstack.Exec.{Exec, pure, lift, attempt, ◌>>=◌, refuse_if, raise_if}
use garm_provider_orbstack.Exec.Keeps.{bind-eq-ok}
use garm_provider_orbstack.Platform.{Platform}
use garm_provider_orbstack.Disk.{Disk, acquire, then_close}
use garm_provider_orbstack.State.Record.{Record}
use garm_provider_orbstack.State.Registry.{
  Registry, belongs, read_records, check_layout, snapshot, find_first, has_id, has_name, find_in,
  find, lock_instance, instance_lock,
}
use garm_provider_orbstack.Provider.World.{World, Provider, on_disk, closing_on_error}
use garm_provider_orbstack.Provider.Resolve.{found_or_absent, resolve, locked}

module _ ⦃platform : Platform⦄ (P : Record → Type 0) where
  find_first-All :
      (test : Record → Bool) (rs : List Record) {r : Record}
      → All P rs
      → find_first test rs ≡ some r
      → P r × (test r ≡ true)
  unfolding find_first
  find_first-All test [] all h = cc
  find_first-All test (x ∷ rest) {r} (px, all) h = elim (Bool-cases (test x)) [
    | inl passes ↦
        let e : some x ≡ some r = rw passes at h in let i : x ≡ r = cc (e) in rw (← i) (px, passes)
    | inr fails ↦ find_first-All test rest all (rw fails at h)
  ]

All-filter : (keep : Record → Bool) (rs : List Record) → All (λ r. keep r ≡ true) (filter keep rs)
unfolding filter
All-filter keep [] = tt
All-filter keep (r ∷ rest) = ground (arith, All-filter keep rest)

module _ ⦃platform : Platform⦄ where
  -- the records of a snapshot are the controller's
  pub snapshot-belongs :
      (c : String) (d : Disk) {rs : List Record}
      → (snapshot c d).0 ≡ ok rs
      → All (λ r. belongs c r ≡ true) rs
  unfolding snapshot then_close
  snapshot-belongs c d {rs} h =
      let (_, _, h1) = bind-eq-ok check_layout _ d h in
      let (_, _, h2) = bind-eq-ok (acquire "global.lock" false true true) _ (check_layout d).1 h1 in
      let (records, _, h3) =
        bind-eq-ok read_records (λ records. pure (filter (belongs c) records))
          (acquire "global.lock" false true true (check_layout d).1).1 h2 in
      let e : filter (belongs c) records ≡ rs = cc (h3) in rw (← e) (All-filter (belongs c) records)

  -- What a target may find: by its machine ID, or else by its runner name.
  abbrev pub Named : String → Record → Type 0
  Named target r = (has_id target r ≡ true) ⊎ (r.runner_name ≡ target)

  find_in-Named :
      (P : Record → Type 0) (target : String) (rs : List Record) {r : Record}
      → All P rs
      → find_in target rs ≡ ok r
      → P r × Named target r
  unfolding find_in
  find_in-Named P target rs {r} all h = elim (Option-cases (find_first (has_id target) rs)) [
    | inr (x, found) ↦
        let e : ok x ≡ ok r = rw (found, find_in) at h in
        let i : x ≡ r = cc (e) in
        let (holds, named) = find_first-All P (has_id target) rs all found in
        rw (← i) (holds, inl named)
    | inl absent ↦ elim (Option-cases (find_first (has_name target) rs)) [
      | inr (x, found) ↦
          let e : ok x ≡ ok r = rw (absent, found, find_in) at h in
          let i : x ≡ r = cc (e) in
          let (holds, named) = find_first-All P (has_name target) rs all found in
          rw (← i) (holds, inr ((eq_iff x.runner_name target).0 named))
      | inl missing ↦
          let e : err (sentinel not_found) ≡ ok r = rw (absent, missing, find_in) at h in cc (e)
    ]
  ]

  find-Named :
      (g : Registry) (target : String) (d : Disk) {r : Record}
      → (find g target d).0 ≡ ok r
      → (belongs g.controller_id r ≡ true) × Named target r
  unfolding find
  find-Named g target d h =
      let (_, _, h1) = bind-eq-ok (raise_if (target == "") (sentinel not_found)) _ d h in
      let (rs, taken, h2) =
        bind-eq-ok (snapshot g.controller_id) (λ records. lift (find_in target records))
          (raise_if (target == "") (sentinel not_found) d).1 h1 in
      find_in-Named (λ r. belongs g.controller_id r ≡ true) target rs
        (snapshot-belongs g.controller_id _ taken) h2

abbrev moved : Record → Record → Bool
moved first current =
    not (current.runner_name == first.runner_name)
    || not (current.machine_name == first.machine_name)

module _ ⦃platform : Platform⦄ (p : Provider) where
  -- A record that the invocation owns: the controller's, of the pool that the provider is bound to
  -- (unless it is bound to none), and found by the target.
  pub record IsOwn (target : String) (r : Record) : Type 0 where
    pub controller : belongs p.registry.controller_id r ≡ true
    pub pool : (p.pool_id ≡ "") ⊎ (r.pool_id ≡ p.pool_id)
    pub named : Named target r

  abbrev foreign : Record → Bool
  foreign x = not (p.pool_id == "") && not (x.pool_id == p.pool_id)

  found_or_absent-ok : (x : Result Record) {r : Record} → found_or_absent x ≡ ok r → x ≡ ok r
  found_or_absent-ok (ok r) h = h
  found_or_absent-ok (err e) h = ground arith

module _ {O : Type 0} ⦃platform : Platform⦄ (p : Provider) where
  abbrev guarded : Record → Exec (World O) Record
  guarded x = refuse_if (foreign p x) "instance belongs to another pool" >>= λ _. pure x

  in_pool :
      (r : Record) (s : World O) {a : Unit {0}}
      → (refuse_if (foreign p r) "instance belongs to another pool" s).0 ≡ ok a
      → (p.pool_id ≡ "") ⊎ (r.pool_id ≡ p.pool_id)
  in_pool r s h = ground (arith, eq_iff p.pool_id "", eq_iff r.pool_id p.pool_id)

  pub resolve-IsOwn :
      (target : String) (s : World O) {r : Record}
      → (resolve p target s).0 ≡ ok r
      → IsOwn p target r
  unfolding resolve on_disk
  resolve-IsOwn target s {r} h =
      let (_, _, h1) = bind-eq-ok (refuse_if (is_blank target) "empty instance target") _ s h in
      let t : World O = (refuse_if (is_blank target) "empty instance target" s).1 in
      let (found, looked, h2) =
        bind-eq-ok (attempt (on_disk (find p.registry target)))
          (λ found. lift (found_or_absent found) >>= λ x. guarded x) t h1 in
      let u : World O = (attempt (on_disk (find p.registry target)) t).1 in
      let (x, same, h3) = bind-eq-ok (lift (found_or_absent found)) (λ x. guarded x) u h2 in
      let (_, passed, h4) =
        bind-eq-ok (refuse_if (foreign p x) "instance belongs to another pool") (λ _. pure x) u
          h3 in
      let e : x ≡ r = cc (h4) in
      let f : (find p.registry target t.disk).0 ≡ ok x =
        cc (looked, found_or_absent-ok p found same) in
      let (own, named) = find-Named p.registry target t.disk f in
      rw (← e) (record { controller = own; pool = in_pool x u passed; named = named })

  abbrev kept : Record → Record → Exec (World O) (Record × String)
  kept first current =
      refuse_if (moved first current) "runner ownership changed during operation" >>= λ _.
      pure (current, instance_lock p.registry first.runner_name)

  abbrev again : String → Record → Exec (World O) (Record × String)
  again target first =
      closing_on_error (instance_lock p.registry first.runner_name)
        (resolve p target >>= λ current. kept first current)

  same_name :
      (first current : Record) (v : World O) {a : Unit {0}}
      → (refuse_if (moved first current) "runner ownership changed during operation" v).0 ≡ ok a
      → current.runner_name ≡ first.runner_name
  same_name first current v h = ground (arith, eq_iff current.runner_name first.runner_name)

  same_machine_name :
      (first current : Record) (v : World O) {a : Unit {0}}
      → (refuse_if (moved first current) "runner ownership changed during operation" v).0 ≡ ok a
      → current.machine_name ≡ first.machine_name
  same_machine_name first current v h =
      ground (arith, eq_iff current.machine_name first.machine_name)

  abbrev locking : Record → Bool → Exec (World O) (Unit {0})
  locking first wait = on_disk (lock_instance p.registry first.runner_name wait)

  -- How `locked` comes to its record: one is found, the lock of its runner is granted, and the target
  -- is looked up once more, in the world that the lock has left. The second record is the result, and it
  -- has the runner and the machine name of the first.
  pub record Reread (target : String) (wait : Bool) (s : World O) (r : Record) (lock : String)
      : Type 0 where
    pub first : Record
    pub found : (resolve p target s).0 ≡ ok first
    pub granted : (locking first wait (resolve p target s).1).0 ≡ ok tt
    pub again : (resolve p target (locking first wait (resolve p target s).1).1).0 ≡ ok r
    pub same_runner : r.runner_name ≡ first.runner_name
    pub same_machine : r.machine_name ≡ first.machine_name
    pub own : IsOwn p target r
    pub lock_of : lock ≡ instance_lock p.registry r.runner_name

  -- What `locked` returns is the result of a lookup made in the world that the grant of the lock has
  -- left, the lock being the one of that runner: a record that the invocation owns, with the runner name
  -- and the machine name of the record that was found before the lock was asked for.
  pub locked-IsOwn :
      (target : String) (wait : Bool) (s : World O) {r : Record} {lock : String}
      → (locked p target wait s).0 ≡ ok (r, lock)
      → Reread target wait s r lock
  unfolding locked closing_on_error
  locked-IsOwn target wait s {r} {lock} h =
      let (first, found, h1) =
        bind-eq-ok (resolve p target) (λ x. locking x wait >>= λ _. again target x) s h in
      let t : World O = (resolve p target s).1 in
      let (_, granted, h2) = bind-eq-ok (locking first wait) (λ _. again target first) t h1 in
      let u : World O = (locking first wait t).1 in
      let (current, now, h3) = bind-eq-ok (resolve p target) (λ x. kept first x) u h2 in
      let v : World O = (resolve p target u).1 in
      let (_, passed, h4) =
        bind-eq-ok (refuse_if (moved first current) "runner ownership changed during operation")
          (λ _. pure (current, instance_lock p.registry first.runner_name)) v h3 in
      let e : current ≡ r = cc (h4) in
      let l : instance_lock p.registry first.runner_name ≡ lock = cc (h4) in
      let n : current.runner_name ≡ first.runner_name = same_name first current v passed in
      let k : current.machine_name ≡ first.machine_name =
        same_machine_name first current v passed in
      record {
        first = first;
        found = found;
        granted = granted;
        again = rw (← e) now;
        same_runner = rw (← e) n;
        same_machine = rw (← e) k;
        own = rw (← e) (resolve-IsOwn target u now);
        lock_of = cc (e, l, n);
      }
