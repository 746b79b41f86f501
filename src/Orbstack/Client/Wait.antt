-- ===== src/Orbstack/Client/Wait.antt =====
-- `WaitForState` of internal/orbstack/cli.go.
use garm_provider_orbstack.Prelude.{
  ◌≢◌, ◌≤◌, ◌++◌, All, ap, refl, ℕ, zero, suc, String, true, ◌≡◌, arith, ◌==◌, List, [], ◌∷◌,
  Option, none, some, eq_iff, if◌then◌else◌, Bool-cases, inl, inr,
}
use garm_provider_orbstack.Error.{Result, ok, err, wrapped, sentinel, context_done}
use garm_provider_orbstack.Exec.{Exec, pure, raise, attempt, ◌>>=◌}
use garm_provider_orbstack.Orbstack.{Machine}
use garm_provider_orbstack.Orbstack.Client.{Orbctl, Session, list}

-- The first machine of the ID decides: the loop over the inventory breaks behind it.
unfoldable pub in_state : String → String → List Machine → Option Machine
in_state id want [] = none
in_state id want (m ∷ rest) =
    if m.id == id then (if m.state == want then some m else none) else in_state id want rest

abbrev seen_in : String → String → Result (List Machine) → Option Machine
seen_in id want (ok machines) = in_state id want machines
seen_in id want (err e) = none

module _ {S : Type 0} (orbctl : Orbctl S) (path : String) where
  abbrev seen_or : Option Machine → Exec (Session S) Machine → Exec (Session S) Machine
  seen_or (some m) next = pure m
  seen_or none next = next

  -- `WaitForState`, where the context is done after `ticks` ticks of the timer. An error of the
  -- listing counts as not seen.
  unfoldable pub wait_for_state : String → String → ℕ → Exec (Session S) Machine
  unfolding in_state
  wait_for_state id want zero = do
    listed ← attempt (list orbctl path)
    seen_or (seen_in id want listed)
        (raise (wrapped "waiting for machine to reach its state" (sentinel context_done)))
  wait_for_state id want (suc ticks) = do
    listed ← attempt (list orbctl path)
    seen_or (seen_in id want listed) (wait_for_state id want ticks)

  -- the session after so many listings
  abbrev pub polled : ℕ → Session S → Session S
  polled zero s = s
  polled (suc n) s = polled n (list orbctl path s).1

  -- the first machine of the ID in a listing, which is in the wanted state
  pub record IsFirst (id want : String) (machines : List Machine) (m : Machine) : Type 0 where
    pub before : List Machine
    pub after : List Machine
    pub listed : machines ≡ before ++ m ∷ after
    pub others : All (λ x. x.id ≢ id) before
    pub same_id : m.id ≡ id
    pub in_wanted : m.state ≡ want

  -- One of the listings, no later than the last one, has the machine.
  pub record SeenBy (id want : String) (ticks : ℕ) (s : Session S) (m : Machine) : Type 0 where
    pub round : ℕ
    pub in_time : round ≤ ticks
    pub machines : List Machine
    pub answered : (list orbctl path (polled round s)).0 ≡ ok machines
    pub first : IsFirst id want machines m

  behind :
      (id want : String) (x m : Machine) (rest : List Machine)
      → x.id ≢ id
      → IsFirst id want rest m
      → IsFirst id want (x ∷ rest) m
  behind id want x m rest other h = record {
    before = x ∷ h.before;
    after = h.after;
    listed = ap (◌∷◌ x) h.listed;
    others = (other, h.others);
    same_id = h.same_id;
    in_wanted = h.in_wanted;
  }

  in_state-IsFirst :
      (id want : String) (ms : List Machine) (m : Machine)
      → in_state id want ms ≡ some m
      → IsFirst id want ms m
  unfolding in_state
  in_state-IsFirst id want [] m h = cc
  in_state-IsFirst id want (x ∷ rest) m h = elim (Bool-cases (x.id == id)) [
    | inr other ↦
        behind id want x m rest (λ q. ground (arith, eq_iff x.id id))
          (in_state-IsFirst id want rest m (rw other at h))
    | inl same ↦
        let k : x.state == want ≡ true = ground arith in
        let e : some x ≡ some m = rw (same, k) at h in
        let i : x ≡ m = cc (e) in
        rw (← i) (record {
          before = [];
          after = rest;
          listed = refl;
          others = tt;
          same_id = (eq_iff x.id id).0 same;
          in_wanted = (eq_iff x.state want).0 k;
        })
  ]

  module _ (id want : String) (m : Machine) where
    seen_now :
        (ticks : ℕ) (s : Session S) (r : Result (List Machine))
        → (list orbctl path s).0 ≡ r
        → seen_in id want r ≡ some m
        → SeenBy id want ticks s m
    seen_now ticks s (ok ms) answered h = record {
      round = 0;
      in_time = omega arith;
      machines = ms;
      answered = answered;
      first = in_state-IsFirst id want ms m h;
    }
    seen_now ticks s (err e) answered h = cc (h)

    seen_later :
        (ticks : ℕ) (s : Session S)
        → SeenBy id want ticks (list orbctl path s).1 m
        → SeenBy id want (suc ticks) s m
    seen_later ticks s h = record {
      round = suc h.round;
      in_time = let k = h.in_time in omega arith;
      machines = h.machines;
      answered = h.answered;
      first = h.first;
    }

    first_or_later :
        (seen : Option Machine) (next : Exec (Session S) Machine) (s : Session S) (P : Type 0)
        → (seen ≡ some m → P)
        → ((next s).0 ≡ ok m → P)
        → (seen_or seen next s).0 ≡ ok m
        → P
    first_or_later (some x) next s P now later h = let e : x ≡ m = cc (h) in now (cc (e))
    first_or_later none next s P now later h = later h

    -- A machine that the wait returns is in the answer to one of its listings, the last one being made
    -- when the context is done: it is the first one there that has the ID, and it is in the wanted state.
    pub wait_for_state-lists :
        (ticks : ℕ) (s : Session S)
        → (wait_for_state id want ticks s).0 ≡ ok m
        → SeenBy id want ticks s m
    unfolding wait_for_state
    wait_for_state-lists zero s h =
        first_or_later (seen_in id want (list orbctl path s).0)
          (raise (wrapped "waiting for machine to reach its state" (sentinel context_done)))
          (list orbctl path s).1 (SeenBy id want zero s m)
          (seen_now zero s (list orbctl path s).0 refl) (λ q. cc (q)) h
    wait_for_state-lists (suc ticks) s h =
        first_or_later (seen_in id want (list orbctl path s).0) (wait_for_state id want ticks)
          (list orbctl path s).1 (SeenBy id want (suc ticks) s m)
          (seen_now (suc ticks) s (list orbctl path s).0 refl)
          (λ k. seen_later ticks s (wait_for_state-lists ticks (list orbctl path s).1 k)) h
