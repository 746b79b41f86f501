-- ===== src/Templates/Tail/Bounds.antt =====
-- The bounds of the buffer of `tailWriter` (internal/templates/builder.go).
use garm_provider_orbstack.Prelude.{
  ℕ, zero, suc, ◌+◌, ◌-◌, ◌≤◌, ◌≡◌, refl, sym, ap, ◌∙◌, ◌⊎◌, inl, inr, arith, Bool, true, false,
  List, [], ◌∷◌, ◌++◌, length, ltb, append_assoc, if◌then◌else◌,
}
use garm_provider_orbstack.Templates.Tail.{TailWriter, drop, trimmed, write, write_each}

length-append {ℓ} : {A : Type ℓ} (xs ys : List A) → length (xs ++ ys) ≡ length xs + length ys
length-append [] ys = omega arith
length-append (x ∷ xs) ys = ground (arith, length-append xs ys)

-- what is dropped and what is left
drop-split {ℓ} :
    {A : Type ℓ} (n : ℕ) (xs : List A)
    → n ≤ length xs
    → (front : List A) × (xs ≡ front ++ drop n xs) × (length (drop n xs) + n ≡ length xs)
unfolding drop
drop-split zero xs h = ([], refl, omega arith)
drop-split (suc n) [] h = ground arith
drop-split (suc n) (x ∷ xs) h =
    let (front, split, size) = drop-split n xs (omega arith) in
    (x ∷ front, ap (λ l. x ∷ l) split, omega arith)

-- `buf` is the end of all that was written: all of it, or as much as the limit allows.
pub record IsTail (limit : ℕ) (all buf : List ℕ) : Type 0 where
  pub front : List ℕ
  pub split : all ≡ front ++ buf
  pub bounded : length buf ≤ limit
  pub full : front ≡ [] ⊎ length buf ≡ limit

trimmed-IsTail :
    (limit : ℕ) (all buf p : List ℕ)
    → IsTail limit all buf
    → IsTail limit (all ++ p) (trimmed limit (buf ++ p))
trimmed-IsTail limit all buf p t = go (ltb limit (length (buf ++ p))) refl
  where
    appended : all ++ p ≡ t.front ++ (buf ++ p)
    appended = ap (λ l. l ++ p) t.split ∙ sym (append_assoc t.front buf p)

    go :
        (over : Bool)
        → ltb limit (length (buf ++ p)) ≡ over
        → IsTail limit
            (all ++ p)
            (if over then drop (length (buf ++ p) - limit) (buf ++ p) else buf ++ p)
    go true h =
        let (dropped, split, size) =
          drop-split (length (buf ++ p) - limit) (buf ++ p) (omega arith) in
        record {
          front = t.front ++ dropped;
          split = appended ∙ ap (λ l. t.front ++ l) split ∙ append_assoc t.front dropped _;
          bounded = ground arith;
          full = inr (ground arith);
        }
    go false h = record {
      front = t.front;
      split = appended;
      bounded = ground arith;
      full = elim t.full [
        | inl whole ↦ inl whole
        | inr full ↦ inr (ground (arith, length-append buf p))
      ];
    }

-- the bytes of several writes
unfoldable pub joined : List (List ℕ) → List ℕ
joined [] = []
joined (p ∷ rest) = p ++ joined rest

append-nil : (xs : List ℕ) → xs ++ [] ≡ xs
append-nil [] = refl
append-nil (x ∷ xs) = ap (λ l. x ∷ l) (append-nil xs)

continued-IsTail :
    (all : List ℕ) (t : TailWriter) (chunks : List (List ℕ))
    → IsTail t.limit all t.buf
    → IsTail t.limit (all ++ joined chunks) (write_each t chunks).buf
unfolding write_each write joined
continued-IsTail all t [] h = rw (append-nil all) h
continued-IsTail all t (p ∷ rest) h =
    rw (append_assoc all p (joined rest))
      (continued-IsTail (all ++ p) (write t p).0 rest (trimmed-IsTail t.limit all t.buf p h))

-- Whatever a command writes and in whatever pieces, the writer holds at most its limit, and what it
-- holds is the end of what was written: all of it, or exactly as many bytes as the limit.
pub write_each-IsTail :
    (limit : ℕ) (chunks : List (List ℕ))
    → IsTail limit (joined chunks) (write_each (record { limit = limit; buf = [] }) chunks).buf
write_each-IsTail limit chunks =
    continued-IsTail [] (record { limit = limit; buf = [] }) chunks
      (record { front = []; split = refl; bounded = omega arith; full = inl refl })
