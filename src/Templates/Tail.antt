-- ===== src/Templates/Tail.antt =====
-- `tailWriter` of internal/templates/builder.go: it keeps the last bytes that are written to it.
pub mod Bounds
mod Examples
use garm_provider_orbstack.Prelude.{
  ℕ, zero, suc, ◌-◌, List, [], ◌∷◌, ◌++◌, length, ltb, if◌then◌else◌,
}

-- a byte is its number
pub record TailWriter : Type 0 where
  pub limit : ℕ
  pub buf : List ℕ

-- `b[n:]`
unfoldable pub drop {ℓ} : {A : Type ℓ} → ℕ → List A → List A
drop zero xs = xs
drop (suc n) [] = []
drop (suc n) (x ∷ xs) = drop n xs

-- `t.buf = t.buf[len(t.buf)-t.limit:]` where the buffer is over the limit
abbrev pub trimmed : ℕ → List ℕ → List ℕ
trimmed limit bytes = if ltb limit (length bytes) then drop (length bytes - limit) bytes else bytes

-- `Write`; it always takes all of `p`
unfoldable pub write : TailWriter → List ℕ → TailWriter × ℕ
unfolding drop
write t p = (record t { buf = trimmed t.limit (t.buf ++ p) }, length p)

-- the writes of a command, one after another
unfoldable pub write_each : TailWriter → List (List ℕ) → TailWriter
unfolding write
write_each t [] = t
write_each t (p ∷ rest) = write_each (write t p).0 rest
