-- ===== src/Templates/Tail/Examples.antt =====
-- A writer of three bytes (internal/templates/builder.go, `tailWriter`).
use garm_provider_orbstack.Prelude.{◌≡◌, refl, [], ◌∷◌}
use garm_provider_orbstack.Templates.Tail.{drop, write, write_each}
use garm_provider_orbstack.Templates.Tail.Bounds.{IsTail, joined, write_each-IsTail}

last_three :
    (write_each (record { limit = 3; buf = [] }) ((1 ∷ 2 ∷ []) ∷ (3 ∷ 4 ∷ []) ∷ [])).buf
    ≡ 2 ∷ 3 ∷ 4 ∷ []
unfolding write_each write drop
last_three = refl

write_each-IsTail_example :
    IsTail 3
      (joined ((1 ∷ 2 ∷ []) ∷ (3 ∷ 4 ∷ []) ∷ []))
      (write_each (record { limit = 3; buf = [] }) ((1 ∷ 2 ∷ []) ∷ (3 ∷ 4 ∷ []) ∷ [])).buf
write_each-IsTail_example = write_each-IsTail 3 ((1 ∷ 2 ∷ []) ∷ (3 ∷ 4 ∷ []) ∷ [])
