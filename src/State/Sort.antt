-- ===== src/State/Sort.antt =====
-- The order in which `transaction` of internal/state/registry.go writes the records: by controller,
-- then by runner name. The keys of a valid registry are distinct, so the sorted list is unique and
-- an insertion sort stands for `sort.Slice`.
use Prim.Native.String.{compare}
use text.Mathlib.Text.{is_lt}
use mathlib.Core.List.{Perm}
use mathlib.Core.List.Perm
use garm_provider_orbstack.Prelude.{
  Bool, ◌==◌, List, [], ◌∷◌, All, if◌then◌else◌, Bool-cases, inl, inr, ◌≡◌, refl, arith, count,
}
use garm_provider_orbstack.Error.{ok}
use garm_provider_orbstack.Platform.{Platform}
use garm_provider_orbstack.State.Record.{Record}
use garm_provider_orbstack.State.Validate.{check_record}
use garm_provider_orbstack.State.Validate.Sound.{Apart, Apart-symm, IsWellFormed}

-- the comparison function given to `sort.Slice`
unfoldable pub comes_before : Record → Record → Bool
comes_before a b =
    if a.controller_id == b.controller_id
    then is_lt (compare a.runner_name b.runner_name)
    else is_lt (compare a.controller_id b.controller_id)

unfoldable pub insert_sorted : Record → List Record → List Record
insert_sorted r [] = r ∷ []
insert_sorted r (x ∷ xs) = if comes_before r x then r ∷ x ∷ xs else x ∷ insert_sorted r xs

unfoldable pub sort_records : List Record → List Record
unfolding insert_sorted
sort_records [] = []
sort_records (r ∷ rs) = insert_sorted r (sort_records rs)

module _ (P : Record → Type 0) where
  All-insert_sorted : (r : Record) (rs : List Record) → P r → All P rs → All P (insert_sorted r rs)
  unfolding insert_sorted
  All-insert_sorted r [] h k = (h, tt)
  All-insert_sorted r (x ∷ xs) h (k, ks) = ground (arith, All-insert_sorted r xs h ks)

  -- what holds of every record holds of every record of the sorted list
  pub All-sort_records : (rs : List Record) → All P rs → All P (sort_records rs)
  unfolding sort_records
  All-sort_records [] h = tt
  All-sort_records (r ∷ rs) (h, hs) =
      All-insert_sorted r (sort_records rs) h (All-sort_records rs hs)

insert_sorted-perm : (r : Record) (rs : List Record) → Perm (insert_sorted r rs) (r ∷ rs)
unfolding insert_sorted
insert_sorted-perm r [] = Perm.refl (r ∷ [])
insert_sorted-perm r (x ∷ xs) = elim (Bool-cases (comes_before r x)) [
  | inl b ↦ rw b (Perm.refl (r ∷ x ∷ xs))
  | inr b ↦ rw b (Perm.trans (Perm.cons x (insert_sorted-perm r xs)) (Perm.swap r x xs))
]

-- sorting loses and invents no record
pub sort_records-perm : (rs : List Record) → Perm (sort_records rs) rs
unfolding sort_records
sort_records-perm [] = Perm.refl []
sort_records-perm (r ∷ rs) =
    Perm.trans (insert_sorted-perm r (sort_records rs)) (Perm.cons r (sort_records-perm rs))

count-insert_sorted :
    (p : Record → Bool) (r : Record) (rs : List Record)
    → count p (insert_sorted r rs) ≡ count p (r ∷ rs)
unfolding insert_sorted count
count-insert_sorted p r [] = refl
count-insert_sorted p r (x ∷ xs) = ground (arith, count-insert_sorted p r xs)

-- sorting keeps how many records pass a test
pub count-sort_records :
    (p : Record → Bool) (rs : List Record) → count p (sort_records rs) ≡ count p rs
unfolding sort_records count
count-sort_records p [] = refl
count-sort_records p (r ∷ rs) =
    ground (arith, count-insert_sorted p r (sort_records rs), count-sort_records p rs)

module _ ⦃p : Platform⦄ where
  insert_sorted-IsWellFormed :
      (r : Record) (rs : List Record)
      → check_record r ≡ ok tt
      → All (λ s. Apart r s) rs
      → IsWellFormed rs
      → IsWellFormed (insert_sorted r rs)
  unfolding insert_sorted
  insert_sorted-IsWellFormed r [] c h w = (c, tt, tt)
  insert_sorted-IsWellFormed r (x ∷ xs) c (h, hs) (cx, ax, wx) =
      elim (Bool-cases (comes_before r x)) [
        | inl b ↦ rw b (c, (h, hs), (cx, ax, wx))
        | inr b ↦ rw b (
          cx,
          All-insert_sorted (λ s. Apart x s) r xs (Apart-symm h) ax,
          insert_sorted-IsWellFormed r xs c hs wx,
        )
      ]

  -- a valid registry is still valid after sorting
  pub sort_records-IsWellFormed :
      (rs : List Record) → IsWellFormed rs → IsWellFormed (sort_records rs)
  unfolding sort_records
  sort_records-IsWellFormed [] w = tt
  sort_records-IsWellFormed (r ∷ rs) (c, apart, w) =
      insert_sorted-IsWellFormed r (sort_records rs) c (All-sort_records (λ s. Apart r s) rs apart)
        (sort_records-IsWellFormed rs w)
