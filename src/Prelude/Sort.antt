-- ===== src/Prelude/Sort.antt =====
-- A stable sort by a comparison: the order of `sorted` and of `ORDER BY`.
use mathlib.Core.Path.{◌≡◌, refl, ap, ◌∙◌}
use mathlib.Core.Bool.{Bool, ◌||◌}
use mathlib.Core.List.{List, [], ◌∷◌}
use Prim.Native.Nat.{suc}
use native.Mathlib.Omega.{arith}
use mathlib.Core.Logic.{inl, inr}
use astation.Prelude.Tests.{if◌then◌else◌, Bool-cases}
use astation.Prelude.Lists.{any, length, All}

module _ {ℓ} {A : Type ℓ} where
  -- `before a b`: `a` may stand before `b`.
  unfoldable pub insert_by : (A → A → Bool) → A → List A → List A
  insert_by before a [] = a ∷ []
  insert_by before a (b ∷ l) = if before a b then a ∷ b ∷ l else b ∷ insert_by before a l

  unfoldable pub sort_by : (A → A → Bool) → List A → List A
  unfolding insert_by
  sort_by before [] = []
  sort_by before (a ∷ l) = insert_by before a (sort_by before l)

  any-insert_by :
      (p : A → Bool) (before : A → A → Bool) (a : A) (l : List A)
      → any p (insert_by before a l) ≡ p a || any p l
  unfolding insert_by
  any-insert_by p before a [] = refl
  any-insert_by p before a (b ∷ l) = ground (arith, any-insert_by p before a l)

  -- Sorting keeps what a list contains.
  pub any-sort_by :
      (p : A → Bool) (before : A → A → Bool) (l : List A) → any p (sort_by before l) ≡ any p l
  unfolding sort_by
  any-sort_by p before [] = refl
  any-sort_by p before (a ∷ l) =
      any-insert_by p before a (sort_by before l) ∙ ap (λ b. p a || b) (any-sort_by p before l)

  length-insert_by :
      (before : A → A → Bool) (a : A) (l : List A) → length (insert_by before a l) ≡ suc (length l)
  unfolding insert_by
  length-insert_by before a [] = refl
  length-insert_by before a (b ∷ l) = ground (arith, length-insert_by before a l)

  pub length-sort_by : (before : A → A → Bool) (l : List A) → length (sort_by before l) ≡ length l
  unfolding sort_by
  length-sort_by before [] = refl
  length-sort_by before (a ∷ l) =
      length-insert_by before a (sort_by before l) ∙ ap suc (length-sort_by before l)

module _ {ℓ κ} {A : Type ℓ} (P : A → Type κ) where
  insert_by-All :
      (before : A → A → Bool) (a : A) (l : List A) → P a → All P l → All P (insert_by before a l)
  unfolding insert_by
  insert_by-All before a [] p h = (p, tt)
  insert_by-All before a (b ∷ l) p h = elim (Bool-cases (before a b)) [
    | inl first ↦ rw first (p, h)
    | inr later ↦ rw later (h.0, insert_by-All before a l p h.1)
  ]

  -- Sorting keeps what holds of all elements.
  pub sort_by-All : (before : A → A → Bool) (l : List A) → All P l → All P (sort_by before l)
  unfolding sort_by
  sort_by-All before [] h = tt
  sort_by-All before (a ∷ l) h =
      insert_by-All before a (sort_by before l) h.0 (sort_by-All before l h.1)
