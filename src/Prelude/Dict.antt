-- ===== src/Prelude/Dict.antt =====
-- Python's `dict` over keys with an equality test: an association list in insertion order.
use astation.Prelude.Eq.{Eq}
use mathlib.Core.Path.{◌≡◌, refl, subst}
use mathlib.Core.Logic.{◌⊎◌, inl, inr}
use mathlib.Core.Bool.{Bool}
use mathlib.Core.List.{List, [], ◌∷◌}
use mathlib.Core.Option.{Option, none, some}
use Prim.Native.Nat.{◌≤◌, suc}
use native.Mathlib.Omega.{arith}
use astation.Prelude.Tests.{if◌then◌else◌, Bool-cases}
use astation.Prelude.Lists.{length, All, keep_if, tail}

abbrev pub Dict {ℓ κ} : Type ℓ → Type κ → Type (ℓ ⊔ κ)
Dict K V = List (K × V)

module _ {K V : Type 0} ⦃e : Eq K⦄ where
  -- `d.get(k)`
  abbrev pub lookup : K → Dict K V → Option V
  lookup k [] = none
  lookup k (x ∷ d) = if e.beq x.0 k then some x.1 else lookup k d

  -- `d[k] = v`: a key that is there keeps its place
  abbrev pub insert : K → V → Dict K V → Dict K V
  insert k v [] = (k, v) ∷ []
  insert k v (x ∷ d) = if e.beq x.0 k then (k, v) ∷ d else x ∷ insert k v d

  -- `d.pop(k, None)`, with one entry for a key
  abbrev pub erase : K → Dict K V → Dict K V
  erase k [] = []
  erase k (x ∷ d) = if e.beq x.0 k then d else x ∷ erase k d

  -- No key is listed twice.
  abbrev pub HasUniqueKeys : Dict K V → Type 0
  HasUniqueKeys [] = Unit
  HasUniqueKeys (x ∷ d) = (lookup x.0 d ≡ none) × HasUniqueKeys d

  pub lookup-insert :
      (k j : K) (v : V) (d : Dict K V)
      → lookup j (insert k v d) ≡ (if e.beq k j then some v else lookup j d)
  lookup-insert k j v [] = refl
  lookup-insert k j v (x ∷ d) =
      ground (arith, e.beq_iff k j, e.beq_iff x.0 k, e.beq_iff x.0 j, lookup-insert k j v d)

  pub lookup-insert_self : (k : K) (v : V) (d : Dict K V) → lookup k (insert k v d) ≡ some v
  lookup-insert_self k v d = ground (arith, lookup-insert k k v d, e.beq_iff k k)

  pub lookup-erase :
      (k j : K) (d : Dict K V)
      → HasUniqueKeys d
      → lookup j (erase k d) ≡ (if e.beq k j then none else lookup j d)
  lookup-erase k j [] u = ground arith
  lookup-erase k j (x ∷ d) u =
      ground (arith, e.beq_iff k j, e.beq_iff x.0 k, e.beq_iff x.0 j, lookup-erase k j d u.1)

  pub insert-HasUniqueKeys :
      (k : K) (v : V) (d : Dict K V) → HasUniqueKeys d → HasUniqueKeys (insert k v d)
  insert-HasUniqueKeys k v [] u = (refl, tt)
  insert-HasUniqueKeys k v (x ∷ d) u = ground (
    arith,
    e.beq_iff x.0 k,
    e.beq_iff k x.0,
    lookup-insert k x.0 v d,
    insert-HasUniqueKeys k v d u.1,
  )

  pub erase-HasUniqueKeys : (k : K) (d : Dict K V) → HasUniqueKeys d → HasUniqueKeys (erase k d)
  erase-HasUniqueKeys k [] u = tt
  erase-HasUniqueKeys k (x ∷ d) u =
      ground (arith, lookup-erase k x.0 d u.1, erase-HasUniqueKeys k d u.1)

  pub length-insert : (k : K) (v : V) (d : Dict K V) → length (insert k v d) ≤ suc (length d)
  length-insert k v [] = omega arith
  length-insert k v (x ∷ d) = ground (arith, length-insert k v d)

  pub length-erase : (k : K) (d : Dict K V) → length (erase k d) ≤ length d
  length-erase k [] = omega arith
  length-erase k (x ∷ d) = ground (arith, length-erase k d)

  pub lookup-keep_if-none :
      (k : K) (p : K × V → Bool) (d : Dict K V) → lookup k d ≡ none → lookup k (keep_if p d) ≡ none
  lookup-keep_if-none k p [] h = refl
  lookup-keep_if-none k p (x ∷ d) h = ground (arith, lookup-keep_if-none k p d)

  pub keep_if-HasUniqueKeys :
      (p : K × V → Bool) (d : Dict K V) → HasUniqueKeys d → HasUniqueKeys (keep_if p d)
  keep_if-HasUniqueKeys p [] u = tt
  keep_if-HasUniqueKeys p (x ∷ d) u =
      ground (arith, lookup-keep_if-none x.0 p d u.0, keep_if-HasUniqueKeys p d u.1)

module _ {K V : Type 0} ⦃e : Eq K⦄ (P : K × V → Type 0) where
  pub insert-All : (k : K) (v : V) (d : Dict K V) → P (k, v) → All P d → All P (insert k v d)
  insert-All k v [] p h = (p, tt)
  insert-All k v (x ∷ d) p h = ground (arith, insert-All k v d p h.1)

  pub erase-All : (k : K) (d : Dict K V) → All P d → All P (erase k d)
  erase-All k [] h = tt
  erase-All k (x ∷ d) h = ground (arith, erase-All k d h.1)

module _ {K V : Type 0} ⦃e : Eq K⦄ where
  -- An entry that is found satisfies what all entries satisfy.
  pub lookup-All :
      (P : K × V → Type 0) (k : K) (d : Dict K V) {v : V} → All P d → lookup k d ≡ some v → P (k, v)
  lookup-All P k [] h f = cc
  lookup-All P k (x ∷ d) {v} h f = elim (Bool-cases (e.beq x.0 k)) [
    | inl here ↦ let p : (x.0, x.1) ≡ (k, v) = ground (arith, e.beq_iff x.0 k) in subst P p h.0
    | inr later ↦ lookup-All P k d h.1 (ground arith)
  ]

  -- Taking the oldest entry off: what is found then was found before.
  pub lookup-tail :
      (k : K) (d : Dict K V)
      → HasUniqueKeys d
      → (lookup k (tail d) ≡ lookup k d) ⊎ (lookup k (tail d) ≡ none)
  lookup-tail k [] u = inl refl
  lookup-tail k (x ∷ d) u = elim (Bool-cases (e.beq x.0 k)) [
    | inl here ↦ inr (ground (arith, e.beq_iff x.0 k))
    | inr later ↦ inl (ground arith)
  ]
