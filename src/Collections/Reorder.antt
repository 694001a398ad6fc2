-- ===== src/Collections/Reorder.antt =====
-- collection_store.py: which orders `reorder` accepts, and where the members stand then.
use astation.Prelude.{
  ℕ, suc, ◌+◌, ◌≡◌, refl, String, true, false, List, [], ◌∷◌, ◌++◌, map, if◌then◌else◌, ◌||◌, sym,
  ap, ◌∙◌, Bool, keep_if, any, All, arith, Bool-cases, inl, inr, length, ◌⊎◌, subst,
}
use astation.Prelude.Eq.{◌==◌, nat_eq, string_eq}
use astation.Prelude.Sort.{sort_by, any-sort_by, length-sort_by}
use astation.Collections.{
  CollectionArtifact, Tables, is_of, is_row, has, place, place_all, all_in, in_order, is_membership,
  member_ids, reorder,
}
use astation.Collections.Order.{ids_of, length-map}

-- The row of the artifact in the collection, if `m` is it, has this position.
abbrev pub IsAt : String → String → ℕ → CollectionArtifact → Type 0
IsAt id a position m = if is_row id a m then m.position == position ≡ true else Unit

place-IsAt :
    (id a b : String) (n p : ℕ) (m : CollectionArtifact)
    → (b == a) ≡ false
    → IsAt id a n m
    → IsAt id a n (place id b p m)
place-IsAt id a b n p m ne h = ground (
  arith,
  string_eq.beq_iff m.artifact_id a,
  string_eq.beq_iff m.artifact_id b,
  string_eq.beq_iff b a,
)

map-place-IsAt :
    (id a b : String) (n p : ℕ) (ms : List CollectionArtifact)
    → (b == a) ≡ false
    → All (IsAt id a n) ms
    → All (IsAt id a n) (map (place id b p) ms)
map-place-IsAt id a b n p [] ne h = tt
map-place-IsAt id a b n p (m ∷ ms) ne h =
    (place-IsAt id a b n p m ne h.0, map-place-IsAt id a b n p ms ne h.1)

place_all-IsAt :
    (id a : String) (n p : ℕ) (ids : List String) (ms : List CollectionArtifact)
    → has a ids ≡ false
    → All (IsAt id a n) ms
    → All (IsAt id a n) (place_all id p ids ms)
unfolding place_all
place_all-IsAt id a n p [] ms ne h = h
place_all-IsAt id a n p (b ∷ ids) ms ne h =
    place_all-IsAt id a n (suc p) ids (map (place id b p) ms) (ground arith)
      (map-place-IsAt id a b n p ms (ground arith) h)

placed-IsAt :
    (id a : String) (n : ℕ) (ms : List CollectionArtifact)
    → All (IsAt id a n) (map (place id a n) ms)
placed-IsAt id a n [] = tt
placed-IsAt id a n (m ∷ ms) = (placed m, placed-IsAt id a n ms)
  where
    placed : (m : CollectionArtifact) → IsAt id a n (place id a n m)
    placed m = ground (arith, nat_eq.beq_iff n n)

place_all-append :
    (id a : String) (p : ℕ) (xs ys : List String) (ms : List CollectionArtifact)
    → has a ys ≡ false
    → All (IsAt id a (length xs + p)) (place_all id p (xs ++ a ∷ ys) ms)
unfolding place_all
place_all-append id a p [] ys ms ne =
    let here : p ≡ 0 + p = omega arith in
    subst (λ n. All (IsAt id a n) (place_all id p (a ∷ ys) ms)) here
      (place_all-IsAt id a p (suc p) ys (map (place id a p) ms) ne (placed-IsAt id a p ms))
place_all-append id a p (x ∷ xs) ys ms ne =
    let shift : length xs + suc p ≡ suc (length xs) + p = omega arith in
    subst (λ n. All (IsAt id a n) (place_all id p (x ∷ xs ++ a ∷ ys) ms)) shift
      (place_all-append id a (suc p) xs ys (map (place id x p) ms) ne)

has-all_in :
    (s : String) (xs l : List String) → all_in xs l ≡ true → has s xs ≡ true → has s l ≡ true
has-all_in s [] l h found = cc found
has-all_in s (x ∷ xs) l h found = elim (Bool-cases (x == s)) [
  | inl same ↦ subst (λ t. has t l ≡ true) ((string_eq.beq_iff x s).0 same) (ground arith)
  | inr other ↦ has-all_in s xs l (ground arith) (ground arith)
]

all_in-has :
    (xs l : List String) → ((s : String) → has s xs ≡ true → has s l ≡ true) → all_in xs l ≡ true
all_in-has [] l h = refl
all_in-has (x ∷ xs) l h =
    let same : (x == x) ≡ true = (string_eq.beq_iff x x).1 refl in
    let head : has x l ≡ true = h x (ground arith) in
    let rest : all_in xs l ≡ true = all_in-has xs l (λ s found. h s (ground arith)) in ground arith

any-map_id :
    (s : String) (l : List CollectionArtifact)
    → has s (ids_of l) ≡ any (λ (m : CollectionArtifact). m.artifact_id == s) l
any-map_id s [] = refl
any-map_id s (m ∷ l) = ap (λ b. m.artifact_id == s || b) (any-map_id s l)

any-of :
    (id s : String) (l : List CollectionArtifact)
    → any (λ (m : CollectionArtifact). m.artifact_id == s) (keep_if (is_of id) l)
      ≡ any (is_row id s) l
any-of id s [] = refl
any-of id s (m ∷ l) = ground (arith, any-of id s l)

has-member_ids :
    (id s : String) (ms : List CollectionArtifact) → has s (member_ids id ms) ≡ any (is_row id s) ms
unfolding member_ids
has-member_ids id s ms =
    any-map_id s (sort_by in_order (keep_if (is_of id) ms))
    ∙ any-sort_by (λ (m : CollectionArtifact). m.artifact_id == s) in_order (keep_if (is_of id) ms)
    ∙ any-of id s ms

length-member_ids :
    (id : String) (ms : List CollectionArtifact)
    → length (member_ids id ms) ≡ length (keep_if (is_of id) ms)
unfolding member_ids
length-member_ids id ms =
    length-map (λ (m : CollectionArtifact). m.artifact_id)
      (sort_by in_order (keep_if (is_of id) ms))
    ∙ length-sort_by in_order (keep_if (is_of id) ms)

-- The order names the members of the collection, all of them and nothing else, and has as many places
-- as the collection has members.
pub record IsWholeOrder (id : String) (order : List String) (ms : List CollectionArtifact)
    : Type 0 where
  pub named : (s : String) → has s order ≡ any (is_row id s) ms
  pub counted : length order ≡ length (keep_if (is_of id) ms)

same_bool : (a b : Bool) → (a ≡ true → b ≡ true) → (b ≡ true → a ≡ true) → a ≡ b
same_bool true b h k = sym (h refl)
same_bool false true h k = k refl
same_bool false false h k = refl

IsWholeOrder-is_membership :
    (id : String) (order : List String) (ms : List CollectionArtifact)
    → is_membership order (member_ids id ms) ≡ true
    → IsWholeOrder id order ms
IsWholeOrder-is_membership id order ms h =
    let current = member_ids id ms in
    let there : all_in order current ≡ true = ground arith in
    let back : all_in current order ≡ true = ground arith in
    let many : length order ≡ length current = ground arith in
    record {
      named = λ s.
          same_bool (has s order) (has s current) (has-all_in s order current there)
            (has-all_in s current order back)
          ∙ has-member_ids id s ms;
      counted = many ∙ length-member_ids id ms;
    }

is_membership-IsWholeOrder :
    (id : String) (order : List String) (ms : List CollectionArtifact)
    → IsWholeOrder id order ms
    → is_membership order (member_ids id ms) ≡ true
is_membership-IsWholeOrder id order ms w =
    let current = member_ids id ms in
    let same : (s : String) → has s order ≡ has s current =
      λ s. w.named s ∙ sym (has-member_ids id s ms) in
    let there : all_in order current ≡ true = all_in-has order current (λ s h. sym (same s) ∙ h) in
    let back : all_in current order ≡ true = all_in-has current order (λ s h. same s ∙ h) in
    let many : length order ≡ length current = w.counted ∙ sym (length-member_ids id ms) in
    ground arith

pub reorder-IsAt :
    (id a : String) (xs ys : List String) (now : ℕ) (db : Tables)
    → has a ys ≡ false
    → let order = xs ++ a ∷ ys in
      let r = reorder id order now db in
      ((¬ IsWholeOrder id order db.members) × (r.0 ≡ false) × (r.1 ≡ db))
      ⊎ (IsWholeOrder id order db.members
          × (r.0 ≡ true)
          × All (IsAt id a (length xs + 1)) r.1.members)
unfolding reorder
reorder-IsAt id a xs ys now db ne =
    let order = xs ++ a ∷ ys in
    elim (Bool-cases (is_membership order (member_ids id db.members))) [
      | inl good ↦ inr (
          rw good (
            IsWholeOrder-is_membership id order db.members good,
            refl,
            place_all-append id a 1 xs ys db.members ne,
          ))
      | inr bad ↦ inl (
          rw bad
            ((λ w. let whole = is_membership-IsWholeOrder id order db.members w in cc), refl, refl))
    ]
