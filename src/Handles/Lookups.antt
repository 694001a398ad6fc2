-- ===== src/Handles/Lookups.antt =====
-- What the lookups of `LiveHandleCache` answer after each write, and across connections.
use astation.Prelude.{
  ℕ, String, ◌≡◌, ◌≢◌, ◌↔◌, refl, ◌⊎◌, Option, none, some, List, [], ◌∷◌, true, arith, All, keep_if,
  eqb_iff, map, any, if◌then◌else◌, ◌&&◌,
}
use astation.Prelude.Eq.{◌==◌, nat_eq, string_eq, pair_eq, option_eq, option_beq_iff, pair_beq_iff}
use astation.Prelude.Dict.{
  Dict, lookup, HasUniqueKeys, lookup-insert, lookup-insert_self, lookup-erase, lookup-tail,
}
use astation.Handles.{
  LiveHandleCache, HandleKey, max_entries, of_generation, sweep, evict_oldest, put_swept, get, put,
  bound_stored_ids_for_live, discard, stored_for_live,
}
use astation.Handles.Bounds.{IsValid, IsOf, HasGeneration, generation_seen-sweep, sweep-IsValid}

-- A second sweep for the same generation changes nothing.
sweep-sweep : (g : ℕ) (c : LiveHandleCache) → c.generation_seen ≡ some g → sweep g c ≡ c
unfolding sweep
sweep-sweep g c h = ground (arith, option_beq_iff c.generation_seen (some g))

generation_seen-put_swept :
    (g : ℕ) (k l : String) (c : LiveHandleCache)
    → (put_swept g k l c).generation_seen ≡ c.generation_seen
unfolding put_swept
generation_seen-put_swept g k l c = refl

sweep-put_swept :
    (g : ℕ) (k l : String) (c : LiveHandleCache)
    → sweep g (put_swept g k l (sweep g c)) ≡ put_swept g k l (sweep g c)
sweep-put_swept g k l c =
    sweep-sweep g (put_swept g k l (sweep g c))
      (rw generation_seen-put_swept (generation_seen-sweep g c))

key_refl : (k : HandleKey) → (k == k) ≡ true
key_refl k = (pair_beq_iff k k).1 refl

-- A handle that is put is found both ways on the same connection: `get` by the stored id, and
-- `stored_for_live` by the live handle.
pub get-put :
    (g : ℕ) (k l : String) (c : LiveHandleCache)
    → ((get (some g) k (put (some g) k l c)).0 ≡ some l)
      × ((stored_for_live (some g) l (put (some g) k l c)).0 ≡ some k)
get-put g k l c =
    unfold put get stored_for_live in
    rw sweep-put_swept (
      unfold put_swept in
      (
        lookup-insert_self (g, k) l (evict_oldest (sweep g c).handles max_entries),
        lookup-insert_self (g, l) k (evict_oldest (sweep g c).stored_by_live max_entries),
      ))

-- A put of one id leaves every other id with the handle it had on this connection, or with none.
pub get-put_ne :
    (g : ℕ) (k j l : String) (c : LiveHandleCache)
    → IsValid c
    → k ≢ j
    → let after = (get (some g) j (put (some g) k l c)).0 in
      (after ≡ (get (some g) j c).0) ⊎ (after ≡ none)
get-put_ne g k j l c v ne =
    unfold put get in
    rw sweep-put_swept (
      unfold put_swept evict_oldest in
      ground (
        arith,
        lookup-insert (g, k) (g, j) l (evict_oldest (sweep g c).handles max_entries),
        pair_beq_iff (g, k) (g, j),
        lookup-tail (g, j) (sweep g c).handles (sweep-IsValid g c v).handles_fit.unique_keys,
      ))

lookup-other_generation :
    (g h : ℕ) (k : String) (d : Dict HandleKey String)
    → All (IsOf h) d
    → g ≢ h
    → lookup (g, k) d ≡ none
lookup-other_generation g h k [] a ne = refl
lookup-other_generation g h k (x ∷ d) a ne =
    ground (arith, pair_beq_iff x.0 (g, k), lookup-other_generation g h k d a.1 ne)

lookup-of_generation_other :
    (g : ℕ) (k : String) (seen : Option ℕ) (d : Dict HandleKey String)
    → HasGeneration seen d
    → seen ≢ some g
    → lookup (g, k) (of_generation g d) ≡ none
lookup-of_generation_other g k seen [] a ne = refl
lookup-of_generation_other g k none (x ∷ d) a ne = cc a
lookup-of_generation_other g k (some h) (x ∷ d) a ne =
    ground (arith, lookup-of_generation_other g k (some h) d a.1 ne)

-- No handle outlives its connection: once the adapter shows another generation than the one seen
-- last, every lookup misses, both ways.
pub get-new_generation :
    (g : ℕ) (k l : String) (c : LiveHandleCache)
    → IsValid c
    → c.generation_seen ≢ some g
    → ((get (some g) k c).0 ≡ none) × ((stored_for_live (some g) l c).0 ≡ none)
unfolding get stored_for_live sweep
get-new_generation g k l c v ne =
    let h =
      lookup-of_generation_other g k c.generation_seen c.handles v.handles_fit.one_generation ne in
    let s =
      lookup-of_generation_other g l c.generation_seen c.stored_by_live v.stored_fit.one_generation
        ne in
    ground (arith, option_beq_iff c.generation_seen (some g))

-- After a discard the id is not found, and every other id is found as before, if the discard is on
-- the connection seen last.
pub get-discard :
    (g : ℕ) (k j : String) (c : LiveHandleCache)
    → IsValid c
    → c.generation_seen ≡ some g
    → (get (some g) j (discard (some g) k c)).0 ≡ (if k == j then none else (get (some g) j c).0)
unfolding get discard sweep
get-discard g k j c v seen = ground (
  arith,
  option_beq_iff c.generation_seen (some g),
  lookup-erase (g, k) (g, j) c.handles v.handles_fit.unique_keys,
  pair_beq_iff (g, k) (g, j),
  string_eq.beq_iff k j,
)

ids_bound_to : ℕ → String → Dict HandleKey String → List String
ids_bound_to g l d =
    map (λ (x : HandleKey × String). x.0.1) (keep_if (λ x. x.0.0 == g && x.1 == l) d)

any-ids_bound_to :
    (g : ℕ) (k l : String) (d : Dict HandleKey String)
    → HasUniqueKeys d
    → (any (λ s. s == k) (ids_bound_to g l d) ≡ true) ↔ (lookup (g, k) d ≡ some l)
unfolding ids_bound_to
any-ids_bound_to g k l [] u = ((λ h. cc), (λ h. cc))
any-ids_bound_to g k l (x ∷ d) u =
    let ih = any-ids_bound_to g k l d u.1 in
    (
      (λ h. ground (
        arith,
        ih,
        u.0,
        pair_beq_iff x.0 (g, k),
        string_eq.beq_iff x.0.1 k,
        string_eq.beq_iff x.1 l,
        eqb_iff x.0.0 g,
      )),
      (λ h. ground (
        arith,
        ih,
        u.0,
        pair_beq_iff x.0 (g, k),
        string_eq.beq_iff x.0.1 k,
        string_eq.beq_iff x.1 l,
        eqb_iff x.0.0 g,
      )),
    )

-- The ids that `bound_stored_ids_for_live` lists for a live handle are exactly those whose `get`
-- answers that handle.
pub bound_stored_ids-iff-get :
    (g : ℕ) (k l : String) (c : LiveHandleCache)
    → IsValid c
    → (any (λ s. s == k) (bound_stored_ids_for_live (some g) l c).0 ≡ true)
      ↔ ((get (some g) k c).0 ≡ some l)
unfolding get bound_stored_ids_for_live
bound_stored_ids-iff-get g k l c v =
    unfold ids_bound_to in
    any-ids_bound_to g k l (sweep g c).handles (sweep-IsValid g c v).handles_fit.unique_keys
