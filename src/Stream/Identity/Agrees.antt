-- ===== src/Stream/Identity/Agrees.antt =====
-- The resolved identity never contradicts the ids of the event, and is proved by one owner only.
use astation.Prelude.{
  ◌≡◌, ◌≢◌, refl, ap, String, Bool, true, false, Option, none, some, List, [], ◌∷◌, not, All,
  All-append, All-keep_if, keep_if, sym, arith, Bool-cases, inl, inr, ◌||◌, ◌&&◌, is_some, subst,
}
use astation.Prelude.Eq.{◌==◌, string_eq, pair_eq, pair_beq_iff}
use astation.Stream.Broadcaster.{Resolution}
use astation.Handles
use astation.Handles.{bound_stored_ids_for_live, stored_for_live}
use astation.Stream.Identity.{
  ProfileCache, Candidate, of_live, candidates_of, all_candidates, contributed, as_set, contradicts,
  only_one, resolve_shared, paired, first_pair, first_by_live, first_by_stored, resolve_owned,
  resolve_identity,
}

-- An id that the event gives is the id that is answered.
abbrev pub Keeps : Option String → Option String → Type 0
Keeps none found = Unit
Keeps (some id) found = found ≡ some id

-- A resolution with the ids of the event.
abbrev pub Agreeing : Option String → Option String → Resolution → Type 0
Agreeing stored live (Resolution.resolved s l profile) = Keeps stored s × Keeps live l
Agreeing stored live _ = Unit

-- A candidate with the live id of the event.
abbrev HasLive : Option String → Candidate → Type 0
HasLive live x = Keeps live (some x.1.1)

of_live-HasLive :
    (profile live : String) (ids : List String)
    → All (HasLive (some live)) (of_live profile live ids)
of_live-HasLive profile live [] = tt
of_live-HasLive profile live (id ∷ ids) = (refl, of_live-HasLive profile live ids)

any_live : (l : List Candidate) → All (HasLive none) l
any_live [] = tt
any_live (x ∷ l) = (tt, any_live l)

candidates_of-HasLive :
    (stored live : Option String) (c : ProfileCache)
    → All (HasLive live) (candidates_of stored live c).0
candidates_of-HasLive stored (some live) c =
    of_live-HasLive c.profile live (bound_stored_ids_for_live c.generation live c.cache).0
candidates_of-HasLive stored none c = any_live (candidates_of stored none c).0

contributed-HasLive :
    (live : Option String) (is_same : Bool) (c : ProfileCache) (r : List Candidate × ProfileCache)
    (rest : List Candidate × List ProfileCache)
    → All (HasLive live) r.0
    → All (HasLive live) rest.0
    → All (HasLive live) (contributed is_same c r rest).0
contributed-HasLive live true c r rest h k = All-append (HasLive live) r.0 rest.0 h k
contributed-HasLive live false c r rest h k = k

all_candidates-HasLive :
    (stored live : Option String) (cs : List ProfileCache)
    → All (HasLive live) (all_candidates stored live cs).0
unfolding all_candidates
all_candidates-HasLive stored live [] = tt
all_candidates-HasLive stored live (c ∷ cs) =
    contributed-HasLive live c.is_same_adapter c (candidates_of stored live c)
      (all_candidates stored live cs) (candidates_of-HasLive stored live c)
      (all_candidates-HasLive stored live cs)

as_set-All : (P : Candidate → Type 0) (l : List Candidate) → All P l → All P (as_set l)
unfolding as_set
as_set-All P [] h = tt
as_set-All P (x ∷ l) h = (h.0, All-keep_if P (λ y. not (y == x)) (as_set l) (as_set-All P l h.1))

contradicts-Keeps :
    (stored : Option String) (found : String)
    → contradicts stored found ≡ false
    → Keeps stored (some found)
contradicts-Keeps none found h = tt
contradicts-Keeps (some stored) found h = ap some (ground (arith, string_eq.beq_iff found stored))

only_one-Agreeing :
    (stored live : Option String) (l : List Candidate)
    → All (HasLive live) l
    → Agreeing stored live (only_one stored l)
only_one-Agreeing stored live [] h = tt
only_one-Agreeing stored live ((profile, (found, id)) ∷ []) h =
    elim (Bool-cases (contradicts stored found)) [
      | inl bad ↦ rw bad tt
      | inr good ↦ rw good (contradicts-Keeps stored found good, h.0)
    ]
only_one-Agreeing stored live (x ∷ y ∷ l) h = tt

paired-Agreeing :
    (profile stored live : String) (r : Option String × List ProfileCache)
    → Agreeing (some stored) (some live) (paired profile stored live r).0
paired-Agreeing profile stored live (some found, cs) = (refl, refl)
paired-Agreeing profile stored live (none, cs) = (refl, refl)

first_by_live-Agreeing :
    (profile live : String) (cs : List ProfileCache)
    → Agreeing none (some live) (first_by_live profile live cs).0
unfolding first_by_live
first_by_live-Agreeing profile live [] = (tt, refl)
first_by_live-Agreeing profile live (c ∷ cs) =
    go (stored_for_live c.generation live c.cache).0 (first_by_live-Agreeing profile live cs)
  where
    go :
        (o : Option String)
        → Agreeing none (some live) (first_by_live profile live cs).0
        → Agreeing none
            (some live)
            (elim o as (λ x. Resolution × List ProfileCache) [
              | some stored ↦ (
                Resolution.resolved (some stored) (some live) c.profile,
                record c { cache = (stored_for_live c.generation live c.cache).1 } ∷ cs,
              )
              | none ↦ (
                (first_by_live profile live cs).0,
                record c { cache = (stored_for_live c.generation live c.cache).1 }
                    ∷ (first_by_live profile live cs).1,
              )
            ]).0
    go none h = h
    go (some stored) h = (tt, refl)

first_by_stored-Agreeing :
    (profile stored : String) (cs : List ProfileCache)
    → Agreeing (some stored) none (first_by_stored profile stored cs).0
unfolding first_by_stored
first_by_stored-Agreeing profile stored [] = (refl, tt)
first_by_stored-Agreeing profile stored (c ∷ cs) =
    go (Handles.get c.generation stored c.cache).0 (first_by_stored-Agreeing profile stored cs)
  where
    go :
        (o : Option String)
        → Agreeing (some stored) none (first_by_stored profile stored cs).0
        → Agreeing
            (some stored)
            none
            (elim o as (λ x. Resolution × List ProfileCache) [
              | some live ↦ (
                Resolution.resolved (some stored) (some live) c.profile,
                record c { cache = (Handles.get c.generation stored c.cache).1 } ∷ cs,
              )
              | none ↦ (
                (first_by_stored profile stored cs).0,
                record c { cache = (Handles.get c.generation stored c.cache).1 }
                    ∷ (first_by_stored profile stored cs).1,
              )
            ]).0
    go none h = h
    go (some live) h = (refl, tt)

resolve_owned-Agreeing :
    (profile : String) (stored live : Option String) (cs : List ProfileCache)
    → Agreeing stored live (resolve_owned profile stored live cs).0
resolve_owned-Agreeing profile (some stored) (some live) cs =
    paired-Agreeing profile stored live (first_pair stored live cs)
resolve_owned-Agreeing profile none (some live) cs = first_by_live-Agreeing profile live cs
resolve_owned-Agreeing profile (some stored) none cs = first_by_stored-Agreeing profile stored cs
resolve_owned-Agreeing profile none none cs = (tt, tt)

-- Where the adapter has no resolver of its own, with or without profiles that share it and whatever
-- the caches hold: where an identity is answered, an id that the event gives is answered as it is.
pub resolve_identity-Agreeing :
    (is_shared : Bool) (profile : String) (stored live : Option String) (cs : List ProfileCache)
    → Agreeing stored live (resolve_identity none is_shared profile stored live cs).0
unfolding resolve_identity resolve_shared
resolve_identity-Agreeing is_shared profile stored live cs =
    elim (Bool-cases (is_shared && (is_some stored || is_some live))) [
      | inl shared ↦ rw shared (
          only_one-Agreeing stored live (as_set (all_candidates stored live cs).0) (
            as_set-All (HasLive live) (all_candidates stored live cs).0
              (all_candidates-HasLive stored live cs)))
      | inr owned ↦ rw owned (resolve_owned-Agreeing profile stored live cs)
    ]

-- The test of `as_set` for another candidate than `x`.
abbrev other_than : Candidate → Candidate → Bool
other_than x y = not (y == x)

keep_if-keep_if_none :
    (x z : Candidate) (l : List Candidate)
    → z ≡ x
    → keep_if (other_than x) (keep_if (other_than z) l) ≡ []
    → keep_if (other_than x) l ≡ []
keep_if-keep_if_none x z [] e h = refl
keep_if-keep_if_none x z (y ∷ l) e h =
    ground (arith, keep_if-keep_if_none x z l e, pair_beq_iff y x, pair_beq_iff y z)

All-same :
    (x : Candidate) (l : List Candidate)
    → keep_if (other_than x) (as_set l) ≡ []
    → All (λ y. y ≡ x) l
unfolding as_set
All-same x [] h = tt
All-same x (z ∷ l) h = elim (Bool-cases (z == x)) [
  | inl same ↦
      let e = (pair_beq_iff z x).0 same in
      let rest : keep_if (other_than x) (keep_if (other_than z) (as_set l)) ≡ [] = ground arith in
      (e, All-same x l (keep_if-keep_if_none x z (as_set l) e rest))
  | inr other ↦
      let bad : z ∷ keep_if (other_than x) (keep_if (other_than z) (as_set l)) ≡ [] =
        ground arith in
      cc
]

none_other :
    (x : Candidate) (l : List Candidate) → All (λ y. y ≡ x) l → keep_if (other_than x) l ≡ []
none_other x [] h = refl
none_other x (y ∷ l) h =
    let same : (y == x) ≡ true = (pair_beq_iff y x).1 h.0 in ground (arith, none_other x l h.1)

-- One candidate that does not contradict the stored id of the event, and each is it.
abbrev pub IsOnly : Option String → List Candidate → Candidate → Type 0
IsOnly stored l x = (l ≢ []) × All (λ y. y ≡ x) l × (contradicts stored x.1.0 ≡ false)

-- What an answer says of the candidates.
abbrev pub IsProved : Option String → List Candidate → Resolution → Type 0
IsProved stored l (Resolution.resolved (some found) (some live) profile) =
    IsOnly stored l (profile, (found, live))
IsProved stored l (Resolution.resolved _ _ profile) = ⊥
IsProved stored l Resolution.unbound = l ≡ []
IsProved stored l Resolution.conflicting = (l ≢ []) × ((x : Candidate) → ¬ IsOnly stored l x)
IsProved stored l Resolution.failed = ⊥

only_one-IsProved :
    (stored : Option String) (l : List Candidate) → IsProved stored l (only_one stored (as_set l))
unfolding as_set
only_one-IsProved stored [] = refl
only_one-IsProved stored (x ∷ l) = go (keep_if (other_than x) (as_set l)) refl
  where
    go :
        (rest : List Candidate)
        → rest ≡ keep_if (other_than x) (as_set l)
        → IsProved stored (x ∷ l) (only_one stored (x ∷ rest))
    go [] e = elim (Bool-cases (contradicts stored x.1.0)) [
      | inl bad ↦ rw bad (
        (λ p. cc),
        λ y only.
            let agrees = subst (λ z. contradicts stored z.1.0 ≡ false) (sym only.1.0) only.2 in cc,
      )
      | inr good ↦ rw good ((λ p. cc), (refl, All-same x l (sym e)), good)
    ]
    go (y ∷ rest) e = (
      (λ p. cc),
      λ z only.
          let same : All (λ c. c ≡ x) l = subst (λ c. All (λ d. d ≡ c) l) (sym only.1.0) only.1.1 in
          let nothing = none_other x (as_set l) (as_set-All (λ c. c ≡ x) l same) in cc,
    )

pub resolve_identity-IsProved :
    (profile : String) (stored live : Option String) (cs : List ProfileCache)
    → is_some stored || is_some live ≡ true
    → IsProved stored
        (all_candidates stored live cs).0
        (resolve_identity none true profile stored live cs).0
unfolding resolve_identity resolve_shared
resolve_identity-IsProved profile stored live cs given =
    rw given (only_one-IsProved stored (all_candidates stored live cs).0)
