-- ===== src/Stream/Identity.antt =====
-- gateway/domain/event_stream.py: `_caches` and `_resolve_identity`: the session of an event by the
-- adapter's own resolver, which is an argument, or by the handle caches.
pub mod Agrees
mod Tests
use astation.Prelude.{
  ℕ, String, Bool, true, false, Option, none, some, List, [], ◌∷◌, ◌++◌, map, if◌then◌else◌, not,
  ◌||◌, ◌&&◌, is_some, keep_if,
}
use astation.Prelude.Eq.{Eq, ◌==◌, string_eq, pair_eq, option_eq}
use astation.Handles
use astation.Handles.{
  LiveHandleCache, bound_stored_ids_for_live, observe_live_mapping, stored_for_live,
}
use astation.Stream.Broadcaster.{Resolution}

-- A cache with its profile, the generation of its adapter, and whether that is the broadcaster's
-- adapter (`cache.adapter is self._adapter`) and the cache the broadcaster's own.
pub record ProfileCache : Type 0 where
  pub profile : String
  pub generation : Option ℕ
  pub is_same_adapter : Bool
  pub is_own : Bool
  pub cache : LiveHandleCache

-- `_caches`: the own cache, if there is one, and the others of the profiles; `extra` is what
-- `_profile_caches()` returns, and no entry where it raises or is missing
unfoldable pub caches : Option ProfileCache → List (Option ProfileCache) → List ProfileCache
caches own extra = own_list own ++ others extra
  where
    own_list : Option ProfileCache → List ProfileCache
    own_list none = []
    own_list (some c) = c ∷ []

    others : List (Option ProfileCache) → List ProfileCache
    others [] = []
    others (none ∷ l) = others l
    others (some c ∷ l) = if c.is_own then others l else c ∷ others l

-- profile, stored id, live id
abbrev pub Candidate : Type 0
Candidate = String × (String × String)

abbrev pub of_live : String → String → List String → List Candidate
of_live profile live ids = map (λ stored. (profile, (stored, live))) ids

abbrev pub of_stored : String → String → Option String → List Candidate
of_stored profile stored none = []
of_stored profile stored (some live) = (profile, (stored, live)) ∷ []

-- what one cache contributes, by the live id or else by the stored id, and the cache after it
abbrev pub candidates_of :
    Option String → Option String → ProfileCache → List Candidate × ProfileCache
candidates_of stored (some live) c =
    let r = bound_stored_ids_for_live c.generation live c.cache in
    (of_live c.profile live r.0, record c { cache = r.1 })
candidates_of (some stored) none c =
    let r = Handles.get c.generation stored c.cache in
    (of_stored c.profile stored r.0, record c { cache = r.1 })
candidates_of none none c = ([], c)

-- `if cache.adapter is not self._adapter: continue`
abbrev pub contributed :
    Bool
    → ProfileCache
    → List Candidate × ProfileCache
    → List Candidate × List ProfileCache
    → List Candidate × List ProfileCache
contributed true c r rest = (r.0 ++ rest.0, r.1 ∷ rest.1)
contributed false c r rest = (rest.0, c ∷ rest.1)

-- the loop over the caches of this connection
unfoldable pub all_candidates :
    Option String → Option String → List ProfileCache → List Candidate × List ProfileCache
all_candidates stored live [] = ([], [])
all_candidates stored live (c ∷ cs) =
    contributed c.is_same_adapter c (candidates_of stored live c) (all_candidates stored live cs)

-- a set, as the list without repetitions
unfoldable pub as_set : List Candidate → List Candidate
as_set [] = []
as_set (x ∷ l) = x ∷ keep_if (λ y. not (y == x)) (as_set l)

-- `stored_id is not None and stored != stored_id`
abbrev pub contradicts : Option String → String → Bool
contradicts none found = false
contradicts (some stored) found = not (found == stored)

abbrev pub only_one : Option String → List Candidate → Resolution
only_one stored [] = Resolution.unbound
only_one stored ((profile, (found, live)) ∷ []) =
    if contradicts stored found
    then Resolution.conflicting
    else Resolution.resolved (some found) (some live) profile
only_one stored (x ∷ y ∷ l) = Resolution.conflicting

-- the branch for an adapter that profiles share
unfoldable pub resolve_shared :
    Option String → Option String → List ProfileCache → Resolution × List ProfileCache
unfolding all_candidates as_set
resolve_shared stored live cs =
    let r = all_candidates stored live cs in (only_one stored (as_set r.0), r.1)

abbrev pub with_observed : String → String → ProfileCache → ProfileCache
with_observed stored live c = record c {
  cache = observe_live_mapping c.generation stored live c.cache;
}

abbrev pub observe_own : String → String → List ProfileCache → List ProfileCache
observe_own stored live [] = []
observe_own stored live (c ∷ cs) = if c.is_own then with_observed stored live c ∷ cs else c ∷ cs

-- the branch for both ids: the profile of the first cache that knows the pair
unfoldable pub first_pair : String → String → List ProfileCache → Option String × List ProfileCache
first_pair stored live [] = (none, [])
first_pair stored live (c ∷ cs) =
    let by_live = stored_for_live c.generation live c.cache in
    let by_stored = Handles.get c.generation stored by_live.1 in
    let rest = first_pair stored live cs in
    if by_live.0 == some stored
    then (some c.profile, with_observed stored live (record c { cache = by_live.1 }) ∷ cs)
    else if by_stored.0 == some live
    then (some c.profile, with_observed stored live (record c { cache = by_stored.1 }) ∷ cs)
    else (rest.0, record c { cache = by_stored.1 } ∷ rest.1)

abbrev pub paired :
    String → String → String → Option String × List ProfileCache → Resolution × List ProfileCache
paired profile stored live (some found, cs) =
    (Resolution.resolved (some stored) (some live) found, cs)
paired profile stored live (none, cs) =
    (Resolution.resolved (some stored) (some live) profile, observe_own stored live cs)

-- the branch for a live id alone
unfoldable pub first_by_live : String → String → List ProfileCache → Resolution × List ProfileCache
first_by_live profile live [] = (Resolution.resolved none (some live) profile, [])
first_by_live profile live (c ∷ cs) =
    let r = stored_for_live c.generation live c.cache in
    let rest = first_by_live profile live cs in
    elim r.0 [
      | some stored ↦
          (Resolution.resolved (some stored) (some live) c.profile, record c { cache = r.1 } ∷ cs)
      | none ↦ (rest.0, record c { cache = r.1 } ∷ rest.1)
    ]

-- the branch for a stored id alone
unfoldable pub first_by_stored :
    String → String → List ProfileCache → Resolution × List ProfileCache
first_by_stored profile stored [] = (Resolution.resolved (some stored) none profile, [])
first_by_stored profile stored (c ∷ cs) =
    let r = Handles.get c.generation stored c.cache in
    let rest = first_by_stored profile stored cs in
    elim r.0 [
      | some live ↦
          (Resolution.resolved (some stored) (some live) c.profile, record c { cache = r.1 } ∷ cs)
      | none ↦ (rest.0, record c { cache = r.1 } ∷ rest.1)
    ]

abbrev pub resolve_owned :
    String → Option String → Option String → List ProfileCache → Resolution × List ProfileCache
resolve_owned profile (some stored) (some live) cs =
    paired profile stored live (first_pair stored live cs)
resolve_owned profile none (some live) cs = first_by_live profile live cs
resolve_owned profile (some stored) none cs = first_by_stored profile stored cs
resolve_owned profile none none cs = (Resolution.resolved none none profile, cs)

-- What `adapter.resolve_event_identity` comes to: None, an identity, or an exception.
pub data ResolverAnswer : Type 0 where
  no_identity : ResolverAnswer
  identity : Option String → Option String → String → ResolverAnswer
  raises_unbound : ResolverAnswer
  raises_conflicting : ResolverAnswer
  raises_other : ResolverAnswer

abbrev pub own_answer : ResolverAnswer → Resolution
own_answer no_identity = Resolution.unbound
own_answer (identity stored live profile) = Resolution.resolved stored live profile
own_answer raises_unbound = Resolution.unbound
own_answer raises_conflicting = Resolution.conflicting
own_answer raises_other = Resolution.failed

-- `_resolve_identity`: the answer or the exception, and the caches after it; `resolver` is the
-- adapter's own one, if it has one, and `is_shared` is whether `_profile_caches` was given
unfoldable pub resolve_identity :
    Option (Option String → Option String → ResolverAnswer)
    → Bool
    → String
    → Option String
    → Option String
    → List ProfileCache
    → Resolution × List ProfileCache
resolve_identity (some resolver) is_shared profile stored live cs =
    (own_answer (resolver stored live), cs)
resolve_identity none is_shared profile stored live cs =
    if is_shared && (is_some stored || is_some live)
    then resolve_shared stored live cs
    else resolve_owned profile stored live cs
