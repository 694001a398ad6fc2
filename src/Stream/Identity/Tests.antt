-- ===== src/Stream/Identity/Tests.antt =====
-- Two profiles on one adapter.
use astation.Prelude.{String, refl, true, false, none, some, List, [], ◌∷◌}
use astation.Handles.{LiveHandleCache}
use astation.Stream.Identity.{ProfileCache, all_candidates, resolve_identity}
use astation.Stream.Identity.Agrees.{
  Agreeing, IsProved, resolve_identity-Agreeing, resolve_identity-IsProved,
}

abbrev holds : String → LiveHandleCache
holds stored = record {
  handles = ((1, stored), "live_1") ∷ [];
  stored_by_live = [];
  generation_seen = some 1;
}

abbrev cache_of : String → String → ProfileCache
cache_of profile stored = record {
  profile = profile;
  generation = some 1;
  is_same_adapter = true;
  is_own = false;
  cache = holds stored;
}

abbrev two : List ProfileCache
two = cache_of "a" "s1" ∷ cache_of "b" "s2" ∷ []

resolve_identity-Agreeing_example :
    Agreeing (some "s1") none (resolve_identity none true "default" (some "s1") none two).0
resolve_identity-Agreeing_example = resolve_identity-Agreeing true "default" (some "s1") none two

resolve_identity-IsProved_example :
    IsProved
      (some "s1")
      (all_candidates (some "s1") none two).0
      (resolve_identity none true "default" (some "s1") none two).0
resolve_identity-IsProved_example = resolve_identity-IsProved "default" (some "s1") none two refl
