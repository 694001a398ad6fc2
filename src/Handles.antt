-- ===== src/Handles.antt =====
-- gateway/domain/live_handles.py: `LiveHandleCache`, the map from stored session ids to the live
-- handles of one connection. `self._adapter.connection_generation` is read at the start of each
-- operation; here it is the operation's argument, `none` where the adapter has none.
pub mod Bounds
pub mod Lookups
mod Tests
use astation.Prelude.{
  ℕ, String, Bool, Option, none, some, List, [], ◌∷◌, ◌&&◌, map, if◌then◌else◌, leb, length, tail,
  keep_if,
}
use astation.Prelude.Eq.{◌==◌, nat_eq, string_eq, pair_eq, option_eq}
use astation.Prelude.Dict.{Dict, lookup, insert, erase}

abbrev pub max_entries : ℕ
max_entries = 256

-- `tuple[int, str]`: the generation of the connection and an id
abbrev pub HandleKey : Type 0
HandleKey = ℕ × String

pub record LiveHandleCache : Type 0 where
  pub handles : Dict HandleKey String
  pub stored_by_live : Dict HandleKey String
  pub generation_seen : Option ℕ

abbrev pub new : LiveHandleCache
new = record { handles = []; stored_by_live = []; generation_seen = none }

abbrev pub of_generation : ℕ → Dict HandleKey String → Dict HandleKey String
of_generation g d = keep_if (λ x. x.0.0 == g) d

-- `_sweep`
unfoldable pub sweep : ℕ → LiveHandleCache → LiveHandleCache
sweep g c = if c.generation_seen == some g then c else record {
  handles = of_generation g c.handles;
  stored_by_live = of_generation g c.stored_by_live;
  generation_seen = some g;
}

-- `_evict_oldest`: `next(iter(entries))` is the entry that came first
unfoldable pub evict_oldest : Dict HandleKey String → ℕ → Dict HandleKey String
evict_oldest entries limit = if leb limit (length entries) then tail entries else entries

-- `_remember_live_mapping`
unfoldable pub remember_live_mapping : ℕ → String → String → LiveHandleCache → LiveHandleCache
unfolding evict_oldest
remember_live_mapping g stored live c = record c {
  stored_by_live = insert (g, live) stored (evict_oldest c.stored_by_live max_entries);
}

unfoldable pub get : Option ℕ → String → LiveHandleCache → Option String × LiveHandleCache
unfolding sweep
get none stored c = (none, c)
get (some g) stored c = let c' = sweep g c in (lookup (g, stored) c'.handles, c')

-- the writes of `put` after the sweep
unfoldable pub put_swept : ℕ → String → String → LiveHandleCache → LiveHandleCache
unfolding evict_oldest remember_live_mapping
put_swept g stored live c =
    remember_live_mapping g stored live
      (record c { handles = insert (g, stored) live (evict_oldest c.handles max_entries) })

unfoldable pub put : Option ℕ → String → String → LiveHandleCache → LiveHandleCache
unfolding sweep put_swept
put none stored live c = c
put (some g) stored live c = put_swept g stored live (sweep g c)

unfoldable pub bound_stored_ids_for_live :
    Option ℕ → String → LiveHandleCache → List String × LiveHandleCache
unfolding sweep
bound_stored_ids_for_live none live c = ([], c)
bound_stored_ids_for_live (some g) live c =
    let c' = sweep g c in
    (
      map (λ (x : HandleKey × String). x.0.1) (keep_if (λ x. x.0.0 == g && x.1 == live) c'.handles),
      c',
    )

unfoldable pub observe_live_mapping : Option ℕ → String → String → LiveHandleCache → LiveHandleCache
unfolding sweep remember_live_mapping
observe_live_mapping none stored live c = c
observe_live_mapping (some g) stored live c = remember_live_mapping g stored live (sweep g c)

unfoldable pub stored_for_live :
    Option ℕ → String → LiveHandleCache → Option String × LiveHandleCache
unfolding sweep
stored_for_live none live c = (none, c)
stored_for_live (some g) live c = let c' = sweep g c in (lookup (g, live) c'.stored_by_live, c')

-- `discard` does not sweep
unfoldable pub discard : Option ℕ → String → LiveHandleCache → LiveHandleCache
discard none stored c = c
discard (some g) stored c = record c { handles = erase (g, stored) c.handles }

unfoldable pub clear : LiveHandleCache → LiveHandleCache
clear c = new

-- `__len__`
unfoldable pub size : LiveHandleCache → ℕ
size c = length c.handles
