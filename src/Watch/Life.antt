-- ===== src/Watch/Life.antt =====
-- How long a watch lasts, and how many are kept.
use astation.Prelude.{
  ℕ, ◌+◌, ◌≤◌, ◌≡◌, String, false, Option, none, some, List, [], ◌∷◌, length, if◌then◌else◌, ltb,
  leb, arith, Bool-cases, inl, inr,
}
use astation.Prelude.Eq.{◌==◌, string_eq, pair_eq, pair_beq_iff}
use astation.Prelude.Dict.{
  Dict, lookup, insert, erase, HasUniqueKeys, lookup-insert_self, lookup-erase,
  insert-HasUniqueKeys, erase-HasUniqueKeys, length-erase,
}
use astation.Watch.{SessionKey, WatchedSessions, evict, watch, unwatch, is_fresh, is_watched, clear}

abbrev pub key : String → String → SessionKey
key profile id = (profile, id)

-- No key is listed twice, and there is room for what is kept.
pub record IsValid (w : WatchedSessions) : Type 0 where
  pub unique_keys : HasUniqueKeys w.entries
  pub fits : length w.entries ≤ w.capacity

pub data Call : Type 0 where
  start : ℕ → String → String → Call
  stop : String → String → Call
  ask : ℕ → Option String → String → Call
  forget_all : Call

pub run_call : Call → WatchedSessions → WatchedSessions
run_call (start now id profile) w = watch now id profile w
run_call (stop id profile) w = unwatch id profile w
run_call (ask now id profile) w = (is_watched now id profile w).1
run_call forget_all w = clear w

pub run_calls : List Call → WatchedSessions → WatchedSessions
run_calls [] w = w
run_calls (c ∷ cs) w = run_calls cs (run_call c w)

length-evict : (capacity : ℕ) (d : Dict SessionKey ℕ) → length (evict capacity d) ≤ capacity
unfolding evict
length-evict capacity [] = omega arith
length-evict capacity (x ∷ d) = ground (arith, length-evict capacity d)

evict-HasUniqueKeys :
    (capacity : ℕ) (d : Dict SessionKey ℕ) → HasUniqueKeys d → HasUniqueKeys (evict capacity d)
unfolding evict
evict-HasUniqueKeys capacity [] u = tt
evict-HasUniqueKeys capacity (x ∷ d) u = ground (arith, evict-HasUniqueKeys capacity d u.1)

-- The entry that was added last is not evicted.
lookup-evict_last :
    (capacity : ℕ) (k : SessionKey) (v : ℕ) (d : Dict SessionKey ℕ)
    → 1 ≤ capacity
    → lookup k d ≡ none
    → lookup k (evict capacity (insert k v d)) ≡ some v
unfolding evict
lookup-evict_last capacity k v [] room h = ground (arith, pair_beq_iff k k)
lookup-evict_last capacity k v (x ∷ d) room h =
    ground
      (arith, lookup-evict_last capacity k v d room, lookup-insert_self k v d, pair_beq_iff x.0 k)

erase-IsValid :
    (k : SessionKey) (w : WatchedSessions)
    → IsValid w
    → IsValid (record w { entries = erase k w.entries })
erase-IsValid k w v =
    let shorter = length-erase k w.entries in
    let fits = v.fits in
    record { unique_keys = erase-HasUniqueKeys k w.entries v.unique_keys; fits = omega arith }

is_fresh-IsValid :
    (now : ℕ) (k : SessionKey) (seen : Option ℕ) (w : WatchedSessions)
    → IsValid w
    → IsValid (is_fresh now k seen w).1
is_fresh-IsValid now k none w v = v
is_fresh-IsValid now k (some seen) w v = elim (Bool-cases (leb (seen + w.ttl) now)) [
  | inl h ↦ rw h (erase-IsValid k w v)
  | inr h ↦ rw h v
]

is_watched-IsValid :
    (now : ℕ) (id : Option String) (profile : String) (w : WatchedSessions)
    → IsValid w
    → IsValid (is_watched now id profile w).1
unfolding is_watched
is_watched-IsValid now none profile w v = v
is_watched-IsValid now (some id) profile w v = elim (Bool-cases (id == "")) [
  | inl h ↦ rw h v
  | inr h ↦ rw h (is_fresh-IsValid now (profile, id) (lookup (profile, id) w.entries) w v)
]

run_call-IsValid : (c : Call) (w : WatchedSessions) → IsValid w → IsValid (run_call c w)
unfolding run_call watch unwatch clear
run_call-IsValid (start now id profile) w v = elim (Bool-cases (id == "")) [
  | inl h ↦ rw h v
  | inr h ↦ rw h (record {
    unique_keys =
        evict-HasUniqueKeys w.capacity (insert (profile, id) now (erase (profile, id) w.entries)) (
          insert-HasUniqueKeys (profile, id) now (erase (profile, id) w.entries)
            (erase-HasUniqueKeys (profile, id) w.entries v.unique_keys));
    fits = length-evict w.capacity (insert (profile, id) now (erase (profile, id) w.entries));
  })
]
run_call-IsValid (stop id profile) w v = erase-IsValid (profile, id) w v
run_call-IsValid (ask now id profile) w v = is_watched-IsValid now id profile w v
run_call-IsValid forget_all w v = record { unique_keys = tt; fits = omega arith }

-- Whatever is called on a valid set of watches, no key is listed twice and there are at most
-- `capacity` of them.
pub run_calls-keep_IsValid :
    (cs : List Call) (w : WatchedSessions) → IsValid w → IsValid (run_calls cs w)
unfolding run_calls
run_calls-keep_IsValid [] w v = v
run_calls-keep_IsValid (c ∷ cs) w v =
    run_calls-keep_IsValid cs (run_call c w) (run_call-IsValid c w v)

-- A session that is watched at one time counts as watched until its time to live has passed, and
-- from then on it does not.
pub is_watched-watch :
    (t now : ℕ) (id profile : String) (w : WatchedSessions)
    → IsValid w
    → 1 ≤ w.capacity
    → (id == "") ≡ false
    → (is_watched now (some id) profile (watch t id profile w)).0 ≡ ltb now (t + w.ttl)
unfolding watch is_watched
is_watched-watch t now id profile w v room h =
    let k : SessionKey = (profile, id) in
    let gone : lookup k (erase k w.entries) ≡ none =
      ground (arith, lookup-erase k k w.entries v.unique_keys, pair_beq_iff k k) in
    rw h (rw (lookup-evict_last w.capacity k t (erase k w.entries) room gone) (ground arith))

-- After `unwatch` the session does not count as watched, at any time, and every other session's
-- answer is the one it had.
pub is_watched-unwatch :
    (now : ℕ) (id profile other other_profile : String) (w : WatchedSessions)
    → IsValid w
    → (is_watched now (some other) other_profile (unwatch id profile w)).0 ≡ (
        if key profile id == key other_profile other
        then false
        else (is_watched now (some other) other_profile w).0)
unfolding unwatch is_watched
is_watched-unwatch now id profile other other_profile w v = ground (
  arith,
  lookup-erase (profile, id) (other_profile, other) w.entries v.unique_keys,
  pair_beq_iff (profile, id) (other_profile, other),
)
