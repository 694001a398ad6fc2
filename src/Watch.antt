-- ===== src/Watch.antt =====
-- gateway/domain/watch_sessions.py: the sessions that are open as a lazy watch. Times are ticks of
-- the clock, and an argument where the source reads the clock; the lock is held for a whole method.
pub mod Life
mod Tests
use astation.Prelude.{
  ℕ, suc, ◌+◌, ◌*◌, String, Bool, true, false, Option, none, some, List, [], ◌∷◌, length,
  if◌then◌else◌, ltb, leb,
}
use astation.Prelude.Eq.{Eq, ◌==◌, string_eq, pair_eq}
use astation.Prelude.Dict.{Dict, lookup, insert, erase}

abbrev pub watch_ttl_s : ℕ
watch_ttl_s = 6 * 60 * 60

abbrev pub max_watched : ℕ
max_watched = 500

-- a profile and a stored id
abbrev pub SessionKey : Type 0
SessionKey = String × String

pub record WatchedSessions : Type 0 where
  pub entries : Dict SessionKey ℕ
  pub ttl : ℕ
  pub capacity : ℕ

abbrev pub new : WatchedSessions
new = record { entries = []; ttl = watch_ttl_s; capacity = max_watched }

-- `while len(self._entries) > self._capacity: self._entries.popitem(last=False)`
unfoldable pub evict : ℕ → Dict SessionKey ℕ → Dict SessionKey ℕ
evict capacity [] = []
evict capacity (x ∷ d) =
    let rest = evict capacity d in if ltb capacity (suc (length d)) then rest else x ∷ d

-- `watch`
unfoldable pub watch : (now : ℕ) (stored_id profile : String) → WatchedSessions → WatchedSessions
watch now stored_id profile w = if stored_id == "" then w else record w {
  entries =
      evict w.capacity (insert (profile, stored_id) now (erase (profile, stored_id) w.entries));
}

-- `unwatch`
unfoldable pub unwatch : (stored_id profile : String) → WatchedSessions → WatchedSessions
unwatch stored_id profile w = record w { entries = erase (profile, stored_id) w.entries }

abbrev pub is_fresh : ℕ → SessionKey → Option ℕ → WatchedSessions → Bool × WatchedSessions
is_fresh now key none w = (false, w)
is_fresh now key (some seen) w =
    if leb (seen + w.ttl) now
    then (false, record w { entries = erase key w.entries })
    else (true, w)

-- `is_watched`
unfoldable pub is_watched : ℕ → Option String → String → WatchedSessions → Bool × WatchedSessions
is_watched now none profile w = (false, w)
is_watched now (some stored_id) profile w =
    if stored_id == ""
    then (false, w)
    else is_fresh now (profile, stored_id) (lookup (profile, stored_id) w.entries) w

-- `clear`
unfoldable pub clear : WatchedSessions → WatchedSessions
clear w = record w { entries = [] }

-- `__len__`
abbrev pub size : WatchedSessions → ℕ
size w = length w.entries
