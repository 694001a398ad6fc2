-- ===== src/Stream/History.antt =====
-- gateway/domain/event_stream.py: the numbered frames that `EventBroadcaster` keeps for replay
-- (`_history`, a deque with `maxlen`, and `_last_seq`), `_replay`, `replay_available` and
-- `resume_cursor`.
pub mod Covers
pub mod Replay
use astation.Prelude.{
  ℕ, ◌+◌, ◌-◌, String, Bool, true, false, Option, none, some, List, [], ◌∷◌, ◌++◌, map,
  if◌then◌else◌, ltb, eqb, length, drop, keep_if, not, ◌||◌,
}
use astation.Prelude.Eq.{◌==◌, string_eq, option_eq}
use astation.Json.{Fields}

-- A frame with its number and its encoded text.
pub record Entry : Type 0 where
  pub seq : ℕ
  pub frame : Fields
  pub text : String

pub record History : Type 0 where
  pub entries : List Entry
  pub max_entries : ℕ
  pub last_seq : ℕ

abbrev pub new : ℕ → History
new max_entries = record { entries = []; max_entries = max_entries; last_seq = 0 }

-- `deque(maxlen=n).append(x)`
abbrev pub append_bounded : ℕ → List Entry → Entry → List Entry
append_bounded n l x = let grown = l ++ x ∷ [] in drop (length grown - n) grown

unfoldable pub push : Entry → History → History
push e h = record h { entries = append_bounded h.max_entries h.entries e; last_seq = e.seq }

-- `not self._history or self._history[0][0] > after + 1`
abbrev pub starts_after : ℕ → List Entry → Bool
starts_after after [] = true
starts_after after (e ∷ l) = ltb (after + 1) e.seq

abbrev pub newer_than : ℕ → List Entry → List (Fields × String)
newer_than after l =
    map (λ (e : Entry). (e.frame, e.text)) (keep_if (λ (e : Entry). ltb after e.seq) l)

-- `_replay`: the frames to replay, and whether the buffer cannot cover the cursor
unfoldable pub replay : Option ℕ → History → List (Fields × String) × Bool
replay none h = ([], false)
replay (some after) h =
    if eqb after h.last_seq
    then ([], false)
    else if ltb h.last_seq after
    then ([], true)
    else if starts_after after h.entries
    then ([], true)
    else (newer_than after h.entries, false)

-- `replay_available`; `gap` is `_identity_gap`
unfoldable pub replay_available : Option ℕ → Bool → History → Bool
unfolding replay
replay_available none gap h = false
replay_available (some after) gap h = if gap then false else not (replay (some after) h).1

-- `resume_cursor`: `current` is `stream_epoch`
unfoldable pub resume_cursor : Option ℕ → Option String → String → Bool → History → Option ℕ × Bool
unfolding replay_available
resume_cursor none epoch current gap h = (none, false)
resume_cursor (some after) epoch current gap h =
    if not (epoch == some current) || not (replay_available (some after) gap h)
    then (none, true)
    else (some after, false)
