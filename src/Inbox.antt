-- ===== src/Inbox.antt =====
-- gateway/domain/event_inbox.py: `EventInbox`, the durable queue of frames whose owner is unknown.
-- The table `pending` is a list of its rows in the order of `rowid`; `json.loads` of what
-- `json.dumps` wrote is taken to be the same envelope.
pub mod Quota
mod Tests
use astation.Prelude.{
  ℕ, zero, suc, ◌+◌, String, Bool, true, false, Option, none, some, List, [], ◌∷◌, ◌++◌, map,
  if◌then◌else◌, leb, ltb, length, keep_if, any, take, min, ◌||◌, ◌-◌,
}
use astation.Prelude.Eq.{◌==◌, string_eq}
use astation.Json.{ℤ, Json, bool, int, str, Fields, get, get_or_null, put}
use astation.Stream.Wire.{Wire}

pub record Row : Type 0 where
  pub id : String
  pub epoch : String
  pub envelope : Fields
  pub raw_type : Option String

pub record EventInbox : Type 0 where
  pub rows : List Row
  pub max_rows : ℕ
  pub max_bytes : ℕ
  pub page_size : ℕ

-- `envelope['event_id']`, a text in every frame of the gateway
abbrev pub event_id_of : Fields → String
event_id_of envelope = elim (get_or_null "event_id" envelope) [ str s ↦ s | _ ↦ "" ]

-- `SUM(length(CAST(envelope AS BLOB)))`
abbrev pub used_bytes : Wire → List Row → ℕ
used_bytes w [] = 0
used_bytes w (r ∷ rows) = w.frame_size r.envelope + used_bytes w rows

abbrev pub has_id : String → List Row → Bool
has_id id rows = any (λ (r : Row). r.id == id) rows

-- `put`; `none` is `EventInboxFull`, which leaves the table as it is
unfoldable pub put_event : Wire → String → Fields → Option String → EventInbox → Option EventInbox
put_event w epoch envelope raw_type b =
    let id = event_id_of envelope in
    if has_id id b.rows
    then some b
    else if leb b.max_rows (length b.rows)
        || ltb b.max_bytes (used_bytes w b.rows + w.frame_size envelope)
    then none
    else some (record b {
      rows =
          b.rows
          ++ record { id = id; epoch = epoch; envelope = envelope; raw_type = raw_type } ∷ [];
    })

abbrev pub bound_identity_field : String
bound_identity_field = "_bound_identity"

-- `dict(envelope, _bound_identity=True)`
abbrev pub bound_envelope : Fields → Fields
bound_envelope envelope = put bound_identity_field (bool true) envelope

-- `bind`
unfoldable pub bind_event : Fields → EventInbox → EventInbox
bind_event envelope b =
    let id = event_id_of envelope in
    record b {
      rows =
          map
            (λ (r : Row). if r.id == id then record r { envelope = bound_envelope envelope } else r)
            b.rows;
    }

-- `json_extract(envelope, '$._bound_identity')=1`; SQLite reads a JSON true as 1
abbrev pub is_one : Json → Bool
is_one (bool true) = true
is_one (int (ℤ.pos (suc zero))) = true
is_one _ = false

abbrev pub is_bound : Fields → Bool
is_bound envelope = is_one (get_or_null bound_identity_field envelope)

abbrev pub is_eligible : String → Row → Bool
is_eligible epoch r = r.epoch == epoch || is_bound r.envelope

-- The rows behind the one with the id, or all where there is no such row.
unfoldable pub rows_behind : String → List Row → Option (List Row)
rows_behind id [] = none
rows_behind id (r ∷ rows) = if r.id == id then some rows else rows_behind id rows

abbrev pub rows_after : Option String → List Row → List Row
rows_after none rows = rows
rows_after (some id) rows = elim (rows_behind id rows) [ none ↦ rows | some later ↦ later ]

-- `min(limit or self.page_size, self.page_size)`
abbrev pub page_limit : Option ℕ → ℕ → ℕ
page_limit none page_size = page_size
page_limit (some zero) page_size = page_size
page_limit (some (suc n)) page_size = min (suc n) page_size

-- `pending`
unfoldable pub pending : String → Option String → Option ℕ → EventInbox → List Row
unfolding rows_behind
pending epoch after_id limit b =
    take (page_limit limit b.page_size)
      (keep_if (λ (r : Row). is_eligible epoch r) (rows_after after_id b.rows))

pub record Counts : Type 0 where
  pub total : ℕ
  pub current_epoch : ℕ
  pub stranded_old_epoch : ℕ
  pub bytes : ℕ

abbrev pub current_count : Option String → List Row → ℕ
current_count none rows = 0
current_count (some epoch) rows = length (keep_if (λ (r : Row). r.epoch == epoch) rows)

-- `counts`
unfoldable pub counts : Wire → Option String → EventInbox → Counts
counts w epoch b =
    let current = current_count epoch b.rows in
    record {
      total = length b.rows;
      current_epoch = current;
      stranded_old_epoch = length b.rows - current;
      bytes = used_bytes w b.rows;
    }

-- `acknowledge`
unfoldable pub acknowledge : String → EventInbox → EventInbox
acknowledge id b = record b {
  rows = keep_if (λ (r : Row). if r.id == id then false else true) b.rows;
}
