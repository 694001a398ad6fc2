-- ===== src/Inbox/Tests.antt =====
-- A small inbox.
use astation.Prelude.{String, ◌≡◌, ◌≤◌, refl, ◌⊎◌, none, some, [], ◌∷◌, arith, if◌then◌else◌}
use astation.Prelude.Eq.{◌==◌, string_eq}
use astation.Json.{Json, Fields}
use astation.Stream.Wire.{Wire}
use astation.Inbox.{Row, EventInbox, put_event, event_id_of, used_bytes}
use astation.Inbox.Quota.{IsValid, row_of, or_else, new_row, put_event-stores}

abbrev wire : Wire
wire = record {
  frame_size = λ f. 10;
  encode_frame = λ f. "{}";
  utf8_size = λ s. some 2;
  repr = λ v. "None";
}

abbrev envelope : Fields
envelope = Fields.field "event_id" (Json.str "e2") Fields.end

abbrev first_row : Row
first_row = record { id = "e1"; epoch = "x"; envelope = Fields.end; raw_type = none }

abbrev one : EventInbox
one = record { rows = first_row ∷ []; max_rows = 5; max_bytes = 50; page_size = 3 }

abbrev two : EventInbox
two = record one { rows = first_row ∷ new_row "x" envelope none ∷ [] }

abbrev added_id : String
added_id = "e2"

one-IsValid : IsValid one
one-IsValid = record { unique_ids = (refl, tt); rows_bounded = omega arith }

put_two : put_event wire "x" envelope none one ≡ some two
unfolding put_event
put_two = refl

put_event-stores_example :
    IsValid two
    × ((two ≡ one) ⊎ (used_bytes wire two.rows ≤ two.max_bytes))
    × (row_of added_id two
        ≡ or_else
            (row_of added_id one)
            (if event_id_of envelope == added_id then some (new_row "x" envelope none) else none))
put_event-stores_example =
    put_event-stores wire "x" envelope none one two added_id one-IsValid put_two
