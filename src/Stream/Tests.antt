-- ===== src/Stream/Tests.antt =====
-- A small stream: frames, a subscriber, a history and a broadcaster.
use astation.Prelude.{
  ℕ, ◌≡◌, ◌≤◌, ◌<◌, ◌-◌, refl, ◌⊎◌, String, true, false, none, some, List, [], ◌∷◌, arith, All,
}
use astation.Json.{Json, Fields, num}
use astation.Stream.Wire.{Wire, Stamp}
use astation.Stream.Subscriber.{Subscriber}
use astation.Stream.Subscriber
use astation.Stream.Subscriber.{offer, consume}
use astation.Stream.Subscriber.Invariant.{IsValid, Answers, new-IsValid, offer-Answers}
use astation.Stream.Subscriber.Delivery.{Event, Delivers, run, offers, run-new-Delivers, Offer}
use astation.Stream.Frame.{bounded_client_frame_with_size}
use astation.Stream.Frame.Bounded.{Sendable, bounded_client_frame-Sendable}
use astation.Stream.History
use astation.Stream.History.{Entry, newer_than, replay, resume_cursor, push}
use astation.Stream.History.Covers.{push_all}
use astation.Stream.Broadcaster.Numbering.{range, numbers_of, as_numbers}
use astation.Stream.History.Replay.{replay_complete}
use astation.Stream.Broadcaster.{
  Held, Broadcaster, Oracle, Resolution, Outcome, state_of, offer_all, publish, fan_out,
  hold_in_memory, stamp_session_identity, Stamped,
}
use astation.Stream.Broadcaster.Pump
use astation.Stream.Broadcaster.Pump.{replay_memory}
use astation.Stream.Broadcaster.Feeds.{offer_all-AllOffered}
use astation.Stream.Broadcaster.Quarantine.{hold-accounts, replay_memory-loses}
use astation.Stream.Broadcaster.Operations
use astation.Stream.Broadcaster.Operations.{
  Operation, operate_all, IsSound, operate_all-IsSound, resume-replays_numbers,
}

abbrev wire : Wire
wire = record {
  frame_size = λ f. 10;
  encode_frame = λ f. "{}";
  utf8_size = λ s. some 2;
  repr = λ v. "None";
}

abbrev stamp : Stamp
stamp = record { event_id = "evt_1"; timestamp = "now" }

abbrev frame : Fields
frame = Fields.field "type" (Json.str "message.delta") (Fields.field "seq" (num 4) Fields.end)

bounded_client_frame-Sendable_example :
    Sendable wire frame (bounded_client_frame_with_size wire frame)
bounded_client_frame-Sendable_example = bounded_client_frame-Sendable wire frame

abbrev subscriber : Subscriber
subscriber = Subscriber.new 2 15 true

offer-Answers_example : Answers 2 15 (offer wire stamp frame 10 (some 1) (some "{}") subscriber)
offer-Answers_example =
    offer-Answers wire stamp frame 10 (some 1) (some "{}") subscriber (new-IsValid 2 15 true)

abbrev an_offer : Offer
an_offer = record { stamp = stamp; frame = frame; size = 10; generation = some 1; text = some "{}" }

abbrev events : List Event
events = Event.offered an_offer ∷ Event.read ∷ Event.offered an_offer ∷ Event.offered an_offer ∷ []

run-new-Delivers_example :
    Delivers wire true (offers events) (run wire events ([], Subscriber.new 2 15 true))
run-new-Delivers_example = run-new-Delivers wire 2 15 true events

offer_all-AllOffered_example :
    ((offer_all wire stamp frame 10 (some 1) "{}" (subscriber ∷ [])).1 ≡ true)
    × All IsValid (offer_all wire stamp frame 10 (some 1) "{}" (subscriber ∷ [])).0
offer_all-AllOffered_example =
    offer_all-AllOffered wire stamp frame 10 (some 1) "{}" (subscriber ∷ [])
      (new-IsValid 2 15 true, tt)

abbrev entry : ℕ → Entry
entry n = record { seq = n; frame = frame; text = "{}" }

abbrev pushed : List Entry
pushed = entry 1 ∷ entry 2 ∷ entry 3 ∷ []

replay_two : replay (some 2) (push_all pushed (History.new 2)) ≡ ((frame, "{}") ∷ [], false)
unfolding replay push_all push
replay_two = refl

replay_complete_example : (frame, "{}") ∷ [] ≡ newer_than 2 pushed
replay_complete_example =
    replay_complete 2 2 pushed ((frame, "{}") ∷ []) (omega arith, (omega arith, (omega arith, tt)))
      replay_two

abbrev oracle : Oracle
oracle = record {
  generation = some 1;
  now = 5;
  stamp = stamp;
  resolve = λ s l t. Resolution.failed;
  on_canonical_event = λ f. some f;
  on_background_complete = λ f. none;
  inbox_writes = true;
  inbox_reads = true;
  inbox_binds = λ id. true;
  inbox_acknowledges = λ id. true;
}

abbrev held : Held
held = record { generation = some 1; envelope = frame; raw_type = none; arrived = 4; size = 10 }

abbrev start : Broadcaster
start = Operations.new "epoch" "default" "p" (some 1) none 2 4 100 3 50 60

start-IsSound : IsSound wire start
start-IsSound = record {
  numbered = record {
    numbers = record {
      published = [];
      covered = record { kept = refl; increasing = tt; bounded = tt };
      framed = tt;
      fresh = omega arith;
      complete = λ all. (tt, refl);
    };
  };
  bounded = record { counted = refl; frames_bounded = omega arith; bytes_bounded = omega arith };
  valid_feeds = tt;
}

abbrev operations : List Operation
operations =
    Operation.inject oracle frame "other"
    ∷ Operation.subscribe oracle true none
    ∷ Operation.inject oracle frame "other"
    ∷ Operation.read 0
    ∷ []

operate_all-IsSound_example : IsSound wire (operate_all wire operations start)
operate_all-IsSound_example = operate_all-IsSound wire operations start start-IsSound

hold-accounts_example :
    let b' = state_of (hold_in_memory wire oracle (some 1) frame none start) in
    (((3 ≤ 0) ⊎ (50 < 10))
      × (b'.identity_gap ≡ true)
      × (b'.quarantine ≡ [])
      × (b'.quarantine_bytes ≡ 0))
    ⊎ ((0 < 3)
        × (10 ≤ 50)
        × (hold_in_memory wire oracle (some 1) frame none start
            ≡ Outcome.returned (record start {
              quarantine =
                  record {
                    generation = some 1;
                    envelope = frame;
                    raw_type = none;
                    arrived = 5;
                    size = 10;
                  }
                  ∷ [];
              quarantine_bytes = 10;
            })))
hold-accounts_example = hold-accounts wire oracle (some 1) frame none start

abbrev holding : Broadcaster
holding = record start { quarantine = held ∷ held ∷ []; quarantine_bytes = 20 }

resolution_fails : stamp_session_identity oracle none (some 1) none frame ≡ Stamped.failed
unfolding stamp_session_identity
resolution_fails = refl

replay_memory-loses_example :
    replay_memory wire oracle holding
    ≡ Outcome.raised (record holding { quarantine = []; quarantine_bytes = 0 })
replay_memory-loses_example =
    replay_memory-loses wire oracle held (held ∷ []) holding refl refl (omega arith)
      resolution_fails

abbrev cursor : ℕ
cursor = 1

abbrev current : String
current = "epoch"

resume_accepted :
    resume_cursor
      (some 1)
      (some current)
      (operate_all wire operations start).stream_epoch
      (operate_all wire operations start).identity_gap
      (operate_all wire operations start).history
    ≡ (some 1, false)
unfolding resume_cursor operate_all Pump.inject Pump.subscribe publish fan_out offer_all offer
    consume bounded_client_frame_with_size push Pump.offer_replay Subscriber.offer_released
    Subscriber.release_consumed
resume_accepted = refl

resume-replays_numbers_example :
    let b' = operate_all wire operations start in
    (cursor ≡ cursor)
    × (some current ≡ some b'.stream_epoch)
    × (b'.identity_gap ≡ false)
    × ((replay (some cursor) b'.history).1 ≡ false)
    × (numbers_of (replay (some cursor) b'.history).0 ≡ as_numbers (range 2 (b'.next_seq - 2)))
    × All (λ (f : Fields × String). f.1 ≡ "{}") (replay (some cursor) b'.history).0
resume-replays_numbers_example =
    resume-replays_numbers wire operations start 1 1 (some current) start-IsSound (λ text. refl)
      resume_accepted
