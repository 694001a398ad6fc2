-- ===== src/Stream/Broadcaster/Operations.antt =====
-- Any interleaving of the broadcaster's entry points, and what holds after it.
use astation.Prelude.{
  ℕ, suc, ◌≡◌, String, Bool, false, Option, none, some, List, [], ◌∷◌, All, ◌-◌, ap, arith,
}
use astation.Prelude.Eq.{option_eq, option_beq_iff, string_eq}
use astation.Json.{Fields}
use astation.Inbox.{EventInbox}
use astation.Stream.Wire.{Wire}
use astation.Stream.Subscriber
use astation.Stream.Subscriber.{Subscriber, consume}
use astation.Stream.Subscriber.Invariant.{consume-IsValid}
use astation.Stream.History
use astation.Stream.History.{History, replay, resume_cursor}
use astation.Stream.Broadcaster.{Broadcaster, Oracle, state_of}
use astation.Stream.Broadcaster.Pump
use astation.Stream.Broadcaster.Pump.{RawEvent, forward_one, watch_generation, registered}
use astation.Stream.Broadcaster.Preserve.{forward_one-keeps, watch_generation-keeps, inject-keeps}
use astation.Stream.Broadcaster.Numbering.{
  Encodes, IsNumbered, IsNumbered-Stable, IsNumbered-KeepsQuarantine, range, numbers_of, as_numbers,
  replay-numbers,
}
use astation.Stream.Broadcaster.Quarantine.{IsBounded, IsBounded-Stable, IsBounded-KeepsQuarantine}
use astation.Stream.Broadcaster.Feeds.{
  HasValidFeeds, HasValidFeeds-Stable, HasValidFeeds-KeepsQuarantine, subscribe-HasValidFeeds,
}

-- What may happen to a broadcaster: an upstream event, a round of the generation watch, a frame from
-- another profile's connection, a new client, a client that leaves, and a client that reads. A call
-- that raises leaves the state that it had written.
pub data Operation : Type 0 where
  forward : Oracle → RawEvent → Operation
  watch : Oracle → Operation
  inject : Oracle → Fields → String → Operation
  subscribe : Oracle → Bool → Option ℕ → Operation
  leave : ℕ → Operation
  read : ℕ → Operation

-- `self._subscribers.discard(...)` of the feed at a place
abbrev pub without_feed : ℕ → List Subscriber → List Subscriber
without_feed n [] = []
without_feed ℕ.zero (s ∷ l) = l
without_feed (suc n) (s ∷ l) = s ∷ without_feed n l

abbrev pub read_feed : ℕ → List Subscriber → List Subscriber
read_feed n [] = []
read_feed ℕ.zero (s ∷ l) = (consume s).1 ∷ l
read_feed (suc n) (s ∷ l) = s ∷ read_feed n l

unfoldable pub operate : Wire → Operation → Broadcaster → Broadcaster
operate w (forward o e) b = state_of (forward_one w o e b)
operate w (watch o) b = state_of (watch_generation w o b)
operate w (inject o f p) b = state_of (Pump.inject w o f p b)
operate w (subscribe o e a) b = state_of (Pump.subscribe w o e a b)
operate w (leave n) b = record b { subscribers = without_feed n b.subscribers }
operate w (read n) b = record b { subscribers = read_feed n b.subscribers }

unfoldable pub operate_all : Wire → List Operation → Broadcaster → Broadcaster
unfolding operate
operate_all w [] b = b
operate_all w (x ∷ xs) b = operate_all w xs (operate w x b)

-- `__init__`
abbrev pub new :
    (epoch profile identity_epoch : String) (generation : Option ℕ) (inbox : Option EventInbox)
    (history_max_frames max_queued_frames max_queued_bytes quarantine_max_frames
      quarantine_max_bytes quarantine_max_age : ℕ)
    → Broadcaster
new epoch profile identity_epoch generation inbox history_max_frames max_queued_frames
      max_queued_bytes quarantine_max_frames quarantine_max_bytes quarantine_max_age =
    record {
      subscribers = [];
      stream_epoch = epoch;
      next_seq = 1;
      history = History.new history_max_frames;
      max_queued_frames = max_queued_frames;
      max_queued_bytes = max_queued_bytes;
      profile = profile;
      generation_seen = generation;
      quarantine = [];
      quarantine_bytes = 0;
      quarantine_max_frames = quarantine_max_frames;
      quarantine_max_bytes = quarantine_max_bytes;
      quarantine_max_age = quarantine_max_age;
      identity_gap = false;
      inbox = inbox;
      inbox_cursor = none;
      identity_epoch = identity_epoch;
    }

-- The three invariants together.
pub record IsSound (w : Wire) (b : Broadcaster) : Type 0 where
  pub numbered : IsNumbered w b
  pub bounded : IsBounded b
  pub valid_feeds : HasValidFeeds b

without_feed-All :
    (n : ℕ) (l : List Subscriber)
    → All Subscriber.Invariant.IsValid l
    → All Subscriber.Invariant.IsValid (without_feed n l)
without_feed-All n [] h = tt
without_feed-All ℕ.zero (s ∷ l) h = h.1
without_feed-All (suc n) (s ∷ l) h = (h.0, without_feed-All n l h.1)

read_feed-All :
    (n : ℕ) (l : List Subscriber)
    → All Subscriber.Invariant.IsValid l
    → All Subscriber.Invariant.IsValid (read_feed n l)
read_feed-All n [] h = tt
read_feed-All ℕ.zero (s ∷ l) h = (consume-IsValid s h.0, h.1)
read_feed-All (suc n) (s ∷ l) h = (h.0, read_feed-All n l h.1)

abbrev with_feeds : Broadcaster → List Subscriber → Broadcaster
with_feeds b l = record b { subscribers = l }

feeds-IsSound :
    (w : Wire) (b : Broadcaster) (l : List Subscriber)
    → IsSound w b
    → All Subscriber.Invariant.IsValid l
    → IsSound w (with_feeds b l)
feeds-IsSound w b l h v = record {
  numbered = record { numbers = h.numbered.numbers };
  bounded = record {
    counted = h.bounded.counted;
    frames_bounded = h.bounded.frames_bounded;
    bytes_bounded = h.bounded.bytes_bounded;
  };
  valid_feeds = v;
}

registered-IsSound :
    (w : Wire) (b : Broadcaster) (r : Option Subscriber)
    → IsSound w b
    → HasValidFeeds (state_of (registered b r))
    → IsSound w (state_of (registered b r))
registered-IsSound w b none h v = h
registered-IsSound w b (some s) h v = feeds-IsSound w b _ h v

operate-IsSound :
    (w : Wire) (x : Operation) (b : Broadcaster) → IsSound w b → IsSound w (operate w x b)
unfolding operate
operate-IsSound w (forward o e) b h = record {
  numbered =
      forward_one-keeps w (IsNumbered w) (IsNumbered-Stable w) (IsNumbered-KeepsQuarantine w) o e b
        h.numbered;
  bounded =
      forward_one-keeps w IsBounded (IsBounded-Stable w) (IsBounded-KeepsQuarantine w) o e b
        h.bounded;
  valid_feeds =
      forward_one-keeps w HasValidFeeds (HasValidFeeds-Stable w) (HasValidFeeds-KeepsQuarantine w) o
        e b h.valid_feeds;
}
operate-IsSound w (watch o) b h = record {
  numbered =
      watch_generation-keeps w (IsNumbered w) (IsNumbered-Stable w) (IsNumbered-KeepsQuarantine w) o
        b h.numbered;
  bounded =
      watch_generation-keeps w IsBounded (IsBounded-Stable w) (IsBounded-KeepsQuarantine w) o b
        h.bounded;
  valid_feeds =
      watch_generation-keeps w HasValidFeeds (HasValidFeeds-Stable w)
        (HasValidFeeds-KeepsQuarantine w) o b h.valid_feeds;
}
operate-IsSound w (inject o f p) b h = record {
  numbered =
      inject-keeps w (IsNumbered w) (IsNumbered-Stable w) (IsNumbered-KeepsQuarantine w) o f p b
        h.numbered;
  bounded =
      inject-keeps w IsBounded (IsBounded-Stable w) (IsBounded-KeepsQuarantine w) o f p b h.bounded;
  valid_feeds =
      inject-keeps w HasValidFeeds (HasValidFeeds-Stable w) (HasValidFeeds-KeepsQuarantine w) o f p
        b h.valid_feeds;
}
operate-IsSound w (subscribe o e a) b h =
    let v = subscribe-HasValidFeeds w o e a b h.valid_feeds in
    unfold Pump.subscribe in registered-IsSound w b _ h v
operate-IsSound w (leave n) b h =
    feeds-IsSound w b _ h (without_feed-All n b.subscribers h.valid_feeds)
operate-IsSound w (read n) b h = feeds-IsSound w b _ h (read_feed-All n b.subscribers h.valid_feeds)

pub operate_all-IsSound :
    (w : Wire) (xs : List Operation) (b : Broadcaster)
    → IsSound w b
    → IsSound w (operate_all w xs b)
unfolding operate_all
operate_all-IsSound w [] b h = h
operate_all-IsSound w (x ∷ xs) b h =
    operate_all-IsSound w xs (operate w x b) (operate-IsSound w x b h)

accepted :
    (after cursor : ℕ) (epoch : Option String) (current : String) (gap : Bool) (h : History)
    → resume_cursor (some after) epoch current gap h ≡ (some cursor, false)
    → (cursor ≡ after)
      × (epoch ≡ some current)
      × (gap ≡ false)
      × ((replay (some after) h).1 ≡ false)
unfolding resume_cursor
accepted after cursor epoch current gap h e =
    let same = option_beq_iff epoch (some current) in ground arith

-- After any operations on a sound broadcaster, whose texts can all be encoded: a client whose cursor is
-- accepted has the broadcaster's epoch, no identity gap is flagged, and the replay gives it, in order,
-- one frame for each number above the cursor that was spent until now, whether or not a client
-- was connected then, and each with the frame's own text.
pub resume-replays_numbers :
    (w : Wire) (xs : List Operation) (b : Broadcaster) (after cursor : ℕ) (epoch : Option String)
    → IsSound w b
    → Encodes w
    → resume_cursor
        (some after)
        epoch
        (operate_all w xs b).stream_epoch
        (operate_all w xs b).identity_gap
        (operate_all w xs b).history
      ≡ (some cursor, false)
    → let b' = operate_all w xs b in
      (cursor ≡ after)
      × (epoch ≡ some b'.stream_epoch)
      × (b'.identity_gap ≡ false)
      × ((replay (some after) b'.history).1 ≡ false)
      × (numbers_of (replay (some after) b'.history).0
          ≡ as_numbers (range (suc after) (b'.next_seq - suc after)))
      × All (λ (f : Fields × String). f.1 ≡ w.encode_frame f.0) (replay (some after) b'.history).0
resume-replays_numbers w xs b after cursor epoch h all e =
    let b' = operate_all w xs b in
    let a = accepted after cursor epoch b'.stream_epoch b'.identity_gap b'.history e in
    let found = replay (some after) b'.history in
    let given =
      replay-numbers w after b'.history b'.next_seq found.0
        (operate_all-IsSound w xs b h).numbered.numbers all (ap (λ r. (found.0, r)) a.3) in
    (a.0, a.1, a.2, a.3, given.0, given.1)
