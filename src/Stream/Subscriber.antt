-- ===== src/Stream/Subscriber.antt =====
-- gateway/domain/event_stream.py: `_Subscriber`, one client's feed with a bound on its backlog.
-- `asyncio.Queue` is a list with the oldest item first; `put_nowait` raises where `maxsize` items are
-- queued, and the reader takes the head.
pub mod Invariant
pub mod Delivery
use astation.Prelude.{
  ℕ, zero, suc, ◌+◌, ◌-◌, String, Bool, true, false, Option, none, some, List, [], ◌∷◌, ◌++◌,
  if◌then◌else◌, leb, ltb, length, ◌||◌,
}
use astation.Json.{ℤ, Json, null, int, Fields, get_or_null}
use astation.Stream.Wire.{Wire, Stamp}
use astation.Stream.Frame.{desynchronized_frame}

-- An encoded feed queues the text beside the frame.
pub data Item : Type 0 where
  plain : Fields → Item
  encoded : Fields → String → Item

pub record Subscriber : Type 0 where
  pub max_frames : ℕ
  pub max_bytes : ℕ
  pub is_encoded : Bool
  pub queue : List Item
  pub desynchronized : Bool
  pub queued_bytes : ℕ
  pub last_queued_seq : Option ℤ
  pub queued_sizes : List ℕ

abbrev pub new : ℕ → ℕ → Bool → Subscriber
new max_frames max_bytes is_encoded = record {
  max_frames = max_frames;
  max_bytes = max_bytes;
  is_encoded = is_encoded;
  queue = [];
  desynchronized = false;
  queued_bytes = 0;
  last_queued_seq = none;
  queued_sizes = [];
}

-- the loop of `_release_consumed`, `n` rounds; it never meets an empty deque
unfoldable pub release : ℕ → ℕ → List ℕ → ℕ × List ℕ
release zero bytes sizes = (bytes, sizes)
release (suc n) bytes [] = (bytes, [])
release (suc n) bytes (size ∷ sizes) = release n (bytes - size) sizes

unfoldable pub release_consumed : Subscriber → Subscriber
unfolding release
release_consumed s =
    let r = release (length s.queued_sizes - length s.queue) s.queued_bytes s.queued_sizes in
    record s { queued_bytes = r.0; queued_sizes = r.1 }

abbrev pub text_or_encoded : Wire → Fields → Option String → String
text_or_encoded w frame none = w.encode_frame frame
text_or_encoded w frame (some text) = text

abbrev pub item_of : Wire → Bool → Fields → Option String → Item
item_of w is_encoded frame text =
    if is_encoded then encoded frame (text_or_encoded w frame text) else plain frame

-- `_put`: `none` is `asyncio.QueueFull`
unfoldable pub put_item : Wire → Fields → Option String → Subscriber → Option Subscriber
put_item w frame text s =
    if ltb s.max_frames (length s.queue)
    then none
    else some (record s { queue = s.queue ++ item_of w s.is_encoded frame text ∷ [] })

abbrev pub reason_of : Bool → String
reason_of over_frames =
    if over_frames then "subscriber_backlog_frames" else "subscriber_backlog_bytes"

abbrev pub int_or_null : Option ℤ → Json
int_or_null none = null
int_or_null (some n) = int n

abbrev pub desync_frame : Stamp → Fields → Bool → Option ℕ → Subscriber → Fields
desync_frame stamp undelivered over_frames generation s =
    desynchronized_frame stamp generation (int_or_null s.last_queued_seq)
      (get_or_null "seq" undelivered) (reason_of over_frames) s.max_frames s.max_bytes

-- `_desynchronize`
unfoldable pub desynchronize :
    Wire → Stamp → Fields → Bool → Option ℕ → Subscriber → Option Subscriber
unfolding put_item
desynchronize w stamp undelivered over_frames generation s =
    put_item w (desync_frame stamp undelivered over_frames generation s) none
      (record s { desynchronized = true })

-- `seq` where it is an int; Python's booleans are ints
abbrev pub seq_after : Json → Option ℤ → Option ℤ
seq_after (Json.int n) last = some n
seq_after (Json.bool true) last = some (ℤ.pos 1)
seq_after (Json.bool false) last = some (ℤ.pos 0)
seq_after _ last = last

abbrev pub answered : Bool → Option Subscriber → Option (Bool × Subscriber)
answered b none = none
answered b (some s) = some (b, s)

-- the part of `offer` below `_release_consumed`
unfoldable pub offer_released :
    Wire → Stamp → Fields → ℕ → Option ℕ → Option String → Subscriber → Option (Bool × Subscriber)
unfolding desynchronize put_item
offer_released w stamp frame size generation text s =
    let over_frames = leb s.max_frames (length s.queue) in
    let over_bytes = ltb s.max_bytes (s.queued_bytes + size) in
    if over_frames || over_bytes
    then answered false (desynchronize w stamp frame over_frames generation s)
    else answered true (
        put_item w frame text (record s {
          queued_bytes = s.queued_bytes + size;
          queued_sizes = s.queued_sizes ++ size ∷ [];
          last_queued_seq = seq_after (get_or_null "seq" frame) s.last_queued_seq;
        }))

-- `offer`: whether the frame was queued; `none` is `asyncio.QueueFull`
unfoldable pub offer :
    Wire → Stamp → Fields → ℕ → Option ℕ → Option String → Subscriber → Option (Bool × Subscriber)
offer w stamp frame size generation text s =
    if s.desynchronized
    then some (false, s)
    else offer_released w stamp frame size generation text (release_consumed s)

abbrev pub take_head : List Item → Subscriber → Option Item × Subscriber
take_head [] s = (none, s)
take_head (item ∷ rest) s = (some item, record s { queue = rest })

-- The reader's `queue.get()`, which waits while the queue is empty.
unfoldable pub consume : Subscriber → Option Item × Subscriber
consume s = take_head s.queue s
