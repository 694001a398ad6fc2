-- ===== src/Stream/Subscriber/Invariant.antt =====
-- A subscriber's backlog stays within its bounds, and its queue never overflows.
use astation.Prelude.{
  ℕ, zero, suc, ◌+◌, ◌-◌, ◌≤◌, ◌≡◌, refl, ap, sym, String, Bool, true, false, Option, none, some,
  List, [], ◌∷◌, ◌++◌, not, leb, ltb, length, ◌||◌, drop, length-append, length-drop, arith, inl,
  inr, Bool-cases, ◌⊎◌,
}
use astation.Json.{ℤ, Fields, get_or_null}
use astation.Stream.Wire.{Wire, Stamp}
use astation.Stream.Subscriber.{
  Item, Subscriber, new, release, release_consumed, put_item, desynchronize, offer_released, offer,
  consume, take_head, item_of, answered, seq_after,
}

abbrev pub sum : List ℕ → ℕ
sum [] = 0
sum (n ∷ l) = n + sum l

pub sum-append : (xs ys : List ℕ) → sum (xs ++ ys) ≡ sum xs + sum ys
sum-append [] ys = omega arith
sum-append (x ∷ xs) ys = omega (arith, sum-append xs ys)

-- The sizes kept cover the frames still queued, and their sum is the byte count.
pub record IsValid (s : Subscriber) : Type 0 where
  pub bytes_counted : s.queued_bytes ≡ sum s.queued_sizes
  pub bytes_bounded : s.queued_bytes ≤ s.max_bytes
  pub covered :
      (s.desynchronized ≡ true)
      ⊎ ((length s.queue ≤ length s.queued_sizes) × (length s.queue ≤ s.max_frames))
  pub queue_bounded : length s.queue ≤ suc s.max_frames

-- A live subscriber's queue is covered by the sizes and within its limit.
live_covered :
    (s : Subscriber)
    → IsValid s
    → s.desynchronized ≡ false
    → (length s.queue ≤ length s.queued_sizes) × (length s.queue ≤ s.max_frames)
live_covered s v l = elim v.covered [ inl cut ↦ cc | inr c ↦ c ]

release-drop :
    (n bytes : ℕ) (sizes : List ℕ)
    → n ≤ length sizes
    → bytes ≡ sum sizes
    → (release n bytes sizes ≡ (sum (drop n sizes), drop n sizes)) × (sum (drop n sizes) ≤ bytes)
unfolding release
release-drop zero bytes sizes h e = (ground arith, omega arith)
release-drop (suc n) bytes [] h e = elim h [ ]
release-drop (suc n) bytes (x ∷ sizes) h e = ground (arith, release-drop n (bytes - x) sizes)

-- What holds of a live subscriber whose consumed frames have been released.
pub record IsReleased (s : Subscriber) : Type 0 where
  pub bytes_counted : s.queued_bytes ≡ sum s.queued_sizes
  pub bytes_bounded : s.queued_bytes ≤ s.max_bytes
  pub covered : length s.queue ≡ length s.queued_sizes
  pub bounded : length s.queue ≤ s.max_frames
  pub live : s.desynchronized ≡ false

pub release_consumed-IsReleased :
    (s : Subscriber) → IsValid s → s.desynchronized ≡ false → IsReleased (release_consumed s)
unfolding release_consumed
release_consumed-IsReleased s v l =
    let gone = length s.queued_sizes - length s.queue in
    let covered = (live_covered s v l).0 in
    let r = release-drop gone s.queued_bytes s.queued_sizes (omega arith) v.bytes_counted in
    let fits = v.bytes_bounded in
    rw r.0 (record {
      bytes_counted = refl;
      bytes_bounded = omega (arith, r.1);
      covered = omega (arith, length-drop gone s.queued_sizes);
      bounded = (live_covered s v l).1;
      live = l;
    })

-- The answer of an offer: it is there, that is the queue had room, and it left a valid subscriber
-- with the same limits, which is desynchronized exactly where the frame was refused.
unfoldable pub Answers : ℕ → ℕ → Option (Bool × Subscriber) → Type 0
Answers max_frames max_bytes none = ⊥
Answers max_frames max_bytes (some (queued, s')) =
    IsValid s'
    × (s'.desynchronized ≡ not queued)
    × (s'.max_frames ≡ max_frames)
    × (s'.max_bytes ≡ max_bytes)

module _ (w : Wire) (stamp : Stamp) (frame : Fields) (size : ℕ) (generation : Option ℕ)
    (text : Option String) where
  desynchronize-Answers :
      (s : Subscriber) (over_frames : Bool)
      → IsReleased s
      → Answers s.max_frames s.max_bytes
          (answered false (desynchronize w stamp frame over_frames generation s))
  unfolding desynchronize Answers
  desynchronize-Answers s over_frames r =
      let bounded = r.bounded in
      let room : ltb s.max_frames (length s.queue) ≡ false = ground arith in
      rw (room, put_item)
        (
          record {
            bytes_counted = r.bytes_counted;
            bytes_bounded = r.bytes_bounded;
            covered = inl refl;
            queue_bounded = rw length-append (omega arith);
          },
          refl,
          refl,
          refl,
        )

  put_item-Answers :
      (s : Subscriber) (last : Option ℤ)
      → IsReleased s
      → leb s.max_frames (length s.queue) ≡ false
      → s.queued_bytes + size ≤ s.max_bytes
      → Answers s.max_frames s.max_bytes (
          answered true (
            put_item w frame text (record s {
              queued_bytes = s.queued_bytes + size;
              queued_sizes = s.queued_sizes ++ size ∷ [];
              last_queued_seq = last;
            })))
  unfolding put_item Answers
  put_item-Answers s last r room fits =
      let covered = r.covered in
      let counted = r.bytes_counted in
      let free : ltb s.max_frames (length s.queue) ≡ false = ground arith in
      let short : length (s.queue ++ item_of w s.is_encoded frame text ∷ []) ≤ s.max_frames =
        rw length-append (ground arith) in
      rw free (
        record {
          bytes_counted = rw sum-append (omega arith);
          bytes_bounded = fits;
          covered = inr (rw (length-append, length-append) (omega arith), short);
          queue_bounded = omega arith;
        },
        r.live,
        refl,
        refl,
      )

  offer_released-Answers :
      (s : Subscriber)
      → IsReleased s
      → Answers s.max_frames s.max_bytes (offer_released w stamp frame size generation text s)
  unfolding offer_released
  offer_released-Answers s r =
      elim (Bool-cases
        (leb s.max_frames (length s.queue) || ltb s.max_bytes (s.queued_bytes + size))) [
          | inl over ↦ rw over (desynchronize-Answers s (leb s.max_frames (length s.queue)) r)
          | inr fits ↦ rw fits (
              put_item-Answers s (seq_after (get_or_null "seq" frame) s.last_queued_seq) r
                (ground arith) (ground arith))
        ]

  pub offer_live :
      (s : Subscriber)
      → s.desynchronized ≡ false
      → offer w stamp frame size generation text s
        ≡ offer_released w stamp frame size generation text (release_consumed s)
  unfolding offer
  offer_live s live = ground arith

  pub offer_cut :
      (s : Subscriber)
      → s.desynchronized ≡ true
      → offer w stamp frame size generation text s ≡ some (false, s)
  unfolding offer
  offer_cut s cut = ground arith

  -- From a valid subscriber an offer never overflows the queue: it answers, leaves a valid
  -- subscriber with the same limits, and the answer is false exactly where that one is
  -- desynchronized.
  pub offer-Answers :
      (s : Subscriber)
      → IsValid s
      → Answers s.max_frames s.max_bytes (offer w stamp frame size generation text s)
  offer-Answers s v = elim (Bool-cases s.desynchronized) [
    | inl cut ↦ rw (offer_cut s cut) (unfold Answers in (v, cut, refl, refl))
    | inr live ↦ rw (offer_live s live) (
        unfold release_consumed in
        offer_released-Answers (release_consumed s) (release_consumed-IsReleased s v live))
  ]

take_head-IsValid :
    (q : List Item) (s : Subscriber) → s.queue ≡ q → IsValid s → IsValid (take_head q s).1
take_head-IsValid [] s e v = v
take_head-IsValid (item ∷ rest) s e v =
    let shorter : suc (length rest) ≡ length s.queue = ap length (sym e) in
    let bounded = v.queue_bounded in
    record {
      bytes_counted = v.bytes_counted;
      bytes_bounded = v.bytes_bounded;
      covered = elim v.covered [ inl cut ↦ inl cut | inr c ↦ inr (shorter_covered c.0 c.1) ];
      queue_bounded = omega arith;
    }
  where
    shorter_covered :
        length s.queue ≤ length s.queued_sizes
        → length s.queue ≤ s.max_frames
        → (length rest ≤ length s.queued_sizes) × (length rest ≤ s.max_frames)
    shorter_covered a b =
        let shorter : suc (length rest) ≡ length s.queue = ap length (sym e) in
        (omega arith, omega arith)

-- The reader takes the oldest item, which keeps a subscriber valid.
pub consume-IsValid : (s : Subscriber) → IsValid s → IsValid (consume s).1
unfolding consume
consume-IsValid s v = take_head-IsValid s.queue s refl v

pub new-IsValid :
    (max_frames max_bytes : ℕ) (is_encoded : Bool) → IsValid (new max_frames max_bytes is_encoded)
new-IsValid max_frames max_bytes is_encoded = ground arith
