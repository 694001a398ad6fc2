-- ===== src/Stream/Subscriber/Delivery.antt =====
-- What a client receives: the offered frames in order with none left out, up to at most one
-- desynchronized frame, which is the last.
use astation.Prelude.{
  ℕ, ◌+◌, ◌≡◌, refl, sym, ap, subst, ◌∙◌, String, Bool, true, false, Option, none, some, List, [],
  ◌∷◌, ◌++◌, map, append-nil, append_assoc, map-append, leb, ltb, length, ◌||◌, arith, inl, inr,
  Bool-cases,
}
use astation.Prelude.Eq.{string_eq}
use astation.Json.{str, Fields, get, get_or_null}
use astation.Stream.Wire.{Wire, Stamp}
use astation.Stream.Frame.{desynchronized_frame}
use astation.Stream.Subscriber.{
  Item, Subscriber, new, release_consumed, desync_frame, offer_released, offer, consume, take_head,
  item_of, seq_after,
}
use astation.Stream.Subscriber.Invariant.{
  IsValid, IsReleased, release_consumed-IsReleased, Answers, offer-Answers, offer_live, offer_cut,
  consume-IsValid, new-IsValid,
}

-- The arguments of one call of `offer`.
pub record Offer : Type 0 where
  pub stamp : Stamp
  pub frame : Fields
  pub size : ℕ
  pub generation : Option ℕ
  pub text : Option String

abbrev pub offer_one : Wire → Offer → Subscriber → Option (Bool × Subscriber)
offer_one w o s = offer w o.stamp o.frame o.size o.generation o.text s

abbrev pub item : Wire → Bool → Offer → Item
item w is_encoded o = item_of w is_encoded o.frame o.text

-- The frame's type is `stream.desynchronized`.
abbrev pub IsMarker : Fields → Type 0
IsMarker f = get "type" f ≡ some (str "stream.desynchronized")

-- The outcome of an offer to a live subscriber: the frame is queued last, or a marker is and the
-- subscriber is cut off.
data Outcome (w : Wire) (o : Offer) (s : Subscriber) : Type 0 where
  queued :
      (s' : Subscriber)
      → offer_one w o s ≡ some (true, s')
      → s'.queue ≡ s.queue ++ item w s.is_encoded o ∷ []
      → s'.desynchronized ≡ false
      → s'.is_encoded ≡ s.is_encoded
      → Outcome w o s
  cut :
      (s' : Subscriber) (marker : Fields)
      → offer_one w o s ≡ some (false, s')
      → IsMarker marker
      → s'.queue ≡ s.queue ++ item_of w s.is_encoded marker none ∷ []
      → s'.desynchronized ≡ true
      → s'.is_encoded ≡ s.is_encoded
      → Outcome w o s

desync_frame-IsMarker :
    (stamp : Stamp) (undelivered : Fields) (over : Bool) (generation : Option ℕ) (s : Subscriber)
    → IsMarker (desync_frame stamp undelivered over generation s)
unfolding desynchronized_frame
desync_frame-IsMarker stamp undelivered over generation s = refl

module _ (w : Wire) (o : Offer) (s : Subscriber) (r : IsReleased s) where
  released_offer : Option (Bool × Subscriber)
  released_offer = offer_released w o.stamp o.frame o.size o.generation o.text s

  over_frames : Bool
  over_frames = leb s.max_frames (length s.queue)

  marker_of : Fields
  unfolding over_frames
  marker_of = desync_frame o.stamp o.frame over_frames o.generation s

  cut_off : Subscriber
  unfolding marker_of
  cut_off = record s {
    desynchronized = true;
    queue = s.queue ++ item_of w s.is_encoded marker_of none ∷ [];
  }

  with_frame : Subscriber
  with_frame = record s {
    queue = s.queue ++ item w s.is_encoded o ∷ [];
    queued_bytes = s.queued_bytes + o.size;
    queued_sizes = s.queued_sizes ++ o.size ∷ [];
    last_queued_seq = seq_after (get_or_null "seq" o.frame) s.last_queued_seq;
  }

  room : ltb s.max_frames (length s.queue) ≡ false
  room = let bounded = r.bounded in ground arith

  released_offer_over :
      leb s.max_frames (length s.queue) || ltb s.max_bytes (s.queued_bytes + o.size) ≡ true
      → released_offer ≡ some (false, cut_off)
  unfolding released_offer cut_off offer_released
  released_offer_over over = rw (over, room)

  released_offer_fits :
      leb s.max_frames (length s.queue) || ltb s.max_bytes (s.queued_bytes + o.size) ≡ false
      → released_offer ≡ some (true, with_frame)
  unfolding released_offer with_frame offer_released
  released_offer_fits fits = rw (fits, room)

offer_outcome :
    (w : Wire) (o : Offer) (s : Subscriber) → IsValid s → s.desynchronized ≡ false → Outcome w o s
unfolding release_consumed released_offer marker_of cut_off with_frame
offer_outcome w o s v live =
    let s1 = release_consumed s in
    let r = release_consumed-IsReleased s v live in
    let e = offer_live w o.stamp o.frame o.size o.generation o.text s live in
    elim (Bool-cases
      (leb s1.max_frames (length s1.queue) || ltb s1.max_bytes (s1.queued_bytes + o.size))) [
        | inl over ↦
            cut (cut_off w o s1 r) (marker_of w o s1 r) (e ∙ released_offer_over w o s1 r over)
              (desync_frame-IsMarker o.stamp o.frame (leb s1.max_frames (length s1.queue))
                o.generation s1)
              refl refl refl
        | inr fits ↦
            queued (with_frame w o s1 r) (e ∙ released_offer_fits w o s1 r fits) refl live refl
      ]

-- What happens to a subscriber: the broadcaster offers a frame, or the reader asks for an item.
pub data Event : Type 0 where
  offered : Offer → Event
  read : Event

-- The items handed to the reader so far, and the subscriber.
abbrev pub Feed : Type 0
Feed = List Item × Subscriber

abbrev taken : Option Item → List Item → List Item
taken none out = out
taken (some i) out = out ++ i ∷ []

abbrev after_offer : List Item → Option (Bool × Subscriber) → Option Feed
after_offer out none = none
after_offer out (some (accepted, s)) = some (out, s)

pub step : Wire → Event → Feed → Option Feed
step w (offered o) (out, s) = after_offer out (offer_one w o s)
step w read (out, s) = some (taken (consume s).0 out, (consume s).1)

abbrev run_after : (Feed → Option Feed) → Option Feed → Option Feed
run_after f none = none
run_after f (some x) = f x

-- `none` where a `put_nowait` raised
pub run : Wire → List Event → Feed → Option Feed
run w [] x = some x
run w (e ∷ es) x = run_after (run w es) (step w e x)

pub offers : List Event → List Offer
offers [] = []
offers (offered o ∷ es) = o ∷ offers es
offers (read ∷ es) = offers es

-- What ends a feed: nothing while it is live, and one marker once it is cut off and misses frames.
pub data Ending (w : Wire) (is_encoded : Bool) : Bool → List Offer → List Item → Type 0 where
  open_end : Ending w is_encoded false [] []
  marked :
      (marker : Fields) (missed : List Offer)
      → IsMarker marker
      → Ending w is_encoded true missed (item_of w is_encoded marker none ∷ [])

-- The frames `sent` are a first part of those offered, and what the reader has received and what is
-- queued are exactly these, and the ending.
pub record IsDelivery (w : Wire) (is_encoded : Bool) (all : List Offer) (x : Feed) : Type 0 where
  pub sent : List Offer
  pub missed : List Offer
  pub marker : List Item
  pub valid : IsValid x.1
  pub same_encoding : x.1.is_encoded ≡ is_encoded
  pub split : all ≡ sent ++ missed
  pub received : x.0 ++ x.1.queue ≡ map (item w is_encoded) sent ++ marker
  pub ending : Ending w is_encoded x.1.desynchronized missed marker

take_head_feed :
    (q : List Item) (s : Subscriber) (out : List Item)
    → s.queue ≡ q
    → (taken (take_head q s).0 out ++ (take_head q s).1.queue ≡ out ++ s.queue)
      × ((take_head q s).1.desynchronized ≡ s.desynchronized)
      × ((take_head q s).1.is_encoded ≡ s.is_encoded)
take_head_feed [] s out e = (refl, refl, refl)
take_head_feed (i ∷ rest) s out e =
    (append_assoc out (i ∷ []) rest ∙ ap (λ q. out ++ q) (sym e), refl, refl)

append_queued :
    (out sent queue queue' more : List Item)
    → out ++ queue ≡ sent
    → queue' ≡ queue ++ more
    → out ++ queue' ≡ sent ++ more
append_queued out sent queue queue' more got grown =
    ap (λ q. out ++ q) grown ∙ (sym (append_assoc out queue more) ∙ ap (λ q. q ++ more) got)

module _ (w : Wire) (is_encoded : Bool) where
  read-IsDelivery :
      (all : List Offer) (out : List Item) (s : Subscriber)
      → IsDelivery w is_encoded all (out, s)
      → IsDelivery w is_encoded all (taken (consume s).0 out, (consume s).1)
  unfolding consume
  read-IsDelivery all out s d =
      let f = take_head_feed s.queue s out refl in
      record {
        sent = d.sent;
        missed = d.missed;
        marker = d.marker;
        valid = consume-IsValid s d.valid;
        same_encoding = f.2 ∙ d.same_encoding;
        split = d.split;
        received = f.0 ∙ d.received;
        ending = subst (λ b. Ending w is_encoded b d.missed d.marker) (sym f.1) d.ending;
      }

  -- The new feed after an offer that answered.
  abbrev Delivered : List Offer → Option Feed → Type 0
  Delivered all none = ⊥
  Delivered all (some x) = IsDelivery w is_encoded all x

  answer-IsValid :
      (o : Offer) (s s' : Subscriber) (b : Bool)
      → IsValid s
      → offer_one w o s ≡ some (b, s')
      → IsValid s'
  unfolding Answers
  answer-IsValid o s s' b v e =
      let answer : Answers s.max_frames s.max_bytes (some (b, s')) =
        subst (λ r. Answers s.max_frames s.max_bytes r) e
          (offer-Answers w o.stamp o.frame o.size o.generation o.text s v) in
      answer.0

  live_offer :
      (all : List Offer) (o : Offer) (out : List Item) (s : Subscriber)
      → IsValid s
      → s.is_encoded ≡ is_encoded
      → out ++ s.queue ≡ map (item w is_encoded) all
      → Outcome w o s
      → Delivered (all ++ o ∷ []) (after_offer out (offer_one w o s))
  live_offer all o out s v same got (queued s' e q l same') = rw e (record {
    sent = all ++ o ∷ [];
    missed = [];
    marker = [];
    valid = answer-IsValid o s s' true v e;
    same_encoding = same' ∙ same;
    split = sym (append-nil (all ++ o ∷ []));
    received =
        append_queued out (map (item w is_encoded) all) s.queue s'.queue (item w is_encoded o ∷ [])
          got (q ∙ ap (λ b. s.queue ++ item w b o ∷ []) same)
        ∙ rw (append-nil, map-append);
    ending = subst (λ b. Ending w is_encoded b [] []) (sym l) open_end;
  })
  live_offer all o out s v same got (cut s' marker e m q l same') = rw e (record {
    sent = all;
    missed = o ∷ [];
    marker = item_of w is_encoded marker none ∷ [];
    valid = answer-IsValid o s s' false v e;
    same_encoding = same' ∙ same;
    split = refl;
    received =
        append_queued out (map (item w is_encoded) all) s.queue s'.queue
          (item_of w is_encoded marker none ∷ []) got
          (q ∙ ap (λ b. s.queue ++ item_of w b marker none ∷ []) same);
    ending =
        subst (λ b. Ending w is_encoded b (o ∷ []) (item_of w is_encoded marker none ∷ [])) (sym l)
          (marked marker (o ∷ []) m);
  })

  Ending-live :
      {missed : List Offer} {marker : List Item} {b : Bool}
      → Ending w is_encoded b missed marker
      → b ≡ false
      → (missed ≡ []) × (marker ≡ [])
  Ending-live open_end e = (refl, refl)
  Ending-live (marked m missed h) e = cc e

  Ending-cut :
      {missed : List Offer} {marker : List Item} {b : Bool} (o : Offer)
      → Ending w is_encoded b missed marker
      → b ≡ true
      → Ending w is_encoded b (missed ++ o ∷ []) marker
  Ending-cut o open_end e = cc e
  Ending-cut o (marked m missed h) e = marked m (missed ++ o ∷ []) h

  offer-IsDelivery :
      (all : List Offer) (o : Offer) (out : List Item) (s : Subscriber)
      → IsDelivery w is_encoded all (out, s)
      → Delivered (all ++ o ∷ []) (after_offer out (offer_one w o s))
  offer-IsDelivery all o out s d = elim (Bool-cases s.desynchronized) [
    | inl off ↦ rw (offer_cut w o.stamp o.frame o.size o.generation o.text s off) (record {
      sent = d.sent;
      missed = d.missed ++ o ∷ [];
      marker = d.marker;
      valid = d.valid;
      same_encoding = d.same_encoding;
      split = ap (λ l. l ++ o ∷ []) d.split ∙ append_assoc d.sent d.missed (o ∷ []);
      received = d.received;
      ending = Ending-cut o d.ending off;
    })
    | inr on ↦
        let none_missed = Ending-live d.ending on in
        let sent_all : all ≡ d.sent =
          d.split ∙ (ap (λ l. d.sent ++ l) none_missed.0 ∙ append-nil d.sent) in
        let got : out ++ s.queue ≡ map (item w is_encoded) all =
          d.received
          ∙ (ap (λ l. map (item w is_encoded) d.sent ++ l) none_missed.1
              ∙ (append-nil (map (item w is_encoded) d.sent)
                  ∙ ap (map (item w is_encoded)) (sym sent_all))) in
        live_offer all o out s d.valid d.same_encoding got (offer_outcome w o s d.valid on)
  ]

  after_step :
      (es : List Event) (all all' : List Offer)
      → ((x : Feed) → IsDelivery w is_encoded all x → Delivered all' (run w es x))
      → (r : Option Feed) → Delivered all r
      → Delivered all' (run_after (run w es) r)
  after_step es all all' rest none h = h
  after_step es all all' rest (some x) h = rest x h

  run-Delivered :
      (es : List Event) (all : List Offer) (x : Feed)
      → IsDelivery w is_encoded all x
      → Delivered (all ++ offers es) (run w es x)
  unfolding run offers step
  run-Delivered [] all x d = subst (λ l. IsDelivery w is_encoded l x) (sym (append-nil all)) d
  run-Delivered (read ∷ es) all (out, s) d =
      run-Delivered es all (taken (consume s).0 out, (consume s).1) (read-IsDelivery all out s d)
  run-Delivered (offered o ∷ es) all (out, s) d =
      subst (λ l. Delivered l (run_after (run w es) (after_offer out (offer_one w o s))))
        (append_assoc all (o ∷ []) (offers es))
        (after_step es (all ++ o ∷ []) ((all ++ o ∷ []) ++ offers es)
          (run-Delivered es (all ++ o ∷ [])) (after_offer out (offer_one w o s))
          (offer-IsDelivery all o out s d))

-- `IsDelivery` of a run that did not raise.
abbrev pub Delivers : Wire → Bool → List Offer → Option Feed → Type 0
Delivers w is_encoded all none = ⊥
Delivers w is_encoded all (some x) = IsDelivery w is_encoded all x

-- From a new subscriber, whatever is offered and whenever the reader reads: no `put_nowait` raises,
-- and what the reader has received followed by what is queued is exactly a first part of the offered
-- frames, in order, and then nothing if the subscriber is not cut off, and no frame is missed, or one
-- desynchronized frame.
pub run-new-Delivers :
    (w : Wire) (max_frames max_bytes : ℕ) (is_encoded : Bool) (es : List Event)
    → Delivers w is_encoded (offers es) (run w es ([], new max_frames max_bytes is_encoded))
run-new-Delivers w max_frames max_bytes is_encoded es =
    go (run w es ([], new max_frames max_bytes is_encoded)) (
      run-Delivered w is_encoded es [] ([], new max_frames max_bytes is_encoded)
        (record {
          sent = [];
          missed = [];
          marker = [];
          valid = new-IsValid max_frames max_bytes is_encoded;
          same_encoding = refl;
          split = refl;
          received = refl;
          ending = open_end;
        }))
  where
    go :
        (r : Option Feed)
        → Delivered w is_encoded (offers es) r
        → Delivers w is_encoded (offers es) r
    go none h = h
    go (some x) h = h
