-- ===== src/Stream/Broadcaster/Feeds.antt =====
-- Every registered feed stays within its bounds, and no fan-out overflows one.
use astation.Prelude.{
  ℕ, suc, ◌≡◌, refl, String, Bool, true, false, Option, none, some, List, [], ◌∷◌, All, All-append,
}
use astation.Json.{Fields}
use astation.Stream.Wire.{Wire, Stamp}
use astation.Stream.Subscriber
use astation.Stream.Subscriber.{Subscriber, offer}
use astation.Stream.Subscriber.Invariant.{IsValid, Answers, offer-Answers, new-IsValid}
use astation.Stream.Broadcaster.{Broadcaster, Oracle, state_of, offer_all, publish, with_epoch}
use astation.Stream.Broadcaster.Pump.{registered, offer_replay, offer_sized, then_offer, subscribe}
use astation.Stream.Broadcaster.Preserve.{fan_out-state, Stable, KeepsQuarantine, keeps_quarantine}

abbrev pub HasValidFeeds : Broadcaster → Type 0
HasValidFeeds b = All IsValid b.subscribers

abbrev AllOffered : List Subscriber × Bool → Type 0
AllOffered r = (r.1 ≡ true) × All IsValid r.0

-- No subscriber's queue is full at a fan-out, and all stay valid.
pub offer_all-AllOffered :
    (w : Wire) (stamp : Stamp) (frame : Fields) (size : ℕ) (g : Option ℕ) (text : String)
    (l : List Subscriber)
    → All IsValid l
    → ((offer_all w stamp frame size g text l).1 ≡ true)
      × All IsValid (offer_all w stamp frame size g text l).0
unfolding offer_all Answers
offer_all-AllOffered w stamp frame size g text [] h = (refl, tt)
offer_all-AllOffered w stamp frame size g text (s ∷ l) h =
    go (offer w stamp frame size g (some text) s)
      (offer-Answers w stamp frame size g (some text) s h.0) (offer_all w stamp frame size g text l)
      (offer_all-AllOffered w stamp frame size g text l h.1)
  where
    go :
        (r : Option (Bool × Subscriber))
        → Answers s.max_frames s.max_bytes r
        → (rest : List Subscriber × Bool) → (rest.1 ≡ true) × All IsValid rest.0
        → AllOffered (elim r [ none ↦ (s ∷ l, false) | some (queued, s') ↦ (s' ∷ rest.0, rest.1) ])
    go none a rest k = absurd a
    go (some (queued, s')) a rest k = (k.0, (a.0, k.1))

-- The two fields in which a write of something else leaves the feeds alone.
pub HasValidFeeds-Stable : (w : Wire) → Stable w HasValidFeeds
HasValidFeeds-Stable w = record {
  of_fan_out = λ o frame g b u h. fan_out-state w HasValidFeeds o frame g b h (λ text size.
      (offer_all-AllOffered w o.stamp (with_epoch frame b) size g text b.subscribers h).1);
  of_publish = λ o frame g b h.
      unfold publish in
      fan_out-state w HasValidFeeds o _ g (record b { next_seq = suc b.next_seq }) h
        (λ text size. (offer_all-AllOffered w o.stamp _ size g text b.subscribers h).1);
  of_gap = λ b h. h;
  of_generation = λ g b h. h;
  of_inbox = λ i b h. h;
  of_cursor = λ c b h. h;
}

pub HasValidFeeds-KeepsQuarantine : (w : Wire) → KeepsQuarantine w HasValidFeeds
HasValidFeeds-KeepsQuarantine w =
    keeps_quarantine w HasValidFeeds (HasValidFeeds-Stable w) (λ q n b h. h)

abbrev Registrable : Option Subscriber → Type 0
Registrable none = Unit
Registrable (some s) = IsValid s

abbrev Offered : Option (Bool × Subscriber) → Type 0
Offered none = Unit
Offered (some answer) = IsValid answer.1

Answers-Offered :
    (s : Subscriber) (r : Option (Bool × Subscriber))
    → Answers s.max_frames s.max_bytes r
    → Offered r
unfolding Answers
Answers-Offered s none a = tt
Answers-Offered s (some answer) a = a.0

then_offer-IsValid :
    (r : Option (Bool × Subscriber)) (f : Subscriber → Option Subscriber)
    → Offered r
    → ((s : Subscriber) → IsValid s → Registrable (f s))
    → Registrable (then_offer r f)
then_offer-IsValid none f h k = tt
then_offer-IsValid (some answer) f h k = k answer.1 h

offer_replay-IsValid :
    (w : Wire) (o : Oracle) (frames : List (Fields × String)) (s : Subscriber)
    → IsValid s
    → Registrable (offer_replay w o frames s)
unfolding offer_replay
offer_replay-IsValid w o [] s v = v
offer_replay-IsValid w o ((frame, text) ∷ frames) s v =
    then_offer-IsValid _ (offer_replay w o frames) (sized (w.utf8_size text))
      (offer_replay-IsValid w o frames)
  where
    sized : (size : Option ℕ) → Offered (offer_sized w o frame text size s)
    sized none = tt
    sized (some size) =
        Answers-Offered s _ (offer-Answers w o.stamp frame size o.generation (some text) s v)

pub subscribe-HasValidFeeds :
    (w : Wire) (o : Oracle) (is_encoded : Bool) (after : Option ℕ) (b : Broadcaster)
    → HasValidFeeds b
    → HasValidFeeds (state_of (subscribe w o is_encoded after b))
unfolding subscribe
subscribe-HasValidFeeds w o is_encoded after b h = go _ (
    offer_replay-IsValid w o _ (Subscriber.new b.max_queued_frames b.max_queued_bytes is_encoded)
      (new-IsValid b.max_queued_frames b.max_queued_bytes is_encoded))
  where
    go : (r : Option Subscriber) → Registrable r → HasValidFeeds (state_of (registered b r))
    go none v = h
    go (some s) v = All-append IsValid b.subscribers (s ∷ []) h (v, tt)
