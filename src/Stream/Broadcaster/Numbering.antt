-- ===== src/Stream/Broadcaster/Numbering.antt =====
-- The numbers of published frames, and what a replay finds after any operations.
use astation.Prelude.{
  ℕ, zero, suc, ◌+◌, ◌-◌, ◌≤◌, ◌<◌, ◌≡◌, refl, sym, ap, ◌∙◌, subst, String, true, false, none, some,
  List, [], ◌∷◌, ◌++◌, map, All, All-append, length, length-append, is_some, ltb, eqb, Bool-cases,
  inl, inr, arith,
}
use astation.Prelude.Eq.{string_eq}
use astation.Json.{Json, str, num, Fields, put, get_or_null}
use astation.Json.Laws.{get_or_null-put, get_or_null-put_self}
use astation.Stream.Wire.{Wire}
use astation.Stream.History.{Entry, History, push, newer_than, replay}
use astation.Stream.History.Replay.{replay-covered}
use astation.Stream.History.Covers.{IsCovered, push-IsCovered}
use astation.Stream.Broadcaster.{Broadcaster, numbered, remember, remember_as, publish}
use astation.Stream.Broadcaster.Preserve.{
  fan_out-state, fan_out-cases, Stable, KeepsQuarantine, IsUnnumbered, keeps_quarantine,
}

-- Every text can be encoded, as one without a lone surrogate can.
abbrev pub Encodes : Wire → Type 0
Encodes w = (text : String) → is_some (w.utf8_size text) ≡ true

-- The entries have the numbers from `n` on, none left out.
abbrev pub IsConsecutive : ℕ → List Entry → Type 0
IsConsecutive n [] = Unit
IsConsecutive n (e ∷ l) = (e.seq ≡ n) × IsConsecutive (suc n) l

-- The entry's frame has its number, and its text is the frame's.
pub record IsFramed (w : Wire) (e : Entry) : Type 0 where
  pub number : get_or_null "seq" e.frame ≡ num e.seq
  pub text : e.text ≡ w.encode_frame e.frame

-- Of a history, the numbered frames that were kept in it, and the next number: the frames' numbers
-- increase below the next one, and where every text can be encoded each number from 1 to it has
-- its frame.
pub record AreNumbered (w : Wire) (h : History) (next : ℕ) : Type 0 where
  pub published : List Entry
  pub covered : IsCovered published h
  pub framed : All (IsFramed w) published
  pub fresh : h.last_seq < next
  pub complete : Encodes w → IsConsecutive 1 published × (suc (length published) ≡ next)

pub record IsNumbered (w : Wire) (b : Broadcaster) : Type 0 where
  pub numbers : AreNumbered w b.history b.next_seq

remember-unnumbered :
    (frame : Fields) (epoch text : String) (h : History)
    → IsUnnumbered frame
    → remember (put "stream_epoch" (str epoch) frame) text h ≡ h
remember-unnumbered frame epoch text h e =
    ap (λ n. remember_as n (put "stream_epoch" (str epoch) frame) text h)
      (ap numbered (get_or_null-put "stream_epoch" "seq" (str epoch) frame) ∙ e)

remember-numbered :
    (frame : Fields) (epoch text : String) (n : ℕ) (h : History)
    → remember (put "stream_epoch" (str epoch) (put "seq" (num (suc n)) frame)) text h
      ≡ push
          (record {
            seq = suc n;
            frame = put "stream_epoch" (str epoch) (put "seq" (num (suc n)) frame);
            text = text;
          })
          h
remember-numbered frame epoch text n h =
    let f = put "seq" (num (suc n)) frame in
    ap (λ k. remember_as k (put "stream_epoch" (str epoch) f) text h)
      (ap numbered (
        get_or_null-put "stream_epoch" "seq" (str epoch) f
        ∙ get_or_null-put_self "seq" (num (suc n)) frame))

IsConsecutive-append :
    (n : ℕ) (l : List Entry) (e : Entry)
    → IsConsecutive n l
    → e.seq ≡ n + length l
    → IsConsecutive n (l ++ e ∷ [])
IsConsecutive-append n [] e c s = (omega arith, tt)
IsConsecutive-append n (x ∷ l) e c s = (c.0, IsConsecutive-append (suc n) l e c.1 (omega arith))

publish-AreNumbered :
    (w : Wire) (frame : Fields) (epoch : String) (next : ℕ) (h : History)
    → AreNumbered w h next
    → let f = put "stream_epoch" (str epoch) (put "seq" (num next) frame) in
      AreNumbered w (remember f (w.encode_frame f) h) (suc next)
publish-AreNumbered w frame epoch zero h a = absurd (let f = a.fresh in omega arith)
publish-AreNumbered w frame epoch (suc n) h a =
    let f = put "stream_epoch" (str epoch) (put "seq" (num (suc n)) frame) in
    let e : Entry = record { seq = suc n; frame = f; text = w.encode_frame f } in
    rw (remember-numbered frame epoch (w.encode_frame f) n h) (record {
      published = a.published ++ e ∷ [];
      covered = push-IsCovered a.published e h a.covered a.fresh;
      framed = All-append (IsFramed w) a.published (e ∷ []) a.framed (
        record {
          number =
              get_or_null-put "stream_epoch" "seq" (str epoch) (put "seq" (num (suc n)) frame)
              ∙ get_or_null-put_self "seq" (num (suc n)) frame;
          text = refl;
        },
        tt,
      );
      fresh = unfold push in omega arith;
      complete = λ all.
          let before = a.complete all in
          let last = before.1 in
          (
            IsConsecutive-append 1 a.published e before.0 (omega arith),
            rw (length-append a.published (e ∷ [])) (omega arith),
          );
    })

-- A frame that is not numbered is not remembered.
unnumbered-AreNumbered :
    (w : Wire) (frame : Fields) (epoch text : String) (next : ℕ) (h : History)
    → IsUnnumbered frame
    → AreNumbered w h next
    → AreNumbered w (remember (put "stream_epoch" (str epoch) frame) text h) next
unnumbered-AreNumbered w frame epoch text next h u a =
    subst (λ h'. AreNumbered w h' next) (sym (remember-unnumbered frame epoch text h u)) a

-- A number that is spent on a frame that cannot be encoded.
spent-AreNumbered :
    (w : Wire) (text : String) (next : ℕ) (h : History)
    → w.utf8_size text ≡ none
    → AreNumbered w h next
    → AreNumbered w h (suc next)
spent-AreNumbered w text next h lost a = record {
  published = a.published;
  covered = a.covered;
  framed = a.framed;
  fresh = let f = a.fresh in omega arith;
  complete = λ all. let some_size = all text in cc;
}

pub IsNumbered-Stable : (w : Wire) → Stable w (IsNumbered w)
IsNumbered-Stable w = record {
  of_fan_out = λ o frame g b u n. fan_out-state w (IsNumbered w) o frame g b n (λ text size.
      record {
        numbers =
            unnumbered-AreNumbered w frame b.stream_epoch text b.next_seq b.history u n.numbers;
      });
  of_publish = λ o frame g b n.
      unfold publish in
      fan_out-cases w (IsNumbered w) o (put "seq" (num b.next_seq) frame) g
        (record b { next_seq = suc b.next_seq })
        (λ lost. record {
          numbers =
              spent-AreNumbered w
                (w.encode_frame
                  (put "stream_epoch" (str b.stream_epoch) (put "seq" (num b.next_seq) frame)))
                b.next_seq b.history lost n.numbers;
        })
        (λ size. record {
          numbers = publish-AreNumbered w frame b.stream_epoch b.next_seq b.history n.numbers;
        });
  of_gap = λ b n. record { numbers = n.numbers };
  of_generation = λ g b n. record { numbers = n.numbers };
  of_inbox = λ i b n. record { numbers = n.numbers };
  of_cursor = λ c b n. record { numbers = n.numbers };
}

-- A frame's entry into the quarantine or out of it writes no history.
pub IsNumbered-KeepsQuarantine : (w : Wire) → KeepsQuarantine w (IsNumbered w)
IsNumbered-KeepsQuarantine w =
    keeps_quarantine w (IsNumbered w) (IsNumbered-Stable w)
      (λ q n b h. record { numbers = h.numbers })

-- `k` numbers from `n` on.
abbrev pub range : ℕ → ℕ → List ℕ
range n zero = []
range n (suc k) = n ∷ range (suc n) k

-- The numbers that a client finds on the frames.
abbrev pub numbers_of : List (Fields × String) → List Json
numbers_of frames = map (λ (f : Fields × String). get_or_null "seq" f.0) frames

abbrev pub as_numbers : List ℕ → List Json
as_numbers ns = map num ns

numbers_of-newer_than :
    (w : Wire) (after n : ℕ) (l : List Entry)
    → after < n
    → IsConsecutive n l
    → All (IsFramed w) l
    → numbers_of (newer_than after l) ≡ as_numbers (range n (length l))
numbers_of-newer_than w after n [] h c f = refl
numbers_of-newer_than w after n (e ∷ l) h c f =
    let kept : ltb after e.seq ≡ true = let s = c.0 in ground arith in
    rw kept (
      ap (λ j. j ∷ numbers_of (newer_than after l)) (f.0.number ∙ ap num c.0)
      ∙ ap (λ js. num n ∷ js) (numbers_of-newer_than w after (suc n) l (omega arith) c.1 f.1))

numbers_of-range :
    (w : Wire) (after n : ℕ) (l : List Entry)
    → n ≤ suc after
    → IsConsecutive n l
    → All (IsFramed w) l
    → numbers_of (newer_than after l) ≡ as_numbers (range (suc after) ((n + length l) - suc after))
numbers_of-range w after n [] h c f =
    let nothing : (n + 0) - suc after ≡ 0 = omega arith in
    ap (λ k. as_numbers (range (suc after) k)) (sym nothing)
numbers_of-range w after n (e ∷ l) h c f = elim (Bool-cases (eqb n (suc after))) [
  | inl first ↦
      let same : n ≡ suc after = ground arith in
      let many : length (e ∷ l) ≡ (n + length (e ∷ l)) - suc after = omega arith in
      numbers_of-newer_than w after n (e ∷ l) (omega arith) c f
      ∙ ap (λ m. as_numbers (range m (length (e ∷ l)))) same
      ∙ ap (λ k. as_numbers (range (suc after) k)) many
  | inr old ↦
      let below : suc n ≤ suc after = ground arith in
      let dropped : ltb after e.seq ≡ false = let s = c.0 in ground arith in
      let same : (suc n + length l) - suc after ≡ (n + length (e ∷ l)) - suc after = omega arith in
      rw dropped (
        numbers_of-range w after (suc n) l below c.1 f.1
        ∙ ap (λ k. as_numbers (range (suc after) k)) same)
]

newer_than-framed :
    (w : Wire) (after : ℕ) (l : List Entry)
    → All (IsFramed w) l
    → All (λ (f : Fields × String). f.1 ≡ w.encode_frame f.0) (newer_than after l)
newer_than-framed w after [] f = tt
newer_than-framed w after (e ∷ l) f = elim (Bool-cases (ltb after e.seq)) [
  | inl new ↦ rw new (f.0.text, newer_than-framed w after l f.1)
  | inr old ↦ rw old (newer_than-framed w after l f.1)
]

-- What a replay that is not refused answers: the frames with every number above the cursor that was
-- spent, one each, in order, and each with its own text.
pub replay-numbers :
    (w : Wire) (after : ℕ) (h : History) (next : ℕ) (frames : List (Fields × String))
    → AreNumbered w h next
    → Encodes w
    → replay (some after) h ≡ (frames, false)
    → (numbers_of frames ≡ as_numbers (range (suc after) (next - suc after)))
      × All (λ (f : Fields × String). f.1 ≡ w.encode_frame f.0) frames
replay-numbers w after h next frames a all e =
    let found : frames ≡ newer_than after a.published =
      replay-covered after a.published h frames a.covered e in
    let whole = a.complete all in
    let same : 1 + length a.published ≡ next = let e = whole.1 in omega arith in
    (
      ap numbers_of found
          ∙ numbers_of-range w after 1 a.published (omega arith) whole.0 a.framed
          ∙ ap (λ m. as_numbers (range (suc after) (m - suc after))) same,
      subst (All (λ (f : Fields × String). f.1 ≡ w.encode_frame f.0)) (sym found)
          (newer_than-framed w after a.published a.framed),
    )
