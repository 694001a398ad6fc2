-- ===== src/Stream/History/Replay.antt =====
-- What `?after=` gives a reconnecting client.
use astation.Prelude.{
  ℕ, ◌-◌, ◌≤◌, ◌<◌, ◌≡◌, refl, sym, ap, ◌∙◌, String, false, some, List, [], ◌∷◌, ◌++◌, map, keep_if,
  keep_if-append, length, take, take-append-drop, All, arith, Bool-cases, inl, inr, ltb, eqb, subst,
}
use astation.Prelude.Eq.{string_eq, option_eq}
use astation.Json.{Fields}
use astation.Stream.History.{Entry, History, new, starts_after, newer_than, replay}
use astation.Stream.History.Covers.{IsCovered, Increasing, Above, push_all, push_all-new-IsCovered}

-- No entry of `l` is newer than `after`.
none_newer :
    (after : ℕ) (l : List Entry)
    → All (λ (e : Entry). e.seq ≤ after) l
    → keep_if (λ (e : Entry). ltb after e.seq) l ≡ []
none_newer after [] a = refl
none_newer after (e ∷ l) a = ground (arith, none_newer after l a.1)

-- Entries before the first kept one are no newer than the cursor, if that one is at most the next.
before_first :
    (after : ℕ) (xs ys : List Entry)
    → Increasing (xs ++ ys)
    → starts_after after ys ≡ false
    → All (λ (e : Entry). e.seq ≤ after) xs
before_first after [] ys i s = tt
before_first after (x ∷ xs) [] i s = cc s
before_first after (x ∷ xs) (y ∷ ys) i s =
    (first_below xs i.0, before_first after xs (y ∷ ys) i.1 s)
  where
    first_below :
        (l : List Entry) → All (λ (f : Entry). x.seq < f.seq) (l ++ y ∷ ys) → x.seq ≤ after
    first_below [] a = let below = a.0 in ground arith
    first_below (z ∷ l) a = first_below l a.1

newer_than-published :
    (after : ℕ) (pushed : List Entry) (h : History)
    → IsCovered pushed h
    → starts_after after h.entries ≡ false
    → newer_than after h.entries ≡ newer_than after pushed
newer_than-published after pushed h c covered =
    let k = length pushed - h.max_entries in
    let dropped = take k pushed in
    let whole : dropped ++ h.entries ≡ pushed =
      ap (λ l. dropped ++ l) c.kept ∙ take-append-drop k pushed in
    let old : All (λ (e : Entry). e.seq ≤ after) dropped =
      before_first after dropped h.entries (subst Increasing (sym whole) c.increasing) covered in
    ap (map (λ (e : Entry). (e.frame, e.text))) (
      sym (
        ap (keep_if (λ (e : Entry). ltb after e.seq)) (sym whole)
        ∙ (keep_if-append (λ (e : Entry). ltb after e.seq) dropped h.entries
            ∙ ap (λ l. l ++ keep_if (λ (e : Entry). ltb after e.seq) h.entries)
                (none_newer after dropped old))))

newer_than-last :
    (after : ℕ) (pushed : List Entry) (h : History)
    → IsCovered pushed h
    → after ≡ h.last_seq
    → newer_than after pushed ≡ []
newer_than-last after pushed h c e =
    ap (map (λ (e : Entry). (e.frame, e.text))) (
      none_newer after pushed
        (subst (λ n. All (λ (e : Entry). e.seq ≤ n) pushed) (sym e) c.bounded))

pub replay-covered :
    (after : ℕ) (pushed : List Entry) (h : History) (frames : List (Fields × String))
    → IsCovered pushed h
    → replay (some after) h ≡ (frames, false)
    → frames ≡ newer_than after pushed
unfolding replay
replay-covered after pushed h frames c e = elim (Bool-cases (eqb after h.last_seq)) [
  | inl last ↦ let none_left = newer_than-last after pushed h c (ground arith) in ground arith
  | inr earlier ↦ elim (Bool-cases (starts_after after h.entries)) [
    | inl lost ↦ ground arith
    | inr covered ↦ let found = newer_than-published after pushed h c covered in ground arith
  ]
]

-- Whatever entries with increasing numbers above 0 were pushed on a new history, and however few of them
-- it keeps: a replay that is not refused is exactly the pushed frames whose number is above the cursor,
-- in the order of the pushes.
pub replay_complete :
    (n after : ℕ) (pushed : List Entry) (frames : List (Fields × String))
    → Above 0 pushed
    → replay (some after) (push_all pushed (new n)) ≡ (frames, false)
    → frames ≡ newer_than after pushed
replay_complete n after pushed frames a e =
    replay-covered after pushed (push_all pushed (new n)) frames (push_all-new-IsCovered n pushed a)
      e
