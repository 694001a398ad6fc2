-- ===== src/Stream/History/Covers.antt =====
-- After any pushes of increasing numbers the entries kept are the last of those pushed.
use astation.Prelude.{
  ℕ, zero, suc, ◌+◌, ◌-◌, ◌≤◌, ◌<◌, ◌≡◌, refl, sym, ap, ◌∙◌, List, [], ◌∷◌, ◌++◌, length, drop, All,
  subst, append-nil, append_assoc, All-append, length-append, length-drop, arith,
}
use astation.Stream.History.{Entry, History, new, append_bounded, push}

-- The history after entries were pushed, the first one first.
unfoldable pub push_all : List Entry → History → History
push_all [] h = h
push_all (e ∷ es) h = push_all es (push e h)

-- The numbers increase.
abbrev pub Increasing : List Entry → Type 0
Increasing [] = Unit
Increasing (e ∷ l) = All (λ (f : Entry). e.seq < f.seq) l × Increasing l

-- The history keeps the last of the entries that were pushed, `pushed`, whose numbers increase up to the
-- last one.
pub record IsCovered (pushed : List Entry) (h : History) : Type 0 where
  pub kept : h.entries ≡ drop (length pushed - h.max_entries) pushed
  pub increasing : Increasing pushed
  pub bounded : All (λ (e : Entry). e.seq ≤ h.last_seq) pushed

drop-append : (n : ℕ) (xs ys : List Entry) → n ≤ length xs → drop n (xs ++ ys) ≡ drop n xs ++ ys
drop-append zero xs ys h = refl
drop-append (suc n) [] ys h = elim h [ ]
drop-append (suc n) (x ∷ xs) ys h = drop-append n xs ys (omega arith)

drop-nil : (n : ℕ) → drop {A = Entry} n [] ≡ []
drop-nil zero = refl
drop-nil (suc n) = refl

drop-drop : (n m k : ℕ) (xs : List Entry) → m + n ≡ k → drop n (drop m xs) ≡ drop k xs
drop-drop n zero k xs e = let same : n ≡ k = omega arith in ap (λ i. drop i xs) same
drop-drop n (suc m) k [] e = drop-nil n ∙ sym (drop-nil k)
drop-drop n (suc m) zero (x ∷ xs) e = absurd (omega arith)
drop-drop n (suc m) (suc k) (x ∷ xs) e = drop-drop n m k xs (omega arith)

Increasing-append :
    (xs : List Entry) (e : Entry)
    → Increasing xs
    → All (λ (f : Entry). f.seq < e.seq) xs
    → Increasing (xs ++ e ∷ [])
Increasing-append [] e i a = (tt, tt)
Increasing-append (x ∷ xs) e i a = (
  All-append (λ (f : Entry). x.seq < f.seq) xs (e ∷ []) i.0 (a.0, tt),
  Increasing-append xs e i.1 a.1,
)

All-weaken :
    (n m : ℕ) (xs : List Entry)
    → n < m
    → All (λ (e : Entry). e.seq ≤ n) xs
    → All (λ (e : Entry). e.seq < m) xs
All-weaken n m [] h a = tt
All-weaken n m (x ∷ xs) h a = (omega arith, All-weaken n m xs h a.1)

All-raise :
    (n m : ℕ) (xs : List Entry)
    → n ≤ m
    → All (λ (e : Entry). e.seq ≤ n) xs
    → All (λ (e : Entry). e.seq ≤ m) xs
All-raise n m [] h a = tt
All-raise n m (x ∷ xs) h a = (omega arith, All-raise n m xs h a.1)

append_bounded-drop :
    (n : ℕ) (l : List Entry) (e : Entry)
    → append_bounded n (drop (length l - n) l) e ≡ drop (length (l ++ e ∷ []) - n) (l ++ e ∷ [])
append_bounded-drop n l e =
    let k = length l - n in
    let joined : drop k l ++ e ∷ [] ≡ drop k (l ++ e ∷ []) =
      sym (drop-append k l (e ∷ []) (omega arith)) in
    ap (λ grown. drop (length grown - n) grown) joined
    ∙ drop-drop (length (drop k (l ++ e ∷ [])) - n) k (length (l ++ e ∷ []) - n) (l ++ e ∷ [])
        (omega (arith, length-drop k (l ++ e ∷ []), length-append l (e ∷ [])))

pub push-IsCovered :
    (pushed : List Entry) (e : Entry) (h : History)
    → IsCovered pushed h
    → h.last_seq < e.seq
    → IsCovered (pushed ++ e ∷ []) (push e h)
unfolding push
push-IsCovered pushed e h c fresh = record {
  kept =
      ap (λ l. append_bounded h.max_entries l e) c.kept
      ∙ append_bounded-drop h.max_entries pushed e;
  increasing =
      Increasing-append pushed e c.increasing (All-weaken h.last_seq e.seq pushed fresh c.bounded);
  bounded =
      All-append (λ (f : Entry). f.seq ≤ e.seq) pushed (e ∷ [])
        (All-raise h.last_seq e.seq pushed (omega arith) c.bounded) (omega arith, tt);
}

pub new-IsCovered : (n : ℕ) → IsCovered [] (new n)
new-IsCovered n = record { kept = sym (drop-nil (0 - n)); increasing = tt; bounded = tt }

-- The numbers of the entries increase from above `n`.
abbrev pub Above : ℕ → List Entry → Type 0
Above n [] = Unit
Above n (e ∷ es) = (n < e.seq) × Above e.seq es

push_all-IsCovered :
    (pushed es : List Entry) (h : History)
    → IsCovered pushed h
    → Above h.last_seq es
    → IsCovered (pushed ++ es) (push_all es h)
unfolding push_all push
push_all-IsCovered pushed [] h c a = subst (λ l. IsCovered l h) (sym (append-nil pushed)) c
push_all-IsCovered pushed (e ∷ es) h c a =
    subst (λ l. IsCovered l (push_all es (push e h))) (append_assoc pushed (e ∷ []) es)
      (push_all-IsCovered (pushed ++ e ∷ []) es (push e h) (push-IsCovered pushed e h c a.0) a.1)

pub push_all-new-IsCovered :
    (n : ℕ) (es : List Entry) → Above 0 es → IsCovered es (push_all es (new n))
push_all-new-IsCovered n es a = push_all-IsCovered [] es (new n) (new-IsCovered n) a
