-- ===== src/Chat/Rows.antt =====
-- The rows of the chat history under several writers.
use astation.Prelude.{
  Option, none, true, if◌then◌else◌, ℕ, zero, suc, ◌<◌, ◌≡◌, refl, ap, ◌∙◌, String, Bool, false,
  some, List, [], ◌∷◌, ◌||◌, any, tail, keep_if, All, arith, Bool-cases, inl, inr, ◌⊎◌,
}
use astation.Prelude.Eq.{◌==◌, string_eq}
use astation.Chat.{
  ChatMessage, Host, highest_seq, next_seq, clashes, with_others, first_others, reseq,
  insert_attempts, insert_row, max_seq_retries, Written, NewMessage, bound_row, bound_value,
  write_bound, write_keyed, write, is_duplicate, with_turn,
}

-- No two rows have one id, nor one number in one session.
abbrev pub IsUnclashing : List ChatMessage → Type 0
IsUnclashing [] = Unit
IsUnclashing (row ∷ rows) = (any (clashes row) rows ≡ false) × IsUnclashing rows

with_others-IsUnclashing :
    (others rows : List ChatMessage) → IsUnclashing rows → IsUnclashing (with_others others rows)
unfolding with_others
with_others-IsUnclashing [] rows v = v
with_others-IsUnclashing (new ∷ others) rows v = elim (Bool-cases (any (clashes new) rows)) [
  | inl taken ↦ rw taken (with_others-IsUnclashing others rows v)
  | inr free ↦ rw free (with_others-IsUnclashing others (new ∷ rows) (free, v))
]

insert_attempts-IsUnclashing :
    (n : ℕ) (racing : List (List ChatMessage)) (new : ChatMessage) (rows : List ChatMessage)
    → IsUnclashing rows
    → IsUnclashing (insert_attempts n racing new rows).1
unfolding insert_attempts
insert_attempts-IsUnclashing zero racing new rows v = v
insert_attempts-IsUnclashing (suc n) racing new rows v =
    let rows' = with_others (first_others racing) rows in
    let v' = with_others-IsUnclashing (first_others racing) rows v in
    elim (Bool-cases (any (clashes new) rows')) [
      | inl taken ↦
          rw taken (insert_attempts-IsUnclashing n (tail racing) (reseq new rows') rows' v')
      | inr free ↦ rw free (free, v')
    ]

pub insert_row-IsUnclashing :
    (host : Host) (new : ChatMessage) (rows : List ChatMessage)
    → IsUnclashing rows
    → IsUnclashing (insert_row host new rows).1
unfolding insert_row
insert_row-IsUnclashing host new rows v =
    insert_attempts-IsUnclashing max_seq_retries host.racing (reseq new rows) rows v

-- The id is of no row.
abbrev pub IsFreshId : String → List ChatMessage → Type 0
IsFreshId id rows = any (λ row. row.id == id) rows ≡ false

-- One of the attempts meets no other writer.
abbrev pub IsQuietWithin : ℕ → List (List ChatMessage) → Type 0
IsQuietWithin zero racing = ⊥
IsQuietWithin (suc n) racing = (first_others racing ≡ []) ⊎ IsQuietWithin n (tail racing)

-- A number above the highest is free.
free_above :
    (new : ChatMessage) (rows : List ChatMessage)
    → IsFreshId new.id rows
    → highest_seq new.profile new.stored_session_id rows < new.seq
    → any (clashes new) rows ≡ false
unfolding highest_seq
free_above new [] f h = refl
free_above new (row ∷ rows) f h = ground (arith, free_above new rows)

with_others-IsFreshId :
    (id : String) (others rows : List ChatMessage)
    → IsFreshId id others
    → IsFreshId id rows
    → IsFreshId id (with_others others rows)
unfolding with_others
with_others-IsFreshId id [] rows f g = g
with_others-IsFreshId id (new ∷ others) rows f g = elim (Bool-cases (any (clashes new) rows)) [
  | inl taken ↦ rw taken (with_others-IsFreshId id others rows (ground arith) g)
  | inr free ↦ rw free (with_others-IsFreshId id others (new ∷ rows) (ground arith) (ground arith))
]

first_others-IsFreshId :
    (id : String) (racing : List (List ChatMessage))
    → All (IsFreshId id) racing
    → IsFreshId id (first_others racing)
first_others-IsFreshId id [] f = refl
first_others-IsFreshId id (others ∷ racing) f = f.0

tail-IsFreshId :
    (id : String) (racing : List (List ChatMessage))
    → All (IsFreshId id) racing
    → All (IsFreshId id) (tail racing)
tail-IsFreshId id [] f = tt
tail-IsFreshId id (others ∷ racing) f = f.1

insert_attempts-returns :
    (n : ℕ) (racing : List (List ChatMessage)) (new : ChatMessage) (rows : List ChatMessage)
    → new.seq ≡ next_seq new.profile new.stored_session_id rows
    → IsFreshId new.id rows
    → All (IsFreshId new.id) racing
    → IsQuietWithin n racing
    → (insert_attempts n racing new rows).0 ≡ some new.id
unfolding insert_attempts next_seq
insert_attempts-returns zero racing new rows last f g q = elim q [ ]
insert_attempts-returns (suc n) racing new rows last f g (inl alone) =
    rw alone (rw (free_above new rows f (omega (arith, last))) refl)
insert_attempts-returns (suc n) racing new rows last f g (inr later) =
    let rows' = with_others (first_others racing) rows in
    let fresh =
      with_others-IsFreshId new.id (first_others racing) rows
        (first_others-IsFreshId new.id racing g) f in
    let again =
      insert_attempts-returns n (tail racing) (reseq new rows') rows' refl fresh
        (tail-IsFreshId new.id racing g) later in
    elim (Bool-cases (any (clashes new) rows')) [
      | inl taken ↦ rw taken again
      | inr free ↦ rw free refl
    ]

-- A row with a fresh id: where one of the five attempts meets no other writer, the insert returns the
-- row's id, whatever the others write before the other attempts, and no two rows clash afterwards.
pub insert_row-returns :
    (host : Host) (new : ChatMessage) (rows : List ChatMessage)
    → IsUnclashing rows
    → IsFreshId new.id rows
    → All (IsFreshId new.id) host.racing
    → IsQuietWithin max_seq_retries host.racing
    → ((insert_row host new rows).0 ≡ some new.id) × IsUnclashing (insert_row host new rows).1
unfolding insert_row
insert_row-returns host new rows v f g q = (
  insert_attempts-returns max_seq_retries host.racing (reseq new rows) rows refl f g q,
  insert_attempts-IsUnclashing max_seq_retries host.racing (reseq new rows) rows v,
)

-- Without other writers the row stands first, with the next number.
pub insert_row-alone :
    (host : Host) (new : ChatMessage) (rows : List ChatMessage)
    → host.racing ≡ []
    → IsFreshId new.id rows
    → insert_row host new rows ≡ (some new.id, reseq new rows ∷ rows)
unfolding insert_row insert_attempts with_others next_seq
insert_row-alone host new rows alone f =
    rw alone (rw (free_above (reseq new rows) rows f (omega arith)) refl)

write_bound-IsUnclashing :
    (host : Host) (bound : Option ChatMessage) (rows : List ChatMessage)
    → IsUnclashing rows
    → IsUnclashing (write_bound (insert_row host) bound rows).1
unfolding write_bound
write_bound-IsUnclashing host none rows v = v
write_bound-IsUnclashing host (some new) rows v = insert_row-IsUnclashing host new rows v

write_keyed-IsUnclashing :
    (host : Host) (row : ChatMessage) (bound : Option ChatMessage) (id : Option (Option String))
    (rows : List ChatMessage)
    → IsUnclashing rows
    → IsUnclashing (write_keyed (insert_row host) row bound id rows).1
unfolding write_keyed
write_keyed-IsUnclashing host row bound none rows v = v
write_keyed-IsUnclashing host row bound (some id) rows v =
    elim (Bool-cases (is_duplicate (record row { tool_call_id = id }) rows)) [
      | inl there ↦ rw there v
      | inr fresh ↦ rw fresh (write_bound-IsUnclashing host bound rows v)
    ]

pub write-IsUnclashing :
    (host : Host) (new : NewMessage) (rows : List ChatMessage)
    → IsUnclashing rows
    → IsUnclashing (write host new rows).1
unfolding write
write-IsUnclashing host new rows v = go host.available _ (
    write_keyed-IsUnclashing host new.row (bound_row host.column_text new)
      (bound_value host.column_text new.tool_call_id) rows v)
  where
    go :
        (up : Bool) (x : Written × List ChatMessage)
        → IsUnclashing x.1
        → IsUnclashing (if up then x else (Written.raised, rows)).1
    go true x h = h
    go false x h = v

any-keep_if :
    (p q : ChatMessage → Bool) (rows : List ChatMessage)
    → any p rows ≡ false
    → any p (keep_if q rows) ≡ false
any-keep_if p q [] h = refl
any-keep_if p q (row ∷ rows) h = ground (arith, any-keep_if p q rows)

pub keep_if-IsUnclashing :
    (q : ChatMessage → Bool) (rows : List ChatMessage)
    → IsUnclashing rows
    → IsUnclashing (keep_if q rows)
keep_if-IsUnclashing q [] v = tt
keep_if-IsUnclashing q (row ∷ rows) v =
    ground (arith, any-keep_if (clashes row) q rows v.0, keep_if-IsUnclashing q rows v.1)

any-with_turn :
    (new : ChatMessage) (id turn_id : String) (rows : List ChatMessage)
    → any (clashes new) (with_turn id turn_id rows) ≡ any (clashes new) rows
any-with_turn new id turn_id [] = refl
any-with_turn new id turn_id (row ∷ rows) = elim (Bool-cases (row.id == id)) [
  | inl here ↦ rw here refl
  | inr later ↦ rw later (ap (λ b. clashes new row || b) (any-with_turn new id turn_id rows))
]

pub with_turn-IsUnclashing :
    (id turn_id : String) (rows : List ChatMessage)
    → IsUnclashing rows
    → IsUnclashing (with_turn id turn_id rows)
with_turn-IsUnclashing id turn_id [] v = tt
with_turn-IsUnclashing id turn_id (row ∷ rows) v = elim (Bool-cases (row.id == id)) [
  | inl here ↦ rw here v
  | inr later ↦
      rw later (any-with_turn row id turn_id rows ∙ v.0, with_turn-IsUnclashing id turn_id rows v.1)
]
