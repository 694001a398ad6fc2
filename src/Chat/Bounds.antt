-- ===== src/Chat/Bounds.antt =====
-- The bounds on what the chat store holds in memory, and its rows, under any calls.
use astation.Prelude.{
  ◌≤◌, ◌<◌, ◌≡◌, refl, ap, sym, ◌∙◌, subst, String, Bool, true, false, Option, none, some, List, [],
  ◌∷◌, ◌++◌, is_some, leb, length, arith, Bool-cases, inl, inr,
}
use Prim.Native.String.{◌++◌ as text_append}
use astation.Prelude.Eq.{string_eq, option_eq, pair_eq, pair_beq_iff}
use astation.Prelude.Dict.{
  Dict, lookup, insert, erase, lookup-insert_self, HasUniqueKeys, insert-HasUniqueKeys,
  erase-HasUniqueKeys, length-insert, length-erase,
}
use astation.Json.{Fields}
use astation.Chat.{ChatStore, ChatMessage, Host, BufferKey}
use astation.Chat.Reasoning.{
  flush_text, flush_held, or_empty, forget, make_room, max_reasoning_buffers, with_buffer,
  hold_text, hold_reasoning, first_text, reasoning_text_keys, drop_oldest, spend_text, spend_held,
  spend, is_blank, or_none_spent, end_turn,
}
use astation.Chat.Apart.{bare, flush_text-bare}
use astation.Chat.Rows.{IsUnclashing}

-- No two rows clash, and at most 64 runs have held reasoning, one buffer each, and at most 64 have spent
-- reasoning.
pub record Parts (rows : List ChatMessage) (reasoning : Dict BufferKey String)
    (spent : Dict BufferKey (List String)) : Type 0 where
  pub unclashing : IsUnclashing rows
  pub unique_keys : HasUniqueKeys reasoning
  pub reasoning_fits : length reasoning ≤ max_reasoning_buffers
  pub spent_fits : length spent ≤ max_reasoning_buffers

abbrev pub IsValid : ChatStore → Type 0
IsValid s = Parts s.chat_messages s.reasoning s.spent

-- A store that differs in its archive only.
pub bare-IsValid : (s t : ChatStore) → bare s ≡ bare t → IsValid t → IsValid s
bare-IsValid s t p v = subst IsValid (sym p) v

forget-IsValid : (key : BufferKey) (s : ChatStore) → IsValid s → IsValid (forget key s)
forget-IsValid key s v =
    let shorter = length-erase key s.reasoning in
    let spent = length-erase key s.spent in
    let reasoning_fits = v.reasoning_fits in
    let spent_fits = v.spent_fits in
    record {
      unclashing = v.unclashing;
      unique_keys = erase-HasUniqueKeys key s.reasoning v.unique_keys;
      reasoning_fits = omega arith;
      spent_fits = omega arith;
    }

flush_held-IsValid :
    (host : Host) (key : BufferKey) (force : Bool) (s : ChatStore)
    → IsValid s
    → IsValid (flush_held host key force s)
flush_held-IsValid host key force s v =
    bare-IsValid (flush_held host key force s) s
      (flush_text-bare host key force (or_empty (lookup key s.reasoning)) false none s) v

-- The buffers that are left after the oldest was forgotten.
forget-left :
    (host : Host) (x : BufferKey × String) (left : Dict BufferKey String) (s : ChatStore)
    → s.reasoning ≡ x ∷ left
    → (forget x.0 (flush_held host x.0 true s)).reasoning ≡ left
forget-left host x left s e =
    ap (λ (t : ChatStore). erase x.0 t.reasoning)
      (flush_text-bare host x.0 true (or_empty (lookup x.0 s.reasoning)) false none s)
    ∙ ap (λ d. erase x.0 d) e
    ∙ rw ((pair_beq_iff x.0 x.0).1 refl) refl

make_room-IsValid :
    (host : Host) (left : Dict BufferKey String) (s : ChatStore)
    → s.reasoning ≡ left
    → IsValid s
    → IsValid (make_room host left s)
      × (length (make_room host left s).reasoning < max_reasoning_buffers)
unfolding make_room
make_room-IsValid host [] s e v = (v, rw e (omega arith))
make_room-IsValid host (x ∷ left) s e v =
    let next =
      make_room-IsValid host left (forget x.0 (flush_held host x.0 true s))
        (forget-left host x left s e)
        (forget-IsValid x.0 (flush_held host x.0 true s) (flush_held-IsValid host x.0 true s v)) in
    elim (Bool-cases (leb max_reasoning_buffers (length (x ∷ left)))) [
      | inl full ↦ rw full next
      | inr roomy ↦ rw roomy (v, rw e (ground arith))
    ]

with_key-IsValid :
    (key : BufferKey) (held : String) (s : ChatStore)
    → IsValid s
    → length s.reasoning < max_reasoning_buffers
    → IsValid (record s { reasoning = insert key held s.reasoning })
with_key-IsValid key held s v roomy =
    let longer = length-insert key held s.reasoning in
    let spent_fits = v.spent_fits in
    record {
      unclashing = v.unclashing;
      unique_keys = insert-HasUniqueKeys key held s.reasoning v.unique_keys;
      reasoning_fits = omega arith;
      spent_fits = spent_fits;
    }

with_buffer-IsValid :
    (host : Host) (key : BufferKey) (s : ChatStore)
    → IsValid s
    → IsValid (with_buffer host key s)
      × (is_some (lookup key (with_buffer host key s).reasoning) ≡ true)
unfolding with_buffer
with_buffer-IsValid host key s v = elim (Bool-cases (is_some (lookup key s.reasoning))) [
  | inl there ↦ rw there (v, there)
  | inr new ↦
      let roomy = make_room-IsValid host s.reasoning s refl v in
      rw new (
        with_key-IsValid key "" (make_room host s.reasoning s) roomy.0 roomy.1,
        ap is_some (lookup-insert_self key "" (make_room host s.reasoning s).reasoning),
      )
]

length-insert_there :
    (key : BufferKey) (held : String) (d : Dict BufferKey String)
    → is_some (lookup key d) ≡ true
    → length (insert key held d) ≡ length d
length-insert_there key held [] h = cc
length-insert_there key held (x ∷ d) h = ground (arith, length-insert_there key held d)

with_text-IsValid :
    (key : BufferKey) (held : String) (s : ChatStore)
    → IsValid s
    → is_some (lookup key s.reasoning) ≡ true
    → IsValid (record s { reasoning = insert key held s.reasoning })
with_text-IsValid key held s v there =
    let same = length-insert_there key held s.reasoning there in
    let reasoning_fits = v.reasoning_fits in
    record {
      unclashing = v.unclashing;
      unique_keys = insert-HasUniqueKeys key held s.reasoning v.unique_keys;
      reasoning_fits = omega arith;
      spent_fits = v.spent_fits;
    }

hold_text-IsValid :
    (host : Host) (key : BufferKey) (o : Option String) (s : ChatStore)
    → IsValid s
    → IsValid (hold_text host key o s)
hold_text-IsValid host key none s v = v
hold_text-IsValid host key (some text) s v =
    let s' = with_buffer host key s in
    let held = text_append (or_empty (lookup key s'.reasoning)) text in
    let ready = with_buffer-IsValid host key s v in
    flush_held-IsValid host key false (record s' { reasoning = insert key held s'.reasoning })
      (with_text-IsValid key held s' ready.0 ready.1)

pub hold_reasoning-IsValid :
    (host : Host) (key : BufferKey) (payload : Fields) (s : ChatStore)
    → IsValid s
    → IsValid (hold_reasoning host key payload s)
unfolding hold_reasoning
hold_reasoning-IsValid host key payload =
    hold_text-IsValid host key (first_text reasoning_text_keys payload)

length-drop_oldest :
    (d : Dict BufferKey (List String)) → length (drop_oldest d) ≤ max_reasoning_buffers
unfolding drop_oldest
length-drop_oldest [] = omega arith
length-drop_oldest (x ∷ d) = ground (arith, length-drop_oldest d)

length-spend_text :
    (key : BufferKey) (held : String) (d : Dict BufferKey (List String))
    → length d ≤ max_reasoning_buffers
    → length (spend_text key held d) ≤ max_reasoning_buffers
length-spend_text key held d h = elim (Bool-cases (is_blank held)) [
  | inl blank ↦ rw blank h
  | inr full ↦
      rw full (length-drop_oldest (insert key (or_none_spent (lookup key d) ++ held ∷ []) d))
]

spend_held-IsValid :
    (host : Host) (key : BufferKey) (id o : Option String) (s : ChatStore)
    → IsValid s
    → IsValid (spend_held host key id o s)
spend_held-IsValid host key id none s v = v
spend_held-IsValid host key id (some held) s v =
    let erased = record s { reasoning = erase key s.reasoning } in
    let shorter = length-erase key s.reasoning in
    let reasoning_fits = v.reasoning_fits in
    let s' = flush_text host key true held true id erased in
    let v' : IsValid s' =
      bare-IsValid s' erased (flush_text-bare host key true held true id erased) (record {
        unclashing = v.unclashing;
        unique_keys = erase-HasUniqueKeys key s.reasoning v.unique_keys;
        reasoning_fits = omega arith;
        spent_fits = v.spent_fits;
      }) in
    record {
      unclashing = v'.unclashing;
      unique_keys = v'.unique_keys;
      reasoning_fits = v'.reasoning_fits;
      spent_fits = length-spend_text key held s'.spent v'.spent_fits;
    }

pub spend-IsValid :
    (host : Host) (key : BufferKey) (id : Option String) (s : ChatStore)
    → IsValid s
    → IsValid (spend host key id s)
unfolding spend
spend-IsValid host key id s v = spend_held-IsValid host key id (lookup key s.reasoning) s v

pub end_turn-IsValid : (key : BufferKey) (s : ChatStore) → IsValid s → IsValid (end_turn key s)
end_turn-IsValid key s v =
    let shorter = length-erase key s.spent in
    let spent_fits = v.spent_fits in
    record {
      unclashing = v.unclashing;
      unique_keys = v.unique_keys;
      reasoning_fits = v.reasoning_fits;
      spent_fits = omega arith;
    }
