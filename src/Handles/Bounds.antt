-- ===== src/Handles/Bounds.antt =====
-- The invariant of `LiveHandleCache`: both maps stay within their bound, list no key twice, and
-- hold entries of the generation seen only.
use astation.Prelude.{
  ℕ, suc, String, ◌≤◌, ◌≡◌, refl, sym, subst, inl, inr, Bool-cases, Option, none, some, List, [],
  ◌∷◌, arith, length, length-keep_if, All,
}
use astation.Prelude.Eq.{◌==◌, nat_eq, string_eq, pair_eq, option_eq, option_beq_iff}
use astation.Prelude.Dict.{
  Dict, insert, erase, HasUniqueKeys, insert-HasUniqueKeys, erase-HasUniqueKeys,
  keep_if-HasUniqueKeys, length-insert, length-erase, insert-All, erase-All,
}
use astation.Handles.{
  LiveHandleCache, HandleKey, new, max_entries, of_generation, sweep, evict_oldest,
  remember_live_mapping, put_swept,
}
use astation.Handles

-- An entry of generation `g`.
abbrev pub IsOf : ℕ → HandleKey × String → Type 0
IsOf g x = x.0.0 ≡ g

-- No generation seen: no entries. Otherwise every entry is of the generation seen.
abbrev pub HasGeneration : Option ℕ → Dict HandleKey String → Type 0
HasGeneration none d = d ≡ []
HasGeneration (some g) d = All (IsOf g) d

pub record IsFit (seen : Option ℕ) (d : Dict HandleKey String) : Type 0 where
  pub bounded : length d ≤ max_entries
  pub unique_keys : HasUniqueKeys d
  pub one_generation : HasGeneration seen d

pub record IsValid (c : LiveHandleCache) : Type 0 where
  pub handles_fit : IsFit c.generation_seen c.handles
  pub stored_fit : IsFit c.generation_seen c.stored_by_live

of_generation-All : (g : ℕ) (d : Dict HandleKey String) → All (IsOf g) (of_generation g d)
of_generation-All g [] = tt
of_generation-All g (x ∷ d) = ground (arith, of_generation-All g d)

of_generation-IsFit :
    (g : ℕ) (seen : Option ℕ) (d : Dict HandleKey String)
    → IsFit seen d
    → IsFit (some g) (of_generation g d)
of_generation-IsFit g seen d h = record {
  bounded =
      let below = length-keep_if (λ (x : HandleKey × String). x.0.0 == g) d in
      let fits = h.bounded in omega arith;
  unique_keys = keep_if-HasUniqueKeys (λ x. x.0.0 == g) d h.unique_keys;
  one_generation = of_generation-All g d;
}

pub sweep-IsValid : (g : ℕ) (c : LiveHandleCache) → IsValid c → IsValid (sweep g c)
unfolding sweep
sweep-IsValid g c h = elim (Bool-cases (c.generation_seen == some g)) [
  | inl same ↦ rw same h
  | inr other ↦ rw other (record {
    handles_fit = of_generation-IsFit g c.generation_seen c.handles h.handles_fit;
    stored_fit = of_generation-IsFit g c.generation_seen c.stored_by_live h.stored_fit;
  })
]

pub generation_seen-sweep : (g : ℕ) (c : LiveHandleCache) → (sweep g c).generation_seen ≡ some g
unfolding sweep
generation_seen-sweep g c = ground (arith, option_beq_iff c.generation_seen (some g))

-- After the eviction there is room for one more entry.
record HasRoom (g : ℕ) (d : Dict HandleKey String) : Type 0 where
  room : suc (length d) ≤ max_entries
  unique_keys : HasUniqueKeys d
  one_generation : All (IsOf g) d

evict_oldest-HasRoom :
    (g : ℕ) (d : Dict HandleKey String) → IsFit (some g) d → HasRoom g (evict_oldest d max_entries)
unfolding evict_oldest
evict_oldest-HasRoom g [] h = record { room = omega arith; unique_keys = tt; one_generation = tt }
evict_oldest-HasRoom g (x ∷ d) h = record {
  room = let fits = h.bounded in ground arith;
  unique_keys = let u = h.unique_keys in ground arith;
  one_generation = let o = h.one_generation in ground arith;
}

insert_evicted-IsFit :
    (g : ℕ) (k v : String) (d : Dict HandleKey String)
    → IsFit (some g) d
    → IsFit (some g) (insert (g, k) v (evict_oldest d max_entries))
insert_evicted-IsFit g k v d h =
    let e = evict_oldest d max_entries in
    let r = evict_oldest-HasRoom g d h in
    record {
      bounded = let more = length-insert (g, k) v e in let free = r.room in omega arith;
      unique_keys = insert-HasUniqueKeys (g, k) v e r.unique_keys;
      one_generation = insert-All (IsOf g) (g, k) v e refl r.one_generation;
    }

-- `IsValid` of a cache that has just been swept for `g`.
record IsSwept (g : ℕ) (c : LiveHandleCache) : Type 0 where
  seen : c.generation_seen ≡ some g
  handles_fit : IsFit (some g) c.handles
  stored_fit : IsFit (some g) c.stored_by_live

IsSwept-IsValid : (g : ℕ) (c : LiveHandleCache) → IsSwept g c → IsValid c
IsSwept-IsValid g c h = record {
  handles_fit = subst (λ s. IsFit s c.handles) (sym h.seen) h.handles_fit;
  stored_fit = subst (λ s. IsFit s c.stored_by_live) (sym h.seen) h.stored_fit;
}

sweep-IsSwept : (g : ℕ) (c : LiveHandleCache) → IsValid c → IsSwept g (sweep g c)
sweep-IsSwept g c h =
    let v = sweep-IsValid g c h in
    let s = generation_seen-sweep g c in
    record {
      seen = s;
      handles_fit = subst (λ o. IsFit o (sweep g c).handles) s v.handles_fit;
      stored_fit = subst (λ o. IsFit o (sweep g c).stored_by_live) s v.stored_fit;
    }

remember-IsSwept :
    (g : ℕ) (stored live : String) (c : LiveHandleCache)
    → IsSwept g c
    → IsSwept g (remember_live_mapping g stored live c)
unfolding remember_live_mapping
remember-IsSwept g stored live c h = record {
  seen = h.seen;
  handles_fit = h.handles_fit;
  stored_fit = insert_evicted-IsFit g live stored c.stored_by_live h.stored_fit;
}

put_swept-IsSwept :
    (g : ℕ) (stored live : String) (c : LiveHandleCache)
    → IsSwept g c
    → IsSwept g (put_swept g stored live c)
unfolding put_swept
put_swept-IsSwept g stored live c h =
    remember-IsSwept g stored live
      (record c { handles = insert (g, stored) live (evict_oldest c.handles max_entries) })
      (record {
        seen = h.seen;
        handles_fit = insert_evicted-IsFit g stored live c.handles h.handles_fit;
        stored_fit = h.stored_fit;
      })

erase-IsFit :
    (seen : Option ℕ) (k : HandleKey) (d : Dict HandleKey String)
    → IsFit seen d
    → IsFit seen (erase k d)
erase-IsFit none k [] h = h
erase-IsFit none k (x ∷ d) h = cc h.one_generation
erase-IsFit (some g) k d h = record {
  bounded = let less = length-erase k d in let fits = h.bounded in omega arith;
  unique_keys = erase-HasUniqueKeys k d h.unique_keys;
  one_generation = erase-All (IsOf g) k d h.one_generation;
}

-- The calls that change the cache, with the generation that the adapter shows to each.
pub data Call : Type 0 where
  get : Option ℕ → String → Call
  put : Option ℕ → String → String → Call
  bound_stored_ids_for_live : Option ℕ → String → Call
  observe_live_mapping : Option ℕ → String → String → Call
  stored_for_live : Option ℕ → String → Call
  discard : Option ℕ → String → Call
  clear : Call

pub run_call : Call → LiveHandleCache → LiveHandleCache
run_call (get g k) c = (Handles.get g k c).1
run_call (put g k l) c = Handles.put g k l c
run_call (bound_stored_ids_for_live g l) c = (Handles.bound_stored_ids_for_live g l c).1
run_call (observe_live_mapping g k l) c = Handles.observe_live_mapping g k l c
run_call (stored_for_live g l) c = (Handles.stored_for_live g l c).1
run_call (discard g k) c = Handles.discard g k c
run_call clear c = Handles.clear c

pub new-IsValid : IsValid new
new-IsValid = record {
  handles_fit = record { bounded = omega arith; unique_keys = tt; one_generation = refl };
  stored_fit = record { bounded = omega arith; unique_keys = tt; one_generation = refl };
}

pub run_call-IsValid : (o : Call) (c : LiveHandleCache) → IsValid c → IsValid (run_call o c)
unfolding run_call Handles.get Handles.put Handles.bound_stored_ids_for_live
    Handles.observe_live_mapping Handles.stored_for_live Handles.discard Handles.clear
run_call-IsValid (get none k) c h = h
run_call-IsValid (get (some g) k) c h = sweep-IsValid g c h
run_call-IsValid (put none k l) c h = h
run_call-IsValid (put (some g) k l) c h =
    IsSwept-IsValid g (put_swept g k l (sweep g c))
      (put_swept-IsSwept g k l (sweep g c) (sweep-IsSwept g c h))
run_call-IsValid (bound_stored_ids_for_live none l) c h = h
run_call-IsValid (bound_stored_ids_for_live (some g) l) c h = sweep-IsValid g c h
run_call-IsValid (observe_live_mapping none k l) c h = h
run_call-IsValid (observe_live_mapping (some g) k l) c h =
    IsSwept-IsValid g (remember_live_mapping g k l (sweep g c))
      (remember-IsSwept g k l (sweep g c) (sweep-IsSwept g c h))
run_call-IsValid (stored_for_live none l) c h = h
run_call-IsValid (stored_for_live (some g) l) c h = sweep-IsValid g c h
run_call-IsValid (discard none k) c h = h
run_call-IsValid (discard (some g) k) c h = record {
  handles_fit = erase-IsFit c.generation_seen (g, k) c.handles h.handles_fit;
  stored_fit = h.stored_fit;
}
run_call-IsValid clear c h = new-IsValid

pub run_calls : List Call → LiveHandleCache → LiveHandleCache
run_calls [] c = c
run_calls (o ∷ os) c = run_calls os (run_call o c)

-- After any calls on a new cache, under any generations, neither map exceeds 256 entries or lists a
-- key twice, and every entry belongs to the generation seen last.
pub run_calls-IsValid :
    (os : List Call) (c : LiveHandleCache) → IsValid c → IsValid (run_calls os c)
unfolding run_calls
run_calls-IsValid [] c h = h
run_calls-IsValid (o ∷ os) c h = run_calls-IsValid os (run_call o c) (run_call-IsValid o c h)
