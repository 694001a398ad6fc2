-- ===== src/Stream/Broadcaster/Quarantine.antt =====
-- The frames held in memory: their bounds, that none is dropped unnoticed, and where one is.
use astation.Prelude.{
  ℕ, suc, ◌+◌, ◌-◌, ◌≤◌, ◌<◌, ◌≡◌, refl, ap, ◌∙◌, String, true, false, Option, none, List, [], ◌∷◌,
  ◌++◌, arith, Bool-cases, inl, inr, not, ◌⊎◌, length, length-append, leb, ltb, ◌||◌,
}
use astation.Prelude.Eq.{◌==◌, option_eq, option_beq_iff, nat_eq}
use astation.Json.{Fields}
use astation.Stream.Wire.{Wire}
use astation.Stream.Broadcaster.{
  Held, Broadcaster, Oracle, Outcome, returned, raised, ◌>>=◌, state_of, identity_resync,
  hold_in_memory, Stamped, stamped, stamp_session_identity, publish,
}
use astation.Stream.Broadcaster.Pump.{
  replay_memory, replay_held, replay_all_held, replay_stamped, requeue,
}
use astation.Stream.Broadcaster.Preserve.{
  fan_out-state, Stable, Stable-iff, gap-identity_resync, KeepsQuarantine, identity_resync-keeps,
  deliver-keeps,
}

abbrev pub held_bytes : List Held → ℕ
held_bytes [] = 0
held_bytes (h ∷ l) = h.size + held_bytes l

held_bytes-append : (xs ys : List Held) → held_bytes (xs ++ ys) ≡ held_bytes xs + held_bytes ys
held_bytes-append [] ys = omega arith
held_bytes-append (x ∷ xs) ys = omega (arith, held_bytes-append xs ys)

-- The quarantine, and what `more` would add to it, fit its bounds, and its bytes are counted.
record HasRoom (more : List Held) (b : Broadcaster) : Type 0 where
  counted : b.quarantine_bytes ≡ held_bytes b.quarantine
  frames_bounded : length b.quarantine + length more ≤ b.quarantine_max_frames
  bytes_bounded : held_bytes b.quarantine + held_bytes more ≤ b.quarantine_max_bytes

-- The quarantine's bytes are counted, and it stays within both its bounds.
pub record IsBounded (b : Broadcaster) : Type 0 where
  pub counted : b.quarantine_bytes ≡ held_bytes b.quarantine
  pub frames_bounded : length b.quarantine ≤ b.quarantine_max_frames
  pub bytes_bounded : held_bytes b.quarantine ≤ b.quarantine_max_bytes

HasRoom-IsBounded : (more : List Held) (b : Broadcaster) → HasRoom more b → IsBounded b
HasRoom-IsBounded more b r = record {
  counted = r.counted;
  frames_bounded = let f = r.frames_bounded in omega arith;
  bytes_bounded = let f = r.bytes_bounded in omega arith;
}

IsBounded-HasRoom : (b : Broadcaster) → IsBounded b → HasRoom [] b
IsBounded-HasRoom b r = record {
  counted = r.counted;
  frames_bounded = let f = r.frames_bounded in omega arith;
  bytes_bounded = let f = r.bytes_bounded in omega arith;
}

HasRoom-Stable : (w : Wire) (more : List Held) → Stable w (HasRoom more)
HasRoom-Stable w more = record {
  of_fan_out = λ o frame g b u n. fan_out-state w (HasRoom more) o frame g b n (λ text size.
      record {
        counted = n.counted;
        frames_bounded = n.frames_bounded;
        bytes_bounded = n.bytes_bounded;
      });
  of_publish = λ o frame g b n.
      unfold publish in
      fan_out-state w (HasRoom more) o _ g (record b { next_seq = suc b.next_seq })
        (record {
          counted = n.counted;
          frames_bounded = n.frames_bounded;
          bytes_bounded = n.bytes_bounded;
        })
        (λ text size. record {
          counted = n.counted;
          frames_bounded = n.frames_bounded;
          bytes_bounded = n.bytes_bounded;
        });
  of_gap = λ b n. record {
    counted = n.counted;
    frames_bounded = n.frames_bounded;
    bytes_bounded = n.bytes_bounded;
  };
  of_generation = λ g b n. record {
    counted = n.counted;
    frames_bounded = n.frames_bounded;
    bytes_bounded = n.bytes_bounded;
  };
  of_inbox = λ i b n. record {
    counted = n.counted;
    frames_bounded = n.frames_bounded;
    bytes_bounded = n.bytes_bounded;
  };
  of_cursor = λ c b n. record {
    counted = n.counted;
    frames_bounded = n.frames_bounded;
    bytes_bounded = n.bytes_bounded;
  };
}

fewer : (h : Held) (more : List Held) (b : Broadcaster) → HasRoom (h ∷ more) b → HasRoom more b
fewer h more b r = record {
  counted = r.counted;
  frames_bounded = let f = r.frames_bounded in omega arith;
  bytes_bounded = let f = r.bytes_bounded in omega arith;
}

requeue-HasRoom :
    (h : Held) (more : List Held) (b : Broadcaster)
    → HasRoom (h ∷ more) b
    → HasRoom more (requeue h b)
requeue-HasRoom h more b r =
    let c = r.counted in
    let f = r.frames_bounded in
    let n = r.bytes_bounded in
    record {
      counted = omega (arith, held_bytes-append b.quarantine (h ∷ []));
      frames_bounded = omega (arith, length-append b.quarantine (h ∷ []));
      bytes_bounded = omega (arith, held_bytes-append b.quarantine (h ∷ []));
    }

replay_stamped-HasRoom :
    (w : Wire) (o : Oracle) (h : Held) (more : List Held) (r : Stamped) (b : Broadcaster)
    → HasRoom (h ∷ more) b
    → HasRoom more (state_of (replay_stamped w o h r b))
unfolding replay_stamped
replay_stamped-HasRoom w o h more (stamped f) b r =
    deliver-keeps w (HasRoom more) (HasRoom-Stable w more) o f h.generation b (fewer h more b r)
replay_stamped-HasRoom w o h more Stamped.unbound b r = requeue-HasRoom h more b r
replay_stamped-HasRoom w o h more Stamped.conflicting b r =
    identity_resync-keeps w (HasRoom more) (HasRoom-Stable w more) o "identity_conflict" b
      (fewer h more b r)
replay_stamped-HasRoom w o h more Stamped.failed b r = fewer h more b r

replay_held-HasRoom :
    (w : Wire) (o : Oracle) (h : Held) (more : List Held) (b : Broadcaster)
    → HasRoom (h ∷ more) b
    → HasRoom more (state_of (replay_held w o h b))
unfolding replay_held
replay_held-HasRoom w o h more b r =
    let resync = λ (reason : String).
      identity_resync-keeps w (HasRoom more) (HasRoom-Stable w more) o reason b
        (fewer h more b r) in
    elim (Bool-cases (not (h.generation == o.generation))) [
      | inl moved ↦ rw moved (resync "identity_quarantine_generation_changed")
      | inr same ↦ elim (Bool-cases (leb b.quarantine_max_age (o.now - h.arrived))) [
        | inl old ↦ rw (same, old) (resync "identity_quarantine_expired")
        | inr young ↦ rw (same, young) (replay_stamped-HasRoom w o h more _ b r)
      ]
    ]

replay_all_held-HasRoom :
    (w : Wire) (o : Oracle) (more : List Held) (b : Broadcaster)
    → HasRoom more b
    → IsBounded (state_of (replay_all_held w o more b))
unfolding replay_all_held
replay_all_held-HasRoom w o [] b r = HasRoom-IsBounded [] b r
replay_all_held-HasRoom w o (h ∷ more) b r =
    go (replay_held w o h b) (replay_held-HasRoom w o h more b r) (replay_all_held-HasRoom w o more)
  where
    go :
        (m : Outcome)
        → HasRoom more (state_of m)
        → ((b' : Broadcaster)
            → HasRoom more b'
            → IsBounded (state_of (replay_all_held w o more b')))
        → IsBounded (state_of (m >>= replay_all_held w o more))
    go (returned b') q rest = rest b' q
    go (raised b') q rest = HasRoom-IsBounded more b' q

pub IsBounded-Stable : (w : Wire) → Stable w IsBounded
IsBounded-Stable w =
    Stable-iff w (HasRoom []) IsBounded (HasRoom-IsBounded []) IsBounded-HasRoom
      (HasRoom-Stable w [])

hold_in_memory-IsBounded :
    (w : Wire) (o : Oracle) (g : Option ℕ) (envelope : Fields) (raw_type : Option String)
    (b : Broadcaster)
    → IsBounded b
    → IsBounded (state_of (hold_in_memory w o g envelope raw_type b))
unfolding hold_in_memory
hold_in_memory-IsBounded w o g envelope raw_type b r =
    let c = r.counted in
    let size = w.frame_size envelope in
    elim (Bool-cases (
      leb b.quarantine_max_frames (length b.quarantine)
      || ltb b.quarantine_max_bytes (b.quarantine_bytes + size))) [
        | inl full ↦ rw full (
            identity_resync-keeps w IsBounded (IsBounded-Stable w) o "identity_quarantine_overflow"
              b r)
        | inr free ↦
            let frames : suc (length b.quarantine) ≤ b.quarantine_max_frames = ground arith in
            let bytes : b.quarantine_bytes + size ≤ b.quarantine_max_bytes = ground arith in
            rw free (record {
              counted = rw held_bytes-append (omega arith);
              frames_bounded = rw length-append (omega arith);
              bytes_bounded = rw held_bytes-append (omega arith);
            })
      ]

pub IsBounded-KeepsQuarantine : (w : Wire) → KeepsQuarantine w IsBounded
unfolding replay_memory
IsBounded-KeepsQuarantine w = record {
  of_hold = hold_in_memory-IsBounded w;
  of_replay = λ o b r.
      replay_all_held-HasRoom w o b.quarantine (record b { quarantine = []; quarantine_bytes = 0 })
        (record {
          counted = refl;
          frames_bounded = let f = r.frames_bounded in omega arith;
          bytes_bounded = let f = r.bytes_bounded in omega arith;
        });
}

-- A resync leaves what is held, and its bytes, as it is.
identity_resync-quarantine :
    (w : Wire) (o : Oracle) (reason : String) (b : Broadcaster)
    → let b' = state_of (identity_resync w o reason b) in
      (b'.quarantine ≡ b.quarantine) × (b'.quarantine_bytes ≡ b.quarantine_bytes)
unfolding identity_resync
identity_resync-quarantine w o reason b =
    fan_out-state w
      (λ b'. (b'.quarantine ≡ b.quarantine) × (b'.quarantine_bytes ≡ b.quarantine_bytes)) o _
      o.generation (record b { identity_gap = true }) (refl, refl) (λ text size. (refl, refl))

-- A frame that is to be held in memory: where the quarantine has as many frames as it may, or the
-- frame's size would take its bytes over their bound, the gap is flagged and what is held stays as it
-- is, also where the call raises; where there is room for both, the call returns, and the one change is
-- that the frame, with its time and size, is the last one held and its size is counted.
pub hold-accounts :
    (w : Wire) (o : Oracle) (g : Option ℕ) (envelope : Fields) (raw_type : Option String)
    (b : Broadcaster)
    → let h : Held = record {
      generation = g;
      envelope = envelope;
      raw_type = raw_type;
      arrived = o.now;
      size = w.frame_size envelope;
    } in
      let b' = state_of (hold_in_memory w o g envelope raw_type b) in
      (((b.quarantine_max_frames ≤ length b.quarantine)
          ⊎ (b.quarantine_max_bytes < b.quarantine_bytes + w.frame_size envelope))
        × (b'.identity_gap ≡ true)
        × (b'.quarantine ≡ b.quarantine)
        × (b'.quarantine_bytes ≡ b.quarantine_bytes))
      ⊎ ((length b.quarantine < b.quarantine_max_frames)
          × (b.quarantine_bytes + w.frame_size envelope ≤ b.quarantine_max_bytes)
          × (hold_in_memory w o g envelope raw_type b
              ≡ returned (record b {
                quarantine = b.quarantine ++ h ∷ [];
                quarantine_bytes = b.quarantine_bytes + w.frame_size envelope;
              })))
unfolding hold_in_memory
hold-accounts w o g envelope raw_type b =
    let size = w.frame_size envelope in
    let resync = identity_resync-quarantine w o "identity_quarantine_overflow" b in
    let gap = gap-identity_resync w o "identity_quarantine_overflow" b in
    elim (Bool-cases (leb b.quarantine_max_frames (length b.quarantine))) [
      | inl many ↦ inl (rw many (inl (ground arith), gap, resync.0, resync.1))
      | inr few ↦ elim (Bool-cases (ltb b.quarantine_max_bytes (b.quarantine_bytes + size))) [
        | inl large ↦ inl (rw (few, large) (inr (ground arith), gap, resync.0, resync.1))
        | inr small ↦
            let frames : length b.quarantine < b.quarantine_max_frames = ground arith in
            let bytes : b.quarantine_bytes + size ≤ b.quarantine_max_bytes = ground arith in
            inr (rw (few, small) (frames, bytes, refl))
      ]
    ]

replay_held-raises :
    (w : Wire) (o : Oracle) (h : Held) (b : Broadcaster)
    → h.generation ≡ o.generation
    → o.now - h.arrived < b.quarantine_max_age
    → stamp_session_identity o h.raw_type h.generation none h.envelope ≡ Stamped.failed
    → replay_held w o h b ≡ raised b
unfolding replay_held replay_stamped
replay_held-raises w o h b same young fails =
    let kept : not (h.generation == o.generation) ≡ false =
      ap not ((option_beq_iff h.generation o.generation).1 same) in
    let in_time : leb b.quarantine_max_age (o.now - h.arrived) ≡ false = ground arith in
    rw (kept, in_time, fails)

-- Where the resolution of the first held frame, of this connection and still in time, raises an
-- exception other than the two for identities, the replay raises, the quarantine is empty, so this
-- frame and all frames held behind it are gone, and nothing else has changed: no gap is flagged.
pub replay_memory-loses :
    (w : Wire) (o : Oracle) (h : Held) (rest : List Held) (b : Broadcaster)
    → b.quarantine ≡ h ∷ rest
    → h.generation ≡ o.generation
    → o.now - h.arrived < b.quarantine_max_age
    → stamp_session_identity o h.raw_type h.generation none h.envelope ≡ Stamped.failed
    → (replay_memory w o b ≡ raised (record b { quarantine = []; quarantine_bytes = 0 }))
unfolding replay_memory replay_all_held
replay_memory-loses w o h rest b q same young fails =
    let b' = record b { quarantine = []; quarantine_bytes = 0 } in
    ap (λ l. replay_all_held w o l b') q
    ∙ ap (λ m. m >>= replay_all_held w o rest) (replay_held-raises w o h b' same young fails)
