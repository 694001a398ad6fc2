-- ===== src/Stream/Broadcaster/Preserve.antt =====
-- When the operations of `EventBroadcaster` keep a property of its state: an interface of the few
-- writes that the operations are made of, and the induction over the operations.
use astation.Prelude.{
  ℕ, ◌≡◌, refl, ap, subst, Option-cases, Bool, true, false, Option, none, some, List, [], ◌∷◌,
  Bool-cases, inl, inr, not, leb, ltb, length, ◌-◌, ◌+◌, ◌||◌, String, if◌then◌else◌, is_none,
}
use astation.Prelude.Eq.{◌==◌, option_eq, nat_eq, string_eq}
use astation.Json.{num, Fields, get_or_null, put, without, nonempty_str}
use astation.Json.Laws.{get_or_null-put_self}
use astation.Stream.Wire.{Wire}
use astation.Stream.Frame.{
  bounded_client_frame_with_size, bounded_client_frame, resync_required_frame, stream_reset_frame,
}
use astation.Stream.Broadcaster.{
  Held, Broadcaster, Oracle, Outcome, returned, raised, ◌>>=◌, catch, state_of, fan_out,
  fan_out_sized, with_epoch, offer_all, remember, ended, numbered, identity_resync, hold_in_memory,
  hold, hold_in, stored, Stamped, stamped, publish, publish_injected, background_step,
  deliver_captured, deliver, put_in_inbox, durable_capture_id_field,
}
use astation.Stream.Broadcaster.Pump.{
  RawEvent, publish_optional, with_inbox, replay_page, forward_bound, forward_recorded,
  forward_optional, note_connection_generation, on_inbox, capture, bind_row, replay_row,
  replay_rows, replay_inbox, is_flag_set, replay_stamped, replay_held, replay_all_held,
  replay_memory, replay_read, acknowledged, bound_in_inbox, capture_bound, replay_quarantine,
  forward_stamped, record_first, forward_envelope, forward_normalized, forward_one,
  watch_generation, inject, generation_or,
}
use astation.Inbox.{
  Row, EventInbox, acknowledge, bind_event, event_id_of, put_event, bound_identity_field,
}

-- The state after a fan-out: as before where the text cannot be encoded, and else with the frame and its
-- text remembered and offered.
pub fan_out-cases :
    (w : Wire) (P : Broadcaster → Type 0) (o : Oracle) (frame : Fields) (g : Option ℕ)
    (b : Broadcaster)
    → (w.utf8_size (w.encode_frame (with_epoch frame b)) ≡ none → P b)
    → ((size : ℕ)
        → let text = w.encode_frame (with_epoch frame b) in
          P (record b {
            history = remember (with_epoch frame b) text b.history;
            subscribers = (offer_all w o.stamp (with_epoch frame b) size g text b.subscribers).0;
          }))
    → P (state_of (fan_out w o frame g b))
unfolding fan_out
fan_out-cases w P o frame g b same more =
    go (w.utf8_size (w.encode_frame (with_epoch frame b))) refl
  where
    end_state : (ok : Bool) (b' : Broadcaster) → P b' → P (state_of (ended ok b'))
    end_state true b' h = h
    end_state false b' h = h

    go :
        (r : Option ℕ)
        → w.utf8_size (w.encode_frame (with_epoch frame b)) ≡ r
        → P (state_of (fan_out_sized w o (with_epoch frame b) g r b))
    go none e = same e
    go (some size) e = end_state _ _ (more size)

pub fan_out-state :
    (w : Wire) (P : Broadcaster → Type 0) (o : Oracle) (frame : Fields) (g : Option ℕ)
    (b : Broadcaster)
    → P b
    → ((text : String) (size : ℕ)
        → P (record b {
          history = remember (with_epoch frame b) text b.history;
          subscribers = (offer_all w o.stamp (with_epoch frame b) size g text b.subscribers).0;
        }))
    → P (state_of (fan_out w o frame g b))
fan_out-state w P o frame g b same more =
    fan_out-cases w P o frame g b (λ e. same)
      (λ size. more (w.encode_frame (with_epoch frame b)) size)

-- A frame that the history does not keep.
abbrev pub IsUnnumbered : Fields → Type 0
IsUnnumbered frame = numbered (get_or_null "seq" frame) ≡ none

-- The writes that keep `P`.
pub record Stable (w : Wire) (P : Broadcaster → Type 0) : Type 0 where
  pub of_fan_out :
      (o : Oracle) (frame : Fields) (g : Option ℕ) (b : Broadcaster)
      → IsUnnumbered frame
      → P b
      → P (state_of (fan_out w o frame g b))
  pub of_publish :
      (o : Oracle) (frame : Fields) (g : Option ℕ) (b : Broadcaster)
      → P b
      → P (state_of (publish w o frame g b))
  pub of_gap : (b : Broadcaster) → P b → P (record b { identity_gap = true })
  pub of_generation : (g : Option ℕ) (b : Broadcaster) → P b → P (record b { generation_seen = g })
  pub of_inbox : (i : Option EventInbox) (b : Broadcaster) → P b → P (record b { inbox = i })
  pub of_cursor : (c : Option String) (b : Broadcaster) → P b → P (record b { inbox_cursor = c })

pub Stable-iff :
    (w : Wire) (P Q : Broadcaster → Type 0)
    → ((b : Broadcaster) → P b → Q b)
    → ((b : Broadcaster) → Q b → P b)
    → Stable w P
    → Stable w Q
Stable-iff w P Q to from s = record {
  of_fan_out = λ o frame g b u h. to _ (s.of_fan_out o frame g b u (from b h));
  of_publish = λ o frame g b h. to _ (s.of_publish o frame g b (from b h));
  of_gap = λ b h. to _ (s.of_gap b (from b h));
  of_generation = λ g b h. to _ (s.of_generation g b (from b h));
  of_inbox = λ i b h. to _ (s.of_inbox i b (from b h));
  of_cursor = λ c b h. to _ (s.of_cursor c b (from b h));
}

-- A raised gap stays raised.
pub HasGap-fan_out :
    (w : Wire) (o : Oracle) (frame : Fields) (g : Option ℕ) (b : Broadcaster)
    → b.identity_gap ≡ true
    → (state_of (fan_out w o frame g b)).identity_gap ≡ true
HasGap-fan_out w o frame g b h =
    fan_out-state w (λ b'. b'.identity_gap ≡ true) o frame g b h (λ text size. h)

pub gap-identity_resync :
    (w : Wire) (o : Oracle) (reason : String) (b : Broadcaster)
    → (state_of (identity_resync w o reason b)).identity_gap ≡ true
unfolding identity_resync
gap-identity_resync w o reason b =
    HasGap-fan_out w o _ o.generation (record b { identity_gap = true }) refl

module _ {P : Broadcaster → Type 0} where
  pub bind-keeps :
      (m : Outcome) (f : Broadcaster → Outcome)
      → P (state_of m)
      → ((b : Broadcaster) → P b → P (state_of (f b)))
      → P (state_of (m >>= f))
  bind-keeps (returned b) f h k = k b h
  bind-keeps (raised b) f h k = h

  pub catch-keeps :
      (m : Outcome) (f : Broadcaster → Outcome)
      → P (state_of m)
      → ((b : Broadcaster) → P b → P (state_of (f b)))
      → P (state_of (catch m f))
  catch-keeps (returned b) f h k = h
  catch-keeps (raised b) f h k = k b h

module _ (w : Wire) (P : Broadcaster → Type 0) (s : Stable w P) where
  pub identity_resync-keeps :
      (o : Oracle) (reason : String) (b : Broadcaster)
      → P b
      → P (state_of (identity_resync w o reason b))
  unfolding identity_resync
  identity_resync-keeps o reason b h =
      s.of_fan_out o _ o.generation (record b { identity_gap = true })
        (unfold stream_reset_frame in refl) (s.of_gap b h)

  pub note_connection_generation-keeps :
      (o : Oracle) (b : Broadcaster) → P b → P (state_of (note_connection_generation w o b))
  unfolding note_connection_generation
  note_connection_generation-keeps o b h = go o.generation
    where
      go :
          (g : Option ℕ)
          → P (
              state_of (elim g [
                | none ↦ returned b
                | some n ↦
                    if b.generation_seen == some n
                    then returned b
                    else fan_out w o
                        (resync_required_frame o.stamp (some n) b.generation_seen)
                        (some n)
                        (record b { generation_seen = some n })
              ]))
      go none = h
      go (some n) = elim (Bool-cases (b.generation_seen == some n)) [
        | inl same ↦ rw same h
        | inr moved ↦ rw moved (
            s.of_fan_out o (resync_required_frame o.stamp (some n) b.generation_seen) (some n)
              (record b { generation_seen = some n }) (unfold resync_required_frame in refl)
              (s.of_generation (some n) b h))
      ]

  publish_injected-keeps :
      (o : Oracle) (injected : Option Fields) (g : Option ℕ) (b : Broadcaster)
      → P b
      → P (state_of (publish_injected w o injected g b))
  publish_injected-keeps o none g b h = h
  publish_injected-keeps o (some f) g b h = go (bounded_client_frame w f)
    where
      go :
          (r : Option Fields)
          → P (
              state_of (elim r [
                | none ↦ returned b
                | some frame ↦ fan_out w o (put "seq" (num 0) frame) g b
              ]))
      go none = h
      go (some frame) =
          s.of_fan_out o (put "seq" (num 0) frame) g b
            (ap numbered (get_or_null-put_self "seq" (num 0) frame)) h

  deliver_captured-keeps :
      (o : Oracle) (envelope : Fields) (g : Option ℕ) (b : Broadcaster)
      → P b
      → P (state_of (deliver_captured w o envelope g b))
  unfolding deliver_captured
  deliver_captured-keeps o envelope g b h =
      go (bounded_client_frame_with_size w (background_step o envelope).0).0
    where
      go :
          (r : Option Fields)
          → P (
              state_of (elim r [
                | none ↦ returned b
                | some frame ↦
                    publish w o frame g b >>= publish_injected w o (background_step o envelope).1 g
              ]))
      go none = h
      go (some frame) =
          bind-keeps (publish w o frame g b) _ (s.of_publish o frame g b h)
            (λ b' h'. publish_injected-keeps o (background_step o envelope).1 g b' h')

  pub deliver-keeps :
      (o : Oracle) (envelope : Fields) (g : Option ℕ) (b : Broadcaster)
      → P b
      → P (state_of (deliver w o envelope g b))
  unfolding deliver
  deliver-keeps o envelope g b h = elim (Option-cases (o.on_canonical_event envelope)) [
    | inl failed ↦
        elim (Bool-cases (is_none (nonempty_str (get_or_null durable_capture_id_field envelope)))) [
          | inl live ↦ rw (failed, deliver, live) (deliver_captured-keeps o envelope g b h)
          | inr durable ↦ rw (failed, deliver, durable) h
        ]
    | inr (envelope', done) ↦ rw (done, deliver) (deliver_captured-keeps o envelope' g b h)
  ]

  with_inbox-keeps :
      (f : EventInbox → EventInbox) (i : Option EventInbox) (b : Broadcaster)
      → P b
      → P (with_inbox f i b)
  with_inbox-keeps f none b h = h
  with_inbox-keeps f (some i) b h = s.of_inbox (some (f i)) b h

  on_inbox-keeps : (f : EventInbox → EventInbox) (b : Broadcaster) → P b → P (on_inbox f b)
  on_inbox-keeps f b h = with_inbox-keeps f b.inbox b h

  acknowledged-keeps :
      (ok : Bool) (envelope : Fields) (b : Broadcaster)
      → P b
      → P (state_of (acknowledged ok envelope b))
  acknowledged-keeps true envelope b h = on_inbox-keeps (acknowledge (event_id_of envelope)) b h
  acknowledged-keeps false envelope b h = h

  bound_in_inbox-keeps :
      (ok : Bool) (envelope : Fields) (b : Broadcaster)
      → P b
      → P (state_of (bound_in_inbox ok envelope b))
  bound_in_inbox-keeps true envelope b h = on_inbox-keeps (bind_event envelope) b h
  bound_in_inbox-keeps false envelope b h = h

  capture-keeps :
      (o : Oracle) (envelope : Fields) (g : Option ℕ) (b : Broadcaster)
      → P b
      → P (state_of (capture w o envelope g b))
  unfolding capture
  capture-keeps o envelope g b h =
      catch-keeps (deliver w o _ g b >>= _) (identity_resync w o "identity_capture_failed")
        (bind-keeps (deliver w o _ g b) _ (deliver-keeps o _ g b h)
          (acknowledged-keeps (o.inbox_acknowledges (event_id_of envelope)) envelope))
        (λ b' h'. identity_resync-keeps o "identity_capture_failed" b' h')

  capture_bound-keeps :
      (o : Oracle) (reason : String) (envelope : Fields) (m : Outcome)
      → P (state_of m)
      → P (state_of (capture_bound w o reason envelope m))
  capture_bound-keeps o reason envelope (returned b) h = capture-keeps o envelope o.generation b h
  capture_bound-keeps o reason envelope (raised b) h = identity_resync-keeps o reason b h

  bind_row-keeps :
      (o : Oracle) (r : Stamped) (b : Broadcaster) → P b → P (state_of (bind_row w o r b))
  unfolding bind_row
  bind_row-keeps o (stamped envelope) b h =
      capture_bound-keeps o "identity_resolution_failed" envelope _
        (bound_in_inbox-keeps (o.inbox_binds (event_id_of envelope)) envelope b h)
  bind_row-keeps o Stamped.unbound b h = h
  bind_row-keeps o Stamped.conflicting b h = identity_resync-keeps o "identity_conflict" b h
  bind_row-keeps o Stamped.failed b h = identity_resync-keeps o "identity_resolution_failed" b h

  replay_row-keeps :
      (o : Oracle) (r : Row) (b : Broadcaster) → P b → P (state_of (replay_row w o r b))
  unfolding replay_row
  replay_row-keeps o r b h =
      elim (Bool-cases (is_flag_set (get_or_null bound_identity_field r.envelope))) [
        | inl bound ↦
            rw bound (capture-keeps o (without bound_identity_field r.envelope) o.generation b h)
        | inr free ↦ rw free (bind_row-keeps o _ b h)
      ]

  replay_rows-keeps :
      (o : Oracle) (rows : List Row) (b : Broadcaster) → P b → P (state_of (replay_rows w o rows b))
  unfolding replay_rows
  replay_rows-keeps o [] b h = h
  replay_rows-keeps o (r ∷ rows) b h =
      bind-keeps (replay_row w o r b) (replay_rows w o rows) (replay_row-keeps o r b h)
        (replay_rows-keeps o rows)

  replay_read-keeps :
      (o : Oracle) (ok : Bool) (page : List Row) (b : Broadcaster)
      → P b
      → P (state_of (replay_read w o ok page b))
  replay_read-keeps o true page b h = replay_rows-keeps o page _ (s.of_cursor _ b h)
  replay_read-keeps o false page b h = identity_resync-keeps o "identity_inbox_unavailable" b h

  replay_page-keeps :
      (o : Oracle) (i : Option EventInbox) (b : Broadcaster)
      → P b
      → P (state_of (replay_page w o i b))
  replay_page-keeps o none b h = h
  replay_page-keeps o (some inbox) b h = replay_read-keeps o o.inbox_reads _ b h

  pub replay_inbox-keeps : (o : Oracle) (b : Broadcaster) → P b → P (state_of (replay_inbox w o b))
  unfolding replay_inbox
  replay_inbox-keeps o b h = replay_page-keeps o b.inbox b h

  put_event-keeps :
      (o : Oracle) (envelope : Fields) (raw_type : Option String) (i : EventInbox)
      (b b' : Broadcaster)
      → P b
      → put_in_inbox w o envelope raw_type i b ≡ some b'
      → P b'
  put_event-keeps o envelope raw_type i b b' h e =
      go o.inbox_writes (put_event w b.identity_epoch envelope raw_type i) e
    where
      go : (ok : Bool) (r : Option EventInbox) → (if ok then stored b r else none) ≡ some b' → P b'
      go false r e = cc e
      go true none e = cc e
      go true (some i') e =
          let same : record b { inbox = some i' } ≡ b' = cc e in
          subst P same (s.of_inbox (some i') b h)

-- The two operations that write the quarantine, and so ask more than `Stable`.
pub record KeepsQuarantine (w : Wire) (P : Broadcaster → Type 0) : Type 0 where
  pub of_hold :
      (o : Oracle) (g : Option ℕ) (envelope : Fields) (raw_type : Option String) (b : Broadcaster)
      → P b
      → P (state_of (hold_in_memory w o g envelope raw_type b))
  pub of_replay : (o : Oracle) (b : Broadcaster) → P b → P (state_of (replay_memory w o b))

-- A property that any write of the quarantine keeps.
module _ (w : Wire) (P : Broadcaster → Type 0) (s : Stable w P)
    (set : (q : List Held) (n : ℕ) (b : Broadcaster)
      → P b
      → P (record b { quarantine = q; quarantine_bytes = n })) where
  hold_in_memory-keeps :
      (o : Oracle) (g : Option ℕ) (envelope : Fields) (raw_type : Option String) (b : Broadcaster)
      → P b
      → P (state_of (hold_in_memory w o g envelope raw_type b))
  unfolding hold_in_memory
  hold_in_memory-keeps o g envelope raw_type b h =
      elim (Bool-cases (
        leb b.quarantine_max_frames (length b.quarantine)
        || ltb b.quarantine_max_bytes (b.quarantine_bytes + w.frame_size envelope))) [
          | inl full ↦ rw full (identity_resync-keeps w P s o "identity_quarantine_overflow" b h)
          | inr free ↦ rw free (set _ _ b h)
        ]

  replay_stamped-keeps :
      (o : Oracle) (x : Held) (r : Stamped) (b : Broadcaster)
      → P b
      → P (state_of (replay_stamped w o x r b))
  unfolding replay_stamped
  replay_stamped-keeps o x (stamped envelope) b h = deliver-keeps w P s o envelope x.generation b h
  replay_stamped-keeps o x Stamped.unbound b h = set _ _ b h
  replay_stamped-keeps o x Stamped.conflicting b h =
      identity_resync-keeps w P s o "identity_conflict" b h
  replay_stamped-keeps o x Stamped.failed b h = h

  replay_held-keeps :
      (o : Oracle) (x : Held) (b : Broadcaster) → P b → P (state_of (replay_held w o x b))
  unfolding replay_held
  replay_held-keeps o x b h = elim (Bool-cases (not (x.generation == o.generation))) [
    | inl moved ↦
        rw moved (identity_resync-keeps w P s o "identity_quarantine_generation_changed" b h)
    | inr same ↦ elim (Bool-cases (leb b.quarantine_max_age (o.now - x.arrived))) [
      | inl old ↦ rw (same, old) (identity_resync-keeps w P s o "identity_quarantine_expired" b h)
      | inr young ↦ rw (same, young) (replay_stamped-keeps o x _ b h)
    ]
  ]

  replay_all_held-keeps :
      (o : Oracle) (xs : List Held) (b : Broadcaster)
      → P b
      → P (state_of (replay_all_held w o xs b))
  unfolding replay_all_held
  replay_all_held-keeps o [] b h = h
  replay_all_held-keeps o (x ∷ xs) b h =
      bind-keeps (replay_held w o x b) (replay_all_held w o xs) (replay_held-keeps o x b h)
        (replay_all_held-keeps o xs)

  pub keeps_quarantine : KeepsQuarantine w P
  unfolding replay_memory
  keeps_quarantine = record {
    of_hold = hold_in_memory-keeps;
    of_replay = λ o b h. replay_all_held-keeps o b.quarantine _ (set [] 0 b h);
  }

module _ (w : Wire) (P : Broadcaster → Type 0) (s : Stable w P) (q : KeepsQuarantine w P) where
  replay_quarantine-keeps :
      (o : Oracle) (b : Broadcaster) → P b → P (state_of (replay_quarantine w o b))
  unfolding replay_quarantine
  replay_quarantine-keeps o b h =
      bind-keeps (replay_inbox w o b) (replay_memory w o) (replay_inbox-keeps w P s o b h)
        (q.of_replay o)

  hold_in-keeps :
      (o : Oracle) (g : Option ℕ) (envelope : Fields) (raw_type : Option String)
      (i : Option EventInbox) (b : Broadcaster)
      → P b
      → P (state_of (hold_in w o g envelope raw_type i b))
  hold_in-keeps o g envelope raw_type none b h = q.of_hold o g envelope raw_type b h
  hold_in-keeps o g envelope raw_type (some i) b h =
      elim (Option-cases (put_in_inbox w o envelope raw_type i b)) [
        | inl full ↦ rw full (identity_resync-keeps w P s o "identity_inbox_unavailable" b h)
        | inr (b', e) ↦ rw e (put_event-keeps w P s o envelope raw_type i b b' h e)
      ]

  hold-keeps :
      (o : Oracle) (g : Option ℕ) (envelope : Fields) (raw_type : Option String) (b : Broadcaster)
      → P b
      → P (state_of (hold w o g envelope raw_type b))
  unfolding hold
  hold-keeps o g envelope raw_type b h = hold_in-keeps o g envelope raw_type b.inbox b h

  forward_bound-keeps :
      (o : Oracle) (bound : Fields) (i : Option EventInbox) (b : Broadcaster)
      → P b
      → P (state_of (forward_bound w o bound i b))
  forward_bound-keeps o bound none b h = deliver-keeps w P s o bound o.generation b h
  forward_bound-keeps o bound (some i) b h =
      capture_bound-keeps w P s o "identity_capture_failed" bound _
        (bound_in_inbox-keeps w P s (o.inbox_binds (event_id_of bound)) bound b h)

  forward_stamped-keeps :
      (o : Oracle) (envelope : Fields) (raw_type : Option String) (r : Stamped) (b : Broadcaster)
      → P b
      → P (state_of (forward_stamped w o envelope raw_type r b))
  unfolding forward_stamped
  forward_stamped-keeps o envelope raw_type (stamped bound) b h =
      forward_bound-keeps o bound b.inbox b h
  forward_stamped-keeps o envelope raw_type Stamped.unbound b h =
      hold-keeps o o.generation envelope raw_type b h
  forward_stamped-keeps o envelope raw_type Stamped.conflicting b h =
      identity_resync-keeps w P s o "identity_conflict" b h
  forward_stamped-keeps o envelope raw_type Stamped.failed b h =
      bind-keeps (hold w o o.generation envelope raw_type b)
        (identity_resync w o "identity_resolution_failed")
        (hold-keeps o o.generation envelope raw_type b h)
        (identity_resync-keeps w P s o "identity_resolution_failed")

  forward_envelope-keeps :
      (o : Oracle) (raw_type : Option String) (envelope : Fields) (b : Broadcaster)
      → P b
      → P (state_of (forward_envelope w o raw_type envelope b))
  unfolding forward_envelope
  forward_envelope-keeps o raw_type envelope b h = go b.inbox
    where
      go :
          (i : Option EventInbox)
          → P (
              state_of
                (forward_recorded w o raw_type envelope b (record_first w o envelope raw_type i b)))
      go none = forward_stamped-keeps o envelope raw_type _ b h
      go (some i) = elim (Option-cases (put_in_inbox w o envelope raw_type i b)) [
        | inl full ↦ rw full (identity_resync-keeps w P s o "identity_inbox_unavailable" b h)
        | inr (b', e) ↦ rw e (
            forward_stamped-keeps o envelope raw_type _ b'
              (put_event-keeps w P s o envelope raw_type i b b' h e))
      ]

  forward_optional-keeps :
      (o : Oracle) (raw_type : Option String) (envelope : Option Fields) (b : Broadcaster)
      → P b
      → P (state_of (forward_optional w o raw_type envelope b))
  forward_optional-keeps o raw_type none b h = h
  forward_optional-keeps o raw_type (some envelope) b h =
      forward_envelope-keeps o raw_type envelope b h

  forward_normalized-keeps :
      (o : Oracle) (e : RawEvent) (b : Broadcaster)
      → P b
      → P (state_of (forward_normalized w o e b))
  unfolding forward_normalized
  forward_normalized-keeps o e b h =
      elim (Bool-cases (not (generation_or o.generation e.adapter_generation == o.generation))) [
        | inl moved ↦
            rw moved (identity_resync-keeps w P s o "identity_event_generation_changed" b h)
        | inr same ↦ rw same (forward_optional-keeps o e.raw_type e.normalized b h)
      ]

  -- Whatever the environment answers, one upstream event keeps `P`, also where it raises.
  pub forward_one-keeps :
      (o : Oracle) (e : RawEvent) (b : Broadcaster) → P b → P (state_of (forward_one w o e b))
  unfolding forward_one
  forward_one-keeps o e b h =
      bind-keeps (note_connection_generation w o b >>= replay_quarantine w o)
        (forward_normalized w o e)
        (bind-keeps (note_connection_generation w o b) (replay_quarantine w o)
          (note_connection_generation-keeps w P s o b h) (replay_quarantine-keeps o))
        (forward_normalized-keeps o e)

  pub watch_generation-keeps :
      (o : Oracle) (b : Broadcaster) → P b → P (state_of (watch_generation w o b))
  unfolding watch_generation
  watch_generation-keeps o b h =
      bind-keeps (note_connection_generation w o b) (replay_quarantine w o)
        (note_connection_generation-keeps w P s o b h) (replay_quarantine-keeps o)

  pub inject-keeps :
      (o : Oracle) (envelope : Fields) (profile : String) (b : Broadcaster)
      → P b
      → P (state_of (inject w o envelope profile b))
  unfolding inject
  inject-keeps o envelope profile b h = go _
    where
      go : (r : Option Fields) → P (state_of (publish_optional w o r b))
      go none = h
      go (some frame) = s.of_publish o frame b.generation_seen b h
