-- ===== src/Stream/Frame/Bounded.antt =====
-- What bounding a frame keeps: the size, and the fields that say whose frame it is.
use Prim.Native.String.{count}
use text.Mathlib.TextLemmas.{length-append, length-nil, length-cons}
use astation.Prelude.{
  ℕ, zero, suc, ◌+◌, ◌≤◌, ◌<◌, String, ◌≡◌, refl, Option, none, some, List, [], ◌∷◌, if◌then◌else◌,
  leb, any, arith, inl, inr, Bool-cases, Option-cases, leb→le, ◌⊎◌,
}
use astation.Prelude.Eq.{◌==◌, string_eq}
use astation.Json.{Json, obj, Fields, end, get, get_or_null, put}
use astation.Json.Laws.{get-put}
use astation.Stream.Wire.{
  Wire, max_client_frame_bytes, session_identity_fields, stored_session_id_field,
  live_session_id_field, connection_generation_field, profile_field,
}
use astation.Stream.Frame.{
  take_chars, text_of, bounded_str, kept_value, kept_fields, kept_session_identity,
  oversized_event_placeholder, minimal_event_placeholder, bounded_client_frame_with_size,
}

count-take_chars : (n : ℕ) (s : String) → count (take_chars n s) ≤ n
count-take_chars zero s = rw length-nil (omega arith)
count-take_chars (suc n) String.[] = rw length-nil (omega arith)
count-take_chars (suc n) (String.◌∷◌ c s) = rw length-cons (omega (arith, count-take_chars n s))

-- A bounded text has at most the limit of characters and the three dots; within the limit a text
-- stays as it is.
pub bounded_str_bounds :
    (w : Wire) (v : Json) (limit : ℕ)
    → (count (bounded_str w v limit) ≤ limit + 3)
      × (count (text_of w v) ≤ limit → bounded_str w v limit ≡ text_of w v)
unfolding bounded_str
bounded_str_bounds w v limit = elim (Bool-cases (leb (count (text_of w v)) limit)) [
  | inl short ↦ rw short (ground arith, λ h. refl)
  | inr long ↦ rw long (
    rw length-append (omega (arith, count-take_chars limit (text_of w v))),
    λ h. absurd (ground arith),
  )
]

get-kept_fields :
    (w : Wire) (names : List String) (body kept : Fields) (j : String)
    → get j (kept_fields w names body kept) ≡ (
        if any (λ n. n == j) names
        then elim (get j body) [ none ↦ get j kept | some v ↦ some (kept_value w v) ]
        else get j kept)
unfolding kept_fields
get-kept_fields w [] body kept j = refl
get-kept_fields w (n ∷ ns) body kept j = elim (Option-cases (get n body)) [
  | inl missing ↦
      rw missing (ground (arith, get-kept_fields w ns body kept j, string_eq.beq_iff n j, missing))
  | inr (v, found) ↦ rw found (
      ground (
        arith,
        get-kept_fields w ns body (put n (kept_value w v) kept) j,
        get-put n j (kept_value w v) kept,
        string_eq.beq_iff n j,
        found,
      ))
]

-- The field of a frame's payload, where the payload is an object.
abbrev pub body_field : String → Fields → Option Json
body_field name f = elim (get_or_null "payload" f) [ obj body ↦ get name body | _ ↦ none ]

-- The fields that say which session, handle, connection and profile a frame belongs to.
pub data IdentityField : Type 0 where
  stored live generation profile : IdentityField

abbrev pub name_of : IdentityField → String
name_of stored = stored_session_id_field
name_of live = live_session_id_field
name_of generation = connection_generation_field
name_of profile = profile_field

abbrev pub kept_option : Wire → Option Json → Option Json
kept_option w none = none
kept_option w (some v) = some (kept_value w v)

get-kept_session_identity :
    (w : Wire) (payload : Fields) (i : IdentityField)
    → get (name_of i) (kept_session_identity w payload)
      ≡ kept_option w (body_field (name_of i) payload)
unfolding kept_session_identity
get-kept_session_identity w payload i = go (get_or_null "payload" payload) i
  where
    at_body :
        (body : Fields) (i : IdentityField)
        → get (name_of i) (kept_fields w session_identity_fields body end)
          ≡ kept_option w (get (name_of i) body)
    at_body body stored = rw get-kept_fields (ground arith)
    at_body body live = rw get-kept_fields (ground arith)
    at_body body generation = rw get-kept_fields (ground arith)
    at_body body profile = rw get-kept_fields (ground arith)

    go :
        (p : Json) (i : IdentityField)
        → get
            (name_of i)
            (elim p [ obj body ↦ kept_fields w session_identity_fields body end | _ ↦ end ])
          ≡ kept_option w (elim p [ obj body ↦ get (name_of i) body | _ ↦ none ])
    go (obj body) i = at_body body i
    go _ i = refl

body_field-put_payload :
    (name : String) (body f : Fields) → body_field name (put "payload" (obj body) f) ≡ get name body
body_field-put_payload name body f = rw (get-put "payload" "payload" (obj body) f, body_field)

-- The marker's own keys are none of the identity fields.
ruleset marker_rules = (get-put, get-kept_session_identity, body_field-put_payload)

body_field-oversized :
    (w : Wire) (payload : Fields) (size : ℕ) (i : IdentityField)
    → body_field (name_of i) (oversized_event_placeholder w payload size)
      ≡ kept_option w (body_field (name_of i) payload)
unfolding oversized_event_placeholder
body_field-oversized w payload size stored = simp marker_rules
body_field-oversized w payload size _ = simp marker_rules

body_field-minimal :
    (w : Wire) (payload : Fields) (size : ℕ) (i : IdentityField)
    → body_field (name_of i) (minimal_event_placeholder w payload size)
      ≡ kept_option w (body_field (name_of i) payload)
unfolding minimal_event_placeholder
body_field-minimal w payload size stored = simp marker_rules
body_field-minimal w payload size _ = simp marker_rules

-- The outcome of bounding a frame: what is sent, or that nothing is.
abbrev pub Sendable : Wire → Fields → Option Fields × ℕ → Type 0
Sendable w payload (some f, n) =
    (n ≡ w.frame_size f)
    × (n ≤ max_client_frame_bytes)
    × ((f ≡ payload)
        ⊎ ((max_client_frame_bytes < w.frame_size payload)
            × ((i : IdentityField)
                → body_field (name_of i) f ≡ kept_option w (body_field (name_of i) payload))))
Sendable w payload (none, n) =
    (max_client_frame_bytes < w.frame_size payload)
    × (max_client_frame_bytes
        < w.frame_size (oversized_event_placeholder w payload (w.frame_size payload)))
    × (max_client_frame_bytes
        < w.frame_size (minimal_event_placeholder w payload (w.frame_size payload)))

-- The frame that bounding returns fits the client's limit and has the reported size; the number and the
-- stream's epoch are added to it later. It is the frame itself, or that one is over the limit and each identity field stands in the marker exactly if it stood in the
-- frame: a null or an int unchanged, anything else as its bounded text. None is returned only where
-- the frame and both markers are over the limit.
pub bounded_client_frame-Sendable :
    (w : Wire) (payload : Fields) → Sendable w payload (bounded_client_frame_with_size w payload)
unfolding bounded_client_frame_with_size
bounded_client_frame-Sendable w payload =
    let size = w.frame_size payload in
    let over = oversized_event_placeholder w payload size in
    let least = minimal_event_placeholder w payload size in
    elim (Bool-cases (leb size max_client_frame_bytes)) [
      | inl fits ↦ rw fits (refl, leb→le _ _ fits, inl refl)
      | inr large ↦ elim (Bool-cases (leb (w.frame_size over) max_client_frame_bytes)) [
        | inl fits ↦
            rw (large, fits)
              (refl, leb→le _ _ fits, inr (ground arith, body_field-oversized w payload size))
        | inr larger ↦ elim (Bool-cases (leb (w.frame_size least) max_client_frame_bytes)) [
          | inl fits ↦
              rw (large, larger, fits)
                (refl, leb→le _ _ fits, inr (ground arith, body_field-minimal w payload size))
          | inr largest ↦ rw (large, larger, largest) (ground arith, ground arith, ground arith)
        ]
      ]
    ]
