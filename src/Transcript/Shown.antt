-- ===== src/Transcript/Shown.antt =====
-- What a reader finds on a projected row.
use astation.Prelude.{
  ◌≡◌, refl, ap, ◌∙◌, String, Bool, true, false, Option, none, some, if◌then◌else◌, ◌&&◌, arith,
  Bool-cases, inl, inr,
}
use astation.Prelude.Eq.{◌==◌, string_eq}
use astation.Json.{Json, Fields, num, get, put}
use astation.Json.Laws.{get-put}
use astation.Transcript.{
  Texts, drop_keys, is_light_omitted, project_fields, measure_reasoning,
  reasoning_content_is_duplicate,
}

get-drop_keys :
    (is_dropped : String → Bool) (key : String) (row : Fields)
    → get key (drop_keys is_dropped row) ≡ (if is_dropped key then none else get key row)
unfolding drop_keys
get-drop_keys is_dropped key Fields.end = ground arith
get-drop_keys is_dropped key (Fields.field k v row) = elim (Bool-cases (k == key)) [
  | inr other ↦ ground (arith, get-drop_keys is_dropped key row)
  | inl here ↦
      let same : is_dropped k ≡ is_dropped key = ap is_dropped ((string_eq.beq_iff k key).0 here) in
      ground (arith, same, get-drop_keys is_dropped key row)
]

-- What a key of a row reads as after the projection, in full or light detail.
abbrev pub shown : Texts → Bool → String → Fields → Option Json
shown texts false key row =
    if key == "reasoning_content" && reasoning_content_is_duplicate row then none else get key row
shown texts true key row =
    if "reasoning_chars" == key
    then some (num (measure_reasoning texts row).1)
    else if "has_reasoning" == key
    then some (Json.bool (measure_reasoning texts row).0)
    else if is_light_omitted key
    then none
    else get key row

-- In full detail a row reads as before at every key, but for a `reasoning_content` that is a text equal to
-- the row's `reasoning`, which is left out. In light detail both reasoning keys are left out, the two
-- measures are set, and every other key reads as before.
pub get-project_fields :
    (texts : Texts) (light : Bool) (key : String) (row : Fields)
    → get key (project_fields texts light row) ≡ shown texts light key row
unfolding project_fields
get-project_fields texts false key row = elim (Bool-cases (reasoning_content_is_duplicate row)) [
  | inl twice ↦ rw twice (
      get-drop_keys (λ k. k == "reasoning_content") key row ∙ and_true (key == "reasoning_content"))
  | inr once ↦ rw once (and_false (key == "reasoning_content"))
]
  where
    and_true :
        (b : Bool) → (if b then none else get key row) ≡ (if b && true then none else get key row)
    and_true true = refl
    and_true false = refl

    and_false : (b : Bool) → get key row ≡ (if b && false then none else get key row)
    and_false true = refl
    and_false false = refl
get-project_fields texts true key row =
    let measured = measure_reasoning texts row in
    let kept = drop_keys is_light_omitted row in
    get-put "reasoning_chars" key (num measured.1) (put "has_reasoning" (Json.bool measured.0) kept)
    ∙ ap (λ o. if "reasoning_chars" == key then some (num measured.1) else o)
        (get-put "has_reasoning" key (Json.bool measured.0) kept
          ∙ ap (λ o. if "has_reasoning" == key then some (Json.bool measured.0) else o)
              (get-drop_keys is_light_omitted key row))
