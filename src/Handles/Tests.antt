-- ===== src/Handles/Tests.antt =====
-- The lookups and the bounds on small caches.
use astation.Prelude.{String, ◌≡◌, ◌≢◌, ◌↔◌, refl, true, none, some, List, [], ◌∷◌, arith, any}
use astation.Prelude.Eq.{◌==◌, string_eq}
use astation.Handles
use astation.Handles.{LiveHandleCache, bound_stored_ids_for_live, discard, stored_for_live}
use astation.Handles.Bounds.{IsValid, Call, run_calls, run_calls-IsValid}
use astation.Handles.Lookups.{get-put, get-new_generation, bound_stored_ids-iff-get}

abbrev one : LiveHandleCache
one = record {
  handles = ((1, "stored"), "live") ∷ [];
  stored_by_live = ((1, "live"), "stored") ∷ [];
  generation_seen = some 1;
}

one-IsValid : IsValid one
one-IsValid = record {
  handles_fit = record {
    bounded = omega arith;
    unique_keys = (refl, tt);
    one_generation = (refl, tt);
  };
  stored_fit = record {
    bounded = omega arith;
    unique_keys = (refl, tt);
    one_generation = (refl, tt);
  };
}

abbrev stored_id : String
stored_id = "stored"

abbrev new_id : String
new_id = "a"

other_id : new_id ≢ stored_id
other_id = λ e. cc

other_generation : one.generation_seen ≢ some 2
other_generation = λ e. cc

abbrev calls : List Call
calls =
    Call.put (some 1) "other" "live_other"
    ∷ Call.get (some 2) "stored"
    ∷ Call.discard (some 2) "stored"
    ∷ []

run_calls-IsValid_example : IsValid (run_calls calls one)
run_calls-IsValid_example = run_calls-IsValid calls one one-IsValid

get-put_example :
    ((Handles.get (some 1) "a" (Handles.put (some 1) "a" "b" one)).0 ≡ some "b")
    × ((stored_for_live (some 1) "b" (Handles.put (some 1) "a" "b" one)).0 ≡ some "a")
get-put_example = get-put 1 "a" "b" one

get-new_generation_example :
    ((Handles.get (some 2) "stored" one).0 ≡ none)
    × ((stored_for_live (some 2) "live" one).0 ≡ none)
get-new_generation_example = get-new_generation 2 "stored" "live" one one-IsValid other_generation

bound_stored_ids-iff-get_example :
    (any (λ s. s == "stored") (bound_stored_ids_for_live (some 1) "live" one).0 ≡ true)
    ↔ ((Handles.get (some 1) "stored" one).0 ≡ some "live")
bound_stored_ids-iff-get_example = bound_stored_ids-iff-get 1 "stored" "live" one one-IsValid
