-- ===== src/Watch/Tests.antt =====
-- The watches of one small set.
use astation.Prelude.{◌+◌, ◌≡◌, refl, some, List, [], ◌∷◌, arith, ltb}
use astation.Prelude.Eq.{string_eq, pair_eq}
use astation.Watch.{WatchedSessions, watch, is_watched}
use astation.Watch.Life.{IsValid, Call, run_calls, run_calls-keep_IsValid, is_watched-watch}

abbrev one : WatchedSessions
one = record { entries = (("default", "s1"), 5) ∷ []; ttl = 10; capacity = 1 }

one-IsValid : IsValid one
one-IsValid = record { unique_keys = (refl, tt); fits = omega arith }

abbrev calls : List Call
calls =
    Call.start 7 "s2" "default" ∷ Call.ask 20 (some "s2") "default" ∷ Call.stop "s1" "default" ∷ []

run_calls-keep_IsValid_example : IsValid (run_calls calls one)
run_calls-keep_IsValid_example = run_calls-keep_IsValid calls one one-IsValid

is_watched-watch_example :
    (is_watched 16 (some "s2") "default" (watch 7 "s2" "default" one)).0 ≡ ltb 16 (7 + 10)
is_watched-watch_example = is_watched-watch 7 16 "s2" "default" one one-IsValid (omega arith) refl
