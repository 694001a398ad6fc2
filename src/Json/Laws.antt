-- ===== src/Json/Laws.antt =====
-- Reads of an object after writes.
use astation.Prelude.{String, ◌≡◌, refl, some, arith, if◌then◌else◌}
use astation.Prelude.Eq.{◌==◌, string_eq}
use astation.Json.{Json, Fields, end, field, get, get_or_null, put}

pub get-put :
    (k j : String) (v : Json) (d : Fields)
    → get j (put k v d) ≡ (if k == j then some v else get j d)
get-put k j v end = refl
get-put k j v (field i w d) =
    ground
      (arith, string_eq.beq_iff k j, string_eq.beq_iff i k, string_eq.beq_iff i j, get-put k j v d)

pub get_or_null-put_self : (k : String) (v : Json) (d : Fields) → get_or_null k (put k v d) ≡ v
get_or_null-put_self k v d = ground (arith, get-put k k v d, string_eq.beq_iff k k)

pub get_or_null-put :
    (k j : String) (v : Json) (d : Fields)
    → get_or_null j (put k v d) ≡ (if k == j then v else get_or_null j d)
get_or_null-put k j v d = ground (arith, get-put k j v d)
