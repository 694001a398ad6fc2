-- ===== src/Json.antt =====
-- The values of Python's `json`, and the operations on its objects that the program uses.
pub mod Laws
use Prim.Native.String.{compare}
use Prim.Native.Nat.{Ordering}
use astation.Prelude.{
  ℕ, zero, suc, String, Bool, true, false, Option, none, some, List, [], ◌∷◌, if◌then◌else◌, not,
  ◌&&◌,
}
use astation.Prelude.Eq.{Eq, ◌==◌, string_eq}

-- `negsuc n` is -(n + 1).
pub data ℤ : Type 0 where
  pos : ℕ → ℤ
  negsuc : ℕ → ℤ

-- A float is kept by its literal.
mutual
  pub data Json : Type 0 where
    null : Json
    bool : Bool → Json
    int : ℤ → Json
    float : String → Json
    str : String → Json
    arr : Items → Json
    obj : Fields → Json

  pub data Items : Type 0 where
    nil : Items
    cons : Json → Items → Items

  -- An object's entries, in insertion order.
  pub data Fields : Type 0 where
    end : Fields
    field : String → Json → Fields → Fields

abbrev pub num : ℕ → Json
num n = int (pos n)

-- `d.get(k)`, with `none` where the key is missing
abbrev pub get : String → Fields → Option Json
get k end = none
get k (field j v d) = if j == k then some v else get k d

-- `d.get(k)`, which is None where the key is missing
abbrev pub get_or_null : String → Fields → Json
get_or_null k d = elim (get k d) [ none ↦ null | some v ↦ v ]

-- `d[k] = v`
abbrev pub put : String → Json → Fields → Fields
put k v end = field k v end
put k v (field j w d) = if j == k then field k v d else field j w (put k v d)

-- `d.pop(k, None)`
abbrev pub without : String → Fields → Fields
without k end = end
without k (field j v d) = if j == k then d else field j v (without k d)

abbrev pub keys : Fields → List String
keys end = []
keys (field k v d) = k ∷ keys d

-- `v if isinstance(v, str) else None`
abbrev pub text_of : Json → Option String
text_of (str s) = some s
text_of _ = none

-- a text or None
abbrev pub text_or_null : Option String → Json
text_or_null none = null
text_or_null (some s) = str s

-- A JSON array of texts.
abbrev pub strings : List String → Items
strings [] = nil
strings (s ∷ l) = cons (str s) (strings l)

-- `v if isinstance(v, str) and v else None`
abbrev pub nonempty_str : Json → Option String
nonempty_str (str s) = if s == "" then none else some s
nonempty_str _ = none

-- `v if isinstance(v, dict) else None`
abbrev pub as_object : Json → Option Fields
as_object (obj d) = some d
as_object _ = none

-- `bool(v)`; `is_zero` tells of a float's literal whether it is a zero
abbrev pub is_truthy : (String → Bool) → Json → Bool
is_truthy is_zero null = false
is_truthy is_zero (bool b) = b
is_truthy is_zero (int (pos zero)) = false
is_truthy is_zero (int _) = true
is_truthy is_zero (float s) = not (is_zero s)
is_truthy is_zero (str s) = not (s == "")
is_truthy is_zero (arr nil) = false
is_truthy is_zero (arr (cons v l)) = true
is_truthy is_zero (obj end) = false
is_truthy is_zero (obj (field k v d)) = true

-- `sorted(...)` on texts: insertion from the right is stable
abbrev pub str_leb : String → String → Bool
str_leb a b = elim (compare a b) [ Ordering.gt ↦ false | _ ↦ true ]

unfoldable pub insert_sorted : String → List String → List String
insert_sorted a [] = a ∷ []
insert_sorted a (b ∷ l) = if str_leb a b then a ∷ b ∷ l else b ∷ insert_sorted a l

unfoldable pub sorted : List String → List String
unfolding insert_sorted
sorted [] = []
sorted (a ∷ l) = insert_sorted a (sorted l)
