-- ===== src/SandboxPaths.antt =====
-- gateway/domain/sandbox_paths.py: the confinement of sandbox paths, with `posixpath.normpath`.
pub mod Confined
mod Tests
use Prim.Native.String.{◌++◌ as text_append}
use Prim.Native.Char.{Char, code}
use astation.Prelude.{
  ℕ, String, Bool, true, false, Option, none, some, List, [], ◌∷◌, ◌++◌, if◌then◌else◌, not, ◌&&◌,
  ◌||◌, any, tail, eqb,
}
use astation.Prelude.Eq.{◌==◌, string_eq}
use astation.Prelude.Text.{starts_with, strip}

-- The character is the separator, or a comma, or NUL.
abbrev pub is_slash : Char → Bool
is_slash c = String.◌∷◌ c String.[] == "/"

abbrev pub is_comma : Char → Bool
is_comma c = String.◌∷◌ c String.[] == ","

abbrev pub with_char : Char → List String → List String
with_char c [] = String.◌∷◌ c String.[] ∷ []
with_char c (w ∷ ws) = String.◌∷◌ c w ∷ ws

-- `s.split(separator)`
unfoldable pub split : (Char → Bool) → String → List String
split is_separator String.[] = "" ∷ []
split is_separator (String.◌∷◌ c s) =
    let rest = split is_separator s in if is_separator c then "" ∷ rest else with_char c rest

-- `"/".join(words)`
unfoldable pub join : List String → String
join [] = ""
join (w ∷ []) = w
join (w ∷ v ∷ ws) = text_append w (String.◌∷◌ "/" (join (v ∷ ws)))

-- The last component that is kept is "..".
abbrev pub is_last_up : List String → Bool
is_last_up [] = false
is_last_up (w ∷ kept) = w == ".."

abbrev pub is_empty : List String → Bool
is_empty [] = true
is_empty (w ∷ kept) = false

-- a step of the loop of `normpath`; what is kept stands with the last component first
abbrev pub keep_component : Bool → String → List String → List String
keep_component is_absolute w kept =
    if w == "" || w == "."
    then kept
    else if not (w == "..") || ((not is_absolute && is_empty kept) || is_last_up kept)
    then w ∷ kept
    else tail kept

unfoldable pub keep_components : Bool → List String → List String → List String
keep_components is_absolute [] kept = kept
keep_components is_absolute (w ∷ ws) kept =
    keep_components is_absolute ws (keep_component is_absolute w kept)

unfoldable pub reverse_onto : List String → List String → List String
reverse_onto [] out = out
reverse_onto (w ∷ kept) out = reverse_onto kept (w ∷ out)

-- the slashes that stay: exactly two do, and three or more are one
abbrev pub initial_slashes : String → String
initial_slashes path =
    if not (starts_with "/" path)
    then ""
    else if starts_with "//" path && not (starts_with "///" path)
    then "//"
    else "/"

abbrev pub components : String → List String
components path = reverse_onto (keep_components (starts_with "/" path) (split is_slash path) []) []

-- `posixpath.normpath`
unfoldable pub normpath : String → String
unfolding split join keep_components reverse_onto
normpath path =
    let normalized = text_append (initial_slashes path) (join (components path)) in
    if normalized == "" then "." else normalized

-- `"\x00" in path`
unfoldable pub has_nul : String → Bool
has_nul String.[] = false
has_nul (String.◌∷◌ c s) = let rest = has_nul s in eqb (code c) 0 || rest

-- A path, or the status code of the `HTTPException`.
pub data Checked : Type 0 where
  allowed : String → Checked
  refused : ℕ → Checked

-- `is_under_root`
unfoldable pub is_under_root : String → String → Bool
unfolding normpath
is_under_root normalized_path root =
    let r = normpath root in
    if r == "/"
    then starts_with "/" normalized_path
    else normalized_path == r || starts_with (text_append r "/") normalized_path

-- `_normalized_or_422`, and what follows it
unfoldable pub normalized_or_422 : String → (String → Checked) → Checked
unfolding has_nul normpath
normalized_or_422 raw_path then_check =
    if raw_path == "" || has_nul raw_path
    then refused 422
    else if not (starts_with "/" raw_path)
    then refused 422
    else then_check (normpath raw_path)

-- the loop of `parse_roots`
unfoldable pub add_roots : List String → List String → List String
unfolding has_nul normpath
add_roots [] roots = roots
add_roots (chunk ∷ chunks) roots =
    let candidate = strip chunk in
    let root = normpath candidate in
    add_roots chunks (
      if candidate == "" || (not (starts_with "/" candidate) || has_nul candidate)
      then roots
      else if any (λ r. r == root) roots
      then roots
      else roots ++ root ∷ [])

-- `parse_roots`
unfoldable pub parse_roots : String → List String
unfolding split add_roots
parse_roots raw = add_roots (split is_comma raw) []

-- `validate_view_path`
unfoldable pub validate_view_path :
    (raw_path sandbox_root : String) → (view_roots : List String) → Checked
unfolding normalized_or_422 is_under_root
validate_view_path raw_path sandbox_root view_roots = normalized_or_422 raw_path (λ normalized.
    if is_under_root normalized sandbox_root
      || any (λ root. is_under_root normalized root) view_roots
    then allowed normalized
    else refused 403)

-- `validate_sandbox_path`
unfoldable pub validate_sandbox_path : (raw_path sandbox_root : String) → Checked
unfolding normalized_or_422 is_under_root
validate_sandbox_path raw_path sandbox_root = normalized_or_422 raw_path (λ normalized.
    if is_under_root normalized (normpath sandbox_root) then allowed normalized else refused 403)
