-- ===== src/SandboxPaths/Confined.antt =====
-- An allowed path lies under its root and has no component "..".
use Prim.Native.Char.{Char}
use Prim.Native.String.{◌++◌ as text_append}
use text.Mathlib.TextLemmas.{nil-append, cons-append, head-eq_of_cons-eq}
use astation.Prelude.{
  ℕ, ◌≡◌, refl, ap, sym, ◌∙◌, subst, String, Bool, true, false, List, [], ◌∷◌, ◌++◌, if◌then◌else◌,
  not, ◌&&◌, ◌||◌, any, tail, All, arith, Bool-cases, inl, inr, ◌⊎◌,
}
use astation.Prelude.Eq.{◌==◌, string_eq}
use astation.Prelude.Text.{starts_with}
use astation.SandboxPaths.{
  is_slash, with_char, split, join, is_last_up, is_empty, keep_component, keep_components,
  reverse_onto, initial_slashes, components, normpath, Checked, allowed, refused, is_under_root,
  normalized_or_422, has_nul, validate_sandbox_path, validate_view_path,
}

-- The component does not lead up.
abbrev pub IsNotUp : String → Type 0
IsNotUp w = (w == "..") ≡ false

has_slash : String → Bool
has_slash String.[] = false
has_slash (String.◌∷◌ c s) = is_slash c || has_slash s

abbrev IsSlashFree : String → Type 0
IsSlashFree w = has_slash w ≡ false

with_char-IsSlashFree :
    (c : Char) (ws : List String)
    → is_slash c ≡ false
    → All IsSlashFree ws
    → All IsSlashFree (with_char c ws)
unfolding has_slash
with_char-IsSlashFree c [] h a = (rw h refl, tt)
with_char-IsSlashFree c (w ∷ ws) h a = (rw h a.0, a.1)

split-IsSlashFree : (s : String) → All IsSlashFree (split is_slash s)
unfolding split has_slash
split-IsSlashFree String.[] = (refl, tt)
split-IsSlashFree (String.◌∷◌ c s) = elim (Bool-cases (is_slash c)) [
  | inl slash ↦ rw slash (refl, split-IsSlashFree s)
  | inr other ↦ rw other (with_char-IsSlashFree c (split is_slash s) other (split-IsSlashFree s))
]

-- What every component satisfies, those that are kept satisfy.
tail-All : (P : String → Type 0) (kept : List String) → All P kept → All P (tail kept)
tail-All P [] a = tt
tail-All P (w ∷ kept) a = a.1

keep_component-IsSlashFree :
    (b : Bool) (w : String) (kept : List String)
    → IsSlashFree w
    → All IsSlashFree kept
    → All IsSlashFree (keep_component b w kept)
keep_component-IsSlashFree b w kept h a = elim (Bool-cases (w == "" || w == ".")) [
  | inl skipped ↦ rw skipped a
  | inr named ↦
      rw named
        (elim (Bool-cases (not (w == "..") || ((not b && is_empty kept) || is_last_up kept))) [
          | inl added ↦ rw added (h, a)
          | inr up ↦ rw up (tail-All IsSlashFree kept a)
        ])
]

keep_components-IsSlashFree :
    (b : Bool) (ws kept : List String)
    → All IsSlashFree ws
    → All IsSlashFree kept
    → All IsSlashFree (keep_components b ws kept)
unfolding keep_components
keep_components-IsSlashFree b [] kept h a = a
keep_components-IsSlashFree b (w ∷ ws) kept h a =
    keep_components-IsSlashFree b ws (keep_component b w kept) h.1
      (keep_component-IsSlashFree b w kept h.0 a)

not_last_up : (kept : List String) → All IsNotUp kept → is_last_up kept ≡ false
not_last_up [] a = refl
not_last_up (w ∷ kept) a = a.0

-- In an absolute path ".." is never kept.
keep_component-IsNotUp :
    (w : String) (kept : List String) → All IsNotUp kept → All IsNotUp (keep_component true w kept)
keep_component-IsNotUp w kept a = elim (Bool-cases (w == "" || w == ".")) [
  | inl skipped ↦ rw skipped a
  | inr named ↦ rw named (
      rw (not_last_up kept a) (elim (Bool-cases (w == "..")) [
        | inl up ↦ rw up (tail-All IsNotUp kept a)
        | inr down ↦ rw down (down, a)
      ]))
]

keep_components-IsNotUp :
    (ws kept : List String) → All IsNotUp kept → All IsNotUp (keep_components true ws kept)
unfolding keep_components
keep_components-IsNotUp [] kept a = a
keep_components-IsNotUp (w ∷ ws) kept a =
    keep_components-IsNotUp ws (keep_component true w kept) (keep_component-IsNotUp w kept a)

reverse_onto-All :
    (P : String → Type 0) (kept out : List String)
    → All P kept
    → All P out
    → All P (reverse_onto kept out)
unfolding reverse_onto
reverse_onto-All P [] out a b = b
reverse_onto-All P (w ∷ kept) out a b = reverse_onto-All P kept (w ∷ out) a.1 (a.0, b)

split-word : (w : String) → IsSlashFree w → split is_slash w ≡ w ∷ []
unfolding split has_slash
split-word String.[] h = refl
split-word (String.◌∷◌ c w) h = elim (Bool-cases (is_slash c)) [
  | inl slash ↦ ground arith
  | inr other ↦ rw other (rw (split-word w (ground arith)) refl)
]

split-word_append :
    (w t : String)
    → IsSlashFree w
    → split is_slash (text_append w (String.◌∷◌ "/" t)) ≡ w ∷ split is_slash t
unfolding split has_slash
split-word_append String.[] t h = rw (nil-append (String.◌∷◌ "/" t)) refl
split-word_append (String.◌∷◌ c w) t h = elim (Bool-cases (is_slash c)) [
  | inl slash ↦ ground arith
  | inr other ↦
      rw (cons-append c w (String.◌∷◌ "/" t))
        (rw other (rw (split-word_append w t (ground arith)) refl))
]

split-join :
    (w : String) (ws : List String)
    → All IsSlashFree (w ∷ ws)
    → split is_slash (join (w ∷ ws)) ≡ w ∷ ws
unfolding join
split-join w [] a = split-word w a.0
split-join w (v ∷ ws) a =
    split-word_append w (join (v ∷ ws)) a.0 ∙ ap (λ l. w ∷ l) (split-join v ws a.1)

join-IsNotUp :
    (ws : List String)
    → All IsSlashFree ws
    → All IsNotUp ws
    → All IsNotUp (split is_slash (join ws))
unfolding join split
join-IsNotUp [] a b = (refl, tt)
join-IsNotUp (w ∷ ws) a b = subst (All IsNotUp) (sym (split-join w ws a)) b

-- The components of a normalized absolute path.
components-IsNotUp :
    (path : String)
    → starts_with "/" path ≡ true
    → All IsNotUp (split is_slash (join (components path)))
components-IsNotUp path h =
    let absolute = starts_with "/" path in
    join-IsNotUp (components path)
      (reverse_onto-All IsSlashFree (keep_components absolute (split is_slash path) []) []
        (keep_components-IsSlashFree absolute (split is_slash path) [] (split-IsSlashFree path) tt)
        tt)
      (reverse_onto-All IsNotUp (keep_components absolute (split is_slash path) []) []
        (subst (λ b. All IsNotUp (keep_components b (split is_slash path) [])) (sym h)
          (keep_components-IsNotUp (split is_slash path) [] tt))
        tt)

-- Slashes in front add empty components only.
slashes-IsNotUp :
    (path : String) (s : String)
    → All IsNotUp (split is_slash s)
    → All IsNotUp (split is_slash (text_append (initial_slashes path) s))
unfolding split
slashes-IsNotUp path s a = elim (Bool-cases (starts_with "/" path)) [
  | inr relative ↦ rw relative (rw (nil-append s) a)
  | inl absolute ↦
      rw absolute (elim (Bool-cases (starts_with "//" path && not (starts_with "///" path))) [
        | inl two ↦ rw two (
            rw (cons-append "/" "/" s)
              (rw (cons-append "/" "" s) (rw (nil-append s) (refl, (refl, a)))))
        | inr one ↦ rw one (rw (cons-append "/" "" s) (rw (nil-append s) (refl, a)))
      ])
]

normpath-IsNotUp :
    (path : String) → starts_with "/" path ≡ true → All IsNotUp (split is_slash (normpath path))
unfolding normpath split
normpath-IsNotUp path h =
    elim (Bool-cases (text_append (initial_slashes path) (join (components path)) == "")) [
      | inl nothing ↦ rw nothing (refl, tt)
      | inr something ↦
          rw something (slashes-IsNotUp path (join (components path)) (components-IsNotUp path h))
    ]

-- The components of a path go on from those of the root.
abbrev pub GoesOn : String → String → Type 0
GoesOn root path = (rest : List String) × (split is_slash path ≡ split is_slash root ++ rest)

with_char-append :
    (c : Char) (ws rest : List String)
    → is_empty ws ≡ false
    → with_char c (ws ++ rest) ≡ with_char c ws ++ rest
with_char-append c [] rest h = cc
with_char-append c (w ∷ ws) rest h = refl

split-nonempty : (s : String) → is_empty (split is_slash s) ≡ false
unfolding split
split-nonempty String.[] = refl
split-nonempty (String.◌∷◌ c s) = elim (Bool-cases (is_slash c)) [
  | inl slash ↦ rw slash refl
  | inr other ↦ rw other (go (split is_slash s))
]
  where
    go : (ws : List String) → is_empty (with_char c ws) ≡ false
    go [] = refl
    go (w ∷ ws) = refl

cons-GoesOn :
    (c : Char) (root path : String)
    → GoesOn root path
    → GoesOn (String.◌∷◌ c root) (String.◌∷◌ c path)
unfolding split
cons-GoesOn c root path (rest, e) = elim (Bool-cases (is_slash c)) [
  | inl slash ↦ (rest, rw slash (ap (λ l. "" ∷ l) e))
  | inr other ↦ (
    rest,
    rw other
        (ap (with_char c) e ∙ with_char-append c (split is_slash root) rest (split-nonempty root)),
  )
]

both : (a b : Bool) → a && b ≡ true → (a ≡ true) × (b ≡ true)
both a b h = ground arith

starts_with-GoesOn_root : (path : String) → starts_with "/" path ≡ true → GoesOn "" path
unfolding starts_with split
starts_with-GoesOn_root String.[] h = cc
starts_with-GoesOn_root (String.◌∷◌ d s) h =
    let same : String.◌∷◌ d String.[] ≡ "/" = sym (
      (string_eq.beq_iff "/" (String.◌∷◌ d String.[])).0
        (both ("/" == String.◌∷◌ d String.[]) true h).0) in
    (split is_slash s, rw ((string_eq.beq_iff (String.◌∷◌ d String.[]) "/").1 same) refl)

starts_with-GoesOn :
    (root path : String) → starts_with (text_append root "/") path ≡ true → GoesOn root path
unfolding starts_with
starts_with-GoesOn String.[] path h =
    starts_with-GoesOn_root path (subst (λ r. starts_with r path ≡ true) (nil-append "/") h)
starts_with-GoesOn (String.◌∷◌ c root) String.[] h =
    let h' : starts_with (String.◌∷◌ c (text_append root "/")) String.[] ≡ true =
      subst (λ r. starts_with r String.[] ≡ true) (cons-append c root "/") h in
    cc
starts_with-GoesOn (String.◌∷◌ c root) (String.◌∷◌ d path) h =
    let h' : starts_with (String.◌∷◌ c (text_append root "/")) (String.◌∷◌ d path) ≡ true =
      subst (λ r. starts_with r (String.◌∷◌ d path) ≡ true) (cons-append c root "/") h in
    let parts =
      both (String.◌∷◌ c String.[] == String.◌∷◌ d String.[])
        (starts_with (text_append root "/") path) h' in
    let same =
      head-eq_of_cons-eq
        ((string_eq.beq_iff (String.◌∷◌ c String.[]) (String.◌∷◌ d String.[])).0 parts.0) in
    subst (λ e. GoesOn (String.◌∷◌ c root) (String.◌∷◌ e path)) same
      (cons-GoesOn c root path (starts_with-GoesOn root path parts.1))

-- The path is the root or goes on from it; every absolute path lies under "/".
abbrev pub IsUnder : String → String → Type 0
IsUnder root path = (root ≡ "/") ⊎ GoesOn root path

append_nil : (ws : List String) → ws ++ [] ≡ ws
append_nil [] = refl
append_nil (w ∷ ws) = ap (λ l. w ∷ l) (append_nil ws)

third : (a b c d : Bool) → a ≡ false → b ≡ false → (if a then d else b || c) ≡ true → c ≡ true
third a b c d p q h = ground arith

is_under_root-IsUnder :
    (path root : String) → is_under_root path root ≡ true → IsUnder (normpath root) path
unfolding is_under_root
is_under_root-IsUnder path root h = elim (Bool-cases (normpath root == "/")) [
  | inl top ↦ inl ((string_eq.beq_iff (normpath root) "/").0 top)
  | inr below ↦ elim (Bool-cases (path == normpath root)) [
    | inl same ↦ inr (
      [],
      ap (split is_slash) ((string_eq.beq_iff path (normpath root)).0 same)
          ∙ sym (append_nil (split is_slash (normpath root))),
    )
    | inr other ↦ inr (
        starts_with-GoesOn (normpath root) path (
          third (normpath root == "/") (path == normpath root)
            (starts_with (text_append (normpath root) "/") path) (starts_with "/" path) below other
            h))
  ]
]

-- What holds of a path that is allowed.
abbrev pub OfAllowed : (String → Type 0) → Checked → Type 0
OfAllowed P (allowed path) = P path
OfAllowed P (refused status) = Unit

-- A path that passes the first gate is checked in its normal form, which has no "..".
normalized-OfAllowed :
    (P : String → Type 0) (raw_path : String) (then_check : String → Checked)
    → (starts_with "/" raw_path ≡ true → OfAllowed P (then_check (normpath raw_path)))
    → OfAllowed P (normalized_or_422 raw_path then_check)
unfolding normalized_or_422
normalized-OfAllowed P raw_path then_check h =
    go (raw_path == "" || has_nul raw_path) (starts_with "/" raw_path) h
  where
    go :
        (bad absolute : Bool)
        → (absolute ≡ true → OfAllowed P (then_check (normpath raw_path)))
        → OfAllowed P (
            if bad
            then refused 422
            else if not absolute
            then refused 422
            else then_check (normpath raw_path))
    go true absolute h = tt
    go false false h = tt
    go false true h = h refl

if-OfAllowed :
    (P : String → Type 0) (b : Bool) (path : String) (status : ℕ)
    → (b ≡ true → P path)
    → OfAllowed P (if b then allowed path else refused status)
if-OfAllowed P true path status h = h refl
if-OfAllowed P false path status h = tt

-- Whatever path and sandbox root are given: an allowed path has no component "..", and it is the root in
-- its normal form or goes on from it component by component; only where the normal form of the root
-- is "/" is every absolute path without ".." allowed.
pub validate_sandbox_path-confines :
    (raw_path sandbox_root : String)
    → OfAllowed
        (λ path.
          All IsNotUp (split is_slash path) × IsUnder (normpath (normpath sandbox_root)) path)
        (validate_sandbox_path raw_path sandbox_root)
unfolding validate_sandbox_path
validate_sandbox_path-confines raw_path sandbox_root =
    normalized-OfAllowed confined raw_path
      (λ path. if is_under_root path (normpath sandbox_root) then allowed path else refused 403)
      (λ absolute.
        if-OfAllowed confined (is_under_root (normpath raw_path) (normpath sandbox_root))
          (normpath raw_path) 403
          (λ under. (
            normpath-IsNotUp raw_path absolute,
            is_under_root-IsUnder (normpath raw_path) (normpath sandbox_root) under,
          )))
  where
    confined : String → Type 0
    confined path =
        All IsNotUp (split is_slash path) × IsUnder (normpath (normpath sandbox_root)) path

-- The path lies under one of the roots in its normal form.
abbrev pub IsUnderSome : List String → String → Type 0
IsUnderSome [] path = ⊥
IsUnderSome (root ∷ roots) path = IsUnder (normpath root) path ⊎ IsUnderSome roots path

any-IsUnderSome :
    (path : String) (roots : List String)
    → any (λ root. is_under_root path root) roots ≡ true
    → IsUnderSome roots path
any-IsUnderSome path [] h = cc
any-IsUnderSome path (root ∷ roots) h = elim (Bool-cases (is_under_root path root)) [
  | inl here ↦ inl (is_under_root-IsUnder path root here)
  | inr later ↦ inr (
      any-IsUnderSome path roots
        (second (is_under_root path root) (any (λ r. is_under_root path r) roots) later h))
]
  where
    second : (a b : Bool) → a ≡ false → a || b ≡ true → b ≡ true
    second a b p h = ground arith

-- Whatever path and roots are given: a path that the viewer may read has no component "..", and it is
-- the sandbox root or one of the view roots in its normal form, or goes on from it component by
-- component; only where the normal form of a root is "/" is every absolute path without ".." allowed.
pub validate_view_path-confines :
    (raw_path sandbox_root : String) (view_roots : List String)
    → OfAllowed
        (λ path. All IsNotUp (split is_slash path) × IsUnderSome (sandbox_root ∷ view_roots) path)
        (validate_view_path raw_path sandbox_root view_roots)
unfolding validate_view_path
validate_view_path-confines raw_path sandbox_root view_roots =
    normalized-OfAllowed readable raw_path
      (λ path.
        if any (λ root. is_under_root path root) (sandbox_root ∷ view_roots)
        then allowed path
        else refused 403)
      (λ absolute.
        if-OfAllowed readable
          (any (λ root. is_under_root (normpath raw_path) root) (sandbox_root ∷ view_roots))
          (normpath raw_path) 403
          (λ under. (
            normpath-IsNotUp raw_path absolute,
            any-IsUnderSome (normpath raw_path) (sandbox_root ∷ view_roots) under,
          )))
  where
    readable : String → Type 0
    readable path = All IsNotUp (split is_slash path) × IsUnderSome (sandbox_root ∷ view_roots) path
