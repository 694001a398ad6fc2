-- ===== src/Tags/Carried.antt =====
-- Who carries a tag after the operations.
use astation.Prelude.{
  ◌≡◌, refl, sym, ap, ◌∙◌, String, Bool, true, false, Option, none, some, List, [], ◌∷◌, ◌++◌, not,
  ◌||◌, keep_if, any, arith, Bool-cases, inl, inr,
}
use astation.Prelude.Eq.{string_eq}
use astation.Tags.{
  Owner, Tag, Carrier, TagTables, artifact, project, same_owner, by_name, is_carrier, found_or_new,
  get_or_create, attach_tag, attach_named, attach, detach_tag, detach_named, detach,
  normalize_tag_name,
}

-- The owner carries the tag of this name.
abbrev pub carries_tag : Owner → String → List Carrier → Option Tag → Bool
carries_tag kind owner_id cs none = false
carries_tag kind owner_id cs (some tag) = any (is_carrier kind owner_id tag.id) cs

abbrev pub carries : Owner → String → String → TagTables → Bool
carries kind owner_id name db = carries_tag kind owner_id db.carriers (by_name name db.tags)

pub any-append :
    (p : Carrier → Bool) (xs ys : List Carrier) → any p (xs ++ ys) ≡ any p xs || any p ys
any-append p [] ys = refl
any-append p (x ∷ xs) ys = ground (arith, any-append p xs ys)

pub same_owner_refl : (k : Owner) → same_owner k k ≡ true
same_owner_refl artifact = refl
same_owner_refl project = refl

by_name-append :
    (id name : String) (tags : List Tag)
    → by_name name tags ≡ none
    → by_name name (tags ++ record { id = id; name = name } ∷ [])
      ≡ some (record { id = id; name = name })
by_name-append id name [] h = rw ((string_eq.beq_iff name name).1 refl) refl
by_name-append id name (t ∷ tags) h = ground (arith, by_name-append id name tags)

attach_tag-carries :
    (kind : Owner) (owner_id : String) (tag : Tag) (db : TagTables)
    → carries_tag kind owner_id (attach_tag kind owner_id (tag, db)).1.carriers (some tag) ≡ true
attach_tag-carries kind owner_id tag db =
    elim (Bool-cases (any (is_carrier kind owner_id tag.id) db.carriers)) [
      | inl old ↦ rw old old
      | inr new ↦ rw new (
          rw any-append (
            rw
              (
                new,
                same_owner_refl kind,
                (string_eq.beq_iff owner_id owner_id).1 refl,
                (string_eq.beq_iff tag.id tag.id).1 refl,
              )
              refl))
    ]

attach_found-carries :
    (id name : String) (kind : Owner) (owner_id : String) (db : TagTables) (found : Option Tag)
    → by_name name db.tags ≡ found
    → carries kind owner_id name (attach_tag kind owner_id (found_or_new id name db found)).1 ≡ true
attach_found-carries id name kind owner_id db (some tag) e =
    ap (carries_tag kind owner_id (attach_tag kind owner_id (tag, db)).1.carriers) (same_tags ∙ e)
    ∙ attach_tag-carries kind owner_id tag db
  where
    same_tags : by_name name (attach_tag kind owner_id (tag, db)).1.tags ≡ by_name name db.tags
    same_tags = elim (Bool-cases (any (is_carrier kind owner_id tag.id) db.carriers)) [
      | inl old ↦ rw old refl
      | inr new ↦ rw new refl
    ]
attach_found-carries id name kind owner_id db none e =
    ap (carries_tag kind owner_id (attach_tag kind owner_id (tag, db')).1.carriers)
      (same_tags ∙ by_name-append id name db.tags e)
    ∙ attach_tag-carries kind owner_id tag db'
  where
    tag : Tag
    tag = record { id = id; name = name }

    db' : TagTables
    db' = record db { tags = db.tags ++ tag ∷ [] }

    same_tags :
        by_name name (attach_tag kind owner_id (tag, db')).1.tags
        ≡ by_name name (db.tags ++ tag ∷ [])
    same_tags = elim (Bool-cases (any (is_carrier kind owner_id id) db.carriers)) [
      | inl old ↦ rw old refl
      | inr new ↦ rw new refl
    ]

-- After `attach` of a valid name the owner carries the tag of this name, whether the tag existed
-- before, and whether the owner had it.
pub attach-carries :
    (canonical : String → String) (id : String) (kind : Owner) (owner_id raw name : String)
    (db db' : TagTables) (b : Bool)
    → normalize_tag_name canonical raw ≡ some name
    → attach canonical id kind owner_id raw db ≡ some (b, db')
    → carries kind owner_id name db' ≡ true
unfolding attach get_or_create
attach-carries canonical id kind owner_id raw name db db' b e h =
    let r = attach_tag kind owner_id (found_or_new id name db (by_name name db.tags)) in
    let q : some r ≡ some (b, db') = ap (attach_named id kind owner_id db) (sym e) ∙ h in
    let same : r.1 ≡ db' = cc in
    ap (carries kind owner_id name) (sym same)
    ∙ attach_found-carries id name kind owner_id db (by_name name db.tags) refl

any-removed : (p : Carrier → Bool) (cs : List Carrier) → any p (keep_if (λ c. not (p c)) cs) ≡ false
any-removed p [] = refl
any-removed p (c ∷ cs) = ground (arith, any-removed p cs)

detach_tag-carries :
    (kind : Owner) (owner_id : String) (db : TagTables) (found : Option Tag)
    → ((detach_tag kind owner_id db found).0 ≡ carries_tag kind owner_id db.carriers found)
      × (carries_tag kind owner_id (detach_tag kind owner_id db found).1.carriers found ≡ false)
      × ((detach_tag kind owner_id db found).1.tags ≡ db.tags)
detach_tag-carries kind owner_id db none = (refl, refl, refl)
detach_tag-carries kind owner_id db (some tag) =
    (refl, any-removed (is_carrier kind owner_id tag.id) db.carriers, refl)

-- `detach` of a valid name answers whether the owner carried the tag of this name, and afterwards it
-- does not; the vocabulary is as it was.
pub detach-carries :
    (canonical : String → String) (kind : Owner) (owner_id raw name : String) (db db' : TagTables)
    (b : Bool)
    → normalize_tag_name canonical raw ≡ some name
    → detach canonical kind owner_id raw db ≡ some (b, db')
    → (b ≡ carries kind owner_id name db)
      × (carries kind owner_id name db' ≡ false)
      × (db'.tags ≡ db.tags)
unfolding detach
detach-carries canonical kind owner_id raw name db db' b e h =
    let found = by_name name db.tags in
    let r = detach_tag kind owner_id db found in
    let q : some r ≡ some (b, db') = ap (detach_named kind owner_id db) (sym e) ∙ h in
    let same_b : r.0 ≡ b = cc in
    let same : r.1 ≡ db' = cc in
    let d = detach_tag-carries kind owner_id db found in
    let tags : db'.tags ≡ db.tags = ap (λ (t : TagTables). t.tags) (sym same) ∙ d.2 in
    let gone : carries_tag kind owner_id db'.carriers found ≡ false =
      ap (λ (t : TagTables). carries_tag kind owner_id t.carriers found) (sym same) ∙ d.1 in
    (
      sym same_b ∙ d.0,
      ap (λ l. carries_tag kind owner_id db'.carriers (by_name name l)) tags ∙ gone,
      tags,
    )
