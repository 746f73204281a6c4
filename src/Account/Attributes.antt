-- ===== src/Account/Attributes.antt =====
-- The attribute list as a map: what a set, a removal and a lookup have to do with one another.
use bnetd.Prelude.{
  ◌≡◌, refl, sym, ◌∙◌, Bool, true, false, inl, inr, List, [], ◌∷◌, Option, none, some,
  if◌then◌else◌, Bool-cases, Option-cases, arith,
}
use bnetd.Prelude.Text.{Text}
use bnetd.Util.Case.{same_name, same_name_symm, same_name_trans}
use bnetd.Account.{Attribute, find_attr, is_found, account_insert_attr, put_val, take_out, set_attr}

-- No key is there twice, up to case.
abbrev pub IsDistinct : List Attribute → Type 0
IsDistinct [] = Unit
IsDistinct (a ∷ attrs) = (find_attr a.key attrs ≡ none) × IsDistinct attrs

same_name-left : (a b c : Text) → same_name a b ≡ true → same_name a c ≡ same_name b c
same_name-left a b c h =
    ground (arith, h, same_name_symm a b, same_name_trans a b c, same_name_trans b a c)

pub same_name-right : (a b c : Text) → same_name a b ≡ true → same_name c a ≡ same_name c b
same_name-right a b c h = same_name_symm c a ∙ same_name-left a b c h ∙ same_name_symm b c

-- Two spellings of a key find the same.
pub find_attr-same_name :
    (a b : Text) (attrs : List Attribute)
    → same_name a b ≡ true
    → find_attr a attrs ≡ find_attr b attrs
unfolding find_attr
find_attr-same_name a b [] h = refl
find_attr-same_name a b (curr ∷ attrs) h =
    rw (same_name-right a b curr.key h, find_attr-same_name a b attrs h) refl

find_attr-put_val :
    (key val k : Text) (attrs : List Attribute)
    → is_found (find_attr key attrs) ≡ true
    → find_attr k (put_val key val attrs)
      ≡ (if same_name key k then some val else find_attr k attrs)
unfolding find_attr put_val
find_attr-put_val key val k [] h = ground arith
find_attr-put_val key val k (curr ∷ attrs) h = elim (Bool-cases (same_name curr.key key)) [
  | inl e ↦ rw (e, find_attr, same_name-left curr.key key k e) (ground arith)
  | inr e ↦ ground (
    arith,
    e,
    find_attr-put_val key val k attrs,
    same_name_trans curr.key k key,
    same_name_symm key k,
  )
]

find_attr-take_out :
    (key k : Text) (attrs : List Attribute)
    → IsDistinct attrs
    → find_attr k (take_out key attrs) ≡ (if same_name key k then none else find_attr k attrs)
unfolding find_attr take_out
find_attr-take_out key k [] d = ground arith
find_attr-take_out key k (curr ∷ attrs) d = elim (Bool-cases (same_name curr.key key)) [
  | inl e ↦
      let absent = sym (find_attr-same_name curr.key key attrs e) ∙ d.0 in
      ground (arith, e, absent, same_name-left curr.key key k e, find_attr-same_name key k attrs)
  | inr e ↦ ground (
    arith,
    e,
    find_attr-take_out key k attrs d.1,
    same_name_trans curr.key k key,
    same_name_symm key k,
  )
]

-- What a set of an attribute does to a lookup.
abbrev pub value_after : Text → Option Text → Text → Option Text → Option Text
value_after key val k old = if same_name key k then val else old

found_at_head :
    (key val k : Text) (attrs : List Attribute)
    → find_attr k (record { key = key; val = val } ∷ attrs)
      ≡ value_after key (some val) k (find_attr k attrs)
unfolding find_attr
found_at_head key val k attrs = refl

pub find_attr-set_attr :
    (key : Text) (val : Option Text) (k : Text) (attrs : List Attribute)
    → IsDistinct attrs
    → find_attr k (set_attr true key val attrs).1 ≡ value_after key val k (find_attr k attrs)
unfolding set_attr account_insert_attr
find_attr-set_attr key none k attrs d = find_attr-take_out key k attrs d
find_attr-set_attr key (some val) k attrs d = elim (Bool-cases (is_found (find_attr key attrs))) [
  | inl e ↦ rw (e, find_attr-put_val key val k attrs e)
  | inr e ↦ rw e (found_at_head key val k attrs)
]

find_attr-put_val_other :
    (key val k : Text) (attrs : List Attribute)
    → same_name key k ≡ false
    → find_attr k (put_val key val attrs) ≡ find_attr k attrs
unfolding find_attr put_val
find_attr-put_val_other key val k [] h = refl
find_attr-put_val_other key val k (curr ∷ attrs) h = elim (Bool-cases (same_name curr.key key)) [
  | inl e ↦ rw (e, find_attr, same_name-left curr.key key k e, h) refl
  | inr e ↦ rw (e, find_attr, find_attr-put_val_other key val k attrs h) refl
]

put_val-IsDistinct :
    (key val : Text) (attrs : List Attribute)
    → IsDistinct attrs
    → IsDistinct (put_val key val attrs)
unfolding put_val
put_val-IsDistinct key val [] d = tt
put_val-IsDistinct key val (curr ∷ attrs) d = elim (Bool-cases (same_name curr.key key)) [
  | inl e ↦ rw e d
  | inr e ↦
      let other = same_name_symm key curr.key ∙ e in
      rw e (
        find_attr-put_val_other key val curr.key attrs other ∙ d.0,
        put_val-IsDistinct key val attrs d.1,
      )
]

take_out-IsDistinct :
    (key : Text) (attrs : List Attribute) → IsDistinct attrs → IsDistinct (take_out key attrs)
unfolding take_out
take_out-IsDistinct key [] d = tt
take_out-IsDistinct key (curr ∷ attrs) d =
    let rest = take_out-IsDistinct key attrs d.1 in
    ground (arith, rest, d.0, d.1, find_attr-take_out key curr.key attrs d.1)

-- Whether memory is short or not, no key comes in twice.
pub set_attr-IsDistinct :
    (mem : Bool) (key : Text) (val : Option Text) (attrs : List Attribute)
    → IsDistinct attrs
    → IsDistinct (set_attr mem key val attrs).1
unfolding set_attr account_insert_attr
set_attr-IsDistinct mem key none attrs d = take_out-IsDistinct key attrs d
set_attr-IsDistinct mem key (some val) attrs d = elim (Option-cases (find_attr key attrs)) [
  | inl e ↦ ground (arith, e, d)
  | inr (old, e) ↦ ground (arith, e, d, put_val-IsDistinct key val attrs d)
]
