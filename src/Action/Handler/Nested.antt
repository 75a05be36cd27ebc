-- ===== src/Action/Handler/Nested.antt =====
-- Where the attributes of a log record are in the nested map.
use helm_controller.Base.{
  ◌≡◌, refl, ap, ◌∙◌, String, Bool, true, false, not, List, [], ◌∷◌, ◌++◌, Option, none, some, map,
  arith, str_eq, eq_iff, Bool-cases, inl, inr, sym, subst, if◌then◌else◌,
}
use mathlib.Core.List.{map-append}
use helm_controller.Action.Handler.{
  Attribute, GroupedAttribute, LogRecord, LogBuffer, Node, leaf, branch, Fields, end, field,
  set_field, get_field, as_branch, set_nested, nest, with_attrs, attributes_of,
}

abbrev pub leaf_text : Option Node → Option String
leaf_text none = none
leaf_text (some (leaf v)) = some v
leaf_text (some (branch fs)) = none

-- The value under a key in nested groups.
abbrev pub value_at : List String → String → Fields → Option String
value_at [] k fs = leaf_text (get_field k fs)
value_at (g ∷ gs) k fs = value_at gs k (as_branch (get_field g fs))

-- The places differ before one of them ends.
abbrev pub apart : List String → String → List String → String → Bool
apart [] k [] j = not (str_eq k j)
apart [] k (h ∷ hs) j = not (str_eq k h)
apart (g ∷ gs) k [] j = not (str_eq g j)
apart (g ∷ gs) k (h ∷ hs) j = if str_eq g h then apart gs k hs j else true

get_field-set_field :
    (j k : String) (n : Node) (fs : Fields)
    → get_field j (set_field k n fs) ≡ (if str_eq k j then some n else get_field j fs)
unfolding get_field set_field
get_field-set_field j k n end = refl
get_field-set_field j k n (field i m fs) =
    ground (arith, eq_iff k j, eq_iff i j, eq_iff i k, get_field-set_field j k n fs)

get_field-set_field_self :
    (k : String) (n : Node) (fs : Fields) → get_field k (set_field k n fs) ≡ some n
get_field-set_field_self k n fs = rw (get_field-set_field k k n fs, (eq_iff k k).1 refl) refl

get_field-set_field_other :
    (j k : String) (n : Node) (fs : Fields)
    → str_eq k j ≡ false
    → get_field j (set_field k n fs) ≡ get_field j fs
get_field-set_field_other j k n fs h = rw (get_field-set_field j k n fs, h) refl

value_at-set_nested :
    (gs : List String) (a : Attribute) (fs : Fields)
    → value_at gs a.key (set_nested gs a fs) ≡ some a.value
unfolding set_nested
value_at-set_nested [] a fs = ap leaf_text (get_field-set_field_self a.key (leaf a.value) fs)
value_at-set_nested (g ∷ gs) a fs =
    ap (λ o. value_at gs a.key (as_branch o))
      (get_field-set_field_self g (branch (set_nested gs a (as_branch (get_field g fs)))) fs)
    ∙ value_at-set_nested gs a (as_branch (get_field g fs))

false_of_not : (b : Bool) → not b ≡ true → b ≡ false
false_of_not b h = ground arith

value_at-apart :
    (gs : List String) (a : Attribute) (hs : List String) (j : String) (fs : Fields)
    → apart gs a.key hs j ≡ true
    → value_at hs j (set_nested gs a fs) ≡ value_at hs j fs
unfolding set_nested
value_at-apart [] a [] j fs d =
    ap leaf_text
      (get_field-set_field_other j a.key (leaf a.value) fs (false_of_not (str_eq a.key j) d))
value_at-apart [] a (h ∷ hs) j fs d =
    ap (λ o. value_at hs j (as_branch o))
      (get_field-set_field_other h a.key (leaf a.value) fs (false_of_not (str_eq a.key h) d))
value_at-apart (g ∷ gs) a [] j fs d = ap leaf_text (
    get_field-set_field_other j g (branch (set_nested gs a (as_branch (get_field g fs)))) fs
      (false_of_not (str_eq g j) d))
value_at-apart (g ∷ gs) a (h ∷ hs) j fs d =
    let inner = set_nested gs a (as_branch (get_field g fs)) in
    elim (Bool-cases (str_eq g h)) [
      | inr other ↦
          ap (λ o. value_at hs j (as_branch o))
            (get_field-set_field_other h g (branch inner) fs other)
      | inl e ↦
          let same : g ≡ h = (eq_iff g h).0 e in
          let below = value_at-apart gs a hs j (as_branch (get_field g fs)) (ground (arith, e)) in
          subst
            (λ x.
              value_at hs j (as_branch (get_field x (set_field g (branch inner) fs)))
              ≡ value_at hs j (as_branch (get_field x fs)))
            same
            (ap (λ o. value_at hs j (as_branch o)) (get_field-set_field_self g (branch inner) fs)
              ∙ below)
    ]

nest-append :
    (xs ys : List GroupedAttribute) (fs : Fields) → nest (xs ++ ys) fs ≡ nest ys (nest xs fs)
unfolding nest
nest-append [] ys fs = refl
nest-append (x ∷ xs) ys fs = nest-append xs ys (set_nested x.group x.attribute fs)

-- The attribute with the group of the handler.
abbrev in_group : LogBuffer → Attribute → GroupedAttribute
in_group l a = record { group = l.group; attribute = a }

attributes_of_last :
    (r : LogRecord) (attrs : List Attribute) (a : Attribute) (l : LogBuffer)
    → attributes_of (record r { attributes = attrs ++ a ∷ [] }) l
      ≡ set_nested l.group a (attributes_of (record r { attributes = attrs }) l)
unfolding attributes_of with_attrs nest
attributes_of_last r attrs a l =
    ap (λ gs. nest (l.attrs ++ gs) end) (map-append (in_group l) attrs (a ∷ []))
    ∙ (nest-append l.attrs (map (in_group l) attrs ++ in_group l a ∷ []) end
        ∙ (nest-append (map (in_group l) attrs) (in_group l a ∷ []) (nest l.attrs end)
            ∙ ap (set_nested l.group a) (sym (nest-append l.attrs (map (in_group l) attrs) end))))

-- The last attribute of a record is found in the nested map, at its key in the group of the handler;
-- and it changes nothing at a place that differs from that one before either ends, whatever the
-- handler and the record had before.
pub attributes_of_lem :
    (r : LogRecord) (attrs : List Attribute) (a : Attribute) (l : LogBuffer) (group : List String)
    (key : String)
    → apart l.group a.key group key ≡ true
    → let fields = attributes_of (record r { attributes = attrs ++ a ∷ [] }) l in
      (value_at l.group a.key fields ≡ some a.value)
      × (value_at group key fields
          ≡ value_at group key (attributes_of (record r { attributes = attrs }) l))
attributes_of_lem r attrs a l group key d =
    let before = attributes_of (record r { attributes = attrs }) l in
    rw (attributes_of_last r attrs a l)
      (value_at-set_nested l.group a before, value_at-apart l.group a group key before d)
