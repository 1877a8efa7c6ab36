-- ===== src/Idempotency/Body.antt =====
-- The normal form of a request's body before it is hashed: `normalize` of
-- backend/src/common/interceptors/idempotency.interceptor.ts, and `normalizePayload` of
-- backend/src/modules/idempotency/idempotency.service.ts. An undefined element of an array is printed
-- as null.
use se_ticketbox.Prelude.{
  ℕ, ◌≡◌, refl, ap, ◌∙◌, Bool, true, false, not, ◌&&◌, ◌||◌, Option, none, some, [], ◌∷◌, ltb, ◌==◌,
  if◌then◌else◌, arith, Bool-cases, inl, inr,
}
use se_ticketbox.Prelude.Text.{Text, text_eq}

-- The values of JSON; an object is the list of its fields.
mutual
  pub data Json : Type 0 where
    null : Json
    boolean : Bool → Json
    number : ℕ → Json
    string : Text → Json
    array : Elements → Json
    object : Fields → Json

  pub data Elements : Type 0 where
    no_elements : Elements
    cons : Json → Elements → Elements

  pub data Fields : Type 0 where
    no_fields : Fields
    field : Text → Json → Fields → Fields

-- The order of `sort`.
unfoldable pub text_lt : Text → Text → Bool
text_lt [] [] = false
text_lt [] (y ∷ ys) = true
text_lt (x ∷ xs) [] = false
text_lt (x ∷ xs) (y ∷ ys) = ltb x y || (x == y && text_lt xs ys)

-- A field at its place among sorted ones.
unfoldable pub insert_field : Text → Json → Fields → Fields
unfolding text_lt
insert_field k v no_fields = field k v no_fields
insert_field k v (field j w m) =
    if text_lt j k then field j w (insert_field k v m) else field k v (field j w m)

abbrev pub keep_field : Text → Option Json → Fields → Fields
keep_field k none m = m
keep_field k (some v) m = insert_field k v m

abbrev pub or_null : Option Json → Json
or_null none = null
or_null (some v) = v

-- `normalize`, where none is undefined.
unfoldable mutual
  pub normalize : Json → Option Json
  normalize null = none
  normalize (boolean b) = some (boolean b)
  normalize (number n) = some (number n)
  normalize (string s) = some (string s)
  normalize (array xs) = some (array (normalize_elements xs))
  normalize (object m) = some (object (normalize_fields m))

  pub normalize_elements : Elements → Elements
  normalize_elements no_elements = no_elements
  normalize_elements (cons x xs) = cons (or_null (normalize x)) (normalize_elements xs)

  pub normalize_fields : Fields → Fields
  normalize_fields no_fields = no_fields
  normalize_fields (field k v m) = keep_field k (normalize v) (normalize_fields m)

text_lt_total : (a b : Text) → text_eq a b ≡ false → text_lt a b ≡ not (text_lt b a)
unfolding text_lt text_eq
text_lt_total [] [] h = ground (arith, h)
text_lt_total [] (y ∷ ys) h = refl
text_lt_total (x ∷ xs) [] h = refl
text_lt_total (x ∷ xs) (y ∷ ys) h = ground (arith, h, text_lt_total xs ys)

text_lt_trans : (a b c : Text) → text_lt a b ≡ true → text_lt b c ≡ true → text_lt a c ≡ true
unfolding text_lt
text_lt_trans [] [] [] h i = ground (arith, h)
text_lt_trans [] (y ∷ ys) [] h i = ground (arith, i)
text_lt_trans [] b (z ∷ zs) h i = refl
text_lt_trans (x ∷ xs) [] c h i = ground (arith, h)
text_lt_trans (x ∷ xs) (y ∷ ys) [] h i = ground (arith, i)
text_lt_trans (x ∷ xs) (y ∷ ys) (z ∷ zs) h i = ground (arith, h, i, text_lt_trans xs ys zs)

-- Fields of different names may be inserted in either order.
insert_field-insert_field :
    (k j : Text) (v w : Json) (m : Fields)
    → text_eq k j ≡ false
    → insert_field k v (insert_field j w m) ≡ insert_field j w (insert_field k v m)
unfolding insert_field
insert_field-insert_field k j v w no_fields h = elim (Bool-cases (text_lt j k)) [
  | inl e ↦ ground (arith, e, h, text_lt_total k j h)
  | inr e ↦ ground (arith, e, h, text_lt_total k j h)
]
insert_field-insert_field k j v w (field i x m) h = ground (
  arith,
  h,
  text_lt_total k j h,
  text_lt_trans i k j,
  text_lt_trans i j k,
  insert_field-insert_field k j v w m h,
)

-- Bodies that differ in the order of their fields, whose names are different, and in null fields.
pub data SameFields : Fields → Fields → Type 0 where
  same : (m : Fields) → SameFields m m
  swapped :
      (k j : Text) (v w : Json) (m : Fields)
      → text_eq k j ≡ false
      → SameFields (field k v (field j w m)) (field j w (field k v m))
  null_dropped : (k : Text) (m : Fields) → SameFields (field k null m) m
  behind :
      (k : Text) (v : Json) (m n : Fields) → SameFields m n → SameFields (field k v m) (field k v n)
  chained : (l m n : Fields) → SameFields l m → SameFields m n → SameFields l n

keep_field-keep_field :
    (k j : Text) (a b : Option Json) (m : Fields)
    → text_eq k j ≡ false
    → keep_field k a (keep_field j b m) ≡ keep_field j b (keep_field k a m)
keep_field-keep_field k j none b m h = refl
keep_field-keep_field k j (some v) none m h = refl
keep_field-keep_field k j (some v) (some w) m h = insert_field-insert_field k j v w m h

-- The hash of a body's object does not depend on the order of its fields or on fields that are null,
-- since the normal form does not.
pub normalize_fields-SameFields :
    (m n : Fields) → SameFields m n → normalize_fields m ≡ normalize_fields n
unfolding normalize
normalize_fields-SameFields _ _ (same m) = refl
normalize_fields-SameFields _ _ (swapped k j v w m h) =
    keep_field-keep_field k j (normalize v) (normalize w) (normalize_fields m) h
normalize_fields-SameFields _ _ (null_dropped k m) = refl
normalize_fields-SameFields _ _ (behind k v m n s) =
    ap (keep_field k (normalize v)) (normalize_fields-SameFields m n s)
normalize_fields-SameFields _ _ (chained l m n s t) =
    normalize_fields-SameFields l m s ∙ normalize_fields-SameFields m n t
