-- ===== src/SensitiveFields/Hidden.antt =====
-- What an answer does not depend on, to those who may not see costs: maskSensitiveFields.
use mathlib.Core.Option
use Prim.Native.String.{String}
use text.Mathlib.Text.{◌==◌ as str_eq}
use text.Mathlib.TextEquality.{eq_iff}
use stock_pilot_be.Prelude.{
  ◌≡◌, refl, sym, ap, ◌∙◌, Bool, true, false, Option, none, some, inl, inr, Bool-cases,
}
use stock_pilot_be.Prelude.Rows.{holds}
use stock_pilot_be.Schema.{Role}
use stock_pilot_be.SensitiveFields.Masked.{IsOutsider, outsider_masked}
use stock_pilot_be.SensitiveFields.{
  Json, null, truth, str, num, opaque, dec, arr, obj, Items, nil, cons, Fields, end, field,
  is_sensitive, find_field, is_arr, is_num, names_decimal, constructs_decimal, is_decimal_like,
  is_owner_or_admin, keep_unless, object_unless, mask, mask_items, mask_fields,
}

-- The value without the fields of sensitive keys: what an answer may depend on.
unfoldable mutual
  pub strip : Json → Json
  strip null = null
  strip (truth b) = truth b
  strip (str s) = str s
  strip (num n) = num n
  strip (opaque n) = opaque n
  strip (dec n) = dec n
  strip (arr xs) = arr (strip_items xs)
  strip (obj fs) = obj (strip_fields fs)

  strip_items : Items → Items
  strip_items nil = nil
  strip_items (cons x xs) = cons (strip x) (strip_items xs)

  strip_fields : Fields → Fields
  strip_fields end = end
  strip_fields (field k v fs) = keep_unless (is_sensitive k) k (strip v) (strip_fields fs)

contrary : (b : Bool) → b ≡ true → b ≡ false → ⊥
contrary b h k = cc

find_field-strip :
    (k : String) (fs : Fields)
    → is_sensitive k ≡ false
    → find_field k (strip_fields fs) ≡ Option.map strip (find_field k fs)
unfolding find_field strip_fields
find_field-strip k end h = refl
find_field-strip k (field j v fs) h = elim (Bool-cases (is_sensitive j)) [
  | inl e ↦ elim (Bool-cases (str_eq j k)) [
    | inl d ↦ absurd (contrary (is_sensitive k) (ap is_sensitive (sym ((eq_iff j k).0 d)) ∙ e) h)
    | inr d ↦ rw (e, d) (find_field-strip k fs h)
  ]
  | inr e ↦ elim (Bool-cases (str_eq j k)) [
    | inl d ↦ rw e (rw d refl)
    | inr d ↦ rw e (rw d (find_field-strip k fs h))
  ]
]

holds-strip :
    (p : Json → Bool) (o : Option Json)
    → ((v : Json) → p (strip v) ≡ p v)
    → holds p (Option.map strip o) ≡ holds p o
holds-strip p none h = refl
holds-strip p (some v) h = h v

holds_field-strip :
    (p : Json → Bool) (k : String) (fs : Fields)
    → is_sensitive k ≡ false
    → ((v : Json) → p (strip v) ≡ p v)
    → holds p (find_field k (strip_fields fs)) ≡ holds p (find_field k fs)
holds_field-strip p k fs e h =
    ap (holds p) (find_field-strip k fs e) ∙ holds-strip p (find_field k fs) h

is_arr-strip : (v : Json) → is_arr (strip v) ≡ is_arr v
unfolding strip
is_arr-strip null = refl
is_arr-strip (truth b) = refl
is_arr-strip (str s) = refl
is_arr-strip (num n) = refl
is_arr-strip (opaque n) = refl
is_arr-strip (dec n) = refl
is_arr-strip (arr xs) = refl
is_arr-strip (obj fs) = refl

is_num-strip : (v : Json) → is_num (strip v) ≡ is_num v
unfolding strip
is_num-strip null = refl
is_num-strip (truth b) = refl
is_num-strip (str s) = refl
is_num-strip (num n) = refl
is_num-strip (opaque n) = refl
is_num-strip (dec n) = refl
is_num-strip (arr xs) = refl
is_num-strip (obj fs) = refl

names_decimal-strip : (v : Json) → names_decimal (strip v) ≡ names_decimal v
unfolding strip
names_decimal-strip null = refl
names_decimal-strip (truth b) = refl
names_decimal-strip (str s) = refl
names_decimal-strip (num n) = refl
names_decimal-strip (opaque n) = refl
names_decimal-strip (dec n) = refl
names_decimal-strip (arr xs) = refl
names_decimal-strip (obj fs) = refl

constructs_decimal-strip : (v : Json) → constructs_decimal (strip v) ≡ constructs_decimal v
unfolding strip is_sensitive
constructs_decimal-strip null = refl
constructs_decimal-strip (truth b) = refl
constructs_decimal-strip (str s) = refl
constructs_decimal-strip (num n) = refl
constructs_decimal-strip (opaque n) = refl
constructs_decimal-strip (dec n) = refl
constructs_decimal-strip (arr xs) = refl
constructs_decimal-strip (obj fs) =
    holds_field-strip names_decimal "name" fs refl names_decimal-strip

is_decimal_like-strip : (fs : Fields) → is_decimal_like (strip_fields fs) ≡ is_decimal_like fs
unfolding is_decimal_like is_sensitive
is_decimal_like-strip fs =
    rw
      (
        holds_field-strip constructs_decimal "constructor" fs refl constructs_decimal-strip,
        holds_field-strip is_arr "d" fs refl is_arr-strip,
        holds_field-strip is_num "s" fs refl is_num-strip,
        holds_field-strip is_num "e" fs refl is_num-strip,
      )
      refl

mask-keep_unless :
    (role : Option Role) (k : String) (v w : Json) (fs gs : Fields)
    → is_owner_or_admin role ≡ false
    → mask role v ≡ mask role w
    → mask_fields role fs ≡ mask_fields role gs
    → mask_fields role (keep_unless (is_sensitive k) k v fs) ≡ mask_fields role (field k w gs)
unfolding mask_fields
mask-keep_unless role k v w fs gs h same rest = elim (Bool-cases (is_sensitive k)) [
  | inl e ↦ rw (e, h) rest
  | inr e ↦ rw (e, h) (rw e λ i. field k (same i) (rest i))
]

mutual
  unfolding mask mask_items mask_fields strip strip_items strip_fields

  mask-strip :
      (role : Option Role) (x : Json)
      → is_owner_or_admin role ≡ false
      → mask role (strip x) ≡ mask role x
  mask-strip role null h = refl
  mask-strip role (truth b) h = refl
  mask-strip role (str s) h = refl
  mask-strip role (num n) h = refl
  mask-strip role (opaque n) h = refl
  mask-strip role (dec n) h = refl
  mask-strip role (arr xs) h = ap arr (mask_items-strip role xs h)
  mask-strip role (obj fs) h =
      λ i. object_unless (is_decimal_like-strip fs i) (mask_fields-strip role fs h i)

  mask_items-strip :
      (role : Option Role) (xs : Items)
      → is_owner_or_admin role ≡ false
      → mask_items role (strip_items xs) ≡ mask_items role xs
  mask_items-strip role nil h = refl
  mask_items-strip role (cons x xs) h =
      λ i. cons (mask-strip role x h i) (mask_items-strip role xs h i)

  mask_fields-strip :
      (role : Option Role) (fs : Fields)
      → is_owner_or_admin role ≡ false
      → mask_fields role (strip_fields fs) ≡ mask_fields role fs
  mask_fields-strip role end h = refl
  mask_fields-strip role (field k v fs) h =
      mask-keep_unless role k (strip v) v (strip_fields fs) fs h (mask-strip role v h)
        (mask_fields-strip role fs h)

-- To anyone but an owner or an administrator, two values that are the same without the fields of
-- sensitive keys give the same answer: nothing of a sensitive field shows, not even whether it is there.
pub mask_hides :
    (role : Option Role) (x y : Json)
    → IsOutsider role
    → strip x ≡ strip y
    → mask role x ≡ mask role y
mask_hides role x y h same =
    let masked = outsider_masked role h in
    sym (mask-strip role x masked) ∙ ap (mask role) same ∙ mask-strip role y masked
