-- ===== src/SensitiveFields/Masked.antt =====
-- What an answer tells those who may not see costs: maskSensitiveFields.
use Prim.Native.String.{String}
use stock_pilot_be.Prelude.{
  ◌≡◌, ◌≢◌, refl, Bool, true, false, Option, none, some, inl, inr, Bool-cases,
}
use stock_pilot_be.Schema.{Role, admin, shop_owner, warehouse_staff}
use stock_pilot_be.SensitiveFields.{
  Json, null, truth, str, num, opaque, dec, arr, obj, Items, nil, cons, Fields, end, field,
  is_sensitive, is_decimal_like, is_owner_or_admin, keep_unless, object_unless, mask, mask_items,
  mask_fields,
}

-- No key of the set, at any depth.
mutual
  pub data IsClean : Json → Type 0 where
    clean_null : IsClean null
    clean_truth : (b : Bool) → IsClean (truth b)
    clean_str : (s : String) → IsClean (str s)
    clean_num : (n : _) → IsClean (num n)
    clean_opaque : (n : _) → IsClean (opaque n)
    clean_arr : {xs : Items} → IsCleanItems xs → IsClean (arr xs)
    clean_obj : {fs : Fields} → IsCleanFields fs → IsClean (obj fs)

  pub data IsCleanItems : Items → Type 0 where
    clean_nil : IsCleanItems nil
    clean_cons : {x : Json} {xs : Items} → IsClean x → IsCleanItems xs → IsCleanItems (cons x xs)

  pub data IsCleanFields : Fields → Type 0 where
    clean_end : IsCleanFields end
    clean_field :
        {k : String} {v : Json} {fs : Fields}
        → is_sensitive k ≡ false
        → IsClean v
        → IsCleanFields fs
        → IsCleanFields (field k v fs)

keep_unless-IsCleanFields :
    (k : String) (v : Json) (fs : Fields)
    → IsClean v
    → IsCleanFields fs
    → IsCleanFields (keep_unless (is_sensitive k) k v fs)
keep_unless-IsCleanFields k v fs cv cf = elim (Bool-cases (is_sensitive k)) [
  | inl e ↦ rw e cf
  | inr e ↦ rw e (clean_field e cv cf)
]

object_unless-IsClean : (b : Bool) (fs : Fields) → IsCleanFields fs → IsClean (object_unless b fs)
object_unless-IsClean true fs c = clean_num _
object_unless-IsClean false fs c = clean_obj c

mutual
  unfolding mask mask_items mask_fields

  hides_keys :
      (role : Option Role) (x : Json) → is_owner_or_admin role ≡ false → IsClean (mask role x)
  hides_keys role null h = clean_null
  hides_keys role (truth b) h = clean_truth b
  hides_keys role (str s) h = clean_str s
  hides_keys role (num n) h = clean_num n
  hides_keys role (opaque n) h = clean_opaque n
  hides_keys role (dec n) h = clean_num n
  hides_keys role (arr xs) h = clean_arr (hides_keys_items role xs h)
  hides_keys role (obj fs) h =
      object_unless-IsClean (is_decimal_like fs) _ (hides_keys_fields role fs h)

  hides_keys_items :
      (role : Option Role) (xs : Items)
      → is_owner_or_admin role ≡ false
      → IsCleanItems (mask_items role xs)
  hides_keys_items role nil h = clean_nil
  hides_keys_items role (cons x xs) h =
      clean_cons (hides_keys role x h) (hides_keys_items role xs h)

  hides_keys_fields :
      (role : Option Role) (fs : Fields)
      → is_owner_or_admin role ≡ false
      → IsCleanFields (mask_fields role fs)
  hides_keys_fields role end h = clean_end
  hides_keys_fields role (field k v fs) h = rw h (
      keep_unless-IsCleanFields k (mask role v) (mask_fields role fs) (hides_keys role v h)
        (hides_keys_fields role fs h))

-- Who is no owner and no administrator: staff, and a request without a user.
abbrev pub IsOutsider : Option Role → Type 0
IsOutsider role = (role ≢ some shop_owner) × (role ≢ some admin)

pub outsider_masked : (role : Option Role) → IsOutsider role → is_owner_or_admin role ≡ false
outsider_masked none h = refl
outsider_masked (some admin) h = absurd (h.1 refl)
outsider_masked (some shop_owner) h = absurd (h.0 refl)
outsider_masked (some warehouse_staff) h = refl

-- An answer to anyone but an owner or an administrator, a request without a user included, holds no
-- key of the set, at any depth of its objects and arrays.
pub mask-IsClean : (role : Option Role) (x : Json) → IsOutsider role → IsClean (mask role x)
mask-IsClean role x h = hides_keys role x (outsider_masked role h)
