-- ===== src/SensitiveFields.antt =====
-- src/common/middleware/sensitive-fields.ts: what an answer shows to whom. The body of an answer is a
-- value of JavaScript: numbers, which pass as they are, are integers here, and `opaque` is a date or a
-- buffer. A Decimal is its own kind of value; a plain object that looks like one is turned into zero.
-- Of an own property of the name toNumber or toString, which would have to be a function, nothing is said.
pub mod Masked
pub mod Hidden
use Prim.Native.String.{String}
use text.Mathlib.Text.{◌==◌ as str_eq}
use stock_pilot_be.Prelude.{
  ℕ, Bool, true, false, not, ◌&&◌, ◌||◌, Option, none, some, List, [], ◌∷◌, if◌then◌else◌,
}
use stock_pilot_be.Prelude.Int.{ℤ, pos}
use stock_pilot_be.Prelude.Rows.{holds}
use stock_pilot_be.Schema.{Role, admin, shop_owner, warehouse_staff}

mutual
  pub data Json : Type 0 where
    null : Json
    truth : Bool → Json
    str : String → Json
    num : ℤ → Json
    opaque : ℕ → Json
    dec : ℤ → Json
    arr : Items → Json
    obj : Fields → Json

  pub data Items : Type 0 where
    nil : Items
    cons : Json → Items → Items

  pub data Fields : Type 0 where
    end : Fields
    field : String → Json → Fields → Fields

abbrev sensitive_keys : List String
sensitive_keys =
    "costPrice" ∷ "costPriceSnapshot" ∷ "cost_price" ∷ "cost_price_snapshot" ∷ "totalCostPrice"
    ∷ "profitMargin" ∷ "margin" ∷ "profit" ∷ "totalInventoryValue" ∷ "totalValue" ∷ "netRevenue"
    ∷ "grossRevenue" ∷ "grossProfit" ∷ "cogs" ∷ "tiedCapital" ∷ "capital" ∷ "minimumPrice"
    ∷ "minimumMarginPct" ∷ "maxMarkdownPct" ∷ "maxMarkupPct" ∷ "expectedMarginPct" ∷ "curMargin"
    ∷ "lossPerUnit" ∷ "costValue" ∷ "deadStockCostValue" ∷ "totalDeadStockCostValue"
    ∷ "totalEstimateCost" ∷ "totalTiedCapital" ∷ "pricingEvaluation" ∷ "pricingRecommendation" ∷ []

abbrev has : String → List String → Bool
has k [] = false
has k (x ∷ xs) = str_eq k x || has k xs

unfoldable pub is_sensitive : String → Bool
is_sensitive k = has k sensitive_keys

-- `data[key]` of an object's own fields.
unfoldable pub find_field : String → Fields → Option Json
find_field k end = none
find_field k (field j v fs) = if str_eq j k then some v else find_field k fs

abbrev pub is_arr : Json → Bool
is_arr (arr xs) = true
is_arr null = false
is_arr (truth b) = false
is_arr (str s) = false
is_arr (num n) = false
is_arr (opaque n) = false
is_arr (dec n) = false
is_arr (obj fs) = false

abbrev pub is_num : Json → Bool
is_num (num n) = true
is_num null = false
is_num (truth b) = false
is_num (str s) = false
is_num (opaque n) = false
is_num (dec n) = false
is_num (arr xs) = false
is_num (obj fs) = false

abbrev pub names_decimal : Json → Bool
names_decimal (str s) = str_eq s "Decimal" || str_eq s "Decimal128"
names_decimal null = false
names_decimal (truth b) = false
names_decimal (num n) = false
names_decimal (opaque n) = false
names_decimal (dec n) = false
names_decimal (arr xs) = false
names_decimal (obj fs) = false

-- `data.constructor.name`, of an own property.
abbrev pub constructs_decimal : Json → Bool
constructs_decimal (obj fs) = holds names_decimal (find_field "name" fs)
constructs_decimal null = false
constructs_decimal (truth b) = false
constructs_decimal (str s) = false
constructs_decimal (num n) = false
constructs_decimal (opaque n) = false
constructs_decimal (dec n) = false
constructs_decimal (arr xs) = false

unfoldable pub is_decimal_like : Fields → Bool
is_decimal_like fs =
    holds constructs_decimal (find_field "constructor" fs)
    || (holds is_arr (find_field "d" fs)
        && holds is_num (find_field "s" fs)
        && holds is_num (find_field "e" fs))

-- `undefined` for a request without a user.
abbrev pub is_owner_or_admin : Option Role → Bool
is_owner_or_admin none = false
is_owner_or_admin (some shop_owner) = true
is_owner_or_admin (some admin) = true
is_owner_or_admin (some warehouse_staff) = false

abbrev pub keep_unless : Bool → String → Json → Fields → Fields
keep_unless true k v fs = fs
keep_unless false k v fs = field k v fs

-- `Number(String(object))` is NaN, which becomes 0.
abbrev pub object_unless : Bool → Fields → Json
object_unless true fs = num (pos 0)
object_unless false fs = obj fs

-- `maskSensitiveFields`
unfoldable mutual
  pub mask : Option Role → Json → Json
  mask role null = null
  mask role (truth b) = truth b
  mask role (str s) = str s
  mask role (num n) = num n
  mask role (opaque n) = opaque n
  mask role (dec n) = num n
  mask role (arr xs) = arr (mask_items role xs)
  mask role (obj fs) = object_unless (is_decimal_like fs) (mask_fields role fs)

  pub mask_items : Option Role → Items → Items
  mask_items role nil = nil
  mask_items role (cons x xs) = cons (mask role x) (mask_items role xs)

  pub mask_fields : Option Role → Fields → Fields
  mask_fields role end = end
  mask_fields role (field k v fs) =
      keep_unless (not (is_owner_or_admin role) && is_sensitive k) k (mask role v)
        (mask_fields role fs)
