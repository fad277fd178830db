-- ===== src/Payos/Signature.antt =====
-- `verifyPayosSignature` of pos-payos.service.ts. The HMAC of node's crypto library is a parameter.
use Prim.Native.Nat.{Ordering}
use Prim.Native.String.{String, compare, ◌++◌ as str_append}
use text.Mathlib.Text.{◌==◌ as str_eq}
use stock_pilot_be.Prelude.{
  suc, ◌&&◌, Bool, true, false, not, List, [], ◌∷◌, map, if◌then◌else◌, filter_by,
}
use stock_pilot_be.Prelude.Int.{ℤ, pos, negsuc}
use stock_pilot_be.Ledger.{decimal}

-- A value of the webhook's data: `nested` holds what `JSON.stringify` makes of an array or object.
pub data JsonValue : Type 0 where
  undefined null : JsonValue
  string nested : String → JsonValue
  number : ℤ → JsonValue
  boolean : Bool → JsonValue

abbrev pub Entry : Type 0
Entry = String × JsonValue

-- `Array.prototype.sort` on the keys.
abbrev comes_before : String → String → Bool
comes_before a b = elim (compare a b) [ Ordering.gt ↦ false | _ ↦ true ]

unfoldable pub insert_entry : Entry → List Entry → List Entry
insert_entry e [] = e ∷ []
insert_entry e (x ∷ xs) = if comes_before e.0 x.0 then e ∷ x ∷ xs else x ∷ insert_entry e xs

unfoldable pub sort_entries : List Entry → List Entry
sort_entries [] = []
sort_entries (x ∷ xs) = insert_entry x (sort_entries xs)

abbrev pub is_defined : JsonValue → Bool
is_defined v = elim v [ undefined ↦ false | _ ↦ true ]

abbrev number_text : ℤ → String
number_text (pos n) = decimal n
number_text (negsuc n) = str_append "-" (decimal (suc n))

abbrev empty_name : String → String
empty_name s = if str_eq s "undefined" then "" else if str_eq s "null" then "" else s

-- The text of a value: nothing for `null`, and for the texts "undefined" and "null".
unfoldable pub value_text : JsonValue → String
value_text undefined = ""
value_text null = ""
value_text (string s) = empty_name s
value_text (nested s) = s
value_text (number n) = number_text n
value_text (boolean b) = if b then "true" else "false"

abbrev entry_text : Entry → String
entry_text (key, v) = str_append key (str_append "=" (value_text v))

-- `Array.prototype.join` with "&".
unfoldable pub join_and : List String → String
join_and [] = ""
join_and (s ∷ []) = s
join_and (s ∷ t ∷ ts) = str_append s (str_append "&" (join_and (t ∷ ts)))

unfoldable pub sign_data : List Entry → String
unfolding value_text sort_entries join_and
sign_data entries =
    join_and (map entry_text (filter_by (λ e. is_defined e.1) (sort_entries entries)))

-- `crypto.createHmac('sha256', key).update(data).digest('hex')`, of the key and the data. Two texts
-- are compared by their bytes.
unfoldable pub verify_payos_signature :
    (String → String → String) → List Entry → String → String → Bool
verify_payos_signature hmac entries signature checksum_key =
    not (str_eq signature "")
    && (not (str_eq checksum_key "") && str_eq (hmac checksum_key (sign_data entries)) signature)
