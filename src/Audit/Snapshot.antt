-- ===== src/Audit/Snapshot.antt =====
-- src/common/services/audit-log.service.ts: what an audit row keeps of a value before and after an
-- action (sanitize). Numbers, which pass as they are, are integers here. How a date, a bigint and a
-- Decimal are written is a parameter; `other` is a value that no test names, with its String(value).
pub mod Clean
use Prim.Native.Char.{code}
use Prim.Native.String.{String}
use stock_pilot_be.Prelude.{
  ℕ, ◌+◌, ◌&&◌, ◌||◌, not, Bool, true, false, Option, none, some, List, [], ◌∷◌, ◌==◌, leb,
  if◌then◌else◌,
}
use stock_pilot_be.Prelude.Int.{ℤ}
use stock_pilot_be.Prelude.Rows.{holds}

mutual
  pub data Value : Type 0 where
    undefined null : Value
    truth : Bool → Value
    str : String → Value
    num : ℤ → Value
    bigint : ℤ → Value
    date : ℕ → Value
    dec : ℤ → Value
    other : String → Value
    arr : Values → Value
    obj : Entries → Value

  pub data Values : Type 0 where
    nil : Values
    cons : Value → Values → Values

  pub data Entries : Type 0 where
    end : Entries
    field : String → Value → Entries → Entries

-- The letters of ASCII without their case, as a pattern with the flag `i` reads them.
abbrev pub lower : ℕ → ℕ
lower c = if leb b'A' c && leb c b'Z' then c + 32 else c

unfoldable pub folded : String → List ℕ
folded String.[] = []
folded (String.◌∷◌ c s) = lower (code c) ∷ folded s

-- The text after a prefix.
unfoldable pub text_after : List ℕ → List ℕ → Option (List ℕ)
text_after [] s = some s
text_after (c ∷ w) [] = none
text_after (c ∷ w) (d ∷ s) = if c == d then text_after w s else none

abbrev pub begins : List ℕ → List ℕ → Bool
begins w s = elim (text_after w s) [ none ↦ false | some rest ↦ true ]

unfoldable pub occurs : List ℕ → List ℕ → Bool
occurs w [] = begins w []
occurs w (c ∷ s) = begins w (c ∷ s) || occurs w s

abbrev is_text : List ℕ → List ℕ → Bool
is_text [] [] = true
is_text [] (d ∷ s) = false
is_text (c ∷ w) [] = false
is_text (c ∷ w) (d ∷ s) = c == d && is_text w s

-- What `.` does not match.
abbrev is_line_end : ℕ → Bool
is_line_end c = c == b'\n' || c == b'\r' || c == 8_232 || c == 8_233

-- `.*w$`
unfoldable pub ends_line : List ℕ → List ℕ → Bool
ends_line w [] = is_text w []
ends_line w (c ∷ s) = is_text w (c ∷ s) || (not (is_line_end c) && ends_line w s)

abbrev any : (String → Bool) → List String → Bool
any p [] = false
any p (x ∷ xs) = p x || any p xs

-- The words of SENSITIVE_KEY_PATTERN.
abbrev sensitive_words : List String
sensitive_words =
    "password" ∷ "token" ∷ "jwt" ∷ "secret" ∷ "credential" ∷ "authorization" ∷ "cookie" ∷ "session"
    ∷ "apiKey" ∷ "checksumKey" ∷ "encryptionKey" ∷ []

-- The words that ENCRYPTED_CREDENTIAL_KEY_PATTERN starts with.
abbrev credential_words : List String
credential_words =
    "apiKey" ∷ "checksumKey" ∷ "clientId" ∷ "clientSecret" ∷ "secret" ∷ "credential" ∷ "credentials"
    ∷ []

unfoldable pub is_encrypted_credential : String → Bool
is_encrypted_credential key =
    any (λ w. holds (ends_line (folded "Encrypted")) (text_after (folded w) (folded key)))
      credential_words

unfoldable pub is_sensitive_key : String → Bool
is_sensitive_key key =
    any (λ w. occurs (folded w) (folded key)) sensitive_words || is_encrypted_credential key

-- `toString` of a bigint, `toISOString` of a date and `toFixed(2)` of a Decimal.
pub record Writers : Type 0 where
  pub write_bigint : ℤ → String
  pub write_date : ℕ → String
  pub write_decimal : ℤ → String

abbrev pub drop_if : Bool → String → Value → Entries → Entries
drop_if true k v fs = fs
drop_if false k v fs = field k v fs

module _ (w : Writers) where
  unfoldable mutual
    pub sanitize : Value → Value
    sanitize undefined = null
    sanitize null = null
    sanitize (truth b) = truth b
    sanitize (str s) = str s
    sanitize (num n) = num n
    sanitize (bigint n) = str (w.write_bigint n)
    sanitize (date t) = str (w.write_date t)
    sanitize (dec d) = str (w.write_decimal d)
    sanitize (other s) = str s
    sanitize (arr xs) = arr (sanitize_values xs)
    sanitize (obj fs) = obj (sanitize_entries fs)

    pub sanitize_values : Values → Values
    sanitize_values nil = nil
    sanitize_values (cons x xs) = cons (sanitize x) (sanitize_values xs)

    pub sanitize_entries : Entries → Entries
    sanitize_entries end = end
    sanitize_entries (field k v fs) =
        drop_if (is_sensitive_key k) k (sanitize v) (sanitize_entries fs)
