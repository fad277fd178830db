-- ===== src/Audit/Snapshot/Clean.antt =====
-- What the snapshots of audit rows hold: sanitize.
use Prim.Native.String.{String}
use stock_pilot_be.Prelude.{◌≡◌, refl, Bool, false, Bool-cases, inl, inr}
use stock_pilot_be.Prelude.Int.{ℤ}
use stock_pilot_be.Audit.Snapshot.{
  Value, undefined, null, truth, str, num, bigint, date, dec, other, arr, obj, Values, nil, cons,
  Entries, end, field, is_sensitive_key, Writers, drop_if, sanitize, sanitize_values,
  sanitize_entries,
}

-- JSON without a sensitive key, at any depth.
mutual
  pub data IsPlain : Value → Type 0 where
    plain_null : IsPlain null
    plain_truth : (b : Bool) → IsPlain (truth b)
    plain_str : (s : String) → IsPlain (str s)
    plain_num : (n : ℤ) → IsPlain (num n)
    plain_arr : {xs : Values} → ArePlain xs → IsPlain (arr xs)
    plain_obj : {fs : Entries} → ArePlainEntries fs → IsPlain (obj fs)

  pub data ArePlain : Values → Type 0 where
    plain_nil : ArePlain nil
    plain_cons : {x : Value} {xs : Values} → IsPlain x → ArePlain xs → ArePlain (cons x xs)

  pub data ArePlainEntries : Entries → Type 0 where
    plain_end : ArePlainEntries end
    plain_field :
        {k : String} {v : Value} {fs : Entries}
        → is_sensitive_key k ≡ false
        → IsPlain v
        → ArePlainEntries fs
        → ArePlainEntries (field k v fs)

module _ (w : Writers) where
  drop_if-ArePlainEntries :
      (k : String) (v : Value) (fs : Entries)
      → IsPlain v
      → ArePlainEntries fs
      → ArePlainEntries (drop_if (is_sensitive_key k) k v fs)
  drop_if-ArePlainEntries k v fs pv pf = elim (Bool-cases (is_sensitive_key k)) [
    | inl e ↦ rw e pf
    | inr e ↦ rw e (plain_field e pv pf)
  ]

  mutual
    unfolding sanitize sanitize_values sanitize_entries

    plain : (x : Value) → IsPlain (sanitize w x)
    plain undefined = plain_null
    plain null = plain_null
    plain (truth b) = plain_truth b
    plain (str s) = plain_str s
    plain (num n) = plain_num n
    plain (bigint n) = plain_str _
    plain (date t) = plain_str _
    plain (dec d) = plain_str _
    plain (other s) = plain_str s
    plain (arr xs) = plain_arr (plain_values xs)
    plain (obj fs) = plain_obj (plain_entries fs)

    plain_values : (xs : Values) → ArePlain (sanitize_values w xs)
    plain_values nil = plain_nil
    plain_values (cons x xs) = plain_cons (plain x) (plain_values xs)

    plain_entries : (fs : Entries) → ArePlainEntries (sanitize_entries w fs)
    plain_entries end = plain_end
    plain_entries (field k v fs) =
        drop_if-ArePlainEntries k (sanitize w v) (sanitize_entries w fs) (plain v)
          (plain_entries fs)

  -- A snapshot is JSON, and holds no sensitive key at any depth of its objects and arrays.
  pub sanitize-IsPlain : (x : Value) → IsPlain (sanitize w x)
  sanitize-IsPlain x = plain x

  mutual
    unfolding sanitize sanitize_values sanitize_entries

    kept : {x : Value} → IsPlain x → sanitize w x ≡ x
    kept plain_null = refl
    kept (plain_truth b) = refl
    kept (plain_str s) = refl
    kept (plain_num n) = refl
    kept (plain_arr h) = λ i. arr (kept_values h i)
    kept (plain_obj h) = λ i. obj (kept_entries h i)

    kept_values : {xs : Values} → ArePlain xs → sanitize_values w xs ≡ xs
    kept_values plain_nil = refl
    kept_values (plain_cons h hs) = λ i. cons (kept h i) (kept_values hs i)

    kept_entries : {fs : Entries} → ArePlainEntries fs → sanitize_entries w fs ≡ fs
    kept_entries plain_end = refl
    kept_entries (plain_field {k = k} e h hs) = rw e (λ i. field k (kept h i) (kept_entries hs i))

  -- A JSON value without a sensitive key is recorded as it is.
  pub plain_sanitize : (x : Value) → IsPlain x → sanitize w x ≡ x
  plain_sanitize x h = kept h
