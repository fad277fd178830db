-- ===== src/Tests/Answers.antt =====
-- The theorems on answers, applied to the answer about an item, and a run.
use stock_pilot_be.Prelude.{◌≡◌, refl, none, some}
use stock_pilot_be.Prelude.Int.{pos}
use stock_pilot_be.Schema.{warehouse_staff}
use stock_pilot_be.SensitiveFields.{
  Json, str, num, dec, arr, obj, nil, cons, end, field, mask, is_sensitive, is_decimal_like,
  find_field,
}
use stock_pilot_be.SensitiveFields.Masked.{IsClean, mask-IsClean}
use stock_pilot_be.SensitiveFields.Hidden.{mask_hides, strip}

abbrev priced : Json
priced = obj (
    field "sku" (str "SKU")
      (field "costPrice" (dec (pos 500)) (field "sellingPrice" (dec (pos 1_000)) end)))

abbrev plain : Json
plain = obj (field "sku" (str "SKU") (field "sellingPrice" (dec (pos 1_000)) end))

abbrev answer : Json → Json
answer x = obj (field "items" (arr (cons x nil)) (field "profit" (num (pos 3)) end))

mask-IsClean_example : IsClean (mask (some warehouse_staff) (answer priced))
mask-IsClean_example = mask-IsClean (some warehouse_staff) (answer priced) (λ e. cc, λ e. cc)

mask_hides_example : mask none (answer priced) ≡ mask none (answer plain)
unfolding strip is_sensitive
mask_hides_example = mask_hides none (answer priced) (answer plain) (λ e. cc, λ e. cc) refl

staff_sees :
    mask (some warehouse_staff) (answer priced)
    ≡ obj (
        field "items"
          (arr
            (cons (obj (field "sku" (str "SKU") (field "sellingPrice" (num (pos 1_000)) end))) nil))
          end)
unfolding mask is_sensitive is_decimal_like find_field
staff_sees = refl
