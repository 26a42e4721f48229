-- ===== src/Amounts/Tests.antt =====
-- Runs of the aggregation, and the theorems at these inputs.
use stellar_batch_pay.Base.{
  ℕ, ◌≡◌, refl, true, none, some, Option, List, [], ◌∷◌, ◌==◌, if◌then◌else◌,
}
use stellar_batch_pay.Types.{PaymentInstruction}
use stellar_batch_pay.Batcher.Tests.{to}
use stellar_batch_pay.Amounts.{
  codes, total_stroops, format_total, AssetAmount, aggregate_payments_by_asset, payment_totals,
  add_total, asset_amounts, asset_amount, sort_amounts, insert_amount, not_after, places, to_string,
  digits_from, pad_start, pad_end, zeros, strip_zeros, read_digits, big_int, before_dot, after_dot,
  is_digit,
}
use stellar_batch_pay.Amounts.RoundTrip.{total_stroops-format_total}
use stellar_batch_pay.Amounts.Totals.{
  weigh, entries, counted, stroops, paid, amount, aggregate_payments_by_asset-Totals,
}

abbrev other : List ℕ → Option ℕ
other cs = none

abbrev payments : List PaymentInstruction
payments =
    record (to "A" none) { asset = "USDC:G"; amount = "0.25" }
    ∷ to "B" none
    ∷ record (to "C" none) { asset = "USDC:G"; amount = "2" }
    ∷ []

abbrev usdc : AssetAmount
usdc = record { asset = "USDC:G"; total = codes "2.25"; count = 2 }

abbrev xlm : AssetAmount
xlm = record { asset = "XLM"; total = codes "1.5"; count = 1 }

aggregated : aggregate_payments_by_asset other (λ a b. true) payments ≡ some (xlm ∷ usdc ∷ [])
unfolding aggregate_payments_by_asset payment_totals add_total asset_amounts asset_amount
    sort_amounts insert_amount not_after format_total places to_string digits_from pad_start pad_end
    zeros strip_zeros read_digits big_int before_dot after_dot is_digit total_stroops
aggregated = refl

total_stroops-format_total_example : total_stroops other (format_total 22500000) ≡ some 22500000
total_stroops-format_total_example = total_stroops-format_total other 22500000

aggregate_payments_by_asset-Totals_example :
    (weigh (entries other "USDC:G") (xlm ∷ usdc ∷ [])
      ≡ (if weigh (paid other "USDC:G") payments == 0 then 0 else 1))
    × (weigh (counted other "USDC:G") (xlm ∷ usdc ∷ []) ≡ weigh (paid other "USDC:G") payments)
    × (weigh (stroops other "USDC:G") (xlm ∷ usdc ∷ []) ≡ weigh (amount other "USDC:G") payments)
aggregate_payments_by_asset-Totals_example =
    aggregate_payments_by_asset-Totals other "USDC:G" (λ a b. true) payments (xlm ∷ usdc ∷ [])
      aggregated
