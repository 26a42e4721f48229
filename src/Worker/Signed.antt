-- ===== src/Worker/Signed.antt =====
-- The counts of the server-signed flow.
use stellar_batch_pay.Base.{
  ◌+◌, ◌≡◌, refl, inl, inr, String, List, [], ◌∷◌, map, arith, length, length-append, Bool-cases,
  Result, ok, err,
}
use stellar_batch_pay.Types.{PaymentInstruction, PaymentResult}
use stellar_batch_pay.Service.{is_success, count_status}
use stellar_batch_pay.Service.Entries.{count_status-append}
use stellar_batch_pay.Worker.{
  Tally, untallied, payment_result, add_results, process_batch, process_batches,
}

-- Every result is counted once, as a success or as a failure.
pub record Counted (t : Tally) : Type 0 where
  pub counted : t.success_count + t.fail_count ≡ length t.all_results
  pub successes : t.success_count ≡ count_status is_success t.all_results

add_results-Counted : (rs : List PaymentResult) (t : Tally) → Counted t → Counted (add_results rs t)
unfolding add_results count_status
add_results-Counted [] t h = h
add_results-Counted (r ∷ rs) t h =
    let l = length-append t.all_results (r ∷ []) in
    let c = count_status-append is_success t.all_results (r ∷ []) in
    elim (Bool-cases (is_success r.status)) [
      | inl y ↦
          rw (y, add_results)
            (add_results-Counted rs _ (record {
              counted = omega (arith, h.counted, l);
              successes = ground (arith, h.successes, c, y);
            }))
      | inr z ↦
          rw (z, add_results)
            (add_results-Counted rs _ (record {
              counted = omega (arith, h.counted, l);
              successes = ground (arith, h.successes, c, z);
            }))
    ]

process_batches_keeps :
    (bs : List (Result String (List PaymentResult) × List PaymentInstruction)) (t : Tally)
    → Counted t
    → Counted (process_batches bs t)
unfolding process_batches process_batch
process_batches_keeps [] t h = h
process_batches_keeps ((ok rs, ps) ∷ bs) t h =
    let c = add_results-Counted rs t h in
    process_batches_keeps bs _ (record { counted = c.counted; successes = c.successes })
process_batches_keeps ((err m, ps) ∷ bs) t h =
    let c = add_results-Counted (map (payment_result _) ps) t h in
    process_batches_keeps bs _ (record { counted = c.counted; successes = c.successes })

-- In the server-signed flow every result is counted once, as a success exactly where it says so and
-- otherwise as a failure, so that a payment whose state is unknown counts as a failure.
pub process_batches-Counted :
    (bs : List (Result String (List PaymentResult) × List PaymentInstruction))
    → Counted (process_batches bs untallied)
unfolding count_status
process_batches-Counted bs =
    process_batches_keeps bs untallied (record { counted = refl; successes = refl })
