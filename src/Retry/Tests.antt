-- ===== src/Retry/Tests.antt =====
-- Runs of the choice of a retry, and the theorems at these inputs.
use stellar_batch_pay.Base.{arith, ◌≡◌, ◌≢◌, min, refl, String, none, some, List, [], ◌∷◌, ok}
use stellar_batch_pay.Types.{PaymentInstruction, PaymentResult, failure, success}
use stellar_batch_pay.Reconciliation.{SubmitError, found}
use stellar_batch_pay.Service.{rejected}
use stellar_batch_pay.Worker.{Chain, process_presigned}
use stellar_batch_pay.Batcher.Tests.{per_payment, options, plain}
use stellar_batch_pay.Service.Tests.{world, config, result, batch_by}
use stellar_batch_pay.Retry.Own.{own_failed, submit_batch_retried}
use stellar_batch_pay.Retry.{
  has_row, Key, has_unreconciled_rows, failed_results, failed_count, failed_payments,
  retry_payments, is_unreconciled, select_payments, payment_key, result_key, taken,
}
use stellar_batch_pay.Retry.Selection.{
  count_key, retry_payments_count, failures, presigned_never_retried,
}

abbrev payment : String → PaymentInstruction
payment address = record {
  address = address;
  amount = "1";
  asset = "XLM";
  memo = none;
  memo_type = none;
  row_index = none;
}

abbrev twice : List PaymentInstruction
twice = payment "GA" ∷ payment "GB" ∷ payment "GA" ∷ []

abbrev failed_one : PaymentResult
failed_one = record {
  recipient = "GA";
  amount = "1";
  asset = "XLM";
  status = failure;
  transaction_hash = none;
  error = some "tx_failed";
  row_index = none;
}

abbrev results : List PaymentResult
results =
    failed_one
    ∷ record failed_one { recipient = "GB"; status = success; error = none }
    ∷ record failed_one { status = success; error = none }
    ∷ []

abbrev key : Key
key = record { address = "GA"; amount = "1"; asset = "XLM" }

retried_twice : retry_payments results twice ≡ ok (payment "GA" ∷ [])
unfolding retry_payments has_unreconciled_rows is_unreconciled failed_results failed_payments
    select_payments failed_count payment_key result_key taken has_row
retried_twice = refl

retry_payments_count_example :
    count_key key (payment "GA" ∷ []) ≡ min (count_key key twice) (failures key results)
retry_payments_count_example =
    retry_payments_count results twice (payment "GA" ∷ []) key (refl, (refl, (refl, tt)))
      retried_twice

abbrev rowed : List PaymentInstruction
rowed =
    record (payment "GA") { row_index = some 0 } ∷ record (payment "GB") { row_index = some 1 } ∷ []

abbrev failed_row : List PaymentResult
failed_row = record failed_one { row_index = some 1 } ∷ []

abbrev bad : SubmitError
bad = record { message = "status code 400"; code = none; status = some 400; result_codes = none }

abbrev chain : Chain
chain = record {
  show = λ n. "0";
  from_xdr = λ x. ok (record { operations = some 2; source = some "GA"; hash = "h" });
  submit_transaction = λ i. rejected bad;
  lookup = λ i k. found;
}

presigned_never_retried_example :
    retry_payments (process_presigned chain none ("AAAA" ∷ []) rowed).all_results rowed ≢ ok rowed
presigned_never_retried_example =
    presigned_never_retried chain none ("AAAA" ∷ []) rowed rowed ((0, refl), ((1, refl), tt))

chosen_by : retry_payments results twice ≡ ok (payment "GA" ∷ [])
unfolding retry_payments has_unreconciled_rows failed_results failed_payments select_payments
    failed_count is_unreconciled payment_key result_key taken
chosen_by = refl

abbrev refused_payment : PaymentInstruction
refused_payment = record {
  address = "B";
  amount = "1.5";
  asset = "XLM";
  memo = some "rent";
  memo_type = none;
  row_index = some 1;
}

refused_chosen : retry_payments result.results plain ≡ ok (refused_payment ∷ [])
unfolding retry_payments has_unreconciled_rows failed_results failed_payments select_payments
    failed_count is_unreconciled payment_key result_key taken has_row
refused_chosen = refl

submit_batch_retried_example : (refused_payment ∷ []) ≡ own_failed plain result.results
submit_batch_retried_example =
    submit_batch_retried world config per_payment options plain 100 result (refused_payment ∷ [])
      batch_by (((λ e. ground (arith, e)), tt), (tt, tt)) ((0, refl), ((1, refl), tt))
      refused_chosen
