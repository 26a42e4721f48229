-- ===== src/Service/Tests.antt =====
-- Runs of the service against a Horizon that first finds the sequence number stale, and the theorems
-- at these inputs.
use stellar_batch_pay.Base.{
  ◌+◌, ◌*◌, ◌≡◌, refl, none, some, [], ◌∷◌, ok, ◌==◌, if◌then◌else◌, str_eq, true, false, err, All,
}
use stellar_batch_pay.Types.{PaymentResult, BatchResult, testnet, success, failure}
use stellar_batch_pay.Batcher.{present_memo, effective_memo_type}
use stellar_batch_pay.Batcher.Tests.{per_payment, options, plain, plain_batches, plain_batched}
use stellar_batch_pay.Reconciliation.{
  SubmitError, found, is_bad_sequence_error, is_transport_error, transport_code, transport_message,
  transport_status,
}
use stellar_batch_pay.Service.{
  World, Config, accepted, rejected, Run, Outcome, failed_result, submit_one_with_retry,
  submit_single_batch, submit_batch, build_batch_result, reconciled_status, error_text,
  count_status, submit_batches,
}
use stellar_batch_pay.Service.Runs.{Runs}
use stellar_batch_pay.Service.Returns.{TakesMemo, submit_one_with_retry-Runs}
use stellar_batch_pay.Service.Batches.{Accounts, submit_batch-Accounts, submit_batch_returns}

abbrev pub stale : SubmitError
stale = record {
  message = "Request failed with status code 400";
  code = none;
  status = some 400;
  result_codes = some (record { transaction = some "tx_bad_seq"; operations = [] });
}

abbrev pub world : World
world = record {
  validate_payment_instruction = λ p. if str_eq p.address "B" then some "Invalid address" else none;
  parse_asset = λ a. none;
  parse_stellar_amount = λ a. 10000000;
  format_stellar_amount = λ n. "1.0000000";
  truncate_memo = λ m. m;
  tracking_memo = λ n. "bp";
  check_memo_id = λ m. if str_eq m "x" then err "Expects a uint64" else ok tt;
  batch_id = "batch-1";
  load_account = λ n. ok (70 + n);
  built = λ n. n;
  transaction_hash = λ n. "h";
  submit_transaction = λ n. if n == 0 then rejected stale else accepted (some "h");
  lookup = λ n k. found;
}

abbrev pub config : Config
config = record {
  bad_sequence_retry_limit = 3;
  fee_retry_limit = 3;
  scale_fee = λ fee. fee * 2;
  max_fee = 1000000;
  max_operations_per_transaction = 100;
  network = testnet;
}

abbrev pub paid : PaymentResult
paid = record {
  recipient = "A";
  amount = "1.5";
  asset = "XLM";
  status = success;
  transaction_hash = some "h";
  error = none;
  row_index = some 0;
}

abbrev pub refused : PaymentResult
refused = record {
  recipient = "B";
  amount = "1.5";
  asset = "XLM";
  status = failure;
  transaction_hash = none;
  error = some "Invalid address";
  row_index = some 1;
}

abbrev pub result : BatchResult
result = record {
  batch_id = "batch-1";
  total_recipients = 2;
  total_amount = "1.0000000";
  total_transactions = 1;
  network = testnet;
  results = paid ∷ refused ∷ [];
  summary = record { successful = 1; failed = 1 };
}

abbrev first : Outcome
first = record {
  results =
      record paid { status = failure; error = some "Request failed with status code 400" }
      ∷ refused
      ∷ [];
  submitted = false;
  total_amount = 10000000;
  needs_reload = true;
  error = some stale;
}

abbrev second : Outcome
second = record {
  results = paid ∷ refused ∷ [];
  submitted = true;
  total_amount = 10000000;
  needs_reload = false;
  error = none;
}

abbrev run : Run
run = record {
  outcome = second;
  account = 72;
  attempts =
      record { account = 70; fee = 100; outcome = first }
      ∷ record { account = 71; fee = 100; outcome = second }
      ∷ [];
}

run_by : submit_one_with_retry world config 0 plain 70 100 ≡ ok run
unfolding submit_one_with_retry present_memo effective_memo_type reconciled_status error_text
    failed_result is_bad_sequence_error is_transport_error transport_code transport_message
    transport_status
run_by = refl

single_by : submit_single_batch world config 0 plain 100 ≡ ok result
unfolding submit_single_batch present_memo effective_memo_type build_batch_result count_status
    reconciled_status error_text failed_result is_bad_sequence_error is_transport_error
    transport_code transport_message transport_status
single_by = refl

takes_memos : All (TakesMemo world config) plain
unfolding effective_memo_type
takes_memos = ((λ m e i. cc), ((λ m e i. cc), tt))

submit_one_with_retry-Runs_example :
    (r : Run) × (submit_one_with_retry world config 0 plain 70 100 ≡ ok r)
    × Runs world config plain 0 0 0 100 70 r
submit_one_with_retry-Runs_example =
    submit_one_with_retry-Runs world config 0 plain 70 100 (λ k. (70 + k, refl)) takes_memos

pub batch_by : submit_batch world config per_payment options plain 100 ≡ ok result
unfolding submit_batch present_memo effective_memo_type submit_batches build_batch_result
    count_status reconciled_status error_text failed_result is_bad_sequence_error is_transport_error
    transport_code transport_message transport_status
batch_by = rw (plain_batched, submit_batch) refl

submit_batch-Accounts_example : Accounts world config plain result
submit_batch-Accounts_example =
    submit_batch-Accounts world config per_payment options plain 100 result batch_by

submit_batch_returns_example :
    (r : BatchResult) × (submit_batch world config per_payment options plain 100 ≡ ok r)
    × Accounts world config plain r
submit_batch_returns_example =
    submit_batch_returns world config per_payment options plain 100 plain_batches
      (λ k. (70 + k, refl)) takes_memos plain_batched
