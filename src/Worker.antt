-- ===== src/Worker.antt =====
-- lib/stellar/batch-worker.ts: the flow of pre-signed transactions, with the helpers of
-- lib/stellar/xdr-source.ts, and the counts of the server-signed flow. What the SDK and Horizon answer
-- are the fields of `Chain`. The job's row is not written here: `progress` counts the calls of
-- `incrementCompletedBatches`.
pub mod Counts
pub mod Reports
pub mod Signed
pub mod Jobs
pub mod Tests
use Prim.Native.String
use stellar_batch_pay.Base.{
  ℕ, zero, suc, ◌+◌, ◌*◌, min, String, Bool, true, false, not, ◌&&◌, ◌||◌, Option, none, some, List,
  [], ◌∷◌, ◌++◌, map, ltb, leb, if◌then◌else◌, length, is_empty, take, drop, str_eq, Result, ok,
  err,
}
use stellar_batch_pay.Types.{
  PaymentInstruction, PaymentResult, BatchResult, PaymentStatus, JobStatus, success, failure,
  unknown, completed, failed,
}
use stellar_batch_pay.Reconciliation.{
  SubmitError, Lookup, is_transport_error, is_insufficient_fee_error, reconcile_transaction,
  default_reconciliation_attempts,
}
use stellar_batch_pay.Service.{Submission, accepted, rejected, hash_or, is_success, is_unknown}

-- A parsed envelope: the length of its operations, where the SDK gives an array, its source, that of
-- the inner transaction of a fee bump, and its hash.
pub record Envelope : Type 0 where
  pub operations : Option ℕ
  pub source : Option String
  pub hash : String

-- `show` prints a number; an answer is numbered by the transaction's index.
pub record Chain : Type 0 where
  pub show : ℕ → String
  pub from_xdr : String → Result String Envelope
  pub submit_transaction : ℕ → Submission
  pub lookup : ℕ → ℕ → Lookup

pub record Tally : Type 0 where
  pub all_results : List PaymentResult
  pub success_count : ℕ
  pub fail_count : ℕ
  pub total_ops : ℕ
  pub progress : ℕ

abbrev pub max_ops : ℕ
max_ops = 100

abbrev pub untallied : Tally
untallied = record {
  all_results = [];
  success_count = 0;
  fail_count = 0;
  total_ops = 0;
  progress = 0;
}

pub payments_per_batch : List PaymentInstruction → ℕ
payments_per_batch ps = if is_empty ps then 0 else min max_ops (length ps)

-- `payments.slice(i * paymentsPerBatch, …)`
pub batch_payments : ℕ → List PaymentInstruction → List PaymentInstruction
unfolding payments_per_batch
batch_payments i ps =
    if is_empty ps then [] else take (payments_per_batch ps) (drop (i * payments_per_batch ps) ps)

-- `operationCountOf(tx) ?? (batchPayments.length || 1)`, and the count of the recipients.
pub operation_count : Envelope → List PaymentInstruction → ℕ
operation_count tx ps = elim tx.operations [
  | some n ↦ n
  | none ↦ if is_empty ps then 1 else length ps
]

pub recipient_count : Envelope → List PaymentInstruction → ℕ
unfolding operation_count
recipient_count tx ps = if is_empty ps then operation_count tx ps else length ps

-- An empty source is none.
pub get_xdr_source_account : Envelope → Option String
get_xdr_source_account tx = elim tx.source [
  | none ↦ none
  | some s ↦ if str_eq s "" then none else some s
]

-- `job.publicKey` and a source that differs from it.
pub source_mismatch : Option String → Envelope → Bool
unfolding get_xdr_source_account
source_mismatch none tx = false
source_mismatch (some key) tx =
    not (str_eq key "")
    && (elim (get_xdr_source_account tx) [ none ↦ false | some s ↦ not (str_eq s key) ])

-- What the results of one transaction share.
pub record Verdict : Type 0 where
  pub status : PaymentStatus
  pub transaction_hash : Option String
  pub error : Option String

pub payment_result : Verdict → PaymentInstruction → PaymentResult
payment_result v p = record {
  recipient = p.address;
  amount = p.amount;
  asset = p.asset;
  status = v.status;
  transaction_hash = v.transaction_hash;
  error = v.error;
  row_index = none;
}

pub named_result : Verdict → String → PaymentResult
named_result v name = record {
  recipient = name;
  amount = "0";
  asset = "XLM";
  status = v.status;
  transaction_hash = v.transaction_hash;
  error = v.error;
  row_index = none;
}

module _ (chain : Chain) (public_key : Option String) where
  pub tx_name : ℕ → String
  tx_name i = String.◌++◌ "tx-" (chain.show i)

  pub op_name : ℕ → ℕ → String
  unfolding tx_name
  op_name i j = String.◌++◌ (tx_name i) (String.◌++◌ "-op-" (chain.show j))

  -- `for (let j = 0; j < recipientCount; j++)`, for `left` operations from `j` on.
  pub op_results : Verdict → ℕ → ℕ → ℕ → List PaymentResult
  unfolding named_result op_name
  op_results v i j zero = []
  op_results v i j (suc left) = named_result v (op_name i j) ∷ op_results v i (j + 1) left

  pub report : Verdict → ℕ → Envelope → List PaymentInstruction → List PaymentResult
  unfolding payment_result op_results
  report v i tx ps =
      if is_empty ps then op_results v i 0 (recipient_count tx ps) else map (payment_result v) ps

  pub reconciled_status : ℕ → SubmitError → PaymentStatus
  reconciled_status i e =
      if is_transport_error e
      then (reconcile_transaction (chain.lookup i) default_reconciliation_attempts).0.status
      else failure

  pub error_text : PaymentStatus → SubmitError → String
  error_text unknown e = String.◌++◌ "UNRECONCILED_SUBMISSION_ERROR: " e.message
  error_text _ e = if is_insufficient_fee_error e then "INSUFFICIENT_FEE" else e.message

  -- The verdict after a submission that was rejected. A status that stays unknown is reported as failed.
  pub rejected_verdict : ℕ → Envelope → SubmitError → Verdict
  unfolding reconciled_status error_text
  rejected_verdict i tx e =
      let status = reconciled_status i e in
      if is_success status
      then record { status = success; transaction_hash = some tx.hash; error = none }
      else record {
        status = failure;
        transaction_hash = some tx.hash;
        error = some (error_text status e);
      }

  pub settled : ℕ → Envelope → List PaymentInstruction → Tally → Tally
  unfolding report rejected_verdict recipient_count
  settled i tx ps t =
      let count = recipient_count tx ps in
      elim (chain.submit_transaction i) [
        | accepted h ↦ record t {
          success_count = t.success_count + count;
          all_results =
              t.all_results
              ++ report
                  (record {
                    status = success;
                    transaction_hash = some (hash_or h tx.hash);
                    error = none;
                  })
                  i tx ps;
        }
        | rejected e ↦
            let status = reconciled_status i e in
            record t {
              success_count =
                  if is_success status then t.success_count + count else t.success_count;
              fail_count =
                  if is_success status || is_unknown status
                  then t.fail_count
                  else t.fail_count + count;
              all_results = t.all_results ++ report (rejected_verdict i tx e) i tx ps;
            }
      ]

  -- The result of an envelope that does not parse, and of one from another account.
  pub unparseable : ℕ → String → PaymentResult
  unfolding named_result tx_name
  unparseable i m =
      named_result (record { status = failure; transaction_hash = none; error = some m })
        (tx_name i)

  pub mismatch_verdict : Envelope → Verdict
  mismatch_verdict tx = record {
    status = failure;
    transaction_hash = none;
    error = some (
        String.◌++◌ "Transaction source account " (
          String.◌++◌ (elim (get_xdr_source_account tx) [ none ↦ "" | some s ↦ s ])
            (String.◌++◌ " does not match job publicKey "
              (elim public_key [ none ↦ "" | some key ↦ key ]))));
  }

  -- One round of the loop: the transaction `i`, and the payments of the job.
  pub process_xdr : ℕ → String → List PaymentInstruction → Tally → Tally
  unfolding settled unparseable mismatch_verdict batch_payments source_mismatch
  process_xdr i xdr payments t =
      let ps = batch_payments i payments in
      elim (chain.from_xdr xdr) [
        | err m ↦ record t {
          fail_count = t.fail_count + 1;
          total_ops = t.total_ops + 1;
          all_results = t.all_results ++ unparseable i m ∷ [];
          progress = t.progress + 1;
        }
        | ok tx ↦
            let count = recipient_count tx ps in
            let counted = record t { total_ops = t.total_ops + count; progress = t.progress + 1 } in
            if source_mismatch public_key tx
            then record counted {
              all_results = t.all_results ++ report (mismatch_verdict tx) i tx ps;
              fail_count = t.fail_count + count;
            }
            else settled i tx ps counted
      ]

  pub process_xdrs : ℕ → List String → List PaymentInstruction → Tally → Tally
  unfolding process_xdr
  process_xdrs i [] payments t = t
  process_xdrs i (xdr ∷ xdrs) payments t =
      process_xdrs (i + 1) xdrs payments (process_xdr i xdr payments t)

  -- The tally of a job's transactions.
  pub process_presigned : List String → List PaymentInstruction → Tally
  unfolding process_xdrs
  process_presigned xdrs payments = process_xdrs 0 xdrs payments untallied

-- `successCount > 0 ? "completed" : "failed"`, and `totalRecipients`.
pub final_status : Tally → JobStatus
final_status t = if ltb 0 t.success_count then completed else failed

pub total_recipients : List PaymentInstruction → Tally → ℕ
total_recipients payments t = if is_empty payments then t.total_ops else length payments

-- The server-signed flow. A batch's answer is the service's results, or the message of what it threw.
pub add_results : List PaymentResult → Tally → Tally
add_results [] t = t
add_results (r ∷ rs) t = add_results rs (
    if is_success r.status
    then record t { all_results = t.all_results ++ r ∷ []; success_count = t.success_count + 1 }
    else record t { all_results = t.all_results ++ r ∷ []; fail_count = t.fail_count + 1 })

pub process_batch : Result String (List PaymentResult) → List PaymentInstruction → Tally → Tally
unfolding add_results payment_result
process_batch (ok rs) ps t = record (add_results rs t) { progress = t.progress + 1 }
process_batch (err m) ps t =
    record (add_results
      (map (payment_result (record { status = failure; transaction_hash = none; error = some m }))
        ps)
      t) { progress = t.progress + 1 }

pub process_batches :
    List (Result String (List PaymentResult) × List PaymentInstruction) → Tally → Tally
unfolding process_batch
process_batches [] t = t
process_batches ((answer, ps) ∷ bs) t = process_batches bs (process_batch answer ps t)
