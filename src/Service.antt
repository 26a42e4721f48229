-- ===== src/Service.antt =====
-- lib/stellar/server.ts: payments submitted as transactions that the server signs, with retries after
-- a stale sequence number or a fee that is too low. What the SDK, Horizon and the clock answer, and
-- the checks of lib/stellar/validator.ts and lib/stellar/utils.ts, are the fields of `World`. An amount
-- counts stroops; a fee of NaN is not modelled. A memo goes into the envelope of a transaction, whose hash
-- and answers are `World`'s; what is left of it here is that `Memo.id` may refuse it. The SDK is taken to
-- build an operation from every payment that the validator and `parseAsset` accept.
pub mod Entries
pub mod Attempts
pub mod Runs
pub mod Returns
pub mod Batches
pub mod Tests
use Prim.Native.String
use stellar_batch_pay.Base.{
  ℕ, zero, suc, ◌+◌, min, String, Bool, true, false, not, ◌&&◌, ◌||◌, Option, none, some, List, [],
  ◌∷◌, ◌++◌, map, ltb, leb, if◌then◌else◌, length, str_eq, Result, ok, err, ◌>>=◌,
}
use stellar_batch_pay.Types.{
  PaymentInstruction, PaymentResult, BatchResult, BatchJobNetwork, PaymentStatus, success, failure,
  unknown, id,
}
use stellar_batch_pay.Batcher.{
  Batch, BatchError, SizeOracle, Options, create_batches, present_memo, effective_memo_type,
}
use stellar_batch_pay.Reconciliation.{
  SubmitError, Lookup, is_transport_error, is_bad_sequence_error, is_insufficient_fee_error,
  reconcile_transaction, default_reconciliation_attempts,
}

-- The sequence number of a loaded account.
abbrev pub Account : Type 0
Account = ℕ

-- What `submitTransaction` resolves to, with the hash that it gives, or rejects with.
pub data Submission : Type 0 where
  accepted : Option String → Submission
  rejected : SubmitError → Submission

-- Answers are numbered by the submissions that came before; `tracking_memo` is `bp-<time>-<index>` at
-- the one that it is made for, and `check_memo_id` what `Memo.id` throws.
pub record World : Type 0 where
  pub validate_payment_instruction : PaymentInstruction → Option String
  pub parse_asset : String → Option String
  pub parse_stellar_amount : String → ℕ
  pub format_stellar_amount : ℕ → String
  pub truncate_memo : String → String
  pub tracking_memo : ℕ → String
  pub check_memo_id : String → Result String (Unit {0})
  pub batch_id : String
  pub load_account : ℕ → Result String Account
  pub built : Account → Account
  pub transaction_hash : ℕ → String
  pub submit_transaction : ℕ → Submission
  pub lookup : ℕ → ℕ → Lookup

-- The environment's limits; `scale_fee` is `Math.ceil(fee * FEE_MULTIPLIER)`.
pub record Config : Type 0 where
  pub bad_sequence_retry_limit : ℕ
  pub fee_retry_limit : ℕ
  pub scale_fee : ℕ → ℕ
  pub max_fee : ℕ
  pub max_operations_per_transaction : ℕ
  pub network : BatchJobNetwork

pub data ServiceError : Type 0 where
  unloaded unbuilt : String → ServiceError
  unbatched : BatchError → ServiceError
  out_of_fuel : ServiceError

pub data Memo : Type 0 where
  memo_id memo_text : String → Memo

-- A result, and whether its index stands in `addedResultIndices`.
pub record Placed : Type 0 where
  pub result : PaymentResult
  pub added : Bool

pub record Outcome : Type 0 where
  pub results : List PaymentResult
  pub submitted : Bool
  pub total_amount : ℕ
  pub needs_reload : Bool
  pub error : Option SubmitError

-- A call of `submitOneTransaction`, with the account that it was given.
pub record Attempt : Type 0 where
  pub account : Account
  pub fee : ℕ
  pub outcome : Outcome

pub record Run : Type 0 where
  pub outcome : Outcome
  pub account : Account
  pub attempts : List Attempt

-- `hash || txHash`
abbrev pub hash_or : Option String → String → String
hash_or none h = h
hash_or (some s) h = if str_eq s "" then h else s

pub failed_result : PaymentInstruction → Option String → PaymentResult
failed_result p error = record {
  recipient = p.address;
  amount = p.amount;
  asset = p.asset;
  status = failure;
  transaction_hash = none;
  error = error;
  row_index = p.row_index;
}

abbrev pub results_of : List Placed → List PaymentResult
results_of [] = []
results_of (x ∷ xs) = x.result ∷ results_of xs

abbrev pub any_added : List Placed → Bool
any_added [] = false
any_added (x ∷ xs) = x.added || any_added xs

-- `for (const i of addedResultIndices)`
pub mark : (PaymentResult → PaymentResult) → List Placed → List PaymentResult
mark f [] = []
mark f (x ∷ xs) = (if x.added then f x.result else x.result) ∷ mark f xs

unfoldable pub count_status : (PaymentStatus → Bool) → List PaymentResult → ℕ
count_status test [] = 0
count_status test (r ∷ rs) = (if test r.status then 1 else 0) + count_status test rs

abbrev pub is_success : PaymentStatus → Bool
is_success success = true
is_success _ = false

abbrev pub is_failure : PaymentStatus → Bool
is_failure failure = true
is_failure _ = false

abbrev pub is_unknown : PaymentStatus → Bool
is_unknown unknown = true
is_unknown _ = false

-- `batchPayments.find((p) => p.memo)`
pub first_memo : List PaymentInstruction → Option (String × PaymentInstruction)
first_memo [] = none
first_memo (p ∷ ps) =
    let rest = first_memo ps in elim (present_memo p.memo) [ none ↦ rest | some m ↦ some (m, p) ]

module _ (world : World) (config : Config) where
  pub build_batch_memo : List PaymentInstruction → ℕ → Result ServiceError Memo
  unfolding first_memo
  build_batch_memo ps n = elim (first_memo ps) [
    | none ↦ ok (memo_text (world.truncate_memo (world.tracking_memo n)))
    | some (m, p) ↦ elim (effective_memo_type p.memo_type) [
      | id ↦ elim (world.check_memo_id m) [ err e ↦ err (unbuilt e) | ok u ↦ ok (memo_id m) ]
      | _ ↦ ok (memo_text (world.truncate_memo m))
    ]
  ]

  -- The body of the loop over the payments of a transaction.
  pub place : PaymentInstruction → Placed
  unfolding failed_result
  place p = elim (world.validate_payment_instruction p) [
    | some e ↦ record { result = failed_result p (some e); added = false }
    | none ↦ elim (world.parse_asset p.asset) [
      | some e ↦ record { result = failed_result p (some e); added = false }
      | none ↦ record { result = failed_result p none; added = true }
    ]
  ]

  pub total_added : List PaymentInstruction → ℕ
  unfolding place
  total_added [] = 0
  total_added (p ∷ ps) =
      (if (place p).added then world.parse_stellar_amount p.amount else 0) + total_added ps

  -- The status of a rejected submission, after the lookups where its answer was lost.
  pub reconciled_status : ℕ → SubmitError → PaymentStatus
  reconciled_status n e =
      if is_transport_error e
      then (reconcile_transaction (world.lookup n) default_reconciliation_attempts).0.status
      else failure

  pub error_text : PaymentStatus → SubmitError → String
  error_text unknown e = String.◌++◌ "UNRECONCILED_SUBMISSION_ERROR: " e.message
  error_text _ e = e.message

  -- What follows the submission: the outcome, and the account's sequence number.
  pub settle : ℕ → List PaymentInstruction → Account → Outcome × Account
  unfolding mark reconciled_status error_text total_added place
  settle n ps account =
      let placed = map place ps in
      let hash = world.transaction_hash n in
      elim (world.submit_transaction n) [
        | accepted h ↦ (
          record {
            results =
                mark (λ r. record r { status = success; transaction_hash = some (hash_or h hash) })
                  placed;
            submitted = true;
            total_amount = total_added ps;
            needs_reload = false;
            error = none;
          },
          suc (world.built account),
        )
        | rejected e ↦
            let status = reconciled_status n e in
            (
              record {
                results =
                    mark
                      (λ r. record r {
                        status = status;
                        transaction_hash = some hash;
                        error = some (error_text status e);
                      })
                      placed;
                submitted = is_success status;
                total_amount = total_added ps;
                needs_reload = not (is_success status) && is_bad_sequence_error e;
                error = some e;
              },
              (if is_success status then suc (world.built account) else world.built account),
            )
      ]

  -- `submitOneTransaction` after the builder has its memo.
  pub submit_built : ℕ → List PaymentInstruction → Account → Outcome × Account
  unfolding settle
  submit_built n ps account = if any_added (map place ps) then settle n ps account else (
    record {
      results = results_of (map place ps);
      submitted = false;
      total_amount = total_added ps;
      needs_reload = false;
      error = none;
    },
    account,
  )

  pub submit_one_transaction :
      ℕ → List PaymentInstruction → Account → Result ServiceError (Outcome × Account)
  unfolding build_batch_memo submit_built
  submit_one_transaction n ps account = elim (build_batch_memo ps n) [
    | err e ↦ err e
    | ok memo ↦ ok (submit_built n ps account)
  ]

  -- `!outcome.submitted && outcome.error && isInsufficientFeeError(outcome.error)`
  pub fee_rejected : Outcome → Bool
  fee_rejected o =
      not o.submitted && (elim o.error [ none ↦ false | some e ↦ is_insufficient_fee_error e ])

  pub next_fee : ℕ → ℕ
  next_fee fee = min (config.scale_fee fee) config.max_fee

  abbrev pub after : Attempt → Run → Run
  after a run = record run { attempts = a ∷ run.attempts }

  -- The loop from the submission `n` on, with the retries made so far.
  pub retry_from : ℕ → ℕ → List PaymentInstruction → ℕ → ℕ → ℕ → Account → Result ServiceError Run
  unfolding submit_one_transaction fee_rejected next_fee
  retry_from zero n ps bad_seq_retries fee_retries fee account = err out_of_fuel
  retry_from (suc fuel) n ps bad_seq_retries fee_retries fee account =
      elim (submit_one_transaction n ps account) [
        | err e ↦ err e
        | ok (outcome, account') ↦
            let attempt : Attempt = record { account = account; fee = fee; outcome = outcome } in
            let reloaded : Result ServiceError Run = elim (world.load_account (n + 1)) [
              | err e ↦ err (unloaded e)
              | ok fresh ↦ retry_from fuel (n + 1) ps (bad_seq_retries + 1) fee_retries fee fresh
            ] in
            let raised : Result ServiceError Run =
              retry_from fuel (n + 1) ps bad_seq_retries (fee_retries + 1) (next_fee fee)
                account' in
            if outcome.needs_reload && ltb bad_seq_retries config.bad_sequence_retry_limit
            then (do run ← reloaded; ok (after attempt run))
            else if fee_rejected outcome
                && ltb fee_retries config.fee_retry_limit
                && ltb fee (next_fee fee)
            then (do run ← raised; ok (after attempt run))
            else ok (record { outcome = outcome; account = account'; attempts = attempt ∷ [] })
      ]

  pub submit_one_with_retry : ℕ → List PaymentInstruction → Account → ℕ → Result ServiceError Run
  unfolding retry_from
  submit_one_with_retry n ps account fee =
      retry_from (config.bad_sequence_retry_limit + config.fee_retry_limit + 1) n ps 0 0
        (if leb fee 0 then 100 else fee) account

  pub build_batch_result : ℕ → List PaymentResult → ℕ → ℕ → BatchResult
  unfolding count_status
  build_batch_result count results tx_count total = record {
    batch_id = world.batch_id;
    total_recipients = count;
    total_amount = world.format_stellar_amount total;
    total_transactions = tx_count;
    network = config.network;
    results = results;
    summary = record {
      successful = count_status is_success results;
      failed = count_status is_failure results;
    };
  }

  pub submit_single_batch : ℕ → List PaymentInstruction → ℕ → Result ServiceError BatchResult
  unfolding submit_one_with_retry build_batch_result
  submit_single_batch n ps fee = elim (world.load_account n) [
    | err e ↦ err (unloaded e)
    | ok account ↦ do
      run ← submit_one_with_retry n ps account fee
      ok (
          build_batch_result (length ps) run.outcome.results
            (if run.outcome.submitted then 1 else 0) run.outcome.total_amount)
  ]

  -- The loop over the batches: the results, the number of transactions and the total from here on.
  pub submit_batches :
      ℕ → List Batch → Account → ℕ → Result ServiceError (List PaymentResult × (ℕ × ℕ))
  unfolding submit_one_with_retry
  submit_batches n [] account fee = ok ([], (0, 0))
  submit_batches n (b ∷ bs) account fee = do
    run ← submit_one_with_retry n b.payments account fee
    (results, (count, total)) ← submit_batches (n + length run.attempts) bs run.account fee
    ok (
      run.outcome.results ++ results,
      ((if run.outcome.submitted then 1 else 0) + count, run.outcome.total_amount + total),
    )

  -- `oracle` and `options` are those of `createBatches`.
  pub submit_batch :
      SizeOracle → Options → List PaymentInstruction → ℕ → Result ServiceError BatchResult
  unfolding submit_batches build_batch_result
  submit_batch oracle options ps fee = elim (world.load_account 0) [
    | err e ↦ err (unloaded e)
    | ok account ↦ elim (create_batches oracle config.max_operations_per_transaction options ps) [
      | err e ↦ err (unbatched e)
      | ok batches ↦ do
        (results, (count, total)) ← submit_batches 0 batches account fee
        ok (build_batch_result (length ps) results count total)
    ]
  ]
