-- ===== src/Retry.antt =====
-- app/api/batch-retry/route.ts: the choice of the payments that a retry sends again. The checks of the
-- request, the wallet and the job's signing account come before it and are not modelled; the job of the
-- retry is stored by `createIdempotentJob`.
pub mod Selection
pub mod Own
mod Tests
use stellar_batch_pay.Base.{
  ℕ, suc, ◌-◌, String, Bool, true, false, ◌&&◌, ◌||◌, Option, none, some, List, [], ◌∷◌, ltb, ◌==◌,
  if◌then◌else◌, is_empty, str_eq, starts_with, Result, ok, err,
}
use stellar_batch_pay.Types.{PaymentInstruction, PaymentResult}
use stellar_batch_pay.Service.{is_failure, is_unknown}

pub data RetryError : Type 0 where
  pending_reconciliation no_failed_payments no_payment_metadata unmapped_results : RetryError

-- `r.status === "unknown" || r.error?.startsWith("UNRECONCILED_SUBMISSION_ERROR")`
pub is_unreconciled : PaymentResult → Bool
is_unreconciled r =
    is_unknown r.status
    || (elim r.error [ none ↦ false | some e ↦ starts_with e "UNRECONCILED_SUBMISSION_ERROR" ])

pub has_unreconciled_rows : List PaymentResult → Bool
unfolding is_unreconciled
has_unreconciled_rows [] = false
has_unreconciled_rows (r ∷ rs) = is_unreconciled r || has_unreconciled_rows rs

pub failed_results : List PaymentResult → List PaymentResult
failed_results [] = []
failed_results (r ∷ rs) =
    let rest = failed_results rs in if is_failure r.status then r ∷ rest else rest

-- `failedByRowIndex.has(rowIndex)`
pub has_row : ℕ → List PaymentResult → Bool
has_row i [] = false
has_row i (r ∷ rs) = (elim r.row_index [ none ↦ false | some j ↦ i == j ]) || has_row i rs

-- The text of `JSON.stringify` of a payment's address, amount and asset stands for the three.
pub record Key : Type 0 where
  pub address : String
  pub amount : String
  pub asset : String

abbrev pub key_eq : Key → Key → Bool
key_eq k l = str_eq k.address l.address && str_eq k.amount l.amount && str_eq k.asset l.asset

pub payment_key : PaymentInstruction → Key
payment_key p = record { address = p.address; amount = p.amount; asset = p.asset }

pub result_key : PaymentResult → Key
result_key r = record { address = r.recipient; amount = r.amount; asset = r.asset }

-- `failedPaymentsMap.get(key) ?? 0`, after all results without a row are counted.
pub failed_count : Key → List PaymentResult → ℕ
unfolding result_key
failed_count k [] = 0
failed_count k (r ∷ rs) =
    let rest = failed_count k rs in
    elim r.row_index [ some j ↦ rest | none ↦ if key_eq (result_key r) k then suc rest else rest ]

-- The map as a function, and `failedPaymentsMap.set(key, count - 1)`.
pub taken : Key → (Key → ℕ) → Key → ℕ
taken k counts l = if key_eq k l then counts l - 1 else counts l

-- The filter over the job's payments.
pub select_payments :
    List PaymentResult → (Key → ℕ) → List PaymentInstruction → List PaymentInstruction
unfolding has_row taken payment_key
select_payments failed counts [] = []
select_payments failed counts (p ∷ ps) =
    let k = payment_key p in
    let others = select_payments failed counts ps in
    let after = select_payments failed (taken k counts) ps in
    elim p.row_index [
      | some i ↦ if has_row i failed then p ∷ others else others
      | none ↦ if ltb 0 (counts k) then p ∷ after else others
    ]

pub failed_payments : List PaymentResult → List PaymentInstruction → List PaymentInstruction
unfolding select_payments failed_count
failed_payments failed ps = select_payments failed (λ k. failed_count k failed) ps

-- The steps from the job's results to the payments of the retry.
pub retry_payments :
    List PaymentResult → List PaymentInstruction → Result RetryError (List PaymentInstruction)
unfolding has_unreconciled_rows failed_results failed_payments
retry_payments results ps =
    let failed = failed_results results in
    let chosen = failed_payments failed ps in
    if has_unreconciled_rows results
    then err pending_reconciliation
    else if is_empty failed
    then err no_failed_payments
    else if is_empty ps
    then err no_payment_metadata
    else if is_empty chosen
    then err unmapped_results
    else ok chosen
