-- ===== src/Retry/Selection.antt =====
-- Which payments a retry sends again.
use stellar_batch_pay.Base.{
  ℕ, ◌+◌, ◌&&◌, str_eq, min, ◌≡◌, ◌≢◌, refl, ◌∙◌, ap, inl, inr, String, true, false, Option, none,
  some, List, [], ◌∷◌, if◌then◌else◌, is_empty, arith, str_eq_iff, str_eq_refl, ok, All, Bool-cases,
}
use stellar_batch_pay.Types.{PaymentInstruction, PaymentResult}
use stellar_batch_pay.Service.{is_failure}
use stellar_batch_pay.Worker.{Chain, process_presigned}
use stellar_batch_pay.Worker.Reports.{process_presigned-Rowless}
use stellar_batch_pay.Retry.{
  has_unreconciled_rows, failed_results, has_row, Key, key_eq, payment_key, result_key,
  failed_count, taken, select_payments, failed_payments, retry_payments,
}

key_eq_refl : (k : Key) → key_eq k k ≡ true
key_eq_refl k = ground (arith, str_eq_refl k.address, str_eq_refl k.amount, str_eq_refl k.asset)

key_of_eq : (k l : Key) → key_eq k l ≡ true → k ≡ l
key_of_eq k l e = ground (
  arith,
  str_eq_iff k.address l.address,
  str_eq_iff k.amount l.amount,
  str_eq_iff k.asset l.asset,
)

-- How many of the payments have a key.
pub count_key : Key → List PaymentInstruction → ℕ
count_key k [] = 0
count_key k (p ∷ ps) = (if key_eq (payment_key p) k then 1 else 0) + count_key k ps

select_payments-count :
    (failed : List PaymentResult) (counts : Key → ℕ) (ps : List PaymentInstruction) (k : Key)
    → All (λ p. p.row_index ≡ none) ps
    → count_key k (select_payments failed counts ps) ≡ min (count_key k ps) (counts k)
unfolding select_payments count_key taken
select_payments-count failed counts [] k h = omega arith
select_payments-count failed counts (p ∷ ps) k (n, h) =
    let l = payment_key p in
    elim (Bool-cases (key_eq l k)) [
      | inl e ↦ ground (
        arith,
        n,
        e,
        ap counts (key_of_eq l k e),
        select_payments-count failed counts ps k h,
        select_payments-count failed (taken l counts) ps k h,
      )
      | inr e ↦ ground (
        arith,
        n,
        e,
        select_payments-count failed counts ps k h,
        select_payments-count failed (taken l counts) ps k h,
      )
    ]

-- How many of a job's results are failures of a key without a row.
abbrev pub failures : Key → List PaymentResult → ℕ
failures k [] = 0
failures k (r ∷ rs) =
    (if is_failure r.status
        && (elim r.row_index [ none ↦ true | some i ↦ false ])
        && str_eq r.recipient k.address
        && str_eq r.amount k.amount
        && str_eq r.asset k.asset
      then 1
      else 0)
    + failures k rs

failed_count-failures :
    (k : Key) (rs : List PaymentResult) → failed_count k (failed_results rs) ≡ failures k rs
unfolding failed_count failed_results result_key
failed_count-failures k [] = refl
failed_count-failures k (r ∷ rs) = ground (arith, failed_count-failures k rs)

-- The payments whose row stands in a failed result.
unfoldable pub with_failed_row :
    List PaymentResult → List PaymentInstruction → List PaymentInstruction
with_failed_row failed [] = []
with_failed_row failed (p ∷ ps) =
    let rest = with_failed_row failed ps in
    elim p.row_index [ none ↦ rest | some i ↦ if has_row i failed then p ∷ rest else rest ]

-- A payment carries a row.
abbrev pub Rowed : PaymentInstruction → Type 0
Rowed p = (i : ℕ) × (p.row_index ≡ some i)

select_payments-rows :
    (failed : List PaymentResult) (counts : Key → ℕ) (ps : List PaymentInstruction)
    → All Rowed ps
    → select_payments failed counts ps ≡ with_failed_row failed ps
unfolding select_payments with_failed_row
select_payments-rows failed counts [] h = refl
select_payments-rows failed counts (p ∷ ps) ((i, e), h) =
    ground (arith, e, select_payments-rows failed counts ps h)

-- Of payments that all carry their row, a retry chooses those whose row stands in a failed result, in
-- the job's order.
pub failed_payments_rows :
    (failed : List PaymentResult) (ps : List PaymentInstruction)
    → All Rowed ps
    → failed_payments failed ps ≡ with_failed_row failed ps
unfolding failed_payments
failed_payments_rows failed ps h = select_payments-rows failed (λ l. failed_count l failed) ps h

failed_results-rowless :
    (rs : List PaymentResult)
    → All (λ r. r.row_index ≡ none) rs
    → All (λ r. r.row_index ≡ none) (failed_results rs)
unfolding failed_results
failed_results-rowless [] h = tt
failed_results-rowless (r ∷ rs) (e, h) = elim (Bool-cases (is_failure r.status)) [
  | inl y ↦ rw (y, failed_results) (e, failed_results-rowless rs h)
  | inr z ↦ rw (z, failed_results) (failed_results-rowless rs h)
]

has_row-rowless :
    (i : ℕ) (rs : List PaymentResult) → All (λ r. r.row_index ≡ none) rs → has_row i rs ≡ false
unfolding has_row
has_row-rowless i [] h = refl
has_row-rowless i (r ∷ rs) (e, h) = ground (arith, e, has_row-rowless i rs h)

with_failed_row-rowless :
    (failed : List PaymentResult) (ps : List PaymentInstruction)
    → All (λ r. r.row_index ≡ none) failed
    → All Rowed ps
    → with_failed_row failed ps ≡ []
unfolding with_failed_row
with_failed_row-rowless failed [] h r = refl
with_failed_row-rowless failed (p ∷ ps) h ((i, e), r) =
    ground (arith, e, has_row-rowless i failed h, with_failed_row-rowless failed ps h r)

-- A pre-signed job whose payments all carry their row is never retried, whatever failed in it.
pub presigned_never_retried :
    (chain : Chain) (public_key : Option String) (xdrs : List String) (ps : List PaymentInstruction)
    (chosen : List PaymentInstruction)
    → All Rowed ps
    → retry_payments (process_presigned chain public_key xdrs ps).all_results ps ≢ ok chosen
unfolding retry_payments
presigned_never_retried chain public_key xdrs ps chosen r h =
    let results = (process_presigned chain public_key xdrs ps).all_results in
    let rowless =
      failed_results-rowless results (process_presigned-Rowless chain public_key xdrs ps) in
    let nothing =
      failed_payments_rows (failed_results results) ps r
      ∙ with_failed_row-rowless (failed_results results) ps rowless r in
    ground (arith, h, nothing)

-- A retry that chooses payments has results that all settled, and chooses some payment.
pub retry_payments_ok :
    (results : List PaymentResult) (ps chosen : List PaymentInstruction)
    → retry_payments results ps ≡ ok chosen
    → (has_unreconciled_rows results ≡ false)
      × (chosen ≡ failed_payments (failed_results results) ps)
      × (is_empty chosen ≡ false)
unfolding retry_payments
retry_payments_ok results ps chosen h = (ground (arith, h), ground (arith, h), ground (arith, h))

-- Of payments that carry no row, a retry that goes on sends for each address, amount and asset as many as
-- the job's results without a row that failed for it, or all of them where fewer are there.
pub retry_payments_count :
    (results : List PaymentResult) (ps chosen : List PaymentInstruction) (k : Key)
    → All (λ p. p.row_index ≡ none) ps
    → retry_payments results ps ≡ ok chosen
    → count_key k chosen ≡ min (count_key k ps) (failures k results)
unfolding failed_payments
retry_payments_count results ps chosen k rowless h =
    let failed = failed_results results in
    let (settled, same, some_chosen) = retry_payments_ok results ps chosen h in
    ap (count_key k) same
    ∙ select_payments-count failed (λ l. failed_count l failed) ps k rowless
    ∙ ap (min (count_key k ps)) (failed_count-failures k results)
