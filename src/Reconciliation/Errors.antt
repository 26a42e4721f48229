-- ===== src/Reconciliation/Errors.antt =====
-- Which next step an error of a submission leads to.
use stellar_batch_pay.Base.{
  ◌≡◌, ◌↔◌, ◌⊎◌, inl, inr, String, true, Option, none, some, arith, str_eq_iff, Option-cases,
}
use stellar_batch_pay.Reconciliation.{
  SubmitError, is_text, transaction_code, classify_submit_error, rebuild, increase_fee, retry,
  is_bad_sequence_error, is_insufficient_fee_error,
}

is_text_iff : (o : Option String) (s : String) → (is_text o s ≡ true) ↔ (o ≡ some s)
is_text_iff none s = (λ e. cc, λ e. cc)
is_text_iff (some t) s = (λ e. ground (arith, str_eq_iff t s), λ e. ground (arith, str_eq_iff t s))

bad_sequence_iff :
    (e : SubmitError) → (is_bad_sequence_error e ≡ true) ↔ (transaction_code e ≡ some "tx_bad_seq")
unfolding is_bad_sequence_error
bad_sequence_iff e = is_text_iff (transaction_code e) "tx_bad_seq"

-- An error is answered with "rebuild" exactly where the transaction's code is a bad sequence number,
-- with "increase fee" exactly where it is one of the two codes of a fee that is too low, and with
-- "retry" exactly where Horizon gave no result codes.
pub classify_submit_error_iff :
    (e : SubmitError)
    → (((classify_submit_error e).action ≡ rebuild) ↔ (transaction_code e ≡ some "tx_bad_seq"))
      × (((classify_submit_error e).action ≡ increase_fee) ↔ (
          (transaction_code e ≡ some "tx_insufficient_fee")
          ⊎ (transaction_code e ≡ some "tx_fee_bump_inner_failed")))
      × (((classify_submit_error e).action ≡ retry) ↔ (e.result_codes ≡ none))
unfolding classify_submit_error is_bad_sequence_error is_insufficient_fee_error
classify_submit_error_iff e =
    let b = is_text_iff (transaction_code e) "tx_bad_seq" in
    let f = is_text_iff (transaction_code e) "tx_insufficient_fee" in
    let g = is_text_iff (transaction_code e) "tx_fee_bump_inner_failed" in
    elim (Option-cases e.result_codes) [
      | inl n ↦ (
        (λ a. ground (arith, n, a), λ a. ground (arith, n, a)),
        (λ a. ground (arith, n, a), λ a. ground (arith, n, a)),
        (λ a. n, λ a. ground (arith, n, a)),
      )
      | inr (codes, c) ↦ (
        (λ a. ground (arith, c, a, b, f, g), λ a. ground (arith, c, a, b, f, g)),
        (λ a. ground (arith, c, a, b, f, g), λ a. ground (arith, c, a, b, f, g)),
        (λ a. ground (arith, c, a, b, f, g), λ a. ground (arith, c, a, b, f, g)),
      )
    ]
