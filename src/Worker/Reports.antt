-- ===== src/Worker/Reports.antt =====
-- Which payments a pre-signed transaction's result is reported for.
use stellar_batch_pay.Base.{
  ℕ, zero, suc, ◌+◌, ◌*◌, min, ◌≤◌, ◌≡◌, refl, sym, ◌∙◌, ap, inl, inr, String, false, Option, none,
  some, List, [], ◌∷◌, ◌++◌, map, arith, length, take, drop, All, All-append, append-nil,
  append_assoc, Bool-cases, Result-cases, ok,
}
use stellar_batch_pay.Types.{PaymentInstruction, PaymentResult, success}
use stellar_batch_pay.Service.{accepted, hash_or}
use stellar_batch_pay.Service.Entries.{submission-cases}
use stellar_batch_pay.Worker.{
  Envelope, Chain, Tally, Verdict, max_ops, untallied, payments_per_batch, batch_payments,
  recipient_count, source_mismatch, payment_result, named_result, op_results, report,
  rejected_verdict, settled, unparseable, mismatch_verdict, process_xdr, process_xdrs,
  process_presigned,
}

take_all : (xs : List PaymentInstruction) (n : ℕ) → length xs ≤ n → take n xs ≡ xs
take_all [] zero h = refl
take_all [] (suc n) h = refl
take_all (x ∷ xs) zero h = ground (arith, h)
take_all (x ∷ xs) (suc n) h = ap (λ ys. x ∷ ys) (take_all xs n (omega (arith, h)))

drop_all : (xs : List PaymentInstruction) (n : ℕ) → length xs ≤ n → drop n xs ≡ []
drop_all [] zero h = refl
drop_all [] (suc n) h = refl
drop_all (x ∷ xs) zero h = ground (arith, h)
drop_all (x ∷ xs) (suc n) h = drop_all xs n (omega (arith, h))

take_none : (n : ℕ) → take {A = PaymentInstruction} n [] ≡ []
take_none zero = refl
take_none (suc n) = refl

-- Up to 100 payments all belong to the first transaction, and none to a later one.
pub batch_payments_first :
    (payments : List PaymentInstruction)
    → length payments ≤ max_ops
    → (batch_payments 0 payments ≡ payments) × ((i : ℕ) → batch_payments (suc i) payments ≡ [])
unfolding batch_payments payments_per_batch
batch_payments_first [] h = (refl, λ i. refl)
batch_payments_first (p ∷ payments) h =
    let k = min max_ops (length (p ∷ payments)) in
    let z : 0 * k ≡ 0 = omega arith in
    (
      ap (λ n. take k (drop n (p ∷ payments))) z ∙ take_all (p ∷ payments) k (omega (arith, h)),
      λ i.
          let e : suc i * k ≡ i * k + k = grind arith in
          ap (take k) (drop_all (p ∷ payments) (suc i * k) (omega (arith, h, e))) ∙ take_none k,
    )

module _ (chain : Chain) (public_key : Option String) where
  -- A tally after more transactions: its results begin with those before.
  abbrev pub Extends : Tally → Tally → Type 0
  Extends t u = (rest : List PaymentResult) × (u.all_results ≡ t.all_results ++ rest)

  process_xdr-Extends :
      (i : ℕ) (xdr : String) (payments : List PaymentInstruction) (t : Tally)
      → Extends t (process_xdr chain public_key i xdr payments t)
  unfolding process_xdr settled
  process_xdr-Extends i xdr payments t = elim (Result-cases (chain.from_xdr xdr)) [
    | inl (m, e) ↦ (unparseable chain public_key i m ∷ [], ground (arith, e))
    | inr (tx, e) ↦
        let ps = batch_payments i payments in
        elim (Bool-cases (source_mismatch public_key tx)) [
          | inl y ↦ (
            report chain public_key (mismatch_verdict chain public_key tx) i tx ps,
            ground (arith, e, y),
          )
          | inr z ↦ elim (submission-cases (chain.submit_transaction i)) [
            | inl (h, g) ↦ (
              report chain public_key
                  (record {
                    status = success;
                    transaction_hash = some (hash_or h tx.hash);
                    error = none;
                  })
                  i tx ps,
              ground (arith, e, z, g),
            )
            | inr (error, g) ↦ (
              report chain public_key (rejected_verdict chain public_key i tx error) i tx ps,
              ground (arith, e, z, g),
            )
          ]
        ]
  ]

  process_xdrs-Extends :
      (i : ℕ) (xdrs : List String) (payments : List PaymentInstruction) (t : Tally)
      → Extends t (process_xdrs chain public_key i xdrs payments t)
  unfolding process_xdrs
  process_xdrs-Extends i [] payments t = ([], sym (append-nil t.all_results))
  process_xdrs-Extends i (xdr ∷ xdrs) payments t =
      let (first, e) = process_xdr-Extends i xdr payments t in
      let (rest, g) =
        process_xdrs-Extends (i + 1) xdrs payments
          (process_xdr chain public_key i xdr payments t) in
      (first ++ rest, g ∙ ap (λ rs. rs ++ rest) e ∙ append_assoc t.all_results first rest)

  -- No result of a pre-signed job carries the row of its payment.
  abbrev pub Rowless : List PaymentResult → Type 0
  Rowless rs = All (λ r. r.row_index ≡ none) rs

  op_results-Rowless :
      (v : Verdict) (i j left : ℕ) → Rowless (op_results chain public_key v i j left)
  unfolding op_results named_result
  op_results-Rowless v i j zero = tt
  op_results-Rowless v i j (suc left) = (refl, op_results-Rowless v i (j + 1) left)

  named-Rowless : (v : Verdict) (ps : List PaymentInstruction) → Rowless (map (payment_result v) ps)
  unfolding payment_result
  named-Rowless v [] = tt
  named-Rowless v (p ∷ ps) = (refl, named-Rowless v ps)

  report-Rowless :
      (v : Verdict) (i : ℕ) (tx : Envelope) (ps : List PaymentInstruction)
      → Rowless (report chain public_key v i tx ps)
  unfolding report
  report-Rowless v i tx [] = op_results-Rowless v i 0 (recipient_count tx [])
  report-Rowless v i tx (p ∷ ps) = named-Rowless v (p ∷ ps)

  process_xdr-Rowless :
      (i : ℕ) (xdr : String) (payments : List PaymentInstruction) (t : Tally)
      → Rowless t.all_results
      → Rowless (process_xdr chain public_key i xdr payments t).all_results
  unfolding process_xdr settled unparseable named_result
  process_xdr-Rowless i xdr payments t h = elim (Result-cases (chain.from_xdr xdr)) [
    | inl (m, e) ↦
        rw (e, process_xdr)
          (All-append _ t.all_results (unparseable chain public_key i m ∷ []) h (refl, tt))
    | inr (tx, e) ↦
        let ps = batch_payments i payments in
        elim (Bool-cases (source_mismatch public_key tx)) [
          | inl y ↦
              rw (e, y, process_xdr) (All-append _ t.all_results _ h (report-Rowless _ i tx ps))
          | inr z ↦ elim (submission-cases (chain.submit_transaction i)) [
            | inl (x, g) ↦
                rw (e, z, g, process_xdr, settled)
                  (All-append _ t.all_results _ h (report-Rowless _ i tx ps))
            | inr (error, g) ↦
                rw (e, z, g, process_xdr, settled)
                  (All-append _ t.all_results _ h (report-Rowless _ i tx ps))
          ]
        ]
  ]

  process_xdrs-Rowless :
      (i : ℕ) (xdrs : List String) (payments : List PaymentInstruction) (t : Tally)
      → Rowless t.all_results
      → Rowless (process_xdrs chain public_key i xdrs payments t).all_results
  unfolding process_xdrs
  process_xdrs-Rowless i [] payments t h = h
  process_xdrs-Rowless i (xdr ∷ xdrs) payments t h =
      process_xdrs-Rowless (i + 1) xdrs payments (process_xdr chain public_key i xdr payments t)
        (process_xdr-Rowless i xdr payments t h)

  -- The results of a pre-signed job carry no row.
  pub process_presigned-Rowless :
      (xdrs : List String) (payments : List PaymentInstruction)
      → Rowless (process_presigned chain public_key xdrs payments).all_results
  unfolding process_presigned
  process_presigned-Rowless xdrs payments = process_xdrs-Rowless 0 xdrs payments untallied tt

  -- Where a job has up to 100 payments and one at least, and its first transaction goes through, every
  -- payment is reported as a success with that transaction's hash, whatever the transaction pays and
  -- whatever becomes of the others.
  pub first_transaction_reports :
      (xdr : String) (xdrs : List String) (p : PaymentInstruction)
      (payments : List PaymentInstruction)
      → length (p ∷ payments) ≤ max_ops
      → (tx : Envelope) (h : Option String) → chain.from_xdr xdr ≡ ok tx
      → source_mismatch public_key tx ≡ false
      → chain.submit_transaction 0 ≡ accepted h
      → (rest : List PaymentResult) × ((process_presigned chain public_key
            (xdr ∷ xdrs)
            (p ∷ payments)).all_results
          ≡ map
              (payment_result (record {
                status = success;
                transaction_hash = some (hash_or h tx.hash);
                error = none;
              }))
              (p ∷ payments)
            ++ rest)
  unfolding process_presigned process_xdrs process_xdr settled report
  first_transaction_reports xdr xdrs p payments few tx h e z g =
      let t = process_xdr chain public_key 0 xdr (p ∷ payments) untallied in
      let (rest, x) = process_xdrs-Extends 1 xdrs (p ∷ payments) t in
      let (b, later) = batch_payments_first (p ∷ payments) few in
      let v : Verdict = record {
        status = success;
        transaction_hash = some (hash_or h tx.hash);
        error = none;
      } in
      let r : t.all_results ≡ report chain public_key v 0 tx (batch_payments 0 (p ∷ payments)) =
        ground (arith, e, z, g) in
      (rest, x ∙ ap (λ rs. rs ++ rest) (r ∙ ap (report chain public_key v 0 tx) b))
