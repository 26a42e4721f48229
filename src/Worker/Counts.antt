-- ===== src/Worker/Counts.antt =====
-- The counts of a job against its results.
use stellar_batch_pay.Base.{
  All, ℕ, zero, suc, ◌+◌, ◌≤◌, ◌≡◌, refl, sym, ◌∙◌, ap, ◌↔◌, inl, inr, String, Bool, false, Option,
  none, some, List, [], ◌∷◌, ◌++◌, map, if◌then◌else◌, arith, length, Bool-cases, Result-cases,
  length-append,
}
use stellar_batch_pay.Types.{failed, PaymentInstruction, PaymentStatus, success}
use stellar_batch_pay.Reconciliation.{SubmitError}
use stellar_batch_pay.Service.{rejected, is_success, is_failure, is_unknown, hash_or, count_status}
use stellar_batch_pay.Service.Entries.{submission-cases, count_status-append, count_same}
use stellar_batch_pay.Worker.{
  final_status, Envelope, Chain, Tally, Verdict, untallied, batch_payments, recipient_count,
  operation_count, source_mismatch, payment_result, named_result, op_results, report,
  reconciled_status, rejected_verdict, settled, unparseable, mismatch_verdict, process_xdr,
  process_xdrs, process_presigned,
}

module _ (chain : Chain) (public_key : Option String) where
  op_results-length :
      (v : Verdict) (i j left : ℕ) → length (op_results chain public_key v i j left) ≡ left
  unfolding op_results
  op_results-length v i j zero = refl
  op_results-length v i j (suc left) = ap suc (op_results-length v i (j + 1) left)

  op_results-status :
      (v : Verdict) (i j left : ℕ)
      → All (λ r. r.status ≡ v.status) (op_results chain public_key v i j left)
  unfolding op_results named_result
  op_results-status v i j zero = tt
  op_results-status v i j (suc left) = (refl, op_results-status v i (j + 1) left)

  named-length :
      (v : Verdict) (ps : List PaymentInstruction) → length (map (payment_result v) ps) ≡ length ps
  named-length v [] = refl
  named-length v (p ∷ ps) = ap suc (named-length v ps)

  named-status :
      (v : Verdict) (ps : List PaymentInstruction)
      → All (λ r. r.status ≡ v.status) (map (payment_result v) ps)
  unfolding payment_result
  named-status v [] = tt
  named-status v (p ∷ ps) = (refl, named-status v ps)

  report-length :
      (v : Verdict) (i : ℕ) (tx : Envelope) (ps : List PaymentInstruction)
      → length (report chain public_key v i tx ps) ≡ recipient_count tx ps
  unfolding report recipient_count
  report-length v i tx [] = op_results-length v i 0 (operation_count tx [])
  report-length v i tx (p ∷ ps) = named-length v (p ∷ ps)

  report-status :
      (v : Verdict) (i : ℕ) (tx : Envelope) (ps : List PaymentInstruction)
      → All (λ r. r.status ≡ v.status) (report chain public_key v i tx ps)
  unfolding report recipient_count
  report-status v i tx [] = op_results-status v i 0 (operation_count tx [])
  report-status v i tx (p ∷ ps) = named-status v (p ∷ ps)

  report-count :
      (test : PaymentStatus → Bool) (v : Verdict) (i : ℕ) (tx : Envelope)
      (ps : List PaymentInstruction)
      → count_status test (report chain public_key v i tx ps)
        ≡ (if test v.status then recipient_count tx ps else 0)
  report-count test v i tx ps =
      count_same test v.status (report chain public_key v i tx ps) (report-status v i tx ps)
      ∙ ap (λ n. if test v.status then n else 0) (report-length v i tx ps)

  -- No submission is left in an unknown state.
  abbrev pub Reconciles : Type 0
  Reconciles =
      (i : ℕ) (e : SubmitError)
      → chain.submit_transaction i ≡ rejected e
      → is_unknown (reconciled_status chain public_key i e) ≡ false

  -- The counts agree with the results; every payment that is reported as failed is counted as one
  -- where no submission is left in an unknown state.
  pub record Tallied (t : Tally) : Type 0 where
    pub ops : length t.all_results ≡ t.total_ops
    pub successes : count_status is_success t.all_results ≡ t.success_count
    pub failures_seen : t.fail_count ≤ count_status is_failure t.all_results
    pub failures : Reconciles → t.fail_count ≡ count_status is_failure t.all_results

  untallied-Tallied : Tallied untallied
  unfolding count_status
  untallied-Tallied = record {
    ops = refl;
    successes = refl;
    failures_seen = omega arith;
    failures = λ r. refl;
  }

  -- A tally with the results of one more transaction, all of one status.
  added-Tallied :
      (t u : Tally) (v : Verdict) (i : ℕ) (tx : Envelope) (ps : List PaymentInstruction)
      → Tallied t
      → u.all_results ≡ t.all_results ++ report chain public_key v i tx ps
      → u.total_ops ≡ t.total_ops + recipient_count tx ps
      → u.success_count
        ≡ t.success_count + (if is_success v.status then recipient_count tx ps else 0)
      → u.fail_count ≤ t.fail_count + (if is_failure v.status then recipient_count tx ps else 0)
      → (Reconciles
          → u.fail_count
            ≡ t.fail_count + (if is_failure v.status then recipient_count tx ps else 0))
      → Tallied u
  added-Tallied t u v i tx ps h er eo es ef eg =
      let rs = report chain public_key v i tx ps in
      let s = count_status-append is_success t.all_results rs in
      let f = count_status-append is_failure t.all_results rs in
      let rs' = report-count is_success v i tx ps in
      let rf' = report-count is_failure v i tx ps in
      record {
        ops =
            ap length er
            ∙ length-append t.all_results rs
            ∙ omega (arith, h.ops, eo, report-length v i tx ps);
        successes = ap (count_status is_success) er ∙ s ∙ omega (arith, h.successes, rs', es);
        failures_seen =
            let e = ap (count_status is_failure) er ∙ f in
            omega (arith, e, rf', ef, h.failures_seen);
        failures =
            λ r. sym (ap (count_status is_failure) er ∙ f ∙ omega (arith, h.failures r, rf', eg r));
      }

  settled-Tallied :
      (i : ℕ) (tx : Envelope) (ps : List PaymentInstruction) (t u : Tally)
      → Tallied t
      → u ≡ record t { total_ops = t.total_ops + recipient_count tx ps; progress = t.progress + 1 }
      → Tallied (settled chain public_key i tx ps u)
  unfolding settled rejected_verdict
  settled-Tallied i tx ps t u h q = elim (submission-cases (chain.submit_transaction i)) [
    | inl (hash, e) ↦
        added-Tallied t (settled chain public_key i tx ps u)
          (record {
            status = success;
            transaction_hash = some (hash_or hash tx.hash);
            error = none;
          })
          i tx ps h (ground (arith, e, q)) (ground (arith, e, q)) (ground (arith, e, q))
          (ground (arith, e, q)) (λ r. ground (arith, e, q))
    | inr (error, e) ↦
        added-Tallied t (settled chain public_key i tx ps u)
          (rejected_verdict chain public_key i tx error) i tx ps h (ground (arith, e, q))
          (ground (arith, e, q)) (ground (arith, e, q)) (ground (arith, e, q))
          (λ r. ground (arith, e, q, r i error e))
  ]

  unparseable-Tallied :
      (i : ℕ) (m : String) (t u : Tally)
      → Tallied t
      → u.all_results ≡ t.all_results ++ unparseable chain public_key i m ∷ []
      → u.total_ops ≡ t.total_ops + 1
      → u.success_count ≡ t.success_count
      → u.fail_count ≡ t.fail_count + 1
      → Tallied u
  unfolding unparseable named_result count_status
  unparseable-Tallied i m t u h er eo es ef =
      let r = unparseable chain public_key i m in
      let s = count_status-append is_success t.all_results (r ∷ []) in
      let f = count_status-append is_failure t.all_results (r ∷ []) in
      let e = ap (count_status is_failure) er ∙ f in
      record {
        ops = ap length er ∙ length-append t.all_results (r ∷ []) ∙ omega (arith, h.ops, eo);
        successes = ap (count_status is_success) er ∙ s ∙ omega (arith, h.successes, es);
        failures_seen = omega (arith, e, ef, h.failures_seen);
        failures = λ c. omega (arith, e, h.failures c, ef);
      }

  process_xdr-Tallied :
      (i : ℕ) (xdr : String) (payments : List PaymentInstruction) (t : Tally)
      → Tallied t
      → Tallied (process_xdr chain public_key i xdr payments t)
  unfolding process_xdr
  process_xdr-Tallied i xdr payments t h = elim (Result-cases (chain.from_xdr xdr)) [
    | inl (m, e) ↦ rw (e, process_xdr) (unparseable-Tallied i m t _ h refl refl refl refl)
    | inr (tx, e) ↦ elim (Bool-cases (source_mismatch public_key tx)) [
      | inl y ↦
          let ps = batch_payments i payments in
          added-Tallied t (process_xdr chain public_key i xdr payments t)
            (mismatch_verdict chain public_key tx) i tx ps h (ground (arith, e, y))
            (ground (arith, e, y)) (ground (arith, e, y)) (ground (arith, e, y))
            (λ r. ground (arith, e, y))
      | inr z ↦ rw (e, z, process_xdr) (settled-Tallied i tx (batch_payments i payments) t _ h refl)
    ]
  ]

  process_xdrs-Tallied :
      (i : ℕ) (xdrs : List String) (payments : List PaymentInstruction) (t : Tally)
      → Tallied t
      → Tallied (process_xdrs chain public_key i xdrs payments t)
  unfolding process_xdrs
  process_xdrs-Tallied i [] payments t h = h
  process_xdrs-Tallied i (xdr ∷ xdrs) payments t h =
      process_xdrs-Tallied (i + 1) xdrs payments (process_xdr chain public_key i xdr payments t)
        (process_xdr-Tallied i xdr payments t h)

  -- In the tally of a job's pre-signed transactions there is one result for each counted operation, the
  -- successes are the results that say so, and no more failures are counted than are reported; exactly
  -- as many are, where no submission is left in an unknown state.
  pub process_presigned-Tallied :
      (xdrs : List String) (payments : List PaymentInstruction)
      → Tallied (process_presigned chain public_key xdrs payments)
  unfolding process_presigned
  process_presigned-Tallied xdrs payments =
      process_xdrs-Tallied 0 xdrs payments untallied untallied-Tallied

  process_xdr_progress :
      (i : ℕ) (xdr : String) (payments : List PaymentInstruction) (t : Tally)
      → (process_xdr chain public_key i xdr payments t).progress ≡ t.progress + 1
  unfolding process_xdr settled
  process_xdr_progress i xdr payments t = elim (submission-cases (chain.submit_transaction i)) [
    | inl (h, e) ↦ ground (arith, e)
    | inr (error, e) ↦ ground (arith, e)
  ]

  process_xdrs_progress :
      (i : ℕ) (xdrs : List String) (payments : List PaymentInstruction) (t : Tally)
      → (process_xdrs chain public_key i xdrs payments t).progress ≡ t.progress + length xdrs
  unfolding process_xdrs
  process_xdrs_progress i [] payments t = omega arith
  process_xdrs_progress i (xdr ∷ xdrs) payments t = omega (
    arith,
    process_xdrs_progress (i + 1) xdrs payments (process_xdr chain public_key i xdr payments t),
    process_xdr_progress i xdr payments t,
  )

  -- The progress of a job goes up by one for each of its pre-signed transactions, whatever becomes of
  -- them, and the job ends as failed exactly where no result is a success.
  pub process_presigned_done :
      (xdrs : List String) (payments : List PaymentInstruction)
      → (let t = process_presigned chain public_key xdrs payments in
          (t.progress ≡ length xdrs)
          × ((final_status t ≡ failed) ↔ (count_status is_success t.all_results ≡ 0)))
  unfolding process_presigned final_status
  process_presigned_done xdrs payments =
      let p = process_xdrs_progress 0 xdrs payments untallied in
      let s = (process_presigned-Tallied xdrs payments).successes in
      (omega (arith, p), (λ e. ground (arith, s, e), λ e. ground (arith, s, e)))
