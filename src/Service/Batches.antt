-- ===== src/Service/Batches.antt =====
-- The batches of a submission, and its result.
use stellar_batch_pay.Base.{
  ℕ, zero, suc, ◌+◌, ◌≡◌, refl, subst, sym, ◌∙◌, ap, inl, inr, List, [], ◌∷◌, ◌++◌, if◌then◌else◌,
  arith, length, Result-cases, ok, chain_returned, ok-injective, All, All-split,
}
use stellar_batch_pay.Types.{PaymentInstruction, PaymentResult, BatchResult}
use stellar_batch_pay.Batcher.{Batch, SizeOracle, Options, create_batches}
use stellar_batch_pay.Batcher.Partition.{all_payments, create_batches-all_payments}
use stellar_batch_pay.Service.{
  World, Config, Account, Run, is_unknown, count_status, retry_from, submit_one_with_retry,
  build_batch_result, submit_single_batch, submit_batches, submit_batch,
}
use stellar_batch_pay.Service.Entries.{
  count_all, Each, each_none, each_more, Each-append, Each-map, Names, Reports,
  submit_built-Reports,
}
use stellar_batch_pay.Service.Attempts.{returned, at_once, reloaded, raised, no_fuel}
use stellar_batch_pay.Service.Returns.{Loads, TakesMemo, submit_one_with_retry-Runs}

Each-length :
    {A B : Type 0} {R : A → B → Type 0} {xs : List A} {ys : List B}
    → Each R xs ys
    → length xs ≡ length ys
Each-length each_none = refl
Each-length (each_more r e) = ap suc (Each-length e)

module _ (world : World) (config : Config) where
  retry_from-Reports :
      (fuel n : ℕ) (ps : List PaymentInstruction) (b f fee : ℕ) (account : Account) (run : Run)
      → retry_from world config fuel n ps b f fee account ≡ ok run
      → Each (Reports world config run.outcome.submitted) ps run.outcome.results
  retry_from-Reports zero n ps b f fee account run h =
      elim (no_fuel world config n ps b f fee account run h) [ ]
  retry_from-Reports (suc fuel) n ps b f fee account run h =
      let P : Run → Type 0 =
        λ r. Each (Reports world config r.outcome.submitted) ps r.outcome.results in
      elim (returned world config fuel n ps b f fee account run h) [
        | at_once (stop, e) ↦ subst P (sym e) (submit_built-Reports world config n ps account)
        | reloaded fresh rest (r, load, l, g, e) ↦
            subst P (sym e) (retry_from-Reports fuel (n + 1) ps (b + 1) f fee fresh rest g)
        | raised rest (r, l, m, g, e) ↦
            subst P (sym e) (retry_from-Reports fuel (n + 1) ps b (f + 1) _ _ rest g)
      ]

  -- The results of a transaction, after its retries, are those of its payments one by one: a payment is
  -- reported as a success exactly where it was added to the transaction and the transaction went
  -- through, and one that failed the validation with that error.
  pub submit_one_with_retry-Reports :
      (n : ℕ) (ps : List PaymentInstruction) (account : Account) (fee : ℕ) (run : Run)
      → submit_one_with_retry world config n ps account fee ≡ ok run
      → Each (Reports world config run.outcome.submitted) ps run.outcome.results
  unfolding submit_one_with_retry
  submit_one_with_retry-Reports n ps account fee run h =
      retry_from-Reports _ n ps 0 0 _ account run h

  submit_batches-Names :
      (n : ℕ) (bs : List Batch) (account : Account) (fee : ℕ) (t : List PaymentResult × (ℕ × ℕ))
      → submit_batches world config n bs account fee ≡ ok t
      → Each Names (all_payments bs) t.0
  unfolding submit_batches
  submit_batches-Names n [] account fee t h =
      subst (λ u. Each Names [] u.0) (ok-injective h) each_none
  submit_batches-Names n (b ∷ bs) account fee t h =
      let (run, e, g) =
        chain_returned (submit_one_with_retry world config n b.payments account fee) _ h in
      let (rest, e', g') =
        chain_returned (submit_batches world config (n + length run.attempts) bs run.account fee) _
          g in
      let first =
        Each-map (λ p r x. x.names)
          (submit_one_with_retry-Reports n b.payments account fee run e) in
      let others = submit_batches-Names (n + length run.attempts) bs run.account fee rest e' in
      subst (λ u. Each Names (b.payments ++ all_payments bs) u.0) (ok-injective g')
        (Each-append first others)

  -- What the result of a submission says: one result for each payment in the given order, and a summary
  -- that leaves out the payments whose state is unknown.
  pub record Accounts (ps : List PaymentInstruction) (r : BatchResult) : Type 0 where
    pub reported : Each Names ps r.results
    pub recipients : r.total_recipients ≡ length ps
    pub summed :
        r.summary.successful + (r.summary.failed + count_status is_unknown r.results) ≡ length ps

  build_batch_result-Accounts :
      (ps : List PaymentInstruction) (results : List PaymentResult) (count total : ℕ)
      → Each Names ps results
      → Accounts ps (build_batch_result world config (length ps) results count total)
  unfolding build_batch_result
  build_batch_result-Accounts ps results count total e = record {
    reported = e;
    recipients = refl;
    summed = count_all results ∙ sym (Each-length e);
  }

  -- A submission of one transaction reports each payment once and in order, and its summary counts all
  -- of them but those whose state is unknown.
  pub submit_single_batch-Accounts :
      (n : ℕ) (ps : List PaymentInstruction) (fee : ℕ) (r : BatchResult)
      → submit_single_batch world config n ps fee ≡ ok r
      → Accounts ps r
  unfolding submit_single_batch
  submit_single_batch-Accounts n ps fee r h = elim (Result-cases (world.load_account n)) [
    | inl (e, l) ↦ ground (arith, h, l)
    | inr (account, l) ↦
        let (run, e, g) =
          chain_returned (submit_one_with_retry world config n ps account fee) _
            (rw (l, submit_single_batch) at h) in
        subst (Accounts ps) (ok-injective g) (
          build_batch_result-Accounts ps run.outcome.results _ _
            (Each-map (λ p x y. y.names) (submit_one_with_retry-Reports n ps account fee run e)))
  ]

  -- A submission split by `createBatches` reports each payment once and in the given order, and its
  -- summary counts all of them but those whose state is unknown.
  pub submit_batch-Accounts :
      (oracle : SizeOracle) (options : Options) (ps : List PaymentInstruction) (fee : ℕ)
      (r : BatchResult)
      → submit_batch world config oracle options ps fee ≡ ok r
      → Accounts ps r
  unfolding submit_batch
  submit_batch-Accounts oracle options ps fee r h = elim (Result-cases (world.load_account 0)) [
    | inl (e, l) ↦ ground (arith, h, l)
    | inr (account, l) ↦
        elim (Result-cases
          (create_batches oracle config.max_operations_per_transaction options ps)) [
            | inl (e, c) ↦ ground (arith, h, l, c)
            | inr (bs, c) ↦
                let (t, e, g) =
                  chain_returned (submit_batches world config 0 bs account fee) _
                    (rw (l, c, submit_batch) at h) in
                subst (Accounts ps) (ok-injective g) (
                  build_batch_result-Accounts ps t.0 _ _ (
                    subst (λ qs. Each Names qs t.0)
                      (create_batches-all_payments oracle config.max_operations_per_transaction
                        options ps bs c)
                      (submit_batches-Names 0 bs account fee t e)))
          ]
  ]

  submit_batches_returns :
      (n : ℕ) (bs : List Batch) (account : Account) (fee : ℕ)
      → Loads world config
      → All (TakesMemo world config) (all_payments bs)
      → (t : List PaymentResult × (ℕ × ℕ)) × (submit_batches world config n bs account fee ≡ ok t)
  unfolding submit_batches
  submit_batches_returns n [] account fee loads takes = (([], (0, 0)), refl)
  submit_batches_returns n (b ∷ bs) account fee loads takes =
      let (now, later) = All-split (TakesMemo world config) b.payments (all_payments bs) takes in
      let (run, e, r) =
        submit_one_with_retry-Runs world config n b.payments account fee loads now in
      let ((results, (count, total)), g) =
        submit_batches_returns (n + length run.attempts) bs run.account fee loads later in
      (
        (
          run.outcome.results ++ results,
          ((if run.outcome.submitted then 1 else 0) + count, run.outcome.total_amount + total),
        ),
        rw (e, g) refl,
      )

  submitted :
      (oracle : SizeOracle) (options : Options) (ps : List PaymentInstruction) (fee : ℕ)
      (bs : List Batch) (account : Account) (t : List PaymentResult × (ℕ × ℕ))
      → world.load_account 0 ≡ ok account
      → create_batches oracle config.max_operations_per_transaction options ps ≡ ok bs
      → submit_batches world config 0 bs account fee ≡ ok t
      → submit_batch world config oracle options ps fee
        ≡ ok (build_batch_result world config (length ps) t.0 t.1.0 t.1.1)
  unfolding submit_batch
  submitted oracle options ps fee bs account t l c e = rw (submit_batch, l, c, e) refl

  -- Where every load of the account answers, `Memo.id` takes the id memos of the payments, and the
  -- payments can be batched, the submission returns, whatever Horizon answers to its transactions, and
  -- reports each payment once and in the given order.
  pub submit_batch_returns :
      (oracle : SizeOracle) (options : Options) (ps : List PaymentInstruction) (fee : ℕ)
      (bs : List Batch)
      → Loads world config
      → All (TakesMemo world config) ps
      → create_batches oracle config.max_operations_per_transaction options ps ≡ ok bs
      → (r : BatchResult) × (submit_batch world config oracle options ps fee ≡ ok r) × Accounts ps r
  submit_batch_returns oracle options ps fee bs loads takes c =
      let (account, l) = loads 0 in
      let same = create_batches-all_payments oracle _ options ps bs c in
      let (t, e) =
        submit_batches_returns 0 bs account fee loads
          (subst (All (TakesMemo world config)) (sym same) takes) in
      let returned = submitted oracle options ps fee bs account t l c e in
      (_, returned, submit_batch-Accounts oracle options ps fee _ returned)
