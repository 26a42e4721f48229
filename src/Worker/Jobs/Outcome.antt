-- ===== src/Worker/Jobs/Outcome.antt =====
-- lib/stellar/batch-worker.ts: what a run of the worker leaves in the job store.
use stellar_batch_pay.Base.{
  ℕ, ◌+◌, ◌≤◌, ◌≡◌, refl, subst, String, none, some, Option, List, [], ◌∷◌, arith, ok, length, true,
  false, is_empty, ◌∙◌, ◌≢◌, map, str_eq_iff,
}
use stellar_batch_pay.Types.{BatchResult, PaymentInstruction}
use stellar_batch_pay.Batcher.{Batch, create_batches}
use stellar_batch_pay.JobStore.{
  JobRow, JobPatch, Store, find_job, claim_job_for_processing, claimable,
}
use stellar_batch_pay.JobStore.Progress.{
  LeavesJob, Holds, patch_row, get_job_any, claim-Holds, claim_row,
}
use stellar_batch_pay.Worker.{
  Chain, Tally, untallied, process_xdr, process_xdrs, process_presigned, final_status,
  total_recipients, process_batch, max_ops,
}
use stellar_batch_pay.Worker.Jobs.{
  Surroundings, Task, reading, claiming, tried, presigned_awaited, started, presigned_flow,
  presigned_patch, presigned_total, work, caught, process_job, recovered_xdrs, recovered_payments,
  final_result, signed_flow, signed_patch, answer,
}
use stellar_batch_pay.Worker.Jobs.Finish.{steps, IsCalm, IsAdvanced, flow-Holds}

steps-process_xdrs :
    (chain : Chain) (key : Option String) (payments : List PaymentInstruction) (i : ℕ)
    (xdrs : List String) (t : Tally)
    → steps (λ i xdr t. process_xdr chain key i xdr payments t) i xdrs t
      ≡ process_xdrs chain key i xdrs payments t
unfolding process_xdrs
steps-process_xdrs chain key payments i [] t = refl
steps-process_xdrs chain key payments i (xdr ∷ xdrs) t =
    steps-process_xdrs chain key payments (i + 1) xdrs (process_xdr chain key i xdr payments t)

-- The row of a job that ended with `n` batches and the tally `t`.
pub record IsEnded (n : ℕ) (t : Tally) (res : BatchResult) (r : JobRow) : Type 0 where
  pub total : r.total_batches ≡ n
  pub batches : r.completed_batches ≡ n
  pub status : r.status ≡ final_status t
  pub result : r.result ≡ some res

patch-IsEnded :
    (n now now' : ℕ) (t : Tally) (res : BatchResult) (p : JobPatch) (r r' : JobRow)
    → p.total_batches ≡ none
    → p.completed_batches ≡ none
    → p.status ≡ some (final_status t)
    → p.result ≡ some res
    → IsAdvanced n (patch_row now (started n) r) r'
    → IsEnded n t res (patch_row now' p r')
patch-IsEnded n now now' t res p r r' e1 e2 e3 e4 a = record {
  total = ground (arith, a.total);
  batches = ground (arith, a.batches);
  status = ground arith;
  result = ground arith;
}

module _ (around : Surroundings) (task : Task)
    (quiet : (i left : ℕ) → LeavesJob task.job_id (around.others i left)) where
  -- The claim, before the work.
  pub process_job_claimed :
      (s s1 : Store) (job : JobRow)
      → find_job task.job_id s.jobs ≡ some job
      → around.busy reading ≡ false
      → around.busy claiming ≡ false
      → claim_job_for_processing around.lease_ms (around.clock 0) task.job_id s ≡ (true, s1)
      → process_job around task s ≡ caught around task (work around task job s1)
  unfolding process_job tried
  process_job_claimed s s1 job e free free' c =
      let found = get_job_any task.job_id s job e in ground arith

  presigned-IsEnded :
      (s : Store) (job r : JobRow) (amount : String)
      → is_empty (recovered_xdrs task job) ≡ false
      → presigned_total around task (recovered_payments task job) ≡ ok amount
      → IsCalm around task quiet (length (recovered_xdrs task job))
      → around.locked 1 ≤ 1
      → around.locked (length (recovered_xdrs task job) + 2) ≤ 1
      → Holds task.job_id r s
      → let xdrs = recovered_xdrs task job in
        let payments = recovered_payments task job in
        let t = process_presigned around.chain job.public_key xdrs payments in
        (s' : Store) × (r' : JobRow) × (caught around task (work around task job s) ≡ (ok tt, s'))
        × Holds task.job_id r' s'
        × IsEnded
            (length xdrs)
            t
            (final_result around task around.batch_id
              (total_recipients payments t)
              amount
              (length xdrs)
              t)
            r'
  unfolding work caught presigned_flow presigned_patch process_presigned
  presigned-IsEnded s job r amount some_xdrs e calm few few' h =
      let xdrs = recovered_xdrs task job in
      let payments = recovered_payments task job in
      let (s', r', f, h', a) =
        flow-Holds around task quiet (ok tt) (presigned_awaited around task job.public_key)
          (λ i xdr t. process_xdr around.chain job.public_key i xdr payments t) xdrs
          (presigned_total around task payments) amount
          (λ total t. presigned_patch around task total (length xdrs) payments t) s r refl e calm
          few few' h in
      let t =
        steps (λ i xdr t. process_xdr around.chain job.public_key i xdr payments t) 0 xdrs
          untallied in
      let tally : t ≡ process_presigned around.chain job.public_key xdrs payments =
        steps-process_xdrs around.chain job.public_key payments 0 xdrs untallied in
      let patch = presigned_patch around task amount (length xdrs) payments t in
      (
        s',
        patch_row (around.clock (length xdrs + 2)) patch r',
        ground (arith, some_xdrs, f),
        h',
        subst
            (λ u.
              IsEnded (length xdrs) u
                (final_result around task around.batch_id (total_recipients payments u) amount
                  (length xdrs) u)
                (patch_row (around.clock (length xdrs + 2)) patch r'))
            tally
            (patch-IsEnded (length xdrs) (around.clock 1) (around.clock (length xdrs + 2)) t
              (final_result around task around.batch_id (total_recipients payments t) amount
                (length xdrs) t)
              patch r r' refl refl refl refl a),
      )

  -- The tally of the server-signed batches.
  abbrev pub signed_tally : List Batch → Tally
  signed_tally batches =
      steps (λ i b t. process_batch (answer around task i b.payments) b.payments t) 0 batches
        untallied

  signed-IsEnded :
      (s : Store) (job r : JobRow) (secret amount : String) (batches : List Batch)
      → is_empty (recovered_xdrs task job) ≡ true
      → task.secret_key ≡ some secret
      → secret ≢ ""
      → create_batches around.oracle max_ops around.options (recovered_payments task job)
        ≡ ok batches
      → around.new_service secret ≡ ok tt
      → around.total_amount (map (λ p. p.amount) (recovered_payments task job)) ≡ ok amount
      → IsCalm around task quiet (length batches)
      → around.locked 1 ≤ 1
      → around.locked (length batches + 2) ≤ 1
      → Holds task.job_id r s
      → let payments = recovered_payments task job in
        let t = signed_tally batches in
        (s' : Store) × (r' : JobRow) × (caught around task (work around task job s) ≡ (ok tt, s'))
        × Holds task.job_id r' s'
        × IsEnded
            (length batches)
            t
            (final_result around task task.job_id (length payments) amount (length batches) t)
            r'
  unfolding work caught signed_flow signed_patch
  signed-IsEnded s job r secret amount batches no_xdrs key named e1 e2 e3 calm few few' h =
      let payments = recovered_payments task job in
      let (s', r', f, h', a) =
        flow-Holds around task quiet (around.new_service secret) (λ b. true)
          (λ i b t. process_batch (answer around task i b.payments) b.payments t) batches
          (around.total_amount (map (λ p. p.amount) payments)) amount
          (λ total t. signed_patch around task total (length batches) payments t) s r e2 e3 calm few
          few' h in
      let t = signed_tally batches in
      let patch = signed_patch around task amount (length batches) payments t in
      (
        s',
        patch_row (around.clock (length batches + 2)) patch r',
        ground (arith, str_eq_iff secret "", f),
        h',
        patch-IsEnded (length batches) (around.clock 1) (around.clock (length batches + 2)) t
            (final_result around task task.job_id (length payments) amount (length batches) t) patch
            r r' refl refl refl refl a,
      )

  pub process_job_presigned :
      (s : Store) (job : JobRow) (amount : String)
      → Holds task.job_id job s
      → claimable around.lease_ms (around.clock 0) task.job_id job ≡ true
      → around.busy reading ≡ false
      → around.busy claiming ≡ false
      → is_empty (recovered_xdrs task job) ≡ false
      → presigned_total around task (recovered_payments task job) ≡ ok amount
      → IsCalm around task quiet (length (recovered_xdrs task job))
      → around.locked 1 ≤ 1
      → around.locked (length (recovered_xdrs task job) + 2) ≤ 1
      → let xdrs = recovered_xdrs task job in
        let payments = recovered_payments task job in
        let t = process_presigned around.chain job.public_key xdrs payments in
        (s' : Store) × (r' : JobRow) × (process_job around task s ≡ (ok tt, s'))
        × Holds task.job_id r' s'
        × IsEnded
            (length xdrs)
            t
            (final_result around task around.batch_id
              (total_recipients payments t)
              amount
              (length xdrs)
              t)
            r'
  process_job_presigned s job amount h c free free' some_xdrs e calm few few' =
      let (s1, claimed, h1) = claim-Holds (around.clock 0) task.job_id s job around.lease_ms c h in
      let (s', r', f, h', a) =
        presigned-IsEnded s1 job (claim_row (around.clock 0) job) amount some_xdrs e calm few few'
          h1 in
      (s', r', process_job_claimed s s1 job h.0 free free' claimed ∙ f, h', a)

  -- A worker that claims a job that the server signs, while other processes leave its row alone, the
  -- read, the claim and the progress do not find the database locked and the first and the last update
  -- find it locked for one attempt at most, ends it: where `createBatches` gives batches, the service can be
  -- made and the amounts add up, its progress is the number of the batches, and its status and
  -- result are those of the service's answers to them.
  pub process_job_signed :
      (s : Store) (job : JobRow) (secret amount : String) (batches : List Batch)
      → Holds task.job_id job s
      → claimable around.lease_ms (around.clock 0) task.job_id job ≡ true
      → around.busy reading ≡ false
      → around.busy claiming ≡ false
      → is_empty (recovered_xdrs task job) ≡ true
      → task.secret_key ≡ some secret
      → secret ≢ ""
      → create_batches around.oracle max_ops around.options (recovered_payments task job)
        ≡ ok batches
      → around.new_service secret ≡ ok tt
      → around.total_amount (map (λ p. p.amount) (recovered_payments task job)) ≡ ok amount
      → IsCalm around task quiet (length batches)
      → around.locked 1 ≤ 1
      → around.locked (length batches + 2) ≤ 1
      → let payments = recovered_payments task job in
        let t = signed_tally batches in
        (s' : Store) × (r' : JobRow) × (process_job around task s ≡ (ok tt, s'))
        × Holds task.job_id r' s'
        × IsEnded
            (length batches)
            t
            (final_result around task task.job_id (length payments) amount (length batches) t)
            r'
  process_job_signed s job secret amount batches h c free free' no_xdrs key named e1 e2 e3 calm few
        few' =
      let (s1, claimed, h1) = claim-Holds (around.clock 0) task.job_id s job around.lease_ms c h in
      let (s', r', f, h', a) =
        signed-IsEnded s1 job (claim_row (around.clock 0) job) secret amount batches no_xdrs key
          named e1 e2 e3 calm few few' h1 in
      (s', r', process_job_claimed s s1 job h.0 free free' claimed ∙ f, h', a)
