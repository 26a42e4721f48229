-- ===== src/Worker/Jobs/Again.antt =====
-- lib/stellar/batch-worker.ts: runs of the worker for a job that it may not process, and for one that
-- it cannot.
use stellar_batch_pay.Base.{
  ℕ, ◌+◌, ◌≤◌, ◌≡◌, ◌≢◌, refl, ◌∙◌, sym, subst, ap, String, none, some, arith, ok, err, length,
  true, false, is_empty, ltb, inl, inr, ◌⊎◌, str_eq_iff, Bool-cases,
}
use stellar_batch_pay.Types.{completed, failed}
use stellar_batch_pay.Batcher.{BatchError, create_batches}
use stellar_batch_pay.JobStore.{JobRow, Store, claimable, busy}
use stellar_batch_pay.JobStore.Progress.{
  LeavesJob, Holds, patch_row, claim_row, claim-Holds, claim_refused, get_job_any, claimable_ended,
}
use stellar_batch_pay.Worker.{Tally, max_ops, final_status}
use stellar_batch_pay.Worker.Jobs.{
  Surroundings, Task, reading, claiming, tried, unchanged, presigned_total, signed_flow, work,
  caught, process_job, recovered_xdrs, recovered_payments,
}
use stellar_batch_pay.Worker.Jobs.Finish.{IsCalm, update-Holds}
use stellar_batch_pay.Worker.Jobs.Outcome.{process_job_claimed, process_job_presigned}

final_status_ends : (t : Tally) → (final_status t ≡ completed) ⊎ (final_status t ≡ failed)
unfolding final_status
final_status_ends t = elim (Bool-cases (ltb 0 t.success_count)) [
  | inl e ↦ inl (rw e refl)
  | inr e ↦ inr (rw e refl)
]

-- A run for a job that cannot be claimed (it has ended, or another worker's lease is still on), whose
-- read and claim do not find the database locked, leaves the tables as they are.
pub process_job_unclaimed :
    (around : Surroundings) (task : Task) (s : Store) (job : JobRow)
    → Holds task.job_id job s
    → claimable around.lease_ms (around.clock 0) task.job_id job ≡ false
    → around.busy reading ≡ false
    → around.busy claiming ≡ false
    → process_job around task s ≡ (ok tt, s)
unfolding process_job tried caught
process_job_unclaimed around task s job h c free free' =
    let kept = claim_refused (around.clock 0) task.job_id s job around.lease_ms c h in
    let found = get_job_any task.job_id s job h.0 in ground arith

module _ (around : Surroundings) (task : Task)
    (quiet : (i left : ℕ) → LeavesJob task.job_id (around.others i left)) where
  -- A job with pre-signed transactions is processed once. Let a worker claim and end it, while other
  -- processes leave its row alone, the read, the claim and the progress do not find the database locked
  -- and the first and the last update find it locked for one attempt at most. Then every later run for
  -- the job whose read and claim do not find the database locked, with whatever arguments and answers,
  -- leaves the tables as they are.
  pub process_job_once :
      (s : Store) (job : JobRow) (amount : String)
      → Holds task.job_id job s
      → claimable around.lease_ms (around.clock 0) task.job_id job ≡ true
      → around.busy reading ≡ false
      → around.busy claiming ≡ false
      → is_empty (recovered_xdrs task job) ≡ false
      → presigned_total around task (recovered_payments task job) ≡ ok amount
      → IsCalm around task quiet (length (recovered_xdrs task job))
      → around.locked 1 ≤ 1
      → around.locked (length (recovered_xdrs task job) + 2) ≤ 1
      → (s' : Store) × (process_job around task s ≡ (ok tt, s'))
        × ((around' : Surroundings) (task' : Task)
            → task'.job_id ≡ task.job_id
            → around'.busy reading ≡ false
            → around'.busy claiming ≡ false
            → process_job around' task' s' ≡ (ok tt, s'))
  process_job_once s job amount h c free free' some_xdrs e calm few few' =
      let (s', r, f, h', a) =
        process_job_presigned around task quiet s job amount h c free free' some_xdrs e calm few
          few' in
      (s', f, λ around' task' same b b'. again around' task' s' r same h' _ a.status b b')
    where
      again :
          (around' : Surroundings) (task' : Task) (s' : Store) (r : JobRow)
          → task'.job_id ≡ task.job_id
          → Holds task.job_id r s'
          → (t : Tally) → r.status ≡ final_status t
          → around'.busy reading ≡ false
          → around'.busy claiming ≡ false
          → process_job around' task' s' ≡ (ok tt, s')
      again around' task' s' r same h' t e' b b' =
          process_job_unclaimed around' task' s' r (subst (λ id. Holds id r s') (sym same) h')
            (claimable_ended around'.lease_ms (around'.clock 0) task'.job_id r
              (subst (λ st. (st ≡ completed) ⊎ (st ≡ failed)) (sym e') (final_status_ends t)))
            b b'

  -- Why a job without transactions cannot be started.
  abbrev pub CannotStart : JobRow → String → Type 0
  CannotStart job m =
      ((task.secret_key ≡ none) × (m ≡ "secretKey is required for payment-based submissions"))
      ⊎ ((key : String) × (e : BatchError) × (task.secret_key ≡ some key)
          × (key ≢ "")
          × (create_batches around.oracle max_ops around.options (recovered_payments task job)
              ≡ err e)
          × (m ≡ around.batch_message e))

  refused_work :
      (job : JobRow) (m : String) (s : Store)
      → is_empty (recovered_xdrs task job) ≡ true
      → CannotStart job m
      → work around task job s ≡ (err m, s)
  unfolding work signed_flow
  refused_work job m s no_xdrs (inl (no_key, e)) = ground arith
  refused_work job m s no_xdrs (inr (key, e, some_key, named, threw, e')) =
      ground (arith, str_eq_iff key "")

  -- A claimed job without transactions ends failed, with the error that stopped it and no other change
  -- to its batches, where no key is given or `createBatches` throws, the read and the claim do not
  -- find the database locked, the update of the `catch` finds it locked for one attempt at most, and
  -- other processes leave the job's row alone.
  pub process_job_fails :
      (s : Store) (job : JobRow) (m : String)
      → Holds task.job_id job s
      → claimable around.lease_ms (around.clock 0) task.job_id job ≡ true
      → around.busy reading ≡ false
      → around.busy claiming ≡ false
      → is_empty (recovered_xdrs task job) ≡ true
      → CannotStart job m
      → around.locked around.last ≤ 1
      → (s' : Store) × (r' : JobRow) × (process_job around task s ≡ (ok tt, s'))
        × Holds task.job_id r' s'
        × (r'.status ≡ failed)
        × (r'.error ≡ some m)
        × (r'.total_batches ≡ job.total_batches)
        × (r'.completed_batches ≡ job.completed_batches)
        × (r'.result ≡ job.result)
  unfolding caught
  process_job_fails s job m h c free free' no_xdrs why few =
      let (s1, claimed, h1) = claim-Holds (around.clock 0) task.job_id s job around.lease_ms c h in
      let p = record unchanged { status = some failed; error = some m } in
      let r1 = claim_row (around.clock 0) job in
      let (s', u, h') = update-Holds around task quiet around.last p s1 r1 few h1 in
      (
        s',
        patch_row (around.clock around.last) p r1,
        process_job_claimed around task quiet s s1 job h.0 free free' claimed
            ∙ ap (caught around task) (refused_work job m s1 no_xdrs why)
            ∙ u,
        h',
        refl,
        refl,
        refl,
        refl,
        refl,
      )

  -- Whatever the state of a job, also where it has ended: a run whose read or claim finds the database
  -- locked, while other processes leave the job's row alone, sets it to failed, with the message of the lock as its error, and keeps its batches and its
  -- result. The update of the `catch` finds the database locked for one attempt at most.
  pub process_job_locked :
      (s : Store) (job : JobRow)
      → Holds task.job_id job s
      → (around.busy reading ≡ true) ⊎ (around.busy claiming ≡ true)
      → around.locked around.last ≤ 1
      → (s' : Store) × (r' : JobRow) × (process_job around task s ≡ (ok tt, s'))
        × Holds task.job_id r' s'
        × (r'.status ≡ failed)
        × (r'.error ≡ some (around.store_message busy))
        × (r'.total_batches ≡ job.total_batches)
        × (r'.completed_batches ≡ job.completed_batches)
        × (r'.result ≡ job.result)
  unfolding process_job tried caught
  process_job_locked s job h why few =
      let p = record unchanged { status = some failed; error = some (around.store_message busy) } in
      let (s', u, h') = update-Holds around task quiet around.last p s job few h in
      let found = get_job_any task.job_id s job h.0 in
      (
        s',
        patch_row (around.clock around.last) p job,
        ground (arith, u, found),
        h',
        refl,
        refl,
        refl,
        refl,
        refl,
      )
