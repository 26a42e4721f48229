-- ===== src/JobStore/Lease.antt =====
-- The lease: while the worker that claimed a job shows progress in time, no second claim succeeds.
use stellar_batch_pay.Base.{
  ℕ, ◌+◌, ◌≤◌, ◌≡◌, refl, sym, ◌∙◌, inl, inr, String, true, false, some, List, [], ◌∷◌, arith,
  if◌then◌else◌, Bool-cases,
}
use stellar_batch_pay.Types.{processing}
use stellar_batch_pay.JobStore.{
  JobRow, Store, find_job, claimable, claim_job_for_processing, increment_completed_batches, bumped,
}
use stellar_batch_pay.JobStore.Rows.{UniqueIds, find_job-job_id}
use stellar_batch_pay.JobStore.Claims.{
  claimed, claim_job_for_processing_iff, claim_found, claimable_iff, claim-UniqueIds, alone,
  claim_kept, claim_taken, increment_found, increment-UniqueIds,
}

-- What workers do with one job: claim it, or complete a batch of it, at a time.
pub data WorkerEvent : Type 0 where
  claim progress : ℕ → WorkerEvent

module _ (lease : ℕ) (id : String) where
  -- How many of the claims succeed.
  pub granted : List WorkerEvent → Store → ℕ
  granted [] s = 0
  granted (claim t ∷ es) s =
      (if (claim_job_for_processing lease t id s).0 then 1 else 0)
      + granted es (claim_job_for_processing lease t id s).1
  granted (progress t ∷ es) s = granted es (increment_completed_batches alone t id s).1

  -- Every claim comes within the lease of the last progress.
  abbrev pub IsTimely : ℕ → List WorkerEvent → Type 0
  IsTimely last [] = Unit
  IsTimely last (claim t ∷ es) = (t ≤ last + lease) × IsTimely last es
  IsTimely last (progress t ∷ es) = IsTimely t es

  busy-unclaimable :
      (t : ℕ) (r : JobRow)
      → r.job_id ≡ id
      → r.status ≡ processing
      → t ≤ r.updated_at + lease
      → claimable lease t id r ≡ false
  busy-unclaimable t r e p h = elim (Bool-cases (claimable lease t id r)) [
    | inl c ↦ absurd (ground (arith, (claimable_iff lease t id r e).0 c))
    | inr c ↦ c
  ]

  held :
      (es : List WorkerEvent) (s : Store) (r : JobRow)
      → UniqueIds s.jobs
      → find_job id s.jobs ≡ some r
      → r.status ≡ processing
      → IsTimely r.updated_at es
      → granted es s ≡ 0
  unfolding granted bumped
  held [] s r u e p h = refl
  held (claim t ∷ es) s r u e p (h, hs) =
      let c = busy-unclaimable t r (find_job-job_id id s.jobs r e) p h in
      let rest =
        held es (claim_job_for_processing lease t id s).1 r (claim-UniqueIds lease t id s u)
          (claim_kept t id s r e lease c) p hs in
      rw (claim_found lease t id s r u e ∙ c) (omega (arith, rest))
  held (progress t ∷ es) s r u e p h =
      held es (increment_completed_batches alone t id s).1 (bumped t r)
        (increment-UniqueIds t id s r e u) (increment_found t id s r e u) p h

  -- After a successful claim no other claim succeeds, as long as every claim comes within the lease of
  -- the last progress, and the progress within no other process's write. It is stated of a table in
  -- which no two rows have one id.
  pub claim_once :
      (t : ℕ) (es : List WorkerEvent) (s : Store)
      → UniqueIds s.jobs
      → (claim_job_for_processing lease t id s).0 ≡ true
      → IsTimely t es
      → granted es (claim_job_for_processing lease t id s).1 ≡ 0
  claim_once t es s u c h =
      let (r, e, k) = (claim_job_for_processing_iff lease t id s u).0 c in
      let taken = claim_taken t id s r e lease (sym (claim_found lease t id s r u e) ∙ c) in
      held es (claim_job_for_processing lease t id s).1 (claimed t r)
        (claim-UniqueIds lease t id s u) taken refl h
