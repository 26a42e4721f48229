-- ===== src/JobStore/Claims.antt =====
-- Claiming a job: which claims succeed, and that one worker holds a job at a time.
use stellar_batch_pay.Base.{
  ℕ, ◌+◌, ◌<◌, ◌≡◌, refl, sym, ◌∙◌, ◌⊎◌, inl, inr, ◌↔◌, String, true, false, false≢true, none, some,
  arith, if◌then◌else◌, str_eq_iff, Option-cases, ok,
}
use stellar_batch_pay.Types.{queued, processing}
use stellar_batch_pay.JobStore.{
  JobRow, Store, find_job, update_where, claimable, claim_job_for_processing,
  increment_completed_batches, increment_from, bumped, at_version,
}
use stellar_batch_pay.JobStore.Rows.{
  UniqueIds, find_job-job_id, find_job-update_where, update_where-UniqueIds, changes-find_job,
}

-- The row that a claim leaves.
abbrev pub claimed : ℕ → JobRow → JobRow
claimed now r = record r { status = processing; updated_at = now; version = r.version + 1 }

-- Queued, or processing with no sign of life for longer than the lease.
abbrev pub IsClaimable : ℕ → ℕ → JobRow → Type 0
IsClaimable lease now r =
    (r.status ≡ queued) ⊎ ((r.status ≡ processing) × (r.updated_at + lease < now))

claimable-job_id :
    (lease now : ℕ) (id : String) (r : JobRow) → claimable lease now id r ≡ true → r.job_id ≡ id
unfolding claimable
claimable-job_id lease now id r h = ground (arith, str_eq_iff r.job_id id)

pub claimable_iff :
    (lease now : ℕ) (id : String) (r : JobRow)
    → r.job_id ≡ id
    → (claimable lease now id r ≡ true) ↔ IsClaimable lease now r
unfolding claimable
claimable_iff lease now id r e =
    (λ h. ground (arith, str_eq_iff r.job_id id), λ h. ground (arith, str_eq_iff r.job_id id))

claim-changes :
    (lease now : ℕ) (id : String) (s : Store)
    → UniqueIds s.jobs
    → (claim_job_for_processing lease now id s).0
      ≡ (elim (find_job id s.jobs) [ none ↦ false | some r ↦ claimable lease now id r ])
unfolding claim_job_for_processing
claim-changes lease now id s u =
    ground
      (arith, changes-find_job (claimable lease now id) id (claimable-job_id lease now id) s.jobs u)

pub claim_found :
    (lease now : ℕ) (id : String) (s : Store) (r : JobRow)
    → UniqueIds s.jobs
    → find_job id s.jobs ≡ some r
    → (claim_job_for_processing lease now id s).0 ≡ claimable lease now id r
claim_found lease now id s r u e = claim-changes lease now id s u ∙ rw e refl

-- A claim succeeds exactly where the job is stored and is queued, or is processing and was last
-- updated more than the lease ago. It is stated of a table in which no two rows have one id.
pub claim_job_for_processing_iff :
    (lease now : ℕ) (id : String) (s : Store)
    → UniqueIds s.jobs
    → ((claim_job_for_processing lease now id s).0 ≡ true)
      ↔ ((r : JobRow) × (find_job id s.jobs ≡ some r) × IsClaimable lease now r)
claim_job_for_processing_iff lease now id s u = (to, from)
  where
    to :
        (claim_job_for_processing lease now id s).0 ≡ true
        → (r : JobRow) × (find_job id s.jobs ≡ some r) × IsClaimable lease now r
    to h = elim (Option-cases (find_job id s.jobs)) [
      | inl e ↦ absurd (false≢true (sym (claim-changes lease now id s u ∙ rw e refl) ∙ h))
      | inr (r, e) ↦ (
        r,
        e,
        (claimable_iff lease now id r (find_job-job_id id s.jobs r e)).0
            (sym (claim_found lease now id s r u e) ∙ h),
      )
    ]

    from :
        ((r : JobRow) × (find_job id s.jobs ≡ some r) × IsClaimable lease now r)
        → (claim_job_for_processing lease now id s).0 ≡ true
    from (r, e, c) =
        claim_found lease now id s r u e
        ∙ (claimable_iff lease now id r (find_job-job_id id s.jobs r e)).1 c

-- The row after a claim.
pub claim-find_job :
    (lease now : ℕ) (id other : String) (s : Store)
    → find_job other (claim_job_for_processing lease now id s).1.jobs
      ≡ (elim (find_job other s.jobs) [
        | none ↦ none
        | some r ↦ if claimable lease now id r then some (claimed now r) else some r
      ])
unfolding claim_job_for_processing
claim-find_job lease now id other s =
    find_job-update_where (claimable lease now id) (claimed now) (λ r. refl) other s.jobs

pub at_version-job_id :
    (id : String) (v : ℕ) (r : JobRow) → at_version id v r ≡ true → r.job_id ≡ id
at_version-job_id id v r h = ground (arith, str_eq_iff r.job_id id)

pub at_version_self : (id : String) (r : JobRow) → r.job_id ≡ id → at_version id r.version r ≡ true
at_version_self id r e = ground (arith, str_eq_iff r.job_id id)

-- Progress where no other process writes in between.
abbrev pub alone : ℕ → Store → Store
alone left s = s

-- The write of an attempt that meets the version it read.
pub increment_alone :
    (now : ℕ) (id : String) (s : Store) (r : JobRow)
    → UniqueIds s.jobs
    → find_job id s.jobs ≡ some r
    → increment_completed_batches alone now id s
      ≡ (ok tt, record s { jobs = update_where (at_version id r.version) (bumped now) s.jobs })
unfolding increment_completed_batches increment_from
increment_alone now id s r u e =
    let hit = at_version_self id r (find_job-job_id id s.jobs r e) in
    let one =
      changes-find_job (at_version id r.version) id (at_version-job_id id r.version) s.jobs u in
    ground (arith, e, hit, one)

pub claim-UniqueIds :
    (lease now : ℕ) (id : String) (s : Store)
    → UniqueIds s.jobs
    → UniqueIds (claim_job_for_processing lease now id s).1.jobs
unfolding claim_job_for_processing
claim-UniqueIds lease now id s u =
    update_where-UniqueIds (claimable lease now id) (claimed now) (λ r. refl) s.jobs u

module _ (now : ℕ) (id : String) (s : Store) (r : JobRow) (e : find_job id s.jobs ≡ some r) where
  pub claim_kept :
      (lease : ℕ)
      → claimable lease now id r ≡ false
      → find_job id (claim_job_for_processing lease now id s).1.jobs ≡ some r
  claim_kept lease c = claim-find_job lease now id id s ∙ rw e (rw c refl)

  pub claim_taken :
      (lease : ℕ)
      → claimable lease now id r ≡ true
      → find_job id (claim_job_for_processing lease now id s).1.jobs ≡ some (claimed now r)
  claim_taken lease c = claim-find_job lease now id id s ∙ rw e (rw c refl)

  -- Progress adds one to the completed batches of the row.
  pub increment_found :
      UniqueIds s.jobs
      → find_job id (increment_completed_batches alone now id s).1.jobs ≡ some (bumped now r)
  unfolding bumped
  increment_found u = rw (increment_alone now id s r u e) (
      find_job-update_where (at_version id r.version) (bumped now) (λ q. refl) id s.jobs
      ∙ rw e (rw (at_version_self id r (find_job-job_id id s.jobs r e)) refl))

  pub increment-UniqueIds :
      UniqueIds s.jobs → UniqueIds (increment_completed_batches alone now id s).1.jobs
  unfolding bumped
  increment-UniqueIds u =
      rw (increment_alone now id s r u e)
        (update_where-UniqueIds (at_version id r.version) (bumped now) (λ q. refl) s.jobs u)
