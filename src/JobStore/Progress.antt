-- ===== src/JobStore/Progress.antt =====
-- What the writes of a worker leave of its job's row, while other processes write other rows.
use stellar_batch_pay.Types.{processing}
use stellar_batch_pay.Base.{
  Bool, true, false, List, [], ◌∷◌, str_eq_iff, ℕ, ◌+◌, ◌≤◌, ◌≡◌, refl, ◌∙◌, String, some, arith,
  ok, ◌⊎◌, none,
}
use stellar_batch_pay.JobStore.{
  or_else, or_keep, JobRow, JobPatch, Store, find_job, update_job, update_where, at_version,
  patched, bumped, increment_completed_batches, increment_from, claimable, claim_job_for_processing,
  changes, completed, get_job, owned_by, failed,
}
use stellar_batch_pay.JobStore.Rows.{
  UniqueIds, find_job-job_id, find_job-update_where, changes-find_job, update_where-UniqueIds,
}
use stellar_batch_pay.JobStore.Claims.{at_version_self, at_version-job_id}
use stellar_batch_pay.JobStore.Access.{patched_store, locked_ok}

-- A write that leaves the row of the job `id` alone.
abbrev pub LeavesJob : String → (Store → Store) → Type 0
LeavesJob id f =
    (s : Store)
    → UniqueIds s.jobs
    → (find_job id (f s).jobs ≡ find_job id s.jobs) × UniqueIds (f s).jobs

-- The job's row is `r`.
abbrev pub Holds : String → JobRow → Store → Type 0
Holds id r s = (find_job id s.jobs ≡ some r) × UniqueIds s.jobs

abbrev pub progress_row : ℕ → JobRow → JobRow
progress_row now r = record r {
  completed_batches = r.completed_batches + 1;
  updated_at = now;
  version = r.version + 1;
}

abbrev pub patch_row : ℕ → JobPatch → JobRow → JobRow
patch_row now p r = record r {
  status = or_else p.status r.status;
  total_batches = or_else p.total_batches r.total_batches;
  completed_batches = or_else p.completed_batches r.completed_batches;
  result = or_keep p.result r.result;
  error = or_keep p.error r.error;
  updated_at = now;
  version = r.version + 1;
}

abbrev pub claim_row : ℕ → JobRow → JobRow
claim_row now r = record r { status = processing; updated_at = now; version = r.version + 1 }

pub get_job_any :
    (id : String) (s : Store) (r : JobRow)
    → find_job id s.jobs ≡ some r
    → get_job id none s ≡ some r
unfolding get_job owned_by
get_job_any id s r e = ground arith

-- A job that has ended is not claimed.
pub claimable_ended :
    (lease now : ℕ) (id : String) (r : JobRow)
    → (r.status ≡ completed) ⊎ (r.status ≡ failed)
    → claimable lease now id r ≡ false
unfolding claimable
claimable_ended lease now id r e = ground arith

update_where_none :
    (test : JobRow → Bool) (f : JobRow → JobRow) (rs : List JobRow)
    → changes test rs ≡ 0
    → update_where test f rs ≡ rs
unfolding update_where changes
update_where_none test f [] e = refl
update_where_none test f (r ∷ rs) e = ground (arith, update_where_none test f rs)

module _ (now : ℕ) (id : String) (s : Store) (r : JobRow) where
  claimable-job_id : (lease : ℕ) (q : JobRow) → claimable lease now id q ≡ true → q.job_id ≡ id
  unfolding claimable
  claimable-job_id lease q e = ground (arith, str_eq_iff q.job_id id)

  pub claim-Holds :
      (lease : ℕ)
      → claimable lease now id r ≡ true
      → Holds id r s
      → (s' : Store) × (claim_job_for_processing lease now id s ≡ (true, s'))
        × Holds id (claim_row now r) s'
  unfolding claim_job_for_processing
  claim-Holds lease c (e, u) =
      let one = changes-find_job (claimable lease now id) id (claimable-job_id lease) s.jobs u in
      let jobs = update_where (claimable lease now id) (claim_row now) s.jobs in
      (
        record s { jobs = jobs },
        ground arith,
        (
          find_job-update_where (claimable lease now id) (claim_row now) (λ q. refl) id s.jobs
              ∙ rw e (rw c refl),
          update_where-UniqueIds (claimable lease now id) (claim_row now) (λ q. refl) s.jobs u,
        ),
      )

  pub claim_refused :
      (lease : ℕ)
      → claimable lease now id r ≡ false
      → Holds id r s
      → claim_job_for_processing lease now id s ≡ (false, s)
  unfolding claim_job_for_processing
  claim_refused lease c (e, u) =
      let none_changed =
        changes-find_job (claimable lease now id) id (claimable-job_id lease) s.jobs u in
      ground (arith, update_where_none (claimable lease now id) (claim_row now) s.jobs)

  -- The row after a first attempt at progress, which other processes do not disturb.
  pub increment-Holds :
      (others : ℕ → Store → Store)
      → ((left : ℕ) → LeavesJob id (others left))
      → Holds id r s
      → (s' : Store) × (increment_completed_batches others now id s ≡ (ok tt, s'))
        × Holds id (progress_row now r) s'
  unfolding increment_completed_batches increment_from bumped
  increment-Holds others quiet (e, u) =
      let s1 = others 2 s in
      let (same, u1) = quiet 2 s u in
      let e1 = same ∙ e in
      let hit = at_version_self id r (find_job-job_id id s.jobs r e) in
      let one =
        changes-find_job (at_version id r.version) id (at_version-job_id id r.version) s1.jobs u1 in
      (
        record s1 { jobs = update_where (at_version id r.version) (bumped now) s1.jobs },
        ground (arith, e, e1, hit, one),
        (
          find_job-update_where (at_version id r.version) (bumped now) (λ q. refl) id s1.jobs
              ∙ rw e1 (rw hit refl),
          update_where-UniqueIds (at_version id r.version) (bumped now) (λ q. refl) s1.jobs u1,
        ),
      )

  pub update_job-Holds :
      (p : JobPatch) (locked : ℕ)
      → locked ≤ 1
      → Holds id r s
      → (s' : Store) × (update_job locked now id p s ≡ ok s') × Holds id (patch_row now p r) s'
  unfolding patched
  update_job-Holds p locked few (e, u) =
      let hit = at_version_self id r (find_job-job_id id s.jobs r e) in
      (
        patched_store now id p r s,
        locked_ok now id p s r u e locked few,
        (
          find_job-update_where (at_version id r.version) (patched now p r) (λ q. refl) id s.jobs
              ∙ rw e (rw hit refl),
          update_where-UniqueIds (at_version id r.version) (patched now p r) (λ q. refl) s.jobs u,
        ),
      )
