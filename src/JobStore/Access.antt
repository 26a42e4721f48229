-- ===== src/JobStore/Access.antt =====
-- Reading a job as its owner, and writing a patch over one job.
use stellar_batch_pay.Base.{
  ℕ, suc, zero, ◌≤◌, ◌≡◌, refl, ◌∙◌, ◌≢◌, String, true, none, some, arith, Option-cases, inl, inr,
  ok, if◌then◌else◌, str_eq_iff,
}
use stellar_batch_pay.JobStore.{
  JobRow, JobPatch, Store, find_job, update_job, update_from, update_job_once, update_where,
  at_version, patched, get_job, owned_by,
}
use stellar_batch_pay.JobStore.Rows.{
  UniqueIds, find_job-job_id, find_job-update_where, changes-find_job,
}
use stellar_batch_pay.JobStore.Claims.{at_version_self, at_version-job_id}

pub owned_by-public_key :
    (key : String) (q : JobRow) → key ≢ "" → owned_by (some key) q ≡ true → q.public_key ≡ some key
unfolding owned_by
owned_by-public_key key q named e = elim (Option-cases q.public_key) [
  | inl e' ↦ ground (arith, str_eq_iff key "")
  | inr (owner, e') ↦ ground (arith, str_eq_iff key "", str_eq_iff owner key)
]

-- A lookup that names a wallet returns the stored row, and only if that wallet owns the job.
pub get_job_owner :
    (id key : String) (s : Store) (r : JobRow)
    → key ≢ ""
    → get_job id (some key) s ≡ some r
    → (find_job id s.jobs ≡ some r) × (r.public_key ≡ some key)
unfolding get_job
get_job_owner id key s r named e = elim (Option-cases (find_job id s.jobs)) [
  | inl e' ↦ absurd (ground arith)
  | inr (q, e') ↦ ground (arith, owned_by-public_key key q named)
]

-- The tables after a patch.
abbrev pub patched_store : ℕ → String → JobPatch → JobRow → Store → Store
patched_store now id p row s = record s {
  jobs = update_where (at_version id row.version) (patched now p row) s.jobs;
}

module _ (now : ℕ) (id : String) (p : JobPatch) (s : Store) (row : JobRow) (u : UniqueIds s.jobs)
    (e : find_job id s.jobs ≡ some row) where
  once_ok : update_job_once now id p s ≡ ok (patched_store now id p row s)
  unfolding update_job_once
  once_ok =
      let hit = at_version_self id row (find_job-job_id id s.jobs row e) in
      let one =
        changes-find_job (at_version id row.version) id (at_version-job_id id row.version) s.jobs
          u in
      ground (arith, e, hit, one)

  pub locked_ok :
      (locked : ℕ) → locked ≤ 1 → update_job locked now id p s ≡ ok (patched_store now id p row s)
  unfolding update_job update_from
  locked_ok zero h = once_ok
  locked_ok (suc zero) h = once_ok
  locked_ok (suc (suc k)) h = absurd (omega arith)

  other_kept :
      (other : String)
      → other ≢ id
      → find_job other (patched_store now id p row s).jobs ≡ find_job other s.jobs
  unfolding patched
  other_kept other ne =
      find_job-update_where (at_version id row.version) (patched now p row) (λ r. refl) other s.jobs
      ∙ kept
    where
      kept :
          (elim (find_job other s.jobs) [
            | none ↦ none
            | some r ↦ if at_version id row.version r then some (patched now p row r) else some r
          ])
          ≡ find_job other s.jobs
      kept = elim (Option-cases (find_job other s.jobs)) [
        | inl e' ↦ rw e' refl
        | inr (r, e') ↦
            rw e' (
              ground (arith, at_version-job_id id row.version r, find_job-job_id other s.jobs r e'))
      ]

  -- With the database locked for one attempt at most, `updateJob` writes the patch over the row,
  -- raises its version by one and leaves every other row. It is stated of a table in which no two
  -- rows have one id.
  pub update_job-patched :
      (locked : ℕ)
      → locked ≤ 1
      → (s' : Store) × (update_job locked now id p s ≡ ok s')
        × (find_job id s'.jobs ≡ some (patched now p row row))
        × ((other : String) → other ≢ id → find_job other s'.jobs ≡ find_job other s.jobs)
  unfolding patched
  update_job-patched locked h = (
    patched_store now id p row s,
    locked_ok locked h,
    find_job-update_where (at_version id row.version) (patched now p row) (λ r. refl) id s.jobs
        ∙ rw e (rw (at_version_self id row (find_job-job_id id s.jobs row e)) refl),
    other_kept,
  )
