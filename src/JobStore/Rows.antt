-- ===== src/JobStore/Rows.antt =====
-- Searching and updating the rows of a table.
use stellar_batch_pay.Base.{
  ◌≡◌, refl, String, Bool, true, none, some, List, [], ◌∷◌, arith, if◌then◌else◌, str_eq_iff,
}
use stellar_batch_pay.JobStore.{JobRow, IdempotencyRow, find_job, find_key, update_where, changes}

-- No two rows have one id.
abbrev pub UniqueIds : List JobRow → Type 0
UniqueIds [] = Unit
UniqueIds (r ∷ rs) = (find_job r.job_id rs ≡ none) × UniqueIds rs

abbrev pub UniqueKeys : List IdempotencyRow → Type 0
UniqueKeys [] = Unit
UniqueKeys (r ∷ rs) = (find_key r.idempotency_key rs ≡ none) × UniqueKeys rs

pub find_job-job_id :
    (id : String) (rs : List JobRow) (r : JobRow) → find_job id rs ≡ some r → r.job_id ≡ id
unfolding find_job
find_job-job_id id [] r e = cc
find_job-job_id id (x ∷ rs) r e = ground (arith, str_eq_iff x.job_id id, find_job-job_id id rs r)

pub find_key-idempotency_key :
    (key : String) (rs : List IdempotencyRow) (r : IdempotencyRow)
    → find_key key rs ≡ some r
    → r.idempotency_key ≡ key
unfolding find_key
find_key-idempotency_key key [] r e = cc
find_key-idempotency_key key (x ∷ rs) r e =
    ground (arith, str_eq_iff x.idempotency_key key, find_key-idempotency_key key rs r)

module _ (test : JobRow → Bool) (f : JobRow → JobRow)
    (same_id : (r : JobRow) → (f r).job_id ≡ r.job_id) where
  -- An update does not move a row.
  pub find_job-update_where :
      (id : String) (rs : List JobRow)
      → find_job id (update_where test f rs)
        ≡ (elim (find_job id rs) [ none ↦ none | some r ↦ if test r then some (f r) else some r ])
  unfolding find_job update_where
  find_job-update_where id [] = refl
  find_job-update_where id (r ∷ rs) = ground (arith, same_id r, find_job-update_where id rs)

  pub update_where-UniqueIds :
      (rs : List JobRow) → UniqueIds rs → UniqueIds (update_where test f rs)
  unfolding update_where
  update_where-UniqueIds [] u = tt
  update_where-UniqueIds (r ∷ rs) (u, us) =
      ground (arith, same_id r, find_job-update_where r.job_id rs, update_where-UniqueIds rs us)

-- Where the condition names an id, at most one row is changed.
module _ (test : JobRow → Bool) (id : String)
    (named : (r : JobRow) → test r ≡ true → r.job_id ≡ id) where
  changes_absent : (rs : List JobRow) → find_job id rs ≡ none → changes test rs ≡ 0
  unfolding changes find_job
  changes_absent [] e = refl
  changes_absent (r ∷ rs) e = ground (arith, named r, str_eq_iff r.job_id id, changes_absent rs)

  pub changes-find_job :
      (rs : List JobRow)
      → UniqueIds rs
      → changes test rs ≡ (elim (find_job id rs) [ none ↦ 0 | some r ↦ if test r then 1 else 0 ])
  unfolding changes find_job
  changes-find_job [] u = refl
  changes-find_job (r ∷ rs) (u, us) =
      ground (arith, named r, str_eq_iff r.job_id id, changes_absent rs, changes-find_job rs us)
