-- ===== src/JobStore/Invariant.antt =====
-- What holds of the tables between two operations.
use stellar_batch_pay.Base.{
  ℕ, ◌≡◌, refl, sym, subst, ◌≢◌, inl, inr, String, Bool, none, List, [], ◌∷◌, arith, leb,
  str_eq_refl, Bool-cases, Option-cases, All, All-map, ok,
}
use stellar_batch_pay.JobStore.{
  JobRow, JobArgs, JobPatch, IdempotencyRow, Store, empty, IdempotentRequest, IdempotentJobResult,
  find_job, find_key, prune_expired, update_where, new_job, insert_job, create_job, replay,
  insert_idempotent, create_idempotent_job, claim_job_for_processing, claimable, at_version,
  patched, update_job_once,
}
use stellar_batch_pay.JobStore.Claims.{claimed}
use stellar_batch_pay.JobStore.Idempotency.{pruned, row_of}
use stellar_batch_pay.JobStore.Rows.{
  UniqueIds, UniqueKeys, find_job-update_where, update_where-UniqueIds,
}

-- The job of a stored key is stored.
abbrev pub HasJob : List JobRow → IdempotencyRow → Type 0
HasJob jobs k = find_job k.job_id jobs ≢ none

pub record IsWellFormed (s : Store) : Type 0 where
  pub unique_ids : UniqueIds s.jobs
  pub unique_keys : UniqueKeys s.idempotency_keys
  pub has_jobs : All (HasJob s.jobs) s.idempotency_keys

pub empty-IsWellFormed : IsWellFormed empty
empty-IsWellFormed = record { unique_ids = tt; unique_keys = tt; has_jobs = tt }

-- A new row hides none.
find_job-cons :
    (id : String) (r : JobRow) (rs : List JobRow)
    → find_job id rs ≢ none
    → find_job id (r ∷ rs) ≢ none
unfolding find_job
find_job-cons id r rs h e = ground arith

insert_job_shape :
    (now : ℕ) (id : String) (args : JobArgs) (s s' : Store)
    → insert_job now id args s ≡ ok s'
    → (find_job id s.jobs ≡ none) × (s' ≡ record s { jobs = new_job now id args ∷ s.jobs })
unfolding insert_job
insert_job_shape now id args s s' e = ground arith

new-IsWellFormed :
    (now : ℕ) (id : String) (args : JobArgs) (s : Store)
    → IsWellFormed s
    → find_job id s.jobs ≡ none
    → IsWellFormed (record s { jobs = new_job now id args ∷ s.jobs })
unfolding new_job
new-IsWellFormed now id args s w e = record {
  unique_ids = (e, w.unique_ids);
  unique_keys = w.unique_keys;
  has_jobs =
      All-map (λ k. find_job-cons k.job_id (new_job now id args) s.jobs) s.idempotency_keys
        w.has_jobs;
}

find_key-prune_kept :
    (now : ℕ) (key : String) (rs : List IdempotencyRow)
    → find_key key rs ≡ none
    → find_key key (prune_expired now rs) ≡ none
unfolding find_key prune_expired
find_key-prune_kept now key [] e = refl
find_key-prune_kept now key (x ∷ rs) e = ground (arith, find_key-prune_kept now key rs)

prune_expired-UniqueKeys :
    (now : ℕ) (rs : List IdempotencyRow) → UniqueKeys rs → UniqueKeys (prune_expired now rs)
unfolding prune_expired
prune_expired-UniqueKeys now [] u = tt
prune_expired-UniqueKeys now (x ∷ rs) (u, us) =
    ground (arith, find_key-prune_kept now x.idempotency_key rs, prune_expired-UniqueKeys now rs us)

prune_expired-All :
    (P : IdempotencyRow → Type 0) (now : ℕ) (rs : List IdempotencyRow)
    → All P rs
    → All P (prune_expired now rs)
unfolding prune_expired
prune_expired-All P now [] h = tt
prune_expired-All P now (x ∷ rs) (h, hs) = elim (Bool-cases (leb x.expires_at now)) [
  | inl e ↦ rw (e, prune_expired) (prune_expired-All P now rs hs)
  | inr e ↦ rw (e, prune_expired) (h, prune_expired-All P now rs hs)
]

prune-IsWellFormed :
    (now : ℕ) (s : Store)
    → IsWellFormed s
    → IsWellFormed (record s { idempotency_keys = prune_expired now s.idempotency_keys })
prune-IsWellFormed now s w = record {
  unique_ids = w.unique_ids;
  unique_keys = prune_expired-UniqueKeys now s.idempotency_keys w.unique_keys;
  has_jobs = prune_expired-All (HasJob s.jobs) now s.idempotency_keys w.has_jobs;
}

new_job_found :
    (now : ℕ) (id : String) (args : JobArgs) (rs : List JobRow)
    → find_job id (new_job now id args ∷ rs) ≢ none
unfolding find_job new_job
new_job_found now id args rs e = ground (arith, str_eq_refl id)

insert_idempotent_shape :
    (now : ℕ) (id : String) (req : IdempotentRequest) (s s' : Store) (res : IdempotentJobResult)
    → insert_idempotent now id req s ≡ ok (res, s')
    → (find_job id s.jobs ≡ none)
      × (s' ≡ record {
        jobs = new_job now id req.job ∷ s.jobs;
        idempotency_keys = row_of now id req ∷ s.idempotency_keys;
      })
unfolding insert_idempotent insert_job
insert_idempotent_shape now id req s s' res e = ground arith

insert_idempotent-IsWellFormed :
    (now : ℕ) (id : String) (req : IdempotentRequest) (s s' : Store) (res : IdempotentJobResult)
    → IsWellFormed s
    → find_key req.idempotency_key s.idempotency_keys ≡ none
    → insert_idempotent now id req s ≡ ok (res, s')
    → IsWellFormed s'
insert_idempotent-IsWellFormed now id req s s' res w none_yet e =
    let (fresh, same) = insert_idempotent_shape now id req s s' res e in
    let w₁ = new-IsWellFormed now id req.job s w fresh in
    subst IsWellFormed (sym same) (record {
      unique_ids = w₁.unique_ids;
      unique_keys = (none_yet, w.unique_keys);
      has_jobs = (new_job_found now id req.job s.jobs, w₁.has_jobs);
    })

replay_store :
    (req : IdempotentRequest) (row : IdempotencyRow) (s s' : Store) (res : IdempotentJobResult)
    → replay req row s ≡ ok (res, s')
    → s ≡ s'
unfolding replay
replay_store req row s s' res e = ground arith

update_where-HasJob :
    (test : JobRow → Bool) (f : JobRow → JobRow)
    → ((r : JobRow) → (f r).job_id ≡ r.job_id)
    → (k : IdempotencyRow) (rs : List JobRow) → HasJob rs k
    → HasJob (update_where test f rs) k
update_where-HasJob test f same k rs h e =
    h (ground (arith, find_job-update_where test f same k.job_id rs))

-- An update of job rows that keeps their ids keeps the tables well formed.
pub update_where-IsWellFormed :
    (test : JobRow → Bool) (f : JobRow → JobRow)
    → ((r : JobRow) → (f r).job_id ≡ r.job_id)
    → (s : Store) → IsWellFormed s
    → IsWellFormed (record s { jobs = update_where test f s.jobs })
update_where-IsWellFormed test f same s w = record {
  unique_ids = update_where-UniqueIds test f same s.jobs w.unique_ids;
  unique_keys = w.unique_keys;
  has_jobs = All-map (λ k. update_where-HasJob test f same k s.jobs) s.idempotency_keys w.has_jobs;
}

-- A new job keeps the tables well formed: no two rows have one id or one key, and the job of every
-- stored key is stored.
pub create_job-IsWellFormed :
    (now : ℕ) (id : String) (args : JobArgs) (s s' : Store)
    → IsWellFormed s
    → create_job now id args s ≡ ok s'
    → IsWellFormed s'
unfolding create_job
create_job-IsWellFormed now id args s s' w e =
    let (fresh, same) = insert_job_shape now id args s s' e in
    subst IsWellFormed (sym same) (new-IsWellFormed now id args s w fresh)

pub create_idempotent_job-IsWellFormed :
    (now : ℕ) (id : String) (req : IdempotentRequest) (s s' : Store) (res : IdempotentJobResult)
    → IsWellFormed s
    → create_idempotent_job now id req s ≡ ok (res, s')
    → IsWellFormed s'
unfolding create_idempotent_job
create_idempotent_job-IsWellFormed now id req s s' res w e =
    elim (Option-cases (find_key req.idempotency_key (prune_expired now s.idempotency_keys))) [
      | inl e' ↦
          insert_idempotent-IsWellFormed now id req (pruned now s) s' res
            (prune-IsWellFormed now s w) e' (rw (e', create_idempotent_job) at e)
      | inr (row, e') ↦
          subst IsWellFormed
            (replay_store req row (pruned now s) s' res (rw (e', create_idempotent_job) at e))
            (prune-IsWellFormed now s w)
    ]

pub claim-IsWellFormed :
    (lease now : ℕ) (id : String) (s : Store)
    → IsWellFormed s
    → IsWellFormed (claim_job_for_processing lease now id s).1
unfolding claim_job_for_processing
claim-IsWellFormed lease now id s w =
    update_where-IsWellFormed (claimable lease now id) (claimed now) (λ r. refl) s w

pub update_job_once-IsWellFormed :
    (now : ℕ) (id : String) (p : JobPatch) (s s' : Store)
    → IsWellFormed s
    → update_job_once now id p s ≡ ok s'
    → IsWellFormed s'
unfolding update_job_once patched
update_job_once-IsWellFormed now id p s s' w e = elim (Option-cases (find_job id s.jobs)) [
  | inl e' ↦ subst IsWellFormed (ground arith) w
  | inr (row, e') ↦
      subst IsWellFormed (ground arith)
        (update_where-IsWellFormed (at_version id row.version) (patched now p row) (λ r. refl) s w)
]
