-- ===== src/JobStore/Idempotency.antt =====
-- `createIdempotentJob`: a repeated request is answered from the stored row.
use stellar_batch_pay.Base.{
  str_eq_refl, ◌∙◌, ℕ, ◌+◌, ◌≤◌, ◌<◌, ◌≡◌, refl, inl, inr, String, true, false, none, some, List,
  [], ◌∷◌, arith, if◌then◌else◌, str_eq, str_eq_iff, Option-cases, ok, err,
}
use stellar_batch_pay.JobStore.{
  IdempotencyRow, Store, idempotency_conflict, IdempotentRequest, IdempotentJobResult, replay,
  insert_idempotent, idempotency_ttl_ms, find_job, find_key, prune_expired, new_job, insert_job,
  create_idempotent_job,
}
use stellar_batch_pay.JobStore.Rows.{UniqueKeys}

-- A row that has not expired is still the one found.
pub find_key-prune_expired :
    (now : ℕ) (key : String) (rs : List IdempotencyRow) (r : IdempotencyRow)
    → find_key key rs ≡ some r
    → now < r.expires_at
    → find_key key (prune_expired now rs) ≡ some r
unfolding find_key prune_expired
find_key-prune_expired now key [] r e h = cc
find_key-prune_expired now key (x ∷ rs) r e h = ground (arith, find_key-prune_expired now key rs r)

find_key-prune_none :
    (now : ℕ) (key : String) (rs : List IdempotencyRow)
    → find_key key rs ≡ none
    → find_key key (prune_expired now rs) ≡ none
unfolding find_key prune_expired
find_key-prune_none now key [] e = refl
find_key-prune_none now key (x ∷ rs) e = ground (arith, find_key-prune_none now key rs)

-- An expired row is gone, where keys are unique.
find_key-prune_gone :
    (now : ℕ) (key : String) (rs : List IdempotencyRow) (r : IdempotencyRow)
    → UniqueKeys rs
    → find_key key rs ≡ some r
    → r.expires_at ≤ now
    → find_key key (prune_expired now rs) ≡ none
unfolding find_key prune_expired
find_key-prune_gone now key [] r u e h = refl
find_key-prune_gone now key (x ∷ rs) r (u, us) e h = ground (
  arith,
  str_eq_iff x.idempotency_key key,
  find_key-prune_gone now key rs r us,
  find_key-prune_none now key rs,
)

-- The tables after the expired rows are deleted.
abbrev pub pruned : ℕ → Store → Store
pruned now s = record s { idempotency_keys = prune_expired now s.idempotency_keys }

-- A request with a key that is stored and has not expired is answered with the stored job and body,
-- where its hash is the stored one, and refused as a conflict where it is another; no job is added.
pub create_idempotent_job_replay :
    (now : ℕ) (id : String) (req : IdempotentRequest) (s : Store) (row : IdempotencyRow)
    → find_key req.idempotency_key s.idempotency_keys ≡ some row
    → now < row.expires_at
    → create_idempotent_job now id req s ≡ (
        if str_eq row.request_hash req.request_hash
        then ok (
          record { job_id = row.job_id; response_body = row.response_body; replayed = true },
          pruned now s,
        )
        else err idempotency_conflict)
unfolding create_idempotent_job
create_idempotent_job_replay now id req s row e h =
    rw
      (
        find_key-prune_expired now req.idempotency_key s.idempotency_keys row e h,
        create_idempotent_job,
      )
      refl

-- The row that a new request leaves.
abbrev pub row_of : ℕ → String → IdempotentRequest → IdempotencyRow
row_of now id req = record {
  idempotency_key = req.idempotency_key;
  request_hash = req.request_hash;
  job_id = id;
  response_body = req.build_response_body id;
  created_at = now;
  expires_at = now + idempotency_ttl_ms;
}

-- A request with a key that is not stored, or has expired, and a new job id adds one queued job and
-- one row for the key. It is stated of a table in which no two rows have one key.
pub create_idempotent_job_new :
    (now : ℕ) (id : String) (req : IdempotentRequest) (s : Store)
    → UniqueKeys s.idempotency_keys
    → ((row : IdempotencyRow)
        → find_key req.idempotency_key s.idempotency_keys ≡ some row
        → row.expires_at ≤ now)
    → find_job id s.jobs ≡ none
    → create_idempotent_job now id req s
      ≡ ok (
        record { job_id = id; response_body = req.build_response_body id; replayed = false },
        record {
          jobs = new_job now id req.job ∷ s.jobs;
          idempotency_keys = row_of now id req ∷ prune_expired now s.idempotency_keys;
        },
      )
unfolding create_idempotent_job insert_job
create_idempotent_job_new now id req s u gone fresh =
    rw (missing, create_idempotent_job) (rw (fresh, insert_job) refl)
  where
    missing : find_key req.idempotency_key (prune_expired now s.idempotency_keys) ≡ none
    missing = elim (Option-cases (find_key req.idempotency_key s.idempotency_keys)) [
      | inl e ↦ find_key-prune_none now req.idempotency_key s.idempotency_keys e
      | inr (row, e) ↦
          find_key-prune_gone now req.idempotency_key s.idempotency_keys row u e (gone row e)
    ]

-- What a request leaves that was not answered from a stored row.
created_row :
    (now : ℕ) (id : String) (req : IdempotentRequest) (s : Store) {res : IdempotentJobResult}
    {s' : Store}
    → create_idempotent_job now id req s ≡ ok (res, s')
    → res.replayed ≡ false
    → (res ≡ record { job_id = id; response_body = req.build_response_body id; replayed = false })
      × (find_key req.idempotency_key s'.idempotency_keys ≡ some (row_of now id req))
unfolding create_idempotent_job replay insert_idempotent insert_job find_key
created_row now id req s e f = ground (arith, str_eq_refl req.idempotency_key)

-- A request that created a job, repeated with the same key and hash before 24 hours are over, gets
-- the same job id and body as a replay, and adds no job.
pub create_idempotent_job_twice :
    (now later : ℕ) (id id' : String) (req : IdempotentRequest) (s s' : Store)
    (res : IdempotentJobResult)
    → create_idempotent_job now id req s ≡ ok (res, s')
    → res.replayed ≡ false
    → later < now + idempotency_ttl_ms
    → create_idempotent_job later id' req s' ≡ ok (record res { replayed = true }, pruned later s')
create_idempotent_job_twice now later id id' req s s' res e f h =
    let (same, found) = created_row now id req s e f in
    create_idempotent_job_replay later id' req s' (row_of now id req) found h
    ∙ rw (same, str_eq_refl req.request_hash) refl
