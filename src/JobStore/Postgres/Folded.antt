-- ===== src/JobStore/Postgres/Folded.antt =====
-- lib/backends/job-store-postgres.ts: PostgreSQL writes an identifier without quotes in lower case, and
-- the driver returns that name, so that `requestHash` and `totalBatches` are undefined in a row.
use stellar_batch_pay.Base.{
  ℕ, ◌+◌, ◌<◌, ◌≡◌, ◌≢◌, String, none, some, arith, str_eq_iff, str_eq_refl, ok, err, Option-cases,
  inl, inr,
}
use stellar_batch_pay.JobStore.Idempotency.{row_of}
use stellar_batch_pay.JobStore.{
  JobRow, IdempotencyRow, Store, JobPatch, idempotency_conflict, find_job, find_key, prune_expired,
  idempotency_ttl_ms, IdempotentRequest,
}
use stellar_batch_pay.JobStore.Postgres.{
  store_error, refused_value, insert_job_pg, PostgresReply, property, differs, replay_pg,
  insert_idempotent_pg, create_idempotent_job_pg, update_job_pg, patched_pg,
}

module _ (returned : String → String) where
  property_undefined {ℓ} :
      {A : Type ℓ} (name : String) (a : A) → returned name ≢ name → property returned name a ≡ none
  unfolding property
  property_undefined name a other = ground (arith, str_eq_iff (returned name) name)

  replay_refused :
      (req : IdempotentRequest) (row : IdempotencyRow) (s : Store)
      → returned "requestHash" ≢ "requestHash"
      → replay_pg returned req row s ≡ err (store_error idempotency_conflict)
  unfolding replay_pg differs
  replay_refused req row s other =
      ground (arith, property_undefined "requestHash" row.request_hash other)

  -- The row of a new request is the first that is left after another deletion.
  new_row :
      (req : IdempotentRequest) (now later : ℕ) (id : String) (s s' : Store) (reply : PostgresReply)
      → insert_idempotent_pg returned now id req s ≡ ok (reply, s')
      → later < now + idempotency_ttl_ms
      → find_key req.idempotency_key (prune_expired later s'.idempotency_keys)
        ≡ some (row_of now id req)
  unfolding insert_idempotent_pg insert_job_pg prune_expired find_key
  new_row req now later id s s' reply e soon = ground (arith, str_eq_refl req.idempotency_key)

  -- Where the driver returns `requestHash` under another name, a request that was answered, repeated
  -- with the same key and hash before 24 hours are over, is refused as one for another body.
  pub repeated_request_refused :
      (now later : ℕ) (id id' : String) (req : IdempotentRequest) (s s' : Store)
      (reply : PostgresReply)
      → returned "requestHash" ≢ "requestHash"
      → create_idempotent_job_pg returned now id req s ≡ ok (reply, s')
      → later < now + idempotency_ttl_ms
      → create_idempotent_job_pg returned later id' req s' ≡ err (store_error idempotency_conflict)
  unfolding create_idempotent_job_pg
  repeated_request_refused now later id id' req s s' reply other e soon =
      let keys = prune_expired now s.idempotency_keys in
      elim (Option-cases (find_key req.idempotency_key keys)) [
        | inr (row, found) ↦
            absurd
              (ground (arith, replay_refused req row (record s { idempotency_keys = keys }) other))
        | inl absent ↦ ground (
          arith,
          new_row req now later id (record s { idempotency_keys = keys }) s' reply,
          replay_refused req (row_of now id req)
              (record s' { idempotency_keys = prune_expired later s'.idempotency_keys }) other,
        )
      ]

  patched_refused :
      (now : ℕ) (p : JobPatch) (row : JobRow)
      → returned "totalBatches" ≢ "totalBatches"
      → p.total_batches ≡ none
      → patched_pg returned now p row ≡ err refused_value
  unfolding patched_pg
  patched_refused now p row other same =
      let undefined = property_undefined "totalBatches" row.total_batches other in
      elim (Option-cases p.status) [
        | inr (status, e) ↦ ground arith
        | inl e ↦ elim (Option-cases (property returned "status" row.status)) [
          | inl e' ↦ ground arith
          | inr (status, e') ↦ ground arith
        ]
      ]

  -- Where the driver returns `totalBatches` under another name, an update of a stored job that gives no new
  -- `totalBatches` fails and writes nothing.
  pub update_refused :
      (others : Store → Store) (now : ℕ) (id : String) (p : JobPatch) (s : Store) (row : JobRow)
      → returned "totalBatches" ≢ "totalBatches"
      → p.total_batches ≡ none
      → find_job id s.jobs ≡ some row
      → ((update_job_pg returned others now id p s).0 ≢ ok tt)
        × ((update_job_pg returned others now id p s).1 ≡ others s)
  unfolding update_job_pg
  update_refused others now id p s row other same found =
      let refused = patched_refused now p row other same in
      elim (Option-cases (property returned "version" row.version)) [
        | inl e ↦ (λ h. ground arith, ground arith)
        | inr (version, e) ↦ (λ h. ground arith, ground arith)
      ]
