-- ===== src/JobStore/Postgres.antt =====
-- lib/backends/job-store-postgres.ts: the operations of the job store on PostgreSQL. A row that the driver returns is an object whose property names are
-- the names of the result's columns; `returned` gives the column's name for an identifier as the
-- statement writes it. The property of a row that has no such name is `undefined`. A transaction
-- that throws is rolled back. The next statement of a client sees what other processes wrote.
pub mod Folded
mod Tests
use stellar_batch_pay.Base.{
  ℕ, zero, suc, ◌+◌, String, Bool, true, false, Option, none, some, List, ◌∷◌, ltb, ◌==◌,
  if◌then◌else◌, str_eq, Result, ok, err, ◌>>=◌,
}
use stellar_batch_pay.Types.{
  PaymentInstruction, BatchJobNetwork, BatchResult, JobStatus, processing,
}
use stellar_batch_pay.JobStore.{
  JobRow, IdempotencyRow, Store, JobArgs, JobPatch, StoreError, unique_violation,
  idempotency_conflict, concurrent_modification, new_job, find_job, find_key, update_where, changes,
  prune_expired, idempotency_ttl_ms, IdempotentRequest, owned_by, claimable, at_version, or_keep,
  bumped,
}

-- The errors of the store, a value that a column refuses (a null where it is NOT NULL, or NaN), and a
-- text that `JSON.parse` refuses.
pub data PostgresError : Type 0 where
  store_error : StoreError → PostgresError
  refused_value unparsable : PostgresError

-- `insertJob`, by `createJob`: a statement that only writes.
pub insert_job_pg : ℕ → String → JobArgs → Store → Result PostgresError Store
unfolding new_job
insert_job_pg now id args s = elim (find_job id s.jobs) [
  | some r ↦ err (store_error unique_violation)
  | none ↦ ok (record s { jobs = new_job now id args ∷ s.jobs })
]

pub claim_job_for_processing_pg : ℕ → ℕ → String → Store → Bool × Store
claim_job_for_processing_pg lease now id s = (
  ltb 0 (changes (claimable lease now id) s.jobs),
  record s {
    jobs =
        update_where (claimable lease now id)
          (λ r. record r { status = processing; updated_at = now; version = r.version + 1 }) s.jobs;
  },
)

abbrev pub flat {ℓ} : {A : Type ℓ} → Option (Option A) → Option A
flat none = none
flat (some a) = a

-- A property compared with `!==`.
pub differs : Option String → String → Bool
differs none b = true
differs (some a) b = if str_eq a b then false else true

-- `JobState`, with the properties that may be undefined.
pub record PostgresJob : Type 0 where
  pub job_id : Option String
  pub public_key : Option (Option String)
  pub status : Option JobStatus
  pub total_batches : Option ℕ
  pub completed_batches : Option ℕ
  pub payments : List PaymentInstruction
  pub signed_transactions : Option (List String)
  pub network : Option BatchJobNetwork
  pub result : Option BatchResult
  pub error : Option String
  pub created_at : Option ℕ
  pub updated_at : Option ℕ

pub record PostgresReply : Type 0 where
  pub job_id : Option String
  pub response_body : String
  pub replayed : Bool

module _ (returned : String → String) where
  -- The property `name` of a row whose column is written `name`.
  pub property {ℓ} : {A : Type ℓ} → String → A → Option A
  property name a = if str_eq (returned name) name then some a else none

  pub row_to_job_state : JobRow → Result PostgresError PostgresJob
  unfolding property
  row_to_job_state row = elim (property "payments" row.payments) [
    | none ↦ err unparsable
    | some payments ↦ ok (record {
      job_id = property "jobId" row.job_id;
      public_key = property "publicKey" row.public_key;
      status = property "status" row.status;
      total_batches = property "totalBatches" row.total_batches;
      completed_batches = property "completedBatches" row.completed_batches;
      payments = payments;
      signed_transactions = flat (property "signedTransactions" row.signed_transactions);
      network = property "network" row.network;
      result = flat (property "result" row.result);
      error = flat (property "error" row.error);
      created_at = property "createdAt" row.created_at;
      updated_at = property "updatedAt" row.updated_at;
    })
  ]

  pub get_job_pg : String → Option String → Store → Result PostgresError (Option PostgresJob)
  unfolding row_to_job_state owned_by
  get_job_pg id key s = elim (find_job id s.jobs) [
    | none ↦ ok none
    | some r ↦ if owned_by key r then (do job ← row_to_job_state r; ok (some job)) else ok none
  ]

  replay_pg :
      IdempotentRequest → IdempotencyRow → Store → Result PostgresError (PostgresReply × Store)
  unfolding property differs
  replay_pg req row s =
      if differs (property "requestHash" row.request_hash) req.request_hash
      then err (store_error idempotency_conflict)
      else elim (property "responseBody" row.response_body) [
        | none ↦ err unparsable
        | some body ↦ ok (
          record { job_id = property "jobId" row.job_id; response_body = body; replayed = true },
          s,
        )
      ]

  insert_idempotent_pg :
      ℕ → String → IdempotentRequest → Store → Result PostgresError (PostgresReply × Store)
  unfolding insert_job_pg
  insert_idempotent_pg now id req s = do
    s' ← insert_job_pg now id req.job s
    let body = req.build_response_body id
    let row : IdempotencyRow = record {
      idempotency_key = req.idempotency_key;
      request_hash = req.request_hash;
      job_id = id;
      response_body = body;
      created_at = now;
      expires_at = now + idempotency_ttl_ms;
    }
    ok (
      record { job_id = some id; response_body = body; replayed = false },
      record s' { idempotency_keys = row ∷ s'.idempotency_keys },
    )

  pub create_idempotent_job_pg :
      ℕ → String → IdempotentRequest → Store → Result PostgresError (PostgresReply × Store)
  unfolding replay_pg insert_idempotent_pg
  create_idempotent_job_pg now id req s =
      let pruned = record s { idempotency_keys = prune_expired now s.idempotency_keys } in
      elim (find_key req.idempotency_key pruned.idempotency_keys) [
        | some row ↦ replay_pg req row pruned
        | none ↦ insert_idempotent_pg now id req pruned
      ]

  -- `patch.field ?? row.field`, for a column that is NOT NULL.
  abbrev pub written {ℓ} : {A : Type ℓ} → Option A → Option A → Result PostgresError A
  written (some a) b = ok a
  written none (some b) = ok b
  written none none = err refused_value

  -- What `UPDATE jobs SET …` of `updateJob` writes over a row, by the row that was read.
  pub patched_pg : ℕ → JobPatch → JobRow → Result PostgresError (JobRow → JobRow)
  unfolding property
  patched_pg now p row = do
    status ← written p.status (property "status" row.status)
    total ← written p.total_batches (property "totalBatches" row.total_batches)
    done ← written p.completed_batches (property "completedBatches" row.completed_batches)
    ok (λ r. record r {
      status = status;
      total_batches = total;
      completed_batches = done;
      result = or_keep p.result (flat (property "result" row.result));
      error = or_keep p.error (flat (property "error" row.error));
      updated_at = now;
      version = row.version + 1;
    })

  -- `others`: what other processes write between the two statements. A version that is undefined is
  -- NaN after the addition; a null is refused only where a row is written.
  pub update_job_pg :
      (Store → Store) → ℕ → String → JobPatch → Store → Result PostgresError (Unit {0}) × Store
  unfolding patched_pg property
  update_job_pg others now id p s = elim (find_job id s.jobs) [
    | none ↦ (ok tt, s)
    | some row ↦
        let s' = others s in
        elim (property "version" row.version) [
          | none ↦ (err refused_value, s')
          | some version ↦
              if changes (at_version id version) s'.jobs == 0
              then (err (store_error concurrent_modification), s')
              else elim (patched_pg now p row) [
                | err e ↦ (err e, s')
                | ok f ↦
                    (ok tt, record s' { jobs = update_where (at_version id version) f s'.jobs })
              ]
        ]
  ]

  -- `version = $3` for what the row's property gives; a null equals nothing.
  abbrev pub at_property : String → Option ℕ → JobRow → Bool
  at_property id none r = false
  at_property id (some v) r = at_version id v r

  module _ (others : ℕ → Store → Store) where
    pub increment_pg : ℕ → ℕ → String → Store → Result PostgresError (Unit {0}) × Store
    unfolding bumped property
    increment_pg zero now id s = (ok tt, s)
    increment_pg (suc left) now id s =
        let s' = others left s in
        let again = increment_pg left now id s' in
        elim (find_job id s.jobs) [
          | none ↦ (ok tt, s)
          | some row ↦
              let test = at_property id (property "version" row.version) in
              if ltb 0 (changes test s'.jobs)
              then (ok tt, record s' { jobs = update_where test (bumped now) s'.jobs })
              else if left == 0
              then (err (store_error concurrent_modification), s')
              else again
        ]

    pub increment_completed_batches_pg :
        ℕ → String → Store → Result PostgresError (Unit {0}) × Store
    unfolding increment_pg
    increment_completed_batches_pg now id s = increment_pg 3 now id s
