-- ===== src/JobStore.antt =====
-- lib/backends/job-store-sqlite.ts: the tables `jobs` and `idempotency_keys`. A statement acts on the
-- tables as lists of rows; a transaction that throws leaves them as they were. A time is in
-- milliseconds (the source compares ISO texts of one length, which sort as the times do), and what
-- `JSON.stringify` stored is what `JSON.parse` gives back. A new id is an argument.
pub mod Rows
pub mod Claims
pub mod Lease
pub mod Idempotency
pub mod Invariant
pub mod Reach
pub mod Access
pub mod Postgres
pub mod Progress
pub mod Queries
pub mod Tests
use stellar_batch_pay.Base.{
  ℕ, zero, suc, ◌+◌, ◌-◌, ◌*◌, String, Bool, true, false, ◌&&◌, ◌||◌, Option, none, some, List, [],
  ◌∷◌, ◌++◌, ltb, leb, ◌==◌, if◌then◌else◌, str_eq, Result, ok, err, ◌>>=◌,
}
use stellar_batch_pay.Types.{
  PaymentInstruction, BatchJobNetwork, BatchResult, JobStatus, queued, processing, completed,
  failed,
}

pub record JobRow : Type 0 where
  pub job_id : String
  pub public_key : Option String
  pub status : JobStatus
  pub total_batches : ℕ
  pub completed_batches : ℕ
  pub payments : List PaymentInstruction
  pub signed_transactions : Option (List String)
  pub network : BatchJobNetwork
  pub result : Option BatchResult
  pub error : Option String
  pub created_at : ℕ
  pub updated_at : ℕ
  pub version : ℕ

pub record IdempotencyRow : Type 0 where
  pub idempotency_key : String
  pub request_hash : String
  pub job_id : String
  pub response_body : String
  pub created_at : ℕ
  pub expires_at : ℕ

pub record Store : Type 0 where
  pub jobs : List JobRow
  pub idempotency_keys : List IdempotencyRow

pub data StoreError : Type 0 where
  unique_violation idempotency_conflict concurrent_modification busy : StoreError

abbrev pub empty : Store
empty = record { jobs = []; idempotency_keys = [] }

-- `SELECT … WHERE jobId = ?`
pub find_job : String → List JobRow → Option JobRow
find_job id [] = none
find_job id (r ∷ rs) = if str_eq r.job_id id then some r else find_job id rs

pub find_key : String → List IdempotencyRow → Option IdempotencyRow
find_key key [] = none
find_key key (r ∷ rs) = if str_eq r.idempotency_key key then some r else find_key key rs

-- `UPDATE jobs SET … WHERE …`: the rows after it.
pub update_where : (JobRow → Bool) → (JobRow → JobRow) → List JobRow → List JobRow
update_where test f [] = []
update_where test f (r ∷ rs) =
    let rest = update_where test f rs in if test r then f r ∷ rest else r ∷ rest

-- The `changes` of that statement.
pub changes : (JobRow → Bool) → List JobRow → ℕ
changes test [] = 0
changes test (r ∷ rs) = let rest = changes test rs in if test r then suc rest else rest

-- `BatchJobArgs`
pub record JobArgs : Type 0 where
  pub payments : List PaymentInstruction
  pub signed_transactions : Option (List String)
  pub network : BatchJobNetwork
  pub public_key : String

pub new_job : ℕ → String → JobArgs → JobRow
new_job now id args = record {
  job_id = id;
  public_key = some args.public_key;
  status = queued;
  total_batches = 0;
  completed_batches = 0;
  payments = args.payments;
  signed_transactions = args.signed_transactions;
  network = args.network;
  result = none;
  error = none;
  created_at = now;
  updated_at = now;
  version = 1;
}

-- `jobId` is the primary key.
pub insert_job : ℕ → String → JobArgs → Store → Result StoreError Store
unfolding new_job
insert_job now id args s = elim (find_job id s.jobs) [
  | some r ↦ err unique_violation
  | none ↦ ok (record s { jobs = new_job now id args ∷ s.jobs })
]

unfoldable pub create_job : ℕ → String → JobArgs → Store → Result StoreError Store
unfolding insert_job
create_job now id args s = insert_job now id args s

-- `DELETE FROM idempotency_keys WHERE expiresAt <= ?`
pub prune_expired : ℕ → List IdempotencyRow → List IdempotencyRow
prune_expired now [] = []
prune_expired now (r ∷ rs) =
    let rest = prune_expired now rs in if leb r.expires_at now then rest else r ∷ rest

abbrev pub idempotency_ttl_ms : ℕ
idempotency_ttl_ms = 24 * 60 * 60 * 1000

pub record IdempotentJobResult : Type 0 where
  pub job_id : String
  pub response_body : String
  pub replayed : Bool

pub record IdempotentRequest : Type 0 where
  pub idempotency_key : String
  pub request_hash : String
  pub job : JobArgs
  pub build_response_body : String → String

-- The branch for a stored key; one for a new request.
replay :
    IdempotentRequest → IdempotencyRow → Store → Result StoreError (IdempotentJobResult × Store)
replay req row s =
    if str_eq row.request_hash req.request_hash
    then ok (record { job_id = row.job_id; response_body = row.response_body; replayed = true }, s)
    else err idempotency_conflict

insert_idempotent :
    ℕ → String → IdempotentRequest → Store → Result StoreError (IdempotentJobResult × Store)
insert_idempotent now id req s = do
  s' ← insert_job now id req.job s
  let body = req.build_response_body id
  let row : IdempotencyRow = record {
    idempotency_key = req.idempotency_key;
    request_hash = req.request_hash;
    job_id = id;
    response_body = body;
    created_at = now;
    expires_at = now + idempotency_ttl_ms;
  }
  ok (
    record { job_id = id; response_body = body; replayed = false },
    record s' { idempotency_keys = row ∷ s'.idempotency_keys },
  )

pub create_idempotent_job :
    ℕ → String → IdempotentRequest → Store → Result StoreError (IdempotentJobResult × Store)
unfolding replay insert_idempotent
create_idempotent_job now id req s =
    let pruned = record s { idempotency_keys = prune_expired now s.idempotency_keys } in
    elim (find_key req.idempotency_key pruned.idempotency_keys) [
      | some row ↦ replay req row pruned
      | none ↦ insert_idempotent now id req pruned
    ]

-- An empty `publicKey` is no filter, as an absent one.
pub owned_by : Option String → JobRow → Bool
owned_by none r = true
owned_by (some key) r =
    if str_eq key ""
    then true
    else elim r.public_key [ none ↦ false | some owner ↦ str_eq owner key ]

pub get_job : String → Option String → Store → Option JobRow
unfolding owned_by
get_job id key s = elim (find_job id s.jobs) [
  | none ↦ none
  | some r ↦ if owned_by key r then some r else none
]

abbrev pub is_queued : JobStatus → Bool
is_queued queued = true
is_queued _ = false

abbrev pub is_processing : JobStatus → Bool
is_processing processing = true
is_processing _ = false

-- The condition of the claim: queued, or processing for longer than the lease. (Where `now` is below
-- the lease, `updatedAt` is not below the negative difference, nor below 0.)
pub claimable : ℕ → ℕ → String → JobRow → Bool
claimable lease now id r =
    str_eq r.job_id id
    && (is_queued r.status || (is_processing r.status && ltb r.updated_at (now - lease)))

-- The claim of a database that is not locked. Where it is, the claim throws and writes nothing, without
-- another attempt: `tried` of Worker/Jobs has this outcome.
pub claim_job_for_processing : ℕ → ℕ → String → Store → Bool × Store
claim_job_for_processing lease now id s = (
  ltb 0 (changes (claimable lease now id) s.jobs),
  record s {
    jobs =
        update_where (claimable lease now id)
          (λ r. record r { status = processing; updated_at = now; version = r.version + 1 }) s.jobs;
  },
)

abbrev pub at_version : String → ℕ → JobRow → Bool
at_version id v r = str_eq r.job_id id && r.version == v

-- `Partial<JobState>`: the fields that `updateJob` writes.
pub record JobPatch : Type 0 where
  pub status : Option JobStatus
  pub total_batches : Option ℕ
  pub completed_batches : Option ℕ
  pub result : Option BatchResult
  pub error : Option String

abbrev pub or_else {ℓ} : {A : Type ℓ} → Option A → A → A
or_else none a = a
or_else (some b) a = b

abbrev pub or_keep {ℓ} : {A : Type ℓ} → Option A → Option A → Option A
or_keep none a = a
or_keep (some b) a = some b

pub patched : ℕ → JobPatch → JobRow → JobRow → JobRow
patched now p row r = record r {
  status = or_else p.status row.status;
  total_batches = or_else p.total_batches row.total_batches;
  completed_batches = or_else p.completed_batches row.completed_batches;
  result = or_keep p.result row.result;
  error = or_keep p.error row.error;
  updated_at = now;
  version = row.version + 1;
}

-- The transaction of `updateJob`.
pub update_job_once : ℕ → String → JobPatch → Store → Result StoreError Store
unfolding patched
update_job_once now id p s = elim (find_job id s.jobs) [
  | none ↦ ok s
  | some row ↦
      if changes (at_version id row.version) s.jobs == 0
      then err concurrent_modification
      else ok
          (record s { jobs = update_where (at_version id row.version) (patched now p row) s.jobs })
]

-- The retries of `updateJob` while the database is locked, for its remaining attempts.
update_from : ℕ → ℕ → ℕ → String → JobPatch → Store → Result StoreError Store
update_from zero locked now id p s = err busy
update_from (suc left) zero now id p s = update_job_once now id p s
update_from (suc left) (suc locked) now id p s =
    let again = update_from left locked now id p s in if left == 0 then err busy else again

-- `locked` of the first attempts find the database locked.
pub update_job : ℕ → ℕ → String → JobPatch → Store → Result StoreError Store
unfolding update_from
update_job locked now id p s = update_from 2 locked now id p s

pub bumped : ℕ → JobRow → JobRow
bumped now r = record r {
  completed_batches = r.completed_batches + 1;
  updated_at = now;
  version = r.version + 1;
}

-- What other processes do to the tables between the read and the write of an attempt, by the attempts
-- that are left after it.
module _ (others : ℕ → Store → Store) where
  pub increment_from : ℕ → ℕ → String → Store → Result StoreError (Unit {0}) × Store
  unfolding bumped
  increment_from zero now id s = (ok tt, s)
  increment_from (suc left) now id s =
      let s' = others left s in
      let again = increment_from left now id s' in
      elim (find_job id s.jobs) [
        | none ↦ (ok tt, s)
        | some row ↦
            if ltb 0 (changes (at_version id row.version) s'.jobs)
            then (
              ok tt,
              record s' { jobs = update_where (at_version id row.version) (bumped now) s'.jobs },
            )
            else if left == 0
            then (err concurrent_modification, s')
            else again
      ]

  -- The progress, where none of its statements finds the database locked. Where one does, it throws
  -- without another attempt: `progressed` of Worker/Jobs has this outcome.
  pub increment_completed_batches : ℕ → String → Store → Result StoreError (Unit {0}) × Store
  unfolding increment_from
  increment_completed_batches now id s = increment_from 3 now id s
