-- ===== src/JobStore/Tests.antt =====
-- Runs of the job store, and the theorems at these inputs.
use stellar_batch_pay.Base.{◌≡◌, refl, true, false, none, some, [], ◌∷◌, arith, ok}
use stellar_batch_pay.Types.{testnet, queued, processing}
use stellar_batch_pay.JobStore.{
  JobRow, JobArgs, JobPatch, Store, empty, IdempotentRequest, IdempotentJobResult, find_job,
  find_key, new_job, insert_job, create_idempotent_job, claim_job_for_processing, claimable,
  changes, prune_expired, completed,
}
use stellar_batch_pay.JobStore.Lease.{claim, progress, granted, claim_once}
use stellar_batch_pay.JobStore.Idempotency.{pruned, row_of, create_idempotent_job_twice}
use stellar_batch_pay.JobStore.Invariant.{IsWellFormed}
use stellar_batch_pay.JobStore.Reach.{start, next, requests, Reach-IsWellFormed}
use stellar_batch_pay.Batcher.Tests.{plain}
use stellar_batch_pay.JobStore.Progress.{Holds}

abbrev args : JobArgs
args = record { payments = []; signed_transactions = none; network = testnet; public_key = "GA" }

abbrev pub request : IdempotentRequest
request = record {
  idempotency_key = "k";
  request_hash = "h";
  job = args;
  build_response_body = λ id. id;
}

abbrev pub row : JobRow
row = record {
  job_id = "j";
  public_key = some "GA";
  status = queued;
  total_batches = 0;
  completed_batches = 0;
  payments = [];
  signed_transactions = none;
  network = testnet;
  result = none;
  error = none;
  created_at = 10;
  updated_at = 10;
  version = 1;
}

abbrev pub stored : Store
stored = record { jobs = row ∷ []; idempotency_keys = row_of 10 "j" request ∷ [] }

abbrev fresh : IdempotentJobResult
fresh = record { job_id = "j"; response_body = "j"; replayed = false }

stored_by : create_idempotent_job 10 "j" request empty ≡ ok (fresh, stored)
unfolding create_idempotent_job insert_job new_job find_key find_job prune_expired
stored_by = refl

claim_once_example :
    granted 30 "j"
      (claim 35 ∷ progress 40 ∷ claim 70 ∷ [])
      (claim_job_for_processing 30 11 "j" stored).1
    ≡ 0
unfolding find_job claim_job_for_processing changes claimable
claim_once_example =
    claim_once 30 "j" 11 (claim 35 ∷ progress 40 ∷ claim 70 ∷ []) stored (refl, tt) refl
      (omega arith)

create_idempotent_job_twice_example :
    create_idempotent_job 500 "x" request stored
    ≡ ok (record fresh { replayed = true }, pruned 500 stored)
create_idempotent_job_twice_example =
    create_idempotent_job_twice 10 500 "j" "x" request empty stored fresh stored_by refl
      (omega arith)

Reach-IsWellFormed_example : IsWellFormed stored
Reach-IsWellFormed_example =
    Reach-IsWellFormed (next start (requests 10 "j" request fresh stored_by))

abbrev done : JobPatch
done = record {
  status = some processing;
  total_batches = some 2;
  completed_batches = some 0;
  result = none;
  error = none;
}

abbrev pub job : JobRow
job = record {
  job_id = "j";
  public_key = some "GA";
  status = queued;
  total_batches = 0;
  completed_batches = 0;
  payments = plain;
  signed_transactions = some ("AAAA" ∷ "BBBB" ∷ "" ∷ []);
  network = testnet;
  result = none;
  error = none;
  created_at = 10;
  updated_at = 10;
  version = 1;
}

abbrev pub store_of_job : Store
store_of_job = record { jobs = job ∷ []; idempotency_keys = [] }

abbrev pub to_sign : JobRow
to_sign = record job { signed_transactions = none }

abbrev pub store_to_sign : Store
store_to_sign = record { jobs = to_sign ∷ []; idempotency_keys = [] }

pub job_stored : Holds "j" job store_of_job
unfolding find_job
job_stored = (refl, (refl, tt))

pub to_sign_stored : Holds "j" to_sign store_to_sign
unfolding find_job
to_sign_stored = (refl, (refl, tt))

pub job_claimable : claimable 30000 20 "j" job ≡ true
unfolding claimable
job_claimable = refl

pub to_sign-claimable : claimable 30000 20 "j" to_sign ≡ true
unfolding claimable
to_sign-claimable = refl

abbrev pub ended : JobRow
ended = record job { status = completed }

abbrev pub store_ended : Store
store_ended = record { jobs = ended ∷ []; idempotency_keys = [] }

pub ended_stored : Holds "j" ended store_ended
unfolding find_job
ended_stored = (refl, (refl, tt))
