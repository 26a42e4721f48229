-- ===== src/Worker/Jobs/Tests.antt =====
-- Runs of the worker for a stored job, and the theorems at these inputs.
use stellar_batch_pay.Base.{
  ◌≡◌, ◌+◌, refl, none, some, [], arith, ok, inl, length, false, inr, true,
}
use stellar_batch_pay.Types.{failed, testnet}
use stellar_batch_pay.Batcher.Tests.{per_payment, options, plain, plain_batches, plain_batched}
use stellar_batch_pay.Service.Tests.{world, config}
use stellar_batch_pay.JobStore.{JobRow, Store}
use stellar_batch_pay.JobStore.Tests.{
  job, store_of_job, to_sign, store_to_sign, job_stored, job_claimable, to_sign_stored, ended,
  store_ended, ended_stored, to_sign-claimable,
}
use stellar_batch_pay.JobStore.Progress.{Holds}
use stellar_batch_pay.Worker.Tests.{chain}
use stellar_batch_pay.Worker.Jobs.{
  Surroundings, Task, reading, claiming, process_job, recovered_xdrs, recovered_payments,
  presigned_total, final_result,
}
use stellar_batch_pay.Worker.Jobs.Outcome.{IsEnded, signed_tally, process_job_signed}
use stellar_batch_pay.Worker.Jobs.Again.{process_job_once, process_job_fails, process_job_locked}

abbrev around : Surroundings
around = record {
  chain = chain;
  world = λ i. world;
  config = config;
  recommended_fee = λ i. 100;
  oracle = per_payment;
  options = options;
  clock = λ i. 20 + i;
  locked = λ i. 1;
  busy = λ c. false;
  last = 9;
  others = λ i left s. s;
  new_service = λ key. ok tt;
  lease_ms = 30000;
  batch_id = "batch-1";
  total_amount = λ amounts. ok "1.5000000";
  store_message = λ e. "store";
  batch_message = λ e. "batches";
  service_message = λ e. "service";
}

abbrev recovered : Task
recovered = record {
  job_id = "j";
  payments = [];
  network = testnet;
  secret_key = none;
  signed_transactions = none;
}

total_lem : presigned_total around recovered plain ≡ ok "1.5000000"
unfolding presigned_total
total_lem = refl

process_job_once_example :
    (s' : Store) × (process_job around recovered store_of_job ≡ (ok tt, s'))
    × ((around' : Surroundings) (task' : Task)
        → task'.job_id ≡ "j"
        → around'.busy reading ≡ false
        → around'.busy claiming ≡ false
        → process_job around' task' s' ≡ (ok tt, s'))
unfolding recovered_xdrs recovered_payments
process_job_once_example =
    process_job_once around recovered (λ i left s u. (refl, u)) store_of_job job "1.5000000"
      job_stored job_claimable refl refl refl total_lem (λ i l. refl) (omega arith) (omega arith)

abbrev keyed : Task
keyed = record recovered { secret_key = some "S" }

process_job_signed_example :
    (s' : Store) × (r' : JobRow) × (process_job around keyed store_to_sign ≡ (ok tt, s'))
    × Holds "j" r' s'
    × IsEnded
        (length plain_batches)
        (signed_tally around keyed (λ i left s u. (refl, u)) plain_batches)
        (final_result around keyed "j"
          (length plain)
          "1.5000000"
          (length plain_batches)
          (signed_tally around keyed (λ i left s u. (refl, u)) plain_batches))
        r'
unfolding recovered_xdrs recovered_payments
process_job_signed_example =
    process_job_signed around keyed (λ i left s u. (refl, u)) store_to_sign to_sign "S" "1.5000000"
      plain_batches to_sign_stored to_sign-claimable refl refl refl refl (λ e. cc) plain_batched
      refl refl (λ i l. refl) (omega arith) (omega arith)

process_job_fails_example :
    (s' : Store) × (r' : JobRow) × (process_job around recovered store_to_sign ≡ (ok tt, s'))
    × Holds "j" r' s'
    × (r'.status ≡ failed)
    × (r'.error ≡ some "secretKey is required for payment-based submissions")
    × (r'.total_batches ≡ 0)
    × (r'.completed_batches ≡ 0)
    × (r'.result ≡ none)
unfolding recovered_xdrs
process_job_fails_example =
    process_job_fails around recovered (λ i left s u. (refl, u)) store_to_sign to_sign
      "secretKey is required for payment-based submissions" to_sign_stored to_sign-claimable refl
      refl refl (inl (refl, refl)) (omega arith)

-- The claim of a job that has ended finds the database locked.
abbrev claim_locked : Surroundings
claim_locked = record around { busy = λ c. elim c [ claiming ↦ true | _ ↦ false ] }

process_job_locked_example :
    (s' : Store) × (r' : JobRow) × (process_job claim_locked recovered store_ended ≡ (ok tt, s'))
    × Holds "j" r' s'
    × (r'.status ≡ failed)
    × (r'.error ≡ some "store")
    × (r'.total_batches ≡ 0)
    × (r'.completed_batches ≡ 0)
    × (r'.result ≡ none)
process_job_locked_example =
    process_job_locked claim_locked recovered (λ i left s u. (refl, u)) store_ended ended
      ended_stored (inr refl) (omega arith)
