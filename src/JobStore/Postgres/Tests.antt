-- ===== src/JobStore/Postgres/Tests.antt =====
-- Runs of the PostgreSQL backend, and the theorems at these inputs.
use stellar_batch_pay.Base.{
  str_eq_iff, ◌≡◌, ◌≢◌, refl, String, none, some, arith, ok, err, str_eq, if◌then◌else◌, false,
}
use stellar_batch_pay.JobStore.{
  JobPatch, empty, idempotency_conflict, find_key, find_job, prune_expired, new_job,
}
use stellar_batch_pay.JobStore.Tests.{request, row, stored}
use stellar_batch_pay.JobStore.Postgres.{
  store_error, PostgresReply, create_idempotent_job_pg, insert_idempotent_pg, insert_job_pg,
  update_job_pg,
}
use stellar_batch_pay.JobStore.Postgres.Folded.{repeated_request_refused, update_refused}

-- PostgreSQL's names of two of the columns.
folded : String → String
folded name =
    if str_eq name "requestHash"
    then "requesthash"
    else if str_eq name "totalBatches"
    then "totalbatches"
    else name

hash_folded : folded "requestHash" ≢ "requestHash"
unfolding folded
hash_folded = ground (arith, str_eq_iff "requesthash" "requestHash")

total_folded : folded "totalBatches" ≢ "totalBatches"
unfolding folded
total_folded = ground (arith, str_eq_iff "totalbatches" "totalBatches")

abbrev reply : PostgresReply
reply = record { job_id = some "j"; response_body = "j"; replayed = false }

stored_pg : create_idempotent_job_pg folded 10 "j" request empty ≡ ok (reply, stored)
unfolding create_idempotent_job_pg insert_idempotent_pg insert_job_pg find_key find_job
    prune_expired new_job
stored_pg = refl

repeated_request_refused_example :
    create_idempotent_job_pg folded 500 "x" request stored ≡ err (store_error idempotency_conflict)
repeated_request_refused_example =
    repeated_request_refused folded 10 500 "j" "x" request empty stored reply hash_folded stored_pg
      (omega arith)

abbrev renamed : JobPatch
renamed = record {
  status = none;
  total_batches = none;
  completed_batches = none;
  result = none;
  error = some "e";
}

update_refused_example :
    ((update_job_pg folded (λ s. s) 20 "j" renamed stored).0 ≢ ok tt)
    × ((update_job_pg folded (λ s. s) 20 "j" renamed stored).1 ≡ stored)
unfolding find_job
update_refused_example =
    update_refused folded (λ s. s) 20 "j" renamed stored row total_folded refl refl
