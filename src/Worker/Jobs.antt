-- ===== src/Worker/Jobs.antt =====
-- lib/stellar/batch-worker.ts: `processJobInBackground` whole, with the job's row in the tables of the
-- SQLite job store. Webhooks are left out: they are sent after the last write and not awaited.
pub mod Finish
pub mod Outcome
pub mod Again
mod Tests
use stellar_batch_pay.Base.{
  ℕ, ◌+◌, String, Option, none, some, Bool, true, not, List, [], ◌∷◌, map, if◌then◌else◌, length,
  is_empty, str_eq, Result, ok, err,
}
use stellar_batch_pay.Types.{
  PaymentInstruction, PaymentResult, BatchResult, BatchJobNetwork, processing, failed,
}
use stellar_batch_pay.Batcher.{BatchError, SizeOracle, Options, create_batches}
use stellar_batch_pay.Service.{World, Config, ServiceError, submit_single_batch}
use stellar_batch_pay.JobStore.{
  JobRow, JobPatch, Store, StoreError, busy, get_job, claim_job_for_processing,
  increment_completed_batches, update_job,
}
use stellar_batch_pay.Worker.{
  Chain, Tally, untallied, source_mismatch, max_ops, process_xdr, process_batch, final_status,
  total_recipients,
}

-- The calls of the store that do not try again: the read of the job, its claim, and the progress after
-- the batch `i`.
pub data StoreCall : Type 0 where
  reading claiming : StoreCall
  progressing : ℕ → StoreCall

-- What the worker meets: the answers of the network to pre-signed transactions (`chain`) and, for each
-- batch, to the service; sizes, fees and times; how often an update finds the database locked
-- (`locked`), which other calls find it locked (`busy`), and what other processes write during the
-- progress of a batch. The calls of the store are numbered,
-- `last` is that of the `catch`. `new_service` is the constructor of StellarService for a secret key.
-- `total_amount` is `formatStellarAmount(sumStellarAmounts(…))`.
pub record Surroundings : Type 0 where
  pub chain : Chain
  pub world : ℕ → World
  pub config : Config
  pub recommended_fee : ℕ → ℕ
  pub oracle : SizeOracle
  pub options : Options
  pub clock : ℕ → ℕ
  pub locked : ℕ → ℕ
  pub busy : StoreCall → Bool
  pub last : ℕ
  pub others : ℕ → ℕ → Store → Store
  pub new_service : String → Result String (Unit {0})
  pub lease_ms : ℕ
  pub batch_id : String
  pub total_amount : List String → Result String String
  pub store_message : StoreError → String
  pub batch_message : BatchError → String
  pub service_message : ServiceError → String

pub record Task : Type 0 where
  pub job_id : String
  pub payments : List PaymentInstruction
  pub network : BatchJobNetwork
  pub secret_key : Option String
  pub signed_transactions : Option (List String)

-- The transactions and payments of a call, or those of the job where the call brings none.
pub recovered_xdrs : Task → JobRow → List String
recovered_xdrs task job = elim task.signed_transactions [
  | some (x ∷ xs) ↦ x ∷ xs
  | some [] ↦ elim job.signed_transactions [ none ↦ [] | some xs ↦ xs ]
  | none ↦ elim job.signed_transactions [ none ↦ [] | some xs ↦ xs ]
]

pub recovered_payments : Task → JobRow → List PaymentInstruction
recovered_payments task job = if is_empty task.payments then job.payments else task.payments

abbrev pub unchanged : JobPatch
unchanged = record {
  status = none;
  total_batches = none;
  completed_batches = none;
  result = none;
  error = none;
}

abbrev pub started : ℕ → JobPatch
started n = record unchanged {
  status = some processing;
  total_batches = some n;
  completed_batches = some 0;
}

-- `allResults.find((r) => r.error)?.error`
pub first_error : List PaymentResult → Option String
first_error [] = none
first_error (r ∷ rs) = elim r.error [
  | none ↦ first_error rs
  | some e ↦ if str_eq e "" then first_error rs else some e
]

module _ (around : Surroundings) (task : Task) where
  -- A call of the store that may throw.
  pub update : ℕ → JobPatch → Store → Result String (Unit {0}) × Store
  update i p s = elim (update_job (around.locked i) (around.clock i) task.job_id p s) [
    | ok s' ↦ (ok tt, s')
    | err e ↦ (err (around.store_message e), s)
  ]

  -- `incrementCompletedBatches` after the batch `i`. Where it finds the database locked, it throws,
  -- after what other processes wrote.
  pub progressed : ℕ → Store → Result String (Unit {0}) × Store
  progressed i s =
      let (r, s') =
        increment_completed_batches (around.others i) (around.clock (i + 2)) task.job_id s in
      if around.busy (progressing i)
      then (err (around.store_message busy), around.others i 2 s)
      else (elim r [ ok u ↦ ok tt | err e ↦ err (around.store_message e) ], s')

  -- A loop over transactions or batches, from `i` on, whose round is `step` and the progress after
  -- it, and the tally it ends with. An error of a progress that is not awaited ends nothing.
  pub batch_loop {ℓ} :
      {A : Type ℓ}
      → (A → Bool)
      → (ℕ → A → Tally → Tally)
      → ℕ
      → List A
      → Tally
      → Store
      → Result String Tally × Store
  batch_loop awaited step i [] t s = (ok t, s)
  batch_loop awaited step i (b ∷ bs) t s =
      let (r, s') = progressed i s in
      let rest = batch_loop awaited step (i + 1) bs (step i b t) s' in
      elim r [ err m ↦ if awaited b then (err m, s') else rest | ok u ↦ rest ]

  -- The service's answer to the batch `i`.
  pub answer : ℕ → List PaymentInstruction → Result String (List PaymentResult)
  answer i ps =
      elim (submit_single_batch (around.world i) around.config 0 ps (around.recommended_fee i)) [
        | ok result ↦ ok result.results
        | err e ↦ err (around.service_message e)
      ]

  -- The frame of both flows: the first update, then `setup`, the loop, the total and the last update.
  pub flow {ℓ} :
      {A : Type ℓ}
      → Result String (Unit {0})
      → (A → Bool)
      → (ℕ → A → Tally → Tally)
      → List A
      → Result String String
      → (String → Tally → JobPatch)
      → Store
      → Result String (Unit {0}) × Store
  unfolding update batch_loop
  flow setup awaited step bs total patch s =
      let (first, s1) = update 1 (started (length bs)) s in
      let (looped, s2) = batch_loop awaited step 0 bs untallied s1 in
      elim first [
        | err m ↦ (err m, s1)
        | ok u ↦ elim setup [
          | err m ↦ (err m, s1)
          | ok u' ↦ elim looped [
            | err m ↦ (err m, s2)
            | ok t ↦ elim total [
              | err m ↦ (err m, s2)
              | ok amount ↦ update (length bs + 2) (patch amount t) s2
            ]
          ]
        ]
      ]

  -- `finalResult`, for its identifier, its recipients, its total and its number of transactions.
  pub final_result : String → ℕ → String → ℕ → Tally → BatchResult
  final_result id recipients total n t = record {
    batch_id = id;
    total_recipients = recipients;
    total_amount = total;
    total_transactions = n;
    network = task.network;
    results = t.all_results;
    summary = record { successful = t.success_count; failed = t.fail_count };
  }

  -- The patch of the last update of the pre-signed flow.
  pub presigned_patch : String → ℕ → List PaymentInstruction → Tally → JobPatch
  unfolding final_status final_result first_error total_recipients
  presigned_patch total n payments t = record unchanged {
    status = some (final_status t);
    result = some (final_result around.batch_id (total_recipients payments t) total n t);
    error = elim (final_status t) [ failed ↦ first_error t.all_results | _ ↦ none ];
  }

  pub presigned_total : List PaymentInstruction → Result String String
  presigned_total payments =
      if is_empty payments then ok "0" else around.total_amount (map (λ p. p.amount) payments)

  -- The progress after a transaction is awaited, but after one of another account.
  pub presigned_awaited : Option String → String → Bool
  presigned_awaited key xdr = elim (around.chain.from_xdr xdr) [
    | err m ↦ true
    | ok tx ↦ not (source_mismatch key tx)
  ]

  pub presigned_flow :
      Option String
      → List String
      → List PaymentInstruction
      → Store
      → Result String (Unit {0}) × Store
  unfolding flow presigned_awaited presigned_patch presigned_total
  presigned_flow key xdrs payments s =
      flow (ok tt) (presigned_awaited key)
        (λ i xdr t. process_xdr around.chain key i xdr payments t) xdrs (presigned_total payments)
        (λ total t. presigned_patch total (length xdrs) payments t) s

  pub signed_patch : String → ℕ → List PaymentInstruction → Tally → JobPatch
  unfolding final_result
  signed_patch total n payments t = record unchanged {
    status = some (final_status t);
    result = some (final_result task.job_id (length payments) total n t);
  }

  pub signed_flow : String → List PaymentInstruction → Store → Result String (Unit {0}) × Store
  unfolding flow signed_patch answer
  signed_flow secret payments s =
      elim (create_batches around.oracle max_ops around.options payments) [
        | err e ↦ (err (around.batch_message e), s)
        | ok batches ↦
            flow (around.new_service secret) (λ b. true)
              (λ i b t. process_batch (answer i b.payments) b.payments t) batches
              (around.total_amount (map (λ p. p.amount) payments))
              (λ total t. signed_patch total (length batches) payments t) s
      ]

  -- The rest of the `try` after the claim, for the job that `getJob` gave. An empty key is none.
  pub work : JobRow → Store → Result String (Unit {0}) × Store
  unfolding presigned_flow signed_flow recovered_xdrs recovered_payments
  work job s =
      let xdrs = recovered_xdrs task job in
      let payments = recovered_payments task job in
      let no_key : Result String (Unit {0}) × Store =
        (err "secretKey is required for payment-based submissions", s) in
      if is_empty xdrs
      then elim task.secret_key [
        | none ↦ no_key
        | some secret ↦ if str_eq secret "" then no_key else signed_flow secret payments s
      ]
      else presigned_flow job.public_key xdrs payments s

  -- Its `catch`: the job is failed.
  pub caught : Result String (Unit {0}) × Store → Result String (Unit {0}) × Store
  unfolding update
  caught (ok u, s) = (ok u, s)
  caught (err m, s) =
      update around.last (record unchanged { status = some failed; error = some m }) s

  -- The `try`.
  pub tried : Store → Result String (Unit {0}) × Store
  unfolding work
  tried s =
      let (claimed, s1) = claim_job_for_processing around.lease_ms (around.clock 0) task.job_id s in
      let locked : Result String (Unit {0}) × Store = (err (around.store_message busy), s) in
      if around.busy reading then locked else elim (get_job task.job_id none s) [
        | none ↦ (ok tt, s)
        | some job ↦
            if around.busy claiming then locked else if claimed then work job s1 else (ok tt, s1)
      ]

  pub process_job : Store → Result String (Unit {0}) × Store
  unfolding tried caught
  process_job s = caught (tried s)
