-- ===== src/JobStore/Queries.antt =====
-- lib/backends/job-store-sqlite.ts and lib/history-filters.ts: the listing and the counts of jobs, the
-- history's summary, and the deliveries of webhooks. What SQLite does is the record `Engine`: LIKE, with
-- a backslash as its escape, the order of the rows, and arithmetic on reals.
pub mod Search
pub mod Pages
mod Tests
use stellar_batch_pay.Base.{
  ℕ, zero, suc, ◌+◌, String, Bool, true, false, ◌&&◌, ◌||◌, Option, none, some, List, [], ◌∷◌, ◌++◌,
  map, ltb, leb, ◌==◌, if◌then◌else◌, str_eq, length, take, drop,
}
use stellar_batch_pay.Types.{
  PaymentInstruction, BatchJobNetwork, BatchResult, JobStatus, testnet, mainnet, queued, processing,
  completed, failed,
}
use stellar_batch_pay.JobStore.{JobRow, owned_by}

pub data SortColumn : Type 0 where
  by_created_at by_updated_at by_status : SortColumn

-- `search` is what `trim` left of it, as the list of its characters' codes.
pub record JobQueryFilters : Type 0 where
  pub status : Option JobStatus
  pub network : Option BatchJobNetwork
  pub public_key : Option String
  pub search : List ℕ
  pub from : Option ℕ
  pub to : Option ℕ
  pub sort : Option SortColumn
  pub ascending : Bool

pub record WebhookDelivery : Type 0 where
  pub id : String
  pub webhook_id : String
  pub job_id : Option String
  pub event : String
  pub succeeded : Bool
  pub response_code : Option ℕ
  pub retry_count : ℕ
  pub error : Option String
  pub delivered_at : ℕ

-- `texts`: the columns `jobId`, `result` (or the empty text) and `payments` of a row.
pub record Engine : Type 1 where
  pub like : List ℕ → List ℕ → Bool
  pub texts : JobRow → List (List ℕ)
  pub order_jobs : SortColumn → Bool → List JobRow → List JobRow
  pub order_deliveries : List WebhookDelivery → List WebhookDelivery
  pub Real : Type 0
  pub sum_of_reals : List (Option String) → Real
  pub percent : ℕ → ℕ → String

-- `replace` of each occurrence of a character by two.
pub replace_all : ℕ → List ℕ → List ℕ → List ℕ
replace_all c new [] = []
replace_all c new (x ∷ xs) =
    let rest = replace_all c new xs in if x == c then new ++ rest else x ∷ rest

-- A backslash is `0x5C`.
pub escape_like_pattern : List ℕ → List ℕ
unfolding replace_all
escape_like_pattern input =
    replace_all b'_' (0x5C ∷ b'_' ∷ [])
      (replace_all b'%' (0x5C ∷ b'%' ∷ []) (replace_all 0x5C (0x5C ∷ 0x5C ∷ []) input))

-- The pattern of a search.
pub search_term : List ℕ → List ℕ
unfolding escape_like_pattern
search_term search = b'%' ∷ (escape_like_pattern search ++ b'%' ∷ [])

pub same_status : JobStatus → JobStatus → Bool
same_status queued queued = true
same_status processing processing = true
same_status completed completed = true
same_status failed failed = true
same_status _ _ = false

pub same_network : BatchJobNetwork → BatchJobNetwork → Bool
same_network testnet testnet = true
same_network mainnet mainnet = true
same_network _ _ = false

pub some_like : (List ℕ → Bool) → List (List ℕ) → Bool
some_like test [] = false
some_like test (t ∷ ts) = test t || some_like test ts

pub filter_jobs : (JobRow → Bool) → List JobRow → List JobRow
filter_jobs test [] = []
filter_jobs test (r ∷ rs) = let rest = filter_jobs test rs in if test r then r ∷ rest else rest

pub filter_deliveries : (WebhookDelivery → Bool) → List WebhookDelivery → List WebhookDelivery
filter_deliveries test [] = []
filter_deliveries test (d ∷ ds) =
    let rest = filter_deliveries test ds in if test d then d ∷ rest else rest

-- Sums over the rows of an aggregate; a null is left out of a sum.
pub sum_of : (JobRow → ℕ) → List JobRow → ℕ
sum_of f [] = 0
sum_of f (r ∷ rs) = f r + sum_of f rs

pub is_failed : JobStatus → ℕ
is_failed failed = 1
is_failed _ = 0

-- What a result contributes.
pub successful_of : Option BatchResult → ℕ
successful_of none = 0
successful_of (some r) = r.summary.successful

pub failed_of : Option BatchResult → ℕ
failed_of none = 0
failed_of (some r) = r.summary.failed

abbrev pub amount_of : Option BatchResult → Option String
amount_of none = none
amount_of (some r) = some r.total_amount

module _ (engine : Engine) where
  -- `buildJobQueryFilters`: the condition that the rows of a query meet.
  pub meets : JobQueryFilters → JobRow → Bool
  meets opts r =
      (elim opts.status [ none ↦ true | some s ↦ same_status r.status s ])
      && (elim opts.network [ none ↦ true | some n ↦ same_network r.network n ])
      && owned_by opts.public_key r
      && (elim opts.from [ none ↦ true | some t ↦ leb t r.created_at ])
      && (elim opts.to [ none ↦ true | some t ↦ leb r.created_at t ])
      && (elim opts.search [
        | [] ↦ true
        | c ∷ cs ↦ some_like (engine.like (search_term (c ∷ cs))) (engine.texts r)
      ])

  -- The limit is 50 and the offset 0 where they are not given.
  pub get_all_jobs : JobQueryFilters → Option ℕ → Option ℕ → List JobRow → List JobRow
  unfolding meets filter_jobs
  get_all_jobs opts limit offset jobs =
      take (elim limit [ none ↦ 50 | some n ↦ n ])
        (drop (elim offset [ none ↦ 0 | some n ↦ n ])
          (engine.order_jobs (elim opts.sort [ none ↦ by_created_at | some c ↦ c ]) opts.ascending
            (filter_jobs (meets opts) jobs)))

  pub count_jobs : JobQueryFilters → List JobRow → ℕ
  unfolding meets filter_jobs
  count_jobs opts jobs = length (filter_jobs (meets opts) jobs)

  pub record BatchHistorySummary : Type 0 where
    pub total_jobs : ℕ
    pub total_payments : ℕ
    pub total_amount : engine.Real
    pub successful_payments : ℕ
    pub failed_payments : ℕ
    pub failed_jobs : ℕ
    pub success_rate : String

  pub get_batch_history_summary : JobQueryFilters → List JobRow → BatchHistorySummary
  unfolding meets filter_jobs sum_of is_failed successful_of failed_of
  get_batch_history_summary opts jobs =
      let rows = filter_jobs (meets opts) jobs in
      let successful = sum_of (λ r. successful_of r.result) rows in
      let unsuccessful = sum_of (λ r. failed_of r.result) rows in
      record {
        total_jobs = length rows;
        total_payments = sum_of (λ r. length r.payments) rows;
        total_amount = engine.sum_of_reals (map (λ r. amount_of r.result) rows);
        successful_payments = successful;
        failed_payments = unsuccessful;
        failed_jobs = sum_of (λ r. is_failed r.status) rows;
        success_rate =
            if ltb 0 (successful + unsuccessful)
            then engine.percent successful (successful + unsuccessful)
            else "0.0%";
      }

  -- The new row, for the identifier and the time.
  pub log_webhook_delivery :
      String → ℕ → WebhookDelivery → List WebhookDelivery → List WebhookDelivery
  log_webhook_delivery id now d ds = record d { id = id; delivered_at = now } ∷ ds

  -- An empty identifier is none; the limit is 100 where it is not given.
  pub get_webhook_deliveries :
      Option String → Option String → Option ℕ → List WebhookDelivery → List WebhookDelivery
  unfolding filter_deliveries
  get_webhook_deliveries job_id webhook_id limit ds =
      let n : ℕ = (elim limit [ none ↦ 100 | some n ↦ n ]) in
      let by_webhook : List WebhookDelivery = (elim webhook_id [
        | none ↦ ds
        | some id ↦ if str_eq id "" then ds else filter_deliveries (λ d. str_eq d.webhook_id id) ds
      ]) in
      take n (
        engine.order_deliveries (elim job_id [
          | none ↦ by_webhook
          | some id ↦
              if str_eq id ""
              then by_webhook
              else filter_deliveries (λ d. elim d.job_id [ none ↦ false | some j ↦ str_eq j id ]) ds
        ]))
