-- ===== src/RateLimit.antt =====
-- lib/backends/rate-limit-sqlite.ts, rate-limit-postgres.ts and rate-limit-redis.ts: a fixed-window
-- limiter over a table of buckets, and the choice of a limit in lib/api-rate-limit.ts. Times are in
-- milliseconds. `args.limit - 1` stops at 0 here; the source's -1 for a limit of 0 is tested by
-- `<= 0` and printed by `Math.max(0, …)` alone.
pub mod Buckets
pub mod Spec
pub mod Agree
pub mod Counting
pub mod Window
mod Tests
use stellar_batch_pay.Base.{
  ℕ, suc, ◌+◌, ◌-◌, ◌/◌, max, String, Bool, true, false, Option, none, some, List, [], ◌∷◌, ltb,
  leb, ◌==◌, if◌then◌else◌, str_eq,
}

pub data Tier : Type 0 where
  free pro enterprise : Tier

pub record EndpointLimit : Type 0 where
  pub free_limit : ℕ
  pub pro_limit : ℕ
  pub enterprise_limit : ℕ
  pub window_ms : ℕ

-- `policy[tier]`
pub limit_for : EndpointLimit → Tier → ℕ
limit_for policy free = policy.free_limit
limit_for policy pro = policy.pro_limit
limit_for policy enterprise = policy.enterprise_limit

-- A row of `rate_buckets`, or the hash of a Redis key with the time at which it expires.
pub record Bucket : Type 0 where
  pub key : String
  pub remaining : ℕ
  pub limit : ℕ
  pub reset_at : ℕ
  pub expires_at : ℕ

pub record Args : Type 0 where
  pub key : String
  pub limit : ℕ
  pub window_ms : ℕ

pub record RateLimitState : Type 0 where
  pub blocked : Bool
  pub remaining : ℕ
  pub retry_after_sec : ℕ
  pub reset_at : ℕ
  pub limit : ℕ

-- `Math.ceil(ms / 1000)`
abbrev pub ceil_sec : ℕ → ℕ
ceil_sec ms = (ms + 999) / 1000

pub find_bucket : String → List Bucket → Option Bucket
find_bucket key [] = none
find_bucket key (b ∷ bs) = if str_eq b.key key then some b else find_bucket key bs

-- `INSERT OR REPLACE`, and `HSET` of a new window.
pub replace_bucket : Bucket → List Bucket → List Bucket
replace_bucket new [] = new ∷ []
replace_bucket new (b ∷ bs) =
    let rest = replace_bucket new bs in if str_eq b.key new.key then new ∷ bs else b ∷ rest

-- `UPDATE rate_buckets SET remaining = remaining - 1 WHERE key = ? AND remaining > 0`: the rows after
-- it, and whether one was changed.
pub take_one : String → List Bucket → List Bucket
take_one key [] = []
take_one key (b ∷ bs) =
    let rest = take_one key bs in
    if str_eq b.key key
    then (if ltb 0 b.remaining then record b { remaining = b.remaining - 1 } ∷ bs else b ∷ bs)
    else b ∷ rest

pub took_one : String → List Bucket → Bool
took_one key bs = elim (find_bucket key bs) [ none ↦ false | some b ↦ ltb 0 b.remaining ]

pub new_bucket : ℕ → Args → Bucket
new_bucket now args = record {
  key = args.key;
  remaining = args.limit - 1;
  limit = args.limit;
  reset_at = now + args.window_ms;
  expires_at = now + (args.window_ms + 1000);
}

-- The answer while a window is open.
answer : ℕ → Args → Bool → ℕ → Bucket → RateLimitState
answer now args blocked remaining row = record {
  blocked = blocked;
  remaining = remaining;
  retry_after_sec = max 1 (ceil_sec (row.reset_at - now));
  reset_at = ceil_sec row.reset_at;
  limit = args.limit;
}

-- The answer that opens a window, in the SQL backends.
opened : ℕ → Args → RateLimitState
opened now args = record {
  blocked = false;
  remaining = args.limit - 1;
  retry_after_sec = ceil_sec args.window_ms;
  reset_at = ceil_sec (now + args.window_ms);
  limit = args.limit;
}

-- The steps after the first transaction read an open window's row. `others` is what other processes
-- write before the update.
settle :
    (List Bucket → List Bucket) → ℕ → Args → Bucket → List Bucket → RateLimitState × List Bucket
settle others now args row bs =
    let bs' = others bs in
    if leb row.remaining 0
    then (answer now args true 0 row, bs)
    else if took_one args.key bs'
    then (answer now args false (row.remaining - 1) row, take_one args.key bs')
    else (answer now args true 0 row, bs')

pub consume_sqlite :
    (List Bucket → List Bucket) → ℕ → Args → List Bucket → RateLimitState × List Bucket
unfolding settle new_bucket answer opened
consume_sqlite others now args bs = elim (find_bucket args.key bs) [
  | none ↦ (opened now args, replace_bucket (new_bucket now args) bs)
  | some row ↦
      if leb row.reset_at now
      then (opened now args, replace_bucket (new_bucket now args) bs)
      else settle others now args row bs
]

-- In PostgreSQL a row that is there is locked from the read to the commit: nothing comes between. (Two
-- first requests of a key at once, which lock nothing, are no steps of this model.)
pub consume_postgres : ℕ → Args → List Bucket → RateLimitState × List Bucket
unfolding consume_sqlite
consume_postgres now args bs = consume_sqlite (λ rows. rows) now args bs

-- `HGET` of a key, which is gone once it has expired.
pub live_bucket : ℕ → String → List Bucket → Option Bucket
live_bucket now key bs = elim (find_bucket key bs) [
  | none ↦ none
  | some b ↦ if leb b.expires_at now then none else some b
]

-- `RATE_LIMIT_SCRIPT`: the flag, the remaining count and the time of the reset, and the keys after it.
pub record ScriptResult : Type 0 where
  pub blocked_flag : ℕ
  pub remaining : ℕ
  pub reset_at_ms : ℕ

script_open : ℕ → Args → List Bucket → ScriptResult × List Bucket
script_open now args bs = (
  record { blocked_flag = 0; remaining = args.limit - 1; reset_at_ms = now + args.window_ms },
  replace_bucket (new_bucket now args) bs,
)

pub rate_limit_script : ℕ → Args → List Bucket → ScriptResult × List Bucket
unfolding live_bucket script_open new_bucket
rate_limit_script now args bs = elim (live_bucket now args.key bs) [
  | none ↦ script_open now args bs
  | some b ↦
      if leb b.reset_at now
      then script_open now args bs
      else if leb b.remaining 0
      then (record { blocked_flag = 1; remaining = 0; reset_at_ms = b.reset_at }, bs)
      else (
        record { blocked_flag = 0; remaining = b.remaining - 1; reset_at_ms = b.reset_at },
        replace_bucket (record b { remaining = b.remaining - 1 }) bs,
      )
]

pub consume_redis : ℕ → Args → List Bucket → RateLimitState × List Bucket
unfolding rate_limit_script
consume_redis now args bs =
    let (r, bs') = rate_limit_script now args bs in
    (
      record {
        blocked = r.blocked_flag == 1;
        remaining = r.remaining;
        retry_after_sec = max 1 (ceil_sec (r.reset_at_ms - now));
        reset_at = ceil_sec r.reset_at_ms;
        limit = args.limit;
      },
      bs',
    )
