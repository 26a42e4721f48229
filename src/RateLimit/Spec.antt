-- ===== src/RateLimit/Spec.antt =====
-- What the limiter promises for one key, and that the backends implement it.
use stellar_batch_pay.Base.{
  ℕ, ◌+◌, ◌-◌, ◌≤◌, ◌<◌, ◌≡◌, refl, ◌≢◌, inl, inr, String, true, false, Option, none, some, List,
  arith, leb, if◌then◌else◌, str_eq_iff, str_eq_refl, Option-cases,
}
use stellar_batch_pay.RateLimit.{
  Bucket, Args, RateLimitState, find_bucket, took_one, new_bucket, answer, opened, settle,
  consume_sqlite, live_bucket, script_open, rate_limit_script, consume_redis,
}
use stellar_batch_pay.RateLimit.Buckets.{
  find_bucket-key, find_bucket-replace_bucket, find_bucket-take_one,
}

-- The limiter for one key: a window is opened where none is open; an open window counts down to 0.
pub consume : ℕ → Args → Option Bucket → RateLimitState × Option Bucket
unfolding opened answer new_bucket
consume now args none = (opened now args, some (new_bucket now args))
consume now args (some b) =
    if leb b.reset_at now
    then (opened now args, some (new_bucket now args))
    else if leb b.remaining 0
    then (answer now args true 0 b, some b)
    else (
      answer now args false (b.remaining - 1) b,
      some (record b { remaining = b.remaining - 1 }),
    )

-- A window lives on in Redis for a second after its reset.
abbrev pub Expiring : List Bucket → Type 0
Expiring bs =
    (key : String) (b : Bucket) → find_bucket key bs ≡ some b → b.expires_at ≡ b.reset_at + 1000

-- A step of a backend on a table implements a step of the limiter on the bucket of the key, and
-- leaves the buckets of other keys.
pub record Implements (args : Args) (bs : List Bucket) (spec : RateLimitState × Option Bucket)
    (step : RateLimitState × List Bucket) : Type 0 where
  pub same_answer : step.0 ≡ spec.0
  pub same_bucket : find_bucket args.key step.1 ≡ spec.1
  pub others_kept :
      (other : String) → other ≢ args.key → find_bucket other step.1 ≡ find_bucket other bs

abbrev pub alone : List Bucket → List Bucket
alone bs = bs

-- The SQLite backend, where no other process writes between its two statements, implements the limiter.
pub consume_sqlite-Implements :
    (now : ℕ) (args : Args) (bs : List Bucket)
    → Implements args bs
        (consume now args (find_bucket args.key bs))
        (consume_sqlite alone now args bs)
unfolding consume_sqlite consume settle took_one
consume_sqlite-Implements now args bs = record {
  same_answer = ground arith;
  same_bucket = ground (
    arith,
    str_eq_refl args.key,
    find_bucket-replace_bucket args.key (new_bucket now args) bs,
    find_bucket-take_one args.key args.key bs,
  );
  others_kept = λ other ne. ground (
    arith,
    str_eq_iff args.key other,
    find_bucket-replace_bucket other (new_bucket now args) bs,
    find_bucket-take_one args.key other bs,
  );
}

-- The Redis backend implements the limiter where windows last a millisecond at least and its keys a
-- second longer.
pub consume_redis-Implements :
    (now : ℕ) (args : Args) (bs : List Bucket)
    → Expiring bs
    → 1 ≤ args.window_ms
    → Implements args bs (consume now args (find_bucket args.key bs)) (consume_redis now args bs)
unfolding consume_redis consume rate_limit_script script_open live_bucket
consume_redis-Implements now args bs x w = record {
  same_answer = elim (Option-cases (find_bucket args.key bs)) [
    | inl e ↦ ground arith
    | inr (b, e) ↦ ground (arith, x args.key b e)
  ];
  same_bucket = elim (Option-cases (find_bucket args.key bs)) [
    | inl e ↦
        ground (
          arith,
          str_eq_refl args.key,
          find_bucket-replace_bucket args.key (new_bucket now args) bs,
        )
    | inr (b, e) ↦ ground (
      arith,
      x args.key b e,
      find_bucket-key args.key bs b,
      str_eq_refl args.key,
      find_bucket-replace_bucket args.key (new_bucket now args) bs,
      find_bucket-replace_bucket args.key (record b { remaining = b.remaining - 1 }) bs,
    )
  ];
  others_kept = λ other ne. elim (Option-cases (find_bucket args.key bs)) [
    | inl e ↦ ground (
      arith,
      str_eq_iff args.key other,
      find_bucket-replace_bucket other (new_bucket now args) bs,
    )
    | inr (b, e) ↦ ground (
      arith,
      x args.key b e,
      find_bucket-key args.key bs b,
      str_eq_iff args.key other,
      find_bucket-replace_bucket other (new_bucket now args) bs,
      find_bucket-replace_bucket other (record b { remaining = b.remaining - 1 }) bs,
    )
  ];
}

pub consume_expires :
    (now : ℕ) (args : Args) (o : Option Bucket) (b : Bucket)
    → ((c : Bucket) → o ≡ some c → c.expires_at ≡ c.reset_at + 1000)
    → (consume now args o).1 ≡ some b
    → b.expires_at ≡ b.reset_at + 1000
unfolding consume new_bucket
consume_expires now args none b x e = ground arith
consume_expires now args (some c) b x e = ground (arith, x c refl)

-- An open window that is used up blocks, and stays as it is.
pub consume_spent :
    (now : ℕ) (args : Args) (b : Bucket)
    → now < b.reset_at
    → leb b.remaining 0 ≡ true
    → ((consume now args (some b)).0.blocked ≡ true) × ((consume now args (some b)).1 ≡ some b)
unfolding consume
consume_spent now args b w z = ground arith

-- One with requests left lets one more through.
pub consume_left :
    (now : ℕ) (args : Args) (b : Bucket)
    → now < b.reset_at
    → leb b.remaining 0 ≡ false
    → ((consume now args (some b)).0.blocked ≡ false)
      × ((consume now args (some b)).1 ≡ some (record b { remaining = b.remaining - 1 }))
unfolding consume
consume_left now args b w p = ground arith

-- Where none is open, one is opened.
pub consume_opens :
    (now : ℕ) (args : Args) (o : Option Bucket)
    → ((b : Bucket) → o ≡ some b → b.reset_at ≤ now)
    → ((consume now args o).0.blocked ≡ false)
      × ((consume now args o).1 ≡ some (new_bucket now args))
unfolding consume
consume_opens now args none x = ground arith
consume_opens now args (some b) x = ground (arith, x b refl)
