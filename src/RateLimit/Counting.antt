-- ===== src/RateLimit/Counting.antt =====
-- What the limiter promises, by the number of requests that a window let through, and that the SQLite
-- backend keeps this promise.
use stellar_batch_pay.Base.{
  ℕ, ◌+◌, ◌-◌, ◌/◌, ◌≡◌, ◌≢◌, refl, sym, subst, inl, inr, String, false, Option, none, some, List,
  arith, leb, max, if◌then◌else◌, str_eq_refl, Bool-cases,
}
use stellar_batch_pay.RateLimit.{
  Bucket, Args, RateLimitState, find_bucket, replace_bucket, took_one, new_bucket, answer, opened,
  settle, consume_sqlite,
}
use stellar_batch_pay.RateLimit.Buckets.{find_bucket-replace_bucket, find_bucket-take_one}
use stellar_batch_pay.RateLimit.Spec.{alone, consume_sqlite-Implements}

-- A window of a key: when it ends, and how many requests it let through.
pub record Window : Type 0 where
  pub ends : ℕ
  pub granted : ℕ

-- Full seconds, rounded up.
abbrev pub seconds : ℕ → ℕ
seconds ms = (ms + 999) / 1000

-- The first request of a window.
abbrev pub first_of_window : ℕ → Args → RateLimitState × Window
first_of_window now args = (
  record {
    blocked = false;
    remaining = args.limit - 1;
    retry_after_sec = seconds args.window_ms;
    reset_at = seconds (now + args.window_ms);
    limit = args.limit;
  },
  record { ends = now + args.window_ms; granted = 1 },
)

-- A request at a time, for a key whose last window is given: an open window lets through its limit.
abbrev pub admit : ℕ → Args → Option Window → RateLimitState × Window
admit now args none = first_of_window now args
admit now args (some w) =
    let blocked = leb args.limit w.granted in
    let granted = if blocked then w.granted else w.granted + 1 in
    if leb w.ends now then first_of_window now args else (
      record {
        blocked = blocked;
        remaining = args.limit - granted;
        retry_after_sec = max 1 (seconds (w.ends - now));
        reset_at = seconds w.ends;
        limit = args.limit;
      },
      record { ends = w.ends; granted = granted },
    )

-- A stored bucket counts down what is left of its window.
pub data Counts (limit : ℕ) : Option Window → Option Bucket → Type 0 where
  no_window : Counts limit none none
  counted :
      (w : Window) (b : Bucket)
      → b.reset_at ≡ w.ends
      → b.remaining ≡ limit - w.granted
      → Counts limit (some w) (some b)

counts_at :
    (limit : ℕ) (w : Window) (b : Bucket) (o : Option Bucket)
    → o ≡ some b
    → b.reset_at ≡ w.ends
    → b.remaining ≡ limit - w.granted
    → Counts limit (some w) o
counts_at limit w b o e u v = subst (Counts limit (some w)) (sym e) (counted w b u v)

module _ (now : ℕ) (args : Args) (bs : List Bucket) where
  -- The answer of a step, and the window that its bucket counts.
  abbrev pub Counted : RateLimitState × Window → RateLimitState × List Bucket → Type 0
  Counted spec step =
      (step.0 ≡ spec.0) × Counts args.limit (some spec.1) (find_bucket args.key step.1)

  opened-Counted :
      (step : RateLimitState × List Bucket)
      → step ≡ (opened now args, replace_bucket (new_bucket now args) bs)
      → Counted (first_of_window now args) step
  unfolding opened new_bucket
  opened-Counted step e = (
    ground (arith, e),
    counts_at args.limit (record { ends = now + args.window_ms; granted = 1 }) (new_bucket now args)
        (find_bucket args.key step.1)
        (ground (
          arith,
          e,
          str_eq_refl args.key,
          find_bucket-replace_bucket args.key (new_bucket now args) bs,
        ))
        refl refl,
  )

  open-Counted :
      (w : Window) (b : Bucket)
      → find_bucket args.key bs ≡ some b
      → b.reset_at ≡ w.ends
      → b.remaining ≡ args.limit - w.granted
      → leb w.ends now ≡ false
      → Counted (admit now args (some w)) (settle alone now args b bs)
  unfolding settle answer took_one
  open-Counted w b e u v z = elim (Bool-cases (leb args.limit w.granted)) [
    | inl spent ↦ (
      ground (arith, e, u, v, z, spent),
      counts_at args.limit (admit now args (some w)).1 b
          (find_bucket args.key (settle alone now args b bs).1) (ground (arith, e, v, spent))
          (ground (arith, u, z, spent)) (ground (arith, v, z, spent)),
    )
    | inr left ↦ (
      ground (arith, e, u, v, z, left),
      counts_at args.limit (admit now args (some w)).1 (record b { remaining = b.remaining - 1 })
          (find_bucket args.key (settle alone now args b bs).1)
          (ground
            (arith, e, v, left, str_eq_refl args.key, find_bucket-take_one args.key args.key bs))
          (ground (arith, u, z, left)) (ground (arith, v, z, left)),
    )
  ]

  step-Counted :
      (o : Option Window) (ob : Option Bucket)
      → find_bucket args.key bs ≡ ob
      → Counts args.limit o ob
      → Counted (admit now args o) (consume_sqlite alone now args bs)
  unfolding consume_sqlite
  step-Counted o ob e no_window =
      opened-Counted (consume_sqlite alone now args bs) (ground (arith, e))
  step-Counted o ob e (counted w b u v) = elim (Bool-cases (leb w.ends now)) [
    | inl over ↦
        subst (λ spec. Counted spec (consume_sqlite alone now args bs)) (ground (arith, over))
          (opened-Counted (consume_sqlite alone now args bs) (ground (arith, e, u, over)))
    | inr z ↦
        subst (Counted (admit now args (some w))) (ground (arith, e, u, z))
          (open-Counted w b e u v z)
  ]

  -- The SQLite backend, where no other process writes between its two statements, is a limiter that
  -- counts the requests let through: where the key's bucket counts down from the limit of the request,
  -- a step answers as the limiter does, its bucket counts the limiter's next window, and the buckets of
  -- other keys stay as they are.
  pub consume_sqlite-Counts :
      (o : Option Window)
      → Counts args.limit o (find_bucket args.key bs)
      → Counted (admit now args o) (consume_sqlite alone now args bs)
        × ((other : String)
            → other ≢ args.key
            → find_bucket other (consume_sqlite alone now args bs).1 ≡ find_bucket other bs)
  consume_sqlite-Counts o c = (
    step-Counted o (find_bucket args.key bs) refl c,
    (consume_sqlite-Implements now args bs).others_kept,
  )
