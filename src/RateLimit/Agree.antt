-- ===== src/RateLimit/Agree.antt =====
-- The SQL backends and the Redis backend answer alike.
use stellar_batch_pay.Base.{
  ℕ, ◌≤◌, ◌≡◌, refl, sym, ◌∙◌, ap, inl, inr, String, List, [], ◌∷◌, arith, str_eq, str_eq_iff,
  Bool-cases, All,
}
use stellar_batch_pay.RateLimit.{
  Bucket, Args, RateLimitState, find_bucket, consume_sqlite, consume_redis,
}
use stellar_batch_pay.RateLimit.Spec.{
  consume, consume_expires, Expiring, alone, consume_sqlite-Implements, consume_redis-Implements,
}

-- A request, with its time.
abbrev pub Request : Type 0
Request = ℕ × Args

-- The answers of a backend to a sequence of requests.
pub answers :
    (ℕ → Args → List Bucket → RateLimitState × List Bucket)
    → List Request
    → List Bucket
    → List RateLimitState
answers step [] bs = []
answers step ((now, args) ∷ reqs) bs =
    let (answer, bs') = step now args bs in answer ∷ answers step reqs bs'

-- Two tables with the same buckets.
abbrev pub SameBuckets : List Bucket → List Bucket → Type 0
SameBuckets bs cs = (key : String) → find_bucket key bs ≡ find_bucket key cs

redis-Expiring :
    (now : ℕ) (args : Args) (cs : List Bucket)
    → Expiring cs
    → 1 ≤ args.window_ms
    → Expiring (consume_redis now args cs).1
redis-Expiring now args cs x w key b e = elim (Bool-cases (str_eq key args.key)) [
  | inl same ↦
      let i = consume_redis-Implements now args cs x w in
      consume_expires now args (find_bucket args.key cs) b (x args.key)
        (ground (arith, i.same_bucket, str_eq_iff key args.key))
  | inr other ↦
      let i = consume_redis-Implements now args cs x w in
      x key b (sym (i.others_kept key (λ q. ground (arith, str_eq_iff key args.key))) ∙ e)
]

step-SameBuckets :
    (now : ℕ) (args : Args) (bs cs : List Bucket)
    → Expiring cs
    → 1 ≤ args.window_ms
    → SameBuckets bs cs
    → ((consume_sqlite alone now args bs).0 ≡ (consume_redis now args cs).0)
      × SameBuckets (consume_sqlite alone now args bs).1 (consume_redis now args cs).1
step-SameBuckets now args bs cs x w same =
    let i = consume_sqlite-Implements now args bs in
    let j = consume_redis-Implements now args cs x w in
    let q = ap (consume now args) (same args.key) in
    (
      ground (arith, i.same_answer, j.same_answer, q),
      λ key. elim (Bool-cases (str_eq key args.key)) [
        | inl e ↦ ground (arith, i.same_bucket, j.same_bucket, q, str_eq_iff key args.key)
        | inr e ↦
            ground (arith, i.others_kept key, j.others_kept key, same key, str_eq_iff key args.key)
      ],
    )

-- From tables with the same buckets, in which a Redis key lives a second longer than its window, the
-- SQLite backend (where no other process writes between its two statements) and the Redis backend
-- give the same answers to every sequence of requests whose windows last a millisecond at least.
pub backends_agree :
    (reqs : List Request) (bs cs : List Bucket)
    → Expiring cs
    → SameBuckets bs cs
    → All (λ r. 1 ≤ r.1.window_ms) reqs
    → answers (consume_sqlite alone) reqs bs ≡ answers consume_redis reqs cs
unfolding answers
backends_agree [] bs cs x same w = refl
backends_agree ((now, args) ∷ reqs) bs cs x same (w, ws) =
    let (a, same') = step-SameBuckets now args bs cs x w same in
    let rest =
      backends_agree reqs (consume_sqlite alone now args bs).1 (consume_redis now args cs).1
        (redis-Expiring now args cs x w) same' ws in
    cc (a, rest)
