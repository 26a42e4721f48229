-- ===== src/RateLimit/Tests.antt =====
-- Runs of the limiter, and the theorems at these inputs.
use stellar_batch_pay.Base.{
  ◌≤◌, ◌≡◌, refl, List, [], ◌∷◌, arith, min, max, some, str_eq_iff, String, ◌≢◌,
}
use stellar_batch_pay.RateLimit.{Bucket, Args, find_bucket, consume_sqlite, consume_redis}
use stellar_batch_pay.RateLimit.Spec.{alone, Expiring}
use stellar_batch_pay.RateLimit.Counting.{Counted, Counts, admit, counted, consume_sqlite-Counts}
use stellar_batch_pay.RateLimit.Agree.{Request, answers, backends_agree}
use stellar_batch_pay.RateLimit.Window.{Call, ours, theirs, granted, granted_window}

abbrev args : Args
args = record { key = "batch-build:ip"; limit = 2; window_ms = 60000 }

abbrev other : Args
other = record { key = "batch-submit:ip"; limit = 1; window_ms = 60000 }

abbrev row : Bucket
row = record {
  key = "batch-build:ip";
  remaining = 1;
  limit = 2;
  reset_at = 60000;
  expires_at = 61000;
}

abbrev table : List Bucket
table = row ∷ []

table-Expiring : Expiring table
unfolding find_bucket
table-Expiring key b e = ground (arith, str_eq_iff "batch-build:ip" key)

table-open : find_bucket args.key table ≡ some row
unfolding find_bucket
table-open = refl

table-counted : Counts 2 (some (record { ends = 60000; granted = 1 })) (find_bucket args.key table)
unfolding find_bucket
table-counted = counted (record { ends = 60000; granted = 1 }) row refl refl

consume_sqlite-Counts_example :
    Counted 10 args table
      (admit 10 args (some (record { ends = 60000; granted = 1 })))
      (consume_sqlite alone 10 args table)
    × ((other : String)
        → other ≢ "batch-build:ip"
        → find_bucket other (consume_sqlite alone 10 args table).1 ≡ find_bucket other table)
consume_sqlite-Counts_example =
    consume_sqlite-Counts 10 args table (some (record { ends = 60000; granted = 1 })) table-counted

abbrev requests : List Request
requests = (10, args) ∷ (11, other) ∷ (12, args) ∷ (60000, args) ∷ []

backends_agree_example :
    answers (consume_sqlite alone) requests table ≡ answers consume_redis requests table
backends_agree_example =
    backends_agree requests table table table-Expiring (λ key. refl)
      (omega arith, (omega arith, (omega arith, (omega arith, tt))))

no_bucket : (b : Bucket) → find_bucket args.key [] ≡ some b → b.reset_at ≤ 10
unfolding find_bucket
no_bucket b e = cc

abbrev calls : List Call
calls = ours 11 ∷ theirs 12 other ∷ ours 13 ∷ []

granted_window_example : granted args (ours 10 ∷ calls) [] ≡ min 3 (max 1 2)
granted_window_example = granted_window args 10 calls [] no_bucket (
  omega arith,
  (λ e. ground (arith, str_eq_iff "batch-build:ip" "batch-submit:ip", e), (omega arith, tt)),
)
