-- ===== src/RateLimit/Buckets.antt =====
-- Searching and writing buckets.
use stellar_batch_pay.Base.{
  ◌-◌, ◌≡◌, refl, String, none, some, List, [], ◌∷◌, arith, if◌then◌else◌, str_eq, str_eq_iff,
}
use stellar_batch_pay.RateLimit.{Bucket, find_bucket, replace_bucket, take_one}

pub find_bucket-key :
    (key : String) (bs : List Bucket) (b : Bucket) → find_bucket key bs ≡ some b → b.key ≡ key
unfolding find_bucket
find_bucket-key key [] b e = cc
find_bucket-key key (x ∷ bs) b e = ground (arith, str_eq_iff x.key key, find_bucket-key key bs b)

pub find_bucket-replace_bucket :
    (key : String) (new : Bucket) (bs : List Bucket)
    → find_bucket key (replace_bucket new bs)
      ≡ (if str_eq new.key key then some new else find_bucket key bs)
unfolding find_bucket replace_bucket
find_bucket-replace_bucket key new [] = refl
find_bucket-replace_bucket key new (b ∷ bs) = ground (
  arith,
  str_eq_iff b.key key,
  str_eq_iff b.key new.key,
  str_eq_iff new.key key,
  find_bucket-replace_bucket key new bs,
)

pub find_bucket-take_one :
    (key other : String) (bs : List Bucket)
    → find_bucket other (take_one key bs) ≡ (elim (find_bucket other bs) [
      | none ↦ none
      | some b ↦
          if str_eq key other then some (record b { remaining = b.remaining - 1 }) else some b
    ])
unfolding find_bucket take_one
find_bucket-take_one key other [] = refl
find_bucket-take_one key other (b ∷ bs) = ground (
  arith,
  str_eq_iff b.key key,
  str_eq_iff b.key other,
  str_eq_iff key other,
  find_bucket-take_one key other bs,
)
