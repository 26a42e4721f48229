-- ===== src/JobStore/Queries/Tests.antt =====
-- Runs of the listing with a concrete LIKE, and the theorems at these inputs.
use stellar_batch_pay.Base.{
  ℕ, ◌≡◌, ◌≢◌, refl, Bool, true, false, ◌&&◌, ◌||◌, none, some, List, [], ◌∷◌, ◌==◌, ◌-◌, min,
  if◌then◌else◌, is_empty, length, arith, All,
}
use stellar_batch_pay.JobStore.{JobRow}
use stellar_batch_pay.JobStore.Tests.{job, to_sign}
use stellar_batch_pay.JobStore.Queries.{
  Engine, JobQueryFilters, meets, get_all_jobs, count_jobs, search_term,
}
use stellar_batch_pay.JobStore.Queries.Search.{IsLike, contains_text, search_term-contains_text}
use stellar_batch_pay.JobStore.Queries.Pages.{get_all_jobs-count_jobs}

anywhere : (List ℕ → Bool) → List ℕ → Bool
anywhere f [] = f []
anywhere f (c ∷ s) = f (c ∷ s) || anywhere f s

single : ℕ → (List ℕ → Bool) → List ℕ → Bool
single x f [] = false
single x f (c ∷ s) = x == c && f s

like : List ℕ → List ℕ → Bool
unfolding anywhere single
like [] s = is_empty s
like (x ∷ []) s = if x == b'%' then anywhere (λ t. is_empty t) s else single x (λ t. is_empty t) s
like (x ∷ y ∷ p) s =
    if x == b'%'
    then anywhere (like (y ∷ p)) s
    else if x == 0x5C
    then single y (like p) s
    else single x (like (y ∷ p)) s

like_any_nil : (p : List ℕ) → like (b'%' ∷ p) [] ≡ like p []
unfolding like anywhere
like_any_nil [] = refl
like_any_nil (y ∷ p) = refl

like_any_cons :
    (p : List ℕ) (c : ℕ) (s : List ℕ)
    → like (b'%' ∷ p) (c ∷ s) ≡ (like p (c ∷ s) || like (b'%' ∷ p) s)
unfolding like anywhere
like_any_cons [] c s = refl
like_any_cons (y ∷ p) c s = refl

like_plain_nil : (x : ℕ) (p : List ℕ) → x ≢ 0x5C → x ≢ b'%' → x ≢ b'_' → like (x ∷ p) [] ≡ false
unfolding like single
like_plain_nil x [] a b c = ground arith
like_plain_nil x (y ∷ p) a b c = ground arith

like_plain_cons :
    (x : ℕ) (p : List ℕ) (c : ℕ) (s : List ℕ)
    → x ≢ 0x5C
    → x ≢ b'%'
    → x ≢ b'_'
    → like (x ∷ p) (c ∷ s) ≡ (x == c && like p s)
unfolding like single
like_plain_cons x [] c s a b d = ground arith
like_plain_cons x (y ∷ p) c s a b d = ground arith

like-IsLike : IsLike (λ x c. x == c) like
unfolding like single
like-IsLike = record {
  end = λ s. refl;
  any_nil = like_any_nil;
  any_cons = like_any_cons;
  escaped_nil = λ x p. refl;
  escaped_cons = λ x p c s. refl;
  plain_nil = like_plain_nil;
  plain_cons = like_plain_cons;
}

-- The search `5%` in the text `15%!`.
search_term-contains_text_example :
    like (search_term (53 ∷ 37 ∷ [])) (49 ∷ 53 ∷ 37 ∷ 33 ∷ [])
    ≡ contains_text (λ x c. x == c) (53 ∷ 37 ∷ []) (49 ∷ 53 ∷ 37 ∷ 33 ∷ [])
search_term-contains_text_example =
    search_term-contains_text (λ x c. x == c) like like-IsLike (53 ∷ 37 ∷ [])
      (49 ∷ 53 ∷ 37 ∷ 33 ∷ [])

abbrev engine : Engine
engine = record {
  like = like;
  texts = λ r. [] ∷ [];
  order_jobs = λ column ascending rs. rs;
  order_deliveries = λ ds. ds;
  Real = ℕ;
  sum_of_reals = λ amounts. 0;
  percent = λ n m. "50.0%";
}

abbrev of_wallet : JobQueryFilters
of_wallet = record {
  status = none;
  network = none;
  public_key = some "GA";
  search = [];
  from = none;
  to = none;
  sort = none;
  ascending = false;
}

abbrev jobs : List JobRow
jobs = job ∷ record to_sign { public_key = some "GB" } ∷ to_sign ∷ []

get_all_jobs-count_jobs_example :
    All
      (λ r. (meets engine of_wallet r ≡ true) × (r.public_key ≡ some "GA"))
      (get_all_jobs engine of_wallet (some 1) (some 1) jobs)
    × (length (get_all_jobs engine of_wallet (some 1) (some 1) jobs)
        ≡ min 1 (count_jobs engine of_wallet jobs - 1))
get_all_jobs-count_jobs_example =
    get_all_jobs-count_jobs engine of_wallet "GA" 1 1 jobs
      (λ column. record { size = λ rs. refl; same = λ P rs h. h }) refl (λ e. cc)
