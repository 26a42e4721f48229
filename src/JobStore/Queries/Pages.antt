-- ===== src/JobStore/Queries/Pages.antt =====
-- lib/backends/job-store-sqlite.ts: the pages of a listing.
use stellar_batch_pay.Base.{
  subst, All-map, some, none, ℕ, zero, suc, ◌-◌, ◌≡◌, ◌≢◌, String, Bool, true, List, [], ◌∷◌,
  length, take, drop, min, arith, All, Bool-cases, inl, inr,
}
use stellar_batch_pay.JobStore.{JobRow, owned_by}
use stellar_batch_pay.JobStore.Access.{owned_by-public_key}
use stellar_batch_pay.JobStore.Queries.{
  by_created_at, Engine, JobQueryFilters, SortColumn, filter_jobs, meets, get_all_jobs, count_jobs,
}

module _ {ℓ} {A : Type ℓ} where
  length-drop : (n : ℕ) (xs : List A) → length (drop n xs) ≡ length xs - n
  length-drop zero xs = omega arith
  length-drop (suc n) [] = omega arith
  length-drop (suc n) (x ∷ xs) = omega (arith, length-drop n xs)

  length-take : (n : ℕ) (xs : List A) → length (take n xs) ≡ min n (length xs)
  length-take zero xs = omega arith
  length-take (suc n) [] = omega arith
  length-take (suc n) (x ∷ xs) = omega (arith, length-take n xs)

module _ {ℓ κ} {A : Type ℓ} (P : A → Type κ) where
  drop-All : (n : ℕ) (xs : List A) → All P xs → All P (drop n xs)
  drop-All zero xs h = h
  drop-All (suc n) [] h = tt
  drop-All (suc n) (x ∷ xs) (p, h) = drop-All n xs h

  take-All : (n : ℕ) (xs : List A) → All P xs → All P (take n xs)
  take-All zero xs h = tt
  take-All (suc n) [] h = tt
  take-All (suc n) (x ∷ xs) (p, h) = (p, take-All n xs h)

-- An order of the rows only moves them.
pub record IsOrder (order : List JobRow → List JobRow) : Type 1 where
  pub size : (rs : List JobRow) → length (order rs) ≡ length rs
  pub same : (P : JobRow → Type 0) (rs : List JobRow) → All P rs → All P (order rs)

filter_jobs-All :
    (test : JobRow → Bool) (rs : List JobRow) → All (λ r. test r ≡ true) (filter_jobs test rs)
unfolding filter_jobs
filter_jobs-All test [] = tt
filter_jobs-All test (r ∷ rs) = elim (Bool-cases (test r)) [
  | inl e ↦ rw (e, filter_jobs) (e, filter_jobs-All test rs)
  | inr e ↦ rw (e, filter_jobs) (filter_jobs-All test rs)
]

owner :
    (engine : Engine) (opts : JobQueryFilters) (key : String) (r : JobRow)
    → opts.public_key ≡ some key
    → key ≢ ""
    → meets engine opts r ≡ true
    → r.public_key ≡ some key
unfolding meets
owner engine opts key r e named h =
    let owned : owned_by opts.public_key r ≡ true = ground arith in
    owned_by-public_key key r named (subst (λ o. owned_by o r ≡ true) e owned)

-- A page of the listing for a wallet has jobs of that wallet only, each of which meets the filters, and
-- as many as the limit allows of those that `countJobs` counts behind the offset.
pub get_all_jobs-count_jobs :
    (engine : Engine) (opts : JobQueryFilters) (key : String) (limit offset : ℕ)
    (jobs : List JobRow)
    → ((column : SortColumn) → IsOrder (engine.order_jobs column opts.ascending))
    → opts.public_key ≡ some key
    → key ≢ ""
    → let page = get_all_jobs engine opts (some limit) (some offset) jobs in
      All (λ r. (meets engine opts r ≡ true) × (r.public_key ≡ some key)) page
      × (length page ≡ min limit (count_jobs engine opts jobs - offset))
unfolding get_all_jobs count_jobs
get_all_jobs-count_jobs engine opts key limit offset jobs order e named =
    let column : SortColumn = (elim opts.sort [ none ↦ by_created_at | some c ↦ c ]) in
    let rows = filter_jobs (meets engine opts) jobs in
    let ordered = engine.order_jobs column opts.ascending rows in
    let good : JobRow → Type 0 = λ r. (meets engine opts r ≡ true) × (r.public_key ≡ some key) in
    (
      take-All good limit (drop offset ordered) (
          drop-All good offset ordered (
            (order column).same good rows (
              All-map (λ r h. (h, owner engine opts key r e named h)) rows
                (filter_jobs-All (meets engine opts) jobs)))),
      omega (
        arith,
        length-take limit (drop offset ordered),
        length-drop offset ordered,
        (order column).size rows,
      ),
    )
