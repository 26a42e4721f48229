-- ===== src/Retry/Own.antt =====
-- A retry of what the service submitted.
use stellar_batch_pay.Base.{
  ℕ, ◌≡◌, ◌≢◌, refl, sym, ◌∙◌, ap, inl, inr, true, false, some, List, [], ◌∷◌, if◌then◌else◌, arith,
  All, All-map, Bool-cases, Option-cases, ==_iff, ◌==◌, ok,
}
use stellar_batch_pay.Types.{PaymentInstruction, PaymentResult, BatchResult}
use stellar_batch_pay.Batcher.{SizeOracle, Options}
use stellar_batch_pay.Service.{World, Config, is_failure, submit_batch}
use stellar_batch_pay.Service.Entries.{Each, each_none, each_more, Each-map, Names}
use stellar_batch_pay.Service.Batches.{submit_batch-Accounts}
use stellar_batch_pay.Retry.{failed_results, has_row, retry_payments}
use stellar_batch_pay.Retry.Selection.{
  Rowed, with_failed_row, failed_payments_rows, retry_payments_ok,
}

-- No two payments carry one row.
abbrev pub DistinctRows : List PaymentInstruction → Type 0
DistinctRows [] = Unit
DistinctRows (p ∷ ps) = All (λ q. p.row_index ≢ q.row_index) ps × DistinctRows ps

-- The payments whose own result, at the same place, is a failure.
pub own_failed : List PaymentInstruction → List PaymentResult → List PaymentInstruction
own_failed [] rs = []
own_failed (p ∷ ps) [] = []
own_failed (p ∷ ps) (r ∷ rs) =
    let rest = own_failed ps rs in if is_failure r.status then p ∷ rest else rest

Each-All :
    {A B : Type 0} {P : A → Type 0} {R : A → B → Type 0} {xs : List A} {ys : List B}
    → Each R xs ys
    → All P xs
    → Each (λ a b. P a × R a b) xs ys
Each-All each_none h = each_none
Each-All (each_more r e) (p, h) = each_more (p, r) (Each-All e h)

-- The failed results have a payment's row exactly where its own result failed.
abbrev Decides : List PaymentResult → PaymentInstruction → PaymentResult → Type 0
Decides failed p r = (i : ℕ) → p.row_index ≡ some i → has_row i failed ≡ is_failure r.status

with_failed_row-Decides :
    (failed : List PaymentResult) {ps : List PaymentInstruction} {rs : List PaymentResult}
    → Each (Decides failed) ps rs
    → All Rowed ps
    → with_failed_row failed ps ≡ own_failed ps rs
unfolding with_failed_row own_failed
with_failed_row-Decides failed each_none h = refl
with_failed_row-Decides failed (each_more d r) ((i, e), h) =
    ground (arith, e, d i e, with_failed_row-Decides failed r h)

absent_row :
    (i : ℕ) {ps : List PaymentInstruction} {rs : List PaymentResult}
    → Each Names ps rs
    → All (λ q. some i ≢ q.row_index) ps
    → has_row i (failed_results rs) ≡ false
unfolding has_row failed_results
absent_row i each_none h = refl
absent_row i (each_more {a} {b} r e) (n, h) =
    let rest = absent_row i e h in
    elim (Option-cases b.row_index) [
      | inl m ↦ ground (arith, m, rest)
      | inr (j, m) ↦
          let k : (i == j) ≡ false = elim (Bool-cases (i == j)) [
            | inl y ↦ elim (n (ap some ((==_iff i j).0 y) ∙ sym m ∙ r.row_of)) [ ]
            | inr z ↦ z
          ] in
          ground (arith, m, rest, k)
    ]

own_row :
    (b : PaymentResult) (rs : List PaymentResult) (j : ℕ)
    → b.row_index ≡ some j
    → has_row j (failed_results rs) ≡ false
    → has_row j (failed_results (b ∷ rs)) ≡ is_failure b.status
unfolding has_row failed_results
own_row b rs j e h =
    let k : (j == j) ≡ true = (==_iff j j).1 refl in
    elim (Bool-cases (is_failure b.status)) [
      | inl y ↦ ground (arith, e, h, k, y)
      | inr z ↦ ground (arith, e, h, k, z)
    ]

other_row :
    (b : PaymentResult) (rs : List PaymentResult) (j : ℕ)
    → b.row_index ≢ some j
    → has_row j (failed_results (b ∷ rs)) ≡ has_row j (failed_results rs)
unfolding has_row failed_results
other_row b rs j n = elim (Option-cases b.row_index) [
  | inl m ↦ ground (arith, m)
  | inr (i, m) ↦
      let k : (j == i) ≡ false = elim (Bool-cases (j == i)) [
        | inl y ↦ elim (n (m ∙ ap some (sym ((==_iff j i).0 y)))) [ ]
        | inr z ↦ z
      ] in
      ground (arith, m, k)
]

decided :
    {ps : List PaymentInstruction} {rs : List PaymentResult}
    → Each Names ps rs
    → DistinctRows ps
    → All Rowed ps
    → Each (Decides (failed_results rs)) ps rs
unfolding failed_results has_row
decided each_none d w = each_none
decided (each_more {a} {b} {xs} {ys} r later) (n, d) ((i, e), w) =
    each_more
      (λ j f.
        own_row b ys j (r.row_of ∙ f) (absent_row j later (All-map (λ q ne eq. ne (f ∙ eq)) _ n)))
      (Each-map (λ p x (m, c) j f. other_row b ys j (λ eq. m (sym r.row_of ∙ eq ∙ sym f)) ∙ c j f)
        (Each-All (decided later d w) n))

-- Of a submission by the service, whose payments carry a row each and no two the same, a retry takes
-- exactly the payments whose own result is a failure: none that succeeded is sent again.
pub submit_batch_retried :
    (world : World) (config : Config) (oracle : SizeOracle) (options : Options)
    (ps : List PaymentInstruction) (fee : ℕ) (r : BatchResult) (chosen : List PaymentInstruction)
    → submit_batch world config oracle options ps fee ≡ ok r
    → DistinctRows ps
    → All Rowed ps
    → retry_payments r.results ps ≡ ok chosen
    → chosen ≡ own_failed ps r.results
submit_batch_retried world config oracle options ps fee r chosen h d w c =
    let a = submit_batch-Accounts world config oracle options ps fee r h in
    let (settled, e, some_chosen) = retry_payments_ok r.results ps chosen c in
    e
    ∙ failed_payments_rows (failed_results r.results) ps w
    ∙ with_failed_row-Decides (failed_results r.results) (decided a.reported d w) w
