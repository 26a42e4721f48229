-- ===== src/Amounts/Totals.antt =====
-- utils/aggregateAssets.ts: the amounts of an aggregation against the payments.
use stellar_batch_pay.Base.{
  ℕ, ◌+◌, ◌≡◌, refl, ap, ◌∙◌, String, Bool, Option, none, some, List, [], ◌∷◌, ◌==◌, if◌then◌else◌,
  arith, Option-cases, inl, inr, str_eq, str_eq_iff,
}
use stellar_batch_pay.Types.{PaymentInstruction}
use stellar_batch_pay.Amounts.RoundTrip.{total_stroops-format_total}
use stellar_batch_pay.Amounts.{
  codes, total_stroops, Total, add_total, AssetAmount, insert_amount, sort_amounts, payment_totals,
  asset_amounts, aggregate_payments_by_asset, asset_amount,
}

abbrev pub or_zero : Option ℕ → ℕ
or_zero none = 0
or_zero (some n) = n

-- The sum of a measure over a list.
abbrev pub weigh {ℓ} : {A : Type ℓ} → (A → ℕ) → List A → ℕ
weigh w [] = 0
weigh w (a ∷ rest) = w a + weigh w rest

module _ (before : String → String → Bool) (w : AssetAmount → ℕ) where
  insert_amount-weigh :
      (a : AssetAmount) (rest : List AssetAmount)
      → weigh w (insert_amount before a rest) ≡ w a + weigh w rest
  unfolding insert_amount
  insert_amount-weigh a [] = refl
  insert_amount-weigh a (b ∷ bs) = ground (arith, insert_amount-weigh a bs)

  sort_amounts-weigh :
      (amounts : List AssetAmount) → weigh w (sort_amounts before amounts) ≡ weigh w amounts
  unfolding sort_amounts
  sort_amounts-weigh [] = refl
  sort_amounts-weigh (a ∷ rest) =
      insert_amount-weigh a (sort_amounts before rest) ∙ ap (◌+◌ (w a)) (sort_amounts-weigh rest)

module _ (other_int : List ℕ → Option ℕ) (asset : String) where
  -- An entry for the asset, the payments that it counts, and its total as it is printed.
  abbrev pub entries : AssetAmount → ℕ
  entries e = if str_eq e.asset asset then 1 else 0

  abbrev pub counted : AssetAmount → ℕ
  counted e = if str_eq e.asset asset then e.count else 0

  abbrev pub stroops : AssetAmount → ℕ
  stroops e = if str_eq e.asset asset then or_zero (total_stroops other_int e.total) else 0

  -- A payment of the asset, and its amount.
  abbrev pub paid : PaymentInstruction → ℕ
  paid p = if str_eq p.asset asset then 1 else 0

  abbrev pub amount : PaymentInstruction → ℕ
  amount p = if str_eq p.asset asset then or_zero (total_stroops other_int (codes p.amount)) else 0

  abbrev entries' : Total → ℕ
  entries' t = if str_eq t.asset asset then 1 else 0

  abbrev counted' : Total → ℕ
  counted' t = if str_eq t.asset asset then t.count else 0

  abbrev total' : Total → ℕ
  total' t = if str_eq t.asset asset then t.total else 0

  -- What an addition to the entry of an asset changes.
  record Added (x : String) (n : ℕ) (ts ts' : List Total) : Type 0 where
    count : weigh counted' ts' ≡ weigh counted' ts + (if str_eq x asset then 1 else 0)
    total : weigh total' ts' ≡ weigh total' ts + (if str_eq x asset then n else 0)
    entry : weigh entries' ts' ≡ (
        if str_eq x asset
        then (if weigh entries' ts == 0 then 1 else weigh entries' ts)
        else weigh entries' ts)

  add_total-Added : (x : String) (n : ℕ) (ts : List Total) → Added x n ts (add_total x n ts)
  unfolding add_total
  add_total-Added x n [] = record {
    count = ground arith;
    total = ground arith;
    entry = ground arith;
  }
  add_total-Added x n (t ∷ ts) =
      let ih = add_total-Added x n ts in
      record {
        count = ground (arith, str_eq_iff t.asset x, ih.count);
        total = ground (arith, str_eq_iff t.asset x, ih.total);
        entry = ground (arith, str_eq_iff t.asset x, str_eq_iff x asset, ih.entry);
      }

  -- The same for the loop over the payments.
  record Collected (ps : List PaymentInstruction) (ts ts' : List Total) : Type 0 where
    count : weigh counted' ts' ≡ weigh counted' ts + weigh paid ps
    total : weigh total' ts' ≡ weigh total' ts + weigh amount ps
    entry : weigh entries' ts' ≡ (
        if weigh paid ps == 0
        then weigh entries' ts
        else if weigh entries' ts == 0
        then 1
        else weigh entries' ts)

  payment_totals-Collected :
      (ps : List PaymentInstruction) (ts ts' : List Total)
      → payment_totals other_int ps ts ≡ some ts'
      → Collected ps ts ts'
  unfolding payment_totals
  payment_totals-Collected [] ts ts' e = record {
    count = ground arith;
    total = ground arith;
    entry = ground arith;
  }
  payment_totals-Collected (p ∷ ps) ts ts' e =
      elim (Option-cases (total_stroops other_int (codes p.amount))) [
        | inl none_read ↦ absurd (ground arith)
        | inr (n, read) ↦
            let a = add_total-Added p.asset n ts in
            let ih = payment_totals-Collected ps (add_total p.asset n ts) ts' (ground arith) in
            record {
              count = ground (arith, a.count, ih.count);
              total = ground (arith, a.total, ih.total);
              entry = ground (arith, a.entry, ih.entry);
            }
      ]

  -- Printing keeps the entries, their counts and what their totals are read as.
  record Printed (ts : List Total) : Type 0 where
    entry : weigh entries (asset_amounts ts) ≡ weigh entries' ts
    count : weigh counted (asset_amounts ts) ≡ weigh counted' ts
    total : weigh stroops (asset_amounts ts) ≡ weigh total' ts

  asset_amounts-Printed : (ts : List Total) → Printed ts
  unfolding asset_amounts asset_amount
  asset_amounts-Printed [] = record { entry = refl; count = refl; total = refl }
  asset_amounts-Printed (t ∷ ts) =
      let ih = asset_amounts-Printed ts in
      record {
        entry = ground (arith, ih.entry);
        count = ground (arith, ih.count);
        total = ground (arith, ih.total, total_stroops-format_total other_int t.total);
      }

  -- An aggregation has for each asset one entry if there is a payment in it, and none otherwise; the
  -- entry counts the payments of the asset, and its total, as it is printed and read again, is the sum
  -- of their amounts in stroops.
  pub aggregate_payments_by_asset-Totals :
      (before : String → String → Bool) (ps : List PaymentInstruction) (amounts : List AssetAmount)
      → aggregate_payments_by_asset other_int before ps ≡ some amounts
      → (weigh entries amounts ≡ (if weigh paid ps == 0 then 0 else 1))
        × (weigh counted amounts ≡ weigh paid ps)
        × (weigh stroops amounts ≡ weigh amount ps)
  unfolding aggregate_payments_by_asset
  aggregate_payments_by_asset-Totals before ps amounts e =
      elim (Option-cases (payment_totals other_int ps [])) [
        | inl unread ↦ absurd (ground arith)
        | inr (ts, read) ↦
            let sorted : amounts ≡ sort_amounts before (asset_amounts ts) = ground arith in
            let c = payment_totals-Collected ps [] ts read in
            let p = asset_amounts-Printed ts in
            rw sorted (
              sort_amounts-weigh before entries (asset_amounts ts) ∙ p.entry ∙ c.entry,
              sort_amounts-weigh before counted (asset_amounts ts)
                  ∙ p.count
                  ∙ c.count
                  ∙ omega arith,
              sort_amounts-weigh before stroops (asset_amounts ts)
                  ∙ p.total
                  ∙ c.total
                  ∙ omega arith,
            )
      ]
