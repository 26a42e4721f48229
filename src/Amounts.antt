-- ===== src/Amounts.antt =====
-- utils/aggregateAssets.ts: amounts as decimal texts with seven places, and their totals for each asset.
-- A text is the list of its characters' codes where the code cuts it. The amounts have no sign, so
-- that a `bigint` is a natural number.
pub mod Digits
pub mod RoundTrip
pub mod Totals
mod Tests
use Prim.Native.Char.{code}
use Prim.Native.String.{String}
use Prim.Native.String
use stellar_batch_pay.Base.{
  ℕ, zero, suc, ◌+◌, ◌-◌, ◌*◌, ◌/◌, ◌%◌, Bool, true, false, ◌&&◌, Option, none, some, List, [], ◌∷◌,
  ◌++◌, ltb, leb, ◌==◌, if◌then◌else◌, length, take, is_empty, str_eq,
}
use stellar_batch_pay.Types.{PaymentInstruction}

abbrev pub codes : String → List ℕ
codes String.[] = []
codes (String.◌∷◌ c s) = code c ∷ codes s

pub is_digit : ℕ → Bool
is_digit c = leb b'0' c && leb c b'9'

-- `split('.')`: the part before the first dot, and what follows it.
pub before_dot : List ℕ → List ℕ
before_dot [] = []
before_dot (c ∷ cs) = if c == b'.' then [] else c ∷ before_dot cs

pub after_dot : List ℕ → List ℕ
after_dot [] = []
after_dot (c ∷ cs) = if c == b'.' then cs else after_dot cs

-- `padEnd(n, '0')`, `padStart(n, '0')` and `replace(/0+$/, '')`.
pub pad_end : ℕ → List ℕ → List ℕ
pad_end zero cs = cs
pad_end (suc n) [] = b'0' ∷ pad_end n []
pad_end (suc n) (c ∷ cs) = c ∷ pad_end n cs

pub zeros : ℕ → List ℕ
zeros zero = []
zeros (suc n) = b'0' ∷ zeros n

pub pad_start : ℕ → List ℕ → List ℕ
unfolding zeros
pad_start n cs = zeros (n - length cs) ++ cs

pub strip_zeros : List ℕ → List ℕ
strip_zeros [] = []
strip_zeros (c ∷ cs) =
    let rest = strip_zeros cs in if c == b'0' && is_empty rest then [] else c ∷ rest

-- `toString()` of a number below the fuel.
pub digits_from : ℕ → ℕ → List ℕ
digits_from zero n = []
digits_from (suc fuel) n =
    let rest = digits_from fuel (n / 10) in
    if ltb n 10 then (b'0' + n) ∷ [] else rest ++ (b'0' + n % 10) ∷ []

pub to_string : ℕ → List ℕ
unfolding digits_from
to_string n = digits_from (suc n) n

-- The number of decimal digits, after the number read before them.
pub read_digits : ℕ → List ℕ → Option ℕ
unfolding is_digit
read_digits n [] = some n
read_digits n (c ∷ cs) = if is_digit c then read_digits (n * 10 + (c - b'0')) cs else none

-- `other_int`: `BigInt` of a text that is not digits only (white space, hexadecimal digits), `none`
-- where it throws.
module _ (other_int : List ℕ → Option ℕ) where
  pub big_int : List ℕ → Option ℕ
  unfolding read_digits
  big_int cs = elim (read_digits 0 cs) [ none ↦ other_int cs | some n ↦ some n ]

  -- `totalStroops` of an amount.
  pub total_stroops : List ℕ → Option ℕ
  unfolding before_dot after_dot pad_end big_int
  total_stroops amount =
      let padded = pad_end 7 (take 7 (before_dot (after_dot amount))) in
      elim (big_int (before_dot amount)) [
        | none ↦ none
        | some integer ↦ elim (big_int padded) [
          | none ↦ none
          | some fraction ↦ some (integer * 10000000 + fraction)
        ]
      ]

-- The fraction with its seven places, and `total` of a number of stroops.
pub places : ℕ → List ℕ
unfolding to_string pad_start
places n = pad_start 7 (to_string (n % 10000000))

pub format_total : ℕ → List ℕ
format_total n =
    let fraction = strip_zeros (places n) in
    let integer = to_string (n / 10000000) in
    if is_empty fraction then integer else integer ++ b'.' ∷ fraction

-- An entry of the map, in the order of the first payment of each asset.
pub record Total : Type 0 where
  pub asset : String
  pub total : ℕ
  pub count : ℕ

pub add_total : String → ℕ → List Total → List Total
add_total asset n [] = record { asset = asset; total = n; count = 1 } ∷ []
add_total asset n (t ∷ ts) =
    if str_eq t.asset asset
    then record t { total = t.total + n; count = t.count + 1 } ∷ ts
    else t ∷ add_total asset n ts

pub record AssetAmount : Type 0 where
  pub asset : String
  pub total : List ℕ
  pub count : ℕ

pub asset_amount : Total → AssetAmount
unfolding format_total
asset_amount t = record { asset = t.asset; total = format_total t.total; count = t.count }

pub asset_amounts : List Total → List AssetAmount
unfolding asset_amount
asset_amounts [] = []
asset_amounts (t ∷ ts) = asset_amount t ∷ asset_amounts ts

-- `before`: that `localeCompare` puts a text before or with another.
module _ (before : String → String → Bool) where
  -- The comparison puts XLM first.
  pub not_after : AssetAmount → AssetAmount → Bool
  not_after a b =
      if str_eq a.asset "XLM"
      then true
      else if str_eq b.asset "XLM"
      then false
      else before a.asset b.asset

  pub insert_amount : AssetAmount → List AssetAmount → List AssetAmount
  unfolding not_after
  insert_amount a [] = a ∷ []
  insert_amount a (b ∷ bs) = if not_after a b then a ∷ b ∷ bs else b ∷ insert_amount a bs

  pub sort_amounts : List AssetAmount → List AssetAmount
  unfolding insert_amount
  sort_amounts [] = []
  sort_amounts (a ∷ rest) = insert_amount a (sort_amounts rest)

pub data HorizonBalance : Type 0 where
  native_balance : String → HorizonBalance
  issued_balance : String → String → String → HorizonBalance

pub balance_asset : HorizonBalance → String
balance_asset (native_balance b) = "XLM"
balance_asset (issued_balance asset_code issuer b) = String.◌++◌ asset_code (String.◌++◌ ":" issuer)

abbrev pub balance_text : HorizonBalance → String
balance_text (native_balance b) = b
balance_text (issued_balance asset_code issuer b) = b

-- The amounts of balances: each counts once for its asset.
pub balance_amounts : List Total → List AssetAmount
unfolding format_total
balance_amounts [] = []
balance_amounts (t ∷ ts) =
    record { asset = t.asset; total = format_total t.total; count = 1 } ∷ balance_amounts ts

module _ (other_int : List ℕ → Option ℕ) where
  -- The loop over the payments, or the balances; `none` where an amount throws.
  pub payment_totals : List PaymentInstruction → List Total → Option (List Total)
  unfolding total_stroops add_total
  payment_totals [] ts = some ts
  payment_totals (p ∷ ps) ts = elim (total_stroops other_int (codes p.amount)) [
    | none ↦ none
    | some n ↦ payment_totals ps (add_total p.asset n ts)
  ]

  pub balance_totals : List HorizonBalance → List Total → Option (List Total)
  unfolding total_stroops add_total balance_asset
  balance_totals [] ts = some ts
  balance_totals (b ∷ bs) ts = elim (total_stroops other_int (codes (balance_text b))) [
    | none ↦ none
    | some n ↦ balance_totals bs (add_total (balance_asset b) n ts)
  ]

  module _ (before : String → String → Bool) where
    pub aggregate_payments_by_asset : List PaymentInstruction → Option (List AssetAmount)
    unfolding payment_totals asset_amounts sort_amounts
    aggregate_payments_by_asset ps = elim (payment_totals ps []) [
      | none ↦ none
      | some ts ↦ some (sort_amounts before (asset_amounts ts))
    ]

    pub aggregate_balances : List HorizonBalance → Option (List AssetAmount)
    unfolding balance_totals balance_amounts sort_amounts
    aggregate_balances bs = elim (balance_totals bs []) [
      | none ↦ none
      | some ts ↦ some (sort_amounts before (balance_amounts ts))
    ]
