-- ===== src/Amounts/Digits.antt =====
-- utils/aggregateAssets.ts: a number is read back from its decimal digits.
use stellar_batch_pay.Base.{
  nil_of_is_empty, ℕ, zero, suc, ◌+◌, ◌-◌, ◌*◌, ◌/◌, ◌%◌, ◌≤◌, ◌<◌, ◌≡◌, refl, ap, true, none, some,
  List, [], ◌∷◌, ◌++◌, ltb, ◌==◌, ◌&&◌, length, is_empty, arith, Bool-cases, inl, inr, All,
  All-append, length-append,
}
use stellar_batch_pay.Amounts.{
  is_digit, read_digits, digits_from, to_string, zeros, pad_start, pad_end, strip_zeros,
}

abbrev pub IsDigit : ℕ → Type 0
IsDigit c = is_digit c ≡ true

pub read_digits-append :
    (n : ℕ) (xs ys : List ℕ)
    → read_digits n (xs ++ ys)
      ≡ (elim (read_digits n xs) [ none ↦ none | some m ↦ read_digits m ys ])
unfolding read_digits
read_digits-append n [] ys = refl
read_digits-append n (c ∷ xs) ys = ground (arith, read_digits-append (n * 10 + (c - 48)) xs ys)

read_last : (n : ℕ) → read_digits (n / 10) ((b'0' + n % 10) ∷ []) ≡ some n
unfolding read_digits is_digit
read_last n = ground arith

read_one : (n : ℕ) → n < 10 → read_digits 0 ((b'0' + n) ∷ []) ≡ some n
unfolding read_digits is_digit
read_one n h = ground arith

pub read_digits-digits_from : (fuel n : ℕ) → n < fuel → read_digits 0 (digits_from fuel n) ≡ some n
unfolding digits_from
read_digits-digits_from zero n h = absurd (omega arith)
read_digits-digits_from (suc fuel) n h = elim (Bool-cases (ltb n 10)) [
  | inl small ↦ ground (arith, read_one n)
  | inr large ↦ ground (
    arith,
    read_digits-append 0 (digits_from fuel (n / 10)) ((b'0' + n % 10) ∷ []),
    read_digits-digits_from fuel (n / 10),
    read_last n,
  )
]

pub digits_from-IsDigit : (fuel n : ℕ) → All IsDigit (digits_from fuel n)
unfolding digits_from is_digit
digits_from-IsDigit zero n = tt
digits_from-IsDigit (suc fuel) n = elim (Bool-cases (ltb n 10)) [
  | inl small ↦ rw (small, digits_from) (ground arith, tt)
  | inr large ↦
      rw (large, digits_from)
        (All-append IsDigit (digits_from fuel (n / 10)) ((b'0' + n % 10) ∷ [])
          (digits_from-IsDigit fuel (n / 10)) (ground arith, tt))
]

-- The least number of `k` zeros behind a one.
abbrev pub pow10 : ℕ → ℕ
pow10 zero = 1
pow10 (suc k) = 10 * pow10 k

pub length-digits_from : (k fuel n : ℕ) → n < 10 * pow10 k → length (digits_from fuel n) ≤ suc k
unfolding digits_from
length-digits_from k zero n h = omega arith
length-digits_from zero (suc fuel) n h = ground arith
length-digits_from (suc k) (suc fuel) n h = elim (Bool-cases (ltb n 10)) [
  | inl small ↦ rw (small, digits_from) (omega arith)
  | inr large ↦
      rw (large, digits_from)
        (omega (
          arith,
          length-append (digits_from fuel (n / 10)) ((b'0' + n % 10) ∷ []),
          length-digits_from k fuel (n / 10) (omega arith),
        ))
]

pub read_digits-to_string : (n : ℕ) → read_digits 0 (to_string n) ≡ some n
unfolding to_string
read_digits-to_string n = read_digits-digits_from (suc n) n (omega arith)

pub to_string-IsDigit : (n : ℕ) → All IsDigit (to_string n)
unfolding to_string
to_string-IsDigit n = digits_from-IsDigit (suc n) n

-- Leading zeros are read over.
read_digits-zeros : (n : ℕ) (cs : List ℕ) → read_digits 0 (zeros n ++ cs) ≡ read_digits 0 cs
unfolding zeros read_digits is_digit
read_digits-zeros zero cs = refl
read_digits-zeros (suc n) cs = read_digits-zeros n cs

pub read_digits-pad_start :
    (k : ℕ) (cs : List ℕ) → read_digits 0 (pad_start k cs) ≡ read_digits 0 cs
unfolding pad_start
read_digits-pad_start k cs = read_digits-zeros (k - length cs) cs

length-zeros : (n : ℕ) → length (zeros n) ≡ n
unfolding zeros
length-zeros zero = refl
length-zeros (suc n) = ap suc (length-zeros n)

pub length-pad_start : (k : ℕ) (cs : List ℕ) → length cs ≤ k → length (pad_start k cs) ≡ k
unfolding pad_start
length-pad_start k cs h =
    omega (arith, length-append (zeros (k - length cs)) cs, length-zeros (k - length cs))

zeros-IsDigit : (n : ℕ) → All IsDigit (zeros n)
unfolding zeros is_digit
zeros-IsDigit zero = tt
zeros-IsDigit (suc n) = (refl, zeros-IsDigit n)

pub pad_start-IsDigit : (k : ℕ) (cs : List ℕ) → All IsDigit cs → All IsDigit (pad_start k cs)
unfolding pad_start
pad_start-IsDigit k cs h =
    All-append IsDigit (zeros (k - length cs)) cs (zeros-IsDigit (k - length cs)) h

pub strip_zeros-IsDigit : (cs : List ℕ) → All IsDigit cs → All IsDigit (strip_zeros cs)
unfolding strip_zeros
strip_zeros-IsDigit [] h = tt
strip_zeros-IsDigit (c ∷ cs) (d, h) = elim (Bool-cases (c == b'0' && is_empty (strip_zeros cs))) [
  | inl e ↦ rw (e, strip_zeros) tt
  | inr e ↦ rw (e, strip_zeros) (d, strip_zeros-IsDigit cs h)
]

pub length-strip_zeros : (cs : List ℕ) → length (strip_zeros cs) ≤ length cs
unfolding strip_zeros
length-strip_zeros [] = omega arith
length-strip_zeros (c ∷ cs) = ground (arith, length-strip_zeros cs)

-- Trailing zeros are filled up again.
pub pad_end-strip_zeros : (cs : List ℕ) → pad_end (length cs) (strip_zeros cs) ≡ cs
unfolding pad_end strip_zeros
pad_end-strip_zeros [] = refl
pad_end-strip_zeros (c ∷ cs) = elim (Bool-cases (c == b'0' && is_empty (strip_zeros cs))) [
  | inl e ↦ ground (arith, nil_of_is_empty (strip_zeros cs), pad_end-strip_zeros cs)
  | inr e ↦ rw (e, strip_zeros) (ap (◌∷◌ c) (pad_end-strip_zeros cs))
]
