-- ===== src/Amounts/RoundTrip.antt =====
-- utils/aggregateAssets.ts: a formatted total is read back as the same number of stroops.
use stellar_batch_pay.Base.{
  ℕ, zero, suc, ◌+◌, ◌*◌, ◌/◌, ◌%◌, ◌≤◌, ◌≡◌, refl, ap, ◌∙◌, Option, some, List, [], ◌∷◌, ◌++◌,
  length, take, is_empty, arith, Bool-cases, inl, inr, All, nil_of_is_empty, subst,
}
use stellar_batch_pay.Amounts.{
  places, total_stroops, format_total, is_digit, read_digits, to_string, pad_start, pad_end,
  strip_zeros, before_dot, after_dot, big_int, total_stroops, format_total,
}
use stellar_batch_pay.Amounts.Digits.{
  IsDigit, read_digits-to_string, to_string-IsDigit, read_digits-pad_start, length-pad_start,
  pad_start-IsDigit, strip_zeros-IsDigit, length-strip_zeros, pad_end-strip_zeros,
  length-digits_from,
}

before_dot_digits : (cs rest : List ℕ) → All IsDigit cs → before_dot (cs ++ b'.' ∷ rest) ≡ cs
unfolding before_dot is_digit
before_dot_digits [] rest h = refl
before_dot_digits (c ∷ cs) rest (d, h) = ground (arith, before_dot_digits cs rest h)

before_dot-All : (cs : List ℕ) → All IsDigit cs → before_dot cs ≡ cs
unfolding before_dot is_digit
before_dot-All [] h = refl
before_dot-All (c ∷ cs) (d, h) = ground (arith, before_dot-All cs h)

after_dot_digits : (cs rest : List ℕ) → All IsDigit cs → after_dot (cs ++ b'.' ∷ rest) ≡ rest
unfolding after_dot is_digit
after_dot_digits [] rest h = refl
after_dot_digits (c ∷ cs) rest (d, h) = ground (arith, after_dot_digits cs rest h)

after_dot-All : (cs : List ℕ) → All IsDigit cs → after_dot cs ≡ []
unfolding after_dot is_digit
after_dot-All [] h = refl
after_dot-All (c ∷ cs) (d, h) = ground (arith, after_dot-All cs h)

take_short : (n : ℕ) (cs : List ℕ) → length cs ≤ n → take n cs ≡ cs
take_short zero [] h = refl
take_short zero (c ∷ cs) h = absurd (omega arith)
take_short (suc n) [] h = refl
take_short (suc n) (c ∷ cs) h = ap (◌∷◌ c) (take_short n cs (omega arith))

length-places : (n : ℕ) → length (places n) ≡ 7
unfolding places to_string
length-places n =
    length-pad_start 7 (to_string (n % 10000000))
      (length-digits_from 6 (suc (n % 10000000)) (n % 10000000) (omega arith))

places-IsDigit : (n : ℕ) → All IsDigit (places n)
unfolding places
places-IsDigit n = pad_start-IsDigit 7 (to_string (n % 10000000)) (to_string-IsDigit (n % 10000000))

module _ (other_int : List ℕ → Option ℕ) where
  big_int_read : (cs : List ℕ) (n : ℕ) → read_digits 0 cs ≡ some n → big_int other_int cs ≡ some n
  unfolding big_int
  big_int_read cs n e = rw (e, big_int) refl

  -- The fraction of a printed total, as it is read.
  big_int-places :
      (n : ℕ)
      → big_int other_int (pad_end 7 (take 7 (before_dot (strip_zeros (places n)))))
        ≡ some (n % 10000000)
  unfolding places pad_start
  big_int-places n =
      rw
        (
          before_dot-All (strip_zeros (places n))
              (strip_zeros-IsDigit (places n) (places-IsDigit n)),
          take_short 7 (strip_zeros (places n))
              (omega (arith, length-strip_zeros (places n), length-places n)),
          filled n,
        )
        (big_int_read (places n) (n % 10000000) (read_places n))
    where
      filled : (n : ℕ) → pad_end 7 (strip_zeros (places n)) ≡ places n
      filled n =
          subst (λ k. pad_end k (strip_zeros (places n)) ≡ places n) (length-places n)
            (pad_end-strip_zeros (places n))

      read_places : (n : ℕ) → read_digits 0 (places n) ≡ some (n % 10000000)
      read_places n =
          read_digits-pad_start 7 (to_string (n % 10000000)) ∙ read_digits-to_string (n % 10000000)

  no_fraction : big_int other_int (pad_end 7 (take 7 (before_dot []))) ≡ some 0
  unfolding big_int read_digits is_digit pad_end before_dot
  no_fraction = refl

  total_stroops_whole :
      (integer : List ℕ) (a : ℕ)
      → All IsDigit integer
      → read_digits 0 integer ≡ some a
      → total_stroops other_int integer ≡ some (a * 10000000)
  unfolding total_stroops
  total_stroops_whole integer a d e = ground (
    arith,
    before_dot-All integer d,
    after_dot-All integer d,
    big_int_read integer a e,
    no_fraction,
  )

  no_remainder : (n : ℕ) → strip_zeros (places n) ≡ [] → n % 10000000 ≡ 0
  no_remainder n e = ground (arith, big_int-places n, no_fraction)

  total_stroops_joined :
      (integer fraction : List ℕ) (a b : ℕ)
      → All IsDigit integer
      → read_digits 0 integer ≡ some a
      → big_int other_int (pad_end 7 (take 7 (before_dot fraction))) ≡ some b
      → total_stroops other_int (integer ++ b'.' ∷ fraction) ≡ some (a * 10000000 + b)
  unfolding total_stroops
  total_stroops_joined integer fraction a b d e f = ground (
    arith,
    before_dot_digits integer fraction d,
    after_dot_digits integer fraction d,
    big_int_read integer a e,
  )

  -- A total that is printed is read back as the same number of stroops.
  pub total_stroops-format_total : (n : ℕ) → total_stroops other_int (format_total n) ≡ some n
  unfolding format_total
  total_stroops-format_total n = elim (Bool-cases (is_empty (strip_zeros (places n)))) [
    | inl e ↦
        let none_left = no_remainder n (nil_of_is_empty (strip_zeros (places n)) e) in
        rw (e, format_total)
          (total_stroops_whole (to_string (n / 10000000)) (n / 10000000)
              (to_string-IsDigit (n / 10000000)) (read_digits-to_string (n / 10000000))
            ∙ ap some (omega arith))
    | inr e ↦
        rw (e, format_total)
          (total_stroops_joined (to_string (n / 10000000)) (strip_zeros (places n)) (n / 10000000)
              (n % 10000000) (to_string-IsDigit (n / 10000000))
              (read_digits-to_string (n / 10000000)) (big_int-places n)
            ∙ ap some (omega arith))
  ]
