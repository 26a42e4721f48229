-- ===== src/JobStore/Queries/Search.antt =====
-- lib/history-filters.ts: an escaped search is taken literally by LIKE.
use stellar_batch_pay.Base.{
  ℕ, ◌≡◌, ◌≢◌, refl, ap, ◌∙◌, Bool, true, false, ◌&&◌, ◌||◌, List, [], ◌∷◌, ◌++◌, ◌==◌, is_empty,
  arith, Bool-cases, inl, inr,
}
use stellar_batch_pay.JobStore.Queries.{replace_all, escape_like_pattern, search_term}

-- What SQL documents of LIKE with a backslash as the escape: `%` stands for any text, a character after
-- the escape for itself, and so does any other but `_`. Two characters match by `same`.
pub record IsLike (same : ℕ → ℕ → Bool) (like : List ℕ → List ℕ → Bool) : Type 0 where
  pub end : (s : List ℕ) → like [] s ≡ is_empty s
  pub any_nil : (p : List ℕ) → like (b'%' ∷ p) [] ≡ like p []
  pub any_cons :
      (p : List ℕ) (c : ℕ) (s : List ℕ)
      → like (b'%' ∷ p) (c ∷ s) ≡ (like p (c ∷ s) || like (b'%' ∷ p) s)
  pub escaped_nil : (x : ℕ) (p : List ℕ) → like (0x5C ∷ x ∷ p) [] ≡ false
  pub escaped_cons :
      (x : ℕ) (p : List ℕ) (c : ℕ) (s : List ℕ)
      → like (0x5C ∷ x ∷ p) (c ∷ s) ≡ (same x c && like p s)
  pub plain_nil : (x : ℕ) (p : List ℕ) → x ≢ 0x5C → x ≢ b'%' → x ≢ b'_' → like (x ∷ p) [] ≡ false
  pub plain_cons :
      (x : ℕ) (p : List ℕ) (c : ℕ) (s : List ℕ)
      → x ≢ 0x5C
      → x ≢ b'%'
      → x ≢ b'_'
      → like (x ∷ p) (c ∷ s) ≡ (same x c && like p s)

module _ (same : ℕ → ℕ → Bool) where
  -- The text begins with the search, or holds it somewhere.
  pub begins_with : List ℕ → List ℕ → Bool
  begins_with [] s = true
  begins_with (x ∷ t) [] = false
  begins_with (x ∷ t) (c ∷ s) = same x c && begins_with t s

  pub contains_text : List ℕ → List ℕ → Bool
  unfolding begins_with
  contains_text t [] = begins_with t []
  contains_text t (c ∷ s) = begins_with t (c ∷ s) || contains_text t s

escape_nil : escape_like_pattern [] ≡ []
unfolding escape_like_pattern replace_all
escape_nil = refl

-- One character at a time.
escape_other :
    (x : ℕ) (t : List ℕ)
    → x ≢ 0x5C
    → x ≢ b'%'
    → x ≢ b'_'
    → escape_like_pattern (x ∷ t) ≡ x ∷ escape_like_pattern t
unfolding escape_like_pattern replace_all
escape_other x t a b c = ground arith

escape_special :
    (x : ℕ) (t : List ℕ)
    → ((x == 0x5C) || (x == b'%') || (x == b'_')) ≡ true
    → escape_like_pattern (x ∷ t) ≡ 0x5C ∷ x ∷ escape_like_pattern t
unfolding escape_like_pattern replace_all
escape_special x t e = ground arith

module _ (same : ℕ → ℕ → Bool) (like : List ℕ → List ℕ → Bool) (laws : IsLike same like) where
  any_rest : (s : List ℕ) → like (b'%' ∷ []) s ≡ true
  any_rest [] = laws.any_nil [] ∙ laws.end []
  any_rest (c ∷ s) = ground (arith, laws.any_cons [] c s, any_rest s)

  escaped-begins_with :
      (t s : List ℕ) → like (escape_like_pattern t ++ b'%' ∷ []) s ≡ begins_with same t s
  unfolding begins_with
  escaped-begins_with [] s = ap (λ e. like (e ++ b'%' ∷ []) s) escape_nil ∙ any_rest s
  escaped-begins_with (x ∷ t) [] =
      let rest = escape_like_pattern t ++ b'%' ∷ [] in
      elim (Bool-cases ((x == 0x5C) || (x == b'%') || (x == b'_'))) [
        | inl e ↦
            ap (λ p. like (p ++ b'%' ∷ []) []) (escape_special x t e) ∙ laws.escaped_nil x rest
        | inr e ↦
            ap (λ p. like (p ++ b'%' ∷ []) [])
              (escape_other x t (λ h. ground arith) (λ h. ground arith) (λ h. ground arith))
            ∙ laws.plain_nil x rest (λ h. ground arith) (λ h. ground arith) (λ h. ground arith)
      ]
  escaped-begins_with (x ∷ t) (c ∷ s) =
      let rest = escape_like_pattern t ++ b'%' ∷ [] in
      let ih = ap (◌&&◌ (same x c)) (escaped-begins_with t s) in
      elim (Bool-cases ((x == 0x5C) || (x == b'%') || (x == b'_'))) [
        | inl e ↦
            ap (λ p. like (p ++ b'%' ∷ []) (c ∷ s)) (escape_special x t e)
            ∙ laws.escaped_cons x rest c s
            ∙ ih
        | inr e ↦
            ap (λ p. like (p ++ b'%' ∷ []) (c ∷ s))
              (escape_other x t (λ h. ground arith) (λ h. ground arith) (λ h. ground arith))
            ∙ laws.plain_cons x rest c s (λ h. ground arith) (λ h. ground arith) (λ h. ground arith)
            ∙ ih
      ]

  -- A search finds just the texts that hold it, character by character, also where it has wildcards or
  -- backslashes.
  pub search_term-contains_text : (t s : List ℕ) → like (search_term t) s ≡ contains_text same t s
  unfolding search_term contains_text
  search_term-contains_text t [] =
      laws.any_nil (escape_like_pattern t ++ b'%' ∷ []) ∙ escaped-begins_with t []
  search_term-contains_text t (c ∷ s) = ground (
    arith,
    laws.any_cons (escape_like_pattern t ++ b'%' ∷ []) c s,
    escaped-begins_with t (c ∷ s),
    search_term-contains_text t s,
  )
