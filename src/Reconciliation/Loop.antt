-- ===== src/Reconciliation/Loop.antt =====
-- When the lookups settle a transaction, and how long they wait.
use stellar_batch_pay.Base.{
  ℕ, zero, suc, ◌+◌, ◌*◌, ◌≤◌, ◌<◌, ◌≡◌, refl, subst, min, Bool, true, false, Option, List, [], ◌∷◌,
  ◌==◌, arith, length, All, ==_iff, Bool-cases, inl, inr, ◌⊎◌,
}
use stellar_batch_pay.Types.{PaymentStatus, success, failure, unknown}
use stellar_batch_pay.Reconciliation.{
  Lookup, found, lookup_error, is_number, default_max_backoff_ms, default_initial_backoff_ms,
  reconcile_from, reconcile_transaction,
}

-- Horizon does not have the transaction.
abbrev pub is_missing : Lookup → Bool
is_missing found = false
is_missing (lookup_error status) = is_number status 404

abbrev pub is_found : Lookup → Bool
is_found found = true
is_found (lookup_error status) = false

lookup-cases : (l : Lookup) → (l ≡ found) ⊎ ((s : Option ℕ) × (l ≡ lookup_error s))
lookup-cases found = inl refl
lookup-cases (lookup_error s) = inr (s, refl)

-- The waits of a loop are the numbers that follow `backoff` by doubling up to the bound.
abbrev pub Waits : ℕ → List ℕ → Type 0
Waits backoff [] = Unit
Waits backoff (w ∷ ws) = (w ≡ backoff) × Waits (min (backoff * 2) default_max_backoff_ms) ws

module _ (lookup : ℕ → Lookup) where
  -- Neither answer came at the attempts from `first` on, below `last`.
  abbrev pub Undecided : ℕ → ℕ → Type 0
  Undecided first last =
      (k : ℕ)
      → first ≤ k
      → k < last
      → (is_found (lookup k) ≡ false) × (is_missing (lookup k) ≡ false)

  -- What a status and a number of attempts say of the lookups from `first` on, below `last`.
  abbrev pub Says : ℕ → ℕ → ℕ → PaymentStatus → Type 0
  Says first last n success =
      (first ≤ n) × (n < last) × (is_found (lookup n) ≡ true) × Undecided first n
  Says first last n failure =
      (first ≤ n) × (n < last) × (is_missing (lookup n) ≡ true) × Undecided first n
  Says first last n unknown = Undecided first last

  extend_down :
      (first last : ℕ)
      → is_found (lookup first) ≡ false
      → is_missing (lookup first) ≡ false
      → Undecided (first + 1) last
      → Undecided first last
  extend_down first last f m u k l h = elim (Bool-cases (k == first)) [
    | inl e ↦ ground (arith, f, m, (==_iff k first).0 e)
    | inr ne ↦ u k (ground (arith, ne, (==_iff k first).1)) h
  ]

  extend_status :
      (first last n : ℕ) (status : PaymentStatus)
      → is_found (lookup first) ≡ false
      → is_missing (lookup first) ≡ false
      → Says (first + 1) last n status
      → Says first last n status
  extend_status first last n success f m (a, b, c, u) =
      (omega arith, b, c, extend_down first n f m u)
  extend_status first last n failure f m (a, b, c, u) =
      (omega arith, b, c, extend_down first n f m u)
  extend_status first last n unknown f m u = extend_down first last f m u

  last_one :
      (first : ℕ)
      → is_found (lookup first) ≡ false
      → is_missing (lookup first) ≡ false
      → Undecided first (first + 1)
  last_one first f m = extend_down first (first + 1) f m (λ k l h. ground arith)

  reconcile_from-Says :
      (left attempt backoff : ℕ)
      → (let r = (reconcile_from lookup left attempt backoff).0 in
          Says attempt (attempt + left) r.attempts r.status)
  unfolding reconcile_from
  reconcile_from-Says zero attempt backoff = λ k l h. ground arith
  reconcile_from-Says (suc left) attempt backoff = elim (lookup-cases (lookup attempt)) [
    | inl e ↦ rw (e, reconcile_from) (omega arith, omega arith, rw (e) refl, λ k l h. ground arith)
    | inr (status, e) ↦ elim (Bool-cases (is_number status 404)) [
      | inl m ↦
          rw (e, m, reconcile_from) (omega arith, omega arith, rw (e) m, λ k l h. ground arith)
      | inr m ↦ elim (Bool-cases (left == 0)) [
        | inl z ↦
            rw (e, m, z, reconcile_from)
              (λ k l h.
                last_one attempt (rw (e) refl) (rw (e) m) k l
                  (ground (arith, h, (==_iff left 0).0 z)))
        | inr nz ↦
            let (r, sleeps) =
              reconcile_from lookup left (attempt + 1) (min (backoff * 2) default_max_backoff_ms) in
            let rest =
              reconcile_from-Says left (attempt + 1) (min (backoff * 2) default_max_backoff_ms) in
            let n : (attempt + 1) + left ≡ attempt + suc left = omega arith in
            rw (e, m, nz, reconcile_from)
              (extend_status attempt (attempt + suc left) r.attempts r.status (rw (e) refl)
                (rw (e) m) (subst (λ last. Says (attempt + 1) last r.attempts r.status) n rest))
      ]
    ]
  ]

  -- A reconciliation that succeeds found the transaction at its last lookup; one that fails was told
  -- then that there is none; no lookup before it said either, and none at all where it stays unknown.
  pub reconcile_transaction-Says :
      (attempts : ℕ)
      → (let r = (reconcile_transaction lookup attempts).0 in
          Says 1 (1 + attempts) r.attempts r.status)
  unfolding reconcile_transaction
  reconcile_transaction-Says attempts = reconcile_from-Says attempts 1 default_initial_backoff_ms

  reconcile_from-Waits :
      (left attempt backoff : ℕ)
      → (let (r, sleeps) = reconcile_from lookup (suc left) attempt backoff in
          (attempt + length sleeps ≡ r.attempts) × (length sleeps ≤ left) × Waits backoff sleeps)
  unfolding reconcile_from
  reconcile_from-Waits zero attempt backoff = elim (lookup-cases (lookup attempt)) [
    | inl e ↦ ground (arith, e)
    | inr (status, e) ↦ ground (arith, e)
  ]
  reconcile_from-Waits (suc left) attempt backoff = elim (lookup-cases (lookup attempt)) [
    | inl e ↦ ground (arith, e)
    | inr (status, e) ↦ elim (Bool-cases (is_number status 404)) [
      | inl m ↦ ground (arith, e, m)
      | inr m ↦
          let not_last : (suc left == 0) ≡ false = ground arith in
          let rest =
            reconcile_from-Waits left (attempt + 1) (min (backoff * 2) default_max_backoff_ms) in
          rw (e, m, not_last, reconcile_from)
            (omega (arith, rest.0), omega (arith, rest.1), (refl, rest.2))
    ]
  ]

  Waits-bounded :
      (backoff : ℕ) (ws : List ℕ) → backoff ≤ 2000 → Waits backoff ws → All (λ w. w ≤ 2000) ws
  Waits-bounded backoff [] b h = tt
  Waits-bounded backoff (w ∷ ws) b (e, h) = (
    omega (arith, e),
    Waits-bounded (min (backoff * 2) default_max_backoff_ms) ws (omega arith) h,
  )

  -- A reconciliation makes the attempts it was given at most and waits between them only: first 250 ms,
  -- then twice as long each time, and never over 2000 ms. It is stated for one attempt at least.
  pub reconcile_transaction-Waits :
      (left : ℕ)
      → (let (r, sleeps) = reconcile_transaction lookup (suc left) in
          (r.attempts ≡ suc (length sleeps))
          × (r.attempts ≤ suc left)
          × Waits 250 sleeps
          × All (λ w. w ≤ 2000) sleeps)
  unfolding reconcile_transaction
  reconcile_transaction-Waits left =
      let h = reconcile_from-Waits left 1 default_initial_backoff_ms in
      (
        omega (arith, h.0),
        omega (arith, h.0, h.1),
        h.2,
        Waits-bounded 250 (reconcile_from lookup (suc left) 1 250).1 (omega arith) h.2,
      )
