-- ===== src/Service/Returns.antt =====
-- lib/stellar/server.ts: what a submission needs to return, and what its retries then did.
use stellar_batch_pay.Base.{
  ℕ, zero, suc, ◌+◌, ◌-◌, ◌<◌, ◌≡◌, refl, inl, inr, ◌⊎◌, String, Option, some, none, ◌&&◌, List, [],
  ◌∷◌, ltb, leb, if◌then◌else◌, arith, Bool-cases, Option-cases, ok, All,
}
use stellar_batch_pay.Types.{PaymentInstruction, MemoType, id, text}
use stellar_batch_pay.Batcher.{present_memo, effective_memo_type}
use stellar_batch_pay.Service.{
  World, Config, Account, Run, Memo, memo_id, memo_text, first_memo, build_batch_memo, submit_built,
  submit_one_transaction, fee_rejected, next_fee, after, retry_from, submit_one_with_retry,
}
use stellar_batch_pay.Service.Attempts.{attempt_of, built_once}
use stellar_batch_pay.Service.Runs.{Runs, retry_from-Runs}

memo_type-cases :
    (t : Option MemoType) → (effective_memo_type t ≡ id) ⊎ (effective_memo_type t ≡ text)
unfolding effective_memo_type
memo_type-cases (some id) = inl refl
memo_type-cases _ = inr refl

module _ (world : World) (config : Config) where
  -- Every reload of the account answers.
  abbrev pub Loads : Type 0
  Loads = (k : ℕ) → (fresh : Account) × (world.load_account k ≡ ok fresh)

  -- `Memo.id` takes the memo of the payment, where that is an id.
  abbrev pub TakesMemo : PaymentInstruction → Type 0
  TakesMemo p =
      (m : String)
      → present_memo p.memo ≡ some m
      → effective_memo_type p.memo_type ≡ id
      → world.check_memo_id m ≡ ok tt

  first_memo-TakesMemo :
      (ps : List PaymentInstruction)
      → All TakesMemo ps
      → (first_memo ps ≡ none)
        ⊎ ((m : String) × (p : PaymentInstruction) × (first_memo ps ≡ some (m, p))
            × (effective_memo_type p.memo_type ≡ id → world.check_memo_id m ≡ ok tt))
  unfolding first_memo
  first_memo-TakesMemo [] takes = inl refl
  first_memo-TakesMemo (p ∷ ps) (take, takes) = elim (Option-cases (present_memo p.memo)) [
    | inl e ↦ rw (e, first_memo) (first_memo-TakesMemo ps takes)
    | inr (m, e) ↦ inr (m, p, rw (e, first_memo) refl, take m e)
  ]

  build_batch_memo_ok :
      (ps : List PaymentInstruction) (n : ℕ)
      → All TakesMemo ps
      → (memo : Memo) × (build_batch_memo world config ps n ≡ ok memo)
  unfolding build_batch_memo
  build_batch_memo_ok ps n takes = elim (first_memo-TakesMemo ps takes) [
    | inl e ↦ (memo_text (world.truncate_memo (world.tracking_memo n)), ground (arith, e))
    | inr (m, p, e, take) ↦ elim (memo_type-cases p.memo_type) [
      | inl i ↦ (memo_id m, ground (arith, e, i, take i))
      | inr i ↦ (memo_text (world.truncate_memo m), ground (arith, e, i))
    ]
  ]

  built_always :
      (ps : List PaymentInstruction) (n : ℕ) (account : Account)
      → All TakesMemo ps
      → submit_one_transaction world config n ps account
        ≡ ok (submit_built world config n ps account)
  built_always ps n account takes =
      let (memo, e) = build_batch_memo_ok ps n takes in built_once world config n ps account memo e

  -- The fuel is used up by no more than the retries that are left.
  retry_from_returns :
      (fuel n : ℕ) (ps : List PaymentInstruction) (b f fee : ℕ) (account : Account)
      → Loads
      → All TakesMemo ps
      → (config.bad_sequence_retry_limit - b) + (config.fee_retry_limit - f) < fuel
      → (run : Run) × (retry_from world config fuel n ps b f fee account ≡ ok run)
  unfolding retry_from
  retry_from_returns zero n ps b f fee account loads takes l = ground (arith, l)
  retry_from_returns (suc fuel) n ps b f fee account loads takes l =
      let s = built_always ps n account takes in
      let (o, account') = submit_built world config n ps account in
      let a = attempt_of world config n ps fee account in
      elim (Bool-cases (o.needs_reload && ltb b config.bad_sequence_retry_limit)) [
        | inl r ↦
            let m : b < config.bad_sequence_retry_limit = ground (arith, r) in
            let (fresh, u) = loads (n + 1) in
            let (rest, g) =
              retry_from_returns fuel (n + 1) ps (b + 1) f fee fresh loads takes
                (omega (arith, l, m)) in
            (after world config a rest, ground (arith, s, r, u, g))
        | inr nr ↦
            elim (Bool-cases (
              fee_rejected world config o
              && ltb f config.fee_retry_limit
              && ltb fee (next_fee world config fee))) [
                | inl r ↦
                    let m : f < config.fee_retry_limit = ground (arith, r) in
                    let (rest, g) =
                      retry_from_returns fuel (n + 1) ps b (f + 1) (next_fee world config fee)
                        account' loads takes (omega (arith, l, m)) in
                    (after world config a rest, ground (arith, s, nr, r, g))
                | inr nf ↦ (
                  record { outcome = o; account = account'; attempts = a ∷ [] },
                  ground (arith, s, nr, nf),
                )
              ]
      ]

  -- Where every reload of the account answers and `Memo.id` takes the payments' id memos, the loop
  -- ends. It made as many attempts as it reloaded the account and raised the fee, and one more, within
  -- the limit of each of the two; only the last attempt can have gone through. It reloads after an
  -- attempt with a stale sequence number and gives up on that only at the limit; it raises the fee only
  -- after one that was too low, and no fee is below the first, nor above it and the maximum both.
  pub submit_one_with_retry-Runs :
      (n : ℕ) (ps : List PaymentInstruction) (account : Account) (fee : ℕ)
      → Loads
      → All TakesMemo ps
      → (run : Run) × (submit_one_with_retry world config n ps account fee ≡ ok run)
        × Runs world config ps n 0 0 (if leb fee 0 then 100 else fee) account run
  unfolding submit_one_with_retry
  submit_one_with_retry-Runs n ps account fee loads takes =
      let (run, e) =
        retry_from_returns (config.bad_sequence_retry_limit + config.fee_retry_limit + 1) n ps 0 0
          (if leb fee 0 then 100 else fee) account loads takes (omega arith) in
      (run, e, retry_from-Runs world config _ n ps 0 0 _ account run (omega arith) (omega arith) e)
