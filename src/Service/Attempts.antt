-- ===== src/Service/Attempts.antt =====
-- How a call of the loop of `submitOneWithRetry` (lib/stellar/server.ts) returns.
use stellar_batch_pay.Base.{
  ℕ, suc, ◌+◌, ◌≤◌, ◌<◌, ◌≡◌, ◌≢◌, refl, sym, ◌∙◌, inl, inr, true, ◌&&◌, List, [], ◌∷◌, ltb, arith,
  Bool-cases, ok, Result-cases, ok-injective,
}
use stellar_batch_pay.Types.{PaymentInstruction}
use stellar_batch_pay.Service.{
  World, Config, Account, Attempt, Run, submit_one_transaction, submit_built, build_batch_memo,
  Memo, fee_rejected, next_fee, after, retry_from,
}

module _ (world : World) (config : Config) where
  abbrev pub attempt_of : ℕ → List PaymentInstruction → ℕ → Account → Attempt
  attempt_of n ps fee account = record {
    account = account;
    fee = fee;
    outcome = (submit_built world config n ps account).0;
  }

  -- How a call of the loop returns: at once, after a reload, or after a higher fee.
  pub data Returned (fuel n : ℕ) (ps : List PaymentInstruction) (b f fee : ℕ) (account : Account)
      (run : Run) : Type 0 where
    at_once :
        (let (o, account') = submit_built world config n ps account in
          (o.needs_reload ≡ true → config.bad_sequence_retry_limit ≤ b)
          × (run ≡ record {
            outcome = o;
            account = account';
            attempts = attempt_of n ps fee account ∷ [];
          }))
        → Returned fuel n ps b f fee account run
    reloaded :
        (fresh : Account) (rest : Run)
        → ((submit_built world config n ps account).0.needs_reload ≡ true)
          × (world.load_account (n + 1) ≡ ok fresh)
          × (b < config.bad_sequence_retry_limit)
          × (retry_from world config fuel (n + 1) ps (b + 1) f fee fresh ≡ ok rest)
          × (run ≡ after world config (attempt_of n ps fee account) rest)
        → Returned fuel n ps b f fee account run
    raised :
        (rest : Run)
        → (let (o, account') = submit_built world config n ps account in
            (fee_rejected world config o ≡ true)
            × (f < config.fee_retry_limit)
            × (fee < next_fee world config fee)
            × (retry_from world config fuel
                  (n + 1)
                  ps
                  b
                  (f + 1)
                  (next_fee world config fee)
                  account'
                ≡ ok rest)
            × (run ≡ after world config (attempt_of n ps fee account) rest))
        → Returned fuel n ps b f fee account run

  pub built_once :
      (n : ℕ) (ps : List PaymentInstruction) (account : Account) (memo : Memo)
      → build_batch_memo world config ps n ≡ ok memo
      → submit_one_transaction world config n ps account
        ≡ ok (submit_built world config n ps account)
  unfolding submit_one_transaction
  built_once n ps account memo e = rw (e, submit_one_transaction) refl

  returned_built :
      (fuel n : ℕ) (ps : List PaymentInstruction) (b f fee : ℕ) (account : Account) (run : Run)
      → submit_one_transaction world config n ps account
        ≡ ok (submit_built world config n ps account)
      → retry_from world config (suc fuel) n ps b f fee account ≡ ok run
      → Returned fuel n ps b f fee account run
  unfolding retry_from
  returned_built fuel n ps b f fee account run m h =
      let (o, account') = submit_built world config n ps account in
      elim (Bool-cases (o.needs_reload && ltb b config.bad_sequence_retry_limit)) [
        | inl r ↦ elim (Result-cases (world.load_account (n + 1))) [
          | inl (e, l) ↦ ground (arith, h, m, r, l)
          | inr (fresh, l) ↦
              elim (Result-cases (retry_from world config fuel (n + 1) ps (b + 1) f fee fresh)) [
                | inl (e, g) ↦ ground (arith, h, m, r, l, g)
                | inr (rest, g) ↦ reloaded fresh rest (
                  ground (arith, r),
                  l,
                  ground (arith, r),
                  g,
                  ok-injective (sym h ∙ ground (arith, m, r, l, g)),
                )
              ]
        ]
        | inr nr ↦
            elim (Bool-cases (
              fee_rejected world config o
              && ltb f config.fee_retry_limit
              && ltb fee (next_fee world config fee))) [
                | inl r ↦
                    elim (Result-cases (
                      retry_from world config fuel (n + 1) ps b (f + 1) (next_fee world config fee)
                        account')) [
                          | inl (e, g) ↦ ground (arith, h, m, nr, r, g)
                          | inr (rest, g) ↦ raised rest (
                            ground (arith, r),
                            ground (arith, r),
                            ground (arith, r),
                            g,
                            ok-injective (sym h ∙ ground (arith, m, nr, r, g)),
                          )
                        ]
                | inr nf ↦ at_once (
                  (λ again. ground (arith, nr, again)),
                  ok-injective (sym h ∙ ground (arith, m, nr, nf)),
                )
              ]
      ]

  -- A transaction whose memo is refused does not return.
  pub returned :
      (fuel n : ℕ) (ps : List PaymentInstruction) (b f fee : ℕ) (account : Account) (run : Run)
      → retry_from world config (suc fuel) n ps b f fee account ≡ ok run
      → Returned fuel n ps b f fee account run
  unfolding retry_from submit_one_transaction
  returned fuel n ps b f fee account run h =
      elim (Result-cases (build_batch_memo world config ps n)) [
        | inl (e, l) ↦ ground (arith, h, l)
        | inr (memo, l) ↦
            returned_built fuel n ps b f fee account run (built_once n ps account memo l) h
      ]

  pub no_fuel :
      (n : ℕ) (ps : List PaymentInstruction) (b f fee : ℕ) (account : Account) (run : Run)
      → ◌≢◌ (retry_from world config 0 n ps b f fee account) (ok run)
  unfolding retry_from
  no_fuel n ps b f fee account run = λ e. ground (arith, e)
