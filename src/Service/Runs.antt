-- ===== src/Service/Runs.antt =====
-- The retries of a transaction (lib/stellar/server.ts): how many, what ends them, and the fees.
use stellar_batch_pay.Base.{
  ℕ, zero, suc, ◌+◌, ◌≤◌, ◌<◌, ◌≡◌, refl, subst, sym, inl, inr, true, false, List, [], ◌∷◌, map,
  max, arith, length, Bool-cases, ok, All, All-map,
}
use stellar_batch_pay.Types.{PaymentInstruction}
use stellar_batch_pay.Service.{
  World, Config, Account, Outcome, Attempt, Run, any_added, place, settle, submit_built,
  fee_rejected, next_fee, after, retry_from,
}
use stellar_batch_pay.Service.Entries.{submission-cases}
use stellar_batch_pay.Service.Attempts.{attempt_of, returned, at_once, reloaded, raised, no_fuel}

module _ (world : World) (config : Config) where
  -- A transaction that asks for a fresh account did not go through.
  settle_reload :
      (n : ℕ) (ps : List PaymentInstruction) (account : Account)
      → (settle world config n ps account).0.needs_reload ≡ true
      → (settle world config n ps account).0.submitted ≡ false
  unfolding settle
  settle_reload n ps account h = elim (submission-cases (world.submit_transaction n)) [
    | inl (x, e) ↦ ground (arith, e, h)
    | inr (error, e) ↦ ground (arith, e, h)
  ]

  reload_unsubmitted :
      (n : ℕ) (ps : List PaymentInstruction) (account : Account)
      → (submit_built world config n ps account).0.needs_reload ≡ true
      → (submit_built world config n ps account).0.submitted ≡ false
  unfolding submit_built
  reload_unsubmitted n ps account h = elim (Bool-cases (any_added (map (place world config) ps))) [
    | inl y ↦ rw (y, submit_built) (settle_reload n ps account (ground (arith, h, y)))
    | inr z ↦ rw (z, submit_built) refl
  ]

  fee_unsubmitted : (o : Outcome) → fee_rejected world config o ≡ true → o.submitted ≡ false
  unfolding fee_rejected
  fee_unsubmitted o h = ground (arith, h)

  -- The attempts from the submission `n` on, with an account and a fee: each but the last did not go
  -- through, and the next one has a freshly loaded account after a stale sequence number (`reloads` of
  -- them), or a higher fee after one that was too low (`raises` of them).
  pub data Tried (ps : List PaymentInstruction)
      : ℕ → Account → ℕ → (reloads raises : ℕ) → List Attempt → Outcome → Type 0 where
    last :
        {n fee : ℕ} {account : Account}
        → Tried ps n account fee 0 0
            (attempt_of world config n ps fee account ∷ [])
            (submit_built world config n ps account).0
    tried_reloaded :
        {n fee reloads raises : ℕ} {account fresh : Account} {rest : List Attempt} {o : Outcome}
        → (submit_built world config n ps account).0.submitted ≡ false
        → (submit_built world config n ps account).0.needs_reload ≡ true
        → world.load_account (n + 1) ≡ ok fresh
        → Tried ps (n + 1) fresh fee reloads raises rest o
        → Tried ps n account fee
            (suc reloads)
            raises
            (attempt_of world config n ps fee account ∷ rest)
            o
    tried_raised :
        {n fee reloads raises : ℕ} {account : Account} {rest : List Attempt} {o : Outcome}
        → (submit_built world config n ps account).0.submitted ≡ false
        → fee_rejected world config (submit_built world config n ps account).0 ≡ true
        → fee < next_fee world config fee
        → Tried ps
            (n + 1)
            (submit_built world config n ps account).1
            (next_fee world config fee)
            reloads
            raises
            rest
            o
        → Tried ps n account fee reloads
            (suc raises)
            (attempt_of world config n ps fee account ∷ rest)
            o

  -- What the loop promises of a run from the submission `n` on, after `b` reloads and `f` raises of the
  -- fee.
  pub record Runs (ps : List PaymentInstruction) (n b f fee : ℕ) (account : Account) (run : Run)
      : Type 0 where
    pub reloads : ℕ
    pub raises : ℕ
    pub tried : Tried ps n account fee reloads raises run.attempts run.outcome
    pub counted : length run.attempts ≡ suc (reloads + raises)
    pub few_reloads : b + reloads ≤ config.bad_sequence_retry_limit
    pub few_raises : f + raises ≤ config.fee_retry_limit
    pub given_up : run.outcome.needs_reload ≡ true → config.bad_sequence_retry_limit ≤ b + reloads
    pub fees : All (λ a. (fee ≤ a.fee) × (a.fee ≤ max fee config.max_fee)) run.attempts

  once_promised :
      (ps : List PaymentInstruction) (n b f fee : ℕ) (account account' : Account)
      → b ≤ config.bad_sequence_retry_limit
      → f ≤ config.fee_retry_limit
      → ((submit_built world config n ps account).0.needs_reload ≡ true
          → config.bad_sequence_retry_limit ≤ b)
      → Runs ps n b f fee account (record {
        outcome = (submit_built world config n ps account).0;
        account = account';
        attempts = attempt_of world config n ps fee account ∷ [];
      })
  once_promised ps n b f fee account account' l l' stop = record {
    reloads = 0;
    raises = 0;
    tried = last;
    counted = refl;
    few_reloads = omega (arith, l);
    few_raises = omega (arith, l');
    given_up = λ again. omega (arith, stop again);
    fees = ((omega arith, omega arith), tt);
  }

  after_reload :
      (ps : List PaymentInstruction) (n b f fee : ℕ) (account fresh : Account) (rest : Run)
      → (submit_built world config n ps account).0.needs_reload ≡ true
      → world.load_account (n + 1) ≡ ok fresh
      → Runs ps (n + 1) (b + 1) f fee fresh rest
      → Runs ps n b f fee account
          (after world config (attempt_of world config n ps fee account) rest)
  after_reload ps n b f fee account fresh rest e l r = record {
    reloads = suc r.reloads;
    raises = r.raises;
    tried = tried_reloaded (reload_unsubmitted n ps account e) e l r.tried;
    counted = omega (arith, r.counted);
    few_reloads = omega (arith, r.few_reloads);
    few_raises = r.few_raises;
    given_up = λ again. omega (arith, r.given_up again);
    fees = ((omega arith, omega arith), r.fees);
  }

  next_fee_bound : (fee : ℕ) → next_fee world config fee ≤ config.max_fee
  unfolding next_fee
  next_fee_bound fee = omega arith

  after_raise :
      (ps : List PaymentInstruction) (n b f fee : ℕ) (account : Account) (rest : Run)
      → fee_rejected world config (submit_built world config n ps account).0 ≡ true
      → fee < next_fee world config fee
      → Runs ps
          (n + 1)
          b
          (f + 1)
          (next_fee world config fee)
          (submit_built world config n ps account).1
          rest
      → Runs ps n b f fee account
          (after world config (attempt_of world config n ps fee account) rest)
  after_raise ps n b f fee account rest e m r =
      let top = next_fee_bound fee in
      record {
        reloads = r.reloads;
        raises = suc r.raises;
        tried = tried_raised (fee_unsubmitted _ e) e m r.tried;
        counted = omega (arith, r.counted);
        few_reloads = r.few_reloads;
        few_raises = omega (arith, r.few_raises);
        given_up = r.given_up;
        fees = (
          (omega arith, omega arith),
          All-map (λ a (x, y). (omega (arith, x, m), omega (arith, y, top))) rest.attempts r.fees,
        );
      }

  pub retry_from-Runs :
      (fuel n : ℕ) (ps : List PaymentInstruction) (b f fee : ℕ) (account : Account) (run : Run)
      → b ≤ config.bad_sequence_retry_limit
      → f ≤ config.fee_retry_limit
      → retry_from world config fuel n ps b f fee account ≡ ok run
      → Runs ps n b f fee account run
  retry_from-Runs zero n ps b f fee account run l l' h =
      elim (no_fuel world config n ps b f fee account run h) [ ]
  retry_from-Runs (suc fuel) n ps b f fee account run l l' h =
      elim (returned world config fuel n ps b f fee account run h) [
        | at_once (stop, e) ↦
            subst (Runs ps n b f fee account) (sym e)
              (once_promised ps n b f fee account _ l l' stop)
        | reloaded fresh rest (r, load, m, g, e) ↦ subst (Runs ps n b f fee account) (sym e) (
            after_reload ps n b f fee account fresh rest r load
              (retry_from-Runs fuel (n + 1) ps (b + 1) f fee fresh rest (omega (arith, m)) l' g))
        | raised rest (r, m, higher, g, e) ↦ subst (Runs ps n b f fee account) (sym e) (
            after_raise ps n b f fee account rest r higher (
              retry_from-Runs fuel (n + 1) ps b (f + 1) (next_fee world config fee)
                (submit_built world config n ps account).1 rest l (omega (arith, m)) g))
      ]
