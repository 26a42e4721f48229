-- ===== src/Batcher/Limits.antt =====
-- The batches of `createBatches` keep within the operation limit and the size limit.
use stellar_batch_pay.Base.{
  ℕ, ◌≤◌, ◌<◌, ◌≡◌, refl, ◌⊎◌, inl, inr, true, false, List, [], ◌∷◌, ◌++◌, arith, length,
  length-concat, is_empty, ok, max, All, All-concat,
}
use stellar_batch_pay.Types.{PaymentInstruction}
use stellar_batch_pay.Batcher.{Batch, SizeOracle, Options, Packing, create_batches}
use stellar_batch_pay.Batcher.Steps.{PackStep, first, grows, closes, Fits}
use stellar_batch_pay.Batcher.Loop.{Finish, none_left, last_batch, create_batches-keeps}

length-pos : (xs : List PaymentInstruction) → is_empty xs ≡ false → 0 < length xs
length-pos [] h = cc
length-pos (x ∷ xs) h = omega arith

module _ (oracle : SizeOracle) (max_ops : ℕ) (options : Options) where
  -- A transaction that may be sent. With a limit of 0 operations the code still sends single ones.
  pub record IsSendable (ps : List PaymentInstruction) : Type 0 where
    pub some_payment : 0 < length ps
    pub few_operations : length ps ≤ max 1 max_ops
    pub few_bytes : Fits oracle max_ops options ps

  abbrev Limited : List PaymentInstruction → Packing → Type 0
  Limited done s =
      All (λ b. IsSendable b.payments) s.batches
      × ((is_empty s.current ≡ true) ⊎ IsSendable s.current)

  IsSendable-single :
      (p : PaymentInstruction) → Fits oracle max_ops options (p ∷ []) → IsSendable (p ∷ [])
  IsSendable-single p f = record {
    some_payment = omega arith;
    few_operations = omega arith;
    few_bytes = f;
  }

  settled :
      (ps : List PaymentInstruction)
      → is_empty ps ≡ false
      → (is_empty ps ≡ true) ⊎ IsSendable ps
      → IsSendable ps
  settled ps e (inl m) = cc
  settled ps e (inr s) = s

  step-Limited :
      (done : List PaymentInstruction) (i : ℕ) (p : PaymentInstruction) (s t : Packing)
      → PackStep oracle max_ops options i p s t
      → Limited done s
      → Limited (done ++ p ∷ []) t
  step-Limited done i p s t (first m f) (h, c) = (h, inr (IsSendable-single p f))
  step-Limited done i p s t (grows m l f) (h, c) = (
    h,
    inr (record {
      some_payment = omega (arith, length-concat s.current p);
      few_operations = omega arith;
      few_bytes = f;
    }),
  )
  step-Limited done i p s t (closes m x f v) (h, c) =
      (All-concat _ s.batches _ h (settled s.current m c), inr (IsSendable-single p f))

  -- Every batch of a result has a payment, at most `max_ops` of them (or one, where that is 0),
  -- and a measured size within `max_transaction_bytes`.
  pub create_batches-IsSendable :
      (ps : List PaymentInstruction) (bs : List Batch)
      → create_batches oracle max_ops options ps ≡ ok bs
      → All (λ b. IsSendable b.payments) bs
  create_batches-IsSendable ps bs h =
      let (t, (k, c), f) =
        create_batches-keeps oracle max_ops options Limited step-Limited (tt, inl refl) ps bs h in
      go t bs k c f
    where
      go :
          (t : Packing) (bs : List Batch)
          → All (λ b. IsSendable b.payments) t.batches
          → (is_empty t.current ≡ true) ⊎ IsSendable t.current
          → Finish oracle max_ops options t bs
          → All (λ b. IsSendable b.payments) bs
      go t bs k c (none_left m) = k
      go t bs k c (last_batch m v) = All-concat _ t.batches _ k (settled t.current m c)
