-- ===== src/Batcher/Loop.antt =====
-- Induction over the loop of `createBatches`, and the flush after it.
use mathlib.Core.List.{append-nil, append_assoc}
use stellar_batch_pay.Base.{
  ℕ, ◌+◌, ◌≡◌, inl, inr, true, false, List, [], ◌∷◌, ◌++◌, arith, is_empty, ok, chain_returned,
  Bool-cases, ok-injective, subst,
}
use stellar_batch_pay.Types.{PaymentInstruction}
use stellar_batch_pay.Batcher.{
  Batch, SizeOracle, Options, Packing, start, validate_consistent_batch_memo, push_batch, finish,
  pack_instruction, pack_from, create_batches,
}
use stellar_batch_pay.Batcher.Steps.{PackStep, pack_instruction-PackStep}

module _ (oracle : SizeOracle) (max_ops : ℕ) (options : Options) where
  -- An invariant of the rounds is one of the loop.
  pub pack_from-keeps {κ} :
      (P : List PaymentInstruction → Packing → Type κ)
      → ((done : List PaymentInstruction) (i : ℕ) (p : PaymentInstruction) (s t : Packing)
          → PackStep oracle max_ops options i p s t
          → P done s
          → P (done ++ p ∷ []) t)
      → (i : ℕ) (ps done : List PaymentInstruction) (s t : Packing)
      → pack_from oracle max_ops options i ps s ≡ ok t
      → P done s
      → P (done ++ ps) t
  unfolding pack_from
  pack_from-keeps P keep i [] done s t h v = rw append-nil (subst (P done) (ok-injective h) v)
  pack_from-keeps P keep i (p ∷ ps) done s t h v =
      let (s', e, h') = chain_returned (pack_instruction oracle max_ops options i p s) _ h in
      subst (λ l. P l t) (append_assoc done (p ∷ []) ps)
        (pack_from-keeps P keep (i + 1) ps (done ++ p ∷ []) s' t h'
          (keep done i p s s' (pack_instruction-PackStep oracle max_ops options i p s s' e) v))

  -- What is left after the loop: nothing, or one more batch.
  pub data Finish (t : Packing) : List Batch → Type 0 where
    none_left : is_empty t.current ≡ true → Finish t t.batches
    last_batch :
        is_empty t.current ≡ false
        → validate_consistent_batch_memo t.current t.start_index t.transaction_index ≡ ok tt
        → Finish t (
            t.batches
            ++ record { transaction_index = t.transaction_index; payments = t.current } ∷ [])

  finish-Finish :
      (t : Packing) (bs : List Batch) → finish oracle max_ops options t ≡ ok bs → Finish t bs
  unfolding finish push_batch
  finish-Finish t bs h = elim (Bool-cases (is_empty t.current)) [
    | inl m ↦ subst (Finish t) (ground arith) (none_left m)
    | inr m ↦ subst (Finish t) (ground arith) (last_batch m (ground arith))
  ]

  -- A result of `create_batches` comes from a loop that ended, and its invariants.
  pub create_batches-keeps {κ} :
      (P : List PaymentInstruction → Packing → Type κ)
      → ((done : List PaymentInstruction) (i : ℕ) (p : PaymentInstruction) (s t : Packing)
          → PackStep oracle max_ops options i p s t
          → P done s
          → P (done ++ p ∷ []) t)
      → P [] start
      → (ps : List PaymentInstruction) (bs : List Batch)
      → create_batches oracle max_ops options ps ≡ ok bs
      → (t : Packing) × P ps t × Finish t bs
  unfolding create_batches
  create_batches-keeps P keep v ps bs h =
      let (t, e, h') = chain_returned (pack_from oracle max_ops options 0 ps start) _ h in
      (t, pack_from-keeps P keep 0 ps [] start t e v, finish-Finish t bs h')
