-- ===== src/Batcher/Partition.antt =====
-- `createBatches` loses no payment, repeats none and keeps their order, and numbers its batches.
use mathlib.Core.List.{append-nil, append_assoc}
use stellar_batch_pay.Base.{
  ℕ, suc, ◌+◌, ◌≡◌, refl, sym, ◌∙◌, List, [], ◌∷◌, ◌++◌, arith, length, length-concat,
  nil_of_is_empty, ok,
}
use stellar_batch_pay.Types.{PaymentInstruction}
use stellar_batch_pay.Batcher.{Batch, SizeOracle, Options, Packing, create_batches}
use stellar_batch_pay.Batcher.Loop.{Finish, none_left, last_batch, create_batches-keeps}
use stellar_batch_pay.Batcher.Steps.{PackStep, first, grows, closes}

abbrev pub all_payments : List Batch → List PaymentInstruction
all_payments [] = []
all_payments (b ∷ bs) = b.payments ++ all_payments bs

-- The batches are numbered from `k`.
abbrev pub Numbered : ℕ → List Batch → Type 0
Numbered k [] = Unit
Numbered k (b ∷ bs) = (b.transaction_index ≡ k) × Numbered (suc k) bs

all_payments-concat :
    (bs : List Batch) (b : Batch) → all_payments (bs ++ b ∷ []) ≡ all_payments bs ++ b.payments
all_payments-concat [] b = append-nil _
all_payments-concat (c ∷ bs) b = simp (all_payments-concat bs b, append_assoc)

Numbered-concat :
    (k : ℕ) (bs : List Batch) (b : Batch)
    → Numbered k bs
    → b.transaction_index ≡ k + length bs
    → Numbered k (bs ++ b ∷ [])
Numbered-concat k [] b _ e = (omega arith, tt)
Numbered-concat k (c ∷ bs) b (h, hs) e = (h, Numbered-concat (suc k) bs b hs (omega arith))

module _ (oracle : SizeOracle) (max_ops : ℕ) (options : Options) where
  abbrev Parted : List PaymentInstruction → Packing → Type 0
  Parted done s =
      (all_payments s.batches ++ s.current ≡ done)
      × (s.transaction_index ≡ length s.batches)
      × Numbered 0 s.batches

  step-Parted :
      (done : List PaymentInstruction) (i : ℕ) (p : PaymentInstruction) (s t : Packing)
      → PackStep oracle max_ops options i p s t
      → Parted done s
      → Parted (done ++ p ∷ []) t
  step-Parted done i p s t (first m f) (e, n, h) = (rw (← e, nil_of_is_empty _ m, append-nil), n, h)
  step-Parted done i p s t (grows m l f) (e, n, h) =
      (rw (← e) (sym (append_assoc (all_payments s.batches) s.current (p ∷ []))), n, h)
  step-Parted done i p s t (closes m x f v) (e, n, h) = (
    rw (all_payments-concat, e),
    omega (
      arith,
      length-concat s.batches
          (record { transaction_index = s.transaction_index; payments = s.current }),
    ),
    Numbered-concat 0 s.batches _ h (omega arith),
  )

  create_batches_parted :
      (ps : List PaymentInstruction) (bs : List Batch)
      → create_batches oracle max_ops options ps ≡ ok bs
      → (all_payments bs ≡ ps) × Numbered 0 bs
  create_batches_parted ps bs h =
      let (t, (e, n, k), f) =
        create_batches-keeps oracle max_ops options Parted step-Parted (refl, refl, tt) ps bs h in
      go t bs e n k f
    where
      go :
          (t : Packing) (bs : List Batch)
          → all_payments t.batches ++ t.current ≡ ps
          → t.transaction_index ≡ length t.batches
          → Numbered 0 t.batches
          → Finish oracle max_ops options t bs
          → (all_payments bs ≡ ps) × Numbered 0 bs
      go t bs e n k (none_left m) = (rw (← e, nil_of_is_empty _ m, append-nil), k)
      go t bs e n k (last_batch m v) =
          (all_payments-concat t.batches _ ∙ e, Numbered-concat 0 t.batches _ k (omega arith))

  -- The batches of a result hold the given payments, each once and in the given order.
  pub create_batches-all_payments :
      (ps : List PaymentInstruction) (bs : List Batch)
      → create_batches oracle max_ops options ps ≡ ok bs
      → all_payments bs ≡ ps
  create_batches-all_payments ps bs h = (create_batches_parted ps bs h).0

  -- The batches of a result are numbered 0, 1, 2 and so on by their transaction index.
  pub create_batches-Numbered :
      (ps : List PaymentInstruction) (bs : List Batch)
      → create_batches oracle max_ops options ps ≡ ok bs
      → Numbered 0 bs
  create_batches-Numbered ps bs h = (create_batches_parted ps bs h).1
