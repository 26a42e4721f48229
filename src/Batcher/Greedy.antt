-- ===== src/Batcher/Greedy.antt =====
-- `createBatches` closes a batch only where the next payment would pass a limit.
use stellar_batch_pay.Base.{ℕ, ◌≡◌, refl, true, List, [], ◌∷◌, ◌++◌, is_empty, ok, map}
use mathlib.Core.List.{append_assoc, map-append}
use stellar_batch_pay.Types.{PaymentInstruction}
use stellar_batch_pay.Batcher.{Batch, SizeOracle, Options, Packing, create_batches}
use stellar_batch_pay.Batcher.Steps.{PackStep, first, grows, closes, Exceeds}
use stellar_batch_pay.Batcher.Loop.{Finish, none_left, last_batch, create_batches-keeps}

abbrev pub payments_of : List Batch → List (List PaymentInstruction)
payments_of = map λ b. b.payments

is_empty-concat :
    (ps : List PaymentInstruction) (p : PaymentInstruction) → ¬ (is_empty (ps ++ p ∷ []) ≡ true)
is_empty-concat [] p e = cc
is_empty-concat (q ∷ ps) p e = cc

module _ (oracle : SizeOracle) (max_ops : ℕ) (options : Options) where
  -- `qs` begins with a payment that does not fit into the batch `ps`.
  abbrev pub Blocks : List PaymentInstruction → List PaymentInstruction → Type 0
  Blocks ps [] = ⊥
  Blocks ps (q ∷ qs) = Exceeds oracle max_ops options (ps ++ q ∷ [])

  abbrev pub Full : List (List PaymentInstruction) → Type 0
  Full [] = Unit
  Full (ps ∷ []) = Unit
  Full (ps ∷ qs ∷ more) = Blocks ps qs × Full (qs ∷ more)

  Full-concat :
      (gs : List (List PaymentInstruction)) (ps qs : List PaymentInstruction)
      → Full (gs ++ ps ∷ [])
      → Blocks ps qs
      → Full (gs ++ ps ∷ qs ∷ [])
  Full-concat [] ps qs h b = (b, tt)
  Full-concat (g ∷ []) ps qs (a, h) b = (a, (b, tt))
  Full-concat (g ∷ g' ∷ gs) ps qs (a, h) b = (a, Full-concat (g' ∷ gs) ps qs h b)

  Blocks-grow :
      (g ps : List PaymentInstruction) (p : PaymentInstruction)
      → Blocks g ps
      → Blocks g (ps ++ p ∷ [])
  Blocks-grow g [] p b = absurd b
  Blocks-grow g (q ∷ ps) p b = b

  Full-grow :
      (gs : List (List PaymentInstruction)) (ps : List PaymentInstruction) (p : PaymentInstruction)
      → Full (gs ++ ps ∷ [])
      → Full (gs ++ (ps ++ p ∷ []) ∷ [])
  Full-grow [] ps p h = tt
  Full-grow (g ∷ []) ps p (b, h) = (Blocks-grow g ps p b, tt)
  Full-grow (g ∷ g' ∷ gs) ps p (b, h) = (b, Full-grow (g' ∷ gs) ps p h)

  -- The open batch stands last; it is empty only before the first payment.
  abbrev Greedy : List PaymentInstruction → Packing → Type 0
  Greedy done s =
      Full (payments_of s.batches ++ s.current ∷ []) × (is_empty s.current ≡ true → s.batches ≡ [])

  step-Greedy :
      (done : List PaymentInstruction) (i : ℕ) (p : PaymentInstruction) (s t : Packing)
      → PackStep oracle max_ops options i p s t
      → Greedy done s
      → Greedy (done ++ p ∷ []) t
  step-Greedy done i p s t (first m f) (h, e) = (rw (e m) tt, λ k. cc)
  step-Greedy done i p s t (grows m l f) (h, e) =
      (Full-grow (payments_of s.batches) s.current p h, λ k. absurd (is_empty-concat s.current p k))
  step-Greedy done i p s t (closes m x f v) (h, e) = (
    rw (map-append, append_assoc) (Full-concat (payments_of s.batches) s.current (p ∷ []) h x),
    λ k. cc,
  )

  -- In a result, each batch but the last is full: with the first payment of the next batch it
  -- would have more than `max_ops` payments, or a measured size over `max_transaction_bytes`.
  pub create_batches-Full :
      (ps : List PaymentInstruction) (bs : List Batch)
      → create_batches oracle max_ops options ps ≡ ok bs
      → Full (payments_of bs)
  create_batches-Full ps bs h =
      let (t, (k, e), f) =
        create_batches-keeps oracle max_ops options Greedy step-Greedy (tt, λ _. refl) ps bs h in
      go t bs k e f
    where
      go :
          (t : Packing) (bs : List Batch)
          → Full (payments_of t.batches ++ t.current ∷ [])
          → (is_empty t.current ≡ true → t.batches ≡ [])
          → Finish oracle max_ops options t bs
          → Full (payments_of bs)
      go t bs k e (none_left m) = rw (e m) tt
      go t bs k e (last_batch m v) = rw map-append k
