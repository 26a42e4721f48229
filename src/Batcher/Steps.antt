-- ===== src/Batcher/Steps.antt =====
-- One round of the loop of `createBatches` as a step relation.
use stellar_batch_pay.Base.{
  ℕ, ◌+◌, ◌≤◌, ◌<◌, ◌≡◌, refl, ◌⊎◌, inl, inr, Bool, true, false, List, [], ◌∷◌, ◌++◌, arith, length,
  is_empty, ok, chain_returned, guard_passed, Bool-cases, leb→le, ltb→lt, ok-injective, subst, ltb,
  leb, not, ◌&&◌, ◌||◌, guard, if◌then◌else◌,
}
use stellar_batch_pay.Types.{PaymentInstruction}
use stellar_batch_pay.Batcher.{
  SizeOracle, Options, Packing, validate_consistent_batch_memo, get_batch_size, push_batch,
  close_batch, add_instruction, pack_instruction, oversized,
}

-- The open batch pushed, and reset.
abbrev pub closed : Packing → Packing
closed s = record s {
  batches =
      s.batches ++ record { transaction_index = s.transaction_index; payments = s.current } ∷ [];
  current = [];
  transaction_index = s.transaction_index + 1;
}

module _ (oracle : SizeOracle) (max_ops : ℕ) (options : Options) where
  abbrev pub Fits : List PaymentInstruction → Type 0
  Fits ps =
      (size : ℕ) × (get_batch_size oracle max_ops options ps ≡ ok size)
      × (size ≤ options.max_transaction_bytes)

  -- The payments of one more instruction would pass a limit.
  abbrev pub Exceeds : List PaymentInstruction → Type 0
  Exceeds ps =
      (max_ops < length ps)
      ⊎ ((size : ℕ) × (get_batch_size oracle max_ops options ps ≡ ok size)
          × (options.max_transaction_bytes < size))

  pub data PackStep (i : ℕ) (p : PaymentInstruction) (s : Packing) : Packing → Type 0 where
    first :
        is_empty s.current ≡ true
        → Fits (p ∷ [])
        → PackStep i p s (record s { current = p ∷ []; start_index = i })
    grows :
        is_empty s.current ≡ false
        → length (s.current ++ p ∷ []) ≤ max_ops
        → Fits (s.current ++ p ∷ [])
        → PackStep i p s (record s { current = s.current ++ p ∷ [] })
    closes :
        is_empty s.current ≡ false
        → Exceeds (s.current ++ p ∷ [])
        → Fits (p ∷ [])
        → validate_consistent_batch_memo s.current s.start_index s.transaction_index ≡ ok tt
        → PackStep i p s (record {
          batches =
              s.batches
              ++ record { transaction_index = s.transaction_index; payments = s.current } ∷ [];
          current = p ∷ [];
          start_index = i;
          transaction_index = s.transaction_index + 1;
        })

  -- What the guarded call of the source's flush block leaves.
  data Flush (b : Bool) (s : Packing) : Packing → Type 0 where
    skipped : (is_empty s.current ≡ true) ⊎ (b ≡ false) → Flush b s s
    flushed :
        is_empty s.current ≡ false
        → b ≡ true
        → validate_consistent_batch_memo s.current s.start_index s.transaction_index ≡ ok tt
        → Flush b s (closed s)

  close_batch-Flush :
      (b : Bool) (s s' : Packing)
      → (if b && not (is_empty s.current) then close_batch oracle max_ops options s else ok s)
        ≡ ok s'
      → Flush b s s'
  unfolding close_batch push_batch
  close_batch-Flush b s s' h = elim (Bool-cases b) [
    | inl e ↦ elim (Bool-cases (is_empty s.current)) [
      | inl m ↦ subst (Flush b s) (ground arith) (skipped (inl m))
      | inr m ↦ subst (Flush b s) (ground arith) (flushed m e (ground arith))
    ]
    | inr e ↦ subst (Flush b s) (ground arith) (skipped (inr e))
  ]

  add-first :
      (i : ℕ) (p : PaymentInstruction) (s : Packing) (xs : List PaymentInstruction)
      → s.current ≡ xs
      → is_empty xs ≡ true
      → add_instruction oracle max_ops options i p s
        ≡ record s { current = p ∷ []; start_index = i }
  unfolding add_instruction
  add-first i p s [] e h = rw e
  add-first i p s (x ∷ xs) e h = cc

  add-more :
      (i : ℕ) (p : PaymentInstruction) (s : Packing)
      → is_empty s.current ≡ false
      → add_instruction oracle max_ops options i p s ≡ record s { current = s.current ++ p ∷ [] }
  unfolding add_instruction
  add-more i p s h = rw h

  add_to : (i : ℕ) (p : PaymentInstruction) (s : Packing) → Packing
  add_to = add_instruction oracle max_ops options

  exceeds :
      (ps : List PaymentInstruction) (size : ℕ)
      → get_batch_size oracle max_ops options ps ≡ ok size
      → (ltb max_ops (length ps) || ltb options.max_transaction_bytes size) ≡ true
      → Exceeds ps
  exceeds ps size es b = elim (Bool-cases (ltb max_ops (length ps))) [
    | inl many ↦ inl (ltb→lt _ _ many)
    | inr few ↦ inr (size, es, ground arith)
  ]

  -- The three ways on, from what the round computed.
  settle :
      (i : ℕ) (p : PaymentInstruction) (s s' : Packing) (size single : ℕ)
      → get_batch_size oracle max_ops options (s.current ++ p ∷ []) ≡ ok size
      → Flush
          (ltb max_ops (length (s.current ++ p ∷ [])) || ltb options.max_transaction_bytes size)
          s
          s'
      → get_batch_size oracle max_ops options (p ∷ []) ≡ ok single
      → single ≤ options.max_transaction_bytes
      → PackStep i p s (add_instruction oracle max_ops options i p s')
  settle i p s s' size single es (skipped (inl m)) e₁ h =
      rw (add-first i p s s.current refl m) (first m (single, e₁, h))
  settle i p s s' size single es (skipped (inr b)) e₁ h = elim (Bool-cases (is_empty s.current)) [
    | inl m ↦ rw (add-first i p s s.current refl m) (first m (single, e₁, h))
    | inr m ↦ rw (add-more i p s m) (grows m (ground arith) (size, es, ground arith))
  ]
  settle i p s s' size single es (flushed m b v) e₁ h =
      rw (add-first i p (closed s) [] refl refl)
        (closes m (exceeds (s.current ++ p ∷ []) size es b) (single, e₁, h) v)

  pub pack_instruction-PackStep :
      (i : ℕ) (p : PaymentInstruction) (s t : Packing)
      → pack_instruction oracle max_ops options i p s ≡ ok t
      → PackStep i p s t
  unfolding pack_instruction
  pack_instruction-PackStep i p s t h =
      let (size, es, h₁) =
        chain_returned (get_batch_size oracle max_ops options (s.current ++ p ∷ [])) _ h in
      let b =
        ltb max_ops (length (s.current ++ p ∷ [])) || ltb options.max_transaction_bytes size in
      let (s', ec, h₂) =
        chain_returned
          (if b && not (is_empty s.current) then close_batch oracle max_ops options s else ok s) _
          h₁ in
      let (single, e₁, h₃) = chain_returned (get_batch_size oracle max_ops options (p ∷ [])) _ h₂ in
      let (u, g, h₄) =
        chain_returned (guard (leb single options.max_transaction_bytes) (oversized p.address)) _
          h₃ in
      subst (PackStep i p s) (ok-injective h₄) (
        settle i p s s' size single es (close_batch-Flush b s s' ec) e₁
          (leb→le single options.max_transaction_bytes (guard_passed _ (oversized p.address) g)))
