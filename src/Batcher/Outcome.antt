-- ===== src/Batcher/Outcome.antt =====
-- When `createBatches` returns, and when it throws that a payment is oversized.
use mathlib.Core.List.{Memᴰ}
use stellar_batch_pay.Base.{
  ℕ, ◌+◌, ◌<◌, ◌≡◌, refl, inl, inr, ◌≢◌, Bool, not, ◌&&◌, ◌||◌, List, [], ◌∷◌, ◌++◌, arith, length,
  is_empty, ok, err, All, All-concat, Bool-cases, chain_threw, ltb, leb, le→leb, guard,
  if◌then◌else◌, ◌>>=◌, ◌>>◌, String,
}
use stellar_batch_pay.Types.{PaymentInstruction, MemoType}
use stellar_batch_pay.Batcher.{
  Batch, oversized, SizeOracle, Options, Packing, start, get_batch_size,
  estimate_batch_transaction_size, simulate_batch_transaction_size, validate_consistent_batch_memo,
  check_entries, push_batch, close_batch, add_instruction, pack_instruction, pack_from, finish,
  create_batches,
}
use stellar_batch_pay.Batcher.Steps.{Fits, closed}
use stellar_batch_pay.Batcher.Memos.{Remembers, validate_consistent_batch_memo_iff}

module _ (oracle : SizeOracle) (max_ops : ℕ) (options : Options) where
  module _
      (sizes : (qs : List PaymentInstruction)
        → (n : ℕ) × (get_batch_size oracle max_ops options qs ≡ ok n))
      (k : MemoType) (m : String) where
    flush_ok :
        (b : Bool) (s : Packing)
        → All (Remembers k m) s.current
        → (s' : Packing) × ((if b && not (is_empty s.current)
              then close_batch oracle max_ops options s
              else ok s)
            ≡ ok s')
          × All (Remembers k m) s'.current
    unfolding close_batch push_batch
    flush_ok b s h = elim (Bool-cases (b && not (is_empty s.current))) [
      | inl e ↦
          let v =
            (validate_consistent_batch_memo_iff s.current s.start_index s.transaction_index).1
              (k, m, h) in
          (closed s, rw (e, v) refl, tt)
      | inr e ↦ (s, rw e, h)
    ]

    pack_instruction_ok :
        (i : ℕ) (p : PaymentInstruction) (s : Packing)
        → Remembers k m p
        → Fits oracle max_ops options (p ∷ [])
        → All (Remembers k m) s.current
        → (t : Packing) × (pack_instruction oracle max_ops options i p s ≡ ok t)
          × All (Remembers k m) t.current
    unfolding pack_instruction add_instruction
    pack_instruction_ok i p s r (single, e, f) h =
        let (size, es) = sizes (s.current ++ p ∷ []) in
        let (s', c, h') =
          flush_ok
            (ltb max_ops (length (s.current ++ p ∷ [])) || ltb options.max_transaction_bytes size) s
            h in
        (
          add_instruction oracle max_ops options i p s',
          rw (es, c, e, le→leb single options.max_transaction_bytes f) refl,
          All-concat _ s'.current p h' r,
        )

    pack_from_ok :
        (i : ℕ) (ps : List PaymentInstruction) (s : Packing)
        → All (Remembers k m) ps
        → All (λ p. Fits oracle max_ops options (p ∷ [])) ps
        → All (Remembers k m) s.current
        → (t : Packing) × (pack_from oracle max_ops options i ps s ≡ ok t)
          × All (Remembers k m) t.current
    unfolding pack_from
    pack_from_ok i [] s r f h = (s, refl, h)
    pack_from_ok i (p ∷ ps) s (r, rs) (f, fs) h =
        let (s', e, h') = pack_instruction_ok i p s r f h in
        let (t, e', h'') = pack_from_ok (i + 1) ps s' rs fs h' in (t, rw e e', h'')

    finish_ok :
        (s : Packing)
        → All (Remembers k m) s.current
        → (bs : List Batch) × (finish oracle max_ops options s ≡ ok bs)
    unfolding finish push_batch
    finish_ok s h = elim (Bool-cases (is_empty s.current)) [
      | inl e ↦ (s.batches, rw e)
      | inr e ↦ (
        (closed s).batches,
        rw
            (
              e,
              (validate_consistent_batch_memo_iff s.current s.start_index s.transaction_index).1
                  (k, m, h),
            )
            refl,
      )
    ]

    -- `create_batches` returns where every transaction can be measured, each payment alone keeps
    -- within the size limit, and one memo, of one type, serves for all payments that have a memo.
    pub create_batches_ok :
        (ps : List PaymentInstruction)
        → All (Remembers k m) ps
        → All (λ p. Fits oracle max_ops options (p ∷ [])) ps
        → (bs : List Batch) × (create_batches oracle max_ops options ps ≡ ok bs)
    unfolding create_batches
    create_batches_ok ps rs fs =
        let (t, e, h) = pack_from_ok 0 ps start rs fs tt in
        let (bs, e') = finish_ok t h in (bs, rw e e')

  -- The payment alone is measured over the limit.
  abbrev pub IsOversized : PaymentInstruction → Type 0
  IsOversized p =
      (size : ℕ) × (get_batch_size oracle max_ops options (p ∷ []) ≡ ok size)
      × (options.max_transaction_bytes < size)

  get_batch_size-ne-oversized :
      (ps : List PaymentInstruction) (a : String)
      → get_batch_size oracle max_ops options ps ≢ err (oversized a)
  unfolding get_batch_size simulate_batch_transaction_size estimate_batch_transaction_size
  get_batch_size-ne-oversized ps a h = ground arith

  push_batch-ne-oversized :
      (s : Packing) (a : String) → push_batch oracle max_ops options s ≢ err (oversized a)
  unfolding push_batch validate_consistent_batch_memo check_entries
  push_batch-ne-oversized s a h = ground arith

  flush-ne-oversized :
      (b : Bool) (s : Packing) (a : String)
      → (if b then close_batch oracle max_ops options s else ok s) ≢ err (oversized a)
  unfolding close_batch
  flush-ne-oversized b s a h = ground (arith, push_batch-ne-oversized s a)

  single_oversized :
      (i : ℕ) (p : PaymentInstruction) (s : Packing) (a : String)
      → (get_batch_size oracle max_ops options (p ∷ []) >>= λ single.
          guard (leb single options.max_transaction_bytes) (oversized p.address)
          >> ok (add_instruction oracle max_ops options i p s))
        ≡ err (oversized a)
      → (p.address ≡ a) × IsOversized p
  single_oversized i p s a h =
      elim (chain_threw (get_batch_size oracle max_ops options (p ∷ [])) _ h) [
        | inl e ↦ absurd (get_batch_size-ne-oversized (p ∷ []) a e)
        | inr (n, e, h') ↦ (ground arith, (n, e, ground arith))
      ]

  pack_instruction_oversized :
      (i : ℕ) (p : PaymentInstruction) (s : Packing) (a : String)
      → pack_instruction oracle max_ops options i p s ≡ err (oversized a)
      → (p.address ≡ a) × IsOversized p
  unfolding pack_instruction
  pack_instruction_oversized i p s a h =
      elim (chain_threw (get_batch_size oracle max_ops options (s.current ++ p ∷ [])) _ h) [
        | inl e ↦ absurd (get_batch_size-ne-oversized (s.current ++ p ∷ []) a e)
        | inr (n, e, h') ↦
            let b =
              (ltb max_ops (length (s.current ++ p ∷ [])) || ltb options.max_transaction_bytes n)
              && not (is_empty s.current) in
            elim (chain_threw (if b then close_batch oracle max_ops options s else ok s) _ h') [
              | inl e' ↦ absurd (flush-ne-oversized b s a e')
              | inr (s', e', h'') ↦ single_oversized i p s' a h''
            ]
      ]

  pack_from_oversized :
      (i : ℕ) (ps : List PaymentInstruction) (s : Packing) (a : String)
      → pack_from oracle max_ops options i ps s ≡ err (oversized a)
      → (p : PaymentInstruction) × Memᴰ p ps × (p.address ≡ a) × IsOversized p
  unfolding pack_from
  pack_from_oversized i [] s a h = cc
  pack_from_oversized i (p ∷ ps) s a h =
      elim (chain_threw (pack_instruction oracle max_ops options i p s) _ h) [
        | inl e ↦ let (q, o) = pack_instruction_oversized i p s a e in (p, Memᴰ.head refl, q, o)
        | inr (s', e, h') ↦
            let (q, m, r, o) = pack_from_oversized (i + 1) ps s' a h' in (q, Memᴰ.tail m, r, o)
      ]

  finish-ne-oversized :
      (s : Packing) (a : String) → finish oracle max_ops options s ≢ err (oversized a)
  unfolding finish
  finish-ne-oversized s a h = ground (arith, push_batch-ne-oversized s a)

  -- The error for an oversized payment names the address of one of the payments, and that payment
  -- alone is measured over `max_transaction_bytes`.
  pub create_batches_oversized :
      (ps : List PaymentInstruction) (a : String)
      → create_batches oracle max_ops options ps ≡ err (oversized a)
      → (p : PaymentInstruction) × Memᴰ p ps × (p.address ≡ a) × IsOversized p
  unfolding create_batches
  create_batches_oversized ps a h =
      elim (chain_threw (pack_from oracle max_ops options 0 ps start) _ h) [
        | inl e ↦ pack_from_oversized 0 ps start a e
        | inr (t, e, h') ↦ absurd (finish-ne-oversized t a h')
      ]
