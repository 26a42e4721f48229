-- ===== src/Batcher/Memos.antt =====
-- The memo check: the payments of one transaction share one memo.
use Prim.Native.Char.{code}
use Prim.Native.String
use stellar_batch_pay.Base.{
  append_cancel_left, cons-append, ℕ, ◌+◌, ◌≡◌, refl, sym, ap, subst, ◌∙◌, ◌↔◌, inl, inr, true,
  none, some, String, List, [], ◌∷◌, ◌++◌, arith, is_empty, ok, All, All-concat, All-map,
  Option-cases, str_eq_iff,
}
use stellar_batch_pay.Types.{PaymentInstruction, MemoType, text, id}
use stellar_batch_pay.Batcher.{
  Batch, SizeOracle, Options, Packing, start, present_memo, effective_memo_type, memo_type_name,
  memo_signature, MemoEntry, memo_payments, conflicting_memos, check_entries,
  validate_consistent_batch_memo, create_batches,
}
use stellar_batch_pay.Batcher.Steps.{PackStep, first, grows, closes}
use stellar_batch_pay.Batcher.Loop.{Finish, none_left, last_batch, create_batches-keeps}

abbrev tagged : MemoType → String → String
tagged k m = String.◌++◌ (memo_type_name k) (String.◌++◌ ":" m)

abbrev first_code : String → ℕ
first_code String.[] = 0
first_code (String.◌∷◌ c s) = code c

abbrev tag_code : MemoType → ℕ
tag_code text = b't'
tag_code id = b'i'
tag_code _ = b'n'

tagged-tag_code : (k : MemoType) (m : String) → first_code (tagged k m) ≡ tag_code k
tagged-tag_code text m = rw cons-append refl
tagged-tag_code id m = rw cons-append refl
tagged-tag_code _ m = rw cons-append refl

tag_code-injective : (k l : MemoType) → tag_code k ≡ tag_code l → k ≡ l
tag_code-injective k l e = ground arith

-- The signature tells the type and the memo apart.
tagged-injective : (k l : MemoType) (m n : String) → tagged k m ≡ tagged l n → (k ≡ l) × (m ≡ n)
tagged-injective k l m n e =
    let same : k ≡ l =
      tag_code-injective k l (sym (tagged-tag_code k m) ∙ ap first_code e ∙ tagged-tag_code l n) in
    (
      same,
      append_cancel_left ":" m n
          (append_cancel_left (memo_type_name l) _ _ (subst (λ j. tagged j m ≡ tagged l n) same e)),
    )

-- The payment has no memo, or that one of that type.
abbrev pub Remembers : MemoType → String → PaymentInstruction → Type 0
Remembers k m p =
    (s : String) → present_memo p.memo ≡ some s → (effective_memo_type p.memo_type ≡ k) × (s ≡ m)

-- One memo, of one type, serves for every payment that has a memo.
abbrev pub ShareMemo : List PaymentInstruction → Type 0
ShareMemo ps = (k : MemoType) × (m : String) × All (Remembers k m) ps

conflicting-nil :
    (m : String) (es : List MemoEntry)
    → (is_empty (conflicting_memos m es) ≡ true) ↔ All (λ e. e.signature ≡ m) es
unfolding conflicting_memos
conflicting-nil m [] = (λ _. tt, λ _. refl)
conflicting-nil m (e ∷ es) = ground (arith, str_eq_iff e.signature m, conflicting-nil m es)

-- Every payment with a signature has that one.
abbrev Signed : String → List PaymentInstruction → Type 0
Signed m = All λ p. (s : String) → memo_signature p ≡ some s → s ≡ m

entries-Signed :
    (m : String) (i : ℕ) (ps : List PaymentInstruction)
    → All (λ e. e.signature ≡ m) (memo_payments i ps) ↔ Signed m ps
unfolding memo_payments
entries-Signed m i [] = (λ _. tt, λ _. tt)
entries-Signed m i (p ∷ ps) = elim (Option-cases (memo_signature p)) [
  | inl e ↦
      let (to, from) = entries-Signed m (i + 1) ps in
      rw (e, memo_payments) (λ a. (λ s q. cc, to a), λ a. from a.1)
  | inr (s, e) ↦
      let (to, from) = entries-Signed m (i + 1) ps in
      rw (e, memo_payments) (λ a. (λ t q. cc a.0, to a.1), λ a. (a.0 s refl, from a.1))
]

-- The memo of a payment with a signature, and back.
signature-memo :
    (k : MemoType) (m : String) (p : PaymentInstruction)
    → ((s : String) → memo_signature p ≡ some s → s ≡ tagged k m) ↔ (
        (s : String)
        → present_memo p.memo ≡ some s
        → (effective_memo_type p.memo_type ≡ k) × (s ≡ m))
unfolding memo_signature
signature-memo k m p = elim (Option-cases (present_memo p.memo)) [
  | inl e ↦ rw (e, memo_signature) (λ _ s q. cc, λ _ s q. cc)
  | inr (n, e) ↦
      rw (e, memo_signature)
        (
          λ h s q.
              let (a, b) =
                tagged-injective (effective_memo_type p.memo_type) k n m
                  (h (tagged (effective_memo_type p.memo_type) n) refl) in
              (a, cc b),
          λ h s q. let (a, b) = h n refl in cc (a, b),
        )
]

memo-signature :
    (p : PaymentInstruction) (n : String)
    → present_memo p.memo ≡ some n
    → memo_signature p ≡ some (tagged (effective_memo_type p.memo_type) n)
unfolding memo_signature
memo-signature p n e = rw (e, memo_signature)

unsigned-memo : (p : PaymentInstruction) → memo_signature p ≡ none → present_memo p.memo ≡ none
unfolding memo_signature
unsigned-memo p e = ground arith

-- A signature in common is a memo in common.
Signed-ShareMemo : (s : String) (ps : List PaymentInstruction) → Signed s ps → ShareMemo ps
Signed-ShareMemo s [] h = (text, "", tt)
Signed-ShareMemo s (p ∷ ps) (h, hs) = elim (Option-cases (present_memo p.memo)) [
  | inl e ↦ let (k, m, a) = Signed-ShareMemo s ps hs in (k, m, ((λ t q. cc (e, q)), a))
  | inr (n, e) ↦
      let k = effective_memo_type p.memo_type in
      let same : tagged k n ≡ s = h (tagged k n) (memo-signature p n e) in
      (k, n, All-map (λ q a. (signature-memo k n q).0 (rw same a)) (p ∷ ps) (h, hs))
]

check_entries_iff :
    (t : ℕ) (es : List MemoEntry)
    → (check_entries t es ≡ ok tt) ↔ ((m : String) × All (λ e. e.signature ≡ m) es)
unfolding check_entries
check_entries_iff t [] = (λ _. ("", tt), λ _. refl)
check_entries_iff t (e ∷ []) = (λ _. (e.signature, (refl, tt)), λ _. refl)
check_entries_iff t (e ∷ f ∷ es) =
    let (to, from) = conflicting-nil e.signature (e ∷ f ∷ es) in
    (
      λ h. (e.signature, to (ground arith)),
      λ (m, a).
          let same : is_empty (conflicting_memos e.signature (e ∷ f ∷ es)) ≡ true =
            from (subst (λ n. All (λ g. g.signature ≡ n) (e ∷ f ∷ es)) (sym a.0) a) in
          ground arith,
    )

-- The check passes exactly when one memo, of one type, serves for all payments that have a memo.
pub validate_consistent_batch_memo_iff :
    (ps : List PaymentInstruction) (start t : ℕ)
    → (validate_consistent_batch_memo ps start t ≡ ok tt) ↔ ShareMemo ps
unfolding validate_consistent_batch_memo
validate_consistent_batch_memo_iff ps start t =
    let (to, from) = check_entries_iff t (memo_payments start ps) in
    (
      λ h. let (m, a) = to h in Signed-ShareMemo m ps ((entries-Signed m start ps).0 a),
      λ (k, m, a). from (
        tagged k m,
        (entries-Signed (tagged k m) start ps).1 (All-map (λ q. (signature-memo k m q).1) ps a),
      ),
    )

module _ (oracle : SizeOracle) (max_ops : ℕ) (options : Options) where
  abbrev Shared : List PaymentInstruction → Packing → Type 0
  Shared done s = All (λ b. ShareMemo b.payments) s.batches

  step-Shared :
      (done : List PaymentInstruction) (i : ℕ) (p : PaymentInstruction) (s t : Packing)
      → PackStep oracle max_ops options i p s t
      → Shared done s
      → Shared (done ++ p ∷ []) t
  step-Shared done i p s t (first m f) h = h
  step-Shared done i p s t (grows m l f) h = h
  step-Shared done i p s t (closes m x f v) h =
      All-concat _ s.batches _ h
        ((validate_consistent_batch_memo_iff s.current s.start_index s.transaction_index).0 v)

  -- In each batch of a result, one memo, of one type, serves for all payments that have a memo.
  pub create_batches-ShareMemo :
      (ps : List PaymentInstruction) (bs : List Batch)
      → create_batches oracle max_ops options ps ≡ ok bs
      → All (λ b. ShareMemo b.payments) bs
  create_batches-ShareMemo ps bs h =
      let (t, k, f) = create_batches-keeps oracle max_ops options Shared step-Shared tt ps bs h in
      go t bs k f
    where
      go :
          (t : Packing) (bs : List Batch)
          → All (λ b. ShareMemo b.payments) t.batches
          → Finish oracle max_ops options t bs
          → All (λ b. ShareMemo b.payments) bs
      go t bs k (none_left m) = k
      go t bs k (last_batch m v) =
          All-concat _ t.batches _ k
            ((validate_consistent_batch_memo_iff t.current t.start_index t.transaction_index).0 v)
