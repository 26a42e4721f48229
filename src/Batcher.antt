-- ===== src/Batcher.antt =====
-- lib/stellar/batcher.ts: payments packed greedily into transactions. The SDK's transaction builder
-- and the RPC's simulation, which give the bytes of a transaction, are the parameter `SizeOracle`;
-- an error holds the data that the source prints into the message.
pub mod Steps
pub mod Loop
pub mod Partition
pub mod Limits
pub mod Greedy
pub mod Memos
pub mod Outcome
pub mod Tests
use Prim.Native.String
use stellar_batch_pay.Base.{
  ℕ, ◌+◌, String, Bool, not, ◌&&◌, ◌||◌, Option, none, some, List, [], ◌∷◌, ◌++◌, ltb, leb,
  if◌then◌else◌, length, is_empty, str_eq, Result, ok, err, ◌>>=◌, ◌>>◌, guard, of_option,
}
use stellar_batch_pay.Types.{PaymentInstruction, BatchJobNetwork, MemoType, text, id}

pub record Batch : Type 0 where
  pub transaction_index : ℕ
  pub payments : List PaymentInstruction

-- What `!payment.memo` tests: an empty memo counts as absent.
unfoldable pub present_memo : Option String → Option String
present_memo none = none
present_memo (some s) = if str_eq s "" then none else some s

unfoldable pub effective_memo_type : Option MemoType → MemoType
effective_memo_type (some id) = id
effective_memo_type _ = text

abbrev pub memo_type_name : MemoType → String
memo_type_name text = "text"
memo_type_name id = "id"
memo_type_name _ = "none"

-- `${type}:${memo}`
pub memo_signature : PaymentInstruction → Option String
unfolding present_memo effective_memo_type
memo_signature p = elim (present_memo p.memo) [
  | none ↦ none
  | some memo ↦
      some (String.◌++◌ (memo_type_name (effective_memo_type p.memo_type)) (String.◌++◌ ":" memo))
]

-- `(payment.rowIndex ?? fallbackIndex) + 1`
pub payment_row_number : PaymentInstruction → ℕ → ℕ
payment_row_number p fallback = elim p.row_index [ none ↦ fallback + 1 | some i ↦ i + 1 ]

pub record MemoEntry : Type 0 where
  pub payment : PaymentInstruction
  pub row_number : ℕ
  pub signature : String

pub data BatchError : Type 0 where
  memo_conflict : ℕ → List MemoEntry → BatchError
  oversized : String → BatchError
  unbuildable : BatchError

-- The `map` and `filter` that keep the payments with a memo; the index is that of the head.
pub memo_payments : ℕ → List PaymentInstruction → List MemoEntry
memo_payments i [] = []
memo_payments i (p ∷ ps) =
    let rest = memo_payments (i + 1) ps in
    elim (memo_signature p) [
      | none ↦ rest
      | some s ↦ record { payment = p; row_number = payment_row_number p i; signature = s } ∷ rest
    ]

pub conflicting_memos : String → List MemoEntry → List MemoEntry
conflicting_memos first [] = []
conflicting_memos first (e ∷ es) =
    let rest = conflicting_memos first es in if str_eq e.signature first then rest else e ∷ rest

check_entries : ℕ → List MemoEntry → Result BatchError (Unit {0})
check_entries t [] = ok tt
check_entries t (first ∷ es) =
    if leb (length (first ∷ es)) 1
    then ok tt
    else if is_empty (conflicting_memos first.signature (first ∷ es))
    then ok tt
    else err (memo_conflict (t + 1) (first ∷ es))

pub validate_consistent_batch_memo : List PaymentInstruction → ℕ → ℕ → Result BatchError (Unit {0})
unfolding check_entries
validate_consistent_batch_memo ps start t = check_entries t (memo_payments start ps)

-- What the SDK and the RPC answer for the payments of one transaction, at a fee in stroops.
-- `none` is a throw, or a failed simulation.
pub record SizeOracle : Type 0 where
  pub envelope_bytes : BatchJobNetwork → ℕ → List PaymentInstruction → Option ℕ
  pub simulated_bytes : BatchJobNetwork → ℕ → List PaymentInstruction → Option ℕ

-- `CreateBatchesOptions`, with its defaults filled in, and the fee that `getRecommendedFee` gave.
pub record Options : Type 0 where
  pub max_transaction_bytes : ℕ
  pub network : BatchJobNetwork
  pub use_soroban_sim : Bool
  pub dynamic_fee : Option ℕ

abbrev pub fee_to_use : Option ℕ → ℕ
fee_to_use none = 100
fee_to_use (some fee) = fee

-- The loop's variables.
pub record Packing : Type 0 where
  pub batches : List Batch
  pub current : List PaymentInstruction
  pub start_index : ℕ
  pub transaction_index : ℕ

abbrev pub start : Packing
start = record { batches = []; current = []; start_index = 0; transaction_index = 0 }

module _ (oracle : SizeOracle) (max_ops : ℕ) (options : Options) where
  pub estimate_batch_transaction_size : List PaymentInstruction → Result BatchError ℕ
  estimate_batch_transaction_size ps =
      of_option (oracle.envelope_bytes options.network (fee_to_use options.dynamic_fee) ps)
        unbuildable

  pub simulate_batch_transaction_size : List PaymentInstruction → Result BatchError ℕ
  simulate_batch_transaction_size ps =
      elim (oracle.simulated_bytes options.network (fee_to_use options.dynamic_fee) ps) [
        | none ↦ estimate_batch_transaction_size ps
        | some n ↦ ok n
      ]

  pub get_batch_size : List PaymentInstruction → Result BatchError ℕ
  get_batch_size ps =
      if options.use_soroban_sim
      then simulate_batch_transaction_size ps
      else estimate_batch_transaction_size ps

  -- The memo check and the push, as the loop and the end of `createBatches` make them.
  pub push_batch : Packing → Result BatchError (List Batch)
  push_batch s = do
    validate_consistent_batch_memo s.current s.start_index s.transaction_index
    ok (s.batches ++ record { transaction_index = s.transaction_index; payments = s.current } ∷ [])

  close_batch : Packing → Result BatchError Packing
  close_batch s = do
    batches ← push_batch s
    ok (record s { batches = batches; current = []; transaction_index = s.transaction_index + 1 })

  -- `currentBatchStartIndex` is set where the batch is empty, then the instruction is pushed.
  add_instruction : ℕ → PaymentInstruction → Packing → Packing
  add_instruction i p s = record s {
    current = s.current ++ p ∷ [];
    start_index = if is_empty s.current then i else s.start_index;
  }

  -- One round of the loop, for the instruction at an index.
  pub pack_instruction : ℕ → PaymentInstruction → Packing → Result BatchError Packing
  unfolding close_batch add_instruction
  pack_instruction i p s = do
    size ← get_batch_size (s.current ++ p ∷ [])
    let exceeds =
        ltb max_ops (length (s.current ++ p ∷ [])) || ltb options.max_transaction_bytes size
    s' ← if exceeds && not (is_empty s.current) then close_batch s else ok s
    single ← get_batch_size (p ∷ [])
    guard (leb single options.max_transaction_bytes) (oversized p.address)
    ok (add_instruction i p s')

  pub pack_from : ℕ → List PaymentInstruction → Packing → Result BatchError Packing
  pack_from i [] s = ok s
  pack_from i (p ∷ ps) s = do s' ← pack_instruction i p s; pack_from (i + 1) ps s'

  finish : Packing → Result BatchError (List Batch)
  finish s = if is_empty s.current then ok s.batches else push_batch s

  unfoldable pub create_batches : List PaymentInstruction → Result BatchError (List Batch)
  unfolding pack_from finish
  create_batches instructions = do s ← pack_from 0 instructions start; finish s
