-- ===== src/Batcher/Tests.antt =====
-- Runs of `createBatches` with a size oracle of 30 000 bytes for each payment, and the theorems at
-- these inputs.
use stellar_batch_pay.Base.{
  ℕ, ◌*◌, ◌≡◌, refl, ◌↔◌, true, false, Option, none, some, String, List, [], ◌∷◌, length, ok, err,
  All,
}
use stellar_batch_pay.Types.{PaymentInstruction, testnet}
use stellar_batch_pay.Batcher.{
  Batch, SizeOracle, Options, oversized, memo_signature, validate_consistent_batch_memo,
  create_batches, present_memo, effective_memo_type, memo_payments, conflicting_memos,
  pack_instruction, get_batch_size, estimate_batch_transaction_size,
  simulate_batch_transaction_size, push_batch, payment_row_number,
}
use stellar_batch_pay.Batcher.Partition.{all_payments, create_batches-all_payments}
use stellar_batch_pay.Batcher.Limits.{IsSendable, create_batches-IsSendable}
use stellar_batch_pay.Batcher.Greedy.{Full, payments_of, create_batches-Full}
use stellar_batch_pay.Batcher.Memos.{
  ShareMemo, validate_consistent_batch_memo_iff, create_batches-ShareMemo,
}

abbrev pub per_payment : SizeOracle
per_payment = record {
  envelope_bytes = λ net fee ps. some (length ps * 30000);
  simulated_bytes = λ net fee ps. none;
}

abbrev pub options : Options
options = record {
  max_transaction_bytes = 95000;
  network = testnet;
  use_soroban_sim = true;
  dynamic_fee = none;
}

abbrev tight : Options
tight = record {
  max_transaction_bytes = 100;
  network = testnet;
  use_soroban_sim = false;
  dynamic_fee = some 200;
}

abbrev pub to : String → Option String → PaymentInstruction
to a m = record {
  address = a;
  amount = "1.5";
  asset = "XLM";
  memo = m;
  memo_type = none;
  row_index = none;
}

abbrev five : List PaymentInstruction
five =
    to "A" (some "rent")
    ∷ to "B" none
    ∷ to "C" (some "rent")
    ∷ to "D" (some "")
    ∷ to "E" (some "bonus")
    ∷ []

abbrev batches : List Batch
batches =
    record {
      transaction_index = 0;
      payments = to "A" (some "rent") ∷ to "B" none ∷ to "C" (some "rent") ∷ [];
    }
    ∷ record { transaction_index = 1; payments = to "D" (some "") ∷ to "E" (some "bonus") ∷ [] }
    ∷ []

five_batched : create_batches per_payment 100 options five ≡ ok batches
unfolding create_batches pack_instruction get_batch_size simulate_batch_transaction_size
    estimate_batch_transaction_size push_batch validate_consistent_batch_memo memo_payments
    conflicting_memos memo_signature present_memo effective_memo_type payment_row_number
five_batched = refl

create_batches-all_payments_example : all_payments batches ≡ five
create_batches-all_payments_example =
    create_batches-all_payments per_payment 100 options five batches five_batched

create_batches-IsSendable_example : All (λ b. IsSendable per_payment 100 options b.payments) batches
create_batches-IsSendable_example =
    create_batches-IsSendable per_payment 100 options five batches five_batched

create_batches-Full_example : Full per_payment 100 options (payments_of batches)
create_batches-Full_example = create_batches-Full per_payment 100 options five batches five_batched

create_batches-ShareMemo_example : All (λ b. ShareMemo b.payments) batches
create_batches-ShareMemo_example =
    create_batches-ShareMemo per_payment 100 options five batches five_batched

validate_consistent_batch_memo_iff_example :
    (validate_consistent_batch_memo five 0 0 ≡ ok tt) ↔ ShareMemo five
validate_consistent_batch_memo_iff_example = validate_consistent_batch_memo_iff five 0 0

abbrev pub plain : List PaymentInstruction
plain =
    record (to "A" none) { row_index = some 0 }
    ∷ record (to "B" (some "rent")) { row_index = some 1 }
    ∷ []

abbrev pub plain_batches : List Batch
plain_batches = record { transaction_index = 0; payments = plain } ∷ []

pub plain_batched : create_batches per_payment 100 options plain ≡ ok plain_batches
unfolding create_batches pack_instruction get_batch_size simulate_batch_transaction_size
    estimate_batch_transaction_size push_batch validate_consistent_batch_memo memo_payments
    conflicting_memos memo_signature present_memo effective_memo_type payment_row_number
plain_batched = refl

per_payment_sizes :
    (qs : List PaymentInstruction) → (n : ℕ) × (get_batch_size per_payment 1 options qs ≡ ok n)
unfolding get_batch_size simulate_batch_transaction_size estimate_batch_transaction_size
per_payment_sizes qs = (length qs * 30000, refl)

plain_oversized : create_batches per_payment 1 tight plain ≡ err (oversized "A")
unfolding create_batches pack_instruction get_batch_size simulate_batch_transaction_size
    estimate_batch_transaction_size
plain_oversized = refl
