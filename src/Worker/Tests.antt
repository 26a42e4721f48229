-- ===== src/Worker/Tests.antt =====
-- Runs of the worker, and the theorems at these inputs.
use stellar_batch_pay.Base.{
  ◌≡◌, ◌++◌, refl, String, none, some, List, [], ◌∷◌, map, arith, ok, err, ◌==◌, if◌then◌else◌,
  str_eq, false, Result,
}
use stellar_batch_pay.Types.{PaymentInstruction, PaymentResult, success}
use stellar_batch_pay.Batcher.Tests.{plain}
use stellar_batch_pay.Reconciliation.{SubmitError, lookup_error}
use stellar_batch_pay.Service.{accepted, rejected}
use stellar_batch_pay.Worker.{
  Envelope, Chain, payment_result, source_mismatch, process_presigned, get_xdr_source_account,
}
use stellar_batch_pay.Worker.Counts.{Tallied, process_presigned-Tallied}
use stellar_batch_pay.Worker.Reports.{first_transaction_reports}

abbrev envelope : Envelope
envelope = record { operations = some 1; source = some "GA"; hash = "h0" }

abbrev lost : SubmitError
lost = record { message = "socket hang up"; code = none; status = none; result_codes = none }

-- The first transaction goes through; the answer to the second is lost, and so are all lookups.
abbrev pub chain : Chain
chain = record {
  show = λ n. "0";
  from_xdr = λ x. if str_eq x "" then err "Unparseable transaction XDR" else ok envelope;
  submit_transaction = λ i. if i == 0 then accepted none else rejected lost;
  lookup = λ i k. lookup_error (some 503);
}

abbrev pub xdrs : List String
xdrs = "AAAA" ∷ "BBBB" ∷ "" ∷ []

process_presigned-Tallied_example :
    Tallied chain (some "GA") (process_presigned chain (some "GA") xdrs plain)
process_presigned-Tallied_example = process_presigned-Tallied chain (some "GA") xdrs plain

abbrev b_payment : PaymentInstruction
b_payment = record {
  address = "B";
  amount = "1.5";
  asset = "XLM";
  memo = none;
  memo_type = none;
  row_index = some 1;
}

from_owner : source_mismatch (some "GA") envelope ≡ false
unfolding source_mismatch get_xdr_source_account
from_owner = refl

first_transaction_reports_example :
    (rest : List PaymentResult) × ((process_presigned chain
        (some "GA")
        xdrs
        (b_payment ∷ plain)).all_results
      ≡ map
          (payment_result (record { status = success; transaction_hash = some "h0"; error = none }))
          (b_payment ∷ plain)
        ++ rest)
first_transaction_reports_example =
    first_transaction_reports chain (some "GA") "AAAA" ("BBBB" ∷ "" ∷ []) b_payment plain
      (omega arith) envelope none refl from_owner refl

abbrev signed : List (Result String (List PaymentResult) × List PaymentInstruction)
signed = (err "Batch submission failed", plain) ∷ []
