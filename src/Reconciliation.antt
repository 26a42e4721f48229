-- ===== src/Reconciliation.antt =====
-- lib/stellar/reconciliation.ts and lib/stellar/submit-errors.ts: what a failed submission means, and
-- the lookups that settle one whose answer was lost. `computeTransactionHash`, which asks the SDK, is
-- not modelled.
pub mod Loop
pub mod Errors
mod Tests
use stellar_batch_pay.Base.{
  ℕ, zero, suc, ◌+◌, ◌*◌, min, String, Bool, true, false, ◌||◌, Option, none, some, List, [], ◌∷◌,
  ◌==◌, if◌then◌else◌, str_eq, index_of,
}
use stellar_batch_pay.Types.{PaymentStatus, success, failure, unknown}

pub record HorizonResultCodes : Type 0 where
  pub transaction : Option String
  pub operations : List String

-- What the source reads off an error: its message, `code`, `response.status` and
-- `response.data.extras.result_codes`.
pub record SubmitError : Type 0 where
  pub message : String
  pub code : Option String
  pub status : Option ℕ
  pub result_codes : Option HorizonResultCodes

abbrev pub is_some {ℓ} : {A : Type ℓ} → Option A → Bool
is_some none = false
is_some (some a) = true

-- `code === "…"`, of an optional string.
abbrev pub is_text : Option String → String → Bool
is_text none s = false
is_text (some t) s = str_eq t s

abbrev pub is_number : Option ℕ → ℕ → Bool
is_number none n = false
is_number (some m) n = m == n

unfoldable pub transport_code : Option String → Bool
transport_code c =
    is_text c "FETCH_ERROR"
    || is_text c "ECONNRESET"
    || is_text c "ETIMEDOUT"
    || is_text c "UND_ERR_CONNECT_TIMEOUT"
    || is_text c "UND_ERR_SOCKET"

unfoldable pub transport_message : String → Bool
transport_message m =
    is_some (index_of m "TimeoutError")
    || is_some (index_of m "network timeout")
    || is_some (index_of m "connection reset")
    || is_some (index_of m "fetch failed")
    || is_some (index_of m "socket hang up")

unfoldable pub transport_status : Option ℕ → Bool
transport_status s = is_number s 502 || is_number s 503 || is_number s 504

unfoldable pub is_transport_error : SubmitError → Bool
unfolding transport_code transport_message transport_status
is_transport_error e =
    transport_code e.code || transport_message e.message || transport_status e.status

-- `getResultCodes(error)?.transaction`
abbrev pub transaction_code : SubmitError → Option String
transaction_code e = elim e.result_codes [ none ↦ none | some codes ↦ codes.transaction ]

unfoldable pub is_bad_sequence_error : SubmitError → Bool
is_bad_sequence_error e = is_text (transaction_code e) "tx_bad_seq"

unfoldable pub is_insufficient_fee_error : SubmitError → Bool
is_insufficient_fee_error e =
    is_text (transaction_code e) "tx_insufficient_fee"
    || is_text (transaction_code e) "tx_fee_bump_inner_failed"

pub data SubmitErrorCode : Type 0 where
  bad_seq insufficient_fee tx_failed unclassified : SubmitErrorCode

pub data SubmitErrorAction : Type 0 where
  rebuild increase_fee review retry : SubmitErrorAction

-- Its message is one fixed text for each code, and the error's own for the last.
pub record ClassifiedSubmitError : Type 0 where
  pub code : SubmitErrorCode
  pub action : SubmitErrorAction
  pub result_codes : Option HorizonResultCodes

pub classify_submit_error : SubmitError → ClassifiedSubmitError
unfolding is_bad_sequence_error is_insufficient_fee_error
classify_submit_error e =
    if is_bad_sequence_error e
    then record { code = bad_seq; action = rebuild; result_codes = e.result_codes }
    else if is_insufficient_fee_error e
    then record { code = insufficient_fee; action = increase_fee; result_codes = e.result_codes }
    else if is_some e.result_codes
    then record { code = tx_failed; action = review; result_codes = e.result_codes }
    else record { code = unclassified; action = retry; result_codes = none }

-- Horizon's answer to a lookup of the hash: the transaction, or an error with its status.
pub data Lookup : Type 0 where
  found : Lookup
  lookup_error : Option ℕ → Lookup

pub record ReconciliationResult : Type 0 where
  pub status : PaymentStatus
  pub attempts : ℕ

abbrev pub default_reconciliation_attempts : ℕ
default_reconciliation_attempts = 4

abbrev pub default_initial_backoff_ms : ℕ
default_initial_backoff_ms = 250

abbrev pub default_max_backoff_ms : ℕ
default_max_backoff_ms = 2000

-- The answer to the lookup of an attempt, by the attempt's number from 1.
module _ (lookup : ℕ → Lookup) where
  -- The loop for `left` attempts from `attempt` on, with the times that it sleeps.
  pub reconcile_from : ℕ → ℕ → ℕ → ReconciliationResult × List ℕ
  reconcile_from zero attempt backoff = (record { status = unknown; attempts = 0 }, [])
  reconcile_from (suc left) attempt backoff =
      let (rest, sleeps) =
        reconcile_from left (attempt + 1) (min (backoff * 2) default_max_backoff_ms) in
      elim (lookup attempt) [
        | found ↦ (record { status = success; attempts = attempt }, [])
        | lookup_error status ↦
            if is_number status 404
            then (record { status = failure; attempts = attempt }, [])
            else if left == 0
            then (record { status = unknown; attempts = attempt }, [])
            else (rest, backoff ∷ sleeps)
      ]

  pub reconcile_transaction : ℕ → ReconciliationResult × List ℕ
  unfolding reconcile_from
  reconcile_transaction attempts = reconcile_from attempts 1 default_initial_backoff_ms
