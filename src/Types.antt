-- ===== src/Types.antt =====
-- The data of lib/stellar/types.ts that several parts share.
use stellar_batch_pay.Base.{ℕ, String, Option, List}

-- `Exclude<HorizonNetwork, "futurenet">`: the networks of a batch job.
pub data BatchJobNetwork : Type 0 where
  testnet mainnet : BatchJobNetwork

pub data MemoType : Type 0 where
  text id none : MemoType

pub record PaymentInstruction : Type 0 where
  pub address : String
  pub amount : String
  pub asset : String
  pub memo : Option String
  pub memo_type : Option MemoType
  pub row_index : Option ℕ

pub data JobStatus : Type 0 where
  queued processing completed failed : JobStatus

-- `"success" | "failed" | "unknown"` of a payment.
pub data PaymentStatus : Type 0 where
  success failure unknown : PaymentStatus

pub record PaymentResult : Type 0 where
  pub recipient : String
  pub amount : String
  pub asset : String
  pub status : PaymentStatus
  pub transaction_hash : Option String
  pub error : Option String
  pub row_index : Option ℕ

pub record BatchSummary : Type 0 where
  pub successful : ℕ
  pub failed : ℕ

pub record BatchResult : Type 0 where
  pub batch_id : String
  pub total_recipients : ℕ
  pub total_amount : String
  pub total_transactions : ℕ
  pub network : BatchJobNetwork
  pub results : List PaymentResult
  pub summary : BatchSummary
