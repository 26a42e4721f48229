-- ===== src/Reconciliation/Tests.antt =====
-- Runs of a reconciliation, and the theorems at these inputs.
use stellar_batch_pay.Base.{ℕ, ◌≡◌, refl, none, some, [], ◌∷◌, true, ◌==◌, if◌then◌else◌}
use stellar_batch_pay.Types.{success}
use stellar_batch_pay.Reconciliation.{
  SubmitError, Lookup, found, lookup_error, reconcile_transaction, reconcile_from,
  is_transport_error, transport_code, transport_message, transport_status,
}
use stellar_batch_pay.Reconciliation.Loop.{Says, reconcile_transaction-Says}

-- Horizon is away for two lookups.
abbrev late : ℕ → Lookup
late n = if n == 3 then found else lookup_error (some 503)

late_run :
    reconcile_transaction late 4 ≡ (record { status = success; attempts = 3 }, 250 ∷ 500 ∷ [])
unfolding reconcile_transaction reconcile_from
late_run = refl

reconcile_transaction-Says_example :
    (let r = (reconcile_transaction late 4).0 in Says late 1 5 r.attempts r.status)
reconcile_transaction-Says_example = reconcile_transaction-Says late 4

abbrev stale : SubmitError
stale = record {
  message = "network timeout at: https://horizon";
  code = none;
  status = none;
  result_codes = some (record { transaction = some "tx_bad_seq"; operations = [] });
}

stale-transport : is_transport_error stale ≡ true
unfolding is_transport_error transport_code transport_message transport_status
stale-transport = refl
