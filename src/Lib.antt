-- ===== src/Lib.antt =====
-- A model of the server side of Stellar Batch Pay, with proofs. The program takes a list of payments,
-- packs them into Stellar transactions, submits those from a background job, and lets a user send the
-- failed payments again. Paths below are from the repository's root.
--
-- The parts, and how they meet:
-- - Types: the data of lib/stellar/types.ts that the parts share.
-- - Batcher: lib/stellar/batcher.ts. `create_batches` packs greedily, by a number of operations and a
--   size in bytes, and checks that the payments of a batch share their memo. The bytes that the SDK
--   or the RPC's simulation answers are the parameter `SizeOracle`. The loop is a fold of
--   `pack_instruction` over the payments; Batcher/Steps describes its steps as a relation, and the
--   other modules of that folder use the relation.
-- - Reconciliation: lib/stellar/reconciliation.ts and lib/stellar/submit-errors.ts. What an error of a
--   submission means (`is_transport_error`, `classify_submit_error`) and the lookups that settle a
--   submission whose answer was lost (`reconcile_transaction`). The loop recurs on the attempts left.
-- - Service: lib/stellar/server.ts, the class StellarService. `submit_one_transaction` builds and
--   submits a transaction and uses Reconciliation, `submit_one_with_retry` retries it,
--   `submit_single_batch` and `submit_batch` (through Batcher) make results of it. All answers from
--   outside are fields of `World`, numbered by the submissions before them, so that a later answer
--   may differ from an earlier one. A memo that `Memo.id` refuses is an error of the submission. The source's `while (true)` runs on fuel: the sum of the two retry
--   limits and one. Each round but the last uses up a retry of one of the limits, so that the fuel is
--   enough; this is among the results.
-- - Worker: lib/stellar/batch-worker.ts and lib/stellar/xdr-source.ts. The loop over pre-signed
--   transactions (`process_xdr` is one round) with its counts and results, which uses Reconciliation,
--   and the counts of the server-signed loop over the Service's answers. Worker/Jobs is the whole of
--   `processJobInBackground` on the tables of JobStore: `flow` is the frame that its two flows share,
--   `batch_loop` the loop with the progress after each round, `tried` the try and `caught` its catch.
--   Which calls of the store find the database locked is a part of the `Surroundings`: `update_job`
--   tries again, the others throw. The progress after a transaction of another account is not awaited,
--   and its error is left out; what Node does with it is not modelled.
-- - Retry: app/api/batch-retry/route.ts. The payments that a retry takes from a job's results, which
--   Worker or Service made.
-- - JobStore: lib/backends/job-store-sqlite.ts. The tables of jobs and of idempotency keys, with the
--   creation of a job, its replay, its claim by a worker, its progress and its update. A statement of
--   SQL acts on a list of rows. The writes that other processes make between two statements of
--   `increment_completed_batches` are a parameter; its three attempts and the two of `update_job` are
--   recursion on their number. JobStore/Reach is the relation of the stores that operations reach.
--   JobStore/Queries: the listing, the counts and the history of jobs and the deliveries of webhooks; what
--   the database does for them (LIKE, the order of rows, sums of reals) is the record `Engine`.
--   JobStore/Postgres: lib/backends/job-store-postgres.ts, the same operations on PostgreSQL. Which
--   name the driver gives to a column is a parameter, `returned`.
-- - RateLimit: lib/backends/rate-limit-sqlite.ts, rate-limit-postgres.ts and rate-limit-redis.ts. One
--   step for a key (RateLimit/Spec), to which the SQLite and the Redis backends come down, and a limiter
--   that counts the requests of a window (RateLimit/Counting).
-- - Keeper: lib/keeper/threshold.ts, schedule.ts, events-pagination.ts and discovery.ts. Which entries of
--   the contract a keeper extends, in which order, and the walk over the RPC's pages of events that
--   finds their owners; it recurs on the pages left of `max_pages`.
-- - ReentrancyGuard: lib/stellar/reentrancy-guard.ts. A tab's maps and the storage that tabs share are
--   one state; `acquire_guard` is `acquire_nested`, what the browser answers and what others do while
--   the mutex is awaited, and `acquire_after_mutex`. ReentrancyGuard/Exclusion interleaves tabs;
--   ReentrancyGuard/Browser takes the browser's answer from the mutexes that tabs hold.
-- - Amounts: utils/aggregateAssets.ts. The totals for each asset, from decimal texts and back to them. The
--   digits of a number are made on fuel, the number and one: each round divides it by ten.
-- - WalletAuth: lib/wallet-auth.ts. `verify_signed_challenge` with the map of used challenges, and the
--   session token from its issue to `require_wallet_auth`. Node's crypto and the SDK's check of a
--   challenge are fields of `Crypto`.
-- - Base: the names of the libraries, Boolean tests, lists over native numbers, maps and results.
--
-- Conventions: a function that throws returns a `Result`; an awaited call is a plain call; a time is a
-- number of milliseconds, and an amount one of stroops; a number of the source is a natural number
-- where it cannot be negative. A subtraction stops at 0, and where the source goes below 0 a comment
-- says what that changes. Log lines are left out, and so are messages for people, except where a
-- result stores them.
--
-- Not modelled: the user interface, the contract in Rust and the scripts, which are other programs; the
-- HTTP routes around the modelled parts, the parser and the validator of payments, the keeper's
-- main loop, the sending of webhooks, and the listing of jobs on PostgreSQL. Service takes the validator's
-- answers as a field of `World`, and Worker/Jobs the sum of the amounts as a field of `Surroundings`.
pub mod Base
pub mod Types
pub mod Batcher
pub mod JobStore
pub mod RateLimit
pub mod Reconciliation
pub mod Service
pub mod Worker
pub mod Retry
pub mod Keeper
pub mod ReentrancyGuard
pub mod Amounts
pub mod WalletAuth
