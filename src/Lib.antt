-- ===== src/Lib.antt =====
-- A verification library for the distributed wallet ledger: the domain model, the posting of
-- transactions, the holds, the outbox and the pages of an account in PostgreSQL, the use cases over
-- them, the payment saga, the relay, the worker and the circuit breaker. Paths below are from the repository's root.
--
-- How the parts interact. The domain (internal/ledger/domain) checks values: currencies, money, double
-- entry, wallets, holds. The use cases (internal/ledger/application) build domain values and pass them
-- to ports. The repositories (internal/ledger/adapters/postgres) implement the ports: they lock the
-- wallets' rows, check balances and write rows and outbox events in one database transaction. The
-- saga runs authorization, anti-fraud check, gateway and capture in turn, and releases the hold when
-- one fails. The breaker (internal/platform/resilience) stands before the gateway. A posting writes
-- outbox events, which the relay claims and publishes to the projector of balances; the worker expires
-- holds; the HTTP interface maps the errors of the use cases to statuses.
--
-- Files. Domain/X.antt models internal/ledger/domain/x.go, one function for each Go function, with
-- Domain/Posting.antt also for posting_direction.go; the files below Domain/X prove what it does.
-- Errors.antt has the sentinel errors of all packages and the pair (T, error) as `Result`.
-- Postgres/Tables.antt has the tables of migrations/ as lists of rows in a record `Store`;
-- Postgres/Queries.antt has the queries of internal/ledger/adapters/postgres/generated with the
-- constraints of the schema; Postgres/Transactions.antt is transaction_repository.go
-- (Post, postInTransaction, checkIdempotencyWithQueries, lockWalletAccounts, createOutboxEvents,
-- validateWalletBalances) and Postgres/Holds.antt is hold_repository.go. Postgres/Solvency, Holds and
-- Replays prove what they keep, Postgres/Reachable puts them together as a step relation,
-- Postgres/Futures proves what no later steps undo, and Postgres/Refinement compares them with a plain ledger of totals and keys. Postgres/Reading is Get and
-- GetAggregate of transaction_repository.go, and Application/GetTransaction is get.go of
-- application/transaction. Postgres/Wallets, Accounts
-- and Outbox are wallet_repository.go, account_repository.go and outbox_repository.go.
-- Application/PostTransaction, ReverseTransaction, Balance and Holds are the use cases of the same
-- names in internal/ledger/application/transaction and wallet; Application/Saga.antt is
-- application/saga. Application/Movements is deposit.go, withdraw.go and transfer.go of
-- application/wallet, and Application/Wallets its other use cases with the projector and the publisher
-- of events; Application/Accounts is application/account; Application/Outbox is application/outbox.
-- Adapters/Worker, Gateway and Http/Errors are internal/ledger/adapters/worker, gateway and
-- http/errors.go; Adapters/Http/Movements, Wallets and Holds are the handlers of http/wallet_handler.go,
-- from a decoded request to a status, and Adapters/Http/Transactions those of transaction_handler.go,
-- reversal_handler.go and account_handler.go. Resilience.antt is internal/platform/resilience/circuit_breaker.go.
-- Examples holds concrete data and the theorems applied to them.
--
-- How state is modelled. A Go method with a pointer receiver returns the new value beside its error.
-- A database transaction takes a store and returns a store or an error; an error leaves the store as it
-- was. Transactions on the same wallets are serial, as the row locks make them; the reads that the code
-- makes before it begins a transaction see a store of their own, which may be older, and so does the
-- lookup of a key after the rollback of a failed `Post`, which may be newer. Only the locks'
-- order is modelled, not the waiting. A port acts on a state of any type.
--
-- Numbers. int64 is an integer with wrap-around written out where Go computes; BIGINT sums fail out of
-- range. Go's int counters of the breaker are natural numbers, which its thresholds bound. Times are
-- nanoseconds as natural numbers. Every loop of the code is structural recursion, so that no fuel is
-- needed; the client that follows the cursors of an account's pages has fuel, and one unit more than
-- there are entries is proved to be enough.
--
-- Parameters. pgtype's reading of a UUID is `scan_uuid`; the theorems about funds assume that account
-- identifiers are canonical, which is that reading one gives it back. New event identifiers, the clocks
-- of the process and of the database, the anti-fraud service and the gateway are parameters too, and so
-- are the rows that other transactions have locked, the creation times of rows, the float product
-- and the random number of the backoff, drawn anew for every event, json.Unmarshal, the store of the
-- projections, and the decoded body and the SHA-256 of a request.
--
-- Not modelled: the other HTTP handlers, DynamoDB, SNS and SQS adapters, configuration, logging, metrics,
-- tickers and the load generator, which are I/O; failures of the connection; the widths of text columns.
pub mod Prelude
pub mod Errors
pub mod Domain
pub mod Postgres
pub mod Resilience
pub mod Application
pub mod Adapters
pub mod Examples
