-- ===== src/Lib.antt =====
-- Balance Tracker: a model of the services that queue and run the synchronisation of exchange and
-- wallet balances, and that sell, meter and limit it.
--
-- The program is an asynchronous web service (app/) with workers and a Telegram bot (bot/) over one
-- database. A request or the scheduler enqueues a synchronisation job; a worker claims it, asks the
-- provider of the integration and saves the balance, and reports the health of the service. Whether
-- an organisation may refresh or add an integration follows from its plan; the plan follows from
-- its subscription, which is renewed from a balance that is kept as a ledger, and which payments of
-- Crypto Bot and promo codes change.
--
-- Which file models which part:
--   Prelude, Prelude/      lists, rows of a table, integers, texts, tests: shared helpers
--   Json, Clock            JSON values with Python's conversions; time in microseconds since the epoch
--   Integration            the table of integrations in app/models/balance.py
--   ServiceStatus          ServiceStatusRepository in app/repositories/balance.py
--   SyncJob/               SyncJobService in app/services/sync_job_service.py: Queue has enqueue_job
--                          and recover_stale_running_jobs, Key has _build_dedupe_key, Claim the claims
--                          on PostgreSQL and elsewhere, Settle has run_claimed_job, Worker has
--                          run_next_job and run_job
--   Billing/Ledger         LedgerService in app/services/ledger_service.py
--   Billing/Plans, Renewal BillingService in app/services/billing_service.py
--   Billing/Promo, PromoCodes   PromoService in app/services/promo_service.py
--   Billing/Invoice        the handling of messages in app/services/crypto_bot_service.py
--   Entitlements/          EntitlementsService in app/services/entitlements_service.py: Policy and
--                          Resolve have _resolve_policy, Refresh the refresh interval, Limits the
--                          usage and ensure_can_create_integration, Effective what clients see
--   ResponseCache          HotResponseCache in app/services/response_cache.py
--   Transactions/          TransactionRepository in app/repositories/balance.py: Save has
--                          save_transaction, Batch save_transactions_batch, Query the reads and the
--                          notification flag, with the summary of app/services/transaction_service.py
--   Balances/              Integrity has app/services/balance_integrity.py, Repository the writes of
--                          BalanceRepository in app/repositories/balance.py
--   Notifications/         app/repositories/notifications.py and app/services/notification_service.py:
--                          Events has the life of an event, Settings the settings and cursors,
--                          Generate, JobEvents and StatusEvents the three generators of events
--   Integrations/          IntegrationService in app/services/integration_service.py
--   RefreshQueue           the methods of app/services/sync_job_service.py that queue refreshes, with
--                          queue_integration_refresh of app/services/integration_service.py
-- The other files hold proofs, named for what they prove, and Tests the theorems at concrete inputs.
--
-- State is passed explicitly: a table is a list of rows, a service call takes the tables and returns
-- its result with the tables after it. A query with a condition, an order and a limit is a selection
-- from the list. A call that may raise returns a result next to what it had written. Where several
-- sessions work on a table at once, a call takes what others commit between two of its statements as
-- a function on the table, so that every interleaving of commits is covered; where a call has no
-- such argument, its session is alone. A unique index is a test on the rows that an insert must pass.
--
-- Amounts of money, floats that the services round to two decimals in places, are integers in
-- hundredths, and in Balances in units of 10 ^ -8, to which the code rounds. Sums are exact here, and
-- amounts that are stored are finite: what a NaN would do in the ledger is not modelled, while the
-- numbers that a provider reports may be not finite. Texts are lists of code points; the change of
-- case covers the ASCII letters, in which plan codes, promo codes and kinds are written. One instant
-- stands for the calls of the clock within one request. Every function is structurally recursive, so
-- no fuel is needed.
--
-- A run of a job can be left by an exception: when its attempt is cancelled, which is modelled before
-- anything of an outcome is written, and when PostgreSQL refuses a message of more than 1000
-- characters. Other failures of the database in the middle of a call are not modelled.
--
-- Parameters stand for what is not in the repository: the digest of a payload, Python's `str` and
-- `float` on JSON values, the product of floats, `isoformat` and `fromisoformat`, the zone of the host.
-- The work of a provider enters as the outcome of the attempt.
--
-- Not modelled: the adapters of exchanges and chains in app/services (they talk to remote services),
-- the routers and the bot's screens, the reports over the history of balances, what the worker does
-- with a refresh result before it saves the balance, login and administration, the HTTP calls that
-- create invoices, and the debank-sdk directory, a library of its own.
pub mod Prelude
pub mod Json
pub mod Clock
pub mod Integration
pub mod ServiceStatus
pub mod SyncJob
pub mod Billing
pub mod Entitlements
pub mod ResponseCache
pub mod Transactions
pub mod Notifications
pub mod Integrations
pub mod RefreshQueue
pub mod Balances
