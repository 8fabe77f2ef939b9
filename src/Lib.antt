-- ===== src/Lib.antt =====
-- AccountOS: the money path of the service, as a model with proofs.
--
-- AccountOS (src/, a NestJS service over PostgreSQL and the Nomba payment API) gives each business
-- virtual accounts and treasury buckets. An inflow to an account is written to the account's ledger;
-- the rules of the account are evaluated against it; a rule that releases funds credits a bucket; money
-- leaves a bucket by a transfer to another bucket, a withdrawal to a bank, or a settlement. Every
-- amount is an integer in kobo, and a bucket's balance is the sum of its credits less its debits.
--
-- Files:
--   World/Rows, World/Errors     the tables and enums of prisma/schema.prisma and the exceptions
--   World/Monad, World/Inversion a call of a service as explicit state passing with a result; a
--                                database transaction undoes its writes when it throws, and may be
--                                refused at commit
--   Treasury/Entries             the bucket ledger: computeBalance, latestBalance, reservedKobo, and
--                                the insert under the unique column reference
--   Treasury/Allocation          src/treasury/allocation.service.ts: credit, runSerializable
--   Treasury/Buckets, Transfers  src/treasury/treasury.service.ts: provisionBucket, renameBucket,
--                                closeBucket, getBalance, transferBetweenBuckets, withdraw
--   Treasury/Settlements         src/treasury/settlement.service.ts: initiate, settleInternal,
--                                completeSettlement
--   Treasury/Balance, Credits, Keys, Movements, TransferLaws, Withdrawals, WithdrawalLaws,
--   Treasury/Reservations, Lifecycle, SettlementLaws, InternalSettlement, SelfSettlement
--                                the proofs on the treasury; Lifecycle is the step relation of
--                                settlements and credits, a whole transaction at a time
--   Ledger, Ledger/Laws          src/ledger/ledger.service.ts: writeInflow, writeOutflow,
--                                updateReconciliationStatus, getBalance
--   Rules/Matching               src/rules/rule-engine.service.ts: matches, evaluate
--   Rules/Engine, Release        the same file: execute and its handlers
--   Rules/RuleSets               src/rules/rules.service.ts: replaceRuleSet, toggleRule, deleteRule,
--                                enforcePercentageSum
--   Rules/EvaluationLaws, Shares, SetLaws, EngineLaws, ExecuteLaws, Frames, StatusLaws,
--   Rules/ForeignKeys, ReleaseLaws
--                                the proofs on the rules
--   Webhooks                     src/common/queue/webhook.processor.ts: process
--   Webhooks/Redelivery          the proofs on a second delivery of an event
--   Accounts/Operations          src/accounts/account-lifecycle.service.ts: provisionAccount,
--                                updateStatus, closeAccount
--   Accounts/Machine, Refinement the statuses of an account as an abstract machine, and the operations
--                                and the rules as its steps
--   Accounts/Outcomes, Provisioning
--                                what each of the three operations leaves, on every branch
--   Retries                      src/common/queue/retry.processor.ts: process, onFailed
--   Retries/Settling, Closing    the run of a job until it has no attempts left, and jobs of an
--                                account that is closed meanwhile
--   Identity                     src/identity/identity.service.ts: createCustomer, renameCustomer,
--                                updateKycTier
--   Identity/Stale, Tiers, Names the rules that a change of tier finds stale, the rules evaluated after
--                                it, and the name histories
--   Auth/Crypto                  src/common/utils/crypto.utils.ts over Node's crypto
--   Auth/Businesses, Keys        src/auth/auth.service.ts: credentials and API keys
--   Auth/CredentialLaws, KeyLaws the proofs on them
--   Nomba                        src/nomba-client/nomba-client.service.ts: getToken and the calls;
--                                client_of and bank_of make of it the NombaClient and the Bank of the
--                                other services
--   Nomba/Tokens, Calls          the proofs on it
--   Intake                       src/webhooks/webhooks.service.ts and src/events/events.service.ts
--   Intake/Signatures, Dispatching
--                                which webhooks are queued, and an event on its way to the processor
--   Ledger/Csv, CsvReading       the header, lines and cells of exportCsv, and a reader of such texts
--   Idempotency, Idempotency/Replays
--                                src/common/interceptors/idempotency.interceptor.ts
--   Schema/Json, Rules           rule-schema.ts: JSON, the schemas and validateRuleSet
--   Schema/WellFormed, Validation, Releases
--                                what a validated rule set is, and a release that cannot be executed
--   Retries/Attempts, Identity/Lookups
--                                lemmas of the two components
--   Tests                        the theorems at concrete states
--   Prelude                      shared names: integers, tests, case splits
--
-- Code outside the repository, and the world, enter as parameters: Bank is what becomes of a payout
-- at Nomba: made, declined, or made although the call threw, as after a lost answer, Deliver is the
-- answer of a NOTIFY_WEBHOOK endpoint, Aborts is the list of errors with which the database aborts
-- the successive attempts at a serializable transaction, a refusal is its answer to one commit,
-- NombaClient is for virtual accounts what Bank is for payouts, Faults the errors of the database on
-- the other statements of a retry, NodeCrypto the digests and the cipher of Node, with the laws of a
-- cipher in CipherLaws, ParseJson is JSON.parse, the test of a URL is the schema library's, and
-- identifiers, UUIDs and random bytes are arguments. The queue runs a job that throws again until
-- its attempts are used up.
--
-- Bounds: runSerializable recurses on the number of retries, which is 5 in the source, and the
-- run of a retry job on the attempts left; every other
-- loop is a structural recursion on a table. Integers are unbounded, as bigint is; Number(amountKobo)
-- in matches is exact below 2^53 kobo. A percentage is a whole number, as rule-schema.ts has it.
--
-- Not modelled: timestamps (a table is kept newest first, where the source orders by one),
-- narrations and messages, audit metadata, most foreign keys, pagination and listings, HTTP, the
-- controllers, the scheduler, which only logs, and the messages of a refused rule set. A row lock
-- has no counterpart: a transaction is one step, and transactions do not overlap. Outside the
-- credit, a commit and a retry, the statements of the database succeed; in particular an error of
-- the database in the midst of a rule's execution is not modelled. Of the foreign keys only that of
-- the entry that a release writes is modelled. An answer of Nomba with status 2xx has its data. The
-- audit log, the queues and what Nomba did are not undone by a transaction. That the transfer
-- reference of a settlement is unique is not enforced.
pub mod Prelude
pub mod World
pub mod Treasury
pub mod Ledger
pub mod Rules
pub mod Webhooks
pub mod Accounts
pub mod Retries
pub mod Identity
pub mod Auth
pub mod Nomba
pub mod Intake
pub mod Idempotency
pub mod Schema
pub mod Tests
