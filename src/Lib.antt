-- ===== src/Lib.antt =====
-- AEGIS: payments by agents under a policy that a Soroban contract decides. An agent's intent is
-- hashed (packages/canonical); the contract stores a decision about it; the executor
-- (apps/executor) pays an approved decision once, with a memo that commits to it, and writes a
-- receipt (packages/receipt); the verifier (tools/verifier) checks a payment from the receipt, the
-- ledger, the contract and the published registry. The gateway (apps/gateway) takes an intent over
-- HTTP, hashes it, asks the contract for a decision, and keeps rows that only help a reader.
--
-- Files:
-- - Prelude: shared names, texts (lists of code points), byte arrays, Boolean tests, results,
--   integers.
-- - Canonical/Amount, Bytes, Commitment: packages/canonical/src/amount.ts, bytes.ts, intent.ts and
--   memo.ts. `parse_amount`, `format_amount`, the writer of bytes, `canonical_intent`, `memo_hash`
--   and `decision_id` are the functions of these names. Proofs: Amount/Digits and RoundTrip,
--   Bytes/Laws, Commitment/Injective and Binding.
-- - Executor/Errors, Store, Store/Rows, Store/Memory, World, Payment, Lock, Gate, Settle:
--   apps/executor/src/errors.ts, store/types.ts, store/memory.ts, the interfaces of chain.ts,
--   horizon.ts, registry.ts and config.ts, payment.ts, lock.ts and settle.ts. Executor/Exec is the
--   monad of actions on a state that may throw, with rules for pre- and postconditions. A record
--   `Deps` has the environment, a record `World` the state: the journal, the held locks, the clock
--   and the list of what was done (the code keeps no such list). Proofs: Settle/Invariant (what
--   holds between two steps), Gating, Steps, Flow, Runs (each action keeps it), Safety, Polling
--   and Locking; Gate/Accepted and Payment/Prepared; Gate/Published is the gate over the
--   contract's client and a loaded registry.
-- - Executor/Chain, Horizon, Registry, Config: the clients of chain.ts and horizon.ts,
--   `loadRegistry` and `loadConfig`, of what the SDK, `fetch` (Http), the file and the environment
--   give. Proofs: Chain/Answers, Horizon/Certain, and Registry/Published with Registry/Reading and
--   Payees.
-- - Executor/Store has the store's interface as a record of operations with their laws; the state
--   machine takes any store with these laws. Store/Memory and Store/Sqlite (store/sqlite.ts) are
--   two; Store/Agree compares them.
-- - Receipt/Json, Validate, Valid: packages/receipt/src/types.ts and validate.ts. A JSON value is
--   a data type; a check returns its value with the issues that it adds. Proofs: Receipt/Rules,
--   Accepts and RoundTrip. Executor/Receipt is `buildReceipt`; Executor/Receipt/Built takes it
--   through the verifier's checks, Verifier/Receipts puts the validator into the verifier.
-- - Gateway/Paths, WriteAuth, ContractErrors, Chain, Request, Store, Registry, Server, Routes,
--   Cors, Mutex: the files staticConsole.ts, writeAuth.ts, contractErrors.ts, chain.ts, schema.ts,
--   db/store.ts, registry.ts, server.ts, cors.ts and mutex.ts of apps/gateway/src. A handler takes
--   a record `World` (the state of the store, the calls of the chain so far, the transcript) to a
--   reply and the next one; the store is a record of operations, filled by Store/Degraded and
--   Store/Postgres; the chain answers each call by its number. Routes puts the hook before the
--   routes. Server/Stores says which operations of the store a handler makes. Proofs:
--   Paths/Served, WriteAuth/Decided, ContractErrors/Mapped, Chain/Sending, Request/Hashable, the
--   children of the two stores, Server/Growing, Canonicalizing, Intents, Independent and
--   Approvals, Routes/Guarded, Cors/Admitted. In Mutex a step is a call of `run`, a call of a
--   task that is ready, or its end; Mutex/Queue and Order have the invariant,
--   Mutex/Excludes and Serves what it is for.
-- - Console/Policies, Lookup, Evidence, Rules, Display: chain.ts, derive.ts, labels.ts and
--   aegisApi.ts of apps/console/src. A record `Rpc` has the answers of the contract's views.
--   Proofs: Evidence/Supported, Rules/Honest; Display/Blank puts the body that
--   Gateway/Server/Bodies makes into the page's reader.
-- - Verifier/Types, Sources, Checks, Scan, Verify: tools/verifier/src/types.ts, the values and
--   sources of horizon.ts, chain.ts, registry.ts, args.ts and packages/receipt/src/types.ts,
--   checks.ts, `scanForMemo` of horizon.ts, and verify.ts. A check is its id, its source and its
--   status. Proofs: Verdict (the exit code), LedgerFacts, ChainFacts, PaymentFacts, ScanFacts
--   (each group of checks), Sound, Verified, Strict, Total and Alone (the whole report).
--
-- What a run meets: every call of the chain, of Horizon or of the disk is numbered, and an
-- environment answers as a function of the number, so that a theorem for every `Deps` covers all
-- outages, all lies and the end of the process before or after any write. A process that ends
-- loses its locks and keeps the journal.
--
-- Bounds: amounts are unbounded integers with the guards of the code (i128, int64). Polling takes
-- fuel, `rounds_for`: the timeout over the poll interval, and two; a round that does not end the
-- polling sleeps for an interval, so the deadline comes first.
--
-- Parameters: SHA-256, NFC, base64, the Stellar SDK (addresses of assets, the hash and the bytes
-- of a transaction), and the sources of the verifier: a file, Horizon, the contract client, the
-- parser of JSON, of URLs, and the loader of the registry; of the gateway: the SDK's transactions,
-- the file system, and the path that the router takes from a URL; of the console: the contract's
-- client, the RPC server, and the fetch of the gateway's API; of the executor's clients: the
-- contract's client, `fetch`, key pairs, and what JavaScript makes of a value that is of no
-- expected type.
--
-- Not modelled: message texts, logging, HTTP below `fetch`, the SQL engine (a table is a list of
-- rows), the listing of pending records, the gateway's timings and health route, the console's
-- markup, and the contract (it is the answer of the chain client).
pub mod Prelude
pub mod Canonical
pub mod Executor
pub mod Verifier
pub mod Gateway
pub mod Receipt
pub mod Console
pub mod Http
