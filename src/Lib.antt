-- ===== src/Lib.antt =====
-- A verification library of the WHMCS MCP server: a server that offers the operations of a WHMCS
-- billing installation as tools, and lets writes through only under a gate.
--
-- The parts and the files that model them (paths from the repository's root):
--   * Write/Scopes, Write/Types: the tables and records of src/write/types.ts. A write scope has a
--     WHMCS action and a risk.
--   * Write/Gate: src/write/executionGate.ts. `default_execution_authorizer` and
--     `pre_authorize_intent` are `defaultExecutionAuthorizer` and `preAuthorizeIntent`; the replay
--     predicate, which the write flow fills from the ledger, is their argument. Rules is the
--     specification that the theorems compare them with.
--   * Write/Intents: src/write/intents.ts. A store is its map of intents with its snapshot file;
--     `transition`, `prune`, `put`, `find` and `list_intents` are the methods of `IntentStore`.
--   * Write/Ledger: src/write/idempotency.ts. `seen`, `record_result`, `get_result` and `prune` are
--     the methods of `IdempotencyLedger`, `open_ledger` its constructor on a file's lines.
--   * Write/DayAmounts: src/write/dayAmountsStore.ts, the day's totals behind the daily cap.
--   * Write/CreditTransfer: src/write/creditTransfer.ts. Program has the calls to WHMCS, a state and
--     exception monad over them, with the API a parameter; Compensation, Settlement and Execute are
--     the parts of `executeUnlocked`. Quiet, Stages, Ready, Prepared, Legs and Conserved are
--     about the credit calls of a whole run.
--   * Write/Mapping: src/write/paramMapping.ts. Each mapper builds a `Map` from keys to values;
--     `intent_to_whmcs_params` is `intentToWhmcsParams`. Strict has the table of the keys that the
--     mappers' comments promise.
--   * Write/Audit: src/write/audit.ts. `append` and `append_durable` are told whether a line could
--     be written.
--   * Write/Flow: src/tools/writeFlow.ts. Program has the state that the tools share (intents,
--     ledger, approvals, daily amounts, audit log) and the calls to WHMCS, the disk and the clock,
--     which are parameters; Single is the execution of an intent that is one WHMCS call,
--     Targets and PriceRestore are `executePriceRestoreBatch`, Handlers are the tools that draft,
--     validate and approve, Execute is `executeRun`, which every execution goes through. Steps, Ends
--     and Safety follow a program step by step.
--   * Governance/Consumers: src/governance/consumers.ts, who a caller is and may write.
--   * Request: src/whmcs/request, the classifier of failures, the retry policy, and the loop of
--     `WhmcsRequestPipeline.execute` over an arbitrary transport.
--   * Auth: src/auth/scopes.ts, the OAuth scopes that a write scope's risk requires of a token.
--   * ReadCache: src/whmcs/readCache.ts. RateLimiter: src/rateLimiter.ts.
--   * Prelude: shared helpers. `JsMap` is JavaScript's `Map` in insertion order, `JsNumber` its
--     numbers. Json: JSON values.
--
-- Conventions. A clock, a random id and a hash are arguments. Times are natural numbers of
-- milliseconds. Money is an integer number of cents, tokens of the rate limiter are thousandths:
-- rounding of the binary number format is not modelled. A method that changes an object returns the
-- changed object. Reads that the code starts together are made in sequence. Writing to a file
-- succeeds except for the audit log, and a file is the list of its parsed lines or snapshot entries.
--
-- The only loop on fuel is that of the request pipeline. It has five turns, for a read's three
-- ordinary attempts and its two repairs. All other loops are structural.
--
-- Not modelled: the lock between concurrent credit transfers, the branches of `executeRun` for
-- credit transfers and direct database transfers (arguments of the dispatch), the one-call tools of
-- the write flow, the validation of parameters, projection and planning, the read coordinator, token
-- verification, and the input and output of servers, files, SSH and SQL. Error texts, logs and
-- telemetry are left out, and the long notes of a transfer are shortened.
pub mod Prelude
pub mod Json
pub mod Write
pub mod Request
pub mod Auth
pub mod ReadCache
pub mod RateLimiter
pub mod Governance
