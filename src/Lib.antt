-- ===== src/Lib.antt =====
-- Ghost Bazaar: the negotiation engine of packages/engine, with the parts of packages/core that it
-- calls.
--
-- A buyer posts an RFQ, sellers post offers, the buyer sends counter-offers and accepts one offer, and
-- both sign the quote. Every such act is an event. The engine keeps one append-only log of events per
-- session; the state of a session is the fold of its log (state/session.ts), guarded by a transition
-- table (state/state-machine.ts). A route checks a request, takes the lock of the session, checks again
-- and appends one event (state/session-manager.ts), which the store writes to the log and sends to the
-- subscribers that may see it (state/event-store.ts, state/visibility.ts). A scanner ends sessions that
-- are past their deadline and takes back commitments that nobody cosigns (deadline-enforcer.ts).
--
-- Which file models what, with paths below packages/engine/src unless they say otherwise:
--   Prelude: Boolean tests, lists over the native numbers, results, JavaScript's Map as an association
--     list, JSON values, tests on texts.
--   Core/External: the libraries that the packages call, as one record of functions: the date parser,
--     decimal.js, Ed25519 and base58, the proof verifier, SHA-256, JSON.stringify.
--   Core/Amounts: packages/core/src/amounts.ts. Core/Schemas: packages/core/src/schemas.ts.
--   Engine/Types: types.ts. Engine/StateMachine: state/state-machine.ts.
--   Engine/Session: state/session.ts. deriveState is open_session on the first event and apply_event on
--     each other one; handle has one function per case of the switch.
--   Engine/Visibility: state/visibility.ts. Engine/EventStore: state/event-store.ts, one function per
--     method; a Set that a closure keeps is a cell of a heap.
--   Engine/SessionManager: state/session-manager.ts: getSession with its cache, appendEvent with its dry
--     run, evictStaleCache, and the bookkeeping of withLock; below it SessionLock, the FIFO lock of one
--     session, with its queue and its timeouts.
--   Engine/Http: middleware/error-handler.ts, middleware/require-state.ts,
--     middleware/validate-signature.ts, util/currency.ts, and the frame of a handler under withLock.
--   Engine/ControlEnvelope: security/control-envelope.ts.
--   Engine/Routes: routes/rfqs.ts, offers.ts, counters.ts, accept.ts with util/quote-builder.ts,
--     quote-sign.ts, cosign.ts and decline.ts. Of each route there is check_…, the part before the lock,
--     decide_…, the part under the lock that yields the event, and the whole handler post_… or put_….
--     Routes/Steps collects the decisions as a step relation and runs whole managers.
--   Engine/DeadlineEnforcer: deadline-enforcer.ts, the decision for one session and the two callbacks;
--     Engine/DeadlineEnforcer/Scan, the whole scan with removeLock of the session manager.
--   Core/Quotes: packages/core/src/quote.ts, the verification of a signed quote.
--   Engine/SqliteEventStore: state/sqlite-event-store.ts on a table that is the list of its rows; below it
--     Calls, the calls of the interface of both stores.
--   Engine/ConnectionTracker: util/connection-tracker.ts, the open streams per session and per caller.
--   Engine/ListingStore: registry/listing-store.ts and registry/registry-binding.ts.
--   Engine/AdminAuth: middleware/admin-auth.ts; below it Calls, the sequence of calls of the panel.
--   Engine/Routes/Settle: routes/execute.ts and routes/settle-report.ts.
--   Settlement: packages/settlement/src: errors.ts, nonce.ts, receipt.ts and the verification of the quote
--     in execute.ts; Settlement/Transaction and Settlement/Memo, what execute.ts reads from a transaction;
--     Settlement/Execute, verifySettlement and verifyAndExecute. The chain and the encodings are the
--     record Chain.
--   Examples: one negotiation at concrete data, and each theorem applied to it.
--
-- Choices. Errors are values with the HTTP status and code. The clock, the random ids and the timestamps
-- of a handler are arguments (Moment). A handler reads the session before the lock on one manager and
-- gets the lock on another, so that anything may have happened in between; the section under the lock is
-- one step, and sections of the same session never overlap, which is what the lock is for.
-- validateControlEnvelope, which awaits the signature outside the lock, takes the tombstones before and
-- after it apart. What SQLite and the queue of a lock decide is an argument: the order of the session ids
-- and whether the lock is refused to the scan. A value that is no text fails the tests on texts, but for
-- the price, the dates and the nonce of a signed quote and for the budget commitment, which are coerced
-- as the program coerces them; the consumed quote ids are raw values. A date that
-- does not parse is none, and comparisons with it come out as those with NaN do. The numbers of JSON are
-- natural numbers, since
-- the only number that is computed with is the round of a counter-offer. Every recursion is
-- structural, so no fuel is needed and every function is total.
--
-- Not modelled: the route of the event stream, the read-only routes with the registration of listings, the
-- admin routes, the statistics, the enrichment of listings from the registry, the strategies, the proofs in
-- packages/zk, the agents, the MCP server and the front end.
pub mod Prelude
pub mod Engine
pub mod Core
pub mod Settlement
mod Examples
