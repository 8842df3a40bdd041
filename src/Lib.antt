-- ===== src/Lib.antt =====
-- The outbox of the mail program, its sync engine, the mail tables that sync writes and the writer
-- that both share, the layout of its screen, and parts of the JMAP library: the event stream, result
-- references and two routines.
--
-- The program keeps a local store of an account's mail. A change that the user makes becomes an
-- intent, a row of the store's outbox table, and a dispatcher takes the intents that are due to the
-- server in passes. This library models that path, from the enqueueing of an intent to the write
-- that ends its turn, with every failure that a call on the way can return. The other way, an event
-- stream of the server says that something changed, the push loop of the sync engine waits for it to
-- settle, a sync cycle asks for the changes page by page, and each record becomes a row of the mail
-- tables, in transactions on the bulk lane of the writer, which the outbox's go before.
--
-- The files, and the code that each is about:
--   * Uerr: internal/uerr/uerr.go. `Class`, `peel` (Peel), `new` (New). An error is a value of `Err`.
--   * Store: internal/store/writer.go, apply.go and revision.go. `apply_interactive`
--     (ApplyInteractive, enqueue, execute) and `apply` (Apply) run one transaction, `query` one read.
--     The list `faults` says how SQLite or the context answers to each access in turn; an access past
--     its end is clean.
--   * Store.Lanes: the goroutine of writer.go (run) with its two lanes, its timer and Close, as a step
--     relation. A job is its number, and what it does is Store.
--   * Backend: the part of `Mail` in internal/backend/backend.go that the outbox calls, as a record
--     of operations over a server state. Theorems hold for every such record.
--   * Outbox.Payload: internal/outbox/outbox.go. `Json` is encoding/json at the four payloads.
--   * Outbox.Row: store.go and resolve.go. The table is the list of its rows in id order, and an
--     insert takes the id after the largest.
--   * Outbox.Enqueue and Outbox.Bulk: enqueue.go. A bulk move takes `others`, what the rest of the
--     process commits between two chunks.
--   * Outbox.Undo: undo.go and reclaim.go.
--   * The rest of Outbox is dispatch.go: Failure (isRetriable, backoff, classifyFailure), Claim
--     (claim, resolveClaim), Plan (planBatches), World (what a dispatcher's calls change), Outcome,
--     Dependents (resolveDependentRefs), Create, Move and Batch (the dispatch functions), Pass (the
--     loop of DispatchOnce) and Finalize (finalize, DispatchOnce).
--   * Sync: internal/sync. Kinds (orderKindsForSync), Backoff (backoffDelay, sleepBackoff), Listen
--     (consumePush), Push (pushState), Flush (syncFlushState, runFlush), Echo (echoTracker) and Run
--     (RunPush, reconnect) are push.go and observe.go. A channel is the list of what a `select` takes
--     from it, a run is a list of `Turn`, one for each call of Listen, and the random draw of the
--     backoff is a parameter. Records is apply.go: one record or destroyed id applied. Bulk is bulk.go
--     (runBulkChunks, applyChunked), Cycle is sync.go, resync.go and the rest of apply.go (SyncKind,
--     applyChangeSet, fullResync, deleteStale). The server is the list of its answers to Changes; a
--     cycle for which none is left is `waiting`. `looks` is what RecentInteractiveActivity and the
--     timer say. In Cycle, Progress and Rebuilt say how far a cycle and a resync have come, Synced,
--     Invariant and Converged what holds of the whole. Resync is the walk of deleteStale over the
--     pages by itself.
--   * Store.Mail: the tables of internal/store/migrations/0001_initial.sql for mailboxes, messages and
--     what joins them. Membership, Message and Stale are message_write.go, Mailbox is mailbox_write.go, Role
--     is mailbox_role.go. Join says what message_mailbox should hold, Keyed what the unique indexes
--     hold. `strings.ToLower` after `strings.TrimSpace` is the parameter `normal`.
--   * Store.Flags: internal/store/flags.go.
--   * Ui.Screen and Ui.Layout: internal/ui/layout.go with the two constants that it takes from
--     internal/theme/spacing.go.
--   * JmapSource: internal/backend/jmapsource/errors.go (classify, classifyRetried, episodeState,
--     statusOf, isConnectionDead) and do of session.go. An error is the chain of what it unwraps to.
--     JmapSource.SetErrors: classifyMutationFailure, classifyMailboxCreateFailure.
--   * Jmap.Splice: Splice of jmap/querychanges.go. Jmap.Pointer: Pointer of jmap/patch.go, over
--     the bytes of its segments. Jmap.Patch: Patch.validate of that file, over the sorted keys.
--   * Jmap.Resolve: jmap/resolve.go (Resolve, evalPointer, evalTokens, evalWildcard, arrayIndex). A JSON
--     value is of any type `V`; `Json V` is what encoding/json reads of it.
--   * Jmap.Events: jmap/eventstream.go. `scan_event_lines` (scanEventLines), `scan` (the scanner of the
--     standard library around it), Reader (eventReader, next). Jmap.EventSource: jmap/eventsource.go.
--     `cadence`, `stall_window`, `bound` (backoff.bound) and `consume`, one connection of Listen, whose
--     callbacks and timer settings are the list that it gives. Text is bytes, JSON is a parameter.
--   * Tests has concrete runs and an instance of each theorem that has hypotheses.
--   * Prelude has results, state passing with an early return, and lists.
--
-- A dispatch function is a body in the monad of Prelude.Results: it passes the world on, and its
-- early returns carry the outcome. `Exits` and `Keeps` are the rules for such a body, what it
-- returns and what it keeps of the state. Child modules hold proofs: X.Subject is about the intents
-- that X reports on, X.Rows about what X writes to the table.
--
-- Numbers: an int64 key is a natural number, and 0 stands for none as in the code. A time is in
-- nanoseconds since the epoch, and `unix` divides it down to seconds. The shift of `backoff` wraps
-- at 2 ^ 64, and its sign bit is read as the code reads it, as is the doubling of `backoff_delay`; the
-- products of Jmap.EventSource wrap there too. No other arithmetic of the code comes near its word's
-- size, and it is not wrapped here.
--
-- Fuel: `resolve_loop` has one round for each row of the table and one more. A round that examines
-- a row moves the cursor past it, and nothing inserts in between, so the last round examines none.
-- `chunks_loop` has one round for each message, and a round takes at least one. `delete_stale_from`
-- has one round for each row of the two tables and one more, and a round that reads a row moves past
-- it. `scan_by` has one round for each byte, and a line takes a byte at least; `consume_from` has one
-- for each line and one more, and an event takes a line at least. The pages of a cycle need no fuel:
-- they are as many as the server answers.
--
-- Not modelled: the text of encoding/json and of `%q`, which are parameters; lines that slog writes
-- other than those of `uerr.New` and the recovery of a kind's sync; SQLite's rollback, so that a closure
-- that fails leaves the value that the database held, and the call of Rollback has no part in that; what the checkpoints of the writer do, and its warning about a slow
-- transaction; a cancelled context other than as a fault, a look or an event; the wrappers that run
-- one enqueue in its own transaction; the text of the errors of apply.go; what other callers write to
-- the tables between two transactions of a sync cycle; of the store, the queries for display,
-- migrations and recovery; of the event stream, the scanner's bound on one line, the HTTP exchange of
-- `connect` and the loop of Listen; and every other package: the rest of the JMAP backend
-- and of the JMAP library, the interface apart from its layout, and the commands.
pub mod Prelude
pub mod Tests
pub mod Uerr
pub mod Store
pub mod Outbox
pub mod Backend
pub mod Jmap
pub mod JmapSource
pub mod Sync
pub mod Ui
