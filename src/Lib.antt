-- ===== src/Lib.antt =====
-- dipper negotiates indexing agreements between a payer and indexers. A request asks for a number
-- of candidates on a deployment; the service registers an agreement with each indexer it
-- chooses, offers it on chain, follows its acceptance and its end, and cancels it when it is
-- no longer wanted. The state is in PostgreSQL, and the work goes through a queue of jobs there.
--
-- The parts that are modelled, the files that model them, and the code they follow:
--
-- Registry: the tables of agreements, requests and pending cancellations
-- (dipper-pgregistry/src/postgres.rs, indexing_agreement.rs, indexing_request.rs). A table is
-- the list of its rows; each method of PgRegistry is a function with the method's name from
-- the rows before to a result with the rows after. `now` is the database clock. Registry/Types
-- has the rows, Registry/Transitions the status writes, Registry/Ends the audit columns and
-- the reopening, Registry/Reconcile apply_reconciliation and its batch (Registry/Batch
-- compares a batch of one with a single one), Registry/Registration the inserts, and
-- Registry/Requests the targets, and Registry/Queries the SELECTs with their
-- order and limit; Registry/Declined has the windows of the declined indexers, and
-- Registry/Listener the row of the chain listener and the indexers without DIPs info.
-- The partial unique indexes, the primary keys and the foreign keys of
-- dipper-pgregistry/migrations are checks on the rows that a statement leaves; a statement
-- that fails leaves its table as it was, as its transaction rolls back. Conditions of SQL that
-- a NULL makes unknown are optional Booleans. Registry/Lifecycle has the diagram of statuses
-- as an indexed data type and histories of writes; Registry/PerRow and Registry/Outcome read a
-- statement on the one row that it names; Registry/EndAudit and Registry/Targets are on ends
-- and on targets.
--
-- Queue: the job queue (dipper-pgmq/src/postgres.rs, queue.rs, job.rs). A popped job is held by an
-- open transaction, a guard; the committed row stays as it was, locked, until the guard commits
-- or rolls back. Queue/Jobs has the rows, Queue/Store the operations and their histories, and
-- Queue/Ready says apart from the statement which job is next (Queue/Serving, Queue/Invariant).
-- Deserialising a descriptor is a parameter.
--
-- Cancel: cancel_dispatch.rs of bin/dipper-service/src. The chain client's answers and the registry
-- calls that lose their connection are arguments of the model, so the theorems hold for every
-- combination of them. No other writer comes between two calls of one cancel.
--
-- Worker: bin/dipper-service/src/worker. Worker/Backoff has the waits and retry budgets of result.rs
-- (the loop of retries_within_window is a recursion on the 64 iterations that the code allows),
-- Worker/Loop a turn of the loop of service.rs on the queue (Worker/Turns is on what it does to the
-- queue), Worker/Warnings its pacing of re-subscriptions and warnings, and Worker/Pacing with
-- Worker/Caps the caps on offers of
-- handlers/reassess_indexing_request.rs. Worker/Proposals is the handler of
-- handlers/send_indexing_agreement_proposal.rs (Worker/ProposalEnds), Worker/Offers that of
-- handlers/submit_offer.rs (Worker/OfferEnds), where other writers may come while the offer is sent,
-- and Worker/LateAccepts that of handlers/cancel_rejected_agreement_on_chain.rs.
--
-- Supervisor: supervise of bin/dipper-service/src/supervisor.rs, on a timeline of the tasks that
-- end and the requests to shut down. Supervisor/Drain has the loop, Supervisor/Teardown an
-- independent reading of the timeline, and Supervisor/Clean the clean exit. The error texts are
-- left out, all but which task an exit names.
--
-- Chain: the chain listener of bin/dipper-service/src/network/service/chain_listener.rs, with the
-- pages of chain_events.rs. Chain/Snapshots prepares the reconciliation of a snapshot, with its two
-- audit writes and LiveChecks; Chain/Follows applies what is prepared with the registry's
-- apply_reconciliation, and Chain/LiveChecks is on the jobs that it queues. Chain/Cursor and
-- Chain/Pages parse a page and place its cursor (Chain/PageCursor), Chain/Turns and Chain/Drain are
-- one poll, drain_once, with the hold of its cursor (Chain/Settle, Chain/Holds, Chain/Polls and
-- Chain/Window are on polls). Chain/Replaced has the cancels that follow an accept (Chain/LetGo),
-- and Chain/Clock the cap on the chain's time. The parsers of numbers, ids and addresses are
-- parameters, and what fails at each page is an argument.
--
-- Sweeps: the background services of bin/dipper-service/src/network/service that end and replace
-- agreements. Sweeps/Retry has cancel_retry.rs (Sweeps/RetryEnds is on what it takes for an end),
-- Sweeps/Expiration expiration.rs (Sweeps/Expires), Sweeps/Breaker and Sweeps/Liveness
-- liveness_checker.rs (Sweeps/Grace, Sweeps/Outages and Sweeps/Trips are on its breaker,
-- Sweeps/Abandons and Sweeps/Replaces on its agreements). Sweeps/Replace has the replacements that
-- they queue, and Sweeps/Reassignment reassignment.rs (Sweeps/Timing, Sweeps/Passes). They
-- read the tables through Registry/Queries and cancel through Cancel/Dispatch. The chain's and the
-- indexers' answers, the calls that fail or run out of time, and how far a sweep gets are arguments.
--
-- The prelude has what the parts share: tests on numbers, lists, signed columns and the statements
-- of SQL on lists of rows. Examples has concrete data.
--
-- Bounds: a `u64` stored in a BIGINT column is read as the signed number of the same 64 bits;
-- counts that the code keeps far below their width (attempts, offers in flight) are plain
-- numbers, and the queue's invariant shows that a job's attempts never pass its limit, which an
-- `i32` holds. Durations saturate at their largest value.
--
-- A poll reads at most the 1000 pages of MAX_PAGES_PER_DRAIN, which is the number of steps of its
-- recursion; the budget of a sweep is the number of rows that it gets to before its time runs out
-- or it is stopped, any number.
--
-- Not modelled: the loop around the polls with its event sweeps and its sweep of orphans, the other
-- network services (escrow, caches), candidate selection, the rest of the
-- reassessment handler, and what is only I/O (RPC, Kafka, HTTP, configuration, the notification
-- listener).
pub mod Prelude
pub mod Registry
pub mod Queue
pub mod Cancel
pub mod Sweeps
pub mod Worker
pub mod Supervisor
pub mod Chain
pub mod Examples
