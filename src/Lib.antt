-- ===== src/Lib.antt =====
-- Context Fabric: the core of the multi-tenant context plane.
--
-- The program takes in records for organizations, keeps them in a ledger, derives search documents,
-- graph edges and authorization tuples from them, and answers reads under authorization and policy.
-- This library models the parts that decide what is kept and who may see it, with the in-memory
-- adapters as the ledger, the index and the authorization provider.
--
-- The parts and their files:
--   Base       maps, counting, sorting, texts: what the parts share.
--   Ports      internal/ports/types.go and ports.go: the records that the parts exchange.
--   Platform   internal/platform/errors.go and org.go: error values and the tenant guard.
--   Policy     internal/policy/policy.go: Evaluate is `evaluate`.
--   Fga        internal/adapters/openfga/memory.go and the name mappings of client.go: Grant,
--              Revoke, WriteTuples, DeleteTuples and `can`. Fga/Model has the rules that the evaluation
--              is meant to follow as derivations, independent of the search: those of
--              contracts/openfga/model.fga without its usersets (a team's or an organization's
--              members as readers or assignees) and without the members and managers that teams and
--              brands have from their organization, none of which the provider in memory evaluates.
--              Fga/Decides relates the two, and Fga/Usersets says under which condition the
--              readers and assignees of the model with usersets are the same.
--   Ledger     internal/adapters/memory/ledger.go: one record `Store`, one function per method.
--              Records, Edges, Tuples (the queue of relationship writes), Outbox, Once (idempotency
--              and inbox) and Feed (changes and audits) have a file each, their theorems below them.
--              The legal holds are those of internal/adapters/memory/credentials.go.
--   Audit      internal/audit/audit.go: what is left out of an audited event.
--   Index      internal/adapters/memory/index.go: the search index and its filters.
--   Sync       internal/authzsync/synchronizer.go: the relationship writes that an edge asks for.
--   Deletion   internal/deletion/deletion.go: the saga, with Run in Deletion/Saga.
--   Credentials  internal/adapters/memory/credentials.go: the keys of agents.
--   Gate       internal/application/authz_gate.go: the checks before an operation.
--   Mapping    internal/mapping/mapping.go: Eval has the expressions, Edges resolveEdges, Apply the
--              function Apply with its ceilings and constraints.
--   Ingest     internal/ingest/ingest.go: the checks and defaults of an intake. Commit has the
--              transaction, writeEdges and ensureEndpoint, Intake the function Intake. Ingest/Intake/Taken
--              says what it is that a request was taken; Ingest/Window is about CheckReplayWindow.
--   Retrieval  internal/retrieval/retrieval.go: Subgraph has visibleSubgraph, batchAllow and the
--              truncation, Graph and Search the two entry points. Local builds the pipeline that
--              cmd/context-fabric/main.go builds, from the in-memory adapters.
--   Delivery   internal/changes/changes.go: pushes to webhooks and the log of attempts.
--   Worker     internal/application/worker.go: authzOnce, projectPayload and, in
--              Relay, relayOnce.
--   Tests      the theorems at concrete inputs.
--
-- How the parts interact: the deletion saga asks the authorization provider, writes the ledger's
-- records, revisions and edges, enqueues relationship deletions by Sync, then removes the index's
-- document and the evidence. The worker claims relationship writes from the ledger's queue and gives
-- them to the authorization provider, and projects outbox events into the index. An intake applies the
-- mapping to its payload and writes, in one transaction of the ledger, the record, its revision, the
-- edges with their relationship writes, the outbox event and the idempotency key. A retrieval asks the
-- identity and the authorization provider and the policy, reads candidates from the index or edges from
-- the ledger, and reads the records that it shows from the ledger.
--
-- How the code is modelled:
--   A time is a number of nanoseconds, 0 for Go's zero time. Readings of the clock and new
--   identifiers are arguments. An `int` that the code tests only against 0 and other counts is a
--   natural number.
--   A floating-point confidence is one of the classes that the code's tests tell apart: below 0, 0,
--   between 0 and 1, 1, above 1, or not a number. Which one it is between 0 and 1 is an opaque number.
--   A Go map is a list of entries with each key once; a `range` loop meets them in the list's order,
--   and no theorem depends on what that order is. A nil map is the empty map, or an `Option` where
--   the code tells them apart.
--   Each method of an in-memory adapter holds its lock to its end, so it is one step on the state.
--   A method that can fail returns its result and the state that it leaves; a transaction of the
--   in-memory ledger does not roll back. An intake changes the ledger and the evidence store, whose
--   state is the list of the Puts that it was asked for.
--   ToLower, TrimSpace and EqualFold are those of ASCII texts.
--   An interface of the code is an argument of the function that calls it: the authorization check,
--   the index's deletion, the evidence store and the legal holds in the saga, the relationship
--   writer in the worker, the HTTP request in the deliveries, the digest of a secret in the credentials.
--   The mapping reads a payload as a tree of JSON values, whose numbers are the texts that the code
--   gives them. The hashes, the signature of a body, times and JSON texts are arguments. The replay
--   window and the difference of two times are kept in 64 bits as the code keeps them.
--   The retrieval's providers are a record of functions; what the theorems use of them is a named
--   hypothesis, which Retrieval/Local proves of the in-memory adapters. The walk over the edges is
--   bounded by the depth of the request, at most 4; the clock is read once in a request.
--   The search `can` marks each (object, relation) that it visits. Its fuel is one more than the
--   number of keys over all stored parents, which Fga/Fuel shows to be enough: the search always ends
--   with an answer.
--
-- Not modelled: the HTTP and MCP surfaces, authentication over the network, the PostgreSQL, OpenFGA,
-- NATS and S3 clients, configuration, metrics and the conformance runners, which are input and output
-- on external services; the worker's tickers and goroutines; signatures over JSON; quotas, whose
-- buckets are floating-point numbers.
pub mod Base
pub mod Ports
pub mod Platform
pub mod Policy
pub mod Fga
pub mod Ledger
pub mod Audit
pub mod Index
pub mod Sync
pub mod Deletion
pub mod Credentials
pub mod Gate
pub mod Delivery
pub mod Worker
pub mod Retrieval
pub mod Mapping
pub mod Ingest
pub mod Tests
