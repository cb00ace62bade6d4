-- ===== src/Lib.antt =====
-- Tracegarden: the rules of a workspace that watches a Kubernetes cluster.
--
-- The parts and how they meet. A person comes in through the admission store, which decides who is a
-- member, with which role and capabilities, and keeps sessions and an audit trail. The collector
-- watches the cluster and turns resources into observations, which the timeline store ingests in
-- batches, each once, with the position of the collection it came from. Members write experiments.
-- Between the entries of the timeline the code suggests correlations, on which members decide; they
-- review Attention Items; and a retention policy deletes old observations, but none that a
-- confirmed link protects.
--
-- Which file models what. Paths are those of the repository.
--   Prelude: JavaScript strings as lists of UTF-16 code units (`===`, `<`, `trim`), `Map` as an
--     association list in the order of insertion (Dict), `unknown` values (Value), dates (Dates),
--     results or exceptions (Result).
--   Identity: packages/identity/src/index.ts, roles (`roleCapabilities`, `requireCapability`),
--     external identities (`identityKey`), emails, and the claims of an access token.
--   Admission: `MemoryAdmissionStore` of packages/db/src/index.ts; `admit`, `getSession`,
--     `createInvitation`, `revokeInvitation`, `assignMemberRole` and `recordLogAccess` are `admit`,
--     `get_session`, `create_invitation`, `revoke_invitation`, `assign_member_role` and
--     `record_log_access`, which take the store and return the next one. Trace runs sequences of
--     them.
--   Domain: packages/domain/src/index.ts. Experiment is `validate` and what it calls, Lifecycle
--     `createExperimentRecord` and `updateExperimentRecord`, Correlation
--     `correlationSignalsBetween` and `suggestCorrelationCandidates`, Retention
--     `parseRetentionDays`; Names the patterns of Kubernetes names.
--   Cluster: of packages/cluster/src/index.ts the records, `markRecovery` and the order of resource
--     versions, with the tests that the store and apps/collector/src/main.ts make by it; Scope is
--     `validateClusterScopeInput`, the store of a scope and `configureClusterScope`; Resources is
--     `KubernetesResource` with what is abnormal about it, Normalize `normalizeObservation` and
--     `collectScopedResources`, and Normalized and Limits hold the proofs on them.
--   Timeline: `MemoryObservationStore` of packages/db/src/index.ts. Ingest is
--     `recordObservationsInternal`, Recording the methods around it, `createExperiment` and
--     `updateExperiment`, Checkpoints the methods on positions, Reviews
--     `reviewAttentionItem`, Decisions `refreshCorrelationSuggestions` and
--     `decideCorrelationSuggestion`, Retention `cleanupRetention`; Queries is `entryMatchesQuery` and
--     the order of entries, Requests `parseTimelineQuery`, Cursors the signed cursors, Pages `pageFromEntries`, `listTimelineEntries`
--     and `countTimelineEntriesAfterCursor`, whose loop takes the number of pages as fuel; as many
--     pages as entries are enough. `btoa`, `atob`, `TextEncoder`, `TextDecoder`, `JSON` and HMAC are the
--     parameters of a platform. The other files there hold proofs: Keyed, Linked, Batches and
--     Replaced the invariant of ingestion, Cleanup, Deletions and History what a cleanup keeps of
--     it, Mirrors the entries of experiments, Unread the reviews, Decided, Found and Final the
--     decisions, Policies the retention policy, Ascending, Positions, Splits, Behind, Paged and
--     Counted the pages, Requested the requests for them, and Opened the cursors.
--   Delivery: packages/delivery/src/index.ts. Quantities, Previews, Admissions, Environments and
--     Promotion are its functions in order, on the floating numbers of Doubles, which are whole and
--     rounded to 53 bits or infinite; Numbers, Reserved, Budget, Refusals, Reconciled and
--     Justified hold proofs.
--   Telemetry: packages/telemetry/src/index.ts. Names, Labels, Runtime and Metrics are its functions,
--     Signals its types; Steps runs sequences of calls of a runtime and of its spans, Kept lifts what
--     a signal and an update keep to such runs, and Exportable, Attributes, Escaping, Series, Recent,
--     Exports, Spans and Totals hold proofs.
--   Logs: packages/logs/src/index.ts. Window is `validateRecentLogWindowInput`, Lines
--     `boundRecentLogWindow`, Stream `readBoundedResponse`, Request `requestRecentLogWindow`; Utf8 is
--     the encoder and the decoder of the platform. Parsed, Spaces, Boundaries, Cut, Decoded, Bounds,
--     Feeds, Windows, Chunks and Guarded hold proofs.
--   Scenarios: concrete stores, on which the theorems are applied.
--
-- What stands for the engine. `Date.parse` and `toISOString` are a record of two functions with the
-- rule that a date's own text is parsed back; `toLocaleLowerCase`, `Number` on a text and the
-- platform's parser of addresses are functions; what `randomUUID` and the clock return is an
-- argument of each call. The numbers of metrics, which are floating, are a type with the operations
-- that the code uses, and `localeCompare` is a function. An instant is a number of milliseconds from
-- the earliest date, so a cutoff before it is an error, as in the source. Every loop is a recursion
-- over the list that it runs through, but the count of pages, whose fuel is given above, the
-- digits of a number, of which 16 are enough for a safe integer, and the halvings of a number that is
-- rounded: after 970 of them every number below 2^1024 has at most 55 bits, and what is larger is an
-- infinity. An audit record that cannot be written is an outcome of the store, which may have kept
-- the record or not.
--
-- A method that is marked `async` is one step: what it waits for, the scope of the cluster, is part of
-- the state, and what it writes is written without waiting. Copies that the code makes to keep
-- callers from its records are left out, since values do not change. Listeners are left out: they
-- cannot affect what is stored.
--
-- Not modelled: the Postgres stores, whose logic is SQL; the readiness probes; the web server and its
-- views; the adapters for Better Auth, Google and Kubernetes, which
-- call libraries; the projection of the responses of the cluster and the buffer of its watch; the
-- watch loop of the collector; listeners and their notifications; scripts and charts.
pub mod Prelude
pub mod Identity
pub mod Admission
pub mod Domain
pub mod Cluster
pub mod Timeline
pub mod Delivery
pub mod Telemetry
pub mod Logs
pub mod Scenarios
