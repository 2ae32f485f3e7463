-- ===== src/Lib.antt =====
-- parchment: a work graph of artifacts (notes, tasks, decisions, rules) that agents and people share.
-- Artifacts carry labels, sections, annotations and free extra values; edges of named relations link them;
-- every change of content leaves a revision and every step of the work an event.
--
-- The program keeps its state behind the Store interface (store.go). The protocol (protocol_*.go) adds the
-- rules of the work graph to it: which links are allowed, which would close a cycle, what the labels grant.
-- This library models the in-memory store, which is the reference for the interface, and the parts of the
-- protocol that decide on the graph. A store is a record, an operation is a function from store to store
-- with its answer, and the clock is an argument. Each operation of the in-memory store holds one lock
-- while it runs, so a run of the program is a sequence of these steps (Store.Valid.Reachable).
--
-- The parts, and the files that model them:
--   Prelude, Dict           shared tests, list and text functions, sorting; Go maps as association lists;
--                           Prelude.Scanning and Prelude.Words hold the scanners of the standard library
--   Artifact                artifact.go: artifacts, sections, annotations, extra values, and the test of
--                           equal content of memstore.go
--   Artifact.Labels         artifact.go: labelValue, mirrorLabel, statusFromLabels, setStatusLabel
--   Artifact.Filter         artifact.go: Filter.Matches and Filter.MatchLabels
--   Artifact.Claim          claim.go: ClaimFromExtra, ClaimActive, ApplyClaim, ClearClaim
--   Store                   memstore.go: the state of MemoryStore
--   Store.Artifacts         Put, BulkPut, Get, Delete, List, PutIfVersion
--   Store.Revisions         appendRevision, snapshotIfChanged, the queries, PruneRevisions, PurgeRevisions
--   Store.Patch             PatchArtifact, with the array and the map that its snapshot shares
--   Store.Rename            RenameID
--   Store.Aliases           GetByAlias, AddAlias, RemoveAlias, ListAliases
--   Store.Edges             AddEdge, AddEdgeSource, RemoveEdgeSource, UpdateEdgeWeight, Neighbors, ListEdges
--   Store.Walk              Walk and walkRecursive
--   Store.Queries           Children, NeighborArtifacts, ListByLabel
--   Store.Summary           ScopeGraph, KindGraph
--   Store.Pages             ListPage, and encodeCursor and decodeCursor of sqlite_read.go
--   Store.Events            eventlog.go and memstore.go: AppendEvent, GetEvents
--   Store.Access            RecordAccess, GetMetrics, BulkGetMetrics
--   Store.Attachments, Store.Scopes, Store.Embeddings
--                           attachments, labels of scopes, embeddings
--   Store.Valid             the invariant, that every operation keeps it, and the reachable stores
--   Protocol.Cycle          protocol_graph.go: wouldCycle
--   Protocol.Rules          relationship.go, protocol_lifecycle_traits.go: findRelationship and its readers
--   Protocol.Checks         protocol_graph.go: the checks of LinkArtifacts
--   Protocol.Link, Protocol.Unlink
--                           protocol_graph.go: LinkArtifacts, UnlinkArtifacts
--   Protocol.Emit           eventlog.go: emitEvent
--   Protocol.Traits         label_trait.go: ExpandLabels, ResolveTrait, mergeComposedTrait
--   Protocol.Wikilink       wikilink.go: the parser of [[links]], resolveTitle, SyncWikilinks; Search of
--                           memstore.go
--   Protocol.Kinds          protocol_lifecycle_traits.go: what a kind and a status grant
--   Protocol.Statuses       protocol_lifecycle_traits.go, protocol_lifecycle.go: KindLifecycle,
--                           AllowedStatuses, ValidateStatus, isValidTransition
--   Protocol.Predicates     rule.go: ParseRule, LoadRules, EvaluateRule, matchesPredicate; its child Seeds
--                           the rules that are written at the start
--   Protocol.Templates      protocol_template.go: resolveTemplate, the checks of conformance,
--                           findTemplateForKind
--   Protocol.Admission      protocol_lifecycle.go, rule.go, plugin_effort.go: the checks that
--                           setStatusForce makes before it writes: lifecycle, rules, quality gates
--   Protocol.Transition     protocol_lifecycle.go, plugin_effort.go: setStatusForce with what follows a
--                           change: autoCompleteParent, completionRollup, reopenAncestors
--   Protocol.Parent         protocol_graph.go, protocol_lifecycle.go: wouldCycleParent, setFieldParent
--   Protocol.Compliance     compliance.go: StampCompliance
--   Protocol.Sections       protocol_crud.go: AttachSection, GetSection, DetachSection, ContentHash
--   Protocol.Edits          protocol_lifecycle.go, schema.go: the fields that setFieldSingle changes in the
--                           artifact itself
--   Protocol.Fields         protocol_lifecycle.go, protocol_crud.go: SetField, GetArtifact, MigrateID
--   Examples                small stores on which the theorems are applied
--
-- How Go is read. A Go map is an association list and its iteration order is the order of the list;
-- where a result must not depend on that order a theorem says so. A slice is a list. A time is a number of
-- nanoseconds, 0 the zero time. Counters are natural numbers: they would need 2^63 steps to overflow. The
-- weight of an edge is a number of some unit, since the code only stores it. Text functions work on
-- characters; the order of texts is that of Go, byte by byte, which for UTF-8 is that of the characters.
-- An error is a value of a result type, without the text of its message where no caller reads it. Logging
-- is left out.
--
-- Sharing. Get copies the struct of an artifact only, so its sections and its extra values are those of the
-- store. Where a handler writes into them before Put, Protocol.Sections writes what the stored artifact
-- sees, and Store.Patch does the same for PatchArtifact.
--
-- A range over a map that the program repeats visits the keys anew at random each time; here nested ranges
-- over one unchanged map (walkRecursive) and the first edge of a range (`edges[0]` in autoCompleteParent and
-- reopenAncestors) follow the order of the list. PruneRevisions takes a natural number.
--
-- Fuel. walkRecursive recurs on fuel, one more than the number of ends of edges, and answers `none` when it
-- runs out. Each nested call has visited one more end, so it never does (Store.Walk.Unseen,
-- Store.Walk.Total); Store.Walk.Cut is the same walk without this answer, for the proofs. setStatusForce and
-- the handlers that it runs call one another, and reopenAncestors and wouldCycleParent loop over parents; no
-- bound is in the code, so these take fuel and answer `none` when it runs out. Where the chains of parents
-- have at most h steps, 3h + 2 nested calls and h + 1 rounds are enough (Protocol.Transition.Ends,
-- Protocol.Parent.Guard). LinkArtifacts and SetField pass their fuel on.
--
-- Parameters. Store.Pages takes Time.Format as an argument; the theorem on pages assumes that the texts
-- order the times. Artifact.Claim takes Time.Format and time.Parse, and assumes that the expiry survives
-- both. Store.Patch takes the runtime's growth of arrays. Protocol.Traits, Protocol.Wikilink and
-- Protocol.Sections take the order in which the runtime ranges over a map.
-- Protocol.Wikilink takes the case folding of texts, Protocol.Predicates the message of a rule that has
-- none, Protocol.Admission the quality gates, Protocol.Transition the clock as a function of the number of
-- its readings, Protocol.Sections the hash of a text, Protocol.Edits time.Parse and the generator of
-- identifiers.
--
-- Not modelled: the SQL store and its drivers (the state is in the database), the embedding service,
-- similarity search in floating point, the registries that load YAML, creation, listing and administration
-- handlers of the protocol, the hooks of templates at creation, lenses, the scores of eviction, the
-- completion score in floating point, exports and rendering, and the texts of messages.
mod Prelude
pub mod Dict
pub mod Artifact
pub mod Store
pub mod Protocol
pub mod Examples
