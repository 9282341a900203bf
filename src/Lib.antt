-- ===== src/Lib.antt =====
-- The Go control plane of a GPU rental platform (apps/control-plane): tenants, projects and quotas
-- in PostgreSQL, changed by idempotent mutations that announce themselves in an outbox.
--
-- Parts, and the files that model them (source paths are below apps/control-plane/internal):
--   Common          lists as tables, texts, integers, and the result of a Go call
--   Identity        identity/uuid.go; the random generator is a parameter, `Entropy`
--   ClusterState    clusterstate/state.go: when a cluster is connected and schedulable
--   Tenancy         tenancy/model.go and repository.go: records and constants
--   Authorization   authorization/postgres.go, and the rules on new role bindings in
--                   storage/postgres/tenancy.go; Policy has the rules of access as relations
--   Billing         billing/fixed.go: rates, and the price of a usage fact; `big.Rat.SetString` is a
--                   parameter
--   Storage.Db      the tables of migrations/*.sql that the modelled statements read or write
--   Storage.Outbox  storage/postgres/repository.go: `Claim`, `MarkDelivered`, `MarkFailed` and
--                   `MarkDeadLettered`
--   Storage.Mutation  storage/postgres/tenancy.go: `acceptMutation`, with `CreateInTx` of
--                   repository.go: the mutation itself, the operation, two events, the audit row and
--                   the idempotency record in one transaction
--   Storage.Creation  `CreateTenant`, `CreateProject` and `CreateRoleBinding` as such mutations
--   Storage.Quota   `SetQuota` as such a mutation, and `ReserveQuota`, `CommitQuotaReservation` and
--                   `ReleaseQuotaReservation`
--   Storage.Metering  storage/postgres/budgets.go, metering.go and credits.go: `SetBudget`,
--                   `CreateUsageFact` and `CreateCreditAdjustment`; the billing engine and
--                   `json.Valid` are parameters
--   Storage.Invoice  storage/postgres/billing.go: the lines of an invoice and their sum
--   Storage.Workspaces  storage/postgres/workspace.go: workspaces and their snapshots, the GPUs they
--                   take from the quota, and the statements of a reconciliation; Reconcile is
--                   workspace/reconciler.go
--   Storage.Tokens  storage/postgres/workspace.go: access tokens; their encoding and the SHA-256 sum
--                   are parameters
--   Storage.Clusters  storage/postgres/catalog.go: clusters, their heartbeats and accelerator profiles
--   Storage.Reads   the reads of one row in storage/postgres
--   Workspace       workspace/repository.go, manifest.go (the objects of a workspace) and runner.go
--                   (what becomes of a claimed event); the fleet manager is a parameter
--   AuditArchive    auditarchive/archive.go; the store of objects, the export of the rows and Go's
--                   functions on times, paths and hashes are parameters
--   SharedIsolation  sharedisolation/manifest.go: the objects that keep a project apart, and what their
--                   network policies let through, by the documented meaning of such policies
--   Catalog         catalog/model.go, repository.go and validate.go
--   A directory beside a part holds its laws and a file Tests of runs on concrete data.
--
-- State and calls. A store call maps the tables to an outcome: an error, after which the deferred
-- Rollback leaves the tables as they were, or a result with the tables of its commit. The locks of
-- the statements (FOR UPDATE, the advisory lock on an idempotency key, SKIP LOCKED) make calls on
-- the same rows follow one another, so that a run is a sequence of calls: the data types Step and
-- Reach. Where no lock does so, the reads are arguments of their own: the ledger that `SetBudget` sums
-- and the one that `GetBudget` reads, and what others do between the statements of a reconciliation. PRIMARY KEY, UNIQUE, CHECK and foreign keys that a statement can violate are tests in the
-- statement. A CHECK that the code has tested before is left out. The time of a call and the random
-- bytes are arguments; the clock that one call reads twice gives one time. Functions are structural
-- recursions on lists, and the greatest common divisor recurs on a well-founded order, so that
-- nothing runs on fuel. Sums of quotas stay within a hard limit, which is a 64-bit column; amounts
-- of money are checked against 64 bits where the source checks them.
--
-- Not modelled: errors of the connection and of JSON encodings, the polling of the runners, the
-- HTTP interface, authentication and configuration, the replacement of an inventory and the
-- capacity pools, placement, the states of a project's isolation, the writing of invoices, the
-- export of the audit rows and its configuration, the client of the fleet manager and the add-on.
pub mod Common
pub mod Identity
pub mod ClusterState
pub mod Tenancy
pub mod Workspace
pub mod Catalog
pub mod Authorization
pub mod Billing
pub mod SharedIsolation
pub mod AuditArchive
pub mod Storage
