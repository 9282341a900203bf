-- ===== src/Storage.antt =====
-- internal/storage/postgres: the stores over one PostgreSQL database.
pub mod Db
pub mod Outbox
pub mod Mutation
pub mod Quota
pub mod Creation
pub mod Metering
pub mod Invoice
pub mod Workspaces
pub mod Tokens
pub mod Clusters
pub mod Reads
