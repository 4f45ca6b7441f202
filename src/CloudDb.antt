-- ===== src/CloudDb.antt =====
-- packages/cloud-db/src: the database of the cloud service, shared by its tenants. Each tenant
-- reaches it by the methods of `withTenant` (tenant-db.ts). A table is the list of its rows in the
-- order of insertion; an `orderBy` is a stable sort; the ids that the database draws, and its
-- clock, are arguments. The children are its tables, its methods, and what they show.
pub mod Tables
pub mod Rows
pub mod Order
pub mod Agents
pub mod Connections
pub mod Records
pub mod Identity
pub mod Registrations
pub mod Messages
pub mod Quota
pub mod Calls
pub mod Isolation
mod Tests
