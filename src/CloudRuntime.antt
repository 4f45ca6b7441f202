-- ===== src/CloudRuntime.antt =====
-- packages/cloud-runtime/src: how the cloud answers messages for the agents of its tenants. The
-- children are the request of a message, the dispatch of one message, the queue, and the audit
-- rows under concurrent writers; then what they show.
pub mod Request
pub mod World
pub mod Guards
pub mod Decision
pub mod Delivery
pub mod Inbound
pub mod Envelope
pub mod Queue
pub mod Oldest
pub mod Drained
pub mod Emptied
pub mod Outcome
pub mod Cases
pub mod Effects
pub mod Audited
pub mod Tenancy
pub mod Usage
pub mod Fate
pub mod Signed
pub mod PostgresAudit
pub mod Listed
pub mod Verified
pub mod Atomic
pub mod Refines
mod Tests
mod RaceTests
