-- ===== src/Examples.antt =====
-- The properties at concrete inputs, and tests of the definitions.
mod Workflow
mod Judgment
mod Decimals
mod Specs
mod Approval
mod Services
mod Intakes
mod Lineage
mod History
mod Reviews
mod Lots
mod Idempotency
mod Snapshots
mod Traceability
mod Reservations
