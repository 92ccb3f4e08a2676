-- ===== src/Examples.antt =====
-- Concrete inputs, and the theorems of this library at them.
mod Accesses
mod Inputs
mod Computed
mod Witnesses
mod Codes
mod Agents
mod Listing
mod Provisioning
mod Approvals
mod Environments
mod Sessions
mod Queries
