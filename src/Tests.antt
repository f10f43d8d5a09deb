-- ===== src/Tests.antt =====
-- Concrete runs of the modelled code, and each theorem at an input that meets its hypotheses.
mod Policies
mod Grants
mod Commands
mod Deliveries
pub mod Machines
pub mod Delegations
mod Sessions
mod Links
pub mod Attachments
mod Shutdowns
mod Clients
mod Probes
mod Reviews
mod Renderings
mod Observations
pub mod Registries
