-- ===== src/Tests.antt =====
-- The platform in memory, with which the theorems are applied and the code is run at concrete inputs.
pub mod Sorting
pub mod Memory
pub mod Acme
pub mod Pipe
mod InvitationWitnesses
mod InterceptorWitnesses
mod AuthWitnesses
mod TenantWitnesses
mod ProductWitnesses
mod RaceWitnesses
mod RedisWitnesses
mod BootstrapWitnesses
mod BodyWitnesses
mod ServingWitnesses
mod MigrationWitnesses
