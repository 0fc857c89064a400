-- ===== src/Routes/Changes.antt =====
-- Sequences of the calls that change rules and delegations (internal/routes_policy.go and
-- internal/routes_delegation.go), one request after the other.
mod Steps
mod States
mod Writes
pub mod Valid
pub mod Untouched
pub use Steps.*
pub use Writes.*
