-- ===== src/Tests.antt =====
-- Concrete instances of the parameters, and runs of the theorems on concrete inputs.
pub mod Memory
pub mod Laws
pub mod Data
pub mod Server
mod Names
mod Policy
mod Sharing
mod Zones
mod Requests
mod Access
mod Changes
mod Api
mod Records
mod PowerDns
mod Reconcile
mod Upstream
mod Listing
mod Transfer
mod Keys
mod Setup
mod Script
