-- ===== src/Tests.antt =====
-- Runs of the models at concrete inputs.
mod Refresh
mod Resources
mod Pending
mod Pages
mod Search
mod Flights
mod Catalog
mod Settings
mod Sessions
mod Clock
mod Locks
mod Ids
mod Exits
mod Regions
mod Weather
mod Scopes
mod Transfers
