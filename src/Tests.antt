-- ===== src/Tests.antt =====
-- Sample values, tests by evaluation, and the theorems at concrete inputs.
mod Samples
mod Checks
mod Locks
mod Incidents
mod Pools
mod Probes
mod Exchanges
mod Ticks
mod Daos
mod Notifiers
mod MonitorApis
mod StatusPages
mod Https
mod Uptimes
mod Accounts
mod Envelopes
