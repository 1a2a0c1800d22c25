-- ===== src/App.antt =====
-- internal/app: the server's admission, scheduling, account and usage state.
pub mod Account
pub mod Candidates
pub mod Gate
pub mod Quota
pub mod Flights
pub mod Persist
pub mod Affinity
pub mod Limiter
pub mod ClientKey
pub mod Usage
pub mod Relay
pub mod Failover
pub mod PublicModels
