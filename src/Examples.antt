-- ===== src/Examples.antt =====
-- The theorems at concrete inputs, and tests of the definitions.
mod Data
mod Policies
mod Requests
mod Rollouts
mod Tenants
mod Engines
mod Budgets
mod Streams
mod Pipeline
mod Steps
mod Files
