-- ===== src/Tests.antt =====
-- Runs at concrete inputs, and each theorem at an input where its hypotheses hold.
mod Reference
mod Values
mod Conversions
mod Calls
mod Batches
mod Traces
mod Leases
mod Setup
mod Runs
mod Waits
mod Stops
mod Races
mod Beats
mod Systems
mod Services
mod Fleets
