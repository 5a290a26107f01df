-- ===== src/Tests.antt =====
-- Runs of the model on concrete inputs, and the theorems applied to them.
mod Messages
mod Sending
mod Updating
mod Reconciling
mod Persisting
mod Redacting
mod Graphing
mod Delivering
mod Publishing
mod Scheduling
mod Routing
mod Requesting
