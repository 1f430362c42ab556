-- ===== src/Examples.antt =====
-- Runs of the model at concrete inputs.
mod Orchestrating
mod Reporting
mod Cloud
mod Messages
mod Running
mod Edge
mod Settings
mod Domains
mod Updating
mod Connecting
mod Loading
