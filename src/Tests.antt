-- ===== src/Tests.antt =====
-- Runs of the model on concrete inputs, and each theorem at an input that meets its hypotheses.
mod Bench
mod Buffers
mod Mappings
mod Surfaces
mod Imports
mod Stack
mod Template
mod Loading
mod Names
mod Clients
mod Holdings
mod Callbacks
mod Sessions
mod Systems
