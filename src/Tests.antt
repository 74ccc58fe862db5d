-- ===== src/Tests.antt =====
-- Each property at a concrete input, and the data of these runs.
mod Samples
mod Config
mod Gateway
mod Application
mod Simulation
mod Reload
mod Southbound
mod Objects
mod Acquire
mod Connector
mod Control
mod Commands
mod Polling
mod Artifacts
