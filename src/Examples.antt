-- ===== src/Examples.antt =====
-- Concrete runs of the components: every theorem with conditions holds of something.
mod Rib
mod Flows
mod Relaying
mod Names
mod Messages
mod Routes
mod Topology
mod Joining
mod Processes
