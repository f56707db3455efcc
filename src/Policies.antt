-- ===== src/Policies.antt =====
-- src/policies: the scheduling, QoS and routing policies.
pub mod Fifo
pub mod Priority
pub mod Qos
pub mod ShortestPath
