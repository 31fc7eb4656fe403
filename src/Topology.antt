-- ===== src/Topology.antt =====
-- internal/ai/cmdb/topology.go: which service depends on which.
pub mod Merge
pub mod Serve
pub mod Edges
pub mod Nodes
pub mod Closed
pub mod Served
mod Scenarios
