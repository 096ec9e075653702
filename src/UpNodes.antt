-- ===== src/UpNodes.antt =====
-- src/oai_spgwc/PfcpUpNodes.cpp and src/oai_spgwc/pgw_pfcp_association.cpp: the user-plane nodes that
-- the gateway drives, their PFCP associations and their heartbeats.
pub mod NodeId
pub mod Fseid
pub mod Node
pub mod Associations
pub mod Registry
pub mod Nodes
pub mod Heartbeats
pub mod Invariant
pub mod Faults
pub mod Rounds
