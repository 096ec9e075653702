-- ===== src/UpNodes/Faults.antt =====
-- What goes wrong with user-plane nodes in src/oai_spgwc/PfcpUpNodes.cpp and
-- src/oai_spgwc/pgw_pfcp_association.cpp.
pub mod Stuck
pub mod Unwatched
pub mod Unselected
pub mod Lost
