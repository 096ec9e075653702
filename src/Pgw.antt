-- ===== src/Pgw.antt =====
-- src/oai_spgwc/pgw_context.cpp and the tables of src/oai_spgwc/pgw_app.cpp: the PDN connections of the
-- mobiles, their bearers, and the tunnel endpoints and addresses that they hold.
pub mod Bearers
pub mod State
pub mod Contexts
pub mod Requests
pub mod CreateSession
