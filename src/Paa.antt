-- ===== src/Paa.antt =====
-- src/oai_spgwc/pgw_paa_dynamic.hpp: the pools of addresses for mobiles, and which pool an access
-- point name takes its addresses from.
pub mod Ipv4Pool
pub mod Ipv6Pool
pub mod PaaDynamic
