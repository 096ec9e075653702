-- ===== src/Examples.antt =====
-- Runs of the models at concrete inputs.
mod Uids
mod Timers
mod Tasks
mod Pools
mod Headers
mod Pfcp
mod Gtpv2c
mod Maps
mod UpNodes
mod Pgw
