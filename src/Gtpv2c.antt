-- ===== src/Gtpv2c.antt =====
-- src/gtpv2c: the GTPv2-C stack of 3GPP TS 29.274 (`gtpv2c_stack`), in the parts that the children name.
pub mod MessageType
pub mod Header
pub mod State
pub mod Send
pub mod Receive
pub mod Faults
pub mod Transactions
pub mod Answers
pub mod Retries
