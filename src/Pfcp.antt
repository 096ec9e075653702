-- ===== src/Pfcp.antt =====
-- src/pfcp: the PFCP stack of 3GPP TS 29.244 (`pfcp_l4_stack`), in the parts that the children name.
pub mod MessageType
pub mod Header
pub mod State
pub mod Send
pub mod Receive
pub mod Consistency
pub mod Exchange
pub mod Retries
pub mod Unanswered
pub mod Transactions
pub mod Overloads
