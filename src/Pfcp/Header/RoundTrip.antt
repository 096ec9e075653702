-- ===== src/Pfcp/Header/RoundTrip.antt =====
-- The header of src/pfcp/3gpp_29.244.hpp as it comes back from its own encoding.
use openair_spgwc.Prelude.{
  ℕ, ◌+◌, ◌*◌, ◌/◌, ◌%◌, ◌^◌, ◌<◌, ◌≡◌, some, List, ◌++◌, if◌then◌else◌, ◌==◌, arith,
}
use openair_spgwc.Pfcp.Header.{Header, set_seid, set_sequence_number, pfcp_msg, dump_to, load_from}

-- Each field fits its bits.
pub record IsHeader (h : Header) : Type 0 where
  pub version : h.version < 8
  pub mp : h.mp < 2
  pub s : h.s < 2
  pub message_type : h.message_type < 2 ^ 8
  pub message_length : h.message_length < 2 ^ 16
  pub seid : h.seid < 2 ^ 64
  pub sequence_number : h.sequence_number < 2 ^ 24
  pub message_priority : h.message_priority < 16

-- What a header says on the wire: no spare bits, a SEID and a priority only where flagged.
pub on_wire : Header → Header
on_wire h = record h {
  spare = 0;
  low_spare = 0;
  seid = if h.s == 0 then 0 else h.seid;
  message_priority = if h.mp == 0 then 0 else h.message_priority;
}

be64_value :
    (n : ℕ)
    → n < 2 ^ 64
    → (n / 2 ^ 48 / 2 ^ 8 % 2 ^ 8 * 2 ^ 8 + n / 2 ^ 48 % 2 ^ 8) * 2 ^ 48
        + (n / 2 ^ 32 / 2 ^ 8 % 2 ^ 8 * 2 ^ 8 + n / 2 ^ 32 % 2 ^ 8) * 2 ^ 32
        + (n / 2 ^ 16 / 2 ^ 8 % 2 ^ 8 * 2 ^ 8 + n / 2 ^ 16 % 2 ^ 8) * 2 ^ 16
        + (n / 2 ^ 8 % 2 ^ 8 * 2 ^ 8 + n % 2 ^ 8)
      ≡ n
be64_value n h = omega arith

-- If each field of a header fits its bits, decoding its encoding gives the header that is on the
-- wire, and leaves what follows it.
pub pfcp_load_from-dump_to :
    (h : Header) (rest : List ℕ)
    → IsHeader h
    → load_from (dump_to h ++ rest) ≡ some (on_wire h, rest)
unfolding load_from dump_to on_wire
pfcp_load_from-dump_to h rest v = ground (arith, be64_value h.seid)

-- The header of a message with a type of one byte and a SEID of eight fits its bits, whatever
-- sequence number and elements it is given.
pub pfcp_msg-IsHeader :
    (message_type seid n : ℕ) (ies : List ℕ)
    → message_type < 2 ^ 8
    → seid < 2 ^ 64
    → IsHeader (set_sequence_number n (set_seid seid (pfcp_msg message_type ies).header))
unfolding set_sequence_number set_seid pfcp_msg
pfcp_msg-IsHeader message_type seid n ies h k = ground arith
