-- ===== src/Gtpv2c/Header/RoundTrip.antt =====
-- The header of src/gtpv2c/3gpp_29.274.hpp as it comes back from its own encoding.
use openair_spgwc.Prelude.{
  ℕ, ◌+◌, ◌*◌, ◌/◌, ◌%◌, ◌^◌, ◌<◌, ◌≡◌, ◌||◌, some, List, ◌++◌, if◌then◌else◌, ◌==◌, arith,
}
use openair_spgwc.Gtpv2c.Header.{
  Header, set_teid, set_sequence_number, gtpv2c_msg, dump_to, load_from,
}

-- Each field fits its bits.
pub record IsHeader (h : Header) : Type 0 where
  pub version : h.version < 8
  pub p : h.p < 2
  pub t : h.t < 2
  pub mp : h.mp < 2
  pub message_type : h.message_type < 2 ^ 8
  pub message_length : h.message_length < 2 ^ 16
  pub teid : h.teid < 2 ^ 32
  pub sequence_number : h.sequence_number < 2 ^ 24
  pub message_priority : h.message_priority < 16

-- What a header says on the wire: no spare bits, a TEID only where flagged, and a priority only
-- where both are.
pub on_wire : Header → Header
on_wire h = record h {
  spare = 0;
  low_spare = 0;
  teid = if h.t == 0 then 0 else h.teid;
  message_priority = if h.t == 0 || h.mp == 0 then 0 else h.message_priority;
}

be32_value :
    (n : ℕ)
    → n < 2 ^ 32
    → (n / 2 ^ 16 / 2 ^ 8 % 2 ^ 8 * 2 ^ 8 + n / 2 ^ 16 % 2 ^ 8) * 2 ^ 16
        + (n / 2 ^ 8 % 2 ^ 8 * 2 ^ 8 + n % 2 ^ 8)
      ≡ n
be32_value n h = omega arith

-- If each field of a header fits its bits, decoding its encoding gives the header that is on the
-- wire, and leaves what follows it.
pub gtpv2c_load_from-dump_to :
    (h : Header) (rest : List ℕ)
    → IsHeader h
    → load_from (dump_to h ++ rest) ≡ some (on_wire h, rest)
unfolding load_from dump_to on_wire
gtpv2c_load_from-dump_to h rest v = ground (arith, be32_value h.teid)

-- The header of a message with a type of one byte and a TEID of four fits its bits, whatever
-- sequence number and elements it is given.
pub gtpv2c_msg-IsHeader :
    (message_type teid n : ℕ) (ies : List ℕ)
    → message_type < 2 ^ 8
    → teid < 2 ^ 32
    → IsHeader (set_sequence_number n (set_teid teid (gtpv2c_msg message_type ies).header))
unfolding set_sequence_number set_teid gtpv2c_msg
gtpv2c_msg-IsHeader message_type teid n ies h k = ground arith
