-- ===== src/Pfcp/Header.antt =====
-- src/pfcp/3gpp_29.244.hpp: `pfcp_msg_header` with its encoding, and `pfcp_msg` around it. The bytes
-- of the information elements are those that their own codec gives, and are carried along as they are.
pub mod RoundTrip
use openair_spgwc.Prelude.Words.{be16, be24, be64}
use openair_spgwc.Prelude.{
  ℕ, ◌+◌, ◌*◌, ◌/◌, ◌%◌, ◌^◌, Bool, true, false, Option, none, some, List, [], ◌∷◌, ◌++◌,
  if◌then◌else◌, ◌==◌, ltb, length,
}

-- The bit fields `version`, `spare`, `mp` and `s` of the first byte and `message_priority` and
-- `spare` of the last, as numbers.
pub record Header : Type 0 where
  pub version : ℕ
  pub spare : ℕ
  pub mp : ℕ
  pub s : ℕ
  pub message_type : ℕ
  pub message_length : ℕ
  pub seid : ℕ
  pub sequence_number : ℕ
  pub message_priority : ℕ
  pub low_spare : ℕ

pub record Msg : Type 0 where
  pub header : Header
  pub ies : List ℕ

unfoldable pub new_header : Header
new_header = record {
  version = 1;
  spare = 0;
  mp = 0;
  s = 0;
  message_type = 0;
  message_length = 3 + 1;
  seid = 0;
  sequence_number = 0;
  message_priority = 0;
  low_spare = 0;
}

unfoldable pub set_seid : ℕ → Header → Header
set_seid seid h =
    if h.s == 0
    then record h { seid = seid; s = 1; message_length = (h.message_length + 8) % 2 ^ 16 }
    else record h { seid = seid }

unfoldable pub set_sequence_number : ℕ → Header → Header
set_sequence_number n h = record h { sequence_number = n % 2 ^ 24 }

-- A message of the given type around its encoded information elements.
unfoldable pub pfcp_msg : ℕ → List ℕ → Msg
unfolding new_header
pfcp_msg message_type ies = record {
  header = record new_header {
    message_type = message_type;
    message_length = (4 + length ies) % 2 ^ 16;
  };
  ies = ies;
}

unfoldable pub first_byte : Header → ℕ
first_byte h = h.s + h.mp * 2 + h.version * 2 ^ 5

unfoldable pub dump_to : Header → List ℕ
unfolding first_byte be16 be24 be64
dump_to h =
    let seid = if h.s == 0 then [] else be64 h.seid in
    let priority = if h.mp == 0 then 0 else h.message_priority in
    first_byte h
    ∷ h.message_type
    ∷ (be16 h.message_length ++ (seid ++ (be24 h.sequence_number ++ (priority * 2 ^ 4 ∷ []))))

-- What is read after the optional SEID.
unfoldable pub load_tail : Header → List ℕ → Option (Header × List ℕ)
load_tail h (s0 ∷ s1 ∷ s2 ∷ u2 ∷ rest) = some (
  record h {
    sequence_number = s0 * 2 ^ 16 + s1 * 2 ^ 8 + s2;
    message_priority = u2 / 2 ^ 4;
    low_spare = u2 % 2 ^ 4;
  },
  rest,
)
load_tail h _ = none

unfoldable pub load_seid : Header → List ℕ → Option (Header × List ℕ)
unfolding load_tail
load_seid h (b0 ∷ b1 ∷ b2 ∷ b3 ∷ b4 ∷ b5 ∷ b6 ∷ b7 ∷ rest) =
    load_tail
      (record h {
        seid =
            (b0 * 2 ^ 8 + b1) * 2 ^ 48
            + (b2 * 2 ^ 8 + b3) * 2 ^ 32
            + (b4 * 2 ^ 8 + b5) * 2 ^ 16
            + (b6 * 2 ^ 8 + b7);
      })
      rest
load_seid h _ = none

-- `none` is a stream that ends too early. The source does not test the state of the stream, and goes
-- on with the members as they were.
unfoldable pub load_from : List ℕ → Option (Header × List ℕ)
unfolding load_tail load_seid
load_from (u1 ∷ message_type ∷ l0 ∷ l1 ∷ rest) =
    let h : Header = record {
      version = u1 / 2 ^ 5;
      spare = u1 / 2 ^ 2 % 2 ^ 3;
      mp = u1 / 2 % 2;
      s = u1 % 2;
      message_type = message_type;
      message_length = l0 * 2 ^ 8 + l1;
      seid = 0;
      sequence_number = 0;
      message_priority = 0;
      low_spare = 0;
    } in
    if h.s == 0 then load_tail h rest else load_seid h rest
load_from _ = none
