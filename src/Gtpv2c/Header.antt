-- ===== src/Gtpv2c/Header.antt =====
-- src/gtpv2c/3gpp_29.274.hpp: `gtpv2c_msg_header` with its encoding, and `gtpv2c_msg` around it. The
-- bytes of the information elements are those that their own codec gives.
pub mod RoundTrip
use openair_spgwc.Prelude.Words.{be16, be24, be32}
use openair_spgwc.Prelude.{
  ℕ, ◌+◌, ◌*◌, ◌/◌, ◌%◌, ◌^◌, Bool, ◌||◌, Option, none, some, List, [], ◌∷◌, ◌++◌, if◌then◌else◌,
  ◌==◌, length,
}

-- The bit fields of the first byte and of the last, as numbers.
pub record Header : Type 0 where
  pub version : ℕ
  pub p : ℕ
  pub t : ℕ
  pub mp : ℕ
  pub spare : ℕ
  pub message_type : ℕ
  pub message_length : ℕ
  pub teid : ℕ
  pub sequence_number : ℕ
  pub message_priority : ℕ
  pub low_spare : ℕ

pub record Msg : Type 0 where
  pub header : Header
  pub ies : List ℕ

unfoldable pub new_header : Header
new_header = record {
  version = 2;
  p = 0;
  t = 0;
  mp = 0;
  spare = 0;
  message_type = 0;
  message_length = 3 + 1;
  teid = 0;
  sequence_number = 0;
  message_priority = 0;
  low_spare = 0;
}

unfoldable pub set_teid : ℕ → Header → Header
set_teid teid h =
    if h.t == 0
    then record h { teid = teid; t = 1; message_length = (h.message_length + 4) % 2 ^ 16 }
    else record h { teid = teid }

unfoldable pub set_sequence_number : ℕ → Header → Header
set_sequence_number n h = record h { sequence_number = n % 2 ^ 24 }

-- A message of the given type around its encoded information elements.
unfoldable pub gtpv2c_msg : ℕ → List ℕ → Msg
unfolding new_header
gtpv2c_msg message_type ies = record {
  header = record new_header {
    message_type = message_type;
    message_length = (4 + length ies) % 2 ^ 16;
  };
  ies = ies;
}

unfoldable pub first_byte : Header → ℕ
first_byte h = h.mp * 2 ^ 2 + h.t * 2 ^ 3 + h.p * 2 ^ 4 + h.version * 2 ^ 5

-- `mp` is cleared after the first byte is out, if there is no TEID.
unfoldable pub dump_to : Header → List ℕ
unfolding first_byte be16 be24 be32
dump_to h =
    let teid = if h.t == 0 then [] else be32 h.teid in
    let priority = if h.t == 0 || h.mp == 0 then 0 else h.message_priority in
    first_byte h
    ∷ h.message_type
    ∷ (be16 h.message_length ++ (teid ++ (be24 h.sequence_number ++ (priority * 2 ^ 4 ∷ []))))

-- What is read after the optional TEID.
unfoldable pub load_tail : Header → List ℕ → Option (Header × List ℕ)
load_tail h (s0 ∷ s1 ∷ s2 ∷ u2 ∷ rest) = some (
  record h {
    sequence_number = s0 * 2 ^ 16 + s1 * 2 ^ 8 + s2;
    message_priority = u2 / 2 ^ 4;
    low_spare = u2 % 2 ^ 4;
  },
  rest,
)
load_tail h _ = none

unfoldable pub load_teid : Header → List ℕ → Option (Header × List ℕ)
unfolding load_tail
load_teid h (b0 ∷ b1 ∷ b2 ∷ b3 ∷ rest) =
    load_tail (record h { teid = (b0 * 2 ^ 8 + b1) * 2 ^ 16 + (b2 * 2 ^ 8 + b3) }) rest
load_teid h _ = none

-- `none` is a stream that ends too early.
unfoldable pub load_from : List ℕ → Option (Header × List ℕ)
unfolding load_tail load_teid
load_from (u1 ∷ message_type ∷ l0 ∷ l1 ∷ rest) =
    let h : Header = record {
      version = u1 / 2 ^ 5;
      p = u1 / 2 ^ 4 % 2;
      t = u1 / 2 ^ 3 % 2;
      mp = u1 / 2 ^ 2 % 2;
      spare = u1 % 2 ^ 2;
      message_type = message_type;
      message_length = l0 * 2 ^ 8 + l1;
      teid = 0;
      sequence_number = 0;
      message_priority = 0;
      low_spare = 0;
    } in
    if h.t == 0 then load_tail h rest else load_teid h rest
load_from _ = none
