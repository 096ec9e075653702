-- ===== src/UpNodes/NodeId.antt =====
-- src/common/3gpp_29.244.h: `node_id_t`, its comparisons and its hash. The union of the two kinds of
-- address is the four words of `in6_addr`, the first of which is the IPv4 address. The hashes of the
-- standard library are parameters.
use Prim.Native.Nat.{bit_xor}
use Prim.Native.String.{String}
use text.Mathlib.Text.{◌==◌ as str_eq}
use openair_spgwc.Prelude.{ℕ, Bool, ◌&&◌, if◌then◌else◌, ◌==◌}

pub record NodeId : Type 0 where
  pub node_id_type : ℕ
  pub word0 : ℕ
  pub word1 : ℕ
  pub word2 : ℕ
  pub word3 : ℕ
  pub fqdn : String

abbrev pub node_id_type_ipv4_address : ℕ
node_id_type_ipv4_address = 0

abbrev pub node_id_type_ipv6_address : ℕ
node_id_type_ipv6_address = 1

abbrev pub node_id_type_fqdn : ℕ
node_id_type_fqdn = 2

-- `{}`
unfoldable pub no_node_id : NodeId
no_node_id = record { node_id_type = 0; word0 = 0; word1 = 0; word2 = 0; word3 = 0; fqdn = "" }

-- `operator==` on two identifiers.
unfoldable pub same_node_id : NodeId → NodeId → Bool
same_node_id i n =
    i.node_id_type == n.node_id_type
    && (i.word0 == n.word0
        && (str_eq i.fqdn n.fqdn
            && (i.word0 == n.word0
                && (i.word1 == n.word1 && (i.word2 == n.word2 && i.word3 == n.word3)))))

-- `operator==` with a name.
unfoldable pub is_fqdn : NodeId → String → Bool
is_fqdn n f = n.node_id_type == node_id_type_fqdn && str_eq n.fqdn f

-- `std::hash<uint32_t>` and `std::hash<std::string>`.
pub record StdHash : Type 0 where
  pub of_u32 : ℕ → ℕ
  pub of_string : String → ℕ

-- `std::hash<pfcp::node_id_t>`
unfoldable pub hash_node_id : StdHash → NodeId → ℕ
hash_node_id h n =
    if n.node_id_type == node_id_type_ipv4_address
    then h.of_u32 n.word0
    else if n.node_id_type == node_id_type_ipv6_address
    then bit_xor (bit_xor (bit_xor n.word0 n.word1) n.word2) n.word3
    else if n.node_id_type == node_id_type_fqdn
    then h.of_string n.fqdn
    else 0
