-- ===== src/UpNodes/Invariant.antt =====
-- What holds in every state of `PfcpUpNodes` and `pfcp_associations` in src/oai_spgwc/PfcpUpNodes.cpp
-- and src/oai_spgwc/pgw_pfcp_association.cpp.
pub mod Setup
pub mod Handlers
pub mod Heartbeats
pub mod Steps
use openair_spgwc.Prelude.{ℕ, ◌≡◌, ◌⊎◌, List, [], ◌∷◌}
use openair_spgwc.Prelude.Words.{u32}
use openair_spgwc.Prelude.AtomicHashMap.{AtomicHashMap}
use openair_spgwc.Prelude.AtomicHashMap.Everywhere.{Everywhere}
use openair_spgwc.UpNodes.NodeId.{StdHash, hash_node_id}
use openair_spgwc.UpNodes.Node.{
  PfcpUpNode, assoc_null_state, assoc_known_possible, assoc_setup_state, assoc_unstable, assoc_lost,
}
use openair_spgwc.UpNodes.Associations.{Association, State}

-- An association lies under the hash of its node, and is set up.
abbrev pub GoodAssociation : StdHash → ℕ → Association → Type 0
GoodAssociation h k a =
    (k ≡ u32 a.hash_node_id)
    × (a.hash_node_id ≡ hash_node_id h a.node_id)
    × (a.state ≡ assoc_setup_state)

-- A node in use lies under the hash of its identifier, and is set up or unstable.
abbrev pub GoodNode : StdHash → ℕ → PfcpUpNode → Type 0
GoodNode h k n =
    (k ≡ u32 n.hash_node_id)
    × (n.hash_node_id ≡ hash_node_id h n.node_id)
    × ((n.association_state ≡ assoc_setup_state) ⊎ (n.association_state ≡ assoc_unstable))

-- A pending node is in none of these two states.
abbrev pub GoodPending : List PfcpUpNode → Type 0
GoodPending [] = Unit {0}
GoodPending (n ∷ ns) =
    ((n.association_state ≡ assoc_null_state)
      ⊎ (n.association_state ≡ assoc_known_possible)
      ⊎ (n.association_state ≡ assoc_lost))
    × GoodPending ns

pub record Inv (H : AtomicHashMap) (h : StdHash) (s : State H) : Type 0 where
  pub associations : Everywhere H (GoodAssociation h) s.associations
  pub up_nodes : Everywhere H (GoodNode h) s.up_nodes
  pub pending_nodes : GoodPending s.pending_nodes
