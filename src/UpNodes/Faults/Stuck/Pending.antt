-- ===== src/UpNodes/Faults/Stuck/Pending.antt =====
-- The loops over pending nodes in src/oai_spgwc/PfcpUpNodes.cpp leave a node in its state.
use mathlib.Core.Path.{subst}
use Prim.Native.String.{String}
use openair_spgwc.Prelude.{
  ℕ, ◌≡◌, inl, inr, some, List, [], ◌∷◌, ◌++◌, ◌==◌, arith, Option-cases, Bool-cases,
}
use openair_spgwc.UpNodes.NodeId.{NodeId}
use openair_spgwc.UpNodes.Node.{
  PfcpUpNode, assoc_lost, notify_node_not_reachable, notify_node_reachable,
}
use openair_spgwc.UpNodes.Nodes.{awaits, take_pending, update_pending}
use openair_spgwc.UpNodes.Faults.Stuck.{IsStuck, first_pending}

pub take_pending-IsStuck :
    (id : String) (m : NodeId) (ns others : List PfcpUpNode) (n : PfcpUpNode)
    → take_pending m ns ≡ some (n, others)
    → IsStuck id ns
    → IsStuck id others
unfolding take_pending awaits
take_pending-IsStuck id m [] others n e stuck = absurd stuck
take_pending-IsStuck id m (x ∷ xs) others n e stuck = elim (Bool-cases (awaits m x)) [
  | inl t ↦ let same : xs ≡ others = ground arith in subst (IsStuck id) same (ground arith)
  | inr f ↦ elim (Option-cases (take_pending m xs)) [
    | inl y ↦ ground arith
    | inr ((p, ps), y) ↦
        let rest = take_pending-IsStuck id m xs ps p y in
        let same : x ∷ ps ≡ others = ground arith in subst (IsStuck id) same (ground (arith, rest))
  ]
]

pub IsStuck-append : (id : String) (ns ms : List PfcpUpNode) → IsStuck id ns → IsStuck id (ns ++ ms)
IsStuck-append id [] ms stuck = absurd stuck
IsStuck-append id (n ∷ ns) ms stuck = ground (arith, IsStuck-append id ns ms)

pub not_reachable-IsStuck :
    (id : String) (hash : ℕ) (ns : List PfcpUpNode)
    → IsStuck id ns
    → IsStuck id (update_pending notify_node_not_reachable hash ns)
unfolding update_pending notify_node_not_reachable
not_reachable-IsStuck id hash [] stuck = absurd stuck
not_reachable-IsStuck id hash (n ∷ ns) stuck = ground (arith, not_reachable-IsStuck id hash ns)

pub reachable-IsStuck :
    (id : String) (hash : ℕ) (ns : List PfcpUpNode)
    → IsStuck id ns
    → IsStuck id (update_pending notify_node_reachable hash ns)
unfolding update_pending notify_node_reachable
reachable-IsStuck id hash [] stuck = absurd stuck
reachable-IsStuck id hash (n ∷ ns) stuck = ground (arith, reachable-IsStuck id hash ns)

pub reachable_sticks :
    (hash : ℕ) (n : PfcpUpNode) (ns : List PfcpUpNode)
    → first_pending hash ns ≡ some n
    → n.association_state ≡ assoc_lost
    → IsStuck n.id (update_pending notify_node_reachable hash ns)
unfolding first_pending update_pending notify_node_reachable
reachable_sticks hash n [] e lost = cc
reachable_sticks hash n (m ∷ ms) e lost = elim (Bool-cases (m.hash_node_id == hash)) [
  | inl t ↦ let same : m ≡ n = ground arith in ground arith
  | inr f ↦ ground (arith, reachable_sticks hash n ms)
]
