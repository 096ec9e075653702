-- ===== src/UpNodes/Nodes.antt =====
-- `PfcpUpNodes` of src/oai_spgwc/PfcpUpNodes.cpp; the overloads that nothing calls are left out.
-- A node is in one of the two collections at a
-- time, so it is a value there. The body of `TriggerAssociations` is switched off. Logging is left out.
use openair_spgwc.Prelude.{
  ℕ, Bool, ◌&&◌, ◌||◌, Option, none, some, List, [], ◌∷◌, ◌++◌, if◌then◌else◌, ◌==◌, ◌>>=◌,
}
use openair_spgwc.Prelude.Words.{u32}
use openair_spgwc.Prelude.AtomicHashMap.{AtomicHashMap}
use openair_spgwc.UpNodes.NodeId.{NodeId, StdHash, hash_node_id, same_node_id, is_fqdn}
use openair_spgwc.UpNodes.Node.{
  PfcpUpNode, assoc_null_state, assoc_setup_state, assoc_lost, notify_node_not_reachable,
  notify_node_reachable, notify_node_restarted,
}
use openair_spgwc.UpNodes.Associations.{
  setup_response, State, Config, cause_request_rejected, Setup,
}
use openair_spgwc.UpNodes.Registry.{
  add_association_request, add_association_response, notify_node_unreachable,
}

-- The condition of both setup handlers on a pending node.
unfoldable pub awaits : NodeId → PfcpUpNode → Bool
awaits node_id n =
    (n.association_state == assoc_null_state || n.association_state == assoc_lost)
    && (same_node_id node_id n.node_id || is_fqdn node_id n.id)

-- The loop of the setup handlers: the first node that waits for the message, and the others.
unfoldable pub take_pending : NodeId → List PfcpUpNode → Option (PfcpUpNode × List PfcpUpNode)
take_pending node_id [] = none
take_pending node_id (n ∷ ns) =
    let rest = take_pending node_id ns in
    if awaits node_id n
    then some (n, ns)
    else elim rest [ none ↦ none | some (m, ms) ↦ some (m, n ∷ ms) ]

-- A loop over the pending nodes that calls a member of the first with the hash.
unfoldable pub update_pending : (PfcpUpNode → PfcpUpNode) → ℕ → List PfcpUpNode → List PfcpUpNode
update_pending f hash [] = []
update_pending f hash (n ∷ ns) =
    let rest = update_pending f hash ns in if n.hash_node_id == hash then f n ∷ ns else n ∷ rest

-- The node after its association is set up.
unfoldable pub set_up : StdHash → Setup → PfcpUpNode → PfcpUpNode
set_up h m n = record n {
  association_state = assoc_setup_state;
  node_id = m.node_id;
  hash_node_id = hash_node_id h m.node_id;
  remote_endpoint = m.remote_endpoint;
  peer_recovery_time_stamp = m.recovery_time_stamp;
  peer_function_features = m.up_function_features;
}

module _ (H : AtomicHashMap) where
  open H use {find, insert, erase, write, entries}

  -- A pending node becomes a node in use, unless `add_association` failed.
  unfoldable pub associate :
      StdHash → Setup → PfcpUpNode → List PfcpUpNode → Bool × State H → State H
  unfolding set_up
  associate h m n others (ok, s) =
      if ok
      then (let n' = set_up h m n in
          record s {
            up_nodes = insert (u32 n'.hash_node_id) n' s.up_nodes;
            pending_nodes = others;
          })
      else s

  unfoldable pub association_setup_request :
      StdHash → Config → ℕ → ℕ → ℕ → Setup → State H → Option (State H)
  unfolding take_pending associate
  association_setup_request h c now address trxn_id m s = elim s.pending_nodes [
    | [] ↦ elim c.pfcp_node_id [
      | none ↦ some s
      | some this_node_id ↦ some (record s {
        out = setup_response trxn_id cause_request_rejected this_node_id m.remote_endpoint ∷ s.out;
      })
    ]
    | p ∷ ps ↦ elim (take_pending m.node_id (p ∷ ps)) [
      | none ↦ some s
      | some (n, others) ↦ do
        r ← add_association_request H h c now address trxn_id n.id m s
        some (associate h m n others r)
    ]
  ]

  unfoldable pub association_setup_resp :
      StdHash → Config → ℕ → ℕ → Setup → State H → Option (State H)
  unfolding take_pending associate
  association_setup_resp h c now address m s = elim (take_pending m.node_id s.pending_nodes) [
    | none ↦ some s
    | some (n, others) ↦ do
      r ← add_association_response H h c now address m s
      some (associate h m n others r)
  ]

  -- The overloads with a hash, which the heartbeats call. A node that is lost goes back to the
  -- pending ones.
  unfoldable pub node_not_reachable : ℕ → State H → State H
  unfolding update_pending notify_node_unreachable
  node_not_reachable hash s = elim (find (u32 hash) s.up_nodes) [
    | none ↦ record s {
      pending_nodes = update_pending notify_node_not_reachable hash s.pending_nodes;
    }
    | some n ↦
        let n' = notify_node_not_reachable n in
        let nodes = write (u32 hash) n' s.up_nodes in
        if n'.association_state == assoc_lost
        then notify_node_unreachable H hash (record s {
          up_nodes = erase (u32 n'.hash_node_id) nodes;
          pending_nodes = s.pending_nodes ++ (n' ∷ []);
        })
        else record s { up_nodes = nodes }
  ]

  unfoldable pub node_reachable : ℕ → State H → State H
  unfolding update_pending
  node_reachable hash s = elim (find (u32 hash) s.up_nodes) [
    | none ↦ record s { pending_nodes = update_pending notify_node_reachable hash s.pending_nodes }
    | some n ↦ record s { up_nodes = write (u32 hash) (notify_node_reachable n) s.up_nodes }
  ]

  unfoldable pub node_restarted : ℕ → State H → State H
  node_restarted hash s = elim (find (u32 hash) s.up_nodes) [
    | none ↦ s
    | some n ↦ record s { up_nodes = write (u32 hash) (notify_node_restarted n) s.up_nodes }
  ]
