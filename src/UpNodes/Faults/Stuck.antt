-- ===== src/UpNodes/Faults/Stuck.antt =====
-- A user-plane node of src/oai_spgwc/PfcpUpNodes.cpp that was lost and answers again never comes back
-- into use.
pub mod Pending
pub mod Calls
pub mod Forever
use mathlib.Core.Path.{subst}
use Prim.Native.String.{String}
use openair_spgwc.Prelude.{
  ℕ, ◌≡◌, ◌⊎◌, ◌∙◌, refl, sym, inl, inr, Bool, true, false, Option, none, some, List, [], ◌∷◌, ◌++◌,
  if◌then◌else◌, ◌==◌, arith, Option-cases, Bool-cases,
}
use openair_spgwc.Prelude.Words.{u32}
use openair_spgwc.Prelude.AtomicHashMap.{AtomicHashMap}
use openair_spgwc.Pfcp.State.{Endpoint}
use openair_spgwc.UpNodes.NodeId.{NodeId, StdHash}
use openair_spgwc.UpNodes.Node.{
  PfcpUpNode, assoc_known_possible, assoc_lost, notify_node_not_reachable, notify_node_reachable,
  notify_node_restarted,
}
use openair_spgwc.UpNodes.Associations.{Association, State, Config, Setup}
use openair_spgwc.UpNodes.Registry.{
  trigger_heartbeat_request_procedure, notify_node_unreachable, notify_add_session,
  add_peer_candidate_node, add_association_request, add_association_response,
}
use openair_spgwc.UpNodes.Nodes.{
  awaits, take_pending, update_pending, associate, association_setup_request,
  association_setup_resp, node_not_reachable, node_reachable, node_restarted,
}
use openair_spgwc.UpNodes.Heartbeats.{
  first_with_trxn, first_with_endpoint, send_heartbeat_request, initiate_heartbeat_request,
  end_heartbeat, next_heartbeat, timeout_heartbeat_request, handle_receive_heartbeat_response,
  handle_receive_heartbeat_request,
}
use openair_spgwc.UpNodes.Invariant.{Inv}
use openair_spgwc.UpNodes.Invariant.Setup.{
  add_association_request-Kept, add_association_response-Kept,
}
use openair_spgwc.UpNodes.Invariant.Handlers.{node_reachable-Inv}
use openair_spgwc.UpNodes.Invariant.Steps.{
  Step, requested, responded, begins, fails, answered, asked, adds_session, proposes, Reach, here,
  next, Reach-Inv,
}

-- A pending node of that name is in the state kAssocKnownPossible.
abbrev pub IsStuck : String → List PfcpUpNode → Type 0
IsStuck id [] = ⊥
IsStuck id (n ∷ ns) = ((n.id ≡ id) × (n.association_state ≡ assoc_known_possible)) ⊎ IsStuck id ns

-- The first pending node with the hash, if any.
unfoldable pub first_pending : ℕ → List PfcpUpNode → Option PfcpUpNode
first_pending hash [] = none
first_pending hash (n ∷ ns) =
    let rest = first_pending hash ns in if n.hash_node_id == hash then some n else rest
