-- ===== src/UpNodes/Invariant/Steps.antt =====
-- What the tasks of the gateway do to the user-plane nodes of src/oai_spgwc/PfcpUpNodes.cpp and their
-- associations in src/oai_spgwc/pgw_pfcp_association.cpp, one call after another.
use openair_spgwc.Prelude.{ℕ, ◌≡◌, some}
use openair_spgwc.Prelude.AtomicHashMap.{AtomicHashMap}
use openair_spgwc.Pfcp.State.{Endpoint}
use openair_spgwc.UpNodes.NodeId.{NodeId, StdHash}
use openair_spgwc.UpNodes.Fseid.{Fseid}
use openair_spgwc.UpNodes.Associations.{State, Config, Setup}
use openair_spgwc.UpNodes.Registry.{notify_add_session, add_peer_candidate_node}
use openair_spgwc.UpNodes.Nodes.{association_setup_request, association_setup_resp}
use openair_spgwc.UpNodes.Heartbeats.{
  initiate_heartbeat_request, timeout_heartbeat_request, handle_receive_heartbeat_response,
  handle_receive_heartbeat_request,
}
use openair_spgwc.UpNodes.Invariant.{Inv}
use openair_spgwc.UpNodes.Invariant.Handlers.{
  association_setup_request-Inv, association_setup_resp-Inv,
}
use openair_spgwc.UpNodes.Invariant.Heartbeats.{
  timeout_heartbeat_request-Inv, handle_receive_heartbeat_response-Inv,
  handle_receive_heartbeat_request-Inv, initiate_heartbeat_request-Inv, notify_add_session-Inv,
  add_peer_candidate_node-Inv,
}

module _ (H : AtomicHashMap) (h : StdHash) (c : Config) where
  open H use {find, write, entries}

  pub data Step (s : State H) : State H → Type 0 where
    requested :
        (now address trxn_id : ℕ) (m : Setup) {s' : State H}
        → association_setup_request H h c now address trxn_id m s ≡ some s'
        → Step s s'
    responded :
        (now address : ℕ) (m : Setup) {s' : State H}
        → association_setup_resp H h c now address m s ≡ some s'
        → Step s s'
    begins : (hash : ℕ) {s' : State H} → initiate_heartbeat_request H hash s ≡ some s' → Step s s'
    fails : (now trxn_id : ℕ) → Step s (timeout_heartbeat_request H c now trxn_id s)
    answered :
        (now trxn_id stamp : ℕ) → Step s (handle_receive_heartbeat_response H c now trxn_id stamp s)
    asked : (e : Endpoint) (stamp : ℕ) → Step s (handle_receive_heartbeat_request H e stamp s)
    adds_session : (n : NodeId) (f : Fseid) → Step s (notify_add_session H h n f s)
    proposes : (address : ℕ) (n : NodeId) → Step s (add_peer_candidate_node H h address n s)

  pub data Reach (s : State H) : State H → Type 0 where
    here : Reach s s
    next : {t u : State H} → Reach s t → Step t u → Reach s u

  -- Whatever messages, answers and failures follow one another: each association lies under the hash
  -- of its node and is set up; each node in use lies under the hash of its identifier and is set up
  -- or unstable; each pending node is in one of the other states.
  pub up_nodes_Step-Inv : {s s' : State H} → Step s s' → Inv H h s → Inv H h s'
  up_nodes_Step-Inv {s} {s'} (requested now address trxn_id m e) inv =
      association_setup_request-Inv H h c now address trxn_id m s s' e inv
  up_nodes_Step-Inv {s} {s'} (responded now address m e) inv =
      association_setup_resp-Inv H h c now address m s s' e inv
  up_nodes_Step-Inv {s} {s'} (begins hash e) inv =
      initiate_heartbeat_request-Inv H h c hash s s' e inv
  up_nodes_Step-Inv {s} (fails now t) inv = timeout_heartbeat_request-Inv H h c now t s inv
  up_nodes_Step-Inv {s} (answered now t stamp) inv =
      handle_receive_heartbeat_response-Inv H h c now t stamp s inv
  up_nodes_Step-Inv {s} (asked e stamp) inv =
      handle_receive_heartbeat_request-Inv H h c e stamp s inv
  up_nodes_Step-Inv {s} (adds_session n f) inv = notify_add_session-Inv H h c n f s inv
  up_nodes_Step-Inv {s} (proposes address n) inv = add_peer_candidate_node-Inv H h c address n s inv

  pub Reach-Inv : {s s' : State H} → Reach s s' → Inv H h s → Inv H h s'
  Reach-Inv here inv = inv
  Reach-Inv (next r st) inv = up_nodes_Step-Inv st (Reach-Inv r inv)
