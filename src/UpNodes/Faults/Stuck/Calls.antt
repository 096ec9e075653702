-- ===== src/UpNodes/Faults/Stuck/Calls.antt =====
-- The heartbeats of src/oai_spgwc/pgw_pfcp_association.cpp leave a pending node in its state.
use mathlib.Core.Path.{subst}
use Prim.Native.String.{String}
use openair_spgwc.Prelude.{ℕ, ◌≡◌, ◌⊎◌, inl, inr, some, [], ◌∷◌, ◌++◌, arith, Option-cases}
use openair_spgwc.Prelude.Words.{u32}
use openair_spgwc.Prelude.AtomicHashMap.{AtomicHashMap}
use openair_spgwc.Pfcp.State.{Endpoint}
use openair_spgwc.UpNodes.NodeId.{StdHash}
use openair_spgwc.UpNodes.Node.{notify_node_not_reachable, notify_node_reachable}
use openair_spgwc.UpNodes.Associations.{State, Config}
use openair_spgwc.UpNodes.Registry.{trigger_heartbeat_request_procedure, notify_node_unreachable}
use openair_spgwc.UpNodes.Nodes.{update_pending, node_not_reachable, node_reachable, node_restarted}
use openair_spgwc.UpNodes.Heartbeats.{
  first_with_trxn, first_with_endpoint, send_heartbeat_request, initiate_heartbeat_request,
  end_heartbeat, next_heartbeat, timeout_heartbeat_request, handle_receive_heartbeat_response,
  handle_receive_heartbeat_request,
}
use openair_spgwc.UpNodes.Faults.Stuck.{IsStuck}
use openair_spgwc.UpNodes.Faults.Stuck.Pending.{
  IsStuck-append, not_reachable-IsStuck, reachable-IsStuck,
}

module _ (H : AtomicHashMap) (h : StdHash) (c : Config) where
  open H use {find, write, entries}

  pub not_reachable_state-IsStuck :
      (id : String) (hash : ℕ) (s : State H)
      → IsStuck id s.pending_nodes
      → IsStuck id (node_not_reachable H hash s).pending_nodes
  unfolding node_not_reachable notify_node_unreachable
  not_reachable_state-IsStuck id hash s stuck = elim (Option-cases (find (u32 hash) s.up_nodes)) [
    | inl x ↦
        let updated = not_reachable-IsStuck id hash s.pending_nodes stuck in
        let run : update_pending notify_node_not_reachable hash s.pending_nodes
            ≡ (node_not_reachable H hash s).pending_nodes =
          ground arith in
        subst (IsStuck id) run updated
    | inr (n, x) ↦
        let n' = notify_node_not_reachable n in
        let run : (s.pending_nodes ≡ (node_not_reachable H hash s).pending_nodes)
            ⊎ (s.pending_nodes ++ (n' ∷ []) ≡ (node_not_reachable H hash s).pending_nodes) =
          ground arith in
        elim run [
          | inl same ↦ subst (IsStuck id) same stuck
          | inr same ↦ subst (IsStuck id) same (IsStuck-append id s.pending_nodes (n' ∷ []) stuck)
        ]
  ]

  pub reachable_state-IsStuck :
      (id : String) (hash : ℕ) (s : State H)
      → IsStuck id s.pending_nodes
      → IsStuck id (node_reachable H hash s).pending_nodes
  unfolding node_reachable
  reachable_state-IsStuck id hash s stuck =
      let updated = reachable-IsStuck id hash s.pending_nodes stuck in
      let run : (s.pending_nodes ≡ (node_reachable H hash s).pending_nodes)
          ⊎ (update_pending notify_node_reachable hash s.pending_nodes
              ≡ (node_reachable H hash s).pending_nodes) =
        ground arith in
      elim run [
        | inl same ↦ subst (IsStuck id) same stuck
        | inr same ↦ subst (IsStuck id) same updated
      ]

  pub restarted_pending :
      (hash : ℕ) (s : State H) → s.pending_nodes ≡ (node_restarted H hash s).pending_nodes
  unfolding node_restarted
  restarted_pending hash s = ground arith

  pub timeout-IsStuck :
      (id : String) (now t : ℕ) (s : State H)
      → IsStuck id s.pending_nodes
      → IsStuck id (timeout_heartbeat_request H c now t s).pending_nodes
  unfolding timeout_heartbeat_request end_heartbeat next_heartbeat
      trigger_heartbeat_request_procedure
  timeout-IsStuck id now t s stuck =
      elim (Option-cases (first_with_trxn t (entries s.associations))) [
        | inl x ↦
            let run : s.pending_nodes ≡ (timeout_heartbeat_request H c now t s).pending_nodes =
              ground arith in
            subst (IsStuck id) run stuck
        | inr ((k, a), x) ↦
            let (a', s1) = end_heartbeat H k a s in
            let s2 = next_heartbeat H c now k a' s1 in
            let run : (node_not_reachable H a.hash_node_id s2).pending_nodes
                ≡ (timeout_heartbeat_request H c now t s).pending_nodes =
              ground arith in
            subst (IsStuck id) run (not_reachable_state-IsStuck id a.hash_node_id s2 stuck)
      ]

  pub response-IsStuck :
      (id : String) (now t stamp : ℕ) (s : State H)
      → IsStuck id s.pending_nodes
      → IsStuck id (handle_receive_heartbeat_response H c now t stamp s).pending_nodes
  unfolding handle_receive_heartbeat_response end_heartbeat next_heartbeat
      trigger_heartbeat_request_procedure
  response-IsStuck id now t stamp s stuck =
      elim (Option-cases (first_with_trxn t (entries s.associations))) [
        | inl x ↦
            let run : s.pending_nodes
                ≡ (handle_receive_heartbeat_response H c now t stamp s).pending_nodes =
              ground arith in
            subst (IsStuck id) run stuck
        | inr ((k, a), x) ↦
            let (a', s1) = end_heartbeat H k a s in
            let s2 = next_heartbeat H c now k a' s1 in
            let answers : IsStuck id (node_reachable H a.hash_node_id s2).pending_nodes =
              reachable_state-IsStuck id a.hash_node_id s2 stuck in
            let restarts : IsStuck id (node_restarted H a.hash_node_id s1).pending_nodes =
              subst (IsStuck id) (restarted_pending a.hash_node_id s1) stuck in
            let run : ((node_reachable H a.hash_node_id s2).pending_nodes
                  ≡ (handle_receive_heartbeat_response H c now t stamp s).pending_nodes)
                ⊎ ((node_restarted H a.hash_node_id s1).pending_nodes
                    ≡ (handle_receive_heartbeat_response H c now t stamp s).pending_nodes) =
              ground arith in
            elim run [
              | inl same ↦ subst (IsStuck id) same answers
              | inr same ↦ subst (IsStuck id) same restarts
            ]
      ]

  pub request-IsStuck :
      (id : String) (e : Endpoint) (stamp : ℕ) (s : State H)
      → IsStuck id s.pending_nodes
      → IsStuck id (handle_receive_heartbeat_request H e stamp s).pending_nodes
  unfolding handle_receive_heartbeat_request
  request-IsStuck id e stamp s stuck =
      elim (Option-cases (first_with_endpoint e (entries s.associations))) [
        | inl x ↦
            let run : s.pending_nodes
                ≡ (handle_receive_heartbeat_request H e stamp s).pending_nodes =
              ground arith in
            subst (IsStuck id) run stuck
        | inr ((k, a), x) ↦
            let answers = reachable_state-IsStuck id a.hash_node_id s stuck in
            let restarts : IsStuck id (node_restarted H a.hash_node_id s).pending_nodes =
              subst (IsStuck id) (restarted_pending a.hash_node_id s) stuck in
            let run : ((node_reachable H a.hash_node_id s).pending_nodes
                  ≡ (handle_receive_heartbeat_request H e stamp s).pending_nodes)
                ⊎ ((node_restarted H a.hash_node_id s).pending_nodes
                    ≡ (handle_receive_heartbeat_request H e stamp s).pending_nodes) =
              ground arith in
            elim run [
              | inl same ↦ subst (IsStuck id) same answers
              | inr same ↦ subst (IsStuck id) same restarts
            ]
      ]

  pub initiate_pending :
      (hash : ℕ) (s s' : State H)
      → initiate_heartbeat_request H hash s ≡ some s'
      → s.pending_nodes ≡ s'.pending_nodes
  unfolding initiate_heartbeat_request send_heartbeat_request
  initiate_pending hash s s' e = ground arith
