-- ===== src/UpNodes/Faults/Stuck/Forever.antt =====
-- No call on the user-plane nodes of src/oai_spgwc/PfcpUpNodes.cpp frees a node that is stuck.
use mathlib.Core.Path.{subst}
use Prim.Native.String.{String}
use openair_spgwc.Prelude.{
  ℕ, ◌≡◌, sym, inl, inr, Bool, true, false, none, some, List, arith, Option-cases,
}
use openair_spgwc.Prelude.Words.{u32}
use openair_spgwc.Prelude.AtomicHashMap.{AtomicHashMap}
use openair_spgwc.UpNodes.NodeId.{StdHash}
use openair_spgwc.UpNodes.Node.{PfcpUpNode, assoc_lost, notify_node_reachable}
use openair_spgwc.UpNodes.Associations.{State, Config, Setup}
use openair_spgwc.UpNodes.Registry.{
  notify_add_session, add_peer_candidate_node, add_association_request, add_association_response,
}
use openair_spgwc.UpNodes.Nodes.{
  take_pending, update_pending, associate, association_setup_request, association_setup_resp,
  node_reachable,
}
use openair_spgwc.UpNodes.Invariant.{Inv}
use openair_spgwc.UpNodes.Invariant.Setup.{
  add_association_request-Kept, add_association_response-Kept,
}
use openair_spgwc.UpNodes.Invariant.Handlers.{node_reachable-Inv}
use openair_spgwc.UpNodes.Invariant.Steps.{
  Step, requested, responded, begins, fails, answered, asked, adds_session, proposes, Reach, here,
  next, Reach-Inv,
}
use openair_spgwc.UpNodes.Faults.Stuck.{IsStuck, first_pending}
use openair_spgwc.UpNodes.Faults.Stuck.Pending.{take_pending-IsStuck, reachable_sticks}
use openair_spgwc.UpNodes.Faults.Stuck.Calls.{
  timeout-IsStuck, response-IsStuck, request-IsStuck, initiate_pending,
}

module _ (H : AtomicHashMap) (h : StdHash) (c : Config) where
  open H use {find, write, entries}

  associated-IsStuck :
      (id : String) (m : Setup) (n : PfcpUpNode) (others : List PfcpUpNode) (ok : Bool)
      (s s1 : State H)
      → s1.pending_nodes ≡ s.pending_nodes
      → IsStuck id s.pending_nodes
      → IsStuck id others
      → IsStuck id (associate H h m n others (ok, s1)).pending_nodes
  unfolding associate
  associated-IsStuck id m n others false s s1 same stuck stuck' =
      subst (IsStuck id) (sym same) stuck
  associated-IsStuck id m n others true s s1 same stuck stuck' = stuck'

  response_setup-IsStuck :
      (id : String) (now address : ℕ) (m : Setup) (s s' : State H)
      → association_setup_resp H h c now address m s ≡ some s'
      → Inv H h s
      → IsStuck id s.pending_nodes
      → IsStuck id s'.pending_nodes
  unfolding association_setup_resp
  response_setup-IsStuck id now address m s s' e inv stuck =
      elim (Option-cases (take_pending m.node_id s.pending_nodes)) [
        | inl x ↦
            let same : s.pending_nodes ≡ s'.pending_nodes = ground arith in
            subst (IsStuck id) same stuck
        | inr ((n, others), x) ↦
            elim (Option-cases (add_association_response H h c now address m s)) [
              | inl y ↦ ground arith
              | inr ((ok, s1), y) ↦
                  let (all, up, pending) =
                    add_association_response-Kept H h c now address m s s1 ok y inv.associations in
                  let left = take_pending-IsStuck id m.node_id s.pending_nodes others n x stuck in
                  let same : associate H h m n others (ok, s1) ≡ s' = ground arith in
                  subst (λ t. IsStuck id t.pending_nodes) same
                    (associated-IsStuck id m n others ok s s1 pending stuck left)
            ]
      ]

  request_setup-IsStuck :
      (id : String) (now address trxn_id : ℕ) (m : Setup) (s s' : State H)
      → association_setup_request H h c now address trxn_id m s ≡ some s'
      → Inv H h s
      → IsStuck id s.pending_nodes
      → IsStuck id s'.pending_nodes
  unfolding association_setup_request take_pending
  request_setup-IsStuck id now address trxn_id m s s' e inv stuck =
      elim (Option-cases (take_pending m.node_id s.pending_nodes)) [
        | inl x ↦
            let same : s.pending_nodes ≡ s'.pending_nodes = ground arith in
            subst (IsStuck id) same stuck
        | inr ((n, others), x) ↦
            elim (Option-cases (add_association_request H h c now address trxn_id n.id m s)) [
              | inl y ↦ ground arith
              | inr ((ok, s1), y) ↦
                  let (all, up, pending) =
                    add_association_request-Kept H h c now address trxn_id n.id m s s1 ok y
                      inv.associations in
                  let left = take_pending-IsStuck id m.node_id s.pending_nodes others n x stuck in
                  let same : associate H h m n others (ok, s1) ≡ s' = ground arith in
                  subst (λ t. IsStuck id t.pending_nodes) same
                    (associated-IsStuck id m n others ok s s1 pending stuck left)
            ]
      ]

  Step-IsStuck :
      (id : String) {s s' : State H}
      → Step H h c s s'
      → Inv H h s
      → IsStuck id s.pending_nodes
      → IsStuck id s'.pending_nodes
  unfolding notify_add_session add_peer_candidate_node
  Step-IsStuck id {s} {s'} (requested now address trxn_id m e) inv stuck =
      request_setup-IsStuck id now address trxn_id m s s' e inv stuck
  Step-IsStuck id {s} {s'} (responded now address m e) inv stuck =
      response_setup-IsStuck id now address m s s' e inv stuck
  Step-IsStuck id {s} {s'} (begins hash e) inv stuck =
      subst (IsStuck id) (initiate_pending H h c hash s s' e) stuck
  Step-IsStuck id {s} (fails now t) inv stuck = timeout-IsStuck H h c id now t s stuck
  Step-IsStuck id {s} (answered now t stamp) inv stuck =
      response-IsStuck H h c id now t stamp s stuck
  Step-IsStuck id {s} (asked e stamp) inv stuck = request-IsStuck H h c id e stamp s stuck
  Step-IsStuck id {s} (adds_session n f) inv stuck =
      let same : s.pending_nodes ≡ (notify_add_session H h n f s).pending_nodes = ground arith in
      subst (IsStuck id) same stuck
  Step-IsStuck id {s} (proposes address n) inv stuck = stuck

  IsStuck-stays :
      (id : String) {s s' : State H}
      → Reach H h c s s'
      → Inv H h s
      → IsStuck id s.pending_nodes
      → IsStuck id s'.pending_nodes
  IsStuck-stays id here inv stuck = stuck
  IsStuck-stays id (next r st) inv stuck =
      Step-IsStuck id st (Reach-Inv H h c r inv) (IsStuck-stays id r inv stuck)

  -- Under the invariant, if a lost node answers a heartbeat of its association, it stays a pending
  -- node in the state kAssocKnownPossible for ever: no setup message, no heartbeat and no
  -- failure brings it back into use.
  pub lost_node-IsStuck :
      (hash : ℕ) (n : PfcpUpNode) {s s' : State H}
      → Inv H h s
      → find (u32 hash) s.up_nodes ≡ none
      → first_pending hash s.pending_nodes ≡ some n
      → n.association_state ≡ assoc_lost
      → Reach H h c (node_reachable H hash s) s'
      → IsStuck n.id s'.pending_nodes
  unfolding node_reachable
  lost_node-IsStuck hash n {s} inv out first lost r =
      let sticks = reachable_sticks hash n s.pending_nodes first lost in
      let run : update_pending notify_node_reachable hash s.pending_nodes
          ≡ (node_reachable H hash s).pending_nodes =
        ground arith in
      IsStuck-stays n.id r (node_reachable-Inv H h hash s inv) (subst (IsStuck n.id) run sticks)
