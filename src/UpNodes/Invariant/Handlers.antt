-- ===== src/UpNodes/Invariant/Handlers.antt =====
-- The handlers of src/oai_spgwc/PfcpUpNodes.cpp and the heartbeats of
-- src/oai_spgwc/pgw_pfcp_association.cpp keep the invariant.
use mathlib.Core.Path.{subst}
use openair_spgwc.Prelude.{
  ℕ, ◌≡◌, ◌≢◌, ◌⊎◌, refl, sym, inl, inr, Bool, true, false, none, some, List, [], ◌∷◌, ◌++◌, ◌==◌,
  arith, Option-cases, Bool-cases,
}
use openair_spgwc.Prelude.Words.{u32}
use openair_spgwc.Prelude.AtomicHashMap.{AtomicHashMap}
use openair_spgwc.Prelude.AtomicHashMap.Everywhere.{Everywhere, Everywhere-insert, Everywhere-write}
use openair_spgwc.UpNodes.NodeId.{NodeId, StdHash}
use openair_spgwc.UpNodes.Node.{
  PfcpUpNode, assoc_setup_state, assoc_unstable, assoc_lost, notify_node_not_reachable,
  notify_node_reachable, notify_node_restarted,
}
use openair_spgwc.UpNodes.Associations.{State, Config, Setup}
use openair_spgwc.UpNodes.Registry.{
  add_association_request, add_association_response, notify_node_unreachable,
}
use openair_spgwc.UpNodes.Nodes.{
  awaits, take_pending, update_pending, set_up, associate, association_setup_request,
  association_setup_resp, node_not_reachable, node_reachable, node_restarted,
}
use openair_spgwc.UpNodes.Invariant.{GoodAssociation, GoodNode, GoodPending, Inv}
use openair_spgwc.UpNodes.Invariant.Setup.{
  Kept, add_association_request-Kept, add_association_response-Kept,
}

take_pending-GoodPending :
    (m : NodeId) (ns others : List PfcpUpNode) (n : PfcpUpNode)
    → take_pending m ns ≡ some (n, others)
    → GoodPending ns
    → GoodPending others
unfolding take_pending
take_pending-GoodPending m [] others n e good = cc
take_pending-GoodPending m (x ∷ xs) others n e good = elim (Bool-cases (awaits m x)) [
  | inl t ↦ let same : xs ≡ others = ground arith in subst GoodPending same good.1
  | inr f ↦ elim (Option-cases (take_pending m xs)) [
    | inl y ↦ ground arith
    | inr ((p, ps), y) ↦
        let rest = take_pending-GoodPending m xs ps p y good.1 in
        let same : x ∷ ps ≡ others = ground arith in subst GoodPending same (good.0, rest)
  ]
]

GoodPending-append :
    (ns ms : List PfcpUpNode) → GoodPending ns → GoodPending ms → GoodPending (ns ++ ms)
GoodPending-append [] ms g g' = g'
GoodPending-append (n ∷ ns) ms g g' = (g.0, GoodPending-append ns ms g.1 g')

not_reachable-GoodPending :
    (hash : ℕ) (ns : List PfcpUpNode)
    → GoodPending ns
    → GoodPending (update_pending notify_node_not_reachable hash ns)
unfolding update_pending notify_node_not_reachable
not_reachable-GoodPending hash [] g = tt
not_reachable-GoodPending hash (n ∷ ns) g = ground (arith, not_reachable-GoodPending hash ns)

reachable-GoodPending :
    (hash : ℕ) (ns : List PfcpUpNode)
    → GoodPending ns
    → GoodPending (update_pending notify_node_reachable hash ns)
unfolding update_pending notify_node_reachable
reachable-GoodPending hash [] g = tt
reachable-GoodPending hash (n ∷ ns) g = ground (arith, reachable-GoodPending hash ns)

not_reachable_state :
    (n : PfcpUpNode)
    → (n.association_state ≡ assoc_setup_state) ⊎ (n.association_state ≡ assoc_unstable)
    → let state = (notify_node_not_reachable n).association_state in
      (state ≡ assoc_unstable) ⊎ (state ≡ assoc_lost)
unfolding notify_node_not_reachable
not_reachable_state n g = ground arith

reachable_state :
    (n : PfcpUpNode)
    → (n.association_state ≡ assoc_setup_state) ⊎ (n.association_state ≡ assoc_unstable)
    → let state = (notify_node_reachable n).association_state in
      (state ≡ assoc_setup_state) ⊎ (state ≡ assoc_unstable)
unfolding notify_node_reachable
reachable_state n g = ground arith

module _ (H : AtomicHashMap) (h : StdHash) where
  open H use {find, insert, erase, write}

  associate-Inv :
      (m : Setup) (n : PfcpUpNode) (others : List PfcpUpNode) (ok : Bool) (s s1 : State H)
      → Inv H h s
      → Kept H h s s1
      → GoodPending others
      → Inv H h (associate H h m n others (ok, s1))
  unfolding associate set_up
  associate-Inv m n others false s s1 inv (all, up, pending) good = record {
    associations = all;
    up_nodes = subst (Everywhere H (GoodNode h)) (sym up) inv.up_nodes;
    pending_nodes = subst GoodPending (sym pending) inv.pending_nodes;
  }
  associate-Inv m n others true s s1 inv (all, up, pending) good = record {
    associations = all;
    up_nodes =
        Everywhere-insert H (GoodNode h) _ _ s1.up_nodes (refl, refl, inl refl)
          (subst (Everywhere H (GoodNode h)) (sym up) inv.up_nodes);
    pending_nodes = good;
  }

  pub association_setup_resp-Inv :
      (c : Config) (now address : ℕ) (m : Setup) (s s' : State H)
      → association_setup_resp H h c now address m s ≡ some s'
      → Inv H h s
      → Inv H h s'
  unfolding association_setup_resp
  association_setup_resp-Inv c now address m s s' e inv =
      elim (Option-cases (take_pending m.node_id s.pending_nodes)) [
        | inl x ↦ let same : s ≡ s' = ground arith in subst (Inv H h) same inv
        | inr ((n, others), x) ↦
            elim (Option-cases (add_association_response H h c now address m s)) [
              | inl y ↦ ground arith
              | inr ((ok, s1), y) ↦
                  let kept =
                    add_association_response-Kept H h c now address m s s1 ok y inv.associations in
                  let good =
                    take_pending-GoodPending m.node_id s.pending_nodes others n x
                      inv.pending_nodes in
                  let same : associate H h m n others (ok, s1) ≡ s' = ground arith in
                  subst (Inv H h) same (associate-Inv m n others ok s s1 inv kept good)
            ]
      ]

  pub association_setup_request-Inv :
      (c : Config) (now address trxn_id : ℕ) (m : Setup) (s s' : State H)
      → association_setup_request H h c now address trxn_id m s ≡ some s'
      → Inv H h s
      → Inv H h s'
  unfolding association_setup_request take_pending
  association_setup_request-Inv c now address trxn_id m s s' e inv =
      elim (Option-cases (take_pending m.node_id s.pending_nodes)) [
        | inl x ↦
            let same : (s'.associations ≡ s.associations)
                × (s'.up_nodes ≡ s.up_nodes)
                × (s'.pending_nodes ≡ s.pending_nodes) =
              ground arith in
            record {
              associations = subst (Everywhere H (GoodAssociation h)) (sym same.0) inv.associations;
              up_nodes = subst (Everywhere H (GoodNode h)) (sym same.1) inv.up_nodes;
              pending_nodes = subst GoodPending (sym same.2) inv.pending_nodes;
            }
        | inr ((n, others), x) ↦
            elim (Option-cases (add_association_request H h c now address trxn_id n.id m s)) [
              | inl y ↦ ground arith
              | inr ((ok, s1), y) ↦
                  let kept =
                    add_association_request-Kept H h c now address trxn_id n.id m s s1 ok y
                      inv.associations in
                  let good =
                    take_pending-GoodPending m.node_id s.pending_nodes others n x
                      inv.pending_nodes in
                  let same : associate H h m n others (ok, s1) ≡ s' = ground arith in
                  subst (Inv H h) same (associate-Inv m n others ok s s1 inv kept good)
            ]
      ]

  -- A state that differs in the nodes in use and the pending nodes.
  with_nodes :
      (s : State H)
      → Inv H h s
      → (s' : State H) → s'.associations ≡ s.associations
      → Everywhere H (GoodNode h) s'.up_nodes
      → GoodPending s'.pending_nodes
      → Inv H h s'
  with_nodes s inv s' same up pending = record {
    associations = subst (Everywhere H (GoodAssociation h)) (sym same) inv.associations;
    up_nodes = up;
    pending_nodes = pending;
  }

  unreachable_same : (hash : ℕ) (s : State H) → notify_node_unreachable H hash s ≡ s
  unfolding notify_node_unreachable
  unreachable_same hash s = ground arith

  known_node :
      (hash : ℕ) (n n' : PfcpUpNode) (s : State H)
      → Inv H h s
      → find (u32 hash) s.up_nodes ≡ some n
      → n'.hash_node_id ≡ n.hash_node_id
      → n'.node_id ≡ n.node_id
      → (n'.association_state ≡ assoc_setup_state) ⊎ (n'.association_state ≡ assoc_unstable)
      → Inv H h (record s { up_nodes = write (u32 hash) n' s.up_nodes })
  known_node hash n n' s inv x same_hash same_id state =
      let (key, hashed, old) = inv.up_nodes (u32 hash) n x in
      with_nodes s inv (record s { up_nodes = write (u32 hash) n' s.up_nodes }) refl
        (Everywhere-write H (GoodNode h) (u32 hash) n' s.up_nodes (λ e. ground arith)
          (ground (arith, key), ground (arith, hashed), state) inv.up_nodes)
        inv.pending_nodes

  -- A node in use that is lost becomes a pending node. Its old entry is written before it is erased.
  lost_node :
      (hash : ℕ) (n n' : PfcpUpNode) (s : State H)
      → Inv H h s
      → find (u32 hash) s.up_nodes ≡ some n
      → n'.hash_node_id ≡ n.hash_node_id
      → n'.association_state ≡ assoc_lost
      → Inv H h (record s {
        up_nodes = erase (u32 n'.hash_node_id) (write (u32 hash) n' s.up_nodes);
        pending_nodes = s.pending_nodes ++ (n' ∷ []);
      })
  lost_node hash n n' s inv x same_hash lost =
      let (key, hashed, old) = inv.up_nodes (u32 hash) n x in
      let there : find (u32 hash) s.up_nodes ≢ none = λ e. ground arith in
      let place : u32 n'.hash_node_id ≡ u32 hash = ground (arith, key) in
      let nodes = write (u32 hash) n' s.up_nodes in
      with_nodes s inv
        (record s {
          up_nodes = erase (u32 n'.hash_node_id) nodes;
          pending_nodes = s.pending_nodes ++ (n' ∷ []);
        })
        refl
        (λ j v e.
          let erased = H.find-erase (u32 n'.hash_node_id) j nodes in
          let written = H.find-write (u32 hash) j n' s.up_nodes there in
          inv.up_nodes j v (ground (arith, place)))
        (GoodPending-append s.pending_nodes (n' ∷ []) inv.pending_nodes (inr (inr lost), tt))

  same_node :
      (n : PfcpUpNode)
      → ((notify_node_not_reachable n).hash_node_id ≡ n.hash_node_id)
        × ((notify_node_not_reachable n).node_id ≡ n.node_id)
        × ((notify_node_reachable n).hash_node_id ≡ n.hash_node_id)
        × ((notify_node_reachable n).node_id ≡ n.node_id)
        × ((notify_node_restarted n).hash_node_id ≡ n.hash_node_id)
        × ((notify_node_restarted n).node_id ≡ n.node_id)
        × ((notify_node_restarted n).association_state ≡ n.association_state)
  unfolding notify_node_not_reachable notify_node_reachable notify_node_restarted
  same_node n = (refl, refl, refl, refl, refl, refl, refl)

  pub node_not_reachable-Inv :
      (hash : ℕ) (s : State H) → Inv H h s → Inv H h (node_not_reachable H hash s)
  unfolding node_not_reachable
  node_not_reachable-Inv hash s inv = elim (Option-cases (find (u32 hash) s.up_nodes)) [
    | inl x ↦
        let s' : State H = record s {
          pending_nodes = update_pending notify_node_not_reachable hash s.pending_nodes;
        } in
        let run : node_not_reachable H hash s ≡ s' = ground arith in
        subst (Inv H h) (sym run) (
          with_nodes s inv s' refl inv.up_nodes
            (not_reachable-GoodPending hash s.pending_nodes inv.pending_nodes))
    | inr (n, x) ↦
        let n' = notify_node_not_reachable n in
        let same = same_node n in
        let (key, hashed, old) = inv.up_nodes (u32 hash) n x in
        let state = not_reachable_state n old in
        elim (Bool-cases (n'.association_state == assoc_lost)) [
          | inl lost ↦
              let s' : State H = record s {
                up_nodes = erase (u32 n'.hash_node_id) (write (u32 hash) n' s.up_nodes);
                pending_nodes = s.pending_nodes ++ (n' ∷ []);
              } in
              let run : node_not_reachable H hash s ≡ s' =
                ground (arith, unreachable_same hash s') in
              subst (Inv H h) (sym run) (lost_node hash n n' s inv x same.0 (ground arith))
          | inr other ↦
              let s' : State H = record s { up_nodes = write (u32 hash) n' s.up_nodes } in
              let run : node_not_reachable H hash s ≡ s' = ground arith in
              subst (Inv H h) (sym run) (known_node hash n n' s inv x same.0 same.1 (ground arith))
        ]
  ]

  pub node_reachable-Inv : (hash : ℕ) (s : State H) → Inv H h s → Inv H h (node_reachable H hash s)
  unfolding node_reachable
  node_reachable-Inv hash s inv = elim (Option-cases (find (u32 hash) s.up_nodes)) [
    | inl x ↦
        let s' : State H = record s {
          pending_nodes = update_pending notify_node_reachable hash s.pending_nodes;
        } in
        let run : node_reachable H hash s ≡ s' = ground arith in
        subst (Inv H h) (sym run) (
          with_nodes s inv s' refl inv.up_nodes
            (reachable-GoodPending hash s.pending_nodes inv.pending_nodes))
    | inr (n, x) ↦
        let n' = notify_node_reachable n in
        let s' : State H = record s { up_nodes = write (u32 hash) n' s.up_nodes } in
        let run : node_reachable H hash s ≡ s' = ground arith in
        let same = same_node n in
        let state = reachable_state n (inv.up_nodes (u32 hash) n x).2 in
        subst (Inv H h) (sym run) (known_node hash n n' s inv x same.2 same.3 state)
  ]

  pub node_restarted-Inv : (hash : ℕ) (s : State H) → Inv H h s → Inv H h (node_restarted H hash s)
  unfolding node_restarted
  node_restarted-Inv hash s inv = elim (Option-cases (find (u32 hash) s.up_nodes)) [
    | inl x ↦ let run : s ≡ node_restarted H hash s = ground arith in subst (Inv H h) run inv
    | inr (n, x) ↦
        let n' = notify_node_restarted n in
        let s' : State H = record s { up_nodes = write (u32 hash) n' s.up_nodes } in
        let run : node_restarted H hash s ≡ s' = ground arith in
        let same = same_node n in
        let state = (inv.up_nodes (u32 hash) n x).2 in
        subst (Inv H h) (sym run)
          (known_node hash n n' s inv x same.4 same.5 (ground (arith, same.6)))
  ]
