-- ===== src/UpNodes/Invariant/Heartbeats.antt =====
-- The heartbeats and sessions of src/oai_spgwc/pgw_pfcp_association.cpp keep the invariant.
use mathlib.Core.Path.{subst}
use openair_spgwc.Prelude.{
  ℕ, ◌^◌, ◌≡◌, ◌⊎◌, refl, sym, inl, inr, some, List, [], ◌∷◌, ◌==◌, arith, Option-cases, Bool-cases,
}
use openair_spgwc.Prelude.Words.{u32}
use openair_spgwc.Prelude.StdMap.{Has}
use openair_spgwc.Prelude.AtomicHashMap.{AtomicHashMap}
use openair_spgwc.Prelude.AtomicHashMap.Everywhere.{Everywhere, Everywhere-write}
use openair_spgwc.UidGenerator.{UidGenerator, get_uid}
use openair_spgwc.Pfcp.State.{Endpoint}
use openair_spgwc.UpNodes.NodeId.{NodeId, StdHash, hash_node_id}
use openair_spgwc.UpNodes.Fseid.{Fseid}
use openair_spgwc.UpNodes.Associations.{Association, heartbeat_request, State, Config, add_session}
use openair_spgwc.UpNodes.Registry.{
  get_association, trigger_heartbeat_request_procedure, notify_add_session, add_peer_candidate_node,
}
use openair_spgwc.UpNodes.Nodes.{node_not_reachable, node_reachable, node_restarted}
use openair_spgwc.UpNodes.Heartbeats.{
  first_with_trxn, first_with_endpoint, send_heartbeat_request, initiate_heartbeat_request,
  end_heartbeat, next_heartbeat, timeout_heartbeat_request, handle_receive_heartbeat_response,
  handle_receive_heartbeat_request,
}
use openair_spgwc.UpNodes.Invariant.{GoodAssociation, GoodNode, GoodPending, Inv}
use openair_spgwc.UpNodes.Invariant.Handlers.{
  node_not_reachable-Inv, node_reachable-Inv, node_restarted-Inv,
}

first_with_trxn-Has :
    (t k : ℕ) (a : Association) (m : List (ℕ × Association))
    → first_with_trxn t m ≡ some (k, a)
    → Has k a m
unfolding first_with_trxn
first_with_trxn-Has t k a [] e = cc
first_with_trxn-Has t k a ((j, b) ∷ m) e = ground (arith, first_with_trxn-Has t k a m)

module _ (H : AtomicHashMap) (h : StdHash) (c : Config) where
  open H use {find, write, entries}

  -- A state in which an association was written, and nothing else that matters here.
  written :
      (k : ℕ) (a a' : Association) (s : State H)
      → Inv H h s
      → find k s.associations ≡ some a
      → a'.hash_node_id ≡ a.hash_node_id
      → a'.node_id ≡ a.node_id
      → a'.state ≡ a.state
      → (s' : State H) → s'.associations ≡ write k a' s.associations
      → s'.up_nodes ≡ s.up_nodes
      → s'.pending_nodes ≡ s.pending_nodes
      → Inv H h s'
  written k a a' s inv found same_hash same_id same_state s' ea eu ep =
      let (key, hashed, up) = inv.associations k a found in
      let all =
        Everywhere-write H (GoodAssociation h) k a' s.associations (λ e. ground arith)
          (ground (arith, key), ground (arith, hashed), ground (arith, up)) inv.associations in
      record {
        associations = subst (Everywhere H (GoodAssociation h)) (sym ea) all;
        up_nodes = subst (Everywhere H (GoodNode h)) (sym eu) inv.up_nodes;
        pending_nodes = subst GoodPending (sym ep) inv.pending_nodes;
      }

  trxn_found :
      (t k : ℕ) (a : Association) (s : State H)
      → first_with_trxn t (entries s.associations) ≡ some (k, a)
      → find k s.associations ≡ some a
  trxn_found t k a s e =
      (H.entries_iff k a s.associations).0 (first_with_trxn-Has t k a (entries s.associations) e)

  end_heartbeat-Inv :
      (k : ℕ) (a : Association) (s : State H)
      → Inv H h s
      → find k s.associations ≡ some a
      → let (a', s') = end_heartbeat H k a s in Inv H h s' × (find k s'.associations ≡ some a')
  unfolding end_heartbeat
  end_heartbeat-Inv k a s inv found =
      let a' = (end_heartbeat H k a s).0 in
      (
        written k a a' s inv found refl refl refl (end_heartbeat H k a s).1 refl refl refl,
        (let law = H.find-write k k a' s.associations (λ e. ground arith) in ground arith),
      )

  next_heartbeat-Inv :
      (now k : ℕ) (a : Association) (s : State H)
      → Inv H h s
      → find k s.associations ≡ some a
      → Inv H h (next_heartbeat H c now k a s)
  unfolding next_heartbeat trigger_heartbeat_request_procedure
  next_heartbeat-Inv now k a s inv found =
      let (a', s') = trigger_heartbeat_request_procedure H c now a s in
      written k a a' s inv found refl refl refl (next_heartbeat H c now k a s) refl refl refl

  pub timeout_heartbeat_request-Inv :
      (now t : ℕ) (s : State H) → Inv H h s → Inv H h (timeout_heartbeat_request H c now t s)
  unfolding timeout_heartbeat_request
  timeout_heartbeat_request-Inv now t s inv =
      elim (Option-cases (first_with_trxn t (entries s.associations))) [
        | inl x ↦
            let run : s ≡ timeout_heartbeat_request H c now t s = ground arith in
            subst (Inv H h) run inv
        | inr ((k, a), x) ↦
            let (a', s1) = end_heartbeat H k a s in
            let (inv1, found1) = end_heartbeat-Inv k a s inv (trxn_found t k a s x) in
            let s2 = next_heartbeat H c now k a' s1 in
            let run : timeout_heartbeat_request H c now t s
                ≡ node_not_reachable H a.hash_node_id s2 =
              ground arith in
            subst (Inv H h) (sym run) (
              node_not_reachable-Inv H h a.hash_node_id s2
                (next_heartbeat-Inv now k a' s1 inv1 found1))
      ]

  pub handle_receive_heartbeat_response-Inv :
      (now t stamp : ℕ) (s : State H)
      → Inv H h s
      → Inv H h (handle_receive_heartbeat_response H c now t stamp s)
  unfolding handle_receive_heartbeat_response
  handle_receive_heartbeat_response-Inv now t stamp s inv =
      elim (Option-cases (first_with_trxn t (entries s.associations))) [
        | inl x ↦
            let run : s ≡ handle_receive_heartbeat_response H c now t stamp s = ground arith in
            subst (Inv H h) run inv
        | inr ((k, a), x) ↦
            let (a', s1) = end_heartbeat H k a s in
            let (inv1, found1) = end_heartbeat-Inv k a s inv (trxn_found t k a s x) in
            let s2 = next_heartbeat H c now k a' s1 in
            elim (Bool-cases (a.recovery_time_stamp == stamp)) [
              | inl same ↦
                  let run : handle_receive_heartbeat_response H c now t stamp s
                      ≡ node_reachable H a.hash_node_id s2 =
                    ground arith in
                  subst (Inv H h) (sym run) (
                    node_reachable-Inv H h a.hash_node_id s2
                      (next_heartbeat-Inv now k a' s1 inv1 found1))
              | inr other ↦
                  let run : handle_receive_heartbeat_response H c now t stamp s
                      ≡ node_restarted H a.hash_node_id s1 =
                    ground arith in
                  subst (Inv H h) (sym run) (node_restarted-Inv H h a.hash_node_id s1 inv1)
            ]
      ]

  pub handle_receive_heartbeat_request-Inv :
      (e : Endpoint) (stamp : ℕ) (s : State H)
      → Inv H h s
      → Inv H h (handle_receive_heartbeat_request H e stamp s)
  unfolding handle_receive_heartbeat_request
  handle_receive_heartbeat_request-Inv e stamp s inv =
      elim (Option-cases (first_with_endpoint e (entries s.associations))) [
        | inl x ↦
            let run : s ≡ handle_receive_heartbeat_request H e stamp s = ground arith in
            subst (Inv H h) run inv
        | inr ((k, a), x) ↦ elim (Bool-cases (a.recovery_time_stamp == stamp)) [
          | inl same ↦
              let run : handle_receive_heartbeat_request H e stamp s
                  ≡ node_reachable H a.hash_node_id s =
                ground arith in
              subst (Inv H h) (sym run) (node_reachable-Inv H h a.hash_node_id s inv)
          | inr other ↦
              let run : handle_receive_heartbeat_request H e stamp s
                  ≡ node_restarted H a.hash_node_id s =
                ground arith in
              subst (Inv H h) (sym run) (node_restarted-Inv H h a.hash_node_id s inv)
        ]
      ]

  -- The transaction of the heartbeat is noted in the association.
  initiated :
      (hash : ℕ) (a : Association) (s s' : State H)
      → find (u32 hash) s.associations ≡ some a
      → initiate_heartbeat_request H hash s ≡ some s'
      → (s' ≡ s)
        ⊎ ((uid : ℕ) × (g : UidGenerator) × (get_uid (2 ^ 64) s.uids ≡ some (uid, g))
            × (s' ≡ record s {
              uids = g;
              out = heartbeat_request a.remote_endpoint uid ∷ s.out;
              associations =
                  write
                    (u32 hash)
                    (record a { num_retries_timer_heartbeat = 0; trxn_id_heartbeat = uid })
                    s.associations;
            }))
  unfolding initiate_heartbeat_request send_heartbeat_request
  initiated hash a s s' found e = elim (Option-cases (get_uid (2 ^ 64) s.uids)) [
    | inl x ↦ inl (ground arith)
    | inr ((uid, g), x) ↦ elim (Bool-cases a.is_trigger_heartbeat_request_procedure) [
      | inl t ↦ inr (uid, g, x, ground arith)
      | inr f ↦ inl (ground arith)
    ]
  ]

  pub initiate_heartbeat_request-Inv :
      (hash : ℕ) (s s' : State H)
      → initiate_heartbeat_request H hash s ≡ some s'
      → Inv H h s
      → Inv H h s'
  unfolding initiate_heartbeat_request
  initiate_heartbeat_request-Inv hash s s' e inv =
      elim (Option-cases (find (u32 hash) s.associations)) [
        | inl x ↦ let same : s ≡ s' = ground arith in subst (Inv H h) same inv
        | inr (a, x) ↦ elim (initiated hash a s s' x e) [
          | inl same ↦ subst (Inv H h) (sym same) inv
          | inr (uid, g, taken, same) ↦
              subst (Inv H h) (sym same)
                (written (u32 hash) a _ s inv x refl refl refl _ refl refl refl)
        ]
      ]

  pub notify_add_session-Inv :
      (n : NodeId) (f : Fseid) (s : State H) → Inv H h s → Inv H h (notify_add_session H h n f s)
  unfolding notify_add_session get_association add_session
  notify_add_session-Inv n f s inv =
      let key = u32 (hash_node_id h n) in
      elim (Option-cases (find key s.associations)) [
        | inl x ↦
            let run : s ≡ notify_add_session H h n f s = ground arith in subst (Inv H h) run inv
        | inr (a, x) ↦
            let s' : State H = record s {
              associations = write key (add_session f a) s.associations;
            } in
            let run : notify_add_session H h n f s ≡ s' = ground arith in
            subst (Inv H h) (sym run)
              (written key a (add_session f a) s inv x refl refl refl s' refl refl refl)
      ]

  pub add_peer_candidate_node-Inv :
      (address : ℕ) (n : NodeId) (s : State H)
      → Inv H h s
      → Inv H h (add_peer_candidate_node H h address n s)
  unfolding add_peer_candidate_node
  add_peer_candidate_node-Inv address n s inv = record {
    associations = inv.associations;
    up_nodes = inv.up_nodes;
    pending_nodes = inv.pending_nodes;
  }
