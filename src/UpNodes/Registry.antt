-- ===== src/UpNodes/Registry.antt =====
-- src/oai_spgwc/pgw_pfcp_association.cpp: the operations of `pfcp_associations` on its map that do not
-- call the user-plane nodes. `now` is the reading of the clock, `none` a search for a transaction
-- identifier without end. Logging is left out.
pub mod Selection
use Prim.Native.String.{String}
use text.Mathlib.Text.{◌==◌ as str_eq}
use openair_spgwc.Prelude.{
  ℕ, ◌*◌, ◌/◌, ◌%◌, Bool, true, false, ◌&&◌, Option, none, some, List, [], ◌∷◌, ◌++◌, if◌then◌else◌,
  ◌==◌, leb, ◌>>=◌,
}
use openair_spgwc.Prelude.Words.{u32}
use openair_spgwc.Prelude.AtomicHashMap.{AtomicHashMap}
use openair_spgwc.Timers.{timer_setup, timer_remove}
use openair_spgwc.Pfcp.State.{no_endpoint}
use openair_spgwc.UpNodes.NodeId.{NodeId, no_node_id, StdHash, hash_node_id, same_node_id}
use openair_spgwc.UpNodes.Fseid.{Fseid}
use openair_spgwc.UpNodes.Node.{assoc_setup_state}
use openair_spgwc.UpNodes.Associations.{
  Association, setup_response, State, Config, cause_request_accepted, task_pgwc_sx,
  trigger_heartbeat_request, Setup, new_association, add_session, has_session, del_session,
  restore_association,
}

-- `get_association` of a session: the first in the order of the iterator.
unfoldable pub first_with_session : Fseid → List (ℕ × Association) → Option (ℕ × Association)
first_with_session f [] = none
first_with_session f ((k, a) ∷ m) =
    let rest = first_with_session f m in if has_session f a then some (k, a) else rest

-- The inner loop of `select_up_node`: the associations of a configured node that are set up.
unfoldable pub associated : String → List (ℕ × Association) → List Association
associated id [] = []
associated id ((k, a) ∷ m) =
    let rest = associated id m in
    if str_eq a.id id && a.state == assoc_setup_state then a ∷ rest else rest

unfoldable pub all_associated : List String → List (ℕ × Association) → List Association
all_associated [] m = []
all_associated (id ∷ ids) m = associated id m ++ all_associated ids m

-- `begin()` of a set of pointers: the lowest address.
unfoldable pub lowest : List Association → Option Association
lowest [] = none
lowest (a ∷ xs) = elim (lowest xs) [
  | none ↦ some a
  | some b ↦ if leb a.address b.address then some a else some b
]

unfoldable pub erase_candidate : NodeId → List Association → List Association
erase_candidate n [] = []
erase_candidate n (a ∷ xs) =
    let rest = erase_candidate n xs in if same_node_id a.node_id n then xs else a ∷ rest

-- The association of a node that restarted.
unfoldable pub updated_association : Option String → Setup → Association → Association
updated_association id m a = record a {
  recovery_time_stamp = m.recovery_time_stamp;
  function_features = m.up_function_features;
  user_plane_ip_resource_information = elim id [
    | none ↦ a.user_plane_ip_resource_information
    | some name ↦ m.user_plane_ip_resource_information
  ];
  is_trigger_heartbeat_request_procedure = true;
  state = assoc_setup_state;
  remote_endpoint = m.remote_endpoint;
}

module _ (H : AtomicHashMap) where
  open H use {find, insert, write, entries}

  unfoldable pub get_association : StdHash → NodeId → State H → Option (ℕ × Association)
  get_association h node_id s =
      let key = u32 (hash_node_id h node_id) in
      elim (find key s.associations) [ none ↦ none | some a ↦ some (key, a) ]

  -- `select_up_node`, with the names that `pgw_config::GetUpNodes` found.
  unfoldable pub select_up_node : List String → State H → Bool × NodeId
  unfolding all_associated lowest
  select_up_node up_nodes s = elim (lowest (all_associated up_nodes (entries s.associations))) [
    | none ↦ (false, no_node_id)
    | some a ↦ (true, a.node_id)
  ]

  unfoldable pub trigger_heartbeat_request_procedure :
      Config → ℕ → Association → State H → Association × State H
  trigger_heartbeat_request_procedure c now a s =
      let ms = c.association_heartbeat_period_ms in
      let (id, itti) =
        timer_setup now (ms / 1000) (ms % 1000 * 1000) task_pgwc_sx trigger_heartbeat_request
          a.hash_node_id s.itti in
      (record a { timer_heartbeat = id }, record s { itti = itti })

  -- `restore_sx_sessions` of a node.
  unfoldable pub restore_sx_sessions : StdHash → NodeId → State H → Option (State H)
  restore_sx_sessions h node_id s = elim (get_association h node_id s) [
    | none ↦ some s
    | some (k, a) ↦ elim (restore_association H a s) [
      | none ↦ none
      | some (a', s') ↦ some (record s' { associations = write k a' s'.associations })
    ]
  ]

  -- The end of both overloads of `add_association`: the heartbeats, then the sessions.
  unfoldable pub monitor :
      StdHash → Config → ℕ → NodeId → Bool → Bool → ℕ → Association → State H → Option (State H)
  unfolding trigger_heartbeat_request_procedure
  monitor h c now node_id triggers restores k a s =
      let (a', s') = trigger_heartbeat_request_procedure c now a s in
      let s1 : State H =
        if triggers then (record s' { associations = write k a' s'.associations }) else s in
      let restored = restore_sx_sessions h node_id s1 in if restores then restored else some s1

  -- The node has an association: its timer is removed, and if the node restarted, it is updated and
  -- the sessions are to be restored. `none` if there is nothing more to do.
  unfoldable pub register_known :
      Option String → Setup → ℕ → Association → State H → Option (Bool × ℕ × Association) × State H
  unfolding updated_association
  register_known id m k a s =
      let s' : State H = record s { itti = (timer_remove a.timer_heartbeat s.itti).1 } in
      let a' = updated_association id m a in
      if a.recovery_time_stamp == m.recovery_time_stamp
      then (none, s')
      else (some (true, k, a'), record s' { associations = write k a' s'.associations })

  unfoldable pub register_new :
      StdHash → ℕ → Option String → Setup → State H → Option (Bool × ℕ × Association) × State H
  unfolding new_association
  register_new h address id m s =
      let a = new_association h address m in
      let a' : Association = record a {
        id = elim id [ none ↦ a.id | some name ↦ name ];
        state = assoc_setup_state;
        remote_endpoint = m.remote_endpoint;
      } in
      let k = u32 a'.hash_node_id in
      (some (false, k, a'), record s { associations = insert k a' s.associations })

  -- The start of both overloads: whether the sessions are to be restored, and the association under
  -- its key. `id` is the name that the first overload sets.
  unfoldable pub register_association :
      StdHash → ℕ → Option String → Setup → State H → Option (Bool × ℕ × Association) × State H
  unfolding get_association register_known register_new
  register_association h address id m s = elim (get_association h m.node_id s) [
    | some (k, a) ↦ register_known id m k a s
    | none ↦ register_new h address id m s
  ]

  -- `add_association` for a setup request.
  unfoldable pub add_association_request :
      StdHash → Config → ℕ → ℕ → ℕ → String → Setup → State H → Option (Bool × State H)
  unfolding register_association monitor
  add_association_request h c now address trxn_id id m s =
      let (todo, s1) = register_association h address (some id) m s in
      elim todo [
        | none ↦ some (true, s1)
        | some (restores, k, a) ↦ elim c.pfcp_node_id [
          | none ↦ some (false, s1)
          | some this_node_id ↦
              let s2 : State H = record s1 {
                out =
                    setup_response trxn_id cause_request_accepted this_node_id m.remote_endpoint
                    ∷ s1.out;
              } in
              let triggers = a.is_trigger_heartbeat_request_procedure in
              do s3 ← monitor h c now m.node_id triggers restores k a s2; some (true, s3)
        ]
      ]

  -- `add_association` for a setup response.
  unfoldable pub add_association_response :
      StdHash → Config → ℕ → ℕ → Setup → State H → Option (Bool × State H)
  unfolding register_association monitor
  add_association_response h c now address m s =
      let m' : Setup = record m { user_plane_ip_resource_information = (false, []) } in
      let (todo, s1) = register_association h address none m' s in
      elim todo [
        | none ↦ some (true, s1)
        | some (restores, k, a) ↦ do
          s2 ← monitor h c now m'.node_id true restores k a s1
          some (true, s2)
      ]

  -- The state is compared with the constant, and not set to it.
  unfoldable pub notify_node_unreachable : ℕ → State H → State H
  notify_node_unreachable hash s = elim (find (u32 hash) s.associations) [ none ↦ s | some a ↦ s ]

  unfoldable pub notify_add_session : StdHash → NodeId → Fseid → State H → State H
  unfolding get_association
  notify_add_session h node_id f s = elim (get_association h node_id s) [
    | none ↦ s
    | some (k, a) ↦ record s { associations = write k (add_session f a) s.associations }
  ]

  unfoldable pub notify_del_session : Fseid → State H → State H
  unfolding first_with_session
  notify_del_session f s = elim (first_with_session f (entries s.associations)) [
    | none ↦ s
    | some (k, a) ↦ record s { associations = write k (del_session f a) s.associations }
  ]

  unfoldable pub add_peer_candidate_node : StdHash → ℕ → NodeId → State H → State H
  unfolding new_association
  add_peer_candidate_node h address node_id s = record s {
    pending_associations =
        erase_candidate node_id s.pending_associations
        ++ (new_association h address (record {
          remote_endpoint = no_endpoint;
          node_id = node_id;
          recovery_time_stamp = 0;
          up_function_features = (false, 0);
          user_plane_ip_resource_information = (false, []);
        })
            ∷ []);
  }
