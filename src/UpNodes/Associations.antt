-- ===== src/UpNodes/Associations.antt =====
-- src/oai_spgwc/pgw_pfcp_association.hpp and src/oai_spgwc/pgw_pfcp_association.cpp:
-- `pfcp_association` and the part of `pfcp_associations` that does not call the user-plane nodes,
-- with `sx_session_restore_procedure` of src/oai_spgwc/pgwc_procedure.cpp. An association is held by
-- the map alone, so it is a value there; `address` is where the object lies. Logging is left out.
pub mod Restore
use Prim.Native.String.{String}
use text.Mathlib.Text.{◌==◌ as str_eq}
use openair_spgwc.Prelude.{
  ℕ, ◌*◌, ◌/◌, ◌%◌, ◌^◌, Bool, true, false, ◌&&◌, ◌||◌, Option, none, some, List, [], ◌∷◌, ◌++◌,
  if◌then◌else◌, ◌==◌, leb, length, ◌>>=◌,
}
use openair_spgwc.Prelude.Words.{u32}
use openair_spgwc.Prelude.AtomicHashMap.{AtomicHashMap}
use openair_spgwc.Timers.{Itti, timer_setup, timer_remove, invalid_timer_id}
use openair_spgwc.UidGenerator.{UidGenerator, get_uid}
use openair_spgwc.Pfcp.State.{Endpoint, no_endpoint}
use openair_spgwc.UpNodes.NodeId.{NodeId, no_node_id, StdHash, hash_node_id, same_node_id}
use openair_spgwc.UpNodes.Fseid.{Fseid, same_fseid}
use openair_spgwc.UpNodes.Node.{PfcpUpNode, assoc_null_state, assoc_setup_state}

pub record Association : Type 0 where
  pub address : ℕ
  pub node_id : NodeId
  pub hash_node_id : ℕ
  pub id : String
  pub recovery_time_stamp : ℕ
  pub function_features : Bool × ℕ
  pub user_plane_ip_resource_information : Bool × List ℕ
  pub remote_endpoint : Endpoint
  pub sessions : List Fseid
  pub timer_heartbeat : ℕ
  pub num_retries_timer_heartbeat : ℕ
  pub trxn_id_heartbeat : ℕ
  pub is_restore_sessions_pending : Bool
  pub is_trigger_heartbeat_request_procedure : Bool
  pub state : ℕ

-- What leaves through `pgwc_sxab` and through the queues of the tasks.
pub data Outgoing : Type 0 where
  setup_response : (trxn_id cause : ℕ) (node_id : NodeId) (r_endpoint : Endpoint) → Outgoing
  heartbeat_request : (r_endpoint : Endpoint) (trxn_id : ℕ) → Outgoing
  sx_restore : (sessions : List Fseid) → Outgoing

-- The two singletons `pfcp_associations` and `PfcpUpNodes`, and what they call.
pub record State (H : AtomicHashMap) : Type 0 where
  pub associations : H.Map Association
  pub pending_associations : List Association
  pub up_nodes : H.Map PfcpUpNode
  pub pending_nodes : List PfcpUpNode
  pub itti : Itti
  pub uids : UidGenerator
  pub out : List Outgoing

-- What is read of `pgw_config`; `GetPfcpNodeId` fails with `none`.
pub record Config : Type 0 where
  pub association_heartbeat_period_ms : ℕ
  pub pfcp_node_id : Option NodeId

abbrev pub cause_request_accepted : ℕ
cause_request_accepted = 1

abbrev pub cause_request_rejected : ℕ
cause_request_rejected = 64

abbrev pub task_pgwc_sx : ℕ
task_pgwc_sx = 10

abbrev pub trigger_heartbeat_request : ℕ
trigger_heartbeat_request = 11

-- What an association setup message says of the node.
pub record Setup : Type 0 where
  pub remote_endpoint : Endpoint
  pub node_id : NodeId
  pub recovery_time_stamp : ℕ
  pub up_function_features : Bool × ℕ
  pub user_plane_ip_resource_information : Bool × List ℕ

-- The constructors, which leave `id` empty.
unfoldable pub new_association : StdHash → ℕ → Setup → Association
unfolding no_endpoint
new_association h address m = record {
  address = address;
  node_id = m.node_id;
  hash_node_id = hash_node_id h m.node_id;
  id = "";
  recovery_time_stamp = m.recovery_time_stamp;
  function_features = m.up_function_features;
  user_plane_ip_resource_information = m.user_plane_ip_resource_information;
  remote_endpoint = no_endpoint;
  sessions = [];
  timer_heartbeat = invalid_timer_id;
  num_retries_timer_heartbeat = 0;
  trxn_id_heartbeat = 0;
  is_restore_sessions_pending = false;
  is_trigger_heartbeat_request_procedure = true;
  state = assoc_null_state;
}

-- `find` and `erase` of `std::set<fseid_t>`, where `operator<` orders the sessions.
unfoldable pub has_fseid : Fseid → List Fseid → Bool
has_fseid f [] = false
has_fseid f (x ∷ xs) = same_fseid x f || has_fseid f xs

unfoldable pub erase_fseid : Fseid → List Fseid → List Fseid
erase_fseid f [] = []
erase_fseid f (x ∷ xs) = if same_fseid x f then erase_fseid f xs else x ∷ erase_fseid f xs

-- `pfcp_association::notify_add_session`, `has_session` and `notify_del_session`.
unfoldable pub add_session : Fseid → Association → Association
add_session f a = record a {
  sessions = if has_fseid f a.sessions then a.sessions else f ∷ a.sessions;
}

unfoldable pub has_session : Fseid → Association → Bool
has_session f a = has_fseid f a.sessions

unfoldable pub del_session : Fseid → Association → Association
del_session f a = record a { sessions = erase_fseid f a.sessions }

-- The loop of `sx_session_restore_procedure::run`: `msg` is the message that is being filled. A list
-- stands for each set.
unfoldable pub restore_messages : List Fseid → List Fseid → List (List Fseid)
restore_messages [] [] = []
restore_messages [] (f ∷ fs) = (f ∷ fs) ∷ []
restore_messages (x ∷ xs) msg =
    let msg' = msg ++ (x ∷ []) in
    let full = leb 64 (length msg') in
    let rest = restore_messages xs (if full then [] else msg') in if full then msg' ∷ rest else rest

unfoldable pub send_restores : List (List Fseid) → List Outgoing → List Outgoing
send_restores [] out = out
send_restores (m ∷ ms) out = send_restores ms (sx_restore m ∷ out)

module _ (H : AtomicHashMap) where
  open H use {find, insert, write, entries}

  -- `restore_sx_sessions` of an association: the procedure takes a transaction identifier, and empties
  -- the set. `none` stands for a search for an identifier without end.
  unfoldable pub restore_association : Association → State H → Option (Association × State H)
  unfolding send_restores
  restore_association a s = elim a.sessions [
    | [] ↦ some (a, s)
    | f ∷ fs ↦ elim (get_uid (2 ^ 64) s.uids) [
      | none ↦ none
      | some (uid, g) ↦ some (
        record a { is_restore_sessions_pending = true; sessions = [] },
        record s { uids = g; out = send_restores (restore_messages (f ∷ fs) []) s.out },
      )
    ]
  ]
