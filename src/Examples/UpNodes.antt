-- ===== src/Examples/UpNodes.antt =====
-- A gateway of src/oai_spgwc/PfcpUpNodes.cpp with the one user-plane node "upf", whose name has the
-- hash 7.
use text.Mathlib.TextEquality.{eq_iff}
use openair_spgwc.Prelude.{
  ℕ, ◌^◌, ◌≡◌, ◌≢◌, ◌⊎◌, ◌↔◌, refl, inl, inr, true, false, none, some, [], ◌∷◌, if◌then◌else◌, ◌==◌,
  arith, length,
}
use openair_spgwc.Prelude.Words.{u32}
use openair_spgwc.Prelude.StdMap.{find, nat_key}
use openair_spgwc.Timers.{Itti, Timer, armed}
use openair_spgwc.Timers.Removal.{IsGone}
use openair_spgwc.Timers.Removal
use openair_spgwc.UidGenerator.{UidGenerator, get_uid}
use openair_spgwc.UidGenerator
use openair_spgwc.Pfcp.State.{Endpoint}
use Prim.Native.String.{String}
use openair_spgwc.UpNodes.NodeId.{NodeId, StdHash, hash_node_id, no_node_id, same_node_id}
use openair_spgwc.UpNodes.Fseid.{Fseid, fseid_lt}
use openair_spgwc.UpNodes.Fseid.Order.{Crossed, fseid_lt_both_iff}
use openair_spgwc.UpNodes.Node.{
  PfcpUpNode, assoc_setup_state, assoc_unstable, assoc_lost, notify_node_not_reachable,
  notify_node_reachable,
}
use openair_spgwc.UpNodes.Node.Recovery.{times, failures_lose, twelve_answers_recover}
use openair_spgwc.UpNodes.Associations.{Association, State, Config, Setup, restore_messages}
use openair_spgwc.UpNodes.Associations.Restore.{concat, AllFit, restore_messages-concat}
use openair_spgwc.UpNodes.Registry.{get_association, select_up_node, add_association_response}
use openair_spgwc.UpNodes.Registry.Selection.{On, Selected, select_up_node-Selected}
use openair_spgwc.UpNodes.Nodes.{awaits, take_pending, association_setup_request, node_reachable}
use openair_spgwc.UpNodes.Heartbeats.{
  initiate_heartbeat_request, timeout_heartbeat_request, handle_receive_heartbeat_response,
}
use openair_spgwc.UpNodes.Invariant.{Inv}
use openair_spgwc.UpNodes.Invariant.Steps.{here, next, fails, up_nodes_Step-Inv}
use openair_spgwc.UpNodes.Faults.Lost.{all_unreachable, lost_still_selected}
use openair_spgwc.UpNodes.Faults.Stuck.{IsStuck, first_pending}
use openair_spgwc.UpNodes.Faults.Stuck.Forever.{lost_node-IsStuck}
use openair_spgwc.UpNodes.Faults.Unwatched.{setup_request_unwatched}
use openair_spgwc.UpNodes.Faults.Unselected.{NoneFits, setup_response_unselected}
use openair_spgwc.UpNodes.Rounds.{Unawaited, Began, Ended, heartbeat_round}
use openair_spgwc.Examples.Maps.{list_map}

abbrev pub hashes : StdHash
hashes = record { of_u32 = λ n. n; of_string = λ s. 7 }

abbrev gateway : NodeId
gateway = record { node_id_type = 0; word0 = 9; word1 = 0; word2 = 0; word3 = 0; fqdn = "" }

abbrev pub upf : NodeId
upf = record { node_id_type = 2; word0 = 0; word1 = 0; word2 = 0; word3 = 0; fqdn = "upf" }

abbrev config : Config
config = record { association_heartbeat_period_ms = 10000; pfcp_node_id = some gateway }

abbrev peer : Endpoint
peer = record { addr_storage = 2 ∷ 0 ∷ []; addr_storage_len = 16 }

abbrev setup : Setup
setup = record {
  remote_endpoint = peer;
  node_id = upf;
  recovery_time_stamp = 5;
  up_function_features = (true, 0);
  user_plane_ip_resource_information = (false, []);
}

abbrev no_timer : Timer
no_timer = record { id = 0; task_id = 22; time_out = 1; arg1_user = 0; arg2_user = 0 }

-- One timer, number 3, is armed for the heartbeats.
abbrev timers : Itti
timers = record {
  timer_id = 3;
  timers = (record { id = 3; task_id = 10; time_out = 500; arg1_user = 11; arg2_user = 7 }) ∷ [];
  current_timer = no_timer;
  null = no_timer;
}

abbrev pub upf_association : Association
upf_association = record {
  address = 4096;
  node_id = upf;
  hash_node_id = 7;
  id = "upf";
  recovery_time_stamp = 5;
  function_features = (true, 0);
  user_plane_ip_resource_information = (false, []);
  remote_endpoint = peer;
  sessions = [];
  timer_heartbeat = 3;
  num_retries_timer_heartbeat = 0;
  trxn_id_heartbeat = 0;
  is_restore_sessions_pending = false;
  is_trigger_heartbeat_request_procedure = true;
  state = assoc_setup_state;
}

-- The node while its association is set up, and after it was lost.
abbrev node_in : ℕ → PfcpUpNode
node_in state = record {
  id = "upf";
  node_id = upf;
  hash_node_id = 7;
  peer_recovery_time_stamp = 5;
  peer_function_features = (true, 0);
  remote_endpoint = peer;
  association_state = state;
  consecutive_failed_echo_proc = 0;
  consecutive_successful_echo_proc = 0;
  failed_echo_proc = 0;
  successful_echo_proc = 0;
  restarts = 0;
}

abbrev pub in_use : State list_map
in_use = record {
  associations = (7, upf_association) ∷ [];
  pending_associations = [];
  up_nodes = (7, node_in assoc_setup_state) ∷ [];
  pending_nodes = [];
  itti = timers;
  uids = record { uid_generator = 0; uid_generated = [] };
  out = [];
}

abbrev lost : State list_map
lost = record in_use { up_nodes = []; pending_nodes = node_in assoc_lost ∷ [] }

abbrev nothing_yet : State list_map
nothing_yet = record in_use { associations = []; up_nodes = [] }

in_use-Inv : Inv list_map hashes in_use
unfolding find hash_node_id
in_use-Inv = record {
  associations = λ k a e. ground arith;
  up_nodes = λ k n e. ground arith;
  pending_nodes = tt;
}

lost-Inv : Inv list_map hashes lost
unfolding find hash_node_id
lost-Inv = record {
  associations = λ k a e. ground arith;
  up_nodes = λ k n e. ground arith;
  pending_nodes = (inr (inr refl), tt);
}

in_use_found : find 7 in_use.associations ≡ some upf_association
unfolding find
in_use_found = refl

up_nodes_Step-Inv_example :
    Inv list_map hashes (timeout_heartbeat_request list_map config 900 0 in_use)
up_nodes_Step-Inv_example = up_nodes_Step-Inv list_map hashes config (fails 900 0) in_use-Inv

lost_not_in_use : find (u32 7) lost.up_nodes ≡ none
unfolding find
lost_not_in_use = refl

lost_pending : first_pending 7 lost.pending_nodes ≡ some (node_in assoc_lost)
unfolding first_pending
lost_pending = refl

-- The lost node answers, and then sends the setup request again.
lost_node-IsStuck_example :
    IsStuck "upf"
      (timeout_heartbeat_request list_map config 900 0
        (node_reachable list_map 7 lost)).pending_nodes
lost_node-IsStuck_example =
    lost_node-IsStuck list_map hashes config 7 (node_in assoc_lost) lost-Inv lost_not_in_use
      lost_pending refl (next here (fails 900 0))

lost_still_selected_example :
    (n : NodeId) × (select_up_node list_map
        ("upf" ∷ [])
        (all_unreachable list_map hashes (7 ∷ 7 ∷ []) in_use)
      ≡ (true, n))
    × (select_up_node list_map ("upf" ∷ []) in_use ≡ (true, n))
lost_still_selected_example =
    lost_still_selected list_map hashes ("upf" ∷ []) (7 ∷ 7 ∷ []) 7 upf_association in_use
      in_use-Inv in_use_found (inl refl)

select_up_node-Selected_example :
    Selected list_map ("upf" ∷ []) in_use (select_up_node list_map ("upf" ∷ []) in_use)
select_up_node-Selected_example = select_up_node-Selected list_map ("upf" ∷ []) in_use

none_fits : NoneFits list_map hashes config ("upf" ∷ []) nothing_yet
unfolding find
none_fits = λ k a e. absurd (ground arith)

nothing_known : get_association list_map hashes upf nothing_yet ≡ none
unfolding get_association find hash_node_id
nothing_known = refl

no_empty_name : On {A = String} "" ("upf" ∷ []) → ⊥
no_empty_name (inl e) = let same : false ≡ true = (eq_iff "upf" "").1 e in ground arith
no_empty_name (inr e) = e

setup_response_unselected_example :
    (s' : State list_map) × (add_association_response list_map hashes config 600 8192 setup
        nothing_yet
      ≡ some (true, s'))
    × (get_association list_map hashes upf s' ≢ none)
    × (select_up_node list_map ("upf" ∷ []) s' ≡ (false, no_node_id))
setup_response_unselected_example =
    setup_response_unselected list_map hashes config 600 8192 ("upf" ∷ []) setup nothing_yet
      none_fits no_empty_name nothing_known

lost_takes : take_pending upf lost.pending_nodes ≡ some (node_in assoc_lost, [])
unfolding take_pending awaits same_node_id
lost_takes = refl

lost_known : get_association list_map hashes upf lost ≡ some (7, upf_association)
unfolding get_association find hash_node_id
lost_known = refl

timers-Inv : Removal.Inv timers
unfolding armed
timers-Inv = record {
  unique = (refl, tt);
  within = (omega arith, tt);
  current_within = omega arith;
  current_out = λ e. refl;
  null_id = refl;
}

setup_request_unwatched_example :
    (s' : State list_map) × (association_setup_request list_map hashes config 600 8192 44 setup lost
      ≡ some s')
    × (s'.out ≡ [])
    × IsGone 3 s'.itti
    × ((j : ℕ) → armed j s'.itti.timers ≡ (if 3 == j then false else armed j timers.timers))
    × (s'.associations ≡ lost.associations)
    × (s'.pending_nodes ≡ [])
setup_request_unwatched_example =
    setup_request_unwatched list_map hashes config 600 8192 44 7 setup upf_association
      (node_in assoc_lost) [] lost lost_takes lost_known refl timers-Inv (omega arith) (omega arith)

abbrev one_given : UidGenerator
one_given = record { uid_generator = 1; uid_generated = 1 ∷ [] }

first_uid :
    get_uid (2 ^ 64) in_use.uids ≡ some (1, record { uid_generator = 1; uid_generated = 1 ∷ [] })
unfolding get_uid UidGenerator.next_free UidGenerator.contains
first_uid = refl

unawaited : Unawaited list_map 1 in_use
unfolding find
unawaited = λ k a e. ground arith

node_found : find (u32 7) in_use.up_nodes ≡ some (node_in assoc_setup_state)
unfolding find
node_found = refl

heartbeat_round_example :
    (s1 : State list_map) × (s2 : State list_map) × (initiate_heartbeat_request list_map 7 in_use
      ≡ some s1)
    × Began list_map config 7 1 upf_association in_use s1
    × (handle_receive_heartbeat_response list_map config 700 1 5 s1 ≡ s2)
    × Ended list_map config 7 1 700 one_given upf_association (node_in assoc_setup_state) in_use s2
heartbeat_round_example =
    heartbeat_round list_map config 7 1 700 one_given upf_association (node_in assoc_setup_state)
      in_use in_use_found refl node_found first_uid unawaited

failures_lose_example :
    (times 2 notify_node_not_reachable (node_in assoc_setup_state)).association_state ≡ assoc_lost
failures_lose_example = failures_lose (node_in assoc_setup_state) 2 refl (omega arith)

twelve_answers_recover_example :
    (times 11 notify_node_reachable
      (notify_node_not_reachable (node_in assoc_setup_state))).association_state
    ≡ assoc_unstable
twelve_answers_recover_example = twelve_answers_recover (node_in assoc_setup_state) 11 refl

abbrev session : ℕ → Fseid
session n = record {
  v4 = true;
  v6 = false;
  seid = n;
  ipv4_address = 9;
  word0 = 0;
  word1 = 0;
  word2 = 0;
  word3 = 0;
}

restore_messages-concat_example :
    let ms = restore_messages (session 1 ∷ session 2 ∷ []) [] in
    (concat ms ≡ session 1 ∷ session 2 ∷ []) × AllFit ms × (length ms ≡ 1)
restore_messages-concat_example = restore_messages-concat (session 1 ∷ session 2 ∷ [])

-- The same session with an IPv6 address in place of the IPv4 address.
abbrev session6 : Fseid
session6 = record {
  v4 = false;
  v6 = true;
  seid = 1;
  ipv4_address = 0;
  word0 = 32;
  word1 = 0;
  word2 = 0;
  word3 = 1;
}

fseid_lt_both_iff_example :
    ((fseid_lt (session 1) session6 ≡ true) × (fseid_lt session6 (session 1) ≡ true))
    ↔ (((session 1).seid ≡ 1) × (Crossed (session 1) session6 ⊎ Crossed session6 (session 1)))
fseid_lt_both_iff_example = fseid_lt_both_iff (session 1) session6
