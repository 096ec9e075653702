-- ===== src/UpNodes/Node.antt =====
-- `PfcpUpNode` of src/oai_spgwc/PfcpUpNodes.hpp and src/oai_spgwc/PfcpUpNodes.cpp: what the gateway
-- thinks of a user-plane node. The members that are never read are left out. The counters `uint` and
-- `uint64_t` wrap. Logging is left out.
pub mod Recovery
use Prim.Native.String.{String}
use openair_spgwc.Prelude.{ℕ, ◌+◌, ◌%◌, ◌^◌, Bool, false, ◌&&◌, if◌then◌else◌, ◌==◌, leb, ltb}
use openair_spgwc.Prelude.Words.{u32}
use openair_spgwc.Pfcp.State.{Endpoint, no_endpoint}
use openair_spgwc.UpNodes.NodeId.{NodeId, no_node_id}

-- `AssociationState`
abbrev pub assoc_null_state : ℕ
assoc_null_state = 0

abbrev pub assoc_known_possible : ℕ
assoc_known_possible = 1

abbrev pub assoc_setup_state : ℕ
assoc_setup_state = 3

abbrev pub assoc_unstable : ℕ
assoc_unstable = 4

abbrev pub assoc_lost : ℕ
assoc_lost = 5

abbrev pub heartbeat_max_retries : ℕ
heartbeat_max_retries = 2

-- `std::pair<bool, up_function_features_s>` is a mark and the bits.
pub record PfcpUpNode : Type 0 where
  pub id : String
  pub node_id : NodeId
  pub hash_node_id : ℕ
  pub peer_recovery_time_stamp : ℕ
  pub peer_function_features : Bool × ℕ
  pub remote_endpoint : Endpoint
  pub association_state : ℕ
  pub consecutive_failed_echo_proc : ℕ
  pub consecutive_successful_echo_proc : ℕ
  pub failed_echo_proc : ℕ
  pub successful_echo_proc : ℕ
  pub restarts : ℕ

unfoldable pub new_up_node : String → PfcpUpNode
unfolding no_node_id no_endpoint
new_up_node id = record {
  id = id;
  node_id = no_node_id;
  hash_node_id = 0;
  peer_recovery_time_stamp = 0;
  peer_function_features = (false, 0);
  remote_endpoint = no_endpoint;
  association_state = 0;
  consecutive_failed_echo_proc = 0;
  consecutive_successful_echo_proc = 0;
  failed_echo_proc = 0;
  successful_echo_proc = 0;
  restarts = 0;
}

unfoldable pub notify_node_not_reachable : PfcpUpNode → PfcpUpNode
notify_node_not_reachable n =
    let failed = u32 (n.consecutive_failed_echo_proc + 1) in
    record n {
      consecutive_failed_echo_proc = failed;
      failed_echo_proc = (n.failed_echo_proc + 1) % 2 ^ 64;
      consecutive_successful_echo_proc = 0;
      association_state =
          if n.association_state == assoc_setup_state
          then assoc_unstable
          else if n.association_state == assoc_unstable && leb heartbeat_max_retries failed
          then assoc_lost
          else n.association_state;
    }

unfoldable pub notify_node_reachable : PfcpUpNode → PfcpUpNode
notify_node_reachable n = record n {
  association_state =
      if n.association_state == assoc_lost
      then assoc_known_possible
      else if n.association_state == assoc_unstable && ltb 10 n.consecutive_successful_echo_proc
      then assoc_setup_state
      else n.association_state;
  consecutive_failed_echo_proc = 0;
  consecutive_successful_echo_proc = u32 (n.consecutive_successful_echo_proc + 1);
  successful_echo_proc = (n.successful_echo_proc + 1) % 2 ^ 64;
}

unfoldable pub notify_node_restarted : PfcpUpNode → PfcpUpNode
notify_node_restarted n = record n { restarts = (n.restarts + 1) % 2 ^ 64 }
