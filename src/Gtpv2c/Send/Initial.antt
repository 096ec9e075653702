-- ===== src/Gtpv2c/Send/Initial.antt =====
-- src/gtpv2c/gtpv2c.cpp: the overloads of `send_initial_message`, one for each message. The two
-- readings of the clock come first, then what the source passes.
use openair_spgwc.Prelude.{ℕ, none, some, List}
use openair_spgwc.Pfcp.State.{Endpoint}
use openair_spgwc.Prelude.AtomicHashMap.{AtomicHashMap}
use openair_spgwc.Gtpv2c.MessageType.{
  echo_request, create_session_request, delete_session_request, modify_bearer_request,
  release_access_bearers_request, downlink_data_notification,
}
use openair_spgwc.Gtpv2c.State.{Stack}
use openair_spgwc.Gtpv2c.Send.{send}

module _ (H : AtomicHashMap) where
  unfoldable pub send_echo_request : ℕ → ℕ → Endpoint → List ℕ → ℕ → ℕ → Stack H → ℕ × Stack H
  send_echo_request now_retry now_cleanup dest ies task_id gtp_tx_id =
      send H now_retry now_cleanup echo_request none 0 dest ies task_id gtp_tx_id

  unfoldable pub send_create_session_request :
      ℕ → ℕ → Endpoint → ℕ → ℕ → List ℕ → ℕ → ℕ → Stack H → ℕ × Stack H
  send_create_session_request now_retry now_cleanup dest r_teid l_teid ies task_id gtp_tx_id =
      send H now_retry now_cleanup create_session_request (some r_teid) l_teid dest ies task_id
        gtp_tx_id

  unfoldable pub send_delete_session_request :
      ℕ → ℕ → Endpoint → ℕ → ℕ → List ℕ → ℕ → ℕ → Stack H → ℕ × Stack H
  send_delete_session_request now_retry now_cleanup dest r_teid l_teid ies task_id gtp_tx_id =
      send H now_retry now_cleanup delete_session_request (some r_teid) l_teid dest ies task_id
        gtp_tx_id

  unfoldable pub send_modify_bearer_request :
      ℕ → ℕ → Endpoint → ℕ → ℕ → List ℕ → ℕ → ℕ → Stack H → ℕ × Stack H
  send_modify_bearer_request now_retry now_cleanup dest r_teid l_teid ies task_id gtp_tx_id =
      send H now_retry now_cleanup modify_bearer_request (some r_teid) l_teid dest ies task_id
        gtp_tx_id

  unfoldable pub send_release_access_bearers_request :
      ℕ → ℕ → Endpoint → ℕ → ℕ → List ℕ → ℕ → ℕ → Stack H → ℕ × Stack H
  send_release_access_bearers_request now_retry now_cleanup dest r_teid l_teid ies task_id
        gtp_tx_id =
      send H now_retry now_cleanup release_access_bearers_request (some r_teid) l_teid dest ies
        task_id gtp_tx_id

  unfoldable pub send_downlink_data_notification :
      ℕ → ℕ → Endpoint → ℕ → ℕ → List ℕ → ℕ → ℕ → Stack H → ℕ × Stack H
  send_downlink_data_notification now_retry now_cleanup dest r_teid l_teid ies task_id gtp_tx_id =
      send H now_retry now_cleanup downlink_data_notification (some r_teid) l_teid dest ies task_id
        gtp_tx_id
