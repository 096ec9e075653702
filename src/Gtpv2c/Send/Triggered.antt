-- ===== src/Gtpv2c/Send/Triggered.antt =====
-- src/gtpv2c/gtpv2c.cpp: the overloads of `send_triggered_message`, one for each message.
use openair_spgwc.Prelude.{ℕ, none, some, List}
use openair_spgwc.Pfcp.State.{Endpoint}
use openair_spgwc.Prelude.AtomicHashMap.{AtomicHashMap}
use openair_spgwc.Gtpv2c.MessageType.{
  echo_response, create_session_response, delete_session_response, modify_bearer_response,
  release_access_bearers_response, downlink_data_notification_acknowledge,
}
use openair_spgwc.Gtpv2c.State.{Stack}
use openair_spgwc.Gtpv2c.Send.{TransactionAction, respond}

module _ (H : AtomicHashMap) where
  unfoldable pub send_echo_response : Endpoint → List ℕ → ℕ → TransactionAction → Stack H → Stack H
  send_echo_response dest ies gtp_tx_id a = respond H echo_response none dest ies gtp_tx_id a

  unfoldable pub send_create_session_response :
      Endpoint → ℕ → List ℕ → ℕ → TransactionAction → Stack H → Stack H
  send_create_session_response r_endpoint r_teid ies gtp_tx_id a =
      respond H create_session_response (some r_teid) r_endpoint ies gtp_tx_id a

  unfoldable pub send_delete_session_response :
      Endpoint → ℕ → List ℕ → ℕ → TransactionAction → Stack H → Stack H
  send_delete_session_response r_endpoint r_teid ies gtp_tx_id a =
      respond H delete_session_response (some r_teid) r_endpoint ies gtp_tx_id a

  unfoldable pub send_modify_bearer_response :
      Endpoint → ℕ → List ℕ → ℕ → TransactionAction → Stack H → Stack H
  send_modify_bearer_response r_endpoint r_teid ies gtp_tx_id a =
      respond H modify_bearer_response (some r_teid) r_endpoint ies gtp_tx_id a

  unfoldable pub send_release_access_bearers_response :
      Endpoint → ℕ → List ℕ → ℕ → TransactionAction → Stack H → Stack H
  send_release_access_bearers_response r_endpoint r_teid ies gtp_tx_id a =
      respond H release_access_bearers_response (some r_teid) r_endpoint ies gtp_tx_id a

  unfoldable pub send_downlink_data_notification_acknowledge :
      Endpoint → ℕ → List ℕ → ℕ → TransactionAction → Stack H → Stack H
  send_downlink_data_notification_acknowledge r_endpoint r_teid ies gtp_tx_id a =
      respond H downlink_data_notification_acknowledge (some r_teid) r_endpoint ies gtp_tx_id a
