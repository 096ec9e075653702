-- ===== src/Pfcp/Send/Requests.antt =====
-- src/pfcp/pfcp.cpp: the overloads of `send_request`, one for each request. The two readings of the
-- clock come first, then what the source passes.
use openair_spgwc.Prelude.{ℕ, none, some, List}
use openair_spgwc.Pfcp.MessageType.{
  heartbeat_request, association_setup_request, association_release_request, node_report_request,
  session_establishment_request, session_modification_request, session_deletion_request,
  session_report_request,
}
use openair_spgwc.Pfcp.State.{Endpoint, Stack}
use openair_spgwc.Pfcp.Send.{send}

unfoldable pub send_heartbeat_request : ℕ → ℕ → Endpoint → List ℕ → ℕ → ℕ → Stack → ℕ × Stack
send_heartbeat_request now_retry now_cleanup dest ies task_id trxn_id =
    send now_retry now_cleanup heartbeat_request none dest ies task_id trxn_id

unfoldable pub send_association_setup_request :
    ℕ → ℕ → Endpoint → List ℕ → ℕ → ℕ → Stack → ℕ × Stack
send_association_setup_request now_retry now_cleanup dest ies task_id trxn_id =
    send now_retry now_cleanup association_setup_request none dest ies task_id trxn_id

unfoldable pub send_association_release_request :
    ℕ → ℕ → Endpoint → List ℕ → ℕ → ℕ → Stack → ℕ × Stack
send_association_release_request now_retry now_cleanup dest ies task_id trxn_id =
    send now_retry now_cleanup association_release_request none dest ies task_id trxn_id

-- This overload has a `seid` that it does not set.
unfoldable pub send_node_report_request : ℕ → ℕ → Endpoint → ℕ → List ℕ → ℕ → ℕ → Stack → ℕ × Stack
send_node_report_request now_retry now_cleanup dest seid ies task_id trxn_id =
    send now_retry now_cleanup node_report_request none dest ies task_id trxn_id

unfoldable pub send_session_establishment_request :
    ℕ → ℕ → Endpoint → ℕ → List ℕ → ℕ → ℕ → Stack → ℕ × Stack
send_session_establishment_request now_retry now_cleanup dest seid ies task_id trxn_id =
    send now_retry now_cleanup session_establishment_request (some seid) dest ies task_id trxn_id

unfoldable pub send_session_modification_request :
    ℕ → ℕ → Endpoint → ℕ → List ℕ → ℕ → ℕ → Stack → ℕ × Stack
send_session_modification_request now_retry now_cleanup dest seid ies task_id trxn_id =
    send now_retry now_cleanup session_modification_request (some seid) dest ies task_id trxn_id

unfoldable pub send_session_deletion_request :
    ℕ → ℕ → Endpoint → ℕ → List ℕ → ℕ → ℕ → Stack → ℕ × Stack
send_session_deletion_request now_retry now_cleanup dest seid ies task_id trxn_id =
    send now_retry now_cleanup session_deletion_request (some seid) dest ies task_id trxn_id

unfoldable pub send_session_report_request :
    ℕ → ℕ → Endpoint → ℕ → List ℕ → ℕ → ℕ → Stack → ℕ × Stack
send_session_report_request now_retry now_cleanup dest seid ies task_id trxn_id =
    send now_retry now_cleanup session_report_request (some seid) dest ies task_id trxn_id
