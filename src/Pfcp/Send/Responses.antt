-- ===== src/Pfcp/Send/Responses.antt =====
-- src/pfcp/pfcp.cpp: the overloads of `send_response`, one for each response.
use openair_spgwc.Prelude.{ℕ, true, false, none, some, List}
use openair_spgwc.Pfcp.MessageType.{
  heartbeat_response, association_setup_response, association_release_response,
  session_establishment_response, session_modification_response, session_deletion_response,
  session_report_response,
}
use openair_spgwc.Pfcp.State.{Endpoint, Stack}
use openair_spgwc.Pfcp.Send.{TransactionAction, respond}

unfoldable pub send_heartbeat_response : Endpoint → List ℕ → ℕ → TransactionAction → Stack → Stack
send_heartbeat_response dest ies trxn_id a = respond true heartbeat_response none dest ies trxn_id a

unfoldable pub send_association_setup_response :
    Endpoint → List ℕ → ℕ → TransactionAction → Stack → Stack
send_association_setup_response dest ies trxn_id a =
    respond false association_setup_response none dest ies trxn_id a

unfoldable pub send_association_release_response :
    Endpoint → List ℕ → ℕ → TransactionAction → Stack → Stack
send_association_release_response dest ies trxn_id a =
    respond false association_release_response none dest ies trxn_id a

unfoldable pub send_session_establishment_response :
    Endpoint → ℕ → List ℕ → ℕ → TransactionAction → Stack → Stack
send_session_establishment_response dest seid ies trxn_id a =
    respond false session_establishment_response (some seid) dest ies trxn_id a

unfoldable pub send_session_modification_response :
    Endpoint → ℕ → List ℕ → ℕ → TransactionAction → Stack → Stack
send_session_modification_response dest seid ies trxn_id a =
    respond false session_modification_response (some seid) dest ies trxn_id a

unfoldable pub send_session_deletion_response :
    Endpoint → ℕ → List ℕ → ℕ → TransactionAction → Stack → Stack
send_session_deletion_response dest seid ies trxn_id a =
    respond false session_deletion_response (some seid) dest ies trxn_id a

unfoldable pub send_session_report_response :
    Endpoint → ℕ → List ℕ → ℕ → TransactionAction → Stack → Stack
send_session_report_response dest seid ies trxn_id a =
    respond false session_report_response (some seid) dest ies trxn_id a
