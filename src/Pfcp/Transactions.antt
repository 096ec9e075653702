-- ===== src/Pfcp/Transactions.antt =====
-- Which identifiers of transactions are given back in src/pfcp/pfcp.cpp.
use openair_spgwc.Prelude.{
  ℕ, ◌≡◌, Bool, true, false, Option, none, some, List, arith, if◌then◌else◌, ◌==◌,
}
use openair_spgwc.Prelude.StdMap.{nat_key, find}
use openair_spgwc.UidGenerator.{contains}
use openair_spgwc.UidGenerator.Search.{contains-free_uid}
use openair_spgwc.Pfcp.State.{Endpoint, Procedure, Stack, stop_proc_cleanup_timer, free_trxn_id}
use openair_spgwc.Pfcp.Send.{delete_tx, delete_transaction, act, respond}
use openair_spgwc.Pfcp.Send.Responses.{
  send_heartbeat_response, send_association_setup_response, send_association_release_response,
  send_session_establishment_response, send_session_modification_response,
  send_session_deletion_response, send_session_report_response,
}

respond_uids :
    (frees : Bool) (message_type : ℕ) (seid : Option ℕ) (dest : Endpoint) (ies : List ℕ)
    (trxn_id seq v : ℕ) (p : Procedure) (s : Stack)
    → find trxn_id s.trxn_id2seq_num ≡ some seq
    → find seq s.pending_procedures ≡ some p
    → contains v (respond frees message_type seid dest ies trxn_id delete_tx s).uids.uid_generated
      ≡ (if frees
          then if trxn_id == v then false else contains v s.uids.uid_generated
          else contains v s.uids.uid_generated)
unfolding respond act delete_transaction stop_proc_cleanup_timer free_trxn_id
respond_uids frees message_type seid dest ies trxn_id seq v p s h e =
    ground (arith, contains-free_uid trxn_id v s.uids)

-- For a transaction that has a pending procedure: of the seven responses that end it only the
-- heartbeat response gives its identifier back; after each of the others every identifier is in use
-- that was in use before.
pub send_response_uids :
    (dest : Endpoint) (seid : ℕ) (ies : List ℕ) (trxn_id seq v : ℕ) (p : Procedure) (s : Stack)
    → find trxn_id s.trxn_id2seq_num ≡ some seq
    → find seq s.pending_procedures ≡ some p
    → let used = λ (t : Stack). contains v t.uids.uid_generated in
      (used (send_heartbeat_response dest ies trxn_id delete_tx s)
        ≡ (if trxn_id == v then false else used s))
      × (used (send_association_setup_response dest ies trxn_id delete_tx s) ≡ used s)
      × (used (send_association_release_response dest ies trxn_id delete_tx s) ≡ used s)
      × (used (send_session_establishment_response dest seid ies trxn_id delete_tx s) ≡ used s)
      × (used (send_session_modification_response dest seid ies trxn_id delete_tx s) ≡ used s)
      × (used (send_session_deletion_response dest seid ies trxn_id delete_tx s) ≡ used s)
      × (used (send_session_report_response dest seid ies trxn_id delete_tx s) ≡ used s)
unfolding send_heartbeat_response send_association_setup_response send_association_release_response
    send_session_establishment_response send_session_modification_response
    send_session_deletion_response send_session_report_response
send_response_uids dest seid ies trxn_id seq v p s h e = (
  respond_uids true 2 none dest ies trxn_id seq v p s h e,
  respond_uids false 6 none dest ies trxn_id seq v p s h e,
  respond_uids false 10 none dest ies trxn_id seq v p s h e,
  respond_uids false 51 (some seid) dest ies trxn_id seq v p s h e,
  respond_uids false 53 (some seid) dest ies trxn_id seq v p s h e,
  respond_uids false 55 (some seid) dest ies trxn_id seq v p s h e,
  respond_uids false 57 (some seid) dest ies trxn_id seq v p s h e,
)
