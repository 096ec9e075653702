-- ===== src/Pfcp/Overloads.antt =====
-- The overloads of `send_request` and of `send_response` in src/pfcp/pfcp.cpp, as one peer sends what
-- the other checks.
use openair_spgwc.Prelude.{
  ℕ, ◌≡◌, Bool, true, false, Option, none, some, List, [], ◌∷◌, refl, arith,
}
use openair_spgwc.Prelude.StdMap.{nat_key, find}
use openair_spgwc.Pfcp.MessageType.{check_response_type}
use openair_spgwc.Pfcp.State.{
  Endpoint, Datagram, Stack, get_next_seq_num, stop_proc_cleanup_timer, free_trxn_id,
}
use openair_spgwc.Pfcp.Send.{
  TransactionAction, delete_tx, continue_tx, send, register_request, respond, act,
  delete_transaction,
}
use openair_spgwc.Pfcp.Send.Requests.{
  send_heartbeat_request, send_association_setup_request, send_association_release_request,
  send_session_establishment_request, send_session_modification_request,
  send_session_deletion_request, send_session_report_request,
}
use openair_spgwc.Pfcp.Send.Responses.{
  send_heartbeat_response, send_association_setup_response, send_association_release_response,
  send_session_establishment_response, send_session_modification_response,
  send_session_deletion_response, send_session_report_response,
}
use openair_spgwc.Pfcp.Exchange.{numbered_fields}

-- The type of the datagram that was sent last.
unfoldable pub sent_type : List Datagram → ℕ
sent_type [] = 0
sent_type (d ∷ ds) = d.msg.header.message_type

sent_type-send :
    (now_retry now_cleanup message_type : ℕ) (seid : Option ℕ) (dest : Endpoint) (ies : List ℕ)
    (task_id trxn_id : ℕ) (s : Stack)
    → sent_type (send now_retry now_cleanup message_type seid dest ies task_id trxn_id s).1.sent
      ≡ message_type
unfolding sent_type send register_request
sent_type-send now_retry now_cleanup message_type seid dest ies task_id trxn_id s =
    (numbered_fields message_type (get_next_seq_num s).0 seid ies).0

act_sent :
    (a : TransactionAction) (frees : Bool) (trxn_id seq : ℕ) (s : Stack)
    → (act a frees trxn_id seq s).sent ≡ s.sent
unfolding act delete_transaction stop_proc_cleanup_timer free_trxn_id
act_sent delete_tx frees trxn_id seq s = ground arith
act_sent continue_tx frees trxn_id seq s = refl

sent_type-respond :
    (frees : Bool) (message_type : ℕ) (seid : Option ℕ) (dest : Endpoint) (ies : List ℕ)
    (trxn_id seq : ℕ) (a : TransactionAction) (s : Stack)
    → find trxn_id s.trxn_id2seq_num ≡ some seq
    → sent_type (respond frees message_type seid dest ies trxn_id a s).sent ≡ message_type
unfolding respond
sent_type-respond frees message_type seid dest ies trxn_id seq a s e =
    rw (e, respond)
      (rw (act_sent a frees trxn_id seq _)
        (unfold sent_type in (numbered_fields message_type seq seid ies).0))

-- For each of seven kinds of messages: what one stack sends as the response, for a transaction that it
-- has, is of a type that the other stack accepts as the answer to what it sends as the request.
pub responses_accepted :
    (now_retry now_cleanup : ℕ) (dest dest' : Endpoint) (seid seid' : ℕ) (ies ies' : List ℕ)
    (task_id trxn_id trxn_id' seq : ℕ) (a : TransactionAction) (s t : Stack)
    → find trxn_id' t.trxn_id2seq_num ≡ some seq
    → let accepted = λ (r : ℕ × Stack) (u : Stack).
      check_response_type (sent_type r.1.sent) (sent_type u.sent) in
      (accepted
          (send_heartbeat_request now_retry now_cleanup dest ies task_id trxn_id s)
          (send_heartbeat_response dest' ies' trxn_id' a t)
        ≡ true)
      × (accepted
            (send_association_setup_request now_retry now_cleanup dest ies task_id trxn_id s)
            (send_association_setup_response dest' ies' trxn_id' a t)
          ≡ true)
      × (accepted
            (send_association_release_request now_retry now_cleanup dest ies task_id trxn_id s)
            (send_association_release_response dest' ies' trxn_id' a t)
          ≡ true)
      × (accepted
            (send_session_establishment_request now_retry now_cleanup dest seid ies task_id trxn_id
              s)
            (send_session_establishment_response dest' seid' ies' trxn_id' a t)
          ≡ true)
      × (accepted
            (send_session_modification_request now_retry now_cleanup dest seid ies task_id trxn_id
              s)
            (send_session_modification_response dest' seid' ies' trxn_id' a t)
          ≡ true)
      × (accepted
            (send_session_deletion_request now_retry now_cleanup dest seid ies task_id trxn_id s)
            (send_session_deletion_response dest' seid' ies' trxn_id' a t)
          ≡ true)
      × (accepted
            (send_session_report_request now_retry now_cleanup dest seid ies task_id trxn_id s)
            (send_session_report_response dest' seid' ies' trxn_id' a t)
          ≡ true)
unfolding send_heartbeat_request send_association_setup_request send_association_release_request
    send_session_establishment_request send_session_modification_request
    send_session_deletion_request send_session_report_request send_heartbeat_response
    send_association_setup_response send_association_release_response
    send_session_establishment_response send_session_modification_response
    send_session_deletion_response send_session_report_response
responses_accepted now_retry now_cleanup dest dest' seid seid' ies ies' task_id trxn_id trxn_id' seq
      a s t e =
    let q = λ (m : ℕ) (o : Option ℕ).
      sent_type-send now_retry now_cleanup m o dest ies task_id trxn_id s in
    let r =
      λ (f : Bool) (m : ℕ) (o : Option ℕ). sent_type-respond f m o dest' ies' trxn_id' seq a t e in
    let ok : (m n : ℕ)
        → check_response_type m n ≡ true
        → (x y : ℕ) → x ≡ m
        → y ≡ n
        → check_response_type x y ≡ true =
      λ m n h x y p q'. rw (p, q') h in
    (
      ok 1 2 (unfold check_response_type in refl) _ _ (q 1 none) (r true 2 none),
      ok 5 6 (unfold check_response_type in refl) _ _ (q 5 none) (r false 6 none),
      ok 9 10 (unfold check_response_type in refl) _ _ (q 9 none) (r false 10 none),
      ok 50 51 (unfold check_response_type in refl) _ _ (q 50 (some seid))
          (r false 51 (some seid')),
      ok 52 53 (unfold check_response_type in refl) _ _ (q 52 (some seid))
          (r false 53 (some seid')),
      ok 54 55 (unfold check_response_type in refl) _ _ (q 54 (some seid))
          (r false 55 (some seid')),
      ok 56 57 (unfold check_response_type in refl) _ _ (q 56 (some seid))
          (r false 57 (some seid')),
    )
