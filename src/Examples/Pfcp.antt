-- ===== src/Examples/Pfcp.antt =====
-- A session establishment request of src/pfcp/pfcp.cpp under the sequence number 6, its answer and its
-- timers: 1 for the retries, 2 for the clean-up.
use mathlib.Core.Path.{subst}
use openair_spgwc.Prelude.{
  Bool, ℕ, ◌+◌, ◌<◌, ◌≡◌, true, false, none, some, [], ◌∷◌, refl, sym, arith, if◌then◌else◌, ◌==◌,
}
use openair_spgwc.Prelude.StdMap.{nat_key, find, insert}
use openair_spgwc.Timers.{Itti, Timer, timer_setup, insert_timer}
use openair_spgwc.UidGenerator.{UidGenerator, contains}
use openair_spgwc.Pfcp.Header.{Msg, pfcp_msg, set_seid, set_sequence_number}
use openair_spgwc.Pfcp.MessageType.{has_response, check_response_type}
use openair_spgwc.Pfcp.State.{
  start_msg_retry_timer, setup_ms, start_proc_cleanup_timer, new_procedure, Endpoint, Procedure,
  Stack, init, allocated, get_next_seq_num,
}
use openair_spgwc.Pfcp.Send.{send, delete_tx, numbered, register_request, requesting}
use openair_spgwc.Pfcp.Overloads.{sent_type, responses_accepted}
use openair_spgwc.Pfcp.Send.Requests.{
  send_heartbeat_request, send_association_setup_request, send_association_release_request,
  send_session_establishment_request, send_session_modification_request,
  send_session_deletion_request, send_session_report_request,
}
use openair_spgwc.Pfcp.Send.Responses.{
  send_heartbeat_response, send_association_setup_response, send_association_release_response,
  send_session_establishment_response, send_session_modification_response,
  send_session_deletion_response, send_session_report_response,
}
use openair_spgwc.Pfcp.Receive.{handle_receive_message_cb, time_out_event}
use openair_spgwc.Pfcp.Consistency.{Inv, init-Inv}
use openair_spgwc.Pfcp.Consistency.Expiry.{IsQuiet}
use openair_spgwc.Pfcp.Consistency.Steps.{
  Step, Reach, sends, here, next, HasUids, Step-Inv, reachable_time_out_safe,
}
use openair_spgwc.Pfcp.Exchange.{IsIssued, SameMaps, send-handle_receive_message_cb}
use openair_spgwc.Pfcp.Retries.{retry_times_out, retries, copies, again}
use openair_spgwc.Pfcp.Unanswered.{unanswered_request, clashing_request_faults}
use openair_spgwc.Pfcp.Transactions.{send_response_uids}

abbrev idle : Timer
idle = record { id = 0; task_id = 22; time_out = 1; arg1_user = 0; arg2_user = 0 }

abbrev itti : Itti
itti = record { timer_id = 0; timers = []; current_timer = idle; null = idle }

abbrev uids : UidGenerator
uids = record { uid_generator = 7; uid_generated = 7 ∷ [] }

abbrev peer : Endpoint
peer = record { addr_storage = 2 ∷ 0 ∷ []; addr_storage_len = 16 }

abbrev fresh : Stack
fresh = init 1000 3 5 itti uids

abbrev waiting : Stack
waiting = (send 10 20 50 (some 9) peer [] 3 7 fresh).1

abbrev request : Msg
request = numbered 50 (some 9) [] 6

abbrev answer : Msg
answer = numbered 51 (some 8) [] 6

abbrev procedure : Procedure
procedure = record {
  retry_msg = some request;
  remote_endpoint = peer;
  retry_timer_id = 1;
  proc_cleanup_timer_id = 2;
  trxn_id = 7;
  initial_msg_type = 50;
  triggered_msg_type = 0;
  retry_count = 0;
}

fresh_sequence_number : find 6 fresh.pending_procedures ≡ none
unfolding init find
fresh_sequence_number = refl

sent_as : (send 10 20 50 (some 9) peer [] 3 7 fresh).0 ≡ 6
unfolding send get_next_seq_num numbered init set_sequence_number
sent_as = refl

waiting_maps :
    (find 1 waiting.msg_out_retry_timers ≡ some 6)
    × (find 6 waiting.pending_procedures ≡ some procedure)
    × (find 7 waiting.trxn_id2seq_num ≡ some 6)
    × (find 1 waiting.proc_cleanup_timers ≡ none)
    × (waiting.n1 ≡ 3)
    × (waiting.uids ≡ uids)
unfolding send get_next_seq_num numbered register_request requesting start_msg_retry_timer setup_ms
    timer_setup insert_timer find insert init start_proc_cleanup_timer new_procedure pfcp_msg
    set_seid set_sequence_number
waiting_maps = (refl, refl, refl, refl, refl, refl)

waiting_reached : Reach fresh waiting
waiting_reached = next here (
    sends 10 20 50 (some 9) peer [] 3 7
      (subst (λ q. find q fresh.pending_procedures ≡ none) (sym sent_as) fresh_sequence_number))

-- Timer 1 is no clean-up timer.
not_cleanup : (q : ℕ) → find 1 waiting.proc_cleanup_timers ≡ some q → IsQuiet q waiting
not_cleanup q e = let h = waiting_maps.3 in absurd (cc)

reachable_time_out_safe_example :
    (handled : Bool) × (s' : Stack) × (time_out_event 30 1 3 waiting ≡ some (handled, s'))
reachable_time_out_safe_example =
    reachable_time_out_safe 1000 3 5 itti uids 30 1 3 waiting_reached not_cleanup

fresh-Inv : Inv fresh
fresh-Inv = init-Inv 1000 3 5 itti uids

fresh_sends : Step fresh waiting
fresh_sends =
    sends 10 20 50 (some 9) peer [] 3 7
      (subst (λ q. find q fresh.pending_procedures ≡ none) (sym sent_as) fresh_sequence_number)

waiting-Inv : Inv waiting
waiting-Inv = Step-Inv fresh_sends fresh-Inv

Step-Inv_example : Inv waiting
Step-Inv_example = Step-Inv fresh_sends fresh-Inv

waiting-HasUids : HasUids waiting
waiting-HasUids = ground (arith, waiting_maps.5)

fresh-IsIssued : IsIssued fresh
unfolding init find
fresh-IsIssued = record { cleanup = λ t h. refl; retry = λ t h. refl }

send-handle_receive_message_cb_example :
    (s2 : Stack) × (handle_receive_message_cb 30 answer 3 waiting
      ≡ some (record { error = false; trxn_id = 7 }, s2))
    × SameMaps s2 fresh
unfolding send get_next_seq_num numbered init set_sequence_number has_response
send-handle_receive_message_cb_example =
    send-handle_receive_message_cb 10 20 30 50 (some 9) peer [] 3 7 answer fresh (omega arith)
      (omega arith) (unfold init in omega arith) fresh-IsIssued refl (unfold find in refl)
      (unfold find in refl) refl (unfold set_seid pfcp_msg in refl)

fresh_unused : (j : ℕ) → fresh.itti.timer_id < j → find j fresh.msg_out_retry_timers ≡ none
unfolding init find
fresh_unused j later = refl

unanswered_request_example :
    let (seq, s1) = send 10 20 50 (some 9) peer [] 3 7 fresh in
    let msg = numbered 50 (some 9) [] (get_next_seq_num fresh).0 in
    (p : Procedure) × (s2 : Stack) × (s3 : Stack) × (retries (30 ∷ 31 ∷ 32 ∷ []) 3 seq s1 ≡ some s2)
    × (s2.sent
        ≡ copies fresh.n1
            (again msg peer)
            ((record { socket = allocated; msg = msg; dest = peer }) ∷ fresh.sent))
    × (s2.notified ≡ fresh.notified)
    × (retry_times_out 33 3 seq s2 ≡ some s3)
    × (s3.sent ≡ s2.sent)
    × (s3.notified
        ≡ (record {
          endpoint = peer;
          message_type = msg.header.message_type;
          sequence_number = seq;
          trxn_id = 7;
        })
          ∷ fresh.notified)
    × (find seq s3.pending_procedures ≡ some p)
    × (find p.retry_timer_id s3.msg_out_retry_timers ≡ none)
unanswered_request_example =
    unanswered_request 10 20 50 (some 9) peer [] 3 7 (30 ∷ 31 ∷ 32 ∷ []) 33 fresh (omega arith)
      (omega arith) (unfold init in refl) (unfold init in omega arith) (unfold init in omega arith)
      fresh_unused
      (subst (λ q. find q fresh.pending_procedures ≡ none) (sym sent_as) fresh_sequence_number)

-- The peer has a request pending under the number 6.
abbrev peers : Procedure
peers = record procedure { retry_msg = none; retry_timer_id = 0 }

abbrev clashing : Stack
clashing = record fresh { pending_procedures = (6, peers) ∷ [] }

clashing_as : (send 10 20 50 (some 9) peer [] 3 7 clashing).0 ≡ 6
unfolding send get_next_seq_num numbered init set_sequence_number
clashing_as = refl

clashing_pending : find 6 clashing.pending_procedures ≡ some peers
unfolding find
clashing_pending = refl

clashing_timers : find (clashing.itti.timer_id + 1) clashing.msg_out_retry_timers ≡ none
unfolding find init
clashing_timers = refl

clashing_request_faults_example :
    time_out_event 30 (clashing.itti.timer_id + 1) 3 (send 10 20 50 (some 9) peer [] 3 7 clashing).1
    ≡ none
clashing_request_faults_example =
    clashing_request_faults 10 20 50 (some 9) peer [] 3 7 30 peers clashing (omega arith)
      (omega arith) (unfold init in omega arith) clashing_timers refl
      (subst (λ q. find q clashing.pending_procedures ≡ some peers) (sym clashing_as)
        clashing_pending)

send_response_uids_example :
    let used = λ (t : Stack). contains 7 t.uids.uid_generated in
    (used (send_heartbeat_response peer [] 7 delete_tx waiting)
      ≡ (if 7 == 7 then false else used waiting))
    × (used (send_association_setup_response peer [] 7 delete_tx waiting) ≡ used waiting)
    × (used (send_association_release_response peer [] 7 delete_tx waiting) ≡ used waiting)
    × (used (send_session_establishment_response peer 9 [] 7 delete_tx waiting) ≡ used waiting)
    × (used (send_session_modification_response peer 9 [] 7 delete_tx waiting) ≡ used waiting)
    × (used (send_session_deletion_response peer 9 [] 7 delete_tx waiting) ≡ used waiting)
    × (used (send_session_report_response peer 9 [] 7 delete_tx waiting) ≡ used waiting)
send_response_uids_example =
    send_response_uids peer 9 [] 7 6 7 procedure waiting waiting_maps.2 waiting_maps.1

responses_accepted_example :
    let accepted =
      λ (r : ℕ × Stack) (u : Stack). check_response_type (sent_type r.1.sent) (sent_type u.sent) in
    (accepted
        (send_heartbeat_request 10 20 peer [] 3 7 fresh)
        (send_heartbeat_response peer [] 7 delete_tx waiting)
      ≡ true)
    × (accepted
          (send_association_setup_request 10 20 peer [] 3 7 fresh)
          (send_association_setup_response peer [] 7 delete_tx waiting)
        ≡ true)
    × (accepted
          (send_association_release_request 10 20 peer [] 3 7 fresh)
          (send_association_release_response peer [] 7 delete_tx waiting)
        ≡ true)
    × (accepted
          (send_session_establishment_request 10 20 peer 9 [] 3 7 fresh)
          (send_session_establishment_response peer 8 [] 7 delete_tx waiting)
        ≡ true)
    × (accepted
          (send_session_modification_request 10 20 peer 9 [] 3 7 fresh)
          (send_session_modification_response peer 8 [] 7 delete_tx waiting)
        ≡ true)
    × (accepted
          (send_session_deletion_request 10 20 peer 9 [] 3 7 fresh)
          (send_session_deletion_response peer 8 [] 7 delete_tx waiting)
        ≡ true)
    × (accepted
          (send_session_report_request 10 20 peer 9 [] 3 7 fresh)
          (send_session_report_response peer 8 [] 7 delete_tx waiting)
        ≡ true)
responses_accepted_example =
    responses_accepted 10 20 peer peer 9 8 [] [] 3 7 7 6 delete_tx fresh waiting waiting_maps.2
