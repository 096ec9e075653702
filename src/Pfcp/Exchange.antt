-- ===== src/Pfcp/Exchange.antt =====
-- A request of ours and its answer, in src/pfcp/pfcp.cpp.
use openair_spgwc.Prelude.{
  ℕ, ◌+◌, ◌%◌, ◌^◌, ◌<◌, ◌≡◌, ◌∙◌, true, false, Option, none, some, List, refl, arith,
}
use openair_spgwc.Prelude.StdMap.{nat_key, find, insert, erase, find-insert, find-erase}
use openair_spgwc.Timers.{timer_setup}
use openair_spgwc.Pfcp.MessageType.{has_response, check_response_type}
use openair_spgwc.Pfcp.Header.{Msg, pfcp_msg, set_seid, set_sequence_number}
use openair_spgwc.Pfcp.State.{
  Endpoint, Procedure, Stack, new_procedure, get_next_seq_num, setup_ms, start_msg_retry_timer,
  start_proc_cleanup_timer,
}
use openair_spgwc.Pfcp.Send.{send, numbered, requesting, register_request, proc_time_out_ms}
use openair_spgwc.Pfcp.Receive.{close_procedure, handle_receive_message_cb}
use openair_spgwc.Pfcp.Consistency.Opening.{
  after_retry, sent_procedure, register_request_maps, close_procedure_maps,
}

-- The numbers of the timers that the stack knows have been given out.
pub record IsIssued (s : Stack) : Type 0 where
  pub cleanup : (t : ℕ) → s.itti.timer_id < t → find t s.proc_cleanup_timers ≡ none
  pub retry : (t : ℕ) → s.itti.timer_id < t → find t s.msg_out_retry_timers ≡ none

-- Two stacks have the same maps.
pub record SameMaps (a b : Stack) : Type 0 where
  pub pending : (q : ℕ) → find q a.pending_procedures ≡ find q b.pending_procedures
  pub trxn : (x : ℕ) → find x a.trxn_id2seq_num ≡ find x b.trxn_id2seq_num
  pub cleanup : (t : ℕ) → find t a.proc_cleanup_timers ≡ find t b.proc_cleanup_timers
  pub retry : (t : ℕ) → find t a.msg_out_retry_timers ≡ find t b.msg_out_retry_timers

erase_insert :
    {V : Type 0} (k j : ℕ) (v : V) (m : List (ℕ × V))
    → find k m ≡ none
    → find j (erase k (insert k v m)) ≡ find j m
erase_insert k j v m e = ground (arith, find-erase k j (insert k v m), find-insert k j v m)

close_procedure_result :
    (seq : ℕ) (p : Procedure) (s : Stack)
    → (close_procedure seq p s).0 ≡ record { error = false; trxn_id = p.trxn_id }
unfolding close_procedure
close_procedure_result seq p s = refl

setup_ms_number :
    (now ms task_id : ℕ) (s : Stack)
    → 0 < task_id
    → task_id < 21
    → s.itti.timer_id + 1 < 2 ^ 32
    → ((setup_ms now ms task_id s).0 ≡ s.itti.timer_id + 1)
      × ((setup_ms now ms task_id s).1.itti.timer_id ≡ s.itti.timer_id + 1)
unfolding setup_ms timer_setup
setup_ms_number now ms task_id s low high room = ground arith

start_msg_retry_timer_number :
    (now ms task_id seq : ℕ) (p : Procedure) (s : Stack)
    → 0 < task_id
    → task_id < 21
    → s.itti.timer_id + 1 < 2 ^ 32
    → let (p', s') = start_msg_retry_timer now p ms task_id seq s in
      (p'.retry_timer_id ≡ s.itti.timer_id + 1) × (s'.itti.timer_id ≡ s.itti.timer_id + 1)
unfolding start_msg_retry_timer
start_msg_retry_timer_number now ms task_id seq p s low high room =
    ground (arith, setup_ms_number now ms task_id s low high room)

start_proc_cleanup_timer_number :
    (now ms task_id seq : ℕ) (p : Procedure) (s : Stack)
    → 0 < task_id
    → task_id < 21
    → s.itti.timer_id + 1 < 2 ^ 32
    → (start_proc_cleanup_timer now p ms task_id seq s).0.proc_cleanup_timer_id
      ≡ s.itti.timer_id + 1
unfolding start_proc_cleanup_timer
start_proc_cleanup_timer_number now ms task_id seq p s low high room =
    (setup_ms_number now ms task_id s low high room).0

pub numbered_fields :
    (message_type n : ℕ) (seid : Option ℕ) (ies : List ℕ)
    → let h = (numbered message_type seid ies n).header in
      (h.message_type ≡ message_type) × (h.sequence_number ≡ n % 2 ^ 24)
unfolding numbered pfcp_msg set_seid set_sequence_number
numbered_fields message_type n none ies = (refl, refl)
numbered_fields message_type n (some seid) ies = ground arith

module _ (now_retry now_cleanup : ℕ) (msg : Msg) (dest : Endpoint) (task_id trxn_id : ℕ) (s : Stack)
    (low : 0 < task_id) (high : task_id < 21) (room : s.itti.timer_id + 2 < 2 ^ 32) where
  abbrev opened : Procedure
  opened = sent_procedure now_retry now_cleanup msg dest task_id trxn_id s

  opened_numbers :
      (opened.retry_timer_id ≡ s.itti.timer_id + 1)
      × (opened.proc_cleanup_timer_id ≡ s.itti.timer_id + 2)
  opened_numbers =
      let (first, count) =
        start_msg_retry_timer_number now_retry s.t1_ms task_id msg.header.sequence_number
          (requesting msg dest trxn_id) s low high (omega arith) in
      let a = after_retry now_retry now_cleanup msg dest task_id trxn_id s in
      let counted : a.1.itti.timer_id ≡ s.itti.timer_id + 1 = unfold after_retry in count in
      let second =
        start_proc_cleanup_timer_number now_cleanup (proc_time_out_ms a.1.t1_ms a.1.n1) task_id
          msg.header.sequence_number a.0 a.1 low high (omega (arith, counted)) in
      (
        unfold sent_procedure after_retry start_proc_cleanup_timer in first,
        unfold sent_procedure in second ∙ omega (arith, counted),
      )

  opened_fields :
      (opened.trxn_id ≡ trxn_id)
      × (opened.triggered_msg_type ≡ 0)
      × (opened.initial_msg_type ≡ msg.header.message_type)
  unfolding sent_procedure after_retry start_msg_retry_timer start_proc_cleanup_timer requesting
      new_procedure
  opened_fields = (refl, refl, refl)

  -- The four maps after the procedure was opened and closed, key by key.
  closed_maps :
      find msg.header.sequence_number s.pending_procedures ≡ none
      → find trxn_id s.trxn_id2seq_num ≡ none
      → IsIssued s
      → let s2 =
          (close_procedure msg.header.sequence_number opened
            (register_request now_retry now_cleanup msg dest task_id trxn_id s)).1 in
        SameMaps s2 s
  closed_maps new_seq new_trxn issued =
      let seq = msg.header.sequence_number in
      let s1 = register_request now_retry now_cleanup msg dest task_id trxn_id s in
      let (pending, trxn, cleanup, retry) =
        register_request_maps now_retry now_cleanup msg dest task_id trxn_id s in
      let (pending', trxn', cleanup', retry') = close_procedure_maps seq opened s1 in
      let (retry_id, cleanup_id) = opened_numbers in
      let (trxn_eq, _, _) = opened_fields in
      record {
        pending =
            λ q. rw (pending', pending) (erase_insert seq q opened s.pending_procedures new_seq);
        trxn =
            λ x. rw (trxn', trxn, trxn_eq) (erase_insert trxn_id x seq s.trxn_id2seq_num new_trxn);
        cleanup = λ t.
            rw (cleanup', cleanup)
              (erase_insert opened.proc_cleanup_timer_id t seq s.proc_cleanup_timers
                (issued.cleanup opened.proc_cleanup_timer_id (omega (arith, cleanup_id))));
        retry = λ t.
            rw (retry', retry)
              (ground (
                arith,
                retry_id,
                cleanup_id,
                erase_insert opened.retry_timer_id t seq s.msg_out_retry_timers
                    (issued.retry opened.retry_timer_id (omega (arith, retry_id))),
                find-erase opened.proc_cleanup_timer_id t (
                    erase opened.retry_timer_id
                      (insert opened.retry_timer_id seq s.msg_out_retry_timers)),
                issued.retry opened.proc_cleanup_timer_id (omega (arith, cleanup_id)),
              ));
      }

  -- The answer finds the procedure and closes it.
  answered :
      (now : ℕ) (answer : Msg)
      → find msg.header.sequence_number s.pending_procedures ≡ none
      → answer.header.sequence_number ≡ msg.header.sequence_number
      → check_response_type msg.header.message_type answer.header.message_type ≡ true
      → let s1 = register_request now_retry now_cleanup msg dest task_id trxn_id s in
        handle_receive_message_cb now answer task_id s1
        ≡ some (
          record { error = false; trxn_id = trxn_id },
          (close_procedure msg.header.sequence_number opened s1).1,
        )
  unfolding handle_receive_message_cb
  answered now answer new_seq same_seq valid =
      let seq = msg.header.sequence_number in
      let s1 = register_request now_retry now_cleanup msg dest task_id trxn_id s in
      let there : find seq s1.pending_procedures ≡ some opened =
        rw ((register_request_maps now_retry now_cleanup msg dest task_id trxn_id s).0)
          (ground (arith, find-insert seq seq opened s.pending_procedures)) in
      let (trxn_eq, not_triggered, initial) = opened_fields in
      rw (same_seq, handle_receive_message_cb)
        (ground (
          arith,
          there,
          trxn_eq,
          not_triggered,
          initial,
          valid,
          close_procedure_result seq opened s1,
        ))

-- Let a request that has an answer be sent by a task, under a sequence number and a transaction
-- identifier that are not in use, while the stack knows no timer number that is still to come and
-- two more numbers can be given out. Then the message of the next type under the same sequence
-- number is accepted with the identifier of the request, and afterwards all four maps hold what
-- they held before the request.
pub send-handle_receive_message_cb :
    (now_retry now_cleanup now message_type : ℕ) (seid : Option ℕ) (dest : Endpoint) (ies : List ℕ)
    (task_id trxn_id : ℕ) (answer : Msg) (s : Stack)
    → 0 < task_id
    → task_id < 21
    → s.itti.timer_id + 2 < 2 ^ 32
    → IsIssued s
    → has_response message_type ≡ true
    → find trxn_id s.trxn_id2seq_num ≡ none
    → find
        (send now_retry now_cleanup message_type seid dest ies task_id trxn_id s).0
        s.pending_procedures
      ≡ none
    → answer.header.sequence_number
      ≡ (send now_retry now_cleanup message_type seid dest ies task_id trxn_id s).0
    → answer.header.message_type ≡ message_type + 1
    → (s2 : Stack) × (handle_receive_message_cb now answer task_id
          (send now_retry now_cleanup message_type seid dest ies task_id trxn_id s).1
        ≡ some (record { error = false; trxn_id = trxn_id }, s2))
      × SameMaps s2 s
unfolding send get_next_seq_num
send-handle_receive_message_cb now_retry now_cleanup now message_type seid dest ies task_id trxn_id
      answer s low high room issued has fresh_trxn fresh_seq same_seq next_type =
    let (n, s0) = get_next_seq_num s in
    let msg = numbered message_type seid ies n in
    let (type_eq, _) = numbered_fields message_type n seid ies in
    let valid : check_response_type msg.header.message_type answer.header.message_type ≡ true =
      rw (type_eq, next_type) (unfold check_response_type in ground arith) in
    let issued' : IsIssued s0 = record { cleanup = issued.cleanup; retry = issued.retry } in
    let same =
      closed_maps now_retry now_cleanup msg dest task_id trxn_id s0 low high room fresh_seq
        fresh_trxn issued' in
    (
      (close_procedure msg.header.sequence_number
          (sent_procedure now_retry now_cleanup msg dest task_id trxn_id s0)
          (register_request now_retry now_cleanup msg dest task_id trxn_id s0)).1,
      answered now_retry now_cleanup msg dest task_id trxn_id s0 low high room now answer fresh_seq
          same_seq valid,
      record {
        pending = same.pending;
        trxn = same.trxn;
        cleanup = same.cleanup;
        retry = same.retry;
      },
    )
