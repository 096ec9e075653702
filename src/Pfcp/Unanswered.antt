-- ===== src/Pfcp/Unanswered.antt =====
-- A request of src/pfcp/pfcp.cpp that is never answered, from `send_request` to the last time-out, and
-- one whose sequence number is in use.
use openair_spgwc.Prelude.{
  ℕ, ◌+◌, ◌%◌, ◌^◌, ◌<◌, ◌≡◌, Option, none, some, List, ◌∷◌, refl, ◌∙◌, arith, length,
}
use openair_spgwc.Prelude.StdMap.{nat_key, find, find-insert}
use openair_spgwc.Timers.{timer_setup}
use openair_spgwc.Pfcp.Header.{Msg}
use openair_spgwc.Pfcp.State.{
  Endpoint, Procedure, allocated, get_next_seq_num, new_procedure, start_proc_cleanup_timer, Stack,
  start_msg_retry_timer, setup_ms,
}
use openair_spgwc.Pfcp.Send.{send, numbered, requesting, register_request}
use openair_spgwc.Pfcp.Receive.{retry_expired, time_out_event}
use openair_spgwc.Pfcp.Retries.{
  Awaits, retry_times_out, retries, copies, again, retries_left, gives_up,
}

-- A request that was just sent under a sequence number that was not in use.
sent-Awaits :
    (now_retry now_cleanup : ℕ) (msg : Msg) (dest : Endpoint) (task_id trxn_id : ℕ) (s : Stack)
    → 0 < task_id
    → task_id < 21
    → s.itti.timer_id + 2 < 2 ^ 32
    → ((j : ℕ) → s.itti.timer_id < j → find j s.msg_out_retry_timers ≡ none)
    → find msg.header.sequence_number s.pending_procedures ≡ none
    → let s1 = register_request now_retry now_cleanup msg dest task_id trxn_id s in
      (p : Procedure) × Awaits msg.header.sequence_number msg p s1
      × (p.retry_count ≡ 0)
      × (p.remote_endpoint ≡ dest)
      × (p.trxn_id ≡ trxn_id)
      × (s1.itti.timer_id ≡ s.itti.timer_id + 2)
      × (s1.n1 ≡ s.n1)
      × (s1.notified ≡ s.notified)
      × (s1.sent ≡ (record { socket = allocated; msg = msg; dest = dest }) ∷ s.sent)
unfolding register_request requesting new_procedure start_msg_retry_timer start_proc_cleanup_timer
    setup_ms timer_setup
sent-Awaits now_retry now_cleanup msg dest task_id trxn_id s low high room unused new =
    let seq = msg.header.sequence_number in
    let e = s.itti.timer_id in
    let p : Procedure = record (requesting msg dest trxn_id) {
      retry_timer_id = (e + 1) % 2 ^ 32;
      proc_cleanup_timer_id = (e + 2) % 2 ^ 32;
    } in
    let at = find-insert seq seq p s.pending_procedures in
    let armed = find-insert (e + 1) (e + 1) seq s.msg_out_retry_timers in
    let free = unused (e + 1) (omega arith) in
    (
      p,
      record {
        pending = ground arith;
        timer = ground arith;
        message = refl;
        number = refl;
        unused = λ j later.
            let others = find-insert (e + 1) j seq s.msg_out_retry_timers in
            let free_j = unused j in ground arith;
      },
      refl,
      refl,
      refl,
      ground arith,
      ground arith,
      ground arith,
      ground arith,
    )

-- A request of a task that gets no answer: if the numbers of the timers do not wrap, `n1` fits the
-- counter's byte, and the stack knows no number that the timers have not given out and no pending
-- procedure of the new sequence number, then the request is sent once, each of the first `n1`
-- time-outs of its retry timer sends it once more to the same peer, through the other socket, and
-- the next time-out sends nothing, tells the user once, with the identifiers of the request, and
-- leaves no retry timer, but leaves the procedure pending.
pub unanswered_request :
    (now_retry now_cleanup message_type : ℕ) (seid : Option ℕ) (dest : Endpoint) (ies : List ℕ)
    (task_id trxn_id : ℕ) (nows : List ℕ) (last : ℕ) (s : Stack)
    → 0 < task_id
    → task_id < 21
    → length nows ≡ s.n1
    → s.n1 < 2 ^ 8
    → s.itti.timer_id + 2 + s.n1 < 2 ^ 32
    → ((j : ℕ) → s.itti.timer_id < j → find j s.msg_out_retry_timers ≡ none)
    → let (seq, s1) = send now_retry now_cleanup message_type seid dest ies task_id trxn_id s in
      let msg = numbered message_type seid ies (get_next_seq_num s).0 in
      find seq s.pending_procedures ≡ none
      → (p : Procedure) × (s2 : Stack) × (s3 : Stack) × (retries nows task_id seq s1 ≡ some s2)
        × (s2.sent
            ≡ copies s.n1
                (again msg dest)
                ((record { socket = allocated; msg = msg; dest = dest }) ∷ s.sent))
        × (s2.notified ≡ s.notified)
        × (retry_times_out last task_id seq s2 ≡ some s3)
        × (s3.sent ≡ s2.sent)
        × (s3.notified
            ≡ (record {
              endpoint = dest;
              message_type = msg.header.message_type;
              sequence_number = seq;
              trxn_id = trxn_id;
            })
              ∷ s.notified)
        × (find seq s3.pending_procedures ≡ some p)
        × (find p.retry_timer_id s3.msg_out_retry_timers ≡ none)
unfolding send get_next_seq_num
unanswered_request now_retry now_cleanup message_type seid dest ies task_id trxn_id nows last s low
      high times small room unused new =
    let msg = numbered message_type seid ies (get_next_seq_num s).0 in
    let seq = msg.header.sequence_number in
    let s0 = (get_next_seq_num s).1 in
    let (p1, w1, count, remote, trxn, timers, n1, notified, sent) =
      sent-Awaits now_retry now_cleanup msg dest task_id trxn_id s0 low high (omega arith) unused
        new in
    let s1 = register_request now_retry now_cleanup msg dest task_id trxn_id s0 in
    let (p2, s2, runs, w2, counts, sents, same) =
      retries_left task_id seq msg low high nows p1 s1 w1 (omega arith) (omega arith)
        (omega arith) in
    let same_n1 = same.n1 in
    let (s3, ends, quiet, told, pending, stopped) =
      gives_up task_id seq msg low high last p2 s2 w2 (omega arith) in
    (
      p2,
      s2,
      s3,
      runs,
      rw (sents, remote, sent, times) refl,
      same.notified ∙ notified,
      ends,
      quiet,
      rw (told, same.remote, remote, same.trxn, trxn, same.notified, notified) refl,
      pending,
      stopped,
    )

-- If a request of a task is sent under a sequence number that a pending procedure without a message
-- has, such as one that a request of the peer has opened, and the numbers of the timers do not
-- wrap and the stack knows no retry timer of the next number, then the time-out of the request's
-- retry timer reads the message through a null pointer.
pub clashing_request_faults :
    (now_retry now_cleanup message_type : ℕ) (seid : Option ℕ) (dest : Endpoint) (ies : List ℕ)
    (task_id trxn_id now : ℕ) (q : Procedure) (s : Stack)
    → 0 < task_id
    → task_id < 21
    → s.itti.timer_id + 2 < 2 ^ 32
    → find (s.itti.timer_id + 1) s.msg_out_retry_timers ≡ none
    → q.retry_msg ≡ none
    → let (seq, s1) = send now_retry now_cleanup message_type seid dest ies task_id trxn_id s in
      find seq s.pending_procedures ≡ some q
      → time_out_event now (s.itti.timer_id + 1) task_id s1 ≡ none
unfolding send get_next_seq_num register_request start_msg_retry_timer start_proc_cleanup_timer
    setup_ms timer_setup time_out_event retry_expired
clashing_request_faults now_retry now_cleanup message_type seid dest ies task_id trxn_id now q s low
      high room unused null clash =
    let e = s.itti.timer_id in
    let msg = numbered message_type seid ies (get_next_seq_num s).0 in
    let seq = msg.header.sequence_number in
    let armed = find-insert (e + 1) (e + 1) seq s.msg_out_retry_timers in
    let p : Procedure = record (requesting msg dest trxn_id) {
      retry_timer_id = (e + 1) % 2 ^ 32;
      proc_cleanup_timer_id = (e + 2) % 2 ^ 32;
    } in
    let kept = find-insert seq seq p s.pending_procedures in ground arith
