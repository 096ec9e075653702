-- ===== src/Gtpv2c/Receive.antt =====
-- src/gtpv2c/gtpv2c.cpp: `handle_receive_message_cb` and `time_out_event`.
use openair_spgwc.Prelude.{
  ℕ, ◌+◌, ◌%◌, ◌^◌, Bool, true, false, Option, none, some, ◌∷◌, if◌then◌else◌, ◌==◌, ltb, ◌>>=◌,
}
use openair_spgwc.Gtpv2c.MessageType.{check_initial_message_type, check_triggered_message_type}
use openair_spgwc.Gtpv2c.Header.{Msg}
use openair_spgwc.Prelude.AtomicHashMap.{AtomicHashMap}
use openair_spgwc.Gtpv2c.State.{
  Procedure, listening, Stack, new_procedure, generate_gtpc_tx_id, free_gtpc_tx_id,
  start_msg_retry_timer, stop_msg_retry_timer, start_proc_cleanup_timer, stop_proc_cleanup_timer,
}
use openair_spgwc.Gtpv2c.Send.{proc_time_out_ms}

-- The two reference parameters `error` and `gtpc_tx_id`.
pub record Received : Type 0 where
  pub error : Bool
  pub gtpc_tx_id : ℕ

unfoldable pub discarded : Received
discarded = record { error = true; gtpc_tx_id = 0 }

-- The procedure that an initial message opens, before its timer is started.
unfoldable pub requested : Msg → ℕ → Procedure
requested msg gtpc_tx_id = record new_procedure {
  gtpc_tx_id = gtpc_tx_id;
  initial_msg_type = msg.header.message_type;
}

-- The message type that the source compares an answer with.
unfoldable pub expected_initial : Procedure → ℕ
expected_initial p = if p.triggered_msg_type == 0 then p.initial_msg_type else p.triggered_msg_type

module _ (H : AtomicHashMap) where
  open H use {find, insert, erase, write}

  -- No procedure has the sequence number: an initial message opens one.
  unfoldable pub register_procedure : ℕ → Msg → ℕ → ℕ → Stack H → Received × Stack H
  unfolding requested
  register_procedure now msg task_id gtpc_tx_id s1 =
      let seq = msg.header.sequence_number in
      let (proc, s2) =
        start_proc_cleanup_timer H now (requested msg gtpc_tx_id) (proc_time_out_ms s1.t3_ms s1.n3)
          task_id seq s1 in
      (
        record { error = false; gtpc_tx_id = proc.gtpc_tx_id },
        record s2 {
          pending_procedures = insert seq proc s2.pending_procedures;
          gtpc_tx_id2seq_num = insert proc.gtpc_tx_id seq s2.gtpc_tx_id2seq_num;
        },
      )

  -- `none` is a call that does not return.
  unfoldable pub open_procedure : ℕ → Msg → ℕ → Stack H → Option (Received × Stack H)
  open_procedure now msg task_id s0 = do
    (gtpc_tx_id, s1) ← generate_gtpc_tx_id H s0
    some (register_procedure now msg task_id gtpc_tx_id s1)

  -- An answer closes the procedure. The entry of the map is erased in the end, so what the calls
  -- write into it is dropped.
  unfoldable pub close_procedure : ℕ → Procedure → Stack H → Received × Stack H
  close_procedure seq p s0 =
      let s1 = (stop_msg_retry_timer H p s0).1 in
      let s2 = (stop_proc_cleanup_timer H p s1).1 in
      let s3 = record s2 { gtpc_tx_id2seq_num = erase p.gtpc_tx_id s2.gtpc_tx_id2seq_num } in
      let s4 = free_gtpc_tx_id H p.gtpc_tx_id s3 in
      (
        record { error = false; gtpc_tx_id = p.gtpc_tx_id },
        record s4 { pending_procedures = erase seq s4.pending_procedures },
      )

  unfoldable pub handle_receive_message_cb : ℕ → Msg → ℕ → Stack H → Option (Received × Stack H)
  unfolding discarded expected_initial
  handle_receive_message_cb now msg task_id s =
      elim (find msg.header.sequence_number s.pending_procedures) [
        | none ↦
            if check_initial_message_type msg.header.message_type
            then open_procedure now msg task_id s
            else some (discarded, s)
        | some p ↦
            if check_triggered_message_type (expected_initial p) msg.header.message_type
            then some (close_procedure msg.header.sequence_number p s)
            else some (discarded, s)
      ]

  -- One more copy of the message, which leaves through the listening socket. The retry counter is a
  -- byte.
  unfoldable pub retransmit : ℕ → ℕ → ℕ → Procedure → Msg → Stack H → Stack H
  retransmit now task_id seq p msg s0 =
      let p1 : Procedure = record p {
        retry_count = (p.retry_count + 1) % 2 ^ 8;
        retry_timer_id = 0;
      } in
      let (p2, s1) =
        start_msg_retry_timer H now p1 s0.t3_ms task_id msg.header.sequence_number s0 in
      record s1 {
        pending_procedures = write seq p2 s1.pending_procedures;
        sent = (record { socket = listening; msg = msg; dest = p2.remote_endpoint }) ∷ s1.sent;
      }

  -- The user is told, and the procedure is dropped; its clean-up timer goes on.
  unfoldable pub abort_procedure : ℕ → Procedure → Stack H → Stack H
  abort_procedure seq p s = record s {
    notified =
        (record { endpoint = p.remote_endpoint; teid = p.local_teid; gtpc_tx_id = p.gtpc_tx_id })
        ∷ s.notified;
    pending_procedures = erase seq s.pending_procedures;
  }

  -- The timer `timer_id` of the retries for `seq` has expired. `none` is a null pointer read.
  unfoldable pub retry_expired : ℕ → ℕ → ℕ → ℕ → Stack H → Option (Stack H)
  retry_expired now timer_id task_id seq s0 =
      let s = record s0 { msg_out_retry_timers = erase timer_id s0.msg_out_retry_timers } in
      elim (find seq s0.pending_procedures) [
        | none ↦ some s
        | some p ↦
            if ltb p.retry_count s.n3
            then (elim p.retry_msg [
              | none ↦ none
              | some msg ↦ some (retransmit now task_id seq p msg s)
            ])
            else some (abort_procedure seq p s)
      ]

  -- The clean-up timer for `seq` has expired. The source reads the procedure before it tests that
  -- there is one: `none`.
  unfoldable pub cleanup_expired : ℕ → ℕ → Stack H → Option (Stack H)
  cleanup_expired timer_id seq s = elim (find seq s.pending_procedures) [
    | none ↦ none
    | some p ↦
        let s1 = record s { gtpc_tx_id2seq_num = erase p.gtpc_tx_id s.gtpc_tx_id2seq_num } in
        let s2 = free_gtpc_tx_id H p.gtpc_tx_id s1 in
        some (record s2 {
          proc_cleanup_timers = erase timer_id s2.proc_cleanup_timers;
          pending_procedures = erase seq s2.pending_procedures;
        })
  ]

  -- The result's flag is `handled`.
  unfoldable pub time_out_event : ℕ → ℕ → ℕ → Stack H → Option (Bool × Stack H)
  time_out_event now timer_id task_id s = elim (find timer_id s.msg_out_retry_timers) [
    | some seq ↦ retry_expired now timer_id task_id seq s >>= λ s'. some (true, s')
    | none ↦ elim (find timer_id s.proc_cleanup_timers) [
      | some seq ↦ cleanup_expired timer_id seq s >>= λ s'. some (true, s')
      | none ↦ some (false, s)
    ]
  ]
