-- ===== src/Pfcp/Receive.antt =====
-- src/pfcp/pfcp.cpp: `handle_receive_message_cb` and `time_out_event`.
use openair_spgwc.Prelude.{
  ℕ, ◌+◌, ◌%◌, ◌^◌, Bool, true, false, Option, none, some, ◌∷◌, if◌then◌else◌, ◌==◌, ltb, ◌>>=◌,
}
use openair_spgwc.Prelude.StdMap.{nat_key, find, insert, assign, erase}
use openair_spgwc.Pfcp.MessageType.{check_request_type, check_response_type}
use openair_spgwc.Pfcp.Header.{Msg}
use openair_spgwc.Pfcp.State.{
  Procedure, registered, Stack, new_procedure, generate_trxn_id, free_trxn_id,
  start_msg_retry_timer, stop_msg_retry_timer, start_proc_cleanup_timer, stop_proc_cleanup_timer,
}

-- The two reference parameters `error` and `trxn_id`.
pub record Received : Type 0 where
  pub error : Bool
  pub trxn_id : ℕ

unfoldable pub discarded : Received
discarded = record { error = true; trxn_id = 0 }

-- The procedure that a request opens, before its timer is started.
unfoldable pub requested : Msg → ℕ → Procedure
requested msg trxn_id = record new_procedure {
  trxn_id = trxn_id;
  initial_msg_type = msg.header.message_type;
}

-- No procedure has the sequence number: a request opens one.
unfoldable pub register_procedure : ℕ → Msg → ℕ → ℕ → Stack → Received × Stack
unfolding requested
register_procedure now msg task_id trxn_id s1 =
    let seq = msg.header.sequence_number in
    let (proc, s2) = start_proc_cleanup_timer now (requested msg trxn_id) s1.t1_ms task_id seq s1 in
    (
      record { error = false; trxn_id = proc.trxn_id },
      record s2 {
        pending_procedures = insert seq proc s2.pending_procedures;
        trxn_id2seq_num = insert proc.trxn_id seq s2.trxn_id2seq_num;
      },
    )

-- `none` is a call that does not return.
unfoldable pub open_procedure : ℕ → Msg → ℕ → Stack → Option (Received × Stack)
open_procedure now msg task_id s0 = do
  (trxn_id, s1) ← generate_trxn_id s0
  some (register_procedure now msg task_id trxn_id s1)

-- The message type that the source compares an answer with.
unfoldable pub expected_initial : Procedure → ℕ
expected_initial p = if p.triggered_msg_type == 0 then p.initial_msg_type else p.triggered_msg_type

-- An answer closes the procedure. The entry of the map is erased in the end, so what the calls
-- write into it is dropped.
unfoldable pub close_procedure : ℕ → Procedure → Stack → Received × Stack
close_procedure seq p s0 =
    let s1 = (stop_msg_retry_timer p s0).1 in
    let s2 = (stop_proc_cleanup_timer p s1).1 in
    let s3 = record s2 { trxn_id2seq_num = erase p.trxn_id s2.trxn_id2seq_num } in
    let s4 = free_trxn_id p.trxn_id s3 in
    (
      record { error = false; trxn_id = p.trxn_id },
      record s4 { pending_procedures = erase seq s4.pending_procedures },
    )

unfoldable pub handle_receive_message_cb : ℕ → Msg → ℕ → Stack → Option (Received × Stack)
unfolding discarded expected_initial
handle_receive_message_cb now msg task_id s =
    elim (find msg.header.sequence_number s.pending_procedures) [
      | none ↦
          if check_request_type msg.header.message_type
          then open_procedure now msg task_id s
          else some (discarded, s)
      | some p ↦
          if check_response_type (expected_initial p) msg.header.message_type
          then some (close_procedure msg.header.sequence_number p s)
          else some (discarded, s)
    ]

-- One more copy of the request, which leaves through the registered socket. The retry counter is
-- a byte.
unfoldable pub retransmit : ℕ → ℕ → ℕ → Procedure → Msg → Stack → Stack
retransmit now task_id seq p msg s0 =
    let p1 : Procedure = record p { retry_count = (p.retry_count + 1) % 2 ^ 8 } in
    let (p2, s1) = start_msg_retry_timer now p1 s0.t1_ms task_id msg.header.sequence_number s0 in
    record s1 {
      pending_procedures = assign seq p2 s1.pending_procedures;
      sent = (record { socket = registered; msg = msg; dest = p2.remote_endpoint }) ∷ s1.sent;
    }

unfoldable pub notify_ul_error : Procedure → Msg → Stack → Stack
notify_ul_error p msg s = record s {
  notified =
      (record {
        endpoint = p.remote_endpoint;
        message_type = msg.header.message_type;
        sequence_number = msg.header.sequence_number;
        trxn_id = p.trxn_id;
      })
      ∷ s.notified;
}

-- The timer `timer_id` of the retries for `seq` has expired. `none` is a null pointer read.
unfoldable pub retry_expired : ℕ → ℕ → ℕ → ℕ → Stack → Option Stack
retry_expired now timer_id task_id seq s0 =
    let s = record s0 { msg_out_retry_timers = erase timer_id s0.msg_out_retry_timers } in
    elim (find seq s0.pending_procedures) [
      | none ↦ some s
      | some p ↦ elim p.retry_msg [
        | none ↦ none
        | some msg ↦
            if ltb p.retry_count s.n1
            then some (retransmit now task_id seq p msg s)
            else some (notify_ul_error p msg s)
      ]
    ]

-- The clean-up timer for `seq` has expired. The source reads the procedure before it tests that
-- there is one: `none`.
unfoldable pub cleanup_expired : ℕ → ℕ → Stack → Option Stack
cleanup_expired timer_id seq s = elim (find seq s.pending_procedures) [
  | none ↦ none
  | some p ↦
      let s1 = record s { trxn_id2seq_num = erase p.trxn_id s.trxn_id2seq_num } in
      let s2 = free_trxn_id p.trxn_id s1 in
      some (record s2 {
        proc_cleanup_timers = erase timer_id s2.proc_cleanup_timers;
        pending_procedures = erase seq s2.pending_procedures;
      })
]

-- The result's flag is `handled`.
unfoldable pub time_out_event : ℕ → ℕ → ℕ → Stack → Option (Bool × Stack)
time_out_event now timer_id task_id s = elim (find timer_id s.msg_out_retry_timers) [
  | some seq ↦ retry_expired now timer_id task_id seq s >>= λ s'. some (true, s')
  | none ↦ elim (find timer_id s.proc_cleanup_timers) [
    | some seq ↦ cleanup_expired timer_id seq s >>= λ s'. some (true, s')
    | none ↦ some (false, s)
  ]
]
