-- ===== src/Pfcp/Send.antt =====
-- src/pfcp/pfcp.cpp: the overloads of `send_request` and of `send_response` have one
-- body each, which stands here; `ies` are the encoded information elements.
pub mod Requests
pub mod Responses
use openair_spgwc.Prelude.{
  ℕ, ◌+◌, ◌*◌, Bool, true, false, Option, none, some, List, [], ◌∷◌, if◌then◌else◌,
}
use openair_spgwc.Prelude.Words.{u32}
use openair_spgwc.Prelude.StdMap.{nat_key, find, insert, assign, erase}
use openair_spgwc.Pfcp.Header.{Msg, pfcp_msg, set_seid, set_sequence_number}
use openair_spgwc.Pfcp.State.{
  Endpoint, Procedure, Socket, registered, allocated, Datagram, Stack, new_procedure,
  get_next_seq_num, free_trxn_id, start_msg_retry_timer, start_proc_cleanup_timer,
  stop_proc_cleanup_timer,
}

-- PFCP_PROC_TIME_OUT_MS
unfoldable pub proc_time_out_ms : ℕ → ℕ → ℕ
proc_time_out_ms t n = u32 (t * u32 (n + 1 + 1))

-- The message with its SEID, if the overload sets one, and its sequence number.
unfoldable pub numbered : ℕ → Option ℕ → List ℕ → ℕ → Msg
numbered message_type none ies n =
    let m = pfcp_msg message_type ies in record m { header = set_sequence_number n m.header }
numbered message_type (some seid) ies n =
    let m = pfcp_msg message_type ies in
    record m { header = set_sequence_number n (set_seid seid m.header) }

-- The procedure that a request opens, before its timers are started.
unfoldable pub requesting : Msg → Endpoint → ℕ → Procedure
requesting msg dest trxn_id = record new_procedure {
  initial_msg_type = msg.header.message_type;
  trxn_id = trxn_id;
  retry_msg = some msg;
  remote_endpoint = dest;
}

-- The timers, the maps and the datagram of a request; the clock is read once for each timer.
unfoldable pub register_request : ℕ → ℕ → Msg → Endpoint → ℕ → ℕ → Stack → Stack
unfolding requesting
register_request now_retry now_cleanup msg dest task_id trxn_id s1 =
    let seq = msg.header.sequence_number in
    let (proc1, s2) =
      start_msg_retry_timer now_retry (requesting msg dest trxn_id) s1.t1_ms task_id seq s1 in
    let (proc2, s3) =
      start_proc_cleanup_timer now_cleanup proc1 (proc_time_out_ms s2.t1_ms s2.n1) task_id seq s2 in
    record s3 {
      pending_procedures = insert seq proc2 s3.pending_procedures;
      trxn_id2seq_num = insert proc2.trxn_id seq s3.trxn_id2seq_num;
      sent = (record { socket = allocated; msg = msg; dest = dest }) ∷ s3.sent;
    }

-- The body of every `send_request`.
unfoldable pub send : ℕ → ℕ → ℕ → Option ℕ → Endpoint → List ℕ → ℕ → ℕ → Stack → ℕ × Stack
unfolding numbered
send now_retry now_cleanup message_type seid dest ies task_id trxn_id s0 =
    let (n, s1) = get_next_seq_num s0 in
    let msg = numbered message_type seid ies n in
    (msg.header.sequence_number, register_request now_retry now_cleanup msg dest task_id trxn_id s1)

pub data TransactionAction : Type 0 where
  delete_tx continue_tx : TransactionAction

-- What `send_response` does to the transaction with DELETE_TX; only one overload frees the
-- identifier.
unfoldable pub delete_transaction : Bool → ℕ → ℕ → Stack → Stack
delete_transaction frees trxn_id seq s = elim (find seq s.pending_procedures) [
  | none ↦ record s { trxn_id2seq_num = erase trxn_id s.trxn_id2seq_num }
  | some proc ↦
      let s1 = (stop_proc_cleanup_timer proc s).1 in
      let s2 = if frees then free_trxn_id trxn_id s1 else s1 in
      record s2 {
        pending_procedures = erase seq s2.pending_procedures;
        trxn_id2seq_num = erase trxn_id s2.trxn_id2seq_num;
      }
]

unfoldable pub act : TransactionAction → Bool → ℕ → ℕ → Stack → Stack
unfolding delete_transaction
act delete_tx frees trxn_id seq s = delete_transaction frees trxn_id seq s
act continue_tx frees trxn_id seq s = s

-- The body of every `send_response`.
unfoldable pub respond :
    Bool → ℕ → Option ℕ → Endpoint → List ℕ → ℕ → TransactionAction → Stack → Stack
unfolding numbered act
respond frees message_type seid dest ies trxn_id a s = elim (find trxn_id s.trxn_id2seq_num) [
  | none ↦ s
  | some seq ↦ act a frees trxn_id seq (record s {
    sent =
        (record { socket = registered; msg = numbered message_type seid ies seq; dest = dest })
        ∷ s.sent;
  })
]
