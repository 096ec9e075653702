-- ===== src/Gtpv2c/Send.antt =====
-- src/gtpv2c/gtpv2c.cpp: the overloads of `send_initial_message` and of `send_triggered_message` have
-- one body each, which stands here; `ies` are the encoded information elements.
pub mod Initial
pub mod Triggered
use openair_spgwc.Prelude.{ℕ, ◌+◌, ◌*◌, Option, none, some, List, ◌∷◌}
use openair_spgwc.Prelude.Words.{u32}
use openair_spgwc.Pfcp.State.{Endpoint}
use openair_spgwc.Gtpv2c.Header.{Msg, gtpv2c_msg, set_teid, set_sequence_number}
use openair_spgwc.Prelude.AtomicHashMap.{AtomicHashMap}
use openair_spgwc.Gtpv2c.State.{
  Procedure, listening, allocated, Stack, new_procedure, get_next_seq_num, free_gtpc_tx_id,
  start_msg_retry_timer, start_proc_cleanup_timer, stop_proc_cleanup_timer,
}

-- GTPV2C_PROC_TIME_OUT_MS
unfoldable pub proc_time_out_ms : ℕ → ℕ → ℕ
proc_time_out_ms t n = u32 (t * u32 (n + 1 + 1))

-- The message with its TEID, if the overload sets one, and its sequence number.
unfoldable pub numbered : ℕ → Option ℕ → List ℕ → ℕ → Msg
numbered message_type none ies n =
    let m = gtpv2c_msg message_type ies in record m { header = set_sequence_number n m.header }
numbered message_type (some teid) ies n =
    let m = gtpv2c_msg message_type ies in
    record m { header = set_sequence_number n (set_teid teid m.header) }

-- The procedure that an initial message opens, before its timers are started.
unfoldable pub requesting : Msg → Endpoint → ℕ → ℕ → Procedure
requesting msg dest l_teid gtp_tx_id = record new_procedure {
  initial_msg_type = msg.header.message_type;
  gtpc_tx_id = gtp_tx_id;
  local_teid = l_teid;
  retry_msg = some msg;
  remote_endpoint = dest;
}

pub data TransactionAction : Type 0 where
  delete_tx continue_tx : TransactionAction

module _ (H : AtomicHashMap) where
  open H use {find, insert, erase}

  -- The timers, the maps and the datagram of a message; the clock is read once for each timer.
  unfoldable pub register_message : ℕ → ℕ → Msg → Endpoint → ℕ → ℕ → ℕ → Stack H → Stack H
  unfolding requesting
  register_message now_retry now_cleanup msg dest l_teid task_id gtp_tx_id s1 =
      let seq = msg.header.sequence_number in
      let (proc1, s2) =
        start_msg_retry_timer H now_retry (requesting msg dest l_teid gtp_tx_id) s1.t3_ms task_id
          seq s1 in
      let (proc2, s3) =
        start_proc_cleanup_timer H now_cleanup proc1 (proc_time_out_ms s2.t3_ms s2.n3) task_id seq
          s2 in
      record s3 {
        pending_procedures = insert seq proc2 s3.pending_procedures;
        gtpc_tx_id2seq_num = insert proc2.gtpc_tx_id seq s3.gtpc_tx_id2seq_num;
        sent = (record { socket = allocated; msg = msg; dest = dest }) ∷ s3.sent;
      }

  -- The body of every `send_initial_message`; the overload for echo requests has no local TEID.
  unfoldable pub send : ℕ → ℕ → ℕ → Option ℕ → ℕ → Endpoint → List ℕ → ℕ → ℕ → Stack H → ℕ × Stack H
  unfolding numbered
  send now_retry now_cleanup message_type r_teid l_teid dest ies task_id gtp_tx_id s0 =
      let (n, s1) = get_next_seq_num H s0 in
      let msg = numbered message_type r_teid ies n in
      (
        msg.header.sequence_number,
        register_message now_retry now_cleanup msg dest l_teid task_id gtp_tx_id s1,
      )

  -- What `send_triggered_message` does to the transaction with DELETE_TX.
  unfoldable pub delete_transaction : ℕ → ℕ → Stack H → Stack H
  delete_transaction gtp_tx_id seq s = elim (find seq s.pending_procedures) [
    | none ↦ record s { gtpc_tx_id2seq_num = erase gtp_tx_id s.gtpc_tx_id2seq_num }
    | some proc ↦
        let s1 = (stop_proc_cleanup_timer H proc s).1 in
        let s2 = free_gtpc_tx_id H gtp_tx_id s1 in
        record s2 {
          pending_procedures = erase seq s2.pending_procedures;
          gtpc_tx_id2seq_num = erase gtp_tx_id s2.gtpc_tx_id2seq_num;
        }
  ]

  unfoldable pub act : TransactionAction → ℕ → ℕ → Stack H → Stack H
  unfolding delete_transaction
  act delete_tx gtp_tx_id seq s = delete_transaction gtp_tx_id seq s
  act continue_tx gtp_tx_id seq s = s

  -- The body of every `send_triggered_message`.
  unfoldable pub respond :
      ℕ → Option ℕ → Endpoint → List ℕ → ℕ → TransactionAction → Stack H → Stack H
  unfolding numbered act
  respond message_type r_teid dest ies gtp_tx_id a s = elim (find gtp_tx_id s.gtpc_tx_id2seq_num) [
    | none ↦ s
    | some seq ↦ act a gtp_tx_id seq (record s {
      sent =
          (record { socket = listening; msg = numbered message_type r_teid ies seq; dest = dest })
          ∷ s.sent;
    })
  ]
