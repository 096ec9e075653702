-- ===== src/Gtpv2c/Answers.antt =====
-- What an answer leaves behind in src/gtpv2c/gtpv2c.cpp.
use openair_spgwc.Prelude.{ℕ, ◌≡◌, true, false, none, some, if◌then◌else◌, ◌==◌, arith, refl}
use openair_spgwc.UidGenerator.{contains}
use openair_spgwc.UidGenerator.Search.{contains-free_uid}
use openair_spgwc.Gtpv2c.MessageType.{check_triggered_message_type}
use openair_spgwc.Gtpv2c.Header.{Msg}
use openair_spgwc.Prelude.AtomicHashMap.{AtomicHashMap}
use openair_spgwc.Gtpv2c.State.{
  Procedure, Stack, stop_msg_retry_timer, stop_proc_cleanup_timer, free_gtpc_tx_id,
}
use openair_spgwc.Gtpv2c.Receive.{expected_initial, close_procedure, handle_receive_message_cb}

module _ (H : AtomicHashMap) where
  open H use {find, erase, find-erase}

  close_procedure_leaves :
      (seq : ℕ) (p : Procedure) (s : Stack H)
      → let s' = (close_procedure H seq p s).1 in
        (s'.pending_procedures ≡ erase seq s.pending_procedures)
        × (s'.gtpc_tx_id2seq_num ≡ erase p.gtpc_tx_id s.gtpc_tx_id2seq_num)
        × (s'.proc_cleanup_timers ≡ s.proc_cleanup_timers)
        × ((v : ℕ)
            → contains v s'.uids.uid_generated
              ≡ (if p.gtpc_tx_id == v then false else contains v s.uids.uid_generated))
  unfolding close_procedure stop_msg_retry_timer stop_proc_cleanup_timer free_gtpc_tx_id
  close_procedure_leaves seq p s = (
    ground arith,
    ground arith,
    ground arith,
    λ v. ground (arith, contains-free_uid p.gtpc_tx_id v s.uids),
  )

  -- An answer that the pending procedure under its sequence number accepts is reported with the
  -- identifier of that procedure. The procedure and its transaction are gone afterwards, the
  -- identifier is free, no other procedure, transaction or identifier changes, and the map of the clean-up
  -- timers is as it was.
  pub answer_closes :
      (now task_id : ℕ) (msg : Msg) (p : Procedure) (s : Stack H)
      → find msg.header.sequence_number s.pending_procedures ≡ some p
      → check_triggered_message_type (expected_initial p) msg.header.message_type ≡ true
      → (s' : Stack H) × (handle_receive_message_cb H now msg task_id s
          ≡ some (record { error = false; gtpc_tx_id = p.gtpc_tx_id }, s'))
        × ((q : ℕ)
            → find q s'.pending_procedures
              ≡ (if msg.header.sequence_number == q then none else find q s.pending_procedures))
        × ((x : ℕ)
            → find x s'.gtpc_tx_id2seq_num
              ≡ (if p.gtpc_tx_id == x then none else find x s.gtpc_tx_id2seq_num))
        × ((v : ℕ)
            → contains v s'.uids.uid_generated
              ≡ (if p.gtpc_tx_id == v then false else contains v s.uids.uid_generated))
        × (s'.proc_cleanup_timers ≡ s.proc_cleanup_timers)
  unfolding handle_receive_message_cb
  answer_closes now task_id msg p s there valid =
      let seq = msg.header.sequence_number in
      let (pending, tx, cleanup, uids) = close_procedure_leaves seq p s in
      (
        (close_procedure H seq p s).1,
        rw (there, handle_receive_message_cb) (rw valid (unfold close_procedure in refl)),
        λ q. rw pending (find-erase seq q s.pending_procedures),
        λ x. rw tx (find-erase p.gtpc_tx_id x s.gtpc_tx_id2seq_num),
        uids,
        cleanup,
      )
