-- ===== src/Gtpv2c/Transactions.antt =====
-- Which identifiers of transactions are given back in src/gtpv2c/gtpv2c.cpp.
use openair_spgwc.Prelude.{ℕ, ◌≡◌, false, Option, none, some, List, arith, if◌then◌else◌, ◌==◌, ◌∷◌}
use openair_spgwc.UidGenerator.{contains}
use openair_spgwc.UidGenerator.Search.{contains-free_uid}
use openair_spgwc.Pfcp.State.{Endpoint}
use openair_spgwc.Prelude.AtomicHashMap.{AtomicHashMap}
use openair_spgwc.Gtpv2c.State.{
  Procedure, listening, Stack, stop_proc_cleanup_timer, free_gtpc_tx_id,
}
use openair_spgwc.Gtpv2c.Send.{delete_tx, delete_transaction, act, numbered, respond}

module _ (H : AtomicHashMap) where
  open H use {find, erase, find-erase}

  -- For a transaction that has a pending procedure: a triggered message that ends it gives the
  -- identifier back, forgets the transaction and its procedure and no other, and sends one datagram
  -- under the sequence number of the request.
  pub respond_delete :
      (message_type : ℕ) (r_teid : Option ℕ) (dest : Endpoint) (ies : List ℕ) (gtp_tx_id seq : ℕ)
      (p : Procedure) (s : Stack H)
      → find gtp_tx_id s.gtpc_tx_id2seq_num ≡ some seq
      → find seq s.pending_procedures ≡ some p
      → let s' = respond H message_type r_teid dest ies gtp_tx_id delete_tx s in
        ((v : ℕ)
          → contains v s'.uids.uid_generated
            ≡ (if gtp_tx_id == v then false else contains v s.uids.uid_generated))
        × ((x : ℕ)
            → find x s'.gtpc_tx_id2seq_num
              ≡ (if gtp_tx_id == x then none else find x s.gtpc_tx_id2seq_num))
        × ((q : ℕ)
            → find q s'.pending_procedures
              ≡ (if seq == q then none else find q s.pending_procedures))
        × (s'.sent
            ≡ (record {
              socket = listening;
              msg = numbered message_type r_teid ies seq;
              dest = dest;
            })
              ∷ s.sent)
  unfolding respond act delete_transaction stop_proc_cleanup_timer free_gtpc_tx_id
  respond_delete message_type r_teid dest ies gtp_tx_id seq p s h e = (
    λ v. ground (arith, contains-free_uid gtp_tx_id v s.uids),
    λ x. ground (arith, find-erase gtp_tx_id x s.gtpc_tx_id2seq_num),
    λ q. ground (arith, find-erase seq q s.pending_procedures),
    ground arith,
  )
