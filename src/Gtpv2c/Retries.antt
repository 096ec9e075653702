-- ===== src/Gtpv2c/Retries.antt =====
-- The retransmissions of src/gtpv2c/gtpv2c.cpp.
use openair_spgwc.Prelude.{
  ℕ, ◌+◌, ◌%◌, ◌^◌, ◌<◌, ◌≤◌, ◌≡◌, ◌≢◌, true, none, some, ◌∷◌, refl, arith, if◌then◌else◌, ◌==◌,
  ltb, ◌⊎◌, inl, inr, Bool-cases,
}
use openair_spgwc.Gtpv2c.Header.{Msg}
use openair_spgwc.Prelude.AtomicHashMap.{AtomicHashMap}
use openair_spgwc.Gtpv2c.State.{Procedure, Stack, listening, start_msg_retry_timer, setup_ms}
use openair_spgwc.Gtpv2c.Receive.{retransmit, abort_procedure, retry_expired, time_out_event}

module _ (H : AtomicHashMap) where
  open H use {find, erase, find-erase, find-write}

  -- If the retry timer leads to a pending procedure with a message, the time-out does one of two
  -- things. While the counter is below `n3`, it sends one more copy of that message to the same peer, adds
  -- one to the counter, which is a byte, keeps the other procedures, and tells the user nothing. Otherwise
  -- it sends nothing, tells the user with the identifiers of the procedure, and drops that
  -- procedure and no other.
  pub time_out_event_retries_or_aborts :
      (now timer_id task_id seq : ℕ) (p : Procedure) (msg : Msg) (s : Stack H)
      → find timer_id s.msg_out_retry_timers ≡ some seq
      → find seq s.pending_procedures ≡ some p
      → p.retry_msg ≡ some msg
      → (s' : Stack H) × (time_out_event H now timer_id task_id s ≡ some (true, s'))
        × (((p.retry_count < s.n3)
              × (p' : Procedure) × (s'.sent
                  ≡ (record { socket = listening; msg = msg; dest = p.remote_endpoint }) ∷ s.sent)
              × (s'.notified ≡ s.notified)
              × ((q : ℕ)
                  → find q s'.pending_procedures
                    ≡ (if seq == q then some p' else find q s.pending_procedures))
              × (p'.retry_count ≡ (p.retry_count + 1) % 2 ^ 8)
              × (p'.gtpc_tx_id ≡ p.gtpc_tx_id)
              × (p'.retry_msg ≡ some msg))
            ⊎ ((s.n3 ≤ p.retry_count)
                × (s'.sent ≡ s.sent)
                × (s'.notified
                    ≡ (record {
                      endpoint = p.remote_endpoint;
                      teid = p.local_teid;
                      gtpc_tx_id = p.gtpc_tx_id;
                    })
                      ∷ s.notified)
                × ((q : ℕ)
                    → find q s'.pending_procedures
                      ≡ (if seq == q then none else find q s.pending_procedures))))
  unfolding time_out_event retry_expired retransmit start_msg_retry_timer setup_ms abort_procedure
  time_out_event_retries_or_aborts now timer_id task_id seq p msg s timer pending has =
      elim (Bool-cases (ltb p.retry_count s.n3)) [
        | inl more ↦
            let s1 = record s { msg_out_retry_timers = erase timer_id s.msg_out_retry_timers } in
            let p' =
              (start_msg_retry_timer H now
                (record p { retry_count = (p.retry_count + 1) % 2 ^ 8; retry_timer_id = 0 }) s.t3_ms
                task_id msg.header.sequence_number s1).0 in
            let there : find seq s.pending_procedures ≢ none = λ e. cc in
            (
              retransmit H now task_id seq p msg s1,
              ground arith,
              inl (
                ground arith,
                p',
                ground arith,
                ground arith,
                λ q. ground (arith, find-write seq q p' s.pending_procedures there),
                refl,
                refl,
                has,
              ),
            )
        | inr over ↦ (
          abort_procedure H seq p
              (record s { msg_out_retry_timers = erase timer_id s.msg_out_retry_timers }),
          ground arith,
          inr (ground arith, refl, refl, λ q. find-erase seq q s.pending_procedures),
        )
      ]
