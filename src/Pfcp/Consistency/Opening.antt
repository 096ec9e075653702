-- ===== src/Pfcp/Consistency/Opening.antt =====
-- Opening and closing procedures in src/pfcp/pfcp.cpp keeps the maps consistent.
use openair_spgwc.Prelude.{
  ℕ, ◌≡◌, ◌≢◌, none, some, List, refl, arith, if◌then◌else◌, ◌==◌, Bool-cases, inl, inr,
}
use openair_spgwc.Prelude.StdMap.{nat_key, find, insert, erase, find-insert, find-erase}
use openair_spgwc.Prelude.Links.{Links-extend, Links-open, Links-close}
use openair_spgwc.Pfcp.Header.{Msg}
use openair_spgwc.Pfcp.State.{
  Endpoint, Procedure, Stack, setup_ms, stop_msg_retry_timer, start_proc_cleanup_timer,
  start_msg_retry_timer, stop_proc_cleanup_timer, free_trxn_id,
}
use openair_spgwc.Pfcp.Send.{requesting, register_request, proc_time_out_ms}
use openair_spgwc.Pfcp.Receive.{requested, close_procedure, register_procedure}
use openair_spgwc.Pfcp.Consistency.{CleanupOf, TrxnOf, RetryOf, Inv}

-- Erasing one or two keys makes no new links.
pub erase_sub : (k j q : ℕ) (m : List (ℕ × ℕ)) → find j (erase k m) ≡ some q → find j m ≡ some q
erase_sub k j q m e = ground (arith, find-erase k j m)

pub erase_gone : (k j q : ℕ) (m : List (ℕ × ℕ)) → find j (erase k m) ≡ some q → k ≢ j
erase_gone k j q m e = ground (arith, find-erase k j m)

-- What closing leaves of the four maps.
pub close_procedure_maps :
    (seq : ℕ) (p : Procedure) (s : Stack)
    → let s' = (close_procedure seq p s).1 in
      (s'.pending_procedures ≡ erase seq s.pending_procedures)
      × (s'.trxn_id2seq_num ≡ erase p.trxn_id s.trxn_id2seq_num)
      × (s'.proc_cleanup_timers ≡ erase p.proc_cleanup_timer_id s.proc_cleanup_timers)
      × (s'.msg_out_retry_timers
          ≡ erase p.proc_cleanup_timer_id (
              if p.retry_timer_id == 0
              then s.msg_out_retry_timers
              else erase p.retry_timer_id s.msg_out_retry_timers))
unfolding close_procedure stop_msg_retry_timer stop_proc_cleanup_timer free_trxn_id
close_procedure_maps seq p s = ground arith

retry_gone :
    (p : Procedure) (m : List (ℕ × ℕ)) (j q : ℕ)
    → find j (
        erase p.proc_cleanup_timer_id
          (if p.retry_timer_id == 0 then m else erase p.retry_timer_id m))
      ≡ some q
    → (find j m ≡ some q) × ¬ RetryOf j q p
retry_gone p m j q e = (
  ground (
    arith,
    find-erase p.proc_cleanup_timer_id j m,
    find-erase p.proc_cleanup_timer_id j (erase p.retry_timer_id m),
    find-erase p.retry_timer_id j m,
  ),
  λ r. ground (
    arith,
    r.0,
    r.1,
    find-erase p.proc_cleanup_timer_id j m,
    find-erase p.proc_cleanup_timer_id j (erase p.retry_timer_id m),
    find-erase p.retry_timer_id j m,
  ),
)

-- An answer that closes a procedure leaves no timer and no transaction that leads to it.
pub close_procedure-Inv :
    (seq : ℕ) (p : Procedure) (s : Stack)
    → find seq s.pending_procedures ≡ some p
    → Inv s
    → Inv (close_procedure seq p s).1
close_procedure-Inv seq p s e v =
    let (pending, trxn, cleanup, retry) = close_procedure_maps seq p s in
    record {
      cleanup =
          rw (cleanup, pending)
            (Links-close (λ t. find t s.proc_cleanup_timers) _ (λ q. find q s.pending_procedures) _
              CleanupOf seq p e (λ j. find-erase seq j s.pending_procedures)
              (λ k q h. erase_sub p.proc_cleanup_timer_id k q s.proc_cleanup_timers h)
              (λ k h r. erase_gone p.proc_cleanup_timer_id k seq s.proc_cleanup_timers h r)
              v.cleanup);
      trxn =
          rw (trxn, pending)
            (Links-close (λ t. find t s.trxn_id2seq_num) _ (λ q. find q s.pending_procedures) _
              TrxnOf seq p e (λ j. find-erase seq j s.pending_procedures)
              (λ k q h. erase_sub p.trxn_id k q s.trxn_id2seq_num h)
              (λ k h r. erase_gone p.trxn_id k seq s.trxn_id2seq_num h r) v.trxn);
      retry =
          rw (retry, pending)
            (Links-close (λ t. find t s.msg_out_retry_timers) _ (λ q. find q s.pending_procedures) _
              RetryOf seq p e (λ j. find-erase seq j s.pending_procedures)
              (λ k q h. (retry_gone p s.msg_out_retry_timers k q h).0)
              (λ k h r. (retry_gone p s.msg_out_retry_timers k seq h).1 r) v.retry);
    }

-- A request whose sequence number is not in use opens a consistent procedure.
pub register_procedure-Inv :
    (now : ℕ) (msg : Msg) (task_id trxn_id : ℕ) (s : Stack)
    → find msg.header.sequence_number s.pending_procedures ≡ none
    → Inv s
    → Inv (register_procedure now msg task_id trxn_id s).1
unfolding register_procedure start_proc_cleanup_timer setup_ms
register_procedure-Inv now msg task_id trxn_id s new v =
    let seq = msg.header.sequence_number in
    let p = (start_proc_cleanup_timer now (requested msg trxn_id) s.t1_ms task_id seq s).0 in
    let pending = λ (j : ℕ). find-insert seq j p s.pending_procedures in
    record {
      cleanup =
          Links-open (λ t. find t s.proc_cleanup_timers) _ (λ q. find q s.pending_procedures) _
            CleanupOf p.proc_cleanup_timer_id seq p new pending
            (λ j. find-insert p.proc_cleanup_timer_id j seq s.proc_cleanup_timers) refl v.cleanup;
      trxn =
          Links-open (λ t. find t s.trxn_id2seq_num) _ (λ q. find q s.pending_procedures) _ TrxnOf
            p.trxn_id seq p new pending (λ j. find-insert p.trxn_id j seq s.trxn_id2seq_num) refl
            v.trxn;
      retry =
          Links-extend (λ t. find t s.msg_out_retry_timers) (λ q. find q s.pending_procedures) _
            RetryOf seq p new pending v.retry;
    }

module _ (now_retry now_cleanup : ℕ) (msg : Msg) (dest : Endpoint) (task_id trxn_id : ℕ)
    (s : Stack) where
  unfoldable pub after_retry : Procedure × Stack
  after_retry =
      start_msg_retry_timer now_retry (requesting msg dest trxn_id) s.t1_ms task_id
        msg.header.sequence_number s

  -- The procedure that a request opens, with both its timers.
  unfoldable pub sent_procedure : Procedure
  unfolding after_retry
  sent_procedure =
      (start_proc_cleanup_timer now_cleanup after_retry.0
        (proc_time_out_ms after_retry.1.t1_ms after_retry.1.n1) task_id msg.header.sequence_number
        after_retry.1).0

  sent_procedure_fields : (sent_procedure.trxn_id ≡ trxn_id) × (sent_procedure.retry_msg ≡ some msg)
  unfolding sent_procedure start_msg_retry_timer start_proc_cleanup_timer setup_ms requesting
  sent_procedure_fields = (refl, refl)

  -- What a request leaves in the maps.
  pub register_request_maps :
      let s' = register_request now_retry now_cleanup msg dest task_id trxn_id s in
      let seq = msg.header.sequence_number in
      let p = sent_procedure in
      (s'.pending_procedures ≡ insert seq p s.pending_procedures)
      × (s'.trxn_id2seq_num ≡ insert trxn_id seq s.trxn_id2seq_num)
      × (s'.proc_cleanup_timers ≡ insert p.proc_cleanup_timer_id seq s.proc_cleanup_timers)
      × (s'.msg_out_retry_timers ≡ (
          if p.retry_timer_id == 0
          then s.msg_out_retry_timers
          else insert p.retry_timer_id seq s.msg_out_retry_timers))
  unfolding register_request sent_procedure start_msg_retry_timer start_proc_cleanup_timer setup_ms
  register_request_maps = ground arith

  -- A request under a sequence number that is not in use keeps the maps consistent.
  pub register_request-Inv :
      find msg.header.sequence_number s.pending_procedures ≡ none
      → Inv s
      → Inv (register_request now_retry now_cleanup msg dest task_id trxn_id s)
  register_request-Inv new v =
      let (pending, trxn, cleanup, retry) = register_request_maps in
      let (trxn_eq, msg_eq) = sent_procedure_fields in
      let seq = msg.header.sequence_number in
      let p = sent_procedure in
      let ins = λ (j : ℕ). find-insert seq j p s.pending_procedures in
      let old = λ (q : ℕ). find q s.pending_procedures in
      record {
        cleanup =
            rw (pending, cleanup)
              (Links-open (λ t. find t s.proc_cleanup_timers) _ old _ CleanupOf
                p.proc_cleanup_timer_id seq p new ins
                (λ j. find-insert p.proc_cleanup_timer_id j seq s.proc_cleanup_timers) refl
                v.cleanup);
        trxn =
            rw (pending, trxn)
              (Links-open (λ t. find t s.trxn_id2seq_num) _ old _ TrxnOf trxn_id seq p new ins
                (λ j. find-insert trxn_id j seq s.trxn_id2seq_num) trxn_eq v.trxn);
        retry =
            rw (pending, retry)
              (elim (Bool-cases (p.retry_timer_id == 0)) [
                | inl none_started ↦ rw none_started (
                    Links-extend (λ t. find t s.msg_out_retry_timers) old _ RetryOf seq p new ins
                      v.retry)
                | inr started ↦ rw started (
                    Links-open (λ t. find t s.msg_out_retry_timers) _ old _ RetryOf p.retry_timer_id
                      seq p new ins (λ j. find-insert p.retry_timer_id j seq s.msg_out_retry_timers)
                      (refl, ground arith, (msg, msg_eq, refl)) v.retry)
              ]);
      }
