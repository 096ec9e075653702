-- ===== src/Pfcp/Consistency/Expiry.antt =====
-- Answering requests and expiring timers in src/pfcp/pfcp.cpp keeps the maps consistent, and no
-- time-out reads through a null pointer or past the end of the map of procedures.
use openair_spgwc.Prelude.{
  ℕ, ◌+◌, ◌%◌, ◌^◌, ◌≡◌, ◌≢◌, ◌∙◌, Bool, true, false, none, some, sym, arith, if◌then◌else◌, ◌==◌,
  Bool-cases, Option-cases, inl, inr, ◌⊎◌, ◌↔◌, ltb,
}
use openair_spgwc.Prelude.StdMap.{
  nat_key, find, insert, erase, assign, find-insert, find-erase, find-assign,
}
use openair_spgwc.Prelude.Links.{Links-close, Links-narrow, Links-change}
use openair_spgwc.Pfcp.Header.{Msg}
use openair_spgwc.Pfcp.State.{Procedure, Stack, setup_ms, start_msg_retry_timer, free_trxn_id}
use openair_spgwc.Pfcp.Receive.{
  retransmit, notify_ul_error, retry_expired, cleanup_expired, time_out_event,
}
use openair_spgwc.Pfcp.Consistency.{CleanupOf, TrxnOf, RetryOf, Inv}
use openair_spgwc.Pfcp.Consistency.Opening.{erase_sub, erase_gone}

-- No retry timer is running for the sequence number.
abbrev pub IsQuiet : ℕ → Stack → Type 0
IsQuiet seq s = (t : ℕ) → find t s.msg_out_retry_timers ≢ some seq

-- A clean-up that nothing else expects any more.
cleanup_expired_lem :
    (timer_id seq : ℕ) (s : Stack)
    → find timer_id s.proc_cleanup_timers ≡ some seq
    → IsQuiet seq s
    → Inv s
    → (s' : Stack) × (cleanup_expired timer_id seq s ≡ some s')
      × Inv s'
      × (find seq s'.pending_procedures ≡ none)
unfolding cleanup_expired free_trxn_id
cleanup_expired_lem timer_id seq s h quiet v =
    let (p, e, r) = v.cleanup timer_id seq h in
    let old = λ (q : ℕ). find q s.pending_procedures in
    let gone = λ (j : ℕ). find-erase seq j s.pending_procedures in
    (
      (free_trxn_id p.trxn_id (record s {
        trxn_id2seq_num = erase p.trxn_id s.trxn_id2seq_num;
        proc_cleanup_timers = erase timer_id s.proc_cleanup_timers;
        pending_procedures = erase seq s.pending_procedures;
      })),
      ground arith,
      record {
        cleanup =
            Links-close (λ t. find t s.proc_cleanup_timers) _ old _ CleanupOf seq p e gone
              (λ k q. erase_sub timer_id k q s.proc_cleanup_timers)
              (λ k a b. erase_gone timer_id k seq s.proc_cleanup_timers a (sym r ∙ b)) v.cleanup;
        trxn =
            Links-close (λ t. find t s.trxn_id2seq_num) _ old _ TrxnOf seq p e gone
              (λ k q. erase_sub p.trxn_id k q s.trxn_id2seq_num)
              (λ k a b. erase_gone p.trxn_id k seq s.trxn_id2seq_num a b) v.trxn;
        retry =
            Links-close (λ t. find t s.msg_out_retry_timers) _ old _ RetryOf seq p e gone
              (λ k q a. a) (λ k a b. quiet k a) v.retry;
      },
      ground (arith, find-erase seq seq s.pending_procedures),
    )

module _ (now timer_id task_id seq : ℕ) (p : Procedure) (msg : Msg) (s : Stack) where
  without_timer : Stack
  without_timer = record s { msg_out_retry_timers = erase timer_id s.msg_out_retry_timers }

  -- The procedure after one more copy was sent.
  retried : Procedure
  unfolding without_timer
  retried =
      (start_msg_retry_timer now (record p { retry_count = (p.retry_count + 1) % 2 ^ 8 }) s.t1_ms
        task_id msg.header.sequence_number without_timer).0

  retransmit_maps :
      let s' = retransmit now task_id seq p msg without_timer in
      (s'.pending_procedures ≡ assign seq retried s.pending_procedures)
      × (s'.trxn_id2seq_num ≡ s.trxn_id2seq_num)
      × (s'.proc_cleanup_timers ≡ s.proc_cleanup_timers)
      × (s'.msg_out_retry_timers ≡ (
          if retried.retry_timer_id == 0
          then erase timer_id s.msg_out_retry_timers
          else insert retried.retry_timer_id msg.header.sequence_number
              (erase timer_id s.msg_out_retry_timers)))
      × (retried.trxn_id ≡ p.trxn_id)
      × (retried.proc_cleanup_timer_id ≡ p.proc_cleanup_timer_id)
      × (retried.retry_msg ≡ p.retry_msg)
  unfolding retransmit retried without_timer start_msg_retry_timer setup_ms
  retransmit_maps = ground arith

  -- Which keys the retry timers have then.
  retry_keys :
      (id : ℕ)
      → msg.header.sequence_number ≡ seq
      → (k q : ℕ)
      → find k (
          if id == 0
          then erase timer_id s.msg_out_retry_timers
          else insert id msg.header.sequence_number (erase timer_id s.msg_out_retry_timers))
        ≡ some q
      → ((find k s.msg_out_retry_timers ≡ some q) × (timer_id ≢ k))
        ⊎ ((q ≡ seq) × (id ≡ k) × (id ≢ 0))
  retry_keys id m k q e = ground (
    arith,
    find-insert id k msg.header.sequence_number (erase timer_id s.msg_out_retry_timers),
    find-erase timer_id k s.msg_out_retry_timers,
    find-erase timer_id id s.msg_out_retry_timers,
  )

  retransmit-Inv :
      find seq s.pending_procedures ≡ some p
      → p.retry_timer_id ≡ timer_id
      → p.retry_msg ≡ some msg
      → msg.header.sequence_number ≡ seq
      → Inv s
      → Inv (retransmit now task_id seq p msg without_timer)
  retransmit-Inv e mine has_msg m v =
      let (pending, trxn, cleanup, retry, trxn_eq, cleanup_eq, msg_eq) = retransmit_maps in
      let old = λ (q : ℕ). find q s.pending_procedures in
      let asg = λ (j : ℕ). find-assign seq j retried s.pending_procedures in
      record {
        cleanup =
            rw (pending, cleanup)
              (Links-change (λ t. find t s.proc_cleanup_timers) _ old _ CleanupOf seq p retried e
                asg (λ k q a. inl a) (λ k a. let (p', e', r) = v.cleanup k seq a in ground arith)
                v.cleanup);
        trxn =
            rw (pending, trxn)
              (Links-change (λ t. find t s.trxn_id2seq_num) _ old _ TrxnOf seq p retried e asg
                (λ k q a. inl a) (λ k a. let (p', e', r) = v.trxn k seq a in ground arith) v.trxn);
        retry =
            rw (pending, retry)
              (Links-change (λ t. find t s.msg_out_retry_timers) _ old _ RetryOf seq p retried e asg
                (λ k q a. sub k q (retry_keys retried.retry_timer_id m k q a))
                (λ k a. fits k (retry_keys retried.retry_timer_id m k seq a)) v.retry);
      }
    where
      sub :
          (k q : ℕ)
          → ((find k s.msg_out_retry_timers ≡ some q) × (timer_id ≢ k))
            ⊎ ((q ≡ seq) × (retried.retry_timer_id ≡ k) × (retried.retry_timer_id ≢ 0))
          → (find k s.msg_out_retry_timers ≡ some q) ⊎ (q ≡ seq)
      sub k q (inl a) = inl a.0
      sub k q (inr a) = inr a.0

      fits :
          (k : ℕ)
          → ((find k s.msg_out_retry_timers ≡ some seq) × (timer_id ≢ k))
            ⊎ ((seq ≡ seq) × (retried.retry_timer_id ≡ k) × (retried.retry_timer_id ≢ 0))
          → RetryOf k seq retried
      fits k (inl a) = let (p', e', r) = v.retry k seq a.0 in absurd (a.1 (ground (arith, r.0)))
      fits k (inr a) =
          let msg_kept = retransmit_maps.6 in
          (a.1, (λ z. a.2 (a.1 ∙ z)), (msg, msg_kept ∙ has_msg, m))

-- The retry timer of a consistent stack expires: a copy is sent, or the user is told.
retry_expired_lem :
    (now timer_id task_id seq : ℕ) (s : Stack)
    → find timer_id s.msg_out_retry_timers ≡ some seq
    → Inv s
    → (s' : Stack) × (retry_expired now timer_id task_id seq s ≡ some s') × Inv s'
unfolding retry_expired
retry_expired_lem now timer_id task_id seq s h v =
    let (p, e, r) = v.retry timer_id seq h in
    let (m, has, meq) = r.2 in
    let s1 = without_timer now timer_id task_id seq p m s in
    elim (Bool-cases (ltb p.retry_count s.n1)) [
      | inl more ↦ (
        retransmit now task_id seq p m s1,
        unfold without_timer in ground arith,
        retransmit-Inv now timer_id task_id seq p m s e r.0 has meq v,
      )
      | inr over ↦ (
        notify_ul_error p m s1,
        unfold without_timer in ground arith,
        unfold notify_ul_error without_timer in
            record {
              cleanup = v.cleanup;
              trxn = v.trxn;
              retry =
                  Links-narrow (λ t. find t s.msg_out_retry_timers) _
                    (λ q. find q s.pending_procedures) RetryOf
                    (λ k q. erase_sub timer_id k q s.msg_out_retry_timers) v.retry;
            },
      )
    ]

-- On a consistent stack every time-out is dealt with without a fault and leaves the stack
-- consistent, and it is handled exactly if the timer is one of the stack's. A clean-up timer is
-- taken to expire when no retry timer leads to its procedure any more.
pub time_out_event-Inv :
    (now timer_id task_id : ℕ) (s : Stack)
    → Inv s
    → ((q : ℕ) → find timer_id s.proc_cleanup_timers ≡ some q → IsQuiet q s)
    → (handled : Bool) × (s' : Stack) × (time_out_event now timer_id task_id s ≡ some (handled, s'))
      × Inv s'
      × ((handled ≡ false) ↔ (
          (find timer_id s.msg_out_retry_timers ≡ none)
          × (find timer_id s.proc_cleanup_timers ≡ none)))
unfolding time_out_event
time_out_event-Inv now timer_id task_id s v quiet =
    elim (Option-cases (find timer_id s.msg_out_retry_timers)) [
      | inr (seq, e) ↦
          let (s', e', v') = retry_expired_lem now timer_id task_id seq s e v in
          (true, s', rw (e, time_out_event) (rw e'), v', ground arith)
      | inl e ↦ elim (Option-cases (find timer_id s.proc_cleanup_timers)) [
        | inr (seq, c) ↦
            let (s', e', v', gone) = cleanup_expired_lem timer_id seq s c (quiet seq c) v in
            (true, s', rw (e, time_out_event) (rw (c, time_out_event) (rw e')), v', ground arith)
        | inl c ↦ (false, s, ground arith, v, ground arith)
      ]
    ]
