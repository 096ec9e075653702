-- ===== src/Pfcp/Retries.antt =====
-- The retransmissions of src/pfcp/pfcp.cpp: what becomes of a request that is never answered.
use openair_spgwc.Prelude.{
  ℕ, zero, suc, ◌+◌, ◌%◌, ◌^◌, ◌≤◌, ◌<◌, ◌≡◌, Option, none, some, List, [], ◌∷◌, refl, ◌∙◌, arith,
  length, ◌>>=◌,
}
use openair_spgwc.Prelude.StdMap.{nat_key, find, erase, find-assign, find-erase, find-insert}
use openair_spgwc.Timers.{timer_setup}
use openair_spgwc.Pfcp.Header.{Msg}
use openair_spgwc.Pfcp.State.{
  Endpoint, Procedure, registered, Datagram, Stack, start_msg_retry_timer, setup_ms,
}
use openair_spgwc.Pfcp.Receive.{retransmit, notify_ul_error, retry_expired, time_out_event}

-- The procedure of `seq` waits for the answer to `msg`: its retry timer runs, and leads to it. No
-- number that the timers have not given out yet is in the map.
pub record Awaits (seq : ℕ) (msg : Msg) (p : Procedure) (s : Stack) : Type 0 where
  pub pending : find seq s.pending_procedures ≡ some p
  pub timer : find p.retry_timer_id s.msg_out_retry_timers ≡ some seq
  pub message : p.retry_msg ≡ some msg
  pub number : msg.header.sequence_number ≡ seq
  pub unused : (j : ℕ) → s.itti.timer_id < j → find j s.msg_out_retry_timers ≡ none

-- The retry timer of the procedure of `seq` expires, whichever it is now.
pub retry_times_out : ℕ → ℕ → ℕ → Stack → Option Stack
retry_times_out now task_id seq s = elim (find seq s.pending_procedures) [
  | none ↦ none
  | some p ↦ time_out_event now p.retry_timer_id task_id s >>= λ r. some r.1
]

-- It expires at each of these times.
pub retries : List ℕ → ℕ → ℕ → Stack → Option Stack
unfolding retry_times_out
retries [] task_id seq s = some s
retries (now ∷ nows) task_id seq s = do
  s' ← retry_times_out now task_id seq s
  retries nows task_id seq s'

-- The datagrams of `n` retransmissions, before those of `sent`.
pub copies : ℕ → Datagram → List Datagram → List Datagram
copies zero d sent = sent
copies (suc n) d sent = copies n d (d ∷ sent)

abbrev pub again : Msg → Endpoint → Datagram
again msg dest = record { socket = registered; msg = msg; dest = dest }

-- What the time-outs leave of the procedure, besides its counter.
pub record Same (p p' : Procedure) (s s' : Stack) : Type 0 where
  pub remote : p'.remote_endpoint ≡ p.remote_endpoint
  pub trxn : p'.trxn_id ≡ p.trxn_id
  pub n1 : s'.n1 ≡ s.n1
  pub notified : s'.notified ≡ s.notified

module _ (task_id seq : ℕ) (msg : Msg) (low : 0 < task_id) (high : task_id < 21) where
  retry_once :
      (now : ℕ) (p : Procedure) (s : Stack)
      → Awaits seq msg p s
      → p.retry_count < s.n1
      → s.n1 < 2 ^ 8
      → s.itti.timer_id + 1 < 2 ^ 32
      → (p' : Procedure) × (s' : Stack) × (retry_times_out now task_id seq s ≡ some s')
        × Awaits seq msg p' s'
        × (p'.retry_count ≡ p.retry_count + 1)
        × (s'.itti.timer_id ≡ s.itti.timer_id + 1)
        × (s'.sent ≡ again msg p.remote_endpoint ∷ s.sent)
        × Same p p' s s'
  unfolding retry_times_out time_out_event retry_expired retransmit start_msg_retry_timer setup_ms
      timer_setup
  retry_once now p s w more small room =
      let e = s.itti.timer_id in
      let m0 = erase p.retry_timer_id s.msg_out_retry_timers in
      let s0 : Stack = record s { msg_out_retry_timers = m0 } in
      let p' =
        (start_msg_retry_timer now (record p { retry_count = (p.retry_count + 1) % 2 ^ 8 }) s.t1_ms
          task_id msg.header.sequence_number s0).0 in
      let s' = retransmit now task_id seq p msg s0 in
      let pending = w.pending in
      let timer = w.timer in
      let message = w.message in
      let number = w.number in
      let at = find-assign seq seq p' s.pending_procedures in
      let gone = find-erase p.retry_timer_id (e + 1) s.msg_out_retry_timers in
      let unused = w.unused (e + 1) (omega arith) in
      let armed = find-insert (e + 1) (e + 1) seq m0 in
      (
        p',
        s',
        ground arith,
        record {
          pending = ground arith;
          timer = ground arith;
          message = message;
          number = number;
          unused = λ j later.
              let kept = find-erase p.retry_timer_id j s.msg_out_retry_timers in
              let others = find-insert (e + 1) j seq m0 in let free = w.unused j in ground arith;
        },
        ground arith,
        ground arith,
        ground arith,
        record { remote = refl; trxn = refl; n1 = ground arith; notified = ground arith },
      )

  pub retries_left :
      (nows : List ℕ) (p : Procedure) (s : Stack)
      → Awaits seq msg p s
      → p.retry_count + length nows ≤ s.n1
      → s.n1 < 2 ^ 8
      → s.itti.timer_id + length nows < 2 ^ 32
      → (p' : Procedure) × (s' : Stack) × (retries nows task_id seq s ≡ some s')
        × Awaits seq msg p' s'
        × (p'.retry_count ≡ p.retry_count + length nows)
        × (s'.sent ≡ copies (length nows) (again msg p.remote_endpoint) s.sent)
        × Same p p' s s'
  unfolding retries copies
  retries_left [] p s w fits small room = (
    p,
    s,
    refl,
    w,
    omega arith,
    refl,
    record { remote = refl; trxn = refl; n1 = refl; notified = refl },
  )
  retries_left (now ∷ nows) p s w fits small room =
      let (q, t, run, wq, count, timers, sent, same) =
        retry_once now p s w (omega arith) small (omega arith) in
      let n1 = same.n1 in
      let (p', s', runs, w', counts, sents, sames) =
        retries_left nows q t wq (omega arith) (omega arith) (omega arith) in
      let remote = same.remote in
      (
        p',
        s',
        ground (arith, run, runs),
        w',
        omega arith,
        rw (sents, sent, remote) refl,
        record {
          remote = sames.remote ∙ same.remote;
          trxn = sames.trxn ∙ same.trxn;
          n1 = sames.n1 ∙ same.n1;
          notified = sames.notified ∙ same.notified;
        },
      )

  -- The time-out that finds the counter at its limit.
  pub gives_up :
      (now : ℕ) (p : Procedure) (s : Stack)
      → Awaits seq msg p s
      → s.n1 ≤ p.retry_count
      → (s' : Stack) × (retry_times_out now task_id seq s ≡ some s')
        × (s'.sent ≡ s.sent)
        × (s'.notified
            ≡ (record {
              endpoint = p.remote_endpoint;
              message_type = msg.header.message_type;
              sequence_number = seq;
              trxn_id = p.trxn_id;
            })
              ∷ s.notified)
        × (find seq s'.pending_procedures ≡ some p)
        × (find p.retry_timer_id s'.msg_out_retry_timers ≡ none)
  unfolding retry_times_out time_out_event retry_expired notify_ul_error
  gives_up now p s w over =
      let pending = w.pending in
      let timer = w.timer in
      let message = w.message in
      let number = w.number in
      let gone = find-erase p.retry_timer_id p.retry_timer_id s.msg_out_retry_timers in
      (
        notify_ul_error p msg
            (record s { msg_out_retry_timers = erase p.retry_timer_id s.msg_out_retry_timers }),
        ground arith,
        refl,
        ground arith,
        pending,
        ground arith,
      )
