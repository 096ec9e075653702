-- ===== src/Pfcp/Consistency/Steps.antt =====
-- All that can happen to the stack of src/pfcp/pfcp.cpp, as steps: requests and responses that are
-- sent, messages that come in, and timers that expire.
use mathlib.Core.Path.{subst}
use openair_spgwc.Prelude.{
  ℕ, ◌<◌, ◌^◌, ◌≡◌, ◌∙◌, Bool, Option, none, some, List, sym, arith, Bool-cases, Option-cases, inl,
  inr, length,
}
use openair_spgwc.Prelude.StdMap.{nat_key, find, erase, find-erase}
use openair_spgwc.Prelude.Links.{Links-close}
use openair_spgwc.Timers.{Itti}
use openair_spgwc.UidGenerator.{UidGenerator}
use openair_spgwc.UidGenerator.Search.{get_uid_total}
use openair_spgwc.Pfcp.MessageType.{check_request_type, check_response_type}
use openair_spgwc.Pfcp.Header.{Msg}
use openair_spgwc.Pfcp.State.{
  Endpoint, Procedure, Stack, init, stop_proc_cleanup_timer, free_trxn_id, get_next_seq_num,
  generate_trxn_id,
}
use openair_spgwc.Pfcp.Send.{
  TransactionAction, delete_tx, continue_tx, delete_transaction, respond, send, numbered, act,
}
use openair_spgwc.Pfcp.Receive.{
  Received, discarded, expected_initial, open_procedure, register_procedure, close_procedure,
  handle_receive_message_cb, time_out_event,
}
use openair_spgwc.Pfcp.Consistency.{CleanupOf, TrxnOf, RetryOf, Inv, init-Inv}
use openair_spgwc.Pfcp.Consistency.Opening.{
  erase_sub, erase_gone, register_procedure-Inv, register_request-Inv, close_procedure-Inv,
}
use openair_spgwc.Pfcp.Consistency.Expiry.{IsQuiet, time_out_event-Inv}

delete_transaction_maps :
    (frees : Bool) (trxn_id seq : ℕ) (p : Procedure) (s : Stack)
    → find seq s.pending_procedures ≡ some p
    → let s' = delete_transaction frees trxn_id seq s in
      (s'.pending_procedures ≡ erase seq s.pending_procedures)
      × (s'.trxn_id2seq_num ≡ erase trxn_id s.trxn_id2seq_num)
      × (s'.proc_cleanup_timers ≡ erase p.proc_cleanup_timer_id s.proc_cleanup_timers)
      × (s'.msg_out_retry_timers ≡ erase p.proc_cleanup_timer_id s.msg_out_retry_timers)
unfolding delete_transaction stop_proc_cleanup_timer free_trxn_id
delete_transaction_maps frees trxn_id seq p s e = ground arith

delete_transaction-Inv :
    (frees : Bool) (trxn_id seq : ℕ) (s : Stack)
    → find trxn_id s.trxn_id2seq_num ≡ some seq
    → IsQuiet seq s
    → Inv s
    → Inv (delete_transaction frees trxn_id seq s)
delete_transaction-Inv frees trxn_id seq s h quiet v =
    let (p, e, r) = v.trxn trxn_id seq h in
    let (pending, trxn, cleanup, retry) = delete_transaction_maps frees trxn_id seq p s e in
    let old = λ (q : ℕ). find q s.pending_procedures in
    let gone = λ (j : ℕ). find-erase seq j s.pending_procedures in
    record {
      cleanup =
          rw (pending, cleanup)
            (Links-close (λ t. find t s.proc_cleanup_timers) _ old _ CleanupOf seq p e gone
              (λ k q. erase_sub p.proc_cleanup_timer_id k q s.proc_cleanup_timers)
              (λ k a b. erase_gone p.proc_cleanup_timer_id k seq s.proc_cleanup_timers a b)
              v.cleanup);
      trxn =
          rw (pending, trxn)
            (Links-close (λ t. find t s.trxn_id2seq_num) _ old _ TrxnOf seq p e gone
              (λ k q. erase_sub trxn_id k q s.trxn_id2seq_num)
              (λ k a b. erase_gone trxn_id k seq s.trxn_id2seq_num a (sym r ∙ b)) v.trxn);
      retry =
          rw (pending, retry)
            (Links-close (λ t. find t s.msg_out_retry_timers) _ old _ RetryOf seq p e gone
              (λ k q. erase_sub p.proc_cleanup_timer_id k q s.msg_out_retry_timers)
              (λ k a b. quiet k (erase_sub p.proc_cleanup_timer_id k seq s.msg_out_retry_timers a))
              v.retry);
    }

act-Inv :
    (a : TransactionAction) (frees : Bool) (trxn_id seq : ℕ) (s : Stack)
    → find trxn_id s.trxn_id2seq_num ≡ some seq
    → IsQuiet seq s
    → Inv s
    → Inv (act a frees trxn_id seq s)
unfolding act
act-Inv delete_tx frees trxn_id seq s h quiet v =
    delete_transaction-Inv frees trxn_id seq s h quiet v
act-Inv continue_tx frees trxn_id seq s h quiet v = v

-- A response, sent for a transaction of the peer, for which no retry timer runs.
pub respond-Inv :
    (frees : Bool) (message_type : ℕ) (seid : Option ℕ) (dest : Endpoint) (ies : List ℕ)
    (trxn_id : ℕ) (a : TransactionAction) (s : Stack)
    → ((seq : ℕ) → find trxn_id s.trxn_id2seq_num ≡ some seq → IsQuiet seq s)
    → Inv s
    → Inv (respond frees message_type seid dest ies trxn_id a s)
unfolding respond
respond-Inv frees message_type seid dest ies trxn_id a s quiet v =
    elim (Option-cases (find trxn_id s.trxn_id2seq_num)) [
      | inl e ↦ rw (e, respond) v
      | inr (seq, e) ↦
          rw (e, respond)
            (act-Inv a frees trxn_id seq _ e (quiet seq e)
              (record { cleanup = v.cleanup; trxn = v.trxn; retry = v.retry }))
    ]

get_next_seq_num-Inv : (s : Stack) → Inv s → Inv (get_next_seq_num s).1
unfolding get_next_seq_num
get_next_seq_num-Inv s v = record { cleanup = v.cleanup; trxn = v.trxn; retry = v.retry }

-- A request, sent under a sequence number that no pending procedure has.
pub send-Inv :
    (now_retry now_cleanup message_type : ℕ) (seid : Option ℕ) (dest : Endpoint) (ies : List ℕ)
    (task_id trxn_id : ℕ) (s : Stack)
    → find
        (send now_retry now_cleanup message_type seid dest ies task_id trxn_id s).0
        s.pending_procedures
      ≡ none
    → Inv s
    → Inv (send now_retry now_cleanup message_type seid dest ies task_id trxn_id s).1
unfolding send
send-Inv now_retry now_cleanup message_type seid dest ies task_id trxn_id s new v =
    register_request-Inv now_retry now_cleanup
      (numbered message_type seid ies (get_next_seq_num s).0) dest task_id trxn_id
      (get_next_seq_num s).1 (unfold get_next_seq_num in new) (get_next_seq_num-Inv s v)

-- The generator of transaction identifiers has one left.
abbrev pub HasUids : Stack → Type 0
HasUids s = (s.uids.uid_generator < 2 ^ 64) × (length s.uids.uid_generated < 2 ^ 64)

open_procedure-Inv :
    (now : ℕ) (msg : Msg) (task_id : ℕ) (s : Stack)
    → HasUids s
    → find msg.header.sequence_number s.pending_procedures ≡ none
    → Inv s
    → (r : Received) × (s' : Stack) × (open_procedure now msg task_id s ≡ some (r, s')) × Inv s'
unfolding open_procedure generate_trxn_id
open_procedure-Inv now msg task_id s room new v =
    let (uid, g, e, lt, unused, used) = get_uid_total (2 ^ 64) s.uids room.0 room.1 in
    let s1 = record s { uids = g } in
    let res = register_procedure now msg task_id uid s1 in
    (
      res.0,
      res.1,
      ground arith,
      register_procedure-Inv now msg task_id uid s1 new
          (record { cleanup = v.cleanup; trxn = v.trxn; retry = v.retry }),
    )

-- On a consistent stack that has a transaction identifier left, every message that comes in is
-- dealt with, and the maps stay consistent.
pub handle_receive_message_cb-Inv :
    (now : ℕ) (msg : Msg) (task_id : ℕ) (s : Stack)
    → HasUids s
    → Inv s
    → (r : Received) × (s' : Stack) × (handle_receive_message_cb now msg task_id s ≡ some (r, s'))
      × Inv s'
unfolding handle_receive_message_cb
handle_receive_message_cb-Inv now msg task_id s room v =
    elim (Option-cases (find msg.header.sequence_number s.pending_procedures)) [
      | inl e ↦ elim (Bool-cases (check_request_type msg.header.message_type)) [
        | inl request ↦
            let (r, s', e', v') = open_procedure-Inv now msg task_id s room e v in
            (r, s', rw (e, handle_receive_message_cb) (rw request e'), v')
        | inr other ↦ (discarded, s, rw (e, handle_receive_message_cb) (rw other), v)
      ]
      | inr (p, e) ↦
          elim (Bool-cases (check_response_type (expected_initial p) msg.header.message_type)) [
            | inl answer ↦
                let res = close_procedure msg.header.sequence_number p s in
                (
                  res.0,
                  res.1,
                  rw (e, handle_receive_message_cb) (rw answer),
                  close_procedure-Inv msg.header.sequence_number p s e v,
                )
            | inr other ↦ (discarded, s, rw (e, handle_receive_message_cb) (rw other), v)
          ]
    ]

-- What can happen to the stack. A clean-up timer expires after the retries of its procedure, and a
-- response is sent for a transaction of the peer.
pub data Step (s : Stack) : Stack → Type 0 where
  sends :
      (now_retry now_cleanup message_type : ℕ) (seid : Option ℕ) (dest : Endpoint) (ies : List ℕ)
      (task_id trxn_id : ℕ)
      → find
          (send now_retry now_cleanup message_type seid dest ies task_id trxn_id s).0
          s.pending_procedures
        ≡ none
      → Step s (send now_retry now_cleanup message_type seid dest ies task_id trxn_id s).1
  responds :
      (frees : Bool) (message_type : ℕ) (seid : Option ℕ) (dest : Endpoint) (ies : List ℕ)
      (trxn_id : ℕ) (a : TransactionAction)
      → ((seq : ℕ) → find trxn_id s.trxn_id2seq_num ≡ some seq → IsQuiet seq s)
      → Step s (respond frees message_type seid dest ies trxn_id a s)
  receives :
      (now : ℕ) (msg : Msg) (task_id : ℕ) (r : Received) {s' : Stack}
      → HasUids s
      → handle_receive_message_cb now msg task_id s ≡ some (r, s')
      → Step s s'
  expires :
      (now timer_id task_id : ℕ) (handled : Bool) {s' : Stack}
      → ((q : ℕ) → find timer_id s.proc_cleanup_timers ≡ some q → IsQuiet q s)
      → time_out_event now timer_id task_id s ≡ some (handled, s')
      → Step s s'

pub data Reach (s : Stack) : Stack → Type 0 where
  here : Reach s s
  next : {t u : Stack} → Reach s t → Step t u → Reach s u

-- Every step keeps the maps consistent: requests that are sent, responses, messages that come in,
-- and timers that expire, under the conditions that `Step` puts on each.
pub Step-Inv : {s s' : Stack} → Step s s' → Inv s → Inv s'
Step-Inv {s} (sends now_retry now_cleanup message_type seid dest ies task_id trxn_id new) v =
    send-Inv now_retry now_cleanup message_type seid dest ies task_id trxn_id s new v
Step-Inv {s} (responds frees message_type seid dest ies trxn_id a quiet) v =
    respond-Inv frees message_type seid dest ies trxn_id a s quiet v
Step-Inv {s} {s'} (receives now msg task_id r room e) v =
    let (r', t, e', v') = handle_receive_message_cb-Inv now msg task_id s room v in
    let same : t ≡ s' = ground arith in subst Inv same v'
Step-Inv {s} {s'} (expires now timer_id task_id handled quiet e) v =
    let (h, t, e', v', _) = time_out_event-Inv now timer_id task_id s v quiet in
    let same : t ≡ s' = ground arith in subst Inv same v'

pub Reach-Inv : {s s' : Stack} → Inv s → Reach s s' → Inv s'
Reach-Inv v here = v
Reach-Inv v (next r st) = Step-Inv st (Reach-Inv v r)

-- A state is reached from a new stack by steps on four conditions: a request is sent under a sequence
-- number that no pending procedure has, not even one that a request of the peer has opened; a
-- message comes in while a transaction identifier is left; a response is sent, and a clean-up
-- timer expires, when no retry timer leads to the procedure in question. In every such state, each
-- time-out is dealt with and reads no procedure and no message that is not there, provided that, if
-- it is that of a clean-up timer, no retry timer leads to its procedure. The code checks none of
-- this.
pub reachable_time_out_safe :
    (t1 n1 tv_nsec : ℕ) (i : Itti) (g : UidGenerator) {s : Stack} (now timer_id task_id : ℕ)
    → Reach (init t1 n1 tv_nsec i g) s
    → ((q : ℕ) → find timer_id s.proc_cleanup_timers ≡ some q → IsQuiet q s)
    → (handled : Bool) × (s' : Stack) × (time_out_event now timer_id task_id s ≡ some (handled, s'))
reachable_time_out_safe t1 n1 tv_nsec i g {s} now timer_id task_id r quiet =
    let v = Reach-Inv (init-Inv t1 n1 tv_nsec i g) r in
    let (h, t, e, _, _) = time_out_event-Inv now timer_id task_id s v quiet in (h, t, e)
