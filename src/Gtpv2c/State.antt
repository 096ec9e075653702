-- ===== src/Gtpv2c/State.antt =====
-- src/gtpv2c/gtpv2c.hpp and src/gtpv2c/gtpv2c.cpp: the state of `gtpv2c_stack` and its timers. The
-- state holds the maps of the class, the timers of the middleware, the generator of transaction
-- identifiers, and what left through the sockets and `notify_ul_error`. Logging is left out.
use openair_spgwc.Prelude.{
  ℕ, ◌+◌, ◌*◌, ◌/◌, ◌%◌, ◌^◌, Option, none, some, List, [], if◌then◌else◌, ◌==◌,
}
use openair_spgwc.Prelude.Words.{u32}
use openair_spgwc.Timers.{Itti, timer_setup, timer_remove, invalid_timer_id}
use openair_spgwc.UidGenerator.{UidGenerator, get_uid, free_uid}
use openair_spgwc.Pfcp.State.{Endpoint, no_endpoint}
use openair_spgwc.Gtpv2c.Header.{Msg}
use openair_spgwc.Prelude.AtomicHashMap.{AtomicHashMap}

-- `retry_msg` is `none` for the null pointer.
pub record Procedure : Type 0 where
  pub retry_msg : Option Msg
  pub remote_endpoint : Endpoint
  pub local_teid : ℕ
  pub retry_timer_id : ℕ
  pub proc_cleanup_timer_id : ℕ
  pub gtpc_tx_id : ℕ
  pub initial_msg_type : ℕ
  pub triggered_msg_type : ℕ
  pub retry_count : ℕ

pub data Socket : Type 0 where
  listening allocated : Socket

pub record Datagram : Type 0 where
  pub socket : Socket
  pub msg : Msg
  pub dest : Endpoint

-- A call of `notify_ul_error`; the cause is always REMOTE_PEER_NOT_RESPONDING.
pub record UlError : Type 0 where
  pub endpoint : Endpoint
  pub teid : ℕ
  pub gtpc_tx_id : ℕ

unfoldable pub new_procedure : Procedure
unfolding no_endpoint
new_procedure = record {
  retry_msg = none;
  remote_endpoint = no_endpoint;
  local_teid = 0;
  retry_timer_id = 0;
  proc_cleanup_timer_id = 0;
  gtpc_tx_id = 0;
  initial_msg_type = 0;
  triggered_msg_type = 0;
  retry_count = 0;
}

pub record Stack (H : AtomicHashMap) : Type 0 where
  pub t3_ms : ℕ
  pub n3 : ℕ
  pub seq_num : ℕ
  pub gtpc_tx_id2seq_num : H.Map ℕ
  pub proc_cleanup_timers : H.Map ℕ
  pub msg_out_retry_timers : H.Map ℕ
  pub pending_procedures : H.Map Procedure
  pub itti : Itti
  pub uids : UidGenerator
  pub sent : List Datagram
  pub notified : List UlError

module _ (H : AtomicHashMap) where
  open H use {empty, insert, erase}

  -- The constructor, with the nanoseconds of the clock, on the shared middleware.
  unfoldable pub init : ℕ → ℕ → ℕ → Itti → UidGenerator → Stack H
  init t3_milli_seconds n3_retransmit tv_nsec itti uids = record {
    t3_ms = t3_milli_seconds;
    n3 = n3_retransmit;
    seq_num = tv_nsec % 2 ^ 31;
    gtpc_tx_id2seq_num = empty;
    proc_cleanup_timers = empty;
    msg_out_retry_timers = empty;
    pending_procedures = empty;
    itti = itti;
    uids = uids;
    sent = [];
    notified = [];
  }

  unfoldable pub get_next_seq_num : Stack H → ℕ × Stack H
  get_next_seq_num s =
      let n = u32 (s.seq_num + 1) in
      let n' = if n / 2 ^ 31 % 2 == 0 then n else 0 in (n', record s { seq_num = n' })

  unfoldable pub generate_gtpc_tx_id : Stack H → Option (ℕ × Stack H)
  generate_gtpc_tx_id s = elim (get_uid (2 ^ 64) s.uids) [
    | none ↦ none
    | some (uid, g) ↦ some (uid, record s { uids = g })
  ]

  unfoldable pub free_gtpc_tx_id : ℕ → Stack H → Stack H
  free_gtpc_tx_id gtpc_tx_id s = record s { uids = free_uid gtpc_tx_id s.uids }

  -- `itti_inst->timer_setup` with a time in milliseconds; `now` is the reading of the clock.
  unfoldable pub setup_ms : ℕ → ℕ → ℕ → Stack H → ℕ × Stack H
  setup_ms now ms task_id s =
      let (id, itti) = timer_setup now (ms / 1000) (ms % 1000 * 1000) task_id 0 0 s.itti in
      (id, record s { itti = itti })

  unfoldable pub start_msg_retry_timer : ℕ → Procedure → ℕ → ℕ → ℕ → Stack H → Procedure × Stack H
  start_msg_retry_timer now p ms task_id seq_num s =
      let (id, s') = setup_ms now ms task_id s in
      (
        record p { retry_timer_id = id },
        if id == invalid_timer_id
            then s'
            else record s' { msg_out_retry_timers = insert id seq_num s'.msg_out_retry_timers },
      )

  unfoldable pub stop_msg_retry_timer : Procedure → Stack H → Procedure × Stack H
  stop_msg_retry_timer p s = if p.retry_timer_id == invalid_timer_id then (p, s) else (
    record p { retry_timer_id = invalid_timer_id },
    record s {
      itti = (timer_remove p.retry_timer_id s.itti).1;
      msg_out_retry_timers = erase p.retry_timer_id s.msg_out_retry_timers;
    },
  )

  unfoldable pub start_proc_cleanup_timer :
      ℕ → Procedure → ℕ → ℕ → ℕ → Stack H → Procedure × Stack H
  start_proc_cleanup_timer now p ms task_id seq_num s =
      let (id, s') = setup_ms now ms task_id s in
      if p.proc_cleanup_timer_id == invalid_timer_id
      then (
        record p { proc_cleanup_timer_id = id },
        record s' { proc_cleanup_timers = insert id seq_num s'.proc_cleanup_timers },
      )
      else (p, s)

  -- The entry of `proc_cleanup_timers` stays.
  unfoldable pub stop_proc_cleanup_timer : Procedure → Stack H → Procedure × Stack H
  stop_proc_cleanup_timer p s = (
    record p { proc_cleanup_timer_id = invalid_timer_id },
    record s {
      itti = (timer_remove p.proc_cleanup_timer_id s.itti).1;
      msg_out_retry_timers = erase p.proc_cleanup_timer_id s.msg_out_retry_timers;
    },
  )
