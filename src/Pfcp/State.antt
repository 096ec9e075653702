-- ===== src/Pfcp/State.antt =====
-- src/pfcp/pfcp.hpp and src/pfcp/pfcp.cpp: the state of `pfcp_l4_stack` and its timers. The state
-- holds what a call can reach: the maps of the class, the timers of the middleware, the generator of
-- transaction identifiers, and what left through the sockets and `notify_ul_error`. Logging is left out.
use openair_spgwc.Prelude.{
  ℕ, ◌+◌, ◌*◌, ◌/◌, ◌%◌, ◌^◌, Option, none, some, List, [], if◌then◌else◌, ◌==◌,
}
use openair_spgwc.Prelude.Words.{u32}
use openair_spgwc.Prelude.StdMap.{nat_key, insert, erase}
use openair_spgwc.Timers.{Itti, timer_setup, timer_remove, invalid_timer_id}
use openair_spgwc.UidGenerator.{UidGenerator, get_uid, free_uid}
use openair_spgwc.Pfcp.Header.{Msg}

-- The bytes of a `sockaddr_storage` and the length that counts.
pub record Endpoint : Type 0 where
  pub addr_storage : List ℕ
  pub addr_storage_len : ℕ

-- `retry_msg` is `none` for the null pointer.
pub record Procedure : Type 0 where
  pub retry_msg : Option Msg
  pub remote_endpoint : Endpoint
  pub retry_timer_id : ℕ
  pub proc_cleanup_timer_id : ℕ
  pub trxn_id : ℕ
  pub initial_msg_type : ℕ
  pub triggered_msg_type : ℕ
  pub retry_count : ℕ

pub data Socket : Type 0 where
  registered allocated : Socket

pub record Datagram : Type 0 where
  pub socket : Socket
  pub msg : Msg
  pub dest : Endpoint

-- A call of `notify_ul_error`; the cause is always REMOTE_PEER_NOT_RESPONDING.
pub record UlError : Type 0 where
  pub endpoint : Endpoint
  pub message_type : ℕ
  pub sequence_number : ℕ
  pub trxn_id : ℕ

pub record Stack : Type 0 where
  pub t1_ms : ℕ
  pub n1 : ℕ
  pub seq_num : ℕ
  pub trxn_id2seq_num : List (ℕ × ℕ)
  pub proc_cleanup_timers : List (ℕ × ℕ)
  pub msg_out_retry_timers : List (ℕ × ℕ)
  pub pending_procedures : List (ℕ × Procedure)
  pub itti : Itti
  pub uids : UidGenerator
  pub sent : List Datagram
  pub notified : List UlError

unfoldable pub no_endpoint : Endpoint
no_endpoint = record { addr_storage = []; addr_storage_len = 128 }

unfoldable pub new_procedure : Procedure
unfolding no_endpoint
new_procedure = record {
  retry_msg = none;
  remote_endpoint = no_endpoint;
  retry_timer_id = 0;
  proc_cleanup_timer_id = 0;
  trxn_id = 0;
  initial_msg_type = 0;
  triggered_msg_type = 0;
  retry_count = 0;
}

-- The constructor, with the nanoseconds of the clock, on the shared middleware.
unfoldable pub init : ℕ → ℕ → ℕ → Itti → UidGenerator → Stack
init t1_milli_seconds n1_retransmit tv_nsec itti uids = record {
  t1_ms = t1_milli_seconds;
  n1 = n1_retransmit;
  seq_num = tv_nsec % 2 ^ 31;
  trxn_id2seq_num = [];
  proc_cleanup_timers = [];
  msg_out_retry_timers = [];
  pending_procedures = [];
  itti = itti;
  uids = uids;
  sent = [];
  notified = [];
}

unfoldable pub get_next_seq_num : Stack → ℕ × Stack
get_next_seq_num s =
    let n = u32 (s.seq_num + 1) in
    let n' = if n / 2 ^ 31 % 2 == 0 then n else 0 in (n', record s { seq_num = n' })

unfoldable pub generate_trxn_id : Stack → Option (ℕ × Stack)
generate_trxn_id s = elim (get_uid (2 ^ 64) s.uids) [
  | none ↦ none
  | some (uid, g) ↦ some (uid, record s { uids = g })
]

unfoldable pub free_trxn_id : ℕ → Stack → Stack
free_trxn_id trxn_id s = record s { uids = free_uid trxn_id s.uids }

-- `itti_inst->timer_setup` with a time in milliseconds; `now` is the reading of the clock.
unfoldable pub setup_ms : ℕ → ℕ → ℕ → Stack → ℕ × Stack
setup_ms now ms task_id s =
    let (id, itti) = timer_setup now (ms / 1000) (ms % 1000 * 1000) task_id 0 0 s.itti in
    (id, record s { itti = itti })

unfoldable pub start_msg_retry_timer : ℕ → Procedure → ℕ → ℕ → ℕ → Stack → Procedure × Stack
start_msg_retry_timer now p ms task_id seq_num s =
    let (id, s') = setup_ms now ms task_id s in
    (
      record p { retry_timer_id = id },
      if id == invalid_timer_id
          then s'
          else record s' { msg_out_retry_timers = insert id seq_num s'.msg_out_retry_timers },
    )

unfoldable pub stop_msg_retry_timer : Procedure → Stack → Procedure × Stack
stop_msg_retry_timer p s = if p.retry_timer_id == invalid_timer_id then (p, s) else (
  record p { retry_timer_id = invalid_timer_id },
  record s {
    itti = (timer_remove p.retry_timer_id s.itti).1;
    msg_out_retry_timers = erase p.retry_timer_id s.msg_out_retry_timers;
  },
)

unfoldable pub start_proc_cleanup_timer : ℕ → Procedure → ℕ → ℕ → ℕ → Stack → Procedure × Stack
start_proc_cleanup_timer now p ms task_id seq_num s =
    let (id, s') = setup_ms now ms task_id s in
    (
      record p { proc_cleanup_timer_id = id },
      record s' { proc_cleanup_timers = insert id seq_num s'.proc_cleanup_timers },
    )

unfoldable pub stop_proc_cleanup_timer : Procedure → Stack → Procedure × Stack
stop_proc_cleanup_timer p s = (
  record p { proc_cleanup_timer_id = 0 },
  record s {
    itti = (timer_remove p.proc_cleanup_timer_id s.itti).1;
    msg_out_retry_timers = erase p.proc_cleanup_timer_id s.msg_out_retry_timers;
    proc_cleanup_timers = erase p.proc_cleanup_timer_id s.proc_cleanup_timers;
  },
)
