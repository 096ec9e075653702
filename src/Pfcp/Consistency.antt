-- ===== src/Pfcp/Consistency.antt =====
-- The invariant of the maps of `pfcp_l4_stack` (src/pfcp/pfcp.hpp): each timer and each transaction
-- leads to the pending procedure that names it.
pub mod Opening
pub mod Expiry
pub mod Steps
use openair_spgwc.Prelude.{ℕ, ◌≡◌, ◌≢◌, Option, none, some, List, [], refl, arith}
use openair_spgwc.Prelude.StdMap.{nat_key, find}
use openair_spgwc.Prelude.Links.{Links}
use openair_spgwc.Timers.{Itti}
use openair_spgwc.UidGenerator.{UidGenerator}
use openair_spgwc.Pfcp.Header.{Msg}
use openair_spgwc.Pfcp.State.{Procedure, Stack, init}

abbrev pub CleanupOf : ℕ → ℕ → Procedure → Type 0
CleanupOf t q p = p.proc_cleanup_timer_id ≡ t

abbrev pub TrxnOf : ℕ → ℕ → Procedure → Type 0
TrxnOf x q p = p.trxn_id ≡ x

-- A procedure with a retry timer has a message to send again.
abbrev pub RetryOf : ℕ → ℕ → Procedure → Type 0
RetryOf t q p =
    (p.retry_timer_id ≡ t)
    × (t ≢ 0)
    × ((m : Msg) × (p.retry_msg ≡ some m) × (m.header.sequence_number ≡ q))

pub record Inv (s : Stack) : Type 0 where
  pub cleanup :
      Links (λ t. find t s.proc_cleanup_timers) (λ q. find q s.pending_procedures) CleanupOf
  pub trxn : Links (λ x. find x s.trxn_id2seq_num) (λ q. find q s.pending_procedures) TrxnOf
  pub retry : Links (λ t. find t s.msg_out_retry_timers) (λ q. find q s.pending_procedures) RetryOf

-- A new stack is consistent.
pub init-Inv : (t1 n1 tv_nsec : ℕ) (i : Itti) (g : UidGenerator) → Inv (init t1 n1 tv_nsec i g)
unfolding init find
init-Inv t1 n1 tv_nsec i g = record {
  cleanup = λ k q e. cc;
  trxn = λ k q e. cc;
  retry = λ k q e. cc;
}
