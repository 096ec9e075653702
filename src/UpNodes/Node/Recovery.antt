-- ===== src/UpNodes/Node/Recovery.antt =====
-- How `PfcpUpNode` of src/oai_spgwc/PfcpUpNodes.cpp goes from one state to the next.
use openair_spgwc.Prelude.{
  ℕ, zero, suc, ◌+◌, ◌^◌, ◌≤◌, ◌<◌, ◌≡◌, if◌then◌else◌, ◌==◌, ltb, arith, refl, inl, inr,
  Bool-cases,
}
use openair_spgwc.UpNodes.Node.{
  PfcpUpNode, assoc_setup_state, assoc_unstable, assoc_lost, notify_node_not_reachable,
  notify_node_reachable,
}

-- A call repeated.
abbrev pub times : ℕ → (PfcpUpNode → PfcpUpNode) → PfcpUpNode → PfcpUpNode
times zero f n = n
times (suc k) f n = f (times k f n)

-- The state after failed heartbeats alone.
abbrev pub failing : ℕ → ℕ
failing zero = assoc_setup_state
failing (suc zero) = assoc_unstable
failing (suc (suc k)) = assoc_lost

fails_from_setup :
    (n : PfcpUpNode)
    → n.association_state ≡ assoc_setup_state
    → n.consecutive_failed_echo_proc + 2 < 2 ^ 32
    → let n' = notify_node_not_reachable n in
      (n'.association_state ≡ assoc_unstable)
      × (n'.consecutive_failed_echo_proc ≡ n.consecutive_failed_echo_proc + 1)
      × (n'.consecutive_successful_echo_proc ≡ 0)
unfolding notify_node_not_reachable
fails_from_setup n up small = (ground arith, ground arith, refl)

unstable_after_failure :
    (n : PfcpUpNode)
    → n.association_state ≡ assoc_setup_state
    → ((notify_node_not_reachable n).association_state ≡ assoc_unstable)
      × ((notify_node_not_reachable n).consecutive_successful_echo_proc ≡ 0)
unfolding notify_node_not_reachable
unstable_after_failure n up = (ground arith, refl)

fails_from_unstable :
    (n : PfcpUpNode)
    → n.association_state ≡ assoc_unstable
    → 1 ≤ n.consecutive_failed_echo_proc
    → n.consecutive_failed_echo_proc + 1 < 2 ^ 32
    → (notify_node_not_reachable n).association_state ≡ assoc_lost
unfolding notify_node_not_reachable
fails_from_unstable n un one small = ground arith

fails_from_lost :
    (n : PfcpUpNode)
    → n.association_state ≡ assoc_lost
    → (notify_node_not_reachable n).association_state ≡ assoc_lost
unfolding notify_node_not_reachable
fails_from_lost n lost = ground arith

answers_from_unstable :
    (n : PfcpUpNode)
    → n.association_state ≡ assoc_unstable
    → n.consecutive_successful_echo_proc ≤ 11
    → ((notify_node_reachable n).association_state
        ≡ (if n.consecutive_successful_echo_proc == 11 then assoc_setup_state else assoc_unstable))
      × ((notify_node_reachable n).consecutive_successful_echo_proc
          ≡ n.consecutive_successful_echo_proc + 1)
unfolding notify_node_reachable
answers_from_unstable n un le = (ground arith, ground arith)

answers_from_setup :
    (n : PfcpUpNode)
    → n.association_state ≡ assoc_setup_state
    → (notify_node_reachable n).association_state ≡ assoc_setup_state
unfolding notify_node_reachable
answers_from_setup n up = ground arith

-- A node that is set up gets unstable with the first heartbeat that fails, and is lost with the
-- second and for all that fail after it, if the counter of failures is not about to wrap.
pub failures_lose :
    (n : PfcpUpNode) (k : ℕ)
    → n.association_state ≡ assoc_setup_state
    → n.consecutive_failed_echo_proc + 2 < 2 ^ 32
    → (times k notify_node_not_reachable n).association_state ≡ failing k
failures_lose n zero up small = ground arith
failures_lose n (suc zero) up small = (fails_from_setup n up small).0
failures_lose n (suc (suc zero)) up small =
    let (un, count, successes) = fails_from_setup n up small in
    fails_from_unstable (notify_node_not_reachable n) un (omega arith) (omega arith)
failures_lose n (suc (suc (suc k))) up small =
    fails_from_lost (times (suc (suc k)) notify_node_not_reachable n)
      (failures_lose n (suc (suc k)) up small)

answers_wait :
    (n : PfcpUpNode) (k : ℕ)
    → n.association_state ≡ assoc_unstable
    → n.consecutive_successful_echo_proc ≡ 0
    → k ≤ 11
    → ((times k notify_node_reachable n).association_state ≡ assoc_unstable)
      × ((times k notify_node_reachable n).consecutive_successful_echo_proc ≡ k)
answers_wait n zero un none_yet le = (un, none_yet)
answers_wait n (suc k) un none_yet le =
    let (un', count) = answers_wait n k un none_yet (omega arith) in
    let step = answers_from_unstable (times k notify_node_reachable n) un' (omega arith) in
    ground (arith, step)

answers_recover :
    (n : PfcpUpNode) (k : ℕ)
    → n.association_state ≡ assoc_unstable
    → n.consecutive_successful_echo_proc ≡ 0
    → 12 ≤ k
    → (times k notify_node_reachable n).association_state ≡ assoc_setup_state
answers_recover n zero un none_yet ge = absurd (omega arith)
answers_recover n (suc k) un none_yet ge = elim (Bool-cases (k == 11)) [
  | inl e ↦
      let (un', count) = answers_wait n k un none_yet (ground arith) in
      let step = answers_from_unstable (times k notify_node_reachable n) un' (ground arith) in
      ground (arith, step)
  | inr e ↦
      answers_from_setup (times k notify_node_reachable n)
        (answers_recover n k un none_yet (ground arith))
]

-- A node that gets unstable because a heartbeat fails is set up again with the twelfth answer in a
-- row, and stays so for all answers after it.
pub twelve_answers_recover :
    (n : PfcpUpNode) (k : ℕ)
    → n.association_state ≡ assoc_setup_state
    → (times k notify_node_reachable (notify_node_not_reachable n)).association_state
      ≡ (if ltb k 12 then assoc_unstable else assoc_setup_state)
twelve_answers_recover n k up =
    let (un, none_yet) = unstable_after_failure n up in
    let m = notify_node_not_reachable n in
    elim (Bool-cases (ltb k 12)) [
      | inl e ↦ let waits = answers_wait m k un none_yet (ground arith) in ground (arith, waits.0)
      | inr e ↦ let done = answers_recover m k un none_yet (ground arith) in ground (arith, done)
    ]
