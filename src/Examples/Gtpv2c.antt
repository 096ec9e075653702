-- ===== src/Examples/Gtpv2c.antt =====
-- A session request of src/gtpv2c/gtpv2c.cpp under the sequence number 6, over the simplest map that
-- keeps the promises of `folly::AtomicHashMap`; its timers are 1 for the retries and 2 for the clean-up.
use openair_spgwc.Prelude.{
  ℕ, ◌+◌, ◌%◌, ◌^◌, ◌≤◌, ◌<◌, ◌≡◌, ◌↔◌, ◌⊎◌, true, false, none, some, [], ◌∷◌, refl, arith,
  if◌then◌else◌, ◌==◌,
}
use openair_spgwc.Prelude.StdMap
use openair_spgwc.Prelude.StdMap.{nat_key}
use openair_spgwc.Timers.{Timer}
use openair_spgwc.UidGenerator.{contains}
use openair_spgwc.Pfcp.State.{Endpoint}
use openair_spgwc.Examples.Maps.{list_map}
use openair_spgwc.Gtpv2c.MessageType.{
  check_triggered_message_type, check_initial_message_type, is_label, is_bearer_request,
  initial_labels,
}
use openair_spgwc.Gtpv2c.Header.{Msg, gtpv2c_msg, set_teid, set_sequence_number}
use openair_spgwc.Gtpv2c.State.{Procedure, Stack, listening}
use openair_spgwc.Gtpv2c.Send.{numbered}
use openair_spgwc.Gtpv2c.Receive.{expected_initial, handle_receive_message_cb, time_out_event}
use openair_spgwc.Gtpv2c.Faults.{time_out_event_faults_iff, aborted_cleanup_faults}
use openair_spgwc.Gtpv2c.Retries.{time_out_event_retries_or_aborts}
use openair_spgwc.Gtpv2c.Answers.{answer_closes}

abbrev idle : Timer
idle = record { id = 0; task_id = 22; time_out = 1; arg1_user = 0; arg2_user = 0 }

abbrev peer : Endpoint
peer = record { addr_storage = 2 ∷ 0 ∷ []; addr_storage_len = 16 }

abbrev request : Msg
request = numbered 32 (some 9) [] 6

abbrev answer : Msg
answer = record { header = set_sequence_number 6 (set_teid 8 (gtpv2c_msg 33 []).header); ies = [] }

-- After three retries.
abbrev procedure : Procedure
procedure = record {
  retry_msg = some request;
  remote_endpoint = peer;
  local_teid = 4;
  retry_timer_id = 1;
  proc_cleanup_timer_id = 2;
  gtpc_tx_id = 7;
  initial_msg_type = 32;
  triggered_msg_type = 0;
  retry_count = 3;
}

abbrev waiting : Stack list_map
waiting = record {
  t3_ms = 1000;
  n3 = 3;
  seq_num = 6;
  gtpc_tx_id2seq_num = (7, 6) ∷ [];
  proc_cleanup_timers = (2, 6) ∷ [];
  msg_out_retry_timers = (1, 6) ∷ [];
  pending_procedures = (6, procedure) ∷ [];
  itti = record { timer_id = 2; timers = []; current_timer = idle; null = idle };
  uids = record { uid_generator = 7; uid_generated = 7 ∷ [] };
  sent = [];
  notified = [];
}

time_out_event_faults_iff_example : (time_out_event list_map 30 2 3 waiting ≡ none) ↔ (
    ((seq : ℕ) × (p : Procedure) × (StdMap.find 2 waiting.msg_out_retry_timers ≡ some seq)
      × (StdMap.find seq waiting.pending_procedures ≡ some p)
      × (p.retry_msg ≡ none)
      × (p.retry_count < waiting.n3))
    ⊎ ((seq : ℕ) × (StdMap.find 2 waiting.msg_out_retry_timers ≡ none)
        × (StdMap.find 2 waiting.proc_cleanup_timers ≡ some seq)
        × (StdMap.find seq waiting.pending_procedures ≡ none)))
time_out_event_faults_iff_example = time_out_event_faults_iff list_map 30 2 3 waiting

aborted_cleanup_faults_example :
    (s' : Stack list_map) × (time_out_event list_map 30 1 3 waiting ≡ some (true, s'))
    × (time_out_event list_map 40 2 3 s' ≡ none)
unfolding StdMap.find
aborted_cleanup_faults_example =
    aborted_cleanup_faults list_map 30 40 1 2 3 6 procedure waiting refl refl (omega arith) refl
      refl

answer_accepted :
    check_triggered_message_type (expected_initial procedure) answer.header.message_type ≡ true
unfolding check_triggered_message_type check_initial_message_type expected_initial
    set_sequence_number set_teid gtpv2c_msg is_label is_bearer_request initial_labels
answer_accepted = refl

answer_closes_example :
    (s' : Stack list_map) × (handle_receive_message_cb list_map 30 answer 3 waiting
      ≡ some (record { error = false; gtpc_tx_id = 7 }, s'))
    × ((q : ℕ)
        → StdMap.find q s'.pending_procedures
          ≡ (if 6 == q then none else StdMap.find q waiting.pending_procedures))
    × ((x : ℕ)
        → StdMap.find x s'.gtpc_tx_id2seq_num
          ≡ (if 7 == x then none else StdMap.find x waiting.gtpc_tx_id2seq_num))
    × ((v : ℕ)
        → contains v s'.uids.uid_generated
          ≡ (if 7 == v then false else contains v waiting.uids.uid_generated))
    × (s'.proc_cleanup_timers ≡ waiting.proc_cleanup_timers)
unfolding StdMap.find set_sequence_number
answer_closes_example = answer_closes list_map 30 3 answer procedure waiting refl answer_accepted

-- Before the first retry.
abbrev first_try : Procedure
first_try = record procedure { retry_count = 0 }

abbrev early : Stack list_map
early = record waiting { pending_procedures = (6, first_try) ∷ [] }

time_out_event_retries_or_aborts_example :
    (s' : Stack list_map) × (time_out_event list_map 30 1 3 early ≡ some (true, s'))
    × (((0 < 3)
          × (p' : Procedure) × (s'.sent
              ≡ (record { socket = listening; msg = request; dest = peer }) ∷ early.sent)
          × (s'.notified ≡ early.notified)
          × ((q : ℕ)
              → StdMap.find q s'.pending_procedures
                ≡ (if 6 == q then some p' else StdMap.find q early.pending_procedures))
          × (p'.retry_count ≡ (0 + 1) % 2 ^ 8)
          × (p'.gtpc_tx_id ≡ 7)
          × (p'.retry_msg ≡ some request))
        ⊎ ((3 ≤ 0)
            × (s'.sent ≡ early.sent)
            × (s'.notified
                ≡ (record { endpoint = peer; teid = 4; gtpc_tx_id = 7 }) ∷ early.notified)
            × ((q : ℕ)
                → StdMap.find q s'.pending_procedures
                  ≡ (if 6 == q then none else StdMap.find q early.pending_procedures))))
unfolding StdMap.find
time_out_event_retries_or_aborts_example =
    time_out_event_retries_or_aborts list_map 30 1 3 6 first_try request early refl refl refl
