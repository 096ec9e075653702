-- ===== src/Gtpv2c/Faults.antt =====
-- Where `time_out_event` of src/gtpv2c/gtpv2c.cpp reads what is not there.
use openair_spgwc.Prelude.{ℕ, ◌≤◌, ◌<◌, ◌≡◌, ◌↔◌, ◌⊎◌, true, none, some, arith}
use openair_spgwc.Prelude.AtomicHashMap.{AtomicHashMap}
use openair_spgwc.Gtpv2c.State.{Procedure, Stack}
use openair_spgwc.Gtpv2c.Receive.{abort_procedure, retry_expired, cleanup_expired, time_out_event}

module _ (H : AtomicHashMap) where
  open H use {find, erase, find-erase}

  retry_faults_iff :
      (now timer_id task_id seq : ℕ) (s : Stack H)
      → (retry_expired H now timer_id task_id seq s ≡ none) ↔ (
          (p : Procedure) × (find seq s.pending_procedures ≡ some p)
          × (p.retry_msg ≡ none)
          × (p.retry_count < s.n3))
  unfolding retry_expired
  retry_faults_iff now timer_id task_id seq s = ground arith

  cleanup_faults_iff :
      (timer_id seq : ℕ) (s : Stack H)
      → (cleanup_expired H timer_id seq s ≡ none) ↔ (find seq s.pending_procedures ≡ none)
  unfolding cleanup_expired
  cleanup_faults_iff timer_id seq s = ground arith

  -- A time-out reads what is not there exactly in two cases: a retry timer of a procedure that has
  -- retries left and no message to repeat, and a clean-up timer whose procedure is gone.
  pub time_out_event_faults_iff :
      (now timer_id task_id : ℕ) (s : Stack H)
      → (time_out_event H now timer_id task_id s ≡ none) ↔ (
          ((seq : ℕ) × (p : Procedure) × (find timer_id s.msg_out_retry_timers ≡ some seq)
            × (find seq s.pending_procedures ≡ some p)
            × (p.retry_msg ≡ none)
            × (p.retry_count < s.n3))
          ⊎ ((seq : ℕ) × (find timer_id s.msg_out_retry_timers ≡ none)
              × (find timer_id s.proc_cleanup_timers ≡ some seq)
              × (find seq s.pending_procedures ≡ none)))
  unfolding time_out_event retry_expired cleanup_expired
  time_out_event_faults_iff now timer_id task_id s = ground arith

  -- If the retry timer of a procedure expires when its counter has reached `n3`, and the map of
  -- clean-up timers has a timer of that procedure, then that timer's time-out later reads past the
  -- end of the map of procedures.
  pub aborted_cleanup_faults :
      (now later timer_id cleanup_id task_id seq : ℕ) (p : Procedure) (s : Stack H)
      → find timer_id s.msg_out_retry_timers ≡ some seq
      → find seq s.pending_procedures ≡ some p
      → s.n3 ≤ p.retry_count
      → find cleanup_id s.proc_cleanup_timers ≡ some seq
      → find cleanup_id s.msg_out_retry_timers ≡ none
      → (s' : Stack H) × (time_out_event H now timer_id task_id s ≡ some (true, s'))
        × (time_out_event H later cleanup_id task_id s' ≡ none)
  unfolding time_out_event retry_expired cleanup_expired abort_procedure
  aborted_cleanup_faults now later timer_id cleanup_id task_id seq p s timer pending over cleanup
        quiet =
      (
        abort_procedure H seq p
            (record s { msg_out_retry_timers = erase timer_id s.msg_out_retry_timers }),
        ground arith,
        ground (
          arith,
          find-erase timer_id cleanup_id s.msg_out_retry_timers,
          find-erase seq seq s.pending_procedures,
        ),
      )
