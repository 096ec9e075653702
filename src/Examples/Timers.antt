-- ===== src/Examples/Timers.antt =====
-- A timer set of src/itti/itti.cpp with two timers.
use openair_spgwc.Prelude.{◌+◌, ◌^◌, ◌%◌, ◌≡◌, ◌≤◌, some, false, [], ◌∷◌, arith, refl}
use openair_spgwc.Timers.{
  Timer, Itti, Timeout, armed, erase_timer, insert_timer, timer_setup, take_first, init, new_timer,
  increment_timer_id,
}
use openair_spgwc.Timers.Order.{IsSorted}
use openair_spgwc.Timers.Arming.{timer_setup_lost}
use openair_spgwc.Timers.Threads.{
  Draft, no_draft, idle, builds, Threads, start, issue, with_number, arm, remove, read_destination,
  read_timer_id, read_arg1_user, read_arg2_user, issues, arms, takes, expires, reads_destination,
  reads_timer_id, reads_arg1_user, reads_arg2_user, sends, Reach, here, next,
}
use openair_spgwc.Timers.Threads.Removed.{signals, carries, removed_signalled_once}

abbrev null : Timer
null = record { id = 0; task_id = 22; time_out = 1; arg1_user = 0; arg2_user = 0 }

abbrev first : Timer
first = record { id = 2; task_id = 3; time_out = 2000; arg1_user = 0; arg2_user = 0 }

abbrev second : Timer
second = record { id = 1; task_id = 4; time_out = 5000; arg1_user = 0; arg2_user = 0 }

abbrev two_timers : Itti
two_timers = record {
  timer_id = 2;
  timers = first ∷ second ∷ [];
  current_timer = null;
  null = null;
}

two_timers-IsSorted : IsSorted two_timers.timers
two_timers-IsSorted = ((omega arith, tt), (tt, tt))

timer_setup_lost_example :
    let (id, s') = timer_setup 1000 0 4 5 0 0 two_timers in
    (id ≡ (two_timers.timer_id + 1) % 2 ^ 32) × (s'.timers ≡ two_timers.timers)
timer_setup_lost_example =
    timer_setup_lost two_timers 1000 0 4 5 0 0 (omega arith) (omega arith) two_timers-IsSorted refl

-- A timer for task 3 that has expired: the timer thread has read all members of it.
abbrev expired : Timer
expired = record { id = 1; task_id = 3; time_out = 1000; arg1_user = 5; arg2_user = 6 }

abbrev issued : Threads
issued = issue 0 0 1 3 5 6 (start 100)

abbrev in_set : Threads
in_set = arm expired issued

abbrev taken : Itti
taken = record (start 100).itti { timer_id = 1; timers = []; current_timer = expired }

abbrev building : Threads
building = record in_set { itti = taken; thread = builds no_draft }

abbrev with_id : Draft
with_id = record no_draft { timer_id = some 1 }

abbrev with_task : Draft
with_task = record with_id { destination = some 3 }

abbrev with_arg1 : Draft
with_arg1 = record with_task { arg1_user = some 5 }

abbrev built : Threads
built =
    read_arg2_user with_arg1
      (read_arg1_user with_task (read_destination with_id (read_timer_id no_draft building)))

-- The message that is sent after the timer was removed.
abbrev late : Timeout
late = record { destination = 3; timer_id = 1; arg1_user = 5; arg2_user = 6 }

abbrev after_send : Threads
after_send = record (remove 1 built) { thread = idle; sent = late ∷ [] }

built_reached : Reach (start 100) built
unfolding start init new_timer issue increment_timer_id with_number arm insert_timer erase_timer
    take_first read_destination read_timer_id read_arg1_user read_arg2_user
built_reached =
    next
      (next
        (next
          (next
            (next
              (next (next (next here (issues 0 0 1 3 5 6 (omega arith))) (arms 1 expired refl))
                (takes {s = taken} refl refl))
              (expires refl))
            (reads_timer_id no_draft refl refl))
          (reads_destination with_id refl refl))
        (reads_arg1_user with_task refl refl))
      (reads_arg2_user with_arg1 refl refl)

late_reached : Reach (remove 1 built) after_send
unfolding start init new_timer issue increment_timer_id with_number arm insert_timer erase_timer
    take_first read_destination read_timer_id read_arg1_user read_arg2_user remove
late_reached = next here (sends late refl)

built_issued : 1 ≤ built.itti.timer_id
unfolding read_destination read_timer_id read_arg1_user read_arg2_user
built_issued = omega arith

built_inserted : armed 1 built.arming ≡ false
unfolding start init new_timer issue increment_timer_id arm erase_timer read_destination
    read_timer_id read_arg1_user read_arg2_user armed
built_inserted = refl

removed_signalled_once_example :
    signals 1 after_send.sent ≤ signals 1 built.sent + carries 1 built.thread
removed_signalled_once_example =
    removed_signalled_once 100 1 built_reached (omega arith) built_issued built_inserted
      late_reached
