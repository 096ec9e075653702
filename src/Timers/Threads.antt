-- ===== src/Timers/Threads.antt =====
-- The calls of src/itti/itti.cpp as several threads interleave them. `timer_setup` takes a number
-- before it locks `m_timers`, and inserts the timer under the lock; `timer_remove` is one section
-- under it. `timer_manager_task` takes the first timer under the lock, then waits, then reads the
-- members of `current_timer` without it, one after another and in an order that the language leaves
-- open, and then sends the message. The increment of `timer_id`, which is not atomic, is one step:
-- two increments that overlap are left out. So is a copy of `null_timer` that a read cuts in two.
pub mod Numbers
pub mod Removed
use openair_spgwc.Prelude.{
  ℕ, ◌+◌, ◌^◌, ◌<◌, ◌≡◌, ◌&&◌, Bool, true, false, Option, none, some, List, [], ◌∷◌, if◌then◌else◌,
  ◌==◌, ltb,
}
use openair_spgwc.Timers.{
  Timer, Itti, Timeout, task_first, task_max, new_timer, increment_timer_id, insert_timer,
  erase_timer, timer_remove, take_first, put_back, init,
}

-- The arguments of the message that are read so far.
pub record Draft : Type 0 where
  pub destination : Option ℕ
  pub timer_id : Option ℕ
  pub arg1_user : Option ℕ
  pub arg2_user : Option ℕ

abbrev pub no_draft : Draft
no_draft = record { destination = none; timer_id = none; arg1_user = none; arg2_user = none }

-- Where the timer thread is: before it takes a timer, while it waits, and while it builds the message.
pub data Thread : Type 0 where
  idle waits : Thread
  builds : Draft → Thread

-- `arming` has the timers that have a number and are not inserted yet; `sent` is newest first.
pub record Threads : Type 0 where
  pub itti : Itti
  pub arming : List Timer
  pub thread : Thread
  pub sent : List Timeout

unfoldable pub start : ℕ → Threads
start boot = record { itti = init boot; arming = []; thread = idle; sent = [] }

-- The first part of `timer_setup`.
unfoldable pub issue : ℕ → ℕ → ℕ → ℕ → ℕ → ℕ → Threads → Threads
issue now interval_sec interval_us task_id arg1_user arg2_user m =
    if ltb task_first task_id && ltb task_id task_max
    then (let id = increment_timer_id m.itti in
        let t = new_timer now id task_id interval_sec interval_us arg1_user arg2_user in
        record m { itti = record m.itti { timer_id = id }; arming = t ∷ m.arming })
    else m

unfoldable pub with_number : ℕ → List Timer → Option Timer
with_number id [] = none
with_number id (x ∷ xs) = let rest = with_number id xs in if x.id == id then some x else rest

-- The second part of `timer_setup` for the timer `t`.
unfoldable pub arm : Timer → Threads → Threads
arm t m = record m {
  itti = record m.itti { timers = insert_timer t m.itti.timers };
  arming = erase_timer t.id m.arming;
}

unfoldable pub remove : ℕ → Threads → Threads
remove id m = record m { itti = (timer_remove id m.itti).1 }

-- One read of a member of `current_timer`.
unfoldable pub read_destination : Draft → Threads → Threads
read_destination d m = record m {
  thread = builds (record d { destination = some m.itti.current_timer.task_id });
}

unfoldable pub read_timer_id : Draft → Threads → Threads
read_timer_id d m = record m {
  thread = builds (record d { timer_id = some m.itti.current_timer.id });
}

unfoldable pub read_arg1_user : Draft → Threads → Threads
read_arg1_user d m = record m {
  thread = builds (record d { arg1_user = some m.itti.current_timer.arg1_user });
}

unfoldable pub read_arg2_user : Draft → Threads → Threads
read_arg2_user d m = record m {
  thread = builds (record d { arg2_user = some m.itti.current_timer.arg2_user });
}

-- What the threads do, until the counter of numbers would wrap.
pub data Step (m : Threads) : Threads → Type 0 where
  issues :
      (now sec us task arg1 arg2 : ℕ)
      → m.itti.timer_id + 1 < 2 ^ 32
      → Step m (issue now sec us task arg1 arg2 m)
  arms : (id : ℕ) (t : Timer) → with_number id m.arming ≡ some t → Step m (arm t m)
  removes : (id : ℕ) → Step m (remove id m)
  takes :
      {s : Itti}
      → m.thread ≡ idle
      → take_first m.itti ≡ some s
      → Step m (record m { itti = s; thread = waits })
  wakes : m.thread ≡ waits → Step m (record m { itti = put_back m.itti; thread = idle })
  expires : m.thread ≡ waits → Step m (record m { thread = builds no_draft })
  reads_destination :
      (d : Draft) → m.thread ≡ builds d → d.destination ≡ none → Step m (read_destination d m)
  reads_timer_id :
      (d : Draft) → m.thread ≡ builds d → d.timer_id ≡ none → Step m (read_timer_id d m)
  reads_arg1_user :
      (d : Draft) → m.thread ≡ builds d → d.arg1_user ≡ none → Step m (read_arg1_user d m)
  reads_arg2_user :
      (d : Draft) → m.thread ≡ builds d → d.arg2_user ≡ none → Step m (read_arg2_user d m)
  sends :
      (t : Timeout)
      → m.thread
        ≡ builds (record {
          destination = some t.destination;
          timer_id = some t.timer_id;
          arg1_user = some t.arg1_user;
          arg2_user = some t.arg2_user;
        })
      → Step m (record m { thread = idle; sent = t ∷ m.sent })

pub data Reach (m : Threads) : Threads → Type 0 where
  here : Reach m m
  next : {t u : Threads} → Reach m t → Step t u → Reach m u
