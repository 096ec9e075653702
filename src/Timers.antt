-- ===== src/Timers.antt =====
-- src/itti/itti.hpp and src/itti/itti.cpp: the timers of the message middleware. Here each call is one
-- transition, which is how one task sees its own calls; how the calls of several threads interleave,
-- which hold the lock `m_timers` for a part of the time only, is in Threads. Times are nanoseconds
-- of the system clock, whose readings are arguments.
pub mod Order
pub mod Arming
pub mod Removal
pub mod Threads
use openair_spgwc.Prelude.{
  ℕ, suc, ◌+◌, ◌*◌, ◌^◌, ◌≡◌, Bool, true, false, not, ◌&&◌, ◌||◌, Option, none, some, List, [], ◌∷◌,
  if◌then◌else◌, ltb, ◌==◌,
}
use openair_spgwc.Prelude.Words.{u32}

pub record Timer : Type 0 where
  pub id : ℕ
  pub task_id : ℕ
  pub time_out : ℕ
  pub arg1_user : ℕ
  pub arg2_user : ℕ

-- `null` is the file's `null_timer`.
pub record Itti : Type 0 where
  pub timer_id : ℕ
  pub timers : List Timer
  pub current_timer : Timer
  pub null : Timer

pub data ReturnCode : Type 0 where
  return_ok return_error : ReturnCode

-- The bounds of `task_id_t`, and ITTI_INVALID_TIMER_ID.
abbrev pub task_first : ℕ
task_first = 0

abbrev pub task_max : ℕ
task_max = 21

abbrev pub task_none : ℕ
task_none = 22

abbrev pub invalid_timer_id : ℕ
invalid_timer_id = 0

-- The first constructor of `itti_timer`; `now` is the reading of the clock.
unfoldable pub new_timer : ℕ → ℕ → ℕ → ℕ → ℕ → ℕ → ℕ → Timer
new_timer now id task_id interval_sec interval_us arg1_user arg2_user = record {
  id = id;
  task_id = task_id;
  time_out = now + interval_sec * 10 ^ 9 + interval_us * 10 ^ 3;
  arg1_user = arg1_user;
  arg2_user = arg2_user;
}

unfoldable pub init : ℕ → Itti
unfolding new_timer
init boot =
    let null = new_timer boot invalid_timer_id task_none 0xFFFFFFFF 0xFFFFFFFF 0 0 in
    record { timer_id = 0; timers = []; current_timer = null; null = null }

-- `timers.insert(t)`: a set in the order of `timer_comparator`, which keeps what is there if no
-- order tells the two apart.
unfoldable pub insert_timer : Timer → List Timer → List Timer
insert_timer t [] = t ∷ []
insert_timer t (x ∷ xs) =
    if ltb t.time_out x.time_out
    then t ∷ x ∷ xs
    else if ltb x.time_out t.time_out
    then x ∷ insert_timer t xs
    else x ∷ xs

unfoldable pub increment_timer_id : Itti → ℕ
increment_timer_id s = u32 (s.timer_id + 1)

unfoldable pub timer_setup : ℕ → ℕ → ℕ → ℕ → ℕ → ℕ → Itti → ℕ × Itti
unfolding increment_timer_id new_timer
timer_setup now interval_sec interval_us task_id arg1_user arg2_user s =
    if ltb task_first task_id && ltb task_id task_max
    then (let id = increment_timer_id s in
        let t = new_timer now id task_id interval_sec interval_us arg1_user arg2_user in
        (id, record s { timer_id = id; timers = insert_timer t s.timers }))
    else (invalid_timer_id, s)

-- Whether the set has a timer of this number, and the set without the first such timer.
unfoldable pub armed : ℕ → List Timer → Bool
armed id [] = false
armed id (x ∷ xs) = x.id == id || armed id xs

unfoldable pub erase_timer : ℕ → List Timer → List Timer
erase_timer id [] = []
erase_timer id (x ∷ xs) = if x.id == id then xs else x ∷ erase_timer id xs

unfoldable pub timer_remove : ℕ → Itti → ReturnCode × Itti
timer_remove id s =
    if s.current_timer.id == id
    then (return_ok, record s { current_timer = s.null })
    else if armed id s.timers
    then (return_ok, record s { timers = erase_timer id s.timers })
    else (return_error, s)

-- What the timer thread sends when a timer expires.
pub record Timeout : Type 0 where
  pub destination : ℕ
  pub timer_id : ℕ
  pub arg1_user : ℕ
  pub arg2_user : ℕ

-- The locked sections of `timer_manager_task`: it takes the first timer of the set, and if the wait
-- was broken off it puts the timer back. Between them it waits, and sends the message without the
-- lock.
unfoldable pub take_first : Itti → Option Itti
take_first s = elim s.timers [
  | [] ↦ none
  | t ∷ ts ↦ some (record s { current_timer = t; timers = ts })
]

unfoldable pub put_back : Itti → Itti
put_back s = record s {
  timers =
      if s.current_timer.id == invalid_timer_id
      then s.timers
      else insert_timer s.current_timer s.timers;
  current_timer = s.null;
}
