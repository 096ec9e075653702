-- ===== src/Timers/Threads/Removed.antt =====
-- A removed timer of src/itti/itti.cpp does not come back, however the threads interleave; only a
-- message for which its number was read before can still be sent.
use mathlib.Core.Path.{subst}
use openair_spgwc.Prelude.{
  ℕ, ◌+◌, ◌^◌, ◌≤◌, ◌<◌, ◌≡◌, ◌≢◌, sym, false, none, some, List, [], ◌∷◌, if◌then◌else◌, ◌==◌, ◌&&◌,
  ltb, arith, Bool-cases, inl, inr,
}
use openair_spgwc.Timers.{
  Timer, Itti, Timeout, new_timer, increment_timer_id, insert_timer, erase_timer, armed,
  timer_remove, take_first, put_back,
}
use openair_spgwc.Timers.Order.{take_first_inversion}
use openair_spgwc.Timers.Arming.{armed-insert_timer_le, armed-erase_timer}
use openair_spgwc.Timers.Removal.{IsGone, timer_remove-IsGone}
use openair_spgwc.Timers.Threads.{
  no_draft, Thread, idle, waits, builds, Threads, start, issue, with_number, arm, remove,
  read_destination, read_timer_id, read_arg1_user, read_arg2_user, Step, issues, arms, removes,
  takes, wakes, expires, reads_destination, reads_timer_id, reads_arg1_user, reads_arg2_user, sends,
  Reach, here, next,
}
use openair_spgwc.Timers.Threads.Numbers.{
  IsApart, with_number-armed, start-IsApart, remove-IsApart, Reach-IsApart,
}

-- The number of messages of the list for the timer, and of messages on their way with its number.
pub signals : ℕ → List Timeout → ℕ
signals id [] = 0
signals id (t ∷ ts) = if t.timer_id == id then signals id ts + 1 else signals id ts

pub carries : ℕ → Thread → ℕ
carries id idle = 0
carries id waits = 0
carries id (builds d) = elim d.timer_id [ none ↦ 0 | some j ↦ if j == id then 1 else 0 ]

-- The timer is nowhere, and its number has been given out.
record IsAway (id : ℕ) (m : Threads) : Type 0 where
  gone : IsGone id m.itti
  not_arming : armed id m.arming ≡ false

-- The timer stays away, and no message for it begins.
record Quieter (id : ℕ) (m u : Threads) : Type 0 where
  away : IsAway id u
  fewer : signals id u.sent + carries id u.thread ≤ signals id m.sent + carries id m.thread

-- A step that moves only timers.
timers_move :
    (id : ℕ) (m : Threads) (s : Itti) (arming : List Timer)
    → IsGone id s
    → armed id arming ≡ false
    → Quieter id m (record m { itti = s; arming = arming })
timers_move id m s arming gone out = record {
  away = record { gone = gone; not_arming = out };
  fewer = omega arith;
}

issue-Quieter :
    (id now sec us task arg1 arg2 : ℕ) (m : Threads)
    → m.itti.timer_id + 1 < 2 ^ 32
    → IsAway id m
    → Quieter id m (issue now sec us task arg1 arg2 m)
unfolding issue increment_timer_id new_timer armed
issue-Quieter id now sec us task arg1 arg2 m room a =
    let gone = a.gone in
    let issued = gone.issued in
    let out = gone.out in
    let not_current = gone.not_current in
    let not_arming = a.not_arming in
    elim (Bool-cases (ltb 0 task && ltb task 21)) [
      | inl y ↦ ground (arith, gone)
      | inr n ↦ ground (arith, gone)
    ]

arm-Quieter :
    (id n : ℕ) (t : Timer) (m : Threads)
    → with_number n m.arming ≡ some t
    → IsApart m
    → IsAway id m
    → Quieter id m (arm t m)
unfolding arm
arm-Quieter id n t m e v a =
    let gone = a.gone in
    let out = gone.out in
    let not_arming = a.not_arming in
    let (armed_t, number, le) = with_number-armed n t m.itti.timer_id m.arming e v.within in
    let other : t.id ≢ id = λ same. ground arith in
    let law = armed-insert_timer_le t m.itti.timers id other in
    let rest = armed-erase_timer t.id id m.arming v.unique in
    timers_move id m (record m.itti { timers = insert_timer t m.itti.timers })
      (erase_timer t.id m.arming)
      (record { out = ground arith; not_current = gone.not_current; issued = gone.issued })
      (ground arith)

remove-Quieter :
    (id j : ℕ) (m : Threads) → id ≢ 0 → IsApart m → IsAway id m → Quieter id m (remove j m)
unfolding remove timer_remove
remove-Quieter id j m positive v a =
    let gone = a.gone in
    let out = gone.out in
    let not_current = gone.not_current in
    let issued = gone.issued in
    let inv = v.inv in
    let null_id = inv.null_id in
    let law = armed-erase_timer j id m.itti.timers inv.unique in
    timers_move id m (timer_remove j m.itti).1 m.arming
      (record { out = ground arith; not_current = ground arith; issued = ground arith })
      a.not_arming

take-Quieter :
    (id : ℕ) (s : Itti) (m : Threads)
    → m.thread ≡ idle
    → take_first m.itti ≡ some s
    → IsAway id m
    → Quieter id m (record m { itti = s; thread = waits })
unfolding armed carries
take-Quieter id s m still e a =
    let gone = a.gone in
    let (t, ts, p, q) = take_first_inversion m.itti s e in
    let out : armed id (t ∷ ts) ≡ false = subst (λ l. armed id l ≡ false) p gone.out in
    record {
      away = record {
        gone =
            subst (IsGone id) (sym q)
              (record { out = ground arith; not_current = ground arith; issued = gone.issued });
        not_arming = a.not_arming;
      };
      fewer = ground arith;
    }

wake-Quieter :
    (id : ℕ) (m : Threads)
    → id ≢ 0
    → m.thread ≡ waits
    → IsApart m
    → IsAway id m
    → Quieter id m (record m { itti = put_back m.itti; thread = idle })
unfolding put_back carries
wake-Quieter id m positive at v a =
    let gone = a.gone in
    let out = gone.out in
    let not_current = gone.not_current in
    let inv = v.inv in
    let null_id = inv.null_id in
    let law = armed-insert_timer_le m.itti.current_timer m.itti.timers id not_current in
    record {
      away = record {
        gone = record { out = ground arith; not_current = ground arith; issued = gone.issued };
        not_arming = a.not_arming;
      };
      fewer = ground arith;
    }

-- A step of the timer thread outside the lock.
thread_moves :
    (id : ℕ) (r : Thread) (sent : List Timeout) (m : Threads)
    → signals id sent + carries id r ≤ signals id m.sent + carries id m.thread
    → IsAway id m
    → Quieter id m (record m { thread = r; sent = sent })
thread_moves id r sent m fewer a = record {
  away = record { gone = a.gone; not_arming = a.not_arming };
  fewer = fewer;
}

Step-Quieter :
    {m u : Threads} (id : ℕ) → id ≢ 0 → Step m u → IsApart m → IsAway id m → Quieter id m u
unfolding carries signals read_destination read_timer_id read_arg1_user read_arg2_user
Step-Quieter {m} id h (issues now sec us task arg1 arg2 room) v a =
    issue-Quieter id now sec us task arg1 arg2 m room a
Step-Quieter {m} id h (arms n t e) v a = arm-Quieter id n t m e v a
Step-Quieter {m} id h (removes j) v a = remove-Quieter id j m h v a
Step-Quieter {m} id h (takes {s} at e) v a = take-Quieter id s m at e a
Step-Quieter {m} id h (wakes at) v a = wake-Quieter id m h at v a
Step-Quieter {m} id h (expires at) v a = thread_moves id (builds no_draft) m.sent m (omega arith) a
Step-Quieter {m} id h (reads_destination d at new) v a =
    thread_moves id (read_destination d m).thread m.sent m (ground arith) a
Step-Quieter {m} id h (reads_timer_id d at new) v a =
    let gone = a.gone in
    let other = gone.not_current in
    thread_moves id (read_timer_id d m).thread m.sent m (ground arith) a
Step-Quieter {m} id h (reads_arg1_user d at new) v a =
    thread_moves id (read_arg1_user d m).thread m.sent m (ground arith) a
Step-Quieter {m} id h (reads_arg2_user d at new) v a =
    thread_moves id (read_arg2_user d m).thread m.sent m (ground arith) a
Step-Quieter {m} id h (sends t at) v a = thread_moves id idle (t ∷ m.sent) m (ground arith) a

-- In every state that the threads can reach from the start, without an overlap of increments and
-- until the numbers wrap: once a timer is removed whose number has been given out and which is
-- inserted already, the timer thread sends a message with that number only if it had read the
-- number for that message before, and then only that one.
pub removed_signalled_once :
    (boot : ℕ) {m u : Threads} (id : ℕ)
    → Reach (start boot) m
    → id ≢ 0
    → id ≤ m.itti.timer_id
    → armed id m.arming ≡ false
    → Reach (remove id m) u
    → signals id u.sent ≤ signals id m.sent + carries id m.thread
unfolding remove
removed_signalled_once boot {m} {u} id reach positive issued inserted later =
    let v = Reach-IsApart reach (start-IsApart boot) in
    let gone : IsAway id (remove id m) = record {
      gone = (timer_remove-IsGone id m.itti v.inv positive issued).0;
      not_arming = inserted;
    } in
    let q = stays (remove-IsApart id m v) gone later in let fewer = q.fewer in omega arith
  where
    stays : {a b : Threads} → IsApart a → IsAway id a → Reach a b → Quieter id a b
    stays v a here = record { away = a; fewer = omega arith }
    stays v a (next r st) =
        let q = stays v a r in
        let last = Step-Quieter id positive st (Reach-IsApart r v) q.away in
        let fewer = q.fewer in
        let fewer' = last.fewer in record { away = last.away; fewer = omega arith }
