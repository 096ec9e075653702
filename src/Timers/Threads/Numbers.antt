-- ===== src/Timers/Threads/Numbers.antt =====
-- The numbers of the timers of src/itti/itti.cpp stay distinct, however the threads interleave.
use mathlib.Core.Path.{subst}
use openair_spgwc.Prelude.{
  ℕ, ◌+◌, ◌^◌, ◌≤◌, ◌<◌, ◌≡◌, ◌≢◌, refl, true, false, some, List, [], ◌∷◌, arith,
}
use openair_spgwc.Timers.{
  Timer, Itti, Timeout, new_timer, increment_timer_id, armed, timer_remove, take_first, put_back,
  init,
}
use openair_spgwc.Timers.Order.{take_first_inversion}
use openair_spgwc.Timers.Arming.{IsUnique, armed-insert_timer_le, armed-erase_timer}
use openair_spgwc.Timers.Removal.{
  Within, Within-mono, Within-armed, Within-insert_timer, Within-erase_timer, insert_timer-IsUnique,
  erase_timer-IsUnique, Inv, remove-Inv, take-Inv, put_back-Inv,
}
use openair_spgwc.Timers.Threads.{
  no_draft, Thread, idle, waits, builds, Threads, start, issue, with_number, arm, remove,
  read_destination, read_timer_id, read_arg1_user, read_arg2_user, Step, issues, arms, removes,
  takes, wakes, expires, reads_destination, reads_timer_id, reads_arg1_user, reads_arg2_user, sends,
  Reach, here, next,
}

-- The numbers of the timers that are not inserted yet are distinct, too, and no other timer has them.
pub record IsApart (m : Threads) : Type 0 where
  pub inv : Inv m.itti
  pub unique : IsUnique m.arming
  pub within : Within m.itti.timer_id m.arming
  pub nonzero : armed 0 m.arming ≡ false
  pub out : (j : ℕ) → armed j m.arming ≡ true → armed j m.itti.timers ≡ false
  pub not_current : armed m.itti.current_timer.id m.arming ≡ false

pub with_number-armed :
    (id : ℕ) (t : Timer) (n : ℕ) (xs : List Timer)
    → with_number id xs ≡ some t
    → Within n xs
    → (armed t.id xs ≡ true) × (t.id ≡ id) × (t.id ≤ n)
unfolding with_number armed
with_number-armed id t n [] e w = cc
with_number-armed id t n (x ∷ xs) e w = ground (arith, with_number-armed id t n xs)

pub start-IsApart : (boot : ℕ) → IsApart (start boot)
unfolding start init new_timer armed
start-IsApart boot = record {
  inv = record {
    unique = tt;
    within = tt;
    current_within = omega arith;
    current_out = λ h. refl;
    null_id = refl;
  };
  unique = tt;
  within = tt;
  nonzero = refl;
  out = λ j e. cc;
  not_current = refl;
}

issue-IsApart :
    (now sec us task arg1 arg2 : ℕ) (m : Threads)
    → m.itti.timer_id + 1 < 2 ^ 32
    → IsApart m
    → IsApart (issue now sec us task arg1 arg2 m)
unfolding issue increment_timer_id new_timer armed
issue-IsApart now sec us task arg1 arg2 m room v =
    let n = m.itti.timer_id in
    let inv = v.inv in
    let not_armed = Within-armed n (n + 1) m.itti.timers inv.within in
    let not_arming = Within-armed n (n + 1) m.arming v.within in
    let within_timers = Within-mono n (n + 1) m.itti.timers in
    let within_arming = Within-mono n (n + 1) m.arming in ground (arith, inv, v)

arm-IsApart :
    (id : ℕ) (t : Timer) (m : Threads)
    → with_number id m.arming ≡ some t
    → IsApart m
    → IsApart (arm t m)
unfolding arm
arm-IsApart id t m e v =
    let inv = v.inv in
    let (armed_t, number, le) = with_number-armed id t m.itti.timer_id m.arming e v.within in
    let out_t = v.out t.id armed_t in
    let not_current = v.not_current in
    let apart : m.itti.current_timer.id ≢ t.id = λ same. ground arith in
    let gone = armed-erase_timer t.id in
    record {
      inv = record {
        unique = insert_timer-IsUnique t m.itti.timers out_t inv.unique;
        within = Within-insert_timer m.itti.timer_id t m.itti.timers le inv.within;
        current_within = inv.current_within;
        current_out = λ h.
            let law = armed-insert_timer_le t m.itti.timers m.itti.current_timer.id in
            let was = inv.current_out h in ground arith;
        null_id = inv.null_id;
      };
      unique = erase_timer-IsUnique t.id m.arming v.unique;
      within = Within-erase_timer m.itti.timer_id t.id m.arming v.within;
      nonzero =
          let law = armed-erase_timer t.id 0 m.arming v.unique in
          let was = v.nonzero in ground arith;
      out = λ j h.
          let law = armed-erase_timer t.id j m.arming v.unique in
          let kept = armed-insert_timer_le t m.itti.timers j in let was = v.out j in ground arith;
      not_current =
          let law = armed-erase_timer t.id m.itti.current_timer.id m.arming v.unique in
          ground arith;
    }

pub remove-IsApart : (id : ℕ) (m : Threads) → IsApart m → IsApart (remove id m)
unfolding remove timer_remove
remove-IsApart id m v =
    let inv = v.inv in
    let null_id = inv.null_id in
    let nonzero = v.nonzero in
    let not_current = v.not_current in
    record {
      inv = remove-Inv id m.itti inv;
      unique = v.unique;
      within = ground (arith, v.within);
      nonzero = nonzero;
      out = λ j h.
          let law = armed-erase_timer id j m.itti.timers inv.unique in
          let was = v.out j h in ground arith;
      not_current = ground arith;
    }

take-IsApart :
    (s : Itti) (r : Thread) (m : Threads)
    → take_first m.itti ≡ some s
    → IsApart m
    → IsApart (record m { itti = s; thread = r })
take-IsApart s r m e v =
    let (t, ts, p, q) = take_first_inversion m.itti s e in
    let out : (j : ℕ) → armed j m.arming ≡ true → armed j (t ∷ ts) ≡ false =
      subst (λ l. (j : ℕ) → armed j m.arming ≡ true → armed j l ≡ false) p v.out in
    let own : armed t.id (t ∷ ts) ≡ true = unfold armed in ground arith in
    let clash = out t.id in
    rw q (record {
      inv = subst Inv q (take-Inv m.itti s e v.inv);
      unique = v.unique;
      within = v.within;
      nonzero = v.nonzero;
      out = λ j h. let was = out j h in (unfold armed in ground arith);
      not_current = ground arith;
    })

wake-IsApart :
    (r : Thread) (m : Threads)
    → IsApart m
    → IsApart (record m { itti = put_back m.itti; thread = r })
unfolding put_back
wake-IsApart r m v =
    let inv = v.inv in
    let null_id = inv.null_id in
    let nonzero = v.nonzero in
    let not_current = v.not_current in
    record {
      inv = put_back-Inv m.itti inv;
      unique = v.unique;
      within = v.within;
      nonzero = nonzero;
      out = λ j h.
          let law = armed-insert_timer_le m.itti.current_timer m.itti.timers j in
          let was = v.out j h in
          let apart : m.itti.current_timer.id ≢ j = λ same. ground arith in ground arith;
      not_current = ground arith;
    }

-- Only the thread and what was sent change.
moved-IsApart :
    (r : Thread) (sent : List Timeout) (m : Threads)
    → IsApart m
    → IsApart (record m { thread = r; sent = sent })
moved-IsApart r sent m v = record {
  inv = v.inv;
  unique = v.unique;
  within = v.within;
  nonzero = v.nonzero;
  out = v.out;
  not_current = v.not_current;
}

pub Step-IsApart : {m u : Threads} → Step m u → IsApart m → IsApart u
unfolding read_destination read_timer_id read_arg1_user read_arg2_user
Step-IsApart {m} (issues now sec us task arg1 arg2 room) v =
    issue-IsApart now sec us task arg1 arg2 m room v
Step-IsApart {m} (arms id t e) v = arm-IsApart id t m e v
Step-IsApart {m} (removes id) v = remove-IsApart id m v
Step-IsApart {m} (takes {s} at e) v = take-IsApart s waits m e v
Step-IsApart {m} (wakes at) v = wake-IsApart idle m v
Step-IsApart {m} (expires at) v = moved-IsApart (builds no_draft) m.sent m v
Step-IsApart {m} (reads_destination d at new) v =
    moved-IsApart (read_destination d m).thread m.sent m v
Step-IsApart {m} (reads_timer_id d at new) v = moved-IsApart (read_timer_id d m).thread m.sent m v
Step-IsApart {m} (reads_arg1_user d at new) v = moved-IsApart (read_arg1_user d m).thread m.sent m v
Step-IsApart {m} (reads_arg2_user d at new) v = moved-IsApart (read_arg2_user d m).thread m.sent m v
Step-IsApart {m} (sends t at) v = moved-IsApart idle (t ∷ m.sent) m v

pub Reach-IsApart : {m u : Threads} → Reach m u → IsApart m → IsApart u
Reach-IsApart here v = v
Reach-IsApart (next r st) v = Step-IsApart st (Reach-IsApart r v)
