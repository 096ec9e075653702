-- ===== src/Timers/Arming.antt =====
-- Which timers of src/itti/itti.cpp are armed after `timer_setup` and `timer_remove`.
use openair_spgwc.Prelude.{
  ℕ, ◌+◌, ◌*◌, ◌%◌, ◌^◌, ◌≤◌, ◌<◌, ◌≡◌, ◌≢◌, refl, Bool, true, false, List, [], ◌∷◌, if◌then◌else◌,
  ◌==◌, ◌||◌, arith,
}
use openair_spgwc.Timers.{Timer, Itti, insert_timer, erase_timer, armed, timer_setup}
use openair_spgwc.Timers.Order.{After, IsSorted}

-- A timer of the list expires at `n`.
abbrev pub taken : ℕ → List Timer → Bool
taken n [] = false
taken n (x ∷ xs) = x.time_out == n || taken n xs

abbrev pub IsUnique : List Timer → Type 0
IsUnique [] = Unit {0}
IsUnique (x ∷ xs) = (armed x.id xs ≡ false) × IsUnique xs

After-taken : (n k : ℕ) (xs : List Timer) → After n xs → k ≤ n → taken k xs ≡ false
After-taken n k [] a h = refl
After-taken n k (x ∷ xs) a h = ground (arith, After-taken n k xs a.1)

-- The set keeps the timer that it has.
pub insert_timer-taken :
    (t : Timer) (xs : List Timer)
    → IsSorted xs
    → taken t.time_out xs ≡ true
    → insert_timer t xs ≡ xs
unfolding insert_timer
insert_timer-taken t [] s h = cc
insert_timer-taken t (x ∷ xs) s h =
    ground (arith, insert_timer-taken t xs s.1, After-taken x.time_out t.time_out xs s.0)

pub insert_timer_new :
    (t : Timer) (xs : List Timer) (id : ℕ)
    → IsSorted xs
    → taken t.time_out xs ≡ false
    → armed id (insert_timer t xs) ≡ (t.id == id || armed id xs)
unfolding insert_timer armed
insert_timer_new t [] id s h = refl
insert_timer_new t (x ∷ xs) id s h = ground (arith, insert_timer_new t xs id s.1)

-- In every case nothing but the new timer gets in.
pub armed-insert_timer_le :
    (t : Timer) (xs : List Timer) (id : ℕ) → t.id ≢ id → armed id (insert_timer t xs) ≡ armed id xs
unfolding insert_timer armed
armed-insert_timer_le t [] id h = ground arith
armed-insert_timer_le t (x ∷ xs) id h = ground (arith, armed-insert_timer_le t xs id h)

pub armed-erase_timer :
    (id j : ℕ) (xs : List Timer)
    → IsUnique xs
    → armed j (erase_timer id xs) ≡ (if id == j then false else armed j xs)
unfolding erase_timer armed
armed-erase_timer id j [] u = ground arith
armed-erase_timer id j (x ∷ xs) u = ground (arith, armed-erase_timer id j xs u.1)

module _ (s : Itti) (now sec us task arg1 arg2 : ℕ) (low : 0 < task) (high : task < 21)
    (sorted : IsSorted s.timers) where
  -- If the set is sorted and none of its timers expires at the same instant, setting up a timer for
  -- a task gives the next number, and the set has that timer beside those that it had.
  pub timer_setup_arms :
      taken (now + sec * 10 ^ 9 + us * 10 ^ 3) s.timers ≡ false
      → let (id, s') = timer_setup now sec us task arg1 arg2 s in
        (id ≡ (s.timer_id + 1) % 2 ^ 32)
        × ((j : ℕ) → armed j s'.timers ≡ (id == j || armed j s.timers))
  unfolding timer_setup
  timer_setup_arms free = (
    ground arith,
    λ j. ground (
      arith,
      insert_timer_new
          (record {
            id = (s.timer_id + 1) % 2 ^ 32;
            task_id = task;
            time_out = now + sec * 10 ^ 9 + us * 10 ^ 3;
            arg1_user = arg1;
            arg2_user = arg2;
          })
          s.timers j sorted,
    ),
  )

  -- If the set is sorted and one of its timers expires at the same instant, a task is given the
  -- next number too, but the set stays as it was.
  pub timer_setup_lost :
      taken (now + sec * 10 ^ 9 + us * 10 ^ 3) s.timers ≡ true
      → let (id, s') = timer_setup now sec us task arg1 arg2 s in
        (id ≡ (s.timer_id + 1) % 2 ^ 32) × (s'.timers ≡ s.timers)
  unfolding timer_setup
  timer_setup_lost full = (
    ground arith,
    ground (
      arith,
      insert_timer-taken
          (record {
            id = (s.timer_id + 1) % 2 ^ 32;
            task_id = task;
            time_out = now + sec * 10 ^ 9 + us * 10 ^ 3;
            arg1_user = arg1;
            arg2_user = arg2;
          })
          s.timers sorted,
    ),
  )
