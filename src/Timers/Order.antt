-- ===== src/Timers/Order.antt =====
-- The order of the timer set of src/itti/itti.cpp.
use mathlib.Core.Path.{subst}
use openair_spgwc.Prelude.{ℕ, ◌≤◌, ◌<◌, ◌≡◌, some, List, [], ◌∷◌, arith}
use openair_spgwc.Timers.{Timer, Itti, insert_timer, erase_timer, take_first}

-- Every time-out of the list is later than `n`.
abbrev pub After : ℕ → List Timer → Type 0
After n [] = Unit {0}
After n (x ∷ xs) = (n < x.time_out) × After n xs

abbrev pub IsSorted : List Timer → Type 0
IsSorted [] = Unit {0}
IsSorted (x ∷ xs) = After x.time_out xs × IsSorted xs

After-mono : (m n : ℕ) (xs : List Timer) → m ≤ n → After n xs → After m xs
After-mono m n [] h a = tt
After-mono m n (x ∷ xs) h a = (omega arith, After-mono m n xs h a.1)

After-insert_timer :
    (n : ℕ) (t : Timer) (xs : List Timer)
    → n < t.time_out
    → After n xs
    → After n (insert_timer t xs)
unfolding insert_timer
After-insert_timer n t [] h a = (h, tt)
After-insert_timer n t (x ∷ xs) h a = ground (arith, After-insert_timer n t xs h a.1)

pub insert_timer-IsSorted :
    (t : Timer) (xs : List Timer) → IsSorted xs → IsSorted (insert_timer t xs)
unfolding insert_timer
insert_timer-IsSorted t [] s = (tt, tt)
insert_timer-IsSorted t (x ∷ xs) s = ground (
  arith,
  insert_timer-IsSorted t xs s.1,
  After-mono t.time_out x.time_out xs,
  After-insert_timer x.time_out t xs,
)

After-erase_timer : (n id : ℕ) (xs : List Timer) → After n xs → After n (erase_timer id xs)
unfolding erase_timer
After-erase_timer n id [] a = tt
After-erase_timer n id (x ∷ xs) a = ground (arith, After-erase_timer n id xs a.1)

erase_timer-IsSorted : (id : ℕ) (xs : List Timer) → IsSorted xs → IsSorted (erase_timer id xs)
unfolding erase_timer
erase_timer-IsSorted id [] s = tt
erase_timer-IsSorted id (x ∷ xs) s =
    ground (arith, erase_timer-IsSorted id xs s.1, After-erase_timer x.time_out id xs s.0)

-- What `take_first` does when it takes a timer.
pub take_first_inversion :
    (s s' : Itti)
    → take_first s ≡ some s'
    → (t : Timer) × (ts : List Timer) × (s.timers ≡ t ∷ ts)
      × (s' ≡ record s { current_timer = t; timers = ts })
unfolding take_first
take_first_inversion s s' e = ground arith

-- If the thread takes a timer from a sorted set, it is the first, which expires before all that are
-- left, and these are still sorted.
pub take_first-After :
    (s s' : Itti)
    → IsSorted s.timers
    → take_first s ≡ some s'
    → (s.timers ≡ s'.current_timer ∷ s'.timers)
      × After s'.current_timer.time_out s'.timers
      × IsSorted s'.timers
take_first-After s s' h e =
    let (t, ts, p, q) = take_first_inversion s s' e in
    let h' : IsSorted (t ∷ ts) = subst IsSorted p h in rw q (p, h'.0, h'.1)
