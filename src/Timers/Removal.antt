-- ===== src/Timers/Removal.antt =====
-- The numbers of the timers of src/itti/itti.cpp, and the removal of one.
use mathlib.Core.Path.{subst}
use openair_spgwc.Prelude.{
  ℕ, ◌≤◌, ◌<◌, ◌≡◌, ◌≢◌, refl, sym, false, some, List, [], ◌∷◌, if◌then◌else◌, ◌==◌, arith,
}
use openair_spgwc.Timers.{
  Timer, Itti, insert_timer, erase_timer, armed, timer_remove, take_first, put_back,
}
use openair_spgwc.Timers.Order.{take_first_inversion}
use openair_spgwc.Timers.Arming.{IsUnique, armed-insert_timer_le, armed-erase_timer}

-- All numbers of the list are at most `n`.
abbrev pub Within : ℕ → List Timer → Type 0
Within n [] = Unit {0}
Within n (x ∷ xs) = (x.id ≤ n) × Within n xs

pub Within-mono : (m n : ℕ) (xs : List Timer) → m ≤ n → Within m xs → Within n xs
Within-mono m n [] h w = tt
Within-mono m n (x ∷ xs) h w = (omega arith, Within-mono m n xs h w.1)

pub Within-armed : (n id : ℕ) (xs : List Timer) → Within n xs → n < id → armed id xs ≡ false
unfolding armed
Within-armed n id [] w h = refl
Within-armed n id (x ∷ xs) w h = ground (arith, Within-armed n id xs w.1)

pub Within-insert_timer :
    (n : ℕ) (t : Timer) (xs : List Timer) → t.id ≤ n → Within n xs → Within n (insert_timer t xs)
unfolding insert_timer
Within-insert_timer n t [] h w = (h, tt)
Within-insert_timer n t (x ∷ xs) h w = ground (arith, Within-insert_timer n t xs h w.1)

pub Within-erase_timer : (n id : ℕ) (xs : List Timer) → Within n xs → Within n (erase_timer id xs)
unfolding erase_timer
Within-erase_timer n id [] w = tt
Within-erase_timer n id (x ∷ xs) w = ground (arith, Within-erase_timer n id xs w.1)

pub insert_timer-IsUnique :
    (t : Timer) (xs : List Timer)
    → armed t.id xs ≡ false
    → IsUnique xs
    → IsUnique (insert_timer t xs)
unfolding insert_timer armed
insert_timer-IsUnique t [] h u = (refl, tt)
insert_timer-IsUnique t (x ∷ xs) h u =
    ground (arith, insert_timer-IsUnique t xs, armed-insert_timer_le t xs x.id)

pub erase_timer-IsUnique : (id : ℕ) (xs : List Timer) → IsUnique xs → IsUnique (erase_timer id xs)
unfolding erase_timer
erase_timer-IsUnique id [] u = tt
erase_timer-IsUnique id (x ∷ xs) u =
    ground (arith, erase_timer-IsUnique id xs u.1, armed-erase_timer id x.id xs u.1)

-- Numbers in the set are distinct, and none is above the counter.
pub record Inv (s : Itti) : Type 0 where
  pub unique : IsUnique s.timers
  pub within : Within s.timer_id s.timers
  pub current_within : s.current_timer.id ≤ s.timer_id
  pub current_out : s.current_timer.id ≢ 0 → armed s.current_timer.id s.timers ≡ false
  pub null_id : s.null.id ≡ 0

-- The timer is not in the set nor with the timer thread, and its number has been given out.
pub record IsGone (id : ℕ) (s : Itti) : Type 0 where
  pub out : armed id s.timers ≡ false
  pub not_current : s.current_timer.id ≢ id
  pub issued : id ≤ s.timer_id

pub remove-Inv : (id : ℕ) (s : Itti) → Inv s → Inv (timer_remove id s).1
unfolding timer_remove
remove-Inv id s v = ground (
  arith,
  erase_timer-IsUnique id s.timers v.unique,
  Within-erase_timer s.timer_id id s.timers v.within,
  armed-erase_timer id s.current_timer.id s.timers v.unique,
  v.current_out,
)

pub take-Inv : (s s' : Itti) → take_first s ≡ some s' → Inv s → Inv s'
take-Inv s s' e v =
    let (t, ts, p, q) = take_first_inversion s s' e in
    let u : IsUnique (t ∷ ts) = subst IsUnique p v.unique in
    let w : Within s.timer_id (t ∷ ts) = subst (Within s.timer_id) p v.within in
    subst Inv (sym q) (record {
      unique = u.1;
      within = w.1;
      current_within = w.0;
      current_out = λ _. u.0;
      null_id = v.null_id;
    })

pub put_back-Inv : (s : Itti) → Inv s → Inv (put_back s)
unfolding put_back
put_back-Inv s v = ground (
  arith,
  insert_timer-IsUnique s.current_timer s.timers,
  Within-insert_timer s.timer_id s.current_timer s.timers,
  v.current_out,
)

-- Under the invariant on numbers: a timer whose number has been given out is after its removal
-- neither in the set nor with the timer thread, and no other timer of the set changes.
pub timer_remove-IsGone :
    (id : ℕ) (s : Itti)
    → Inv s
    → id ≢ 0
    → id ≤ s.timer_id
    → IsGone id (timer_remove id s).1
      × ((j : ℕ)
          → armed j (timer_remove id s).1.timers ≡ (if id == j then false else armed j s.timers))
unfolding timer_remove
timer_remove-IsGone id s v h k = (
  ground (arith, armed-erase_timer id id s.timers v.unique, v.current_out),
  λ j. ground (arith, armed-erase_timer id j s.timers v.unique, v.current_out),
)
