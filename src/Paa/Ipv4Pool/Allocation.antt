-- ===== src/Paa/Ipv4Pool/Allocation.antt =====
-- The loop of `alloc_free_bit` in src/oai_spgwc/pgw_paa_dynamic.hpp: it finds the first free address.
use mathlib.Core.Path.{subst}
use openair_spgwc.Prelude.{
  sym, ◌∙◌, ℕ, zero, suc, ◌+◌, ◌*◌, ◌/◌, ◌%◌, ◌<◌, ◌≡◌, inl, inr, refl, true, false, Option, none,
  some, List, if◌then◌else◌, ◌==◌, arith, length, Bool-cases,
}
use openair_spgwc.Prelude.StdMap.{nat_key, find, assign}
use openair_spgwc.Prelude.Bitset.{test, set, first_clear, set-lt, first_clear_lem, test_full}
use openair_spgwc.Paa.Ipv4Pool.{subscript, alloc_free_bit_from, uint32_max}
use openair_spgwc.Paa.Ipv4Pool.Used.{
  is_used, IsWords, length-assign_same, assign-IsWords, is_used-assign-set,
}

-- The outcome of an allocation on the words.
pub data Outcome (m : List (ℕ × ℕ)) : Option ℕ × List (ℕ × ℕ) → Type 0 where
  full : ((n : ℕ) → is_used n m ≡ true) → Outcome m (none, m)
  given :
      (n : ℕ) (m' : List (ℕ × ℕ))
      → is_used n m ≡ false
      → ((j : ℕ) → j < n → is_used j m ≡ true)
      → ((j : ℕ) → is_used j m' ≡ (if n == j then true else is_used j m))
      → IsWords m'
      → length m' ≡ length m
      → Outcome m (some n, m')

pub alloc_free_bit_from_step :
    (fuel i b w : ℕ) (m : List (ℕ × ℕ))
    → find i m ≡ some w
    → alloc_free_bit_from (suc fuel) i b m ≡ (
        if w == uint32_max
        then alloc_free_bit_from fuel (i + 1) (b + 32) m
        else (some (b + first_clear 32 w), assign i (set (first_clear 32 w) w) m))
unfolding alloc_free_bit_from subscript
alloc_free_bit_from_step fuel i b w m e = ground arith

pub word_used :
    (i w n : ℕ) (m : List (ℕ × ℕ)) → find i m ≡ some w → n / 32 ≡ i → is_used n m ≡ test (n % 32) w
unfolding is_used
word_used i w n m e q = ground arith

below_first : (w k j : ℕ) → j < first_clear k w → test j w ≡ true
unfolding first_clear test
below_first w zero j h = absurd (omega arith)
below_first w (suc k) zero h = ground arith
below_first w (suc k) (suc j) h = ground (arith, below_first (w / 2) k j)

-- With all addresses below the word `i` given away, the loop finds the first that is free.
pub alloc_free_bit_from_lem :
    (fuel i : ℕ) (m : List (ℕ × ℕ))
    → IsWords m
    → i + fuel ≡ length m
    → ((n : ℕ) → n < i * 32 → is_used n m ≡ true)
    → Outcome m (alloc_free_bit_from fuel i (i * 32) m)
alloc_free_bit_from_lem zero i m h e below =
    unfold alloc_free_bit_from in
    full (λ n. unfold is_used in ground (arith, below n, h.no_more (n / 32)))
alloc_free_bit_from_lem (suc fuel) i m h e below =
    let (w, there, small) = h.words i (omega arith) in
    let step = alloc_free_bit_from_step fuel i (i * 32) w m there in
    elim (Bool-cases (w == uint32_max)) [
      | inl all ↦
          let next : (i * 32) + 32 ≡ (i + 1) * 32 = omega arith in
          subst (Outcome m) (sym (step ∙ rw (all, next) refl)) (
            alloc_free_bit_from_lem fuel (i + 1) m h (omega arith)
              (λ n lt. ground (arith, below n, word_used i w n m there, test_full 32 w (n % 32))))
      | inr room ↦
          let (k_lt, clear) = first_clear_lem 32 w small (ground arith) in
          subst (Outcome m) (sym (step ∙ rw room refl)) (
            given (i * 32 + first_clear 32 w) (assign i (set (first_clear 32 w) w) m)
              (ground (arith, word_used i w (i * 32 + first_clear 32 w) m there))
              (λ j lt. ground (arith, below j, word_used i w j m there, below_first w 32 (j % 32)))
              (λ j. is_used-assign-set i (first_clear 32 w) w j m there k_lt)
              (assign-IsWords i (set (first_clear 32 w) w) w m there
                (set-lt 32 (first_clear 32 w) w k_lt small) h)
              (length-assign_same i (set (first_clear 32 w) w) w m there))
    ]
