-- ===== src/Paa/Ipv4Pool/Outside.antt =====
-- Addresses below the start of an `ipv4_pool` (src/oai_spgwc/pgw_paa_dynamic.hpp), which
-- `free_address` takes for addresses of the pool.
use mathlib.Core.Path.{subst}
use openair_spgwc.Prelude.{
  ℕ, zero, suc, ◌+◌, ◌-◌, ◌*◌, ◌%◌, ◌^◌, ◌≤◌, ◌<◌, ◌≡◌, ◌↔◌, inl, inr, true, none, some, List,
  arith, length, Bool-cases, ltb,
}
use openair_spgwc.Prelude.Words.{u32, sub32, bswap32, bswap32-lt}
use openair_spgwc.Prelude.StdMap.{nat_key, find, assign, find-assign}
use openair_spgwc.Prelude.Bitset.{reset, first_clear, first_clear_lem}
use openair_spgwc.Paa.Ipv4Pool.{
  Ipv4Pool, uint32_max, subscript, alloc_free_bit_from, alloc_free_bit, alloc_address, in_pool,
  free_address, free_bit, shift_right_5,
}
use openair_spgwc.Paa.Ipv4Pool.Used.{is_used, length-assign}
use openair_spgwc.Paa.Ipv4Pool.Allocation.{alloc_free_bit_from_step, word_used}
use openair_spgwc.Paa.Ipv4Pool.Addresses.{IsPool}

-- With both ends in the lower half of the address space, what `in_pool` tests is only that the address
-- lies before the end of the pool.
pub in_pool_iff :
    (a : ℕ) (p : Ipv4Pool)
    → bswap32 a < 2 ^ 31
    → bswap32 p.start < 2 ^ 31
    → p.num < 2 ^ 31
    → (in_pool a p ≡ true) ↔ (bswap32 a < bswap32 p.start + p.num)
unfolding in_pool
in_pool_iff a p ha hs hn = ground arith

-- The words below `i + fuel` are all ones, and the word after them is missing.
alloc_free_bit_from_grows :
    (fuel i : ℕ) (m : List (ℕ × ℕ))
    → ((j : ℕ) → j < i + fuel → find j m ≡ some uint32_max)
    → find (i + fuel) m ≡ none
    → (alloc_free_bit_from (suc fuel) i (i * 32) m).0 ≡ some ((i + fuel) * 32)
unfolding alloc_free_bit_from subscript
alloc_free_bit_from_grows zero i m words gap =
    let at : i + 0 ≡ i = omega arith in
    let gap' : find i m ≡ none = subst (λ k. find k m ≡ none) at gap in
    unfold first_clear in ground arith
alloc_free_bit_from_grows (suc fuel) i m words gap =
    let at : (i + 1) + fuel ≡ i + suc fuel = omega arith in
    let next : i * 32 + 32 ≡ (i + 1) * 32 = omega arith in
    let gap' : find ((i + 1) + fuel) m ≡ none = rw at gap in
    let rest = alloc_free_bit_from_grows fuel (i + 1) m (λ j lt. words j (omega arith)) gap' in
    rw
      (
        alloc_free_bit_from_step (suc fuel) i (i * 32) uint32_max m (words i (omega arith)),
        next,
        rest,
      )
      (ground arith)

-- A word of a pool without a free address.
full_word :
    (i w : ℕ) (m : List (ℕ × ℕ))
    → find i m ≡ some w
    → w < 2 ^ 32
    → ((n : ℕ) → is_used n m ≡ true)
    → w ≡ uint32_max
full_word i w m e b all = ground (
  arith,
  first_clear_lem 32 w b,
  word_used i w (i * 32 + first_clear 32 w) m e,
  all (i * 32 + first_clear 32 w),
)

-- The word that `free_bit` makes for a bit below zero.
free_bit_below :
    (d : ℕ) (p : Ipv4Pool)
    → 0 < d
    → d ≤ 2 ^ 30
    → p.num < 2 ^ 31
    → let key = shift_right_5 (2 ^ 32 - d) in
      find key p.alloc ≡ none
      → (v : ℕ) × (free_bit (2 ^ 32 - d) p
          ≡ (true, record p { alloc = assign key v (assign key 0 p.alloc) }))
unfolding free_bit subscript
free_bit_below d p pos low small gap = (reset ((2 ^ 32 - d) % 32) 0, ground arith)

key_far : (d : ℕ) → 0 < d → d ≤ 2 ^ 30 → 2 ^ 27 < shift_right_5 (2 ^ 32 - d)
unfolding shift_right_5
key_far d pos low = ground arith

alloc_address_at :
    (n : ℕ) (p : Ipv4Pool)
    → (alloc_free_bit_from (length p.alloc) 0 0 p.alloc).0 ≡ some n
    → alloc_address p ≡ (true, bswap32 (u32 (bswap32 p.start + n)), (alloc_address p).2)
unfolding alloc_address alloc_free_bit
alloc_address_at n p e = ground arith

-- If a well-formed pool that starts in the lower half of the addresses, and has no free address, is
-- given back an address that lies at most 2 ^ 30 below its start, it takes the address as its
-- own, and next it gives away an address beyond its end.
pub free_below_grows :
    (a d : ℕ) (p : Ipv4Pool)
    → IsPool p
    → ((n : ℕ) → n < p.num → is_used n p.alloc ≡ true)
    → bswap32 p.start < 2 ^ 31
    → bswap32 a + d ≡ bswap32 p.start
    → 0 < d
    → d ≤ 2 ^ 30
    → (p1 : Ipv4Pool) × (p2 : Ipv4Pool) × (n : ℕ) × (free_address a p ≡ (true, p1))
      × (p.num ≤ n)
      × (alloc_address p1 ≡ (true, bswap32 (u32 (bswap32 p.start + n)), p2))
unfolding free_address in_pool
free_below_grows a d p h all half e pos low =
    let key = shift_right_5 (2 ^ 32 - d) in
    let far = key_far d pos low in
    let len = length p.alloc in
    let short : len < 2 ^ 27 = omega (arith, h.tight, h.small) in
    let offset : sub32 (bswap32 a) (bswap32 p.start) ≡ 2 ^ 32 - d =
      omega (arith, bswap32-lt p.start) in
    let gap : find key p.alloc ≡ none = h.words.no_more key (omega arith) in
    let (v, freed) = free_bit_below d p pos low h.small gap in
    let m0 = assign key 0 p.alloc in
    let m = assign key v m0 in
    let used : (n : ℕ) → is_used n p.alloc ≡ true = λ n.
      elim (Bool-cases (ltb n p.num)) as (λ _. is_used n p.alloc ≡ true) [
        | inl lt ↦ all n (ground arith)
        | inr ge ↦ h.tail n (ground arith)
      ] in
    let size : length m ≡ suc len =
      ground (
        arith,
        length-assign key v m0,
        length-assign key 0 p.alloc,
        find-assign key key 0 p.alloc,
      ) in
    let words : (j : ℕ) → j < 0 + len → find j m ≡ some uint32_max = λ j lt.
      let (w, there, b) = h.words.words j (omega arith) in
      ground (
        arith,
        find-assign key j v m0,
        find-assign key j 0 p.alloc,
        full_word j w p.alloc there b used,
      ) in
    let after : find (0 + len) m ≡ none = ground (
      arith,
      find-assign key (0 + len) v m0,
      find-assign key (0 + len) 0 p.alloc,
      h.words.no_more (0 + len) (omega arith),
    ) in
    let grown : (alloc_free_bit_from (length m) 0 0 m).0 ≡ some ((0 + len) * 32) =
      rw size (alloc_free_bit_from_grows len 0 m words after) in
    (
      record p { alloc = m },
      (alloc_address (record p { alloc = m })).2,
      (0 + len) * 32,
      ground (arith, offset, freed),
      omega (arith, h.enough),
      alloc_address_at ((0 + len) * 32) (record p { alloc = m }) grown,
    )
