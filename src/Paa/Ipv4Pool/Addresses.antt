-- ===== src/Paa/Ipv4Pool/Addresses.antt =====
-- What `alloc_address` and `free_address` of src/oai_spgwc/pgw_paa_dynamic.hpp promise.
use openair_spgwc.Prelude.{
  ℕ, ◌+◌, ◌*◌, ◌/◌, ◌%◌, ◌^◌, ◌≤◌, ◌<◌, ◌≡◌, refl, Bool, true, false, Option, none, some, List,
  if◌then◌else◌, ◌==◌, arith, length, leb,
}
use openair_spgwc.Prelude.Words.{u32, sub32, bswap32, bswap32-lt, bswap32-bswap32}
use openair_spgwc.Prelude.StdMap.{nat_key, find, assign}
use openair_spgwc.Prelude.Bitset.{reset, reset-lt}
use openair_spgwc.Paa.Ipv4Pool.{
  Ipv4Pool, subscript, alloc_free_bit, alloc_address, in_pool, free_address, free_bit,
  shift_right_5, new_pool,
}
use openair_spgwc.Paa.Ipv4Pool.Used.{
  is_used, IsWords, length-assign_same, assign-IsWords, is_used-assign-reset,
}
use openair_spgwc.Paa.Ipv4Pool.Fresh.{new_pool_lem}
use openair_spgwc.Paa.Ipv4Pool.Allocation.{Outcome, full, given, alloc_free_bit_from_lem}

-- The words have no gap, no address from `num` on is free, and the pool fits the 32-bit addresses.
pub record IsPool (p : Ipv4Pool) : Type 0 where
  pub words : IsWords p.alloc
  pub tail : (n : ℕ) → p.num ≤ n → is_used n p.alloc ≡ true
  pub enough : p.num ≤ length p.alloc * 32
  pub tight : length p.alloc * 32 < p.num + 32
  pub small : p.num < 2 ^ 31
  pub room : bswap32 p.start + p.num ≤ 2 ^ 32

-- Address `n` of the pool.
unfoldable pub address : Ipv4Pool → ℕ → ℕ
address p n = bswap32 (bswap32 p.start + n)

-- A new pool whose range fits is well-formed, and exactly the addresses of the range are free.
pub new_pool-IsPool :
    (first range : ℕ)
    → range < 2 ^ 31
    → bswap32 first + range ≤ 2 ^ 32
    → IsPool (new_pool first range)
      × ((n : ℕ) → is_used n (new_pool first range).alloc ≡ leb range n)
new_pool-IsPool first range small room =
    let (words, free, enough, tight) = new_pool_lem first range in
    (
      record {
        words = words;
        tail = λ n h. unfold new_pool in ground (arith, free n);
        enough = unfold new_pool in enough;
        tight = unfold new_pool in tight;
        small = unfold new_pool in small;
        room = unfold new_pool in room;
      },
      free,
    )

-- What `alloc_address` can return: 0 and no change from a pool without a free address, or else the
-- first free address, which is then in use, while every other stays as it was.
pub data Allocated (p : Ipv4Pool) : Bool × ℕ × Ipv4Pool → Type 0 where
  exhausted : ((n : ℕ) → n < p.num → is_used n p.alloc ≡ true) → Allocated p (false, 0, p)
  allocated :
      (n : ℕ) (p' : Ipv4Pool)
      → n < p.num
      → is_used n p.alloc ≡ false
      → ((j : ℕ) → j < n → is_used j p.alloc ≡ true)
      → ((j : ℕ) → is_used j p'.alloc ≡ (if n == j then true else is_used j p.alloc))
      → p'.start ≡ p.start
      → p'.num ≡ p.num
      → IsPool p'
      → Allocated p (true, address p n, p')

Outcome-Allocated :
    (p : Ipv4Pool)
    → IsPool p
    → (r : Option ℕ × List (ℕ × ℕ)) → Outcome p.alloc r
    → Allocated p (elim r.0 [
      | some b ↦ (true, bswap32 (u32 (bswap32 p.start + b)), record p { alloc = r.1 })
      | none ↦ (false, 0, record p { alloc = r.1 })
    ])
Outcome-Allocated p h r (full all) = exhausted (λ n _. all n)
Outcome-Allocated p h r (given n m' free first used words size) =
    let lt : n < p.num = ground (arith, h.tail n) in
    let value : u32 (bswap32 p.start + n) ≡ bswap32 p.start + n = omega (arith, h.room) in
    rw value (
      unfold address in
      allocated n (record p { alloc = m' }) lt free first used refl refl
        (record {
          words = words;
          tail = λ j le. ground (arith, used j, h.tail j);
          small = h.small;
          room = h.room;
          enough = rw size h.enough;
          tight = rw size h.tight;
        }))

-- On a well-formed pool `alloc_address` fails only if no address is free, and otherwise gives the
-- first free one, which is in use afterwards while every other stays as it was; the pool stays
-- well-formed.
pub alloc_address-Allocated : (p : Ipv4Pool) → IsPool p → Allocated p (alloc_address p)
unfolding alloc_address alloc_free_bit
alloc_address-Allocated p h = Outcome-Allocated p h _ (
    alloc_free_bit_from_lem (length p.alloc) 0 p.alloc h.words (omega arith)
      (λ n lt. absurd (omega arith)))

-- The distance of address `n` from the start of its pool.
address_offset :
    (p : Ipv4Pool) (n : ℕ)
    → IsPool p
    → n < p.num
    → sub32 (bswap32 (address p n)) (bswap32 p.start) ≡ n
unfolding address
address_offset p n h lt =
    rw (bswap32-bswap32 (bswap32 p.start + n) (omega (arith, h.room)))
      (omega (arith, h.room, bswap32-lt p.start))

free_bit_within :
    (b : ℕ) (p : Ipv4Pool)
    → b < p.num
    → p.num < 2 ^ 31
    → (w : ℕ) → find (b / 32) p.alloc ≡ some w
    → free_bit b p ≡ (true, record p { alloc = assign (b / 32) (reset (b % 32) w) p.alloc })
unfolding free_bit shift_right_5 subscript
free_bit_within b p lt small w e = ground arith

-- Giving back an address of a well-formed pool succeeds, makes that address free and no other, and
-- keeps the pool well-formed.
pub free_address_frees :
    (p : Ipv4Pool) (n : ℕ)
    → IsPool p
    → n < p.num
    → (p' : Ipv4Pool) × (free_address (address p n) p ≡ (true, p'))
      × ((j : ℕ) → is_used j p'.alloc ≡ (if n == j then false else is_used j p.alloc))
      × IsPool p'
unfolding free_address in_pool
free_address_frees p n h lt =
    let (w, there, bound) = h.words.words (n / 32) (omega (arith, h.enough)) in
    let m' = assign (n / 32) (reset (n % 32) w) p.alloc in
    let used = λ (j : ℕ). is_used-assign-reset (n / 32) (n % 32) w j p.alloc there (omega arith) in
    let size = length-assign_same (n / 32) (reset (n % 32) w) w p.alloc there in
    let place : n / 32 * 32 + n % 32 ≡ n = omega arith in
    (
      record p { alloc = m' },
      ground (arith, address_offset p n h lt, free_bit_within n p lt h.small w there, h.small),
      λ j. ground (arith, used j),
      record {
        words =
            assign-IsWords (n / 32) (reset (n % 32) w) w p.alloc there
              (reset-lt 32 (n % 32) w (omega arith) bound) h.words;
        tail = λ j le. ground (arith, used j, h.tail j);
        enough = rw size h.enough;
        tight = rw size h.tight;
        small = h.small;
        room = h.room;
      },
    )
