-- ===== src/Paa/Ipv4Pool.antt =====
-- `ipv4_pool` of src/oai_spgwc/pgw_paa_dynamic.hpp. Addresses are 32-bit words in network order, and
-- `int` is kept as its bit pattern; a difference of two `int` wraps. `alloc` is the `std::map<int, uint32_t>`.
pub mod Used
pub mod Fresh
pub mod Allocation
pub mod Addresses
pub mod Outside
use openair_spgwc.Prelude.{
  ℕ, zero, suc, ◌+◌, ◌-◌, ◌*◌, ◌/◌, ◌%◌, ◌^◌, Bool, true, false, Option, none, some, List, [],
  if◌then◌else◌, ◌==◌, ltb, length,
}
use openair_spgwc.Prelude.Words.{u32, sub32, lt_int, bswap32}
use openair_spgwc.Prelude.StdMap.{nat_key, find, assign}
use openair_spgwc.Prelude.Bitset.{set, reset, first_clear}

pub record Ipv4Pool : Type 0 where
  pub start : ℕ
  pub num : ℕ
  pub alloc : List (ℕ × ℕ)

-- std::numeric_limits<uint32_t>::max()
abbrev pub uint32_max : ℕ
uint32_max = 0xFFFFFFFF

-- `alloc[i]` puts a zero where there is nothing.
unfoldable pub subscript : ℕ → List (ℕ × ℕ) → ℕ × List (ℕ × ℕ)
subscript i m = elim (find i m) [ some w ↦ (w, m) | none ↦ (0, assign i 0 m) ]

-- The loop over the words, with `fuel` words left: the position of the first clear bit, which is set.
unfoldable pub alloc_free_bit_from : ℕ → ℕ → ℕ → List (ℕ × ℕ) → Option ℕ × List (ℕ × ℕ)
unfolding subscript
alloc_free_bit_from zero i bit_pos alloc = (none, alloc)
alloc_free_bit_from (suc fuel) i bit_pos alloc =
    let (w, m) = subscript i alloc in
    let rest = alloc_free_bit_from fuel (i + 1) (bit_pos + 32) m in
    if w == uint32_max
    then rest
    else (let k = first_clear 32 w in (some (bit_pos + k), assign i (set k w) m))

-- `none` is the result `false`.
unfoldable pub alloc_free_bit : Ipv4Pool → Option ℕ × Ipv4Pool
alloc_free_bit p =
    let (bit_pos, m) = alloc_free_bit_from (length p.alloc) 0 0 p.alloc in
    (bit_pos, record p { alloc = m })

-- `bit_pos >> 5` on `int` keeps the sign.
unfoldable pub shift_right_5 : ℕ → ℕ
shift_right_5 b = if ltb b (2 ^ 31) then b / 32 else b / 32 + (2 ^ 32 - 2 ^ 27)

unfoldable pub free_bit : ℕ → Ipv4Pool → Bool × Ipv4Pool
unfolding shift_right_5 subscript
free_bit bit_pos p =
    if lt_int bit_pos p.num
    then (let bit_pos32 = shift_right_5 bit_pos in
        let (w, m) = subscript bit_pos32 p.alloc in
        (true, record p { alloc = assign bit_pos32 (reset (bit_pos % 32) w) m }))
    else (false, p)

-- The default constructor.
unfoldable pub no_pool : Ipv4Pool
no_pool = record { start = 0; num = 0; alloc = [] }

-- `for (i = 0; i < range32; ++i) alloc[i] = 0`
unfoldable pub zero_words : ℕ → List (ℕ × ℕ)
zero_words zero = []
zero_words (suc n) = assign n 0 (zero_words n)

unfoldable pub new_pool : ℕ → ℕ → Ipv4Pool
unfolding zero_words
new_pool first range =
    let range32 = range / 32 in
    record {
      start = first;
      num = range;
      alloc =
          if range % 32 == 0
          then zero_words range32
          else assign range32 (u32 (uint32_max * 2 ^ (range % 32))) (zero_words range32);
    }

-- The result and the reference parameter `allocated`.
unfoldable pub alloc_address : Ipv4Pool → Bool × ℕ × Ipv4Pool
alloc_address p =
    let (bit_pos, p') = alloc_free_bit p in
    elim bit_pos [
      | some b ↦ (true, bswap32 (u32 (bswap32 p.start + b)), p')
      | none ↦ (false, 0, p')
    ]

unfoldable pub in_pool : ℕ → Ipv4Pool → Bool
in_pool a p = lt_int (sub32 (bswap32 a) (bswap32 p.start)) p.num

unfoldable pub free_address : ℕ → Ipv4Pool → Bool × Ipv4Pool
unfolding in_pool
free_address a p =
    if in_pool a p then free_bit (sub32 (bswap32 a) (bswap32 p.start)) p else (false, p)
