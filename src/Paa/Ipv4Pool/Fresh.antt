-- ===== src/Paa/Ipv4Pool/Fresh.antt =====
-- The constructor of `ipv4_pool` (src/oai_spgwc/pgw_paa_dynamic.hpp): the words that it lays out.
use openair_spgwc.Prelude.{
  ℕ, zero, suc, ◌+◌, ◌*◌, ◌/◌, ◌%◌, ◌^◌, ◌≤◌, ◌<◌, ◌≡◌, refl, Bool, true, false, none, some, List,
  if◌then◌else◌, ◌&&◌, arith, length, ltb, leb,
}
use openair_spgwc.Prelude.Words.{u32}
use openair_spgwc.Prelude.StdMap.{nat_key, find, assign, find-assign}
use openair_spgwc.Prelude.Bitset.{test}
use openair_spgwc.Paa.Ipv4Pool.{uint32_max, zero_words, new_pool}
use openair_spgwc.Paa.Ipv4Pool.Used.{is_used, IsWords, length-assign}

find-zero_words : (n i : ℕ) → find i (zero_words n) ≡ (if ltb i n then some 0 else none)
unfolding zero_words find
find-zero_words zero i = ground arith
find-zero_words (suc n) i = ground (arith, find-assign n i 0 (zero_words n), find-zero_words n i)

length-zero_words : (n : ℕ) → length (zero_words n) ≡ n
unfolding zero_words
length-zero_words zero = refl
length-zero_words (suc n) =
    ground (arith, length-assign n 0 (zero_words n), length-zero_words n, find-zero_words n n)

test_zero : (k : ℕ) → test k 0 ≡ false
unfolding test
test_zero zero = refl
test_zero (suc k) = test_zero k

-- A test that holds below `n`.
all_below : ℕ → (ℕ → Bool) → Bool
all_below zero f = true
all_below (suc n) f = f n && all_below n f

all_below_lem : (n k : ℕ) (f : ℕ → Bool) → all_below n f ≡ true → k < n → f k ≡ true
unfolding all_below
all_below_lem zero k f h lt = absurd (omega arith)
all_below_lem (suc n) k f h lt = ground (arith, all_below_lem n k f)

same : Bool → Bool → Bool
same true b = b
same false true = false
same false false = true

same_lem : (a b : Bool) → same a b ≡ true → a ≡ b
unfolding same
same_lem true true h = refl
same_lem true false h = cc
same_lem false true h = cc
same_lem false false h = refl

masks :
    all_below 32 (λ r. all_below 32 (λ k. same (test k (u32 (uint32_max * 2 ^ r))) (leb r k)))
    ≡ true
unfolding all_below test same
masks = refl

-- The bits of the word `max << r`.
test_mask : (r k : ℕ) → r < 32 → k < 32 → test k (u32 (uint32_max * 2 ^ r)) ≡ leb r k
test_mask r k hr hk = same_lem _ _ (
    all_below_lem 32 k (λ k. same (test k (u32 (uint32_max * 2 ^ r))) (leb r k))
      (all_below_lem 32 r
        (λ r. all_below 32 (λ k. same (test k (u32 (uint32_max * 2 ^ r))) (leb r k))) masks hr)
      hk)

zero_words-IsWords : (n : ℕ) → IsWords (zero_words n)
zero_words-IsWords n = record {
  words = λ i lt. (0, ground (arith, find-zero_words n i, length-zero_words n), omega arith);
  no_more = λ i le. ground (arith, find-zero_words n i, length-zero_words n);
}

-- A new word after the last.
push-IsWords : (v : ℕ) (m : List (ℕ × ℕ)) → v < 2 ^ 32 → IsWords m → IsWords (assign (length m) v m)
push-IsWords v m b h =
    let l : length (assign (length m) v m) ≡ suc (length m) =
      ground (arith, length-assign (length m) v m, h.no_more (length m)) in
    record {
      words = λ i lt. ground (arith, l, find-assign (length m) i v m, h.words i);
      no_more = λ i le. ground (arith, l, find-assign (length m) i v m, h.no_more i);
    }

-- A new pool has its words without a gap, and exactly its first `range` addresses are free.
pub new_pool_lem :
    (first range : ℕ)
    → let p = new_pool first range in
      IsWords p.alloc
      × ((n : ℕ) → is_used n p.alloc ≡ leb range n)
      × (range ≤ length p.alloc * 32)
      × (length p.alloc * 32 < range + 32)
unfolding new_pool is_used
new_pool_lem first range =
    let q = range / 32 in
    let mask = u32 (uint32_max * 2 ^ (range % 32)) in
    (
      ground (arith, zero_words-IsWords q, length-zero_words q, push-IsWords mask (zero_words q)),
      λ n. ground (
        arith,
        find-zero_words q (n / 32),
        find-assign q (n / 32) mask (zero_words q),
        test_zero (n % 32),
        test_mask (range % 32) (n % 32),
      ),
      ground (arith, length-zero_words q, length-assign q mask (zero_words q), find-zero_words q q),
      ground (arith, length-zero_words q, length-assign q mask (zero_words q), find-zero_words q q),
    )
