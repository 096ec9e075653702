-- ===== src/Paa/Ipv4Pool/Used.antt =====
-- What the words of an `ipv4_pool` (src/oai_spgwc/pgw_paa_dynamic.hpp) say of its addresses.
use openair_spgwc.Prelude.{
  ℕ, suc, ◌+◌, ◌*◌, ◌/◌, ◌%◌, ◌^◌, ◌≤◌, ◌<◌, ◌≡◌, refl, Bool, true, false, none, some, List, [],
  ◌∷◌, if◌then◌else◌, ◌==◌, arith, length, Option-cases,
}
use openair_spgwc.Prelude.StdMap.{nat_key, find, assign, find-assign}
use openair_spgwc.Prelude.Bitset.{test, set, reset, test-set, test-reset}

-- Address `n` of the pool is given away, or there is none.
unfoldable pub is_used : ℕ → List (ℕ × ℕ) → Bool
is_used n m = elim (find (n / 32) m) [ none ↦ true | some w ↦ test (n % 32) w ]

-- The map has the words from 0 on, without a gap.
pub record IsWords (m : List (ℕ × ℕ)) : Type 0 where
  pub words : (i : ℕ) → i < length m → (w : ℕ) × (find i m ≡ some w) × (w < 2 ^ 32)
  pub no_more : (i : ℕ) → length m ≤ i → find i m ≡ none

pub length-assign :
    (k v : ℕ) (m : List (ℕ × ℕ))
    → length (assign k v m) ≡ (elim (find k m) [ none ↦ suc (length m) | some w ↦ length m ])
unfolding assign find
length-assign k v [] = refl
length-assign k v ((j, w) ∷ m) = ground (arith, length-assign k v m, Option-cases (find k m))

pub length-assign_same :
    (k v w : ℕ) (m : List (ℕ × ℕ)) → find k m ≡ some w → length (assign k v m) ≡ length m
length-assign_same k v w m e = ground (arith, length-assign k v m)

-- Changing a word of the map.
pub assign-IsWords :
    (k v w : ℕ) (m : List (ℕ × ℕ))
    → find k m ≡ some w
    → v < 2 ^ 32
    → IsWords m
    → IsWords (assign k v m)
assign-IsWords k v w m e b h =
    let l : length (assign k v m) ≡ length m = length-assign_same k v w m e in
    record {
      words = λ i lt. ground (arith, find-assign k i v m, h.words i (omega (arith, l)));
      no_more = λ i le. ground (arith, find-assign k i v m, h.no_more i (omega (arith, l)));
    }

pub is_used-assign-set :
    (i k w n : ℕ) (m : List (ℕ × ℕ))
    → find i m ≡ some w
    → k < 32
    → is_used n (assign i (set k w) m) ≡ (if i * 32 + k == n then true else is_used n m)
unfolding is_used
is_used-assign-set i k w n m e lt =
    ground (arith, find-assign i (n / 32) (set k w) m, test-set (n % 32) k w)

pub is_used-assign-reset :
    (i k w n : ℕ) (m : List (ℕ × ℕ))
    → find i m ≡ some w
    → k < 32
    → is_used n (assign i (reset k w) m) ≡ (if i * 32 + k == n then false else is_used n m)
unfolding is_used
is_used-assign-reset i k w n m e lt =
    ground (arith, find-assign i (n / 32) (reset k w) m, test-reset (n % 32) k w)
