-- ===== src/Prelude/Bitset.antt =====
-- `std::bitset<32>` on a word: reading, setting and clearing the bit `k` by halving.
use Prim.Native.Nat.{ℕ, zero, suc, ◌+◌, ◌*◌, ◌/◌, ◌%◌, ◌^◌, ◌<◌}
use mathlib.Core.Path.{◌≡◌}
use mathlib.Core.Logic.{◌≢◌}
use mathlib.Core.Bool.{Bool, true, false}
use native.Mathlib.Omega.{arith}
use openair_spgwc.Prelude.Tests.{if◌then◌else◌, ◌==◌}

unfoldable pub test : ℕ → ℕ → Bool
test zero v = v % 2 == 1
test (suc k) v = test k (v / 2)

unfoldable pub set : ℕ → ℕ → ℕ
set zero v = v / 2 * 2 + 1
set (suc k) v = v % 2 + 2 * set k (v / 2)

unfoldable pub reset : ℕ → ℕ → ℕ
reset zero v = v / 2 * 2
reset (suc k) v = v % 2 + 2 * reset k (v / 2)

-- `while (bs[i]) i++`, on a word of `k` bits.
unfoldable pub first_clear : ℕ → ℕ → ℕ
first_clear zero v = 0
first_clear (suc k) v = let rest = first_clear k (v / 2) in if v % 2 == 1 then suc rest else 0

pub test-set : (j k v : ℕ) → test j (set k v) ≡ (if k == j then true else test j v)
unfolding test set
test-set zero zero v = ground arith
test-set zero (suc k) v = ground arith
test-set (suc j) zero v = ground arith
test-set (suc j) (suc k) v =
    let e : (v % 2 + 2 * set k (v / 2)) / 2 ≡ set k (v / 2) = omega arith in
    rw e (ground (arith, test-set j k (v / 2)))

pub test-reset : (j k v : ℕ) → test j (reset k v) ≡ (if k == j then false else test j v)
unfolding test reset
test-reset zero zero v = ground arith
test-reset zero (suc k) v = ground arith
test-reset (suc j) zero v = ground arith
test-reset (suc j) (suc k) v =
    let e : (v % 2 + 2 * reset k (v / 2)) / 2 ≡ reset k (v / 2) = omega arith in
    rw e (ground (arith, test-reset j k (v / 2)))

pow_suc : (k : ℕ) → 2 ^ suc k ≡ 2 * 2 ^ k
pow_suc k = omega arith

pub set-lt : (w k v : ℕ) → k < w → v < 2 ^ w → set k v < 2 ^ w
unfolding set
set-lt zero k v h b = absurd (omega arith)
set-lt (suc w) zero v h b = omega (arith, pow_suc w)
set-lt (suc w) (suc k) v h b =
    let b' : v / 2 < 2 ^ w = omega (arith, pow_suc w) in
    omega (arith, pow_suc w, set-lt w k (v / 2) (omega arith) b')

pub reset-lt : (w k v : ℕ) → k < w → v < 2 ^ w → reset k v < 2 ^ w
unfolding reset
reset-lt zero k v h b = absurd (omega arith)
reset-lt (suc w) zero v h b = omega (arith, pow_suc w)
reset-lt (suc w) (suc k) v h b =
    let b' : v / 2 < 2 ^ w = omega (arith, pow_suc w) in
    omega (arith, pow_suc w, reset-lt w k (v / 2) (omega arith) b')

-- A word that is not all ones has a clear bit, and the loop stops there.
pub first_clear_lem :
    (w v : ℕ)
    → v < 2 ^ w
    → v + 1 ≢ 2 ^ w
    → (first_clear w v < w) × (test (first_clear w v) v ≡ false)
unfolding first_clear test
first_clear_lem zero v b h = absurd (h (ground arith))
first_clear_lem (suc w) v b h =
    let b' : v / 2 < 2 ^ w = omega (arith, pow_suc w) in
    ground (arith, pow_suc w, first_clear_lem w (v / 2) b')

pub test_full : (w v j : ℕ) → v + 1 ≡ 2 ^ w → j < w → test j v ≡ true
unfolding test
test_full zero v j e h = absurd (omega arith)
test_full (suc w) v zero e h = ground (arith, pow_suc w)
test_full (suc w) v (suc j) e h = test_full w (v / 2) j (omega (arith, pow_suc w)) (omega arith)
