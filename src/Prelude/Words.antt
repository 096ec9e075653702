-- ===== src/Prelude/Words.antt =====
-- Fixed-width integers as native numbers: what the casts, shifts and byte swaps of C++ give.
use Prim.Native.Nat.{ℕ, ◌+◌, ◌-◌, ◌*◌, ◌/◌, ◌%◌, ◌^◌, ◌<◌}
use mathlib.Core.Path.{◌≡◌}
use mathlib.Core.Bool.{Bool}
use mathlib.Core.List.{List, [], ◌∷◌, ◌++◌}
use native.Mathlib.Omega.{arith}
use openair_spgwc.Prelude.Tests.{ltb}

abbrev pub u32 : ℕ → ℕ
u32 n = n % 2 ^ 32

-- `a - b` on 32 bits; the modulus is added first since `-` stops at 0.
abbrev pub sub32 : ℕ → ℕ → ℕ
sub32 a b = (a + 2 ^ 32 - b) % 2 ^ 32

-- `a < b` on `int`, both given by their bit patterns: the sign bit is flipped on each side.
abbrev pub lt_int : ℕ → ℕ → Bool
lt_int a b = ltb (u32 (a + 2 ^ 31)) (u32 (b + 2 ^ 31))

-- The byte swap between network order and a little-endian host (`be32toh`, `htobe32`).
unfoldable pub bswap32 : ℕ → ℕ
bswap32 x =
    x % 2 ^ 8 * 2 ^ 24
    + x / 2 ^ 8 % 2 ^ 8 * 2 ^ 16
    + x / 2 ^ 16 % 2 ^ 8 * 2 ^ 8
    + x / 2 ^ 24 % 2 ^ 8

pub bswap32-lt : (x : ℕ) → bswap32 x < 2 ^ 32
unfolding bswap32
bswap32-lt x = omega arith

pub bswap32-bswap32 : (x : ℕ) → x < 2 ^ 32 → bswap32 (bswap32 x) ≡ x
unfolding bswap32
bswap32-bswap32 x h = omega arith

-- The bytes of a number in network order.
unfoldable pub be16 : ℕ → List ℕ
be16 n = n / 2 ^ 8 % 2 ^ 8 ∷ n % 2 ^ 8 ∷ []

unfoldable pub be24 : ℕ → List ℕ
unfolding be16
be24 n = n / 2 ^ 16 % 2 ^ 8 ∷ be16 n

unfoldable pub be32 : ℕ → List ℕ
unfolding be16
be32 n = be16 (n / 2 ^ 16) ++ be16 n

unfoldable pub be64 : ℕ → List ℕ
unfolding be32
be64 n = be32 (n / 2 ^ 32) ++ be32 n
