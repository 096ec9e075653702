-- ===== src/Examples/Pools.antt =====
-- Pools of src/oai_spgwc/pgw_paa_dynamic.hpp with two addresses, from 10.0.0.16 on.
use openair_spgwc.Prelude.{
  ℕ, ◌+◌, ◌%◌, ◌^◌, ◌≤◌, ◌<◌, ◌≡◌, ◌⊎◌, ◌↔◌, true, false, none, some, [], ◌∷◌, if◌then◌else◌, ◌==◌,
  arith, refl,
}
use openair_spgwc.Prelude.Words.{u32, bswap32}
use openair_spgwc.Prelude.StdMap.{nat_key, string_key, find, assign}
use openair_spgwc.Prelude.Bitset.{test_full}
use openair_spgwc.Paa.Ipv4Pool.{Ipv4Pool, new_pool, alloc_address, free_address}
use openair_spgwc.Paa.Ipv4Pool.Used.{is_used}
use openair_spgwc.Paa.Ipv4Pool.Addresses.{
  IsPool, Allocated, new_pool-IsPool, alloc_address-Allocated,
}
use openair_spgwc.Paa.Ipv4Pool.Outside.{free_below_grows}
use openair_spgwc.Paa.PaaDynamic.{
  Paa, ApnDynamicPools, PaaDynamic, init, add_ipv4_pool, add_ipv4_pool_id, no_ids, pool4,
  get_free_paa, release_paa,
}
use openair_spgwc.Paa.PaaDynamic.Single.{Reach, here, next, adds_ipv4, ipv4v6_never_given}
use openair_spgwc.Paa.PaaDynamic.Release.{HasPool, get_free_paa-release_paa}

-- 10.0.0.16 and 10.0.0.15 as a little-endian host reads them.
abbrev start : ℕ
start = 0x1000000A

abbrev below : ℕ
below = 0x0F00000A

abbrev pool : Ipv4Pool
pool = new_pool start 2

pool-IsPool : IsPool pool
unfolding bswap32
pool-IsPool = (new_pool-IsPool start 2 (omega arith) (omega arith)).0

alloc_address-Allocated_example : Allocated pool (alloc_address pool)
alloc_address-Allocated_example = alloc_address-Allocated pool pool-IsPool

pool_num : 1 < pool.num
unfolding new_pool
pool_num = omega arith

-- The pool when both addresses are given away.
abbrev full_pool : Ipv4Pool
full_pool = record { start = start; num = 2; alloc = (0, 0xFFFFFFFF) ∷ [] }

full_pool_used : (n : ℕ) → is_used n full_pool.alloc ≡ true
unfolding is_used find
full_pool_used n = ground (arith, test_full 32 0xFFFFFFFF (n % 32))

full_pool-IsPool : IsPool full_pool
unfolding bswap32 find
full_pool-IsPool = record {
  words = record {
    words = λ i lt. (0xFFFFFFFF, ground arith, omega arith);
    no_more = λ i le. ground arith;
  };
  tail = λ n _. full_pool_used n;
  enough = omega arith;
  tight = omega arith;
  small = omega arith;
  room = omega arith;
}

full_pool_low : bswap32 full_pool.start < 2 ^ 31
unfolding bswap32
full_pool_low = omega arith

full_pool_start : bswap32 below + 1 ≡ bswap32 full_pool.start
unfolding bswap32
full_pool_start = refl

free_below_grows_example :
    (p1 : Ipv4Pool) × (p2 : Ipv4Pool) × (n : ℕ) × (free_address below full_pool ≡ (true, p1))
    × (full_pool.num ≤ n)
    × (alloc_address p1 ≡ (true, bswap32 (u32 (bswap32 full_pool.start + n)), p2))
free_below_grows_example =
    free_below_grows below 1 full_pool full_pool-IsPool (λ n _. full_pool_used n) full_pool_low
      full_pool_start (omega arith) (omega arith)

abbrev configured : PaaDynamic
configured = add_ipv4_pool "default" 0 start 2 init

configured_reached : Reach init configured
configured_reached = next here (adds_ipv4 "default" 0 start 2)

abbrev dual_stack : Paa
dual_stack = record { pdn_type = 3; ipv4_address = 0; ipv6_address = 0 }

ipv4v6_never_given_example :
    ((get_free_paa "default" dual_stack configured ≡ none) ↔ (
      (a : ApnDynamicPools) × (id : ℕ) × (find "default" configured.apns ≡ some a)
      × (a.ipv4_pool_ids ≡ id ∷ [])
      × ((alloc_address (pool4 id configured.ipv4_pools)).0 ≡ true)))
    × ((get_free_paa "default" dual_stack configured ≡ none)
        ⊎ ((paa' : Paa) × (d' : PaaDynamic) × (get_free_paa "default" dual_stack configured
              ≡ some (false, paa', d'))))
ipv4v6_never_given_example = ipv4v6_never_given "default" dual_stack configured_reached refl

abbrev single_stack : Paa
single_stack = record { pdn_type = 1; ipv4_address = 0; ipv6_address = 0 }

configured_pool : HasPool "default" 0 pool configured
unfolding add_ipv4_pool add_ipv4_pool_id no_ids init find assign
configured_pool = record {
  apn = record { ipv4_pool_ids = 0 ∷ []; ipv6_pool_ids = [] };
  known = refl;
  ids = refl;
  pool = refl;
}

free_at_1 : is_used 1 pool.alloc ≡ false
free_at_1 = (unfold bswap32 in (new_pool-IsPool start 2 (omega arith) (omega arith)).1 1)

get_free_paa-release_paa_example :
    (paa' : Paa) × (d1 : PaaDynamic) × (d2 : PaaDynamic) × (p2 : Ipv4Pool) × (get_free_paa "default"
        single_stack configured
      ≡ some (true, paa', d1))
    × (release_paa "default" paa' d1 ≡ (true, d2))
    × ((j : ℕ) → is_used j p2.alloc ≡ is_used j pool.alloc)
    × ((k : ℕ) → find k d2.ipv4_pools ≡ (if 0 == k then some p2 else find k configured.ipv4_pools))
get_free_paa-release_paa_example =
    get_free_paa-release_paa "default" 0 1 pool single_stack configured configured_pool pool-IsPool
      refl pool_num free_at_1
