-- ===== src/Paa/PaaDynamic.antt =====
-- `apn_dynamic_pools` and `paa_dynamic` of src/oai_spgwc/pgw_paa_dynamic.hpp. Where the source reads
-- through an iterator that is at the end the result is `none`. Logging is left out.
pub mod Single
pub mod Release
use openair_spgwc.Prelude.{
  ℕ, ◌+◌, ◌^◌, Bool, true, false, Option, none, some, List, [], ◌∷◌, ◌++◌, if◌then◌else◌, ◌==◌, ltb,
}
use openair_spgwc.Prelude.StdMap.{nat_key, string_key, find, assign}
use Prim.Native.String.{String}
use openair_spgwc.Paa.Ipv4Pool.{Ipv4Pool, no_pool, new_pool, alloc_address, free_address}
use openair_spgwc.Paa.Ipv6Pool.{Ipv6Pool, no_ipv6_pool, alloc_prefix}

-- What is read of `paa_t`.
pub record Paa : Type 0 where
  pub pdn_type : ℕ
  pub ipv4_address : ℕ
  pub ipv6_address : ℕ

abbrev pub pdn_type_ipv4 : ℕ
pdn_type_ipv4 = 1

abbrev pub pdn_type_ipv6 : ℕ
pdn_type_ipv6 = 2

abbrev pub pdn_type_ipv4v6 : ℕ
pdn_type_ipv4v6 = 3

pub record ApnDynamicPools : Type 0 where
  pub ipv4_pool_ids : List ℕ
  pub ipv6_pool_ids : List ℕ

unfoldable pub add_ipv4_pool_id : ℕ → ApnDynamicPools → ApnDynamicPools
add_ipv4_pool_id id a = record a { ipv4_pool_ids = a.ipv4_pool_ids ++ (id ∷ []) }

unfoldable pub add_ipv6_pool_id : ℕ → ApnDynamicPools → ApnDynamicPools
add_ipv6_pool_id id a = record a { ipv6_pool_ids = a.ipv6_pool_ids ++ (id ∷ []) }

unfoldable pub no_ids : ApnDynamicPools
no_ids = record { ipv4_pool_ids = []; ipv6_pool_ids = [] }

pub record PaaDynamic : Type 0 where
  pub ipv4_pools : List (ℕ × Ipv4Pool)
  pub ipv6_pools : List (ℕ × Ipv6Pool)
  pub apns : List (String × ApnDynamicPools)

unfoldable pub init : PaaDynamic
init = record { ipv4_pools = []; ipv6_pools = []; apns = [] }

-- `pool_id` is the bit pattern of an `int`.
unfoldable pub add_ipv4_pool : String → ℕ → ℕ → ℕ → PaaDynamic → PaaDynamic
unfolding add_ipv4_pool_id no_ids
add_ipv4_pool apn_label pool_id first range d =
    if ltb pool_id (2 ^ 31)
    then (record d {
      ipv4_pools = elim (find pool_id d.ipv4_pools) [
        | none ↦ assign pool_id (new_pool first range) d.ipv4_pools
        | some p ↦ d.ipv4_pools
      ];
      apns = elim (find apn_label d.apns) [
        | none ↦ assign apn_label (add_ipv4_pool_id pool_id no_ids) d.apns
        | some a ↦ d.apns
      ];
    })
    else d

unfoldable pub add_ipv6_pool : String → ℕ → ℕ → ℕ → PaaDynamic → PaaDynamic
unfolding add_ipv6_pool_id no_ids
add_ipv6_pool apn_label pool_id prefix prefix_len d =
    if ltb pool_id (2 ^ 31)
    then (record d {
      ipv6_pools = elim (find pool_id d.ipv6_pools) [
        | none ↦ assign pool_id (record { prefix = prefix; prefix_len = prefix_len }) d.ipv6_pools
        | some p ↦ d.ipv6_pools
      ];
      apns = elim (find apn_label d.apns) [
        | none ↦ assign apn_label (add_ipv6_pool_id pool_id no_ids) d.apns
        | some a ↦ d.apns
      ];
    })
    else d

-- `ipv4_pools[id]` and `ipv6_pools[id]` put a default pool where there is none.
unfoldable pub pool4 : ℕ → List (ℕ × Ipv4Pool) → Ipv4Pool
pool4 id pools = elim (find id pools) [ some p ↦ p | none ↦ no_pool ]

unfoldable pub pool6 : ℕ → List (ℕ × Ipv6Pool) → Ipv6Pool
pool6 id pools = elim (find id pools) [ some p ↦ p | none ↦ no_ipv6_pool ]

-- The loop that stops at the first pool with an address. A pool without one sets the address to 0.
unfoldable pub first_address : List ℕ → ℕ → List (ℕ × Ipv4Pool) → Bool × ℕ × List (ℕ × Ipv4Pool)
first_address [] address pools = (false, address, pools)
first_address (id ∷ ids) address pools =
    let (ok, a, p) = alloc_address (pool4 id pools) in
    let pools' = assign id p pools in
    let rest = first_address ids a pools' in if ok then (true, a, pools') else rest

-- The loop of the dual-stack case, which goes on after a success.
unfoldable pub every_address :
    List ℕ → Bool → ℕ → List (ℕ × Ipv4Pool) → Bool × ℕ × List (ℕ × Ipv4Pool)
every_address [] success address pools = (success, address, pools)
every_address (id ∷ ids) success address pools =
    let (ok, a, p) = alloc_address (pool4 id pools) in
    every_address ids (if ok then true else success) a (assign id p pools)

-- The loop over the IPv6 pools.
unfoldable pub first_prefix : List ℕ → ℕ → List (ℕ × Ipv6Pool) → Bool × ℕ × List (ℕ × Ipv6Pool)
first_prefix [] prefix pools = (false, prefix, pools)
first_prefix (id ∷ ids) prefix pools =
    let (ok, a) = alloc_prefix (pool6 id pools) in
    let pools' = assign id (pool6 id pools) pools in
    let rest = first_prefix ids a pools' in if ok then (true, a, pools') else rest

unfoldable pub get_ipv4 : ApnDynamicPools → Paa → PaaDynamic → Bool × Paa × PaaDynamic
get_ipv4 apn paa d =
    let (ok, a, pools) = first_address apn.ipv4_pool_ids paa.ipv4_address d.ipv4_pools in
    (ok, record paa { ipv4_address = a }, record d { ipv4_pools = pools })

unfoldable pub get_ipv6 : ApnDynamicPools → Paa → PaaDynamic → Bool × Paa × PaaDynamic
get_ipv6 apn paa d =
    let (ok, a, pools) = first_prefix apn.ipv6_pool_ids paa.ipv6_address d.ipv6_pools in
    (ok, record paa { ipv6_address = a }, record d { ipv6_pools = pools })

-- Without a prefix the source gives the address back to the pool of an iterator that is at the end.
unfoldable pub get_ipv4v6 : ApnDynamicPools → Paa → PaaDynamic → Option (Bool × Paa × PaaDynamic)
unfolding get_ipv6
get_ipv4v6 apn paa d =
    let (success, a, pools) = every_address apn.ipv4_pool_ids false paa.ipv4_address d.ipv4_pools in
    let paa' : Paa = record paa { ipv4_address = a } in
    let d' : PaaDynamic = record d { ipv4_pools = pools } in
    let (ok, paa'', d'') = get_ipv6 apn paa' d' in
    if success then (if ok then some (true, paa'', d'') else none) else some (false, paa', d')

unfoldable pub get_free_paa : String → Paa → PaaDynamic → Option (Bool × Paa × PaaDynamic)
get_free_paa apn_label paa d = elim (find apn_label d.apns) [
  | none ↦ some (false, paa, d)
  | some apn ↦
      if paa.pdn_type == pdn_type_ipv4
      then some (get_ipv4 apn paa d)
      else if paa.pdn_type == pdn_type_ipv4v6
      then get_ipv4v6 apn paa d
      else if paa.pdn_type == pdn_type_ipv6
      then some (get_ipv6 apn paa d)
      else some (false, paa, d)
]

-- The loop that stops at the first pool that takes the address.
unfoldable pub release_address : List ℕ → ℕ → List (ℕ × Ipv4Pool) → Bool × List (ℕ × Ipv4Pool)
release_address [] address pools = (false, pools)
release_address (id ∷ ids) address pools =
    let (ok, p) = free_address address (pool4 id pools) in
    let pools' = assign id p pools in
    let rest = release_address ids address pools' in if ok then (true, pools') else rest

unfoldable pub release_ipv4 : ApnDynamicPools → ℕ → PaaDynamic → Bool × PaaDynamic
release_ipv4 apn address d =
    let (ok, pools) = release_address apn.ipv4_pool_ids address d.ipv4_pools in
    (ok, record d { ipv4_pools = pools })

unfoldable pub release_paa : String → Paa → PaaDynamic → Bool × PaaDynamic
unfolding release_ipv4
release_paa apn_label paa d = elim (find apn_label d.apns) [
  | none ↦ (false, d)
  | some apn ↦
      if paa.pdn_type == pdn_type_ipv4
      then release_ipv4 apn paa.ipv4_address d
      else if paa.pdn_type == pdn_type_ipv4v6
      then release_ipv4 apn paa.ipv4_address d
      else if paa.pdn_type == pdn_type_ipv6
      then (true, d)
      else (false, d)
]

-- The overload with an address.
unfoldable pub release_paa_address : String → ℕ → PaaDynamic → Bool × PaaDynamic
unfolding release_ipv4
release_paa_address apn_label ipv4_address d = elim (find apn_label d.apns) [
  | none ↦ (false, d)
  | some apn ↦ release_ipv4 apn ipv4_address d
]
