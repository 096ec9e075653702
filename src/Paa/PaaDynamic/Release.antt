-- ===== src/Paa/PaaDynamic/Release.antt =====
-- An address that `get_free_paa` of src/oai_spgwc/pgw_paa_dynamic.hpp gave comes back through
-- `release_paa`.
use openair_spgwc.Prelude.{
  ℕ, ◌<◌, ◌≡◌, refl, Bool, true, false, some, [], ◌∷◌, if◌then◌else◌, ◌==◌, arith, sym, ◌∙◌,
}
use openair_spgwc.Prelude.StdMap.{nat_key, string_key, find, assign, find-assign}
use Prim.Native.String.{String}
use openair_spgwc.Paa.Ipv4Pool.{Ipv4Pool, alloc_address, free_address}
use openair_spgwc.Paa.Ipv4Pool.Used.{is_used}
use openair_spgwc.Paa.Ipv4Pool.Addresses.{
  IsPool, Allocated, exhausted, allocated, alloc_address-Allocated, address, free_address_frees,
}
use openair_spgwc.Paa.PaaDynamic.{
  Paa, pdn_type_ipv4, ApnDynamicPools, PaaDynamic, pool4, first_address, get_ipv4, get_free_paa,
  release_address, release_ipv4, release_paa,
}

-- The access point name has the one IPv4 pool `p`, under the number `id`.
pub record HasPool (label : String) (id : ℕ) (p : Ipv4Pool) (d : PaaDynamic) : Type 0 where
  pub apn : ApnDynamicPools
  pub known : find label d.apns ≡ some apn
  pub ids : apn.ipv4_pool_ids ≡ id ∷ []
  pub pool : find id d.ipv4_pools ≡ some p

get_free_paa_one :
    (label : String) (id : ℕ) (p : Ipv4Pool) (paa : Paa) (d : PaaDynamic)
    → HasPool label id p d
    → paa.pdn_type ≡ pdn_type_ipv4
    → get_free_paa label paa d ≡ (
        let (ok, a, p') = alloc_address p in
        some (
          ok,
          record paa { ipv4_address = a },
          record d { ipv4_pools = assign id p' d.ipv4_pools },
        ))
unfolding get_free_paa get_ipv4 first_address pool4
get_free_paa_one label id p paa d h v4 = ground (arith, h.known, h.ids, h.pool)

release_paa_one :
    (label : String) (id : ℕ) (p : Ipv4Pool) (paa : Paa) (d : PaaDynamic)
    → HasPool label id p d
    → paa.pdn_type ≡ pdn_type_ipv4
    → release_paa label paa d ≡ (
        let (ok, p') = free_address paa.ipv4_address p in
        (ok, record d { ipv4_pools = assign id p' d.ipv4_pools }))
unfolding release_paa release_ipv4 release_address pool4
release_paa_one label id p paa d h v4 = ground (arith, h.known, h.ids, h.pool)

-- If the only IPv4 pool of an access point name is well-formed and has a free address,
-- `get_free_paa` for an IPv4 session gives one, and `release_paa` takes it back: then the same
-- addresses of the pool are in use as before, and no other pool has changed.
pub get_free_paa-release_paa :
    (label : String) (id n : ℕ) (p : Ipv4Pool) (paa : Paa) (d : PaaDynamic)
    → HasPool label id p d
    → IsPool p
    → paa.pdn_type ≡ pdn_type_ipv4
    → n < p.num
    → is_used n p.alloc ≡ false
    → (paa' : Paa) × (d1 : PaaDynamic) × (d2 : PaaDynamic) × (p2 : Ipv4Pool) × (get_free_paa label
          paa d
        ≡ some (true, paa', d1))
      × (release_paa label paa' d1 ≡ (true, d2))
      × ((j : ℕ) → is_used j p2.alloc ≡ is_used j p.alloc)
      × ((k : ℕ) → find k d2.ipv4_pools ≡ (if id == k then some p2 else find k d.ipv4_pools))
get_free_paa-release_paa label id n p paa d h w v4 lt free =
    go (alloc_address p) (alloc_address-Allocated p w) (get_free_paa_one label id p paa d h v4)
  where
    go :
        (r : Bool × ℕ × Ipv4Pool)
        → Allocated p r
        → get_free_paa label paa d
          ≡ some (
            r.0,
            record paa { ipv4_address = r.1 },
            record d { ipv4_pools = assign id r.2 d.ipv4_pools },
          )
        → (paa' : Paa) × (d1 : PaaDynamic) × (d2 : PaaDynamic) × (p2 : Ipv4Pool) × (get_free_paa
              label paa d
            ≡ some (true, paa', d1))
          × (release_paa label paa' d1 ≡ (true, d2))
          × ((j : ℕ) → is_used j p2.alloc ≡ is_used j p.alloc)
          × ((k : ℕ) → find k d2.ipv4_pools ≡ (if id == k then some p2 else find k d.ipv4_pools))
    go r (exhausted all) e = absurd (ground (arith, all n lt))
    go r (allocated m p1 m_lt m_free first used start size w1) e =
        let d1 : PaaDynamic = record d { ipv4_pools = assign id p1 d.ipv4_pools } in
        let paa' : Paa = record paa { ipv4_address = address p m } in
        let (p2, freed, used2, w2) = free_address_frees p1 m w1 (omega (arith, size)) in
        let place : address p1 m ≡ address p m = unfold address in ground (arith, start) in
        let has : HasPool label id p1 d1 = record {
          apn = h.apn;
          known = h.known;
          ids = h.ids;
          pool = ground (arith, find-assign id id p1 d.ipv4_pools);
        } in
        let back = release_paa_one label id p1 paa' d1 has v4 in
        (
          paa',
          d1,
          record d1 { ipv4_pools = assign id p2 d1.ipv4_pools },
          p2,
          e,
          back ∙ rw (sym place) (rw freed refl),
          λ j. ground (arith, used j, used2 j),
          λ k. ground (
            arith,
            find-assign id k p2 (assign id p1 d.ipv4_pools),
            find-assign id k p1 d.ipv4_pools,
          ),
        )
