-- ===== src/Paa/PaaDynamic/Single.antt =====
-- The pools of an access point name in src/oai_spgwc/pgw_paa_dynamic.hpp: never more than one, so
-- that no mobile gets addresses of both kinds.
use openair_spgwc.Prelude.{
  ℕ, ◌≡◌, ◌⊎◌, ◌↔◌, inl, inr, refl, Bool, true, false, none, some, [], ◌∷◌, arith, Option-cases,
  Bool-cases,
}
use mathlib.Core.Path.{subst}
use openair_spgwc.Prelude.StdMap.{nat_key, string_key, find, assign, find-assign}
use Prim.Native.String.{String}
use openair_spgwc.Paa.Ipv4Pool.{alloc_address}
use openair_spgwc.Paa.PaaDynamic.{
  Paa, pdn_type_ipv4v6, ApnDynamicPools, PaaDynamic, init, add_ipv4_pool, add_ipv6_pool,
  add_ipv4_pool_id, add_ipv6_pool_id, no_ids, pool4, every_address, first_prefix, get_ipv4,
  get_ipv6, get_ipv4v6, get_free_paa, release_ipv4, release_paa, release_paa_address,
}

-- One pool, of one kind.
abbrev pub IsOne : ApnDynamicPools → Type 0
IsOne a =
    ((id : ℕ) × (a.ipv4_pool_ids ≡ id ∷ []) × (a.ipv6_pool_ids ≡ []))
    ⊎ ((id : ℕ) × (a.ipv4_pool_ids ≡ []) × (a.ipv6_pool_ids ≡ id ∷ []))

pub IsSingle : PaaDynamic → Type 0
IsSingle d = (label : String) (a : ApnDynamicPools) → find label d.apns ≡ some a → IsOne a

-- What the configuration and the sessions do.
pub data Step (d : PaaDynamic) : PaaDynamic → Type 0 where
  adds_ipv4 : (label : String) (id first range : ℕ) → Step d (add_ipv4_pool label id first range d)
  adds_ipv6 : (label : String) (id prefix len : ℕ) → Step d (add_ipv6_pool label id prefix len d)
  gets :
      (label : String) (paa paa' : Paa) (ok : Bool) {d' : PaaDynamic}
      → get_free_paa label paa d ≡ some (ok, paa', d')
      → Step d d'
  releases : (label : String) (paa : Paa) → Step d (release_paa label paa d).1
  releases_address : (label : String) (a : ℕ) → Step d (release_paa_address label a d).1

pub data Reach (d : PaaDynamic) : PaaDynamic → Type 0 where
  here : Reach d d
  next : {e f : PaaDynamic} → Reach d e → Step e f → Reach d f

assign-IsOne :
    (label l : String) (v a : ApnDynamicPools) (d : PaaDynamic)
    → IsOne v
    → IsSingle d
    → find l (assign label v d.apns) ≡ some a
    → IsOne a
unfolding IsSingle
assign-IsOne label l v a d one h e = elim (Bool-cases (string_key.beq label l)) [
  | inl t ↦ let same : v ≡ a = ground (find-assign label l v d.apns, arith) in subst IsOne same one
  | inr f ↦
      let old : find l d.apns ≡ some a = ground (find-assign label l v d.apns, arith) in h l a old
]

add_ipv4_pool_apns :
    (label : String) (id first range : ℕ) (d : PaaDynamic)
    → let d' = add_ipv4_pool label id first range d in
      (d'.apns ≡ d.apns)
      ⊎ (d'.apns ≡ assign label (record { ipv4_pool_ids = id ∷ []; ipv6_pool_ids = [] }) d.apns)
unfolding add_ipv4_pool add_ipv4_pool_id no_ids
add_ipv4_pool_apns label id first range d = ground arith

add_ipv6_pool_apns :
    (label : String) (id prefix len : ℕ) (d : PaaDynamic)
    → let d' = add_ipv6_pool label id prefix len d in
      (d'.apns ≡ d.apns)
      ⊎ (d'.apns ≡ assign label (record { ipv4_pool_ids = []; ipv6_pool_ids = id ∷ [] }) d.apns)
unfolding add_ipv6_pool add_ipv6_pool_id no_ids
add_ipv6_pool_apns label id prefix len d = ground arith

get_free_paa_apns :
    (label : String) (paa paa' : Paa) (ok : Bool) (d d' : PaaDynamic)
    → get_free_paa label paa d ≡ some (ok, paa', d')
    → d'.apns ≡ d.apns
unfolding get_free_paa get_ipv4 get_ipv6 get_ipv4v6
get_free_paa_apns label paa paa' ok d d' e = ground arith

release_paa_apns :
    (label : String) (paa : Paa) (d : PaaDynamic) → (release_paa label paa d).1.apns ≡ d.apns
unfolding release_paa release_ipv4
release_paa_apns label paa d = ground arith

release_paa_address_apns :
    (label : String) (a : ℕ) (d : PaaDynamic) → (release_paa_address label a d).1.apns ≡ d.apns
unfolding release_paa_address release_ipv4
release_paa_address_apns label a d = ground arith

IsSingle-apns : (d d' : PaaDynamic) → d'.apns ≡ d.apns → IsSingle d → IsSingle d'
unfolding IsSingle
IsSingle-apns d d' e h l a f = h l a (subst (λ m. find l m ≡ some a) e f)

Step-IsSingle : {d d' : PaaDynamic} → Step d d' → IsSingle d → IsSingle d'
unfolding IsSingle
Step-IsSingle {d} (adds_ipv4 label id first range) h =
    elim (add_ipv4_pool_apns label id first range d) [
      | inl e ↦ IsSingle-apns d (add_ipv4_pool label id first range d) e h
      | inr e ↦ λ l a f.
          assign-IsOne label l _ a d (inl (id, refl, refl)) h (subst (λ m. find l m ≡ some a) e f)
    ]
Step-IsSingle {d} (adds_ipv6 label id prefix len) h =
    elim (add_ipv6_pool_apns label id prefix len d) [
      | inl e ↦ IsSingle-apns d (add_ipv6_pool label id prefix len d) e h
      | inr e ↦ λ l a f.
          assign-IsOne label l _ a d (inr (id, refl, refl)) h (subst (λ m. find l m ≡ some a) e f)
    ]
Step-IsSingle {d} {d'} (gets label paa paa' ok e) h =
    IsSingle-apns d d' (get_free_paa_apns label paa paa' ok d d' e) h
Step-IsSingle {d} {d'} (releases label paa) h = IsSingle-apns d d' (release_paa_apns label paa d) h
Step-IsSingle {d} {d'} (releases_address label a) h =
    IsSingle-apns d d' (release_paa_address_apns label a d) h

-- Whatever pools are configured and however addresses come and go, every access point name that is
-- known has exactly one pool.
pub reachable_IsSingle : {d : PaaDynamic} → Reach init d → IsSingle d
unfolding init find IsSingle
reachable_IsSingle here = λ l a e. cc
reachable_IsSingle (next r st) = Step-IsSingle st (reachable_IsSingle r)

get_ipv4v6_ipv4 :
    (id : ℕ) (a : ApnDynamicPools) (paa : Paa) (d : PaaDynamic)
    → a.ipv4_pool_ids ≡ id ∷ []
    → a.ipv6_pool_ids ≡ []
    → (((alloc_address (pool4 id d.ipv4_pools)).0 ≡ true) × (get_ipv4v6 a paa d ≡ none))
      ⊎ (((alloc_address (pool4 id d.ipv4_pools)).0 ≡ false)
          × ((paa' : Paa) × (d' : PaaDynamic) × (get_ipv4v6 a paa d ≡ some (false, paa', d'))))
unfolding get_ipv4v6 get_ipv6 every_address first_prefix
get_ipv4v6_ipv4 id a paa d four six = ground arith

get_ipv4v6_ipv6 :
    (a : ApnDynamicPools) (paa : Paa) (d : PaaDynamic)
    → a.ipv4_pool_ids ≡ []
    → get_ipv4v6 a paa d ≡ some (false, paa, d)
unfolding get_ipv4v6 every_address
get_ipv4v6_ipv6 a paa d four = ground arith

get_free_paa_ipv4v6 :
    (label : String) (a : ApnDynamicPools) (paa : Paa) (d : PaaDynamic)
    → paa.pdn_type ≡ pdn_type_ipv4v6
    → find label d.apns ≡ some a
    → get_free_paa label paa d ≡ get_ipv4v6 a paa d
unfolding get_free_paa
get_free_paa_ipv4v6 label a paa d v6 e = ground arith

get_free_paa_unknown :
    (label : String) (paa : Paa) (d : PaaDynamic)
    → find label d.apns ≡ none
    → get_free_paa label paa d ≡ some (false, paa, d)
unfolding get_free_paa
get_free_paa_unknown label paa d e = ground arith

-- In every state that the pools can reach, a request for a dual-stack address never succeeds. It
-- reads past the end of a list exactly if the access point name has an IPv4 pool with a free
-- address, and is refused otherwise.
pub ipv4v6_never_given :
    (label : String) (paa : Paa) {d : PaaDynamic}
    → Reach init d
    → paa.pdn_type ≡ pdn_type_ipv4v6
    → ((get_free_paa label paa d ≡ none) ↔ (
        (a : ApnDynamicPools) × (id : ℕ) × (find label d.apns ≡ some a)
        × (a.ipv4_pool_ids ≡ id ∷ [])
        × ((alloc_address (pool4 id d.ipv4_pools)).0 ≡ true)))
      × ((get_free_paa label paa d ≡ none)
          ⊎ ((paa' : Paa) × (d' : PaaDynamic) × (get_free_paa label paa d
                ≡ some (false, paa', d'))))
unfolding IsSingle
ipv4v6_never_given label paa {d} r v6 = elim (Option-cases (find label d.apns)) [
  | inl e ↦ let run = get_free_paa_unknown label paa d e in (ground arith, ground arith)
  | inr (a, e) ↦
      let run = get_free_paa_ipv4v6 label a paa d v6 e in
      elim (reachable_IsSingle r label a e) [
        | inl (id, four, six) ↦
            let pool = get_ipv4v6_ipv4 id a paa d four six in (ground arith, ground arith)
        | inr (id, four, six) ↦
            let pool = get_ipv4v6_ipv6 a paa d four in (ground arith, ground arith)
      ]
]
