-- ===== src/Pgw/Requests/Unasked.antt =====
-- The address that src/oai_spgwc/pgw_context.cpp chooses for a create session request that names none.
use Prim.Native.String.{String}
use openair_spgwc.Prelude.{ℕ, ◌≡◌, true, false, none, some, arith}
use openair_spgwc.Paa.PaaDynamic.{Paa, PaaDynamic, pdn_type_ipv4, get_free_paa}
use openair_spgwc.Pgw.State.{PdnConnection, set}
use openair_spgwc.Pgw.Requests.{no_paa, request_accepted, assign_paa, choose_paa}
use openair_spgwc.Pgw.Requests.Entering.{get_free_paa_type, set_ipv4}

assigned_from_pool :
    (apn : String) (d d' : PaaDynamic) (cause : ℕ) (paa : Paa)
    → assign_paa apn none d ≡ some (true, cause, paa, d')
    → (get_free_paa apn no_paa d ≡ some (true, paa, d')) × (cause ≡ request_accepted)
unfolding assign_paa
assigned_from_pool apn d d' cause paa e = (ground arith, ground arith)

chosen_assigned :
    (t : ℕ) (apn : String) (d d' : PaaDynamic) (cause : ℕ) (paa : Paa)
    → choose_paa t apn none d ≡ some (true, cause, paa, d')
    → assign_paa apn none d ≡ some (true, cause, paa, d')
unfolding choose_paa
chosen_assigned t apn d d' cause paa e = ground arith

set_no_ipv6 :
    (paa : Paa) (c : PdnConnection) → paa.pdn_type ≡ pdn_type_ipv4 → (set paa c).ipv6 ≡ false
unfolding set
set_no_ipv6 paa c e = ground arith

-- If the request names no address, then whatever type of connection it is for, an address that is
-- chosen comes from the IPv4 pools: it is of the IPv4 type, the cause is that the request is
-- accepted, and the connection that is given it has an IPv4 address and no IPv6 address.
pub choose_paa_unasked :
    (t : ℕ) (apn : String) (d d' : PaaDynamic) (cause : ℕ) (paa : Paa) (c : PdnConnection)
    → choose_paa t apn none d ≡ some (true, cause, paa, d')
    → (paa.pdn_type ≡ pdn_type_ipv4)
      × (cause ≡ request_accepted)
      × (get_free_paa apn no_paa d ≡ some (true, paa, d'))
      × ((set paa c).ipv4 ≡ true)
      × ((set paa c).ipv4_address ≡ paa.ipv4_address)
      × ((set paa c).ipv6 ≡ false)
unfolding no_paa
choose_paa_unasked t apn d d' cause paa c e =
    let (free, accepted) =
      assigned_from_pool apn d d' cause paa (chosen_assigned t apn d d' cause paa e) in
    let type = get_free_paa_type apn no_paa paa true d d' free in
    let (ipv4, address) = set_ipv4 paa c type in
    (type, accepted, free, ipv4, address, set_no_ipv6 paa c type)
