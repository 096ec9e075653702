-- ===== src/Pgw/Bearers.antt =====
-- `pgw_eps_bearer` and the bearers of a `pgw_pdn_connection` in src/oai_spgwc/pgw_context.hpp and
-- src/oai_spgwc/pgw_context.cpp. The members of a bearer that nothing here reads (the traffic flow
-- template and the quality of service) are left out. Logging is left out.
pub mod Lookups
use openair_spgwc.Prelude.{
  ℕ, Bool, true, false, ◌&&◌, ◌||◌, Option, none, some, List, [], ◌∷◌, if◌then◌else◌, ◌==◌, ltb,
  leb,
}
use openair_spgwc.Prelude.StdMap.{nat_key, find, erase}

-- `fteid_t`; the IPv6 address is one number.
pub record Fteid : Type 0 where
  pub interface_type : ℕ
  pub v4 : Bool
  pub v6 : Bool
  pub teid_gre_key : ℕ
  pub ipv4_address : ℕ
  pub ipv6_address : ℕ

unfoldable pub no_fteid : Fteid
no_fteid = record {
  interface_type = 0;
  v4 = false;
  v6 = false;
  teid_gre_key = 0;
  ipv4_address = 0;
  ipv6_address = 0;
}

pub record EpsBearer : Type 0 where
  pub ebi : ℕ
  pub sgw_fteid_s5_s8_up : Fteid
  pub pgw_fteid_s5_s8_up : Fteid
  pub pdr_id_ul : ℕ
  pub pdr_id_dl : ℕ
  pub precedence : ℕ
  pub far_id_ul : Bool × ℕ
  pub far_id_dl : Bool × ℕ
  pub released : Bool

abbrev pub ebi_unassigned : ℕ
ebi_unassigned = 0

abbrev pub ebi_first : ℕ
ebi_first = 5

abbrev pub ebi_last : ℕ
ebi_last = 15

-- `clear`, which the constructor calls and `deallocate_ressources` too.
unfoldable pub clear_bearer : EpsBearer
unfolding no_fteid
clear_bearer = record {
  ebi = ebi_unassigned;
  sgw_fteid_s5_s8_up = no_fteid;
  pgw_fteid_s5_s8_up = no_fteid;
  pdr_id_ul = 0;
  pdr_id_dl = 0;
  precedence = 0;
  far_id_ul = (false, 0);
  far_id_dl = (false, 0);
  released = false;
}

unfoldable pub release_access_bearer : EpsBearer → EpsBearer
release_access_bearer b = record b { released = true }

-- `insert` of a `std::map`, whose iterators follow the order of the keys.
unfoldable pub insert_ordered : ℕ → EpsBearer → List (ℕ × EpsBearer) → List (ℕ × EpsBearer)
insert_ordered k b [] = (k, b) ∷ []
insert_ordered k b ((j, c) ∷ m) =
    let rest = insert_ordered k b m in
    if ltb k j then (k, b) ∷ (j, c) ∷ m else if j == k then (j, c) ∷ m else (j, c) ∷ rest

unfoldable pub add_eps_bearer : EpsBearer → List (ℕ × EpsBearer) → List (ℕ × EpsBearer)
unfolding insert_ordered
add_eps_bearer b m =
    if leb ebi_first b.ebi && leb b.ebi ebi_last then insert_ordered b.ebi b (erase b.ebi m) else m

-- The reference `eps_bearers[ebi]`: a bearer that is not there is put there.
unfoldable pub subscript_bearer : ℕ → List (ℕ × EpsBearer) → EpsBearer × List (ℕ × EpsBearer)
unfolding insert_ordered
subscript_bearer ebi m = elim (find ebi m) [
  | none ↦ (clear_bearer, insert_ordered ebi clear_bearer m)
  | some b ↦ (b, m)
]

-- `get_eps_bearer` and `find_eps_bearer` of a packet detection rule; `has_eps_bearer` gives the
-- identifier of the bearer that is found.
unfoldable pub find_eps_bearer : ℕ → List (ℕ × EpsBearer) → Option EpsBearer
find_eps_bearer pdr_id [] = none
find_eps_bearer pdr_id ((k, b) ∷ m) =
    let rest = find_eps_bearer pdr_id m in
    if b.pdr_id_ul == pdr_id || b.pdr_id_dl == pdr_id then some b else rest

unfoldable pub has_eps_bearer : ℕ → List (ℕ × EpsBearer) → Option ℕ
unfolding find_eps_bearer
has_eps_bearer pdr_id m = elim (find_eps_bearer pdr_id m) [ none ↦ none | some b ↦ some b.ebi ]

-- `get_eps_bearer` of a forwarding action rule.
unfoldable pub get_eps_bearer_far : ℕ → List (ℕ × EpsBearer) → Option EpsBearer
get_eps_bearer_far far_id [] = none
get_eps_bearer_far far_id ((k, b) ∷ m) =
    let rest = get_eps_bearer_far far_id m in
    if b.far_id_ul.0 && b.far_id_ul.1 == far_id || b.far_id_dl.0 && b.far_id_dl.1 == far_id
    then some b
    else rest

-- `get_eps_bearer` of an identifier.
unfoldable pub get_eps_bearer : ℕ → List (ℕ × EpsBearer) → Option EpsBearer
get_eps_bearer ebi [] = none
get_eps_bearer ebi ((k, b) ∷ m) =
    let rest = get_eps_bearer ebi m in if b.ebi == ebi then some b else rest

-- `remove_eps_bearer` of an identifier: a missing bearer is created, and all is erased.
unfoldable pub remove_eps_bearer : ℕ → List (ℕ × EpsBearer) → List (ℕ × EpsBearer)
unfolding subscript_bearer
remove_eps_bearer ebi m = erase ebi (subscript_bearer ebi m).1
