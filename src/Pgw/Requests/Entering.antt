-- ===== src/Pgw/Requests/Entering.antt =====
-- The objects that a create session request of src/oai_spgwc/pgw_context.cpp makes for a new PDN
-- connection, in parts.
use Prim.Native.String.{String}
use openair_spgwc.Prelude.{ℕ, ◌≡◌, refl, Bool, true, none, some, List, [], ◌∷◌, arith}
use openair_spgwc.Prelude.StdMap.{nat_key, find, assign, find-assign}
use openair_spgwc.Paa.PaaDynamic.{
  Paa, PaaDynamic, pdn_type_ipv4, get_free_paa, get_ipv4, get_ipv6, get_ipv4v6,
}
use openair_spgwc.Pgw.Bearers.{Fteid}
use openair_spgwc.Pgw.State.{
  PdnConnection, ApnContext, State, set, generate_s5s8_cp_teid, set_s5s8cpgw_fteid_2_pgw_context,
}
use openair_spgwc.Pgw.Contexts.{insert_pdn_connection}
use openair_spgwc.Pgw.Requests.{
  CreateSession, Places, request_accepted, no_paa, assign_paa, choose_paa, new_pdn,
  generate_s5s8_cp_fteid, enter_pdn,
}

pub get_free_paa_type :
    (label : String) (paa paa' : Paa) (ok : Bool) (d d' : PaaDynamic)
    → get_free_paa label paa d ≡ some (ok, paa', d')
    → paa'.pdn_type ≡ paa.pdn_type
unfolding get_free_paa get_ipv4 get_ipv6 get_ipv4v6
get_free_paa_type label paa paa' ok d d' e = ground arith

-- The request is for an IPv4 connection without an address of its own.
pub record IsPlain (m : CreateSession) (ebi : ℕ) : Type 0 where
  pub bearer : (ebis : List ℕ) × (m.bearers ≡ ebi ∷ ebis)
  pub pdn_type : m.pdn_type ≡ some pdn_type_ipv4
  pub paa : m.paa ≡ none

-- The state after the context, the connection and the address are there.
unfoldable pub entered : CreateSession → Places → ℕ → Fteid → PaaDynamic → State → State
unfolding new_pdn set_s5s8cpgw_fteid_2_pgw_context
entered m l ebi fteid d s =
    let s1 = set_s5s8cpgw_fteid_2_pgw_context fteid l.context s in
    record s1 { pdns = assign l.pdn (new_pdn m ebi fteid) s1.pdns; paa = d }

pub enter_pdn_new :
    (m : CreateSession) (l : Places) (a ebi : ℕ) (fteid : Fteid) (s s1 : State)
    → IsPlain m ebi
    → generate_s5s8_cp_fteid l.addr4 s ≡ some (fteid, s1)
    → enter_pdn m l a none s
      ≡ some (l.pdn, insert_pdn_connection a l.pdn (entered m l ebi fteid s1.paa s1))
unfolding enter_pdn entered
enter_pdn_new m l a ebi fteid s s1 plain made = let bearers = plain.bearer.1 in ground arith

pub choose_paa_free :
    (m : CreateSession) (ebi : ℕ) (paa : Paa) (d d' : PaaDynamic)
    → IsPlain m ebi
    → get_free_paa m.apn no_paa d ≡ some (true, paa, d')
    → choose_paa pdn_type_ipv4 m.apn m.paa d ≡ some (true, request_accepted, paa, d')
unfolding choose_paa assign_paa
choose_paa_free m ebi paa d d' plain free = let absent = plain.paa in ground arith

pub generate_s5s8_cp_fteid_rest :
    (addr4 : ℕ) (s s' : State) (fteid : Fteid)
    → generate_s5s8_cp_fteid addr4 s ≡ some (fteid, s')
    → (s'.paa ≡ s.paa)
      × (s'.apn_contexts ≡ s.apn_contexts)
      × (s'.responses ≡ s.responses)
      × (s'.uids ≡ s.uids)
unfolding generate_s5s8_cp_fteid generate_s5s8_cp_teid
generate_s5s8_cp_fteid_rest addr4 s s' fteid e = ground arith

-- The new connection in its new context.
pub inserted :
    (a p : ℕ) (c : ApnContext) (s : State)
    → find a s.apn_contexts ≡ some c
    → c.pdn_connections ≡ []
    → let s' = insert_pdn_connection a p s in
      (s'.pdns ≡ s.pdns)
      × (s'.paa ≡ s.paa)
      × (s'.responses ≡ s.responses)
      × (s'.uids ≡ s.uids)
      × (find a s'.apn_contexts ≡ some (record c { pdn_connections = p ∷ [] }))
unfolding insert_pdn_connection
inserted a p c s e empty =
    let law = find-assign a a (record c { pdn_connections = p ∷ [] }) s.apn_contexts in
    (ground arith, ground arith, ground arith, ground arith, ground arith)

pub entered_parts :
    (m : CreateSession) (l : Places) (ebi : ℕ) (fteid : Fteid) (d : PaaDynamic) (s : State)
    → let t = entered m l ebi fteid d s in
      (t.apn_contexts ≡ s.apn_contexts)
      × (t.paa ≡ d)
      × (t.responses ≡ s.responses)
      × (t.uids ≡ s.uids)
      × (find l.pdn t.pdns ≡ some (new_pdn m ebi fteid))
unfolding entered set_s5s8cpgw_fteid_2_pgw_context
entered_parts m l ebi fteid d s =
    let law = find-assign l.pdn l.pdn (new_pdn m ebi fteid) s.pdns in
    (refl, refl, refl, refl, ground arith)

pub new_pdn_parts :
    (m : CreateSession) (ebi : ℕ) (fteid : Fteid)
    → IsPlain m ebi
    → ((new_pdn m ebi fteid).pdn_type ≡ pdn_type_ipv4)
      × ((new_pdn m ebi fteid).sgw_fteid_s5_s8_cp ≡ m.sender_fteid_for_cp)
unfolding new_pdn
new_pdn_parts m ebi fteid plain = let given = plain.pdn_type in (ground arith, refl)

pub set_ipv4 :
    (paa : Paa) (c : PdnConnection)
    → paa.pdn_type ≡ pdn_type_ipv4
    → ((set paa c).ipv4 ≡ true) × ((set paa c).ipv4_address ≡ paa.ipv4_address)
unfolding set
set_ipv4 paa c e = (ground arith, ground arith)
