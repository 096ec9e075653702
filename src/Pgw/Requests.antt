-- ===== src/Pgw/Requests.antt =====
-- What src/oai_spgwc/pgw_context.cpp reads of a create session request, the address that it chooses, and
-- the objects that it makes. The arguments are the places of the objects that `new` makes.
pub mod Entering
pub mod Unasked
use Prim.Native.String.{String}
use openair_spgwc.Prelude.{
  ℕ, ◌+◌, ◌*◌, ◌%◌, ◌^◌, Bool, true, false, ◌&&◌, ◌||◌, not, Option, none, some, List, [], ◌∷◌,
  ◌++◌, if◌then◌else◌, ◌==◌, ◌>>=◌,
}
use openair_spgwc.Prelude.StdMap.{nat_key, find, assign, erase}
use openair_spgwc.Prelude.AtomicHashMap.{AtomicHashMap}
use openair_spgwc.UidGenerator.{get_uid}
use openair_spgwc.UidGenerator
use openair_spgwc.Paa.PaaDynamic.{
  Paa, PaaDynamic, pdn_type_ipv4, pdn_type_ipv6, pdn_type_ipv4v6, get_free_paa, release_paa_address,
}
use openair_spgwc.UpNodes.NodeId.{StdHash}
use openair_spgwc.UpNodes.Associations
use openair_spgwc.UpNodes.Registry.{select_up_node, get_association}
use openair_spgwc.Pgw.Bearers.{Fteid, EpsBearer, clear_bearer, add_eps_bearer}
use openair_spgwc.Pgw.State.{
  PdnConnection, ApnContext, Procedure, Context, CreateSessionResponse, State, pdn_type_non_ip,
  clear, set, generate_seid, generate_far_id, generate_pdr_id, generate_s5s8_cp_teid,
  set_s5s8cpgw_fteid_2_pgw_context,
}
use openair_spgwc.Pgw.Contexts.{
  insert_apn, insert_pdn_connection, find_named_pdn_connection, insert_procedure, remove_procedure,
}

abbrev pub request_accepted : ℕ
request_accepted = 16

abbrev pub system_failure : ℕ
system_failure = 72

abbrev pub no_resources_available : ℕ
no_resources_available = 73

abbrev pub preferred_pdn_type_not_supported : ℕ
preferred_pdn_type_not_supported = 83

abbrev pub all_dynamic_addresses_are_occupied : ℕ
all_dynamic_addresses_are_occupied = 84

abbrev pub s5_s8_pgw_gtp_c : ℕ
s5_s8_pgw_gtp_c = 7

-- What is read of the request. The IMSI counts if the request has one.
pub record CreateSession : Type 0 where
  pub gtpc_tx_id : ℕ
  pub teid : ℕ
  pub apn : String
  pub imsi : Option ℕ
  pub uimsi : Bool
  pub ambr : Option (ℕ × ℕ)
  pub pdn_type : Option ℕ
  pub paa : Option Paa
  pub sender_fteid_for_cp : Fteid
  pub bearers : List ℕ

-- What is read of the configuration, and where `new` puts its objects.
pub record Places : Type 0 where
  pub instance_ : ℕ
  pub addr4 : ℕ
  pub context : ℕ
  pub apn : ℕ
  pub pdn : ℕ
  pub procedure : ℕ

unfoldable pub no_paa : Paa
no_paa = record { pdn_type = pdn_type_ipv4; ipv4_address = 0; ipv6_address = 0 }

unfoldable pub is_ip_assigned : Paa → Bool
is_ip_assigned paa =
    if paa.pdn_type == pdn_type_ipv4
    then not (paa.ipv4_address == 0)
    else if paa.pdn_type == pdn_type_ipv6
    then not (paa.ipv6_address == 0)
    else if paa.pdn_type == pdn_type_ipv4v6
    then not (paa.ipv4_address == 0) || not (paa.ipv6_address == 0)
    else false

-- The address of the three kinds of IP connection: whether it is set, the cause, the address and
-- the pools. `wanted` is the address of the request.
unfoldable pub assign_paa : String → Option Paa → PaaDynamic → Option (Bool × ℕ × Paa × PaaDynamic)
unfolding no_paa is_ip_assigned
assign_paa apn wanted d =
    let paa : Paa = elim wanted [ none ↦ no_paa | some w ↦ w ] in
    let given : Bool = elim wanted [ none ↦ false | some w ↦ is_ip_assigned w ] in
    let dynamic : Option (Bool × ℕ × Paa × PaaDynamic) = elim (get_free_paa apn paa d) [
      | none ↦ none
      | some (success, paa', d') ↦ some (
        success,
        if success then request_accepted else all_dynamic_addresses_are_occupied,
        paa',
        d',
      )
    ] in
    if given then some (true, request_accepted, paa, d) else dynamic

-- The `switch` on the type of the connection.
unfoldable pub choose_paa :
    ℕ → String → Option Paa → PaaDynamic → Option (Bool × ℕ × Paa × PaaDynamic)
unfolding no_paa assign_paa
choose_paa pdn_type apn wanted d =
    if pdn_type == pdn_type_ipv4 || pdn_type == pdn_type_ipv6 || pdn_type == pdn_type_ipv4v6
    then assign_paa apn wanted d
    else some (false, preferred_pdn_type_not_supported, no_paa, d)

-- The loop of `run` over the bearers: each gets a forwarding and a detection rule for the uplink.
unfoldable pub add_bearers : List ℕ → PdnConnection → Option PdnConnection
add_bearers [] p = some p
add_bearers (ebi ∷ ebis) p = do
  (far_id, p1) ← generate_far_id p
  (pdr_id, p2) ← generate_pdr_id p1
  add_bearers ebis (record p2 {
    eps_bearers =
        add_eps_bearer
          (record clear_bearer { far_id_ul = (true, far_id); pdr_id_ul = pdr_id; ebi = ebi })
          p2.eps_bearers;
  })

-- A new connection for the first bearer `ebi` of the request.
unfoldable pub new_pdn : CreateSession → ℕ → Fteid → PdnConnection
new_pdn m ebi fteid = record {
  ipv4 = false;
  ipv6 = false;
  ipv4_address = 0;
  ipv6_address = 0;
  pdn_type = elim m.pdn_type [ none ↦ pdn_type_ipv4 | some t ↦ t ];
  sgw_fteid_s5_s8_cp = m.sender_fteid_for_cp;
  pgw_fteid_s5_s8_cp = fteid;
  default_bearer = ebi;
  seid = 0;
  eps_bearers = [];
  released = false;
  pdr_id_generator = UidGenerator.init;
  far_id_generator = UidGenerator.init;
}

-- `generate_s5s8_cp_fteid`
unfoldable pub generate_s5s8_cp_fteid : ℕ → State → Option (Fteid × State)
generate_s5s8_cp_fteid addr4 s = do
  (teid, s') ← generate_s5s8_cp_teid s
  some (
    record {
      interface_type = s5_s8_pgw_gtp_c;
      v4 = true;
      v6 = false;
      teid_gre_key = teid;
      ipv4_address = addr4;
      ipv6_address = 0;
    },
    s',
  )

-- The context of the connection that was found, or a new one, also if the mobile has one for the same
-- access point name.
unfoldable pub enter_apn :
    CreateSession → Places → Option (ℕ × ℕ) → Context → State → ℕ × Context × State
unfolding insert_apn
enter_apn m l (some (a, p)) x s = (a, x, s)
enter_apn m l none x s =
    let c : ApnContext = record {
      in_use = true;
      apn_in_use = m.apn;
      apn_ambr = elim m.ambr [ none ↦ (0, 0) | some r ↦ r ];
      pdn_connections = [];
    } in
    (l.apn, insert_apn l.apn x, record s { apn_contexts = assign l.apn c s.apn_contexts })

-- The connection that was found, or a new one.
unfoldable pub enter_pdn : CreateSession → Places → ℕ → Option (ℕ × ℕ) → State → Option (ℕ × State)
unfolding generate_s5s8_cp_fteid new_pdn insert_pdn_connection
enter_pdn m l a (some (a', p)) s = some (p, s)
enter_pdn m l a none s = elim m.bearers [
  | [] ↦ none
  | ebi ∷ ebis ↦ elim (generate_s5s8_cp_fteid l.addr4 s) [
    | none ↦ none
    | some (fteid, s1) ↦
        let s2 = set_s5s8cpgw_fteid_2_pgw_context fteid l.context s1 in
        let s3 : State = record s2 { pdns = assign l.pdn (new_pdn m ebi fteid) s2.pdns } in
        some (l.pdn, insert_pdn_connection a l.pdn s3)
  ]
]
