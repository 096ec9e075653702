-- ===== src/Examples/Pgw.antt =====
-- A packet gateway of src/oai_spgwc/pgw_context.cpp with one mobile, whose context for "internet" has
-- one PDN connection with the address 10.0.0.16.
use openair_spgwc.Prelude.{
  ℕ, ◌^◌, ◌<◌, ◌≡◌, ◌≢◌, refl, true, false, none, some, [], ◌∷◌, if◌then◌else◌, ◌==◌, arith,
}
use openair_spgwc.Prelude.Words.{bswap32}
use openair_spgwc.Prelude.Bitset
use openair_spgwc.Prelude.StdMap.{nat_key, string_key, find, assign, erase, firsts}
use openair_spgwc.UidGenerator.{UidGenerator, contains, get_uid}
use openair_spgwc.UidGenerator
use openair_spgwc.Paa.Ipv4Pool.{alloc_address, alloc_free_bit, alloc_free_bit_from, subscript}
use openair_spgwc.Paa.PaaDynamic.{Paa, PaaDynamic, get_free_paa, get_ipv4, first_address, pool4}
use openair_spgwc.UpNodes.NodeId.{no_node_id, hash_node_id}
use openair_spgwc.UpNodes.Associations
use openair_spgwc.UpNodes.Registry.{
  get_association, select_up_node, all_associated, associated, lowest,
}
use openair_spgwc.Pgw.Bearers.{Fteid, EpsBearer, add_eps_bearer, remove_eps_bearer}
use openair_spgwc.Pgw.Bearers.Lookups.{IsBearers, add_eps_bearer-remove_eps_bearer}
use openair_spgwc.Pgw.State.{PdnConnection, ApnContext, Context, State, generate_s5s8_cp_teid}
use openair_spgwc.Pgw.State.Teids.{generate_s5s8_cp_teid_total}
use openair_spgwc.Pgw.Contexts.{
  holds, delete_pdn_connection, find_named_pdn_connection, find_apn_context, find_in_apn,
  connections_of,
}
use openair_spgwc.Pgw.Contexts.Deletion.{Deleted, delete_pdn_connection-Deleted}
use openair_spgwc.Pgw.Contexts.Freeing.{NoZero}
use openair_spgwc.Pgw.CreateSession.{create_session}
use openair_spgwc.Pgw.Requests.{CreateSession, Places, no_paa}
use openair_spgwc.Pgw.CreateSession.Rejection.{Rejected, create_session-Rejected}
use openair_spgwc.Pgw.Requests.Entering.{IsPlain}
use openair_spgwc.Examples.Maps.{list_map}
use openair_spgwc.Pgw.Requests.Unasked.{choose_paa_unasked}
use openair_spgwc.Pgw.Requests.{choose_paa, assign_paa, request_accepted}
use openair_spgwc.Paa.PaaDynamic.{pdn_type_ipv4}
use openair_spgwc.Pgw.State.{set}
use openair_spgwc.Examples.UpNodes.{hashes, upf, upf_association, in_use}
use openair_spgwc.Pgw.CreateSession.Acceptance.{Accepted, create_session-Accepted}

abbrev fteid : ℕ → Fteid
fteid teid = record {
  interface_type = 7;
  v4 = true;
  v6 = false;
  teid_gre_key = teid;
  ipv4_address = 9;
  ipv6_address = 0;
}

abbrev bearer : ℕ → EpsBearer
bearer k = record {
  ebi = k;
  sgw_fteid_s5_s8_up = fteid 3;
  pgw_fteid_s5_s8_up = fteid 4;
  pdr_id_ul = 1;
  pdr_id_dl = 2;
  precedence = 0;
  far_id_ul = (true, 1);
  far_id_dl = (true, 2);
  released = false;
}

abbrev connection : PdnConnection
connection = record {
  ipv4 = true;
  ipv6 = false;
  ipv4_address = 0x1000000A;
  ipv6_address = 0;
  pdn_type = 1;
  sgw_fteid_s5_s8_cp = fteid 77;
  pgw_fteid_s5_s8_cp = fteid 1;
  default_bearer = 5;
  seid = 1;
  eps_bearers = (5, bearer 5) ∷ (7, bearer 7) ∷ [];
  released = false;
  pdr_id_generator = record { uid_generator = 0; uid_generated = [] };
  far_id_generator = record { uid_generator = 0; uid_generated = [] };
}

abbrev internet : ApnContext
internet = record {
  in_use = true;
  apn_in_use = "internet";
  apn_ambr = (1, 1);
  pdn_connections = 40 ∷ [];
}

abbrev mobile : Context
mobile = record {
  imsi = 1;
  imsi_unauthenticated_indicator = false;
  apns = 30 ∷ [];
  pending_procedures = [];
}

-- The pool of "internet" has two addresses, and the words are its free bits.
abbrev pools_with : ℕ → PaaDynamic
pools_with word = record {
  ipv4_pools = (0, record { start = 0x1000000A; num = 2; alloc = (0, word) ∷ [] }) ∷ [];
  ipv6_pools = [];
  apns = ("internet", record { ipv4_pool_ids = 0 ∷ []; ipv6_pool_ids = [] }) ∷ [];
}

abbrev connected : State
connected = record {
  pdns = (40, connection) ∷ [];
  apn_contexts = (30, internet) ∷ [];
  teid_s5s8_cp_generator = 1;
  s5s8cplteid = 1 ∷ [];
  s5s8lteid2pgw_context = (1, 20) ∷ [];
  seid2pgw_context = (1, 20) ∷ [];
  paa = pools_with 0xFFFFFFFD;
  uids = record { uid_generator = 0; uid_generated = [] };
  responses = [];
}

generate_s5s8_cp_teid_total_example :
    (teid : ℕ) × (s' : State) × (generate_s5s8_cp_teid connected ≡ some (teid, s'))
    × (teid < 2 ^ 32)
    × (teid ≢ 0)
    × (contains teid connected.s5s8cplteid ≡ false)
    × ((v : ℕ)
        → contains v s'.s5s8cplteid
          ≡ (if teid == v then true else contains v connected.s5s8cplteid))
generate_s5s8_cp_teid_total_example =
    generate_s5s8_cp_teid_total connected (omega arith) (omega arith)

eps_bearers-IsBearers : IsBearers connection.eps_bearers
eps_bearers-IsBearers = (omega arith, omega arith, refl, (omega arith, omega arith, refl, tt))

add_eps_bearer-remove_eps_bearer_example :
    IsBearers (add_eps_bearer (bearer 6) connection.eps_bearers)
    × IsBearers (remove_eps_bearer 7 connection.eps_bearers)
    × ((j : ℕ)
        → find j (add_eps_bearer (bearer 6) connection.eps_bearers)
          ≡ (if 6 == j then some (bearer 6) else find j connection.eps_bearers))
    × ((j : ℕ)
        → find j (remove_eps_bearer 7 connection.eps_bearers)
          ≡ (if 7 == j then none else find j connection.eps_bearers))
add_eps_bearer-remove_eps_bearer_example =
    add_eps_bearer-remove_eps_bearer (bearer 6) 7 connection.eps_bearers eps_bearers-IsBearers

context_found : find 30 connected.apn_contexts ≡ some internet
unfolding find
context_found = refl

connection_found : find 40 connected.pdns ≡ some connection
unfolding find
connection_found = refl

connection_held : holds 40 internet.pdn_connections ≡ true
unfolding holds
connection_held = refl

connected-NoZero : NoZero connected
unfolding find contains
connected-NoZero = record { teids = refl; contexts = refl }

delete_pdn_connection-Deleted_example :
    Deleted 30 40 internet connection mobile connected
      (delete_pdn_connection (some 30) (some 40) mobile connected)
delete_pdn_connection-Deleted_example =
    delete_pdn_connection-Deleted 30 40 internet connection mobile connected context_found
      connection_found connection_held connected-NoZero

-- A second session of the mobile for the same access point name.
abbrev request : CreateSession
request = record {
  gtpc_tx_id = 12;
  teid = 0;
  apn = "internet";
  imsi = some 1;
  uimsi = false;
  ambr = none;
  pdn_type = some 1;
  paa = none;
  sender_fteid_for_cp = fteid 78;
  bearers = 6 ∷ [];
}

abbrev places : Places
places = record { instance_ = 0; addr4 = 9; context = 20; apn = 31; pdn = 41; procedure = 50 }

-- No user-plane node is associated.
abbrev no_nodes : Associations.State list_map
no_nodes = record {
  associations = [];
  pending_associations = [];
  up_nodes = [];
  pending_nodes = [];
  itti = record {
    timer_id = 0;
    timers = [];
    current_timer = record { id = 0; task_id = 0; time_out = 0; arg1_user = 0; arg2_user = 0 };
    null = record { id = 0; task_id = 0; time_out = 0; arg1_user = 0; arg2_user = 0 };
  };
  uids = record { uid_generator = 0; uid_generated = [] };
  out = [];
}

abbrev one_uid : UidGenerator
one_uid = record { uid_generator = 1; uid_generated = 1 ∷ [] }

abbrev address : Paa
address = record { pdn_type = 1; ipv4_address = 0x1100000A; ipv6_address = 0 }

request-IsPlain : IsPlain request 6
request-IsPlain = record { bearer = ([], refl); pdn_type = refl; paa = refl }

session_unknown : find_named_pdn_connection "internet" 0 true mobile connected ≡ none
unfolding find_named_pdn_connection find_apn_context find_in_apn connections_of find
session_unknown = refl

uid_free : get_uid (2 ^ 64) connected.uids ≡ some (1, one_uid)
unfolding get_uid UidGenerator.next_free contains
uid_free = refl

address_free :
    get_free_paa "internet" no_paa connected.paa ≡ some (true, address, pools_with 0xFFFFFFFF)
unfolding no_paa get_free_paa get_ipv4 first_address pool4 find assign alloc_address alloc_free_bit
    alloc_free_bit_from subscript Bitset.first_clear Bitset.set Bitset.test bswap32
address_free = refl

none_selected : select_up_node list_map ("upf" ∷ []) no_nodes ≡ (false, no_node_id)
unfolding select_up_node all_associated associated lowest firsts
none_selected = refl

create_session-Rejected_example :
    (x' : Context) × (s' : State) × (create_session list_map hashes
        ("upf" ∷ [])
        no_nodes
        true
        request
        places
        mobile
        connected
      ≡ some (x', s'))
    × Rejected request places address (pools_with 0xFFFFFFFF) mobile connected x' s'
create_session-Rejected_example =
    create_session-Rejected list_map hashes ("upf" ∷ []) no_nodes true request places mobile
      connected 6 1 one_uid no_node_id address (pools_with 0xFFFFFFFF) request-IsPlain
      session_unknown (omega arith) (omega arith) uid_free address_free none_selected

upf_selected : select_up_node list_map ("upf" ∷ []) in_use ≡ (true, upf)
unfolding select_up_node all_associated associated lowest firsts erase
upf_selected = refl

upf_known : get_association list_map hashes upf in_use ≡ some (7, upf_association)
unfolding get_association find hash_node_id
upf_known = refl

create_session-Accepted_example :
    (x' : Context) × (s' : State) × (create_session list_map hashes
        ("upf" ∷ [])
        in_use
        true
        request
        places
        mobile
        connected
      ≡ some (x', s'))
    × Accepted request places 6 1 address (pools_with 0xFFFFFFFF) mobile connected x' s'
create_session-Accepted_example =
    create_session-Accepted list_map hashes ("upf" ∷ []) in_use request places mobile connected 6 1
      one_uid upf (7, upf_association) address (pools_with 0xFFFFFFFF) request-IsPlain refl
      (omega arith) (omega arith) session_unknown (omega arith) (omega arith) uid_free address_free
      upf_selected upf_known

-- A request for an IPv6 connection.
ipv6_chosen :
    choose_paa 2 "internet" none (pools_with 0xFFFFFFFD)
    ≡ some (true, 16, address, pools_with 0xFFFFFFFF)
unfolding choose_paa assign_paa no_paa get_free_paa get_ipv4 first_address pool4 find assign
    alloc_address alloc_free_bit alloc_free_bit_from subscript Bitset.first_clear Bitset.set
    Bitset.test bswap32
ipv6_chosen = refl

choose_paa_unasked_example :
    (address.pdn_type ≡ pdn_type_ipv4)
    × (16 ≡ request_accepted)
    × (get_free_paa "internet" no_paa (pools_with 0xFFFFFFFD)
        ≡ some (true, address, pools_with 0xFFFFFFFF))
    × ((set address connection).ipv4 ≡ true)
    × ((set address connection).ipv4_address ≡ address.ipv4_address)
    × ((set address connection).ipv6 ≡ false)
choose_paa_unasked_example =
    choose_paa_unasked 2 "internet" (pools_with 0xFFFFFFFD) (pools_with 0xFFFFFFFF) 16 address
      connection ipv6_chosen
