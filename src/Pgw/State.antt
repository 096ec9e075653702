-- ===== src/Pgw/State.antt =====
-- The objects of src/oai_spgwc/pgw_context.hpp and the tables of src/oai_spgwc/pgw_app.hpp. A shared
-- pointer is a number, the place of its object in the store; `none` is the null pointer. Members that
-- nothing here reads, locks and logging are left out.
pub mod Teids
use Prim.Native.String.{String}
use openair_spgwc.Prelude.{
  ℕ, zero, suc, ◌+◌, ◌*◌, ◌%◌, ◌^◌, Bool, true, false, ◌&&◌, ◌||◌, Option, none, some, List, [],
  ◌∷◌, if◌then◌else◌, ◌==◌, length, ◌>>=◌,
}
use openair_spgwc.Prelude.StdMap.{nat_key, find, assign, erase}
use openair_spgwc.UidGenerator.{UidGenerator, contains, remove, get_uid, free_uid}
use openair_spgwc.UidGenerator
use openair_spgwc.Paa.PaaDynamic.{
  PaaDynamic, Paa, pdn_type_ipv4, pdn_type_ipv6, pdn_type_ipv4v6, release_paa_address,
}
use openair_spgwc.Pgw.Bearers.{Fteid, no_fteid, EpsBearer, ebi_unassigned}

abbrev pub pdn_type_non_ip : ℕ
pdn_type_non_ip = 4

pub record PdnConnection : Type 0 where
  pub ipv4 : Bool
  pub ipv6 : Bool
  pub ipv4_address : ℕ
  pub ipv6_address : ℕ
  pub pdn_type : ℕ
  pub sgw_fteid_s5_s8_cp : Fteid
  pub pgw_fteid_s5_s8_cp : Fteid
  pub default_bearer : ℕ
  pub seid : ℕ
  pub eps_bearers : List (ℕ × EpsBearer)
  pub released : Bool
  pub pdr_id_generator : UidGenerator
  pub far_id_generator : UidGenerator

pub record ApnContext : Type 0 where
  pub in_use : Bool
  pub apn_in_use : String
  pub apn_ambr : ℕ × ℕ
  pub pdn_connections : List ℕ

-- A procedure and the connection that it is about.
pub record Procedure : Type 0 where
  pub trxn_id : ℕ
  pub ppc : ℕ

-- `pgw_context`; the pending procedures stand beside the places of their objects.
pub record Context : Type 0 where
  pub imsi : ℕ
  pub imsi_unauthenticated_indicator : Bool
  pub apns : List ℕ
  pub pending_procedures : List (ℕ × Procedure)

-- What is read of an `itti_s5s8_create_session_response`.
pub record CreateSessionResponse : Type 0 where
  pub gtpc_tx_id : ℕ
  pub teid : ℕ
  pub cause_value : ℕ
  pub paa : Option Paa

-- The store of objects, the tables of `pgw_app`, the pools of addresses, the generator of
-- transaction identifiers and the rejections that were sent, newest first.
pub record State : Type 0 where
  pub pdns : List (ℕ × PdnConnection)
  pub apn_contexts : List (ℕ × ApnContext)
  pub teid_s5s8_cp_generator : ℕ
  pub s5s8cplteid : List ℕ
  pub s5s8lteid2pgw_context : List (ℕ × ℕ)
  pub seid2pgw_context : List (ℕ × ℕ)
  pub paa : PaaDynamic
  pub uids : UidGenerator
  pub responses : List CreateSessionResponse

-- `pgw_pdn_connection::clear`; the generators of rule identifiers go on.
unfoldable pub clear : PdnConnection → PdnConnection
unfolding no_fteid
clear p = record p {
  ipv4 = false;
  ipv6 = false;
  ipv4_address = 0;
  ipv6_address = 0;
  pdn_type = pdn_type_ipv4;
  sgw_fteid_s5_s8_cp = no_fteid;
  pgw_fteid_s5_s8_cp = no_fteid;
  default_bearer = ebi_unassigned;
  seid = 0;
  eps_bearers = [];
  released = false;
}

unfoldable pub set : Paa → PdnConnection → PdnConnection
set paa p =
    if paa.pdn_type == pdn_type_ipv4
    then record p { ipv4 = true; ipv6 = false; ipv4_address = paa.ipv4_address }
    else if paa.pdn_type == pdn_type_ipv6
    then record p { ipv4 = false; ipv6 = true; ipv6_address = paa.ipv6_address }
    else if paa.pdn_type == pdn_type_ipv4v6
    then (record p {
      ipv4 = true;
      ipv6 = true;
      ipv4_address = paa.ipv4_address;
      ipv6_address = paa.ipv6_address;
    })
    else if paa.pdn_type == pdn_type_non_ip
    then record p { ipv4 = false; ipv6 = false }
    else p

-- `pgw_config::instance_` is the argument; the shift and the "or" cannot overlap.
unfoldable pub generate_seid : ℕ → PdnConnection → PdnConnection
generate_seid instance_ p = record p {
  seid = instance_ % 2 ^ 32 * 2 ^ 32 + p.pgw_fteid_s5_s8_cp.teid_gre_key;
}

unfoldable pub generate_far_id : PdnConnection → Option (ℕ × PdnConnection)
generate_far_id p = do
  (id, g) ← get_uid (2 ^ 32) p.far_id_generator
  some (id, record p { far_id_generator = g })

unfoldable pub release_far_id : ℕ → PdnConnection → PdnConnection
release_far_id id p = record p { far_id_generator = free_uid id p.far_id_generator }

unfoldable pub generate_pdr_id : PdnConnection → Option (ℕ × PdnConnection)
generate_pdr_id p = do
  (id, g) ← get_uid (2 ^ 16) p.pdr_id_generator
  some (id, record p { pdr_id_generator = g })

unfoldable pub release_pdr_id : ℕ → PdnConnection → PdnConnection
release_pdr_id id p = record p { pdr_id_generator = free_uid id p.pdr_id_generator }

-- The loop of `generate_s5s8_cp_teid`, on fuel; `none` stands for a search without end.
unfoldable pub next_teid : ℕ → ℕ → List ℕ → Option ℕ
next_teid zero teid used = none
next_teid (suc fuel) teid used =
    let rest = next_teid fuel ((teid + 1) % 2 ^ 32) used in
    if contains teid used || teid == 0 then rest else some teid

unfoldable pub generate_s5s8_cp_teid : State → Option (ℕ × State)
unfolding next_teid
generate_s5s8_cp_teid s = do
  teid ←
      next_teid (suc (suc (length s.s5s8cplteid))) ((s.teid_s5s8_cp_generator + 1) % 2 ^ 32)
        s.s5s8cplteid
  some (teid, record s { teid_s5s8_cp_generator = teid; s5s8cplteid = teid ∷ s.s5s8cplteid })

unfoldable pub free_s5s8_cp_fteid : Fteid → State → State
free_s5s8_cp_fteid f s = record s {
  s5s8lteid2pgw_context = erase f.teid_gre_key s.s5s8lteid2pgw_context;
  s5s8cplteid = remove f.teid_gre_key s.s5s8cplteid;
}

unfoldable pub set_s5s8cpgw_fteid_2_pgw_context : Fteid → ℕ → State → State
set_s5s8cpgw_fteid_2_pgw_context f context s = record s {
  s5s8lteid2pgw_context = assign f.teid_gre_key context s.s5s8lteid2pgw_context;
}
