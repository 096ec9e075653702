-- ===== src/Pgw/CreateSession.antt =====
-- src/oai_spgwc/pgw_context.cpp: `pgw_context::handle_itti_msg` of a create session request, with
-- `session_establishment_procedure::run` of src/oai_spgwc/pgwc_procedure.cpp. The arguments are the
-- places of the objects that `new` makes and what `send_msg` returns. The protocol configuration
-- options are left out, since `process_pco_request` never asks for an allocation by DHCP. `none` is a
-- read past the end of a list or a search without end. Logging is left out.
pub mod Entry
pub mod Rejection
pub mod Acceptance
use Prim.Native.String.{String}
use openair_spgwc.Prelude.{
  ℕ, ◌+◌, ◌*◌, ◌%◌, ◌^◌, Bool, true, false, ◌&&◌, ◌||◌, not, Option, none, some, List, [], ◌∷◌,
  ◌++◌, if◌then◌else◌, ◌==◌, ◌>>=◌,
}
use openair_spgwc.Prelude.StdMap.{nat_key, find, assign, erase}
use openair_spgwc.Prelude.AtomicHashMap.{AtomicHashMap}
use openair_spgwc.UidGenerator.{get_uid}
use openair_spgwc.UidGenerator
use openair_spgwc.Paa.PaaDynamic.{
  Paa, PaaDynamic, pdn_type_ipv4, pdn_type_ipv6, pdn_type_ipv4v6, get_free_paa, release_paa_address,
}
use openair_spgwc.UpNodes.NodeId.{StdHash}
use openair_spgwc.UpNodes.Associations
use openair_spgwc.UpNodes.Registry.{select_up_node, get_association}
use openair_spgwc.Pgw.Bearers.{Fteid, EpsBearer, clear_bearer, add_eps_bearer}
use openair_spgwc.Pgw.State.{
  PdnConnection, ApnContext, Procedure, Context, CreateSessionResponse, State, pdn_type_non_ip,
  clear, set, generate_seid, generate_far_id, generate_pdr_id, generate_s5s8_cp_teid,
  set_s5s8cpgw_fteid_2_pgw_context,
}
use openair_spgwc.Pgw.Contexts.{
  insert_apn, insert_pdn_connection, find_named_pdn_connection, insert_procedure, remove_procedure,
}
use openair_spgwc.Pgw.Requests.{
  request_accepted, system_failure, no_resources_available, preferred_pdn_type_not_supported,
  all_dynamic_addresses_are_occupied, s5_s8_pgw_gtp_c, CreateSession, Places, no_paa,
  is_ip_assigned, assign_paa, choose_paa, add_bearers, new_pdn, generate_s5s8_cp_fteid, enter_apn,
  enter_pdn,
}

-- `session_establishment_procedure::run` on the connection `p`: the cause that it sets if it fails,
-- whether it fails, and the state.
module _ (H : AtomicHashMap) (h : StdHash) where
  unfoldable pub run :
      List String
      → Associations.State H
      → Bool
      → CreateSession
      → Places
      → ℕ
      → State
      → Option (Option ℕ × Bool × State)
  unfolding add_bearers
  run up_nodes u sent m l p s =
      let (selected, node) = select_up_node H up_nodes u in
      let known : Bool = elim (get_association H h node u) [ none ↦ false | some a ↦ true ] in
      let accepted : Option (Option ℕ × Bool × State) = elim (find p s.pdns) [
        | none ↦ none
        | some c ↦
            let c1 = generate_seid l.instance_ c in
            elim (add_bearers m.bearers c1) [
              | none ↦ none
              | some c2 ↦ some (
                none,
                not sent,
                record s {
                  pdns = assign p c2 s.pdns;
                  seid2pgw_context = assign c2.seid l.context s.seid2pgw_context;
                },
              )
            ]
      ] in
      if selected
      then (if known then accepted else some (some system_failure, true, s))
      else some (some no_resources_available, true, s)

  -- The part after the address is chosen: the procedure, and the rejection if the cause is not
  -- that the request is accepted. An address is then given back if the connection is of a
  -- kind with IPv4.
  unfoldable pub reject : CreateSession → ℕ → Option Paa → String → ℕ → ℕ → State → State
  reject m teid paa apn pdn_type cause s =
      let back : PaaDynamic = elim paa [
        | none ↦ s.paa
        | some w ↦
            if pdn_type == pdn_type_ipv4 || pdn_type == pdn_type_ipv4v6
            then (release_paa_address apn w.ipv4_address s.paa).1
            else s.paa
      ] in
      record s {
        paa = back;
        responses =
            (record { gtpc_tx_id = m.gtpc_tx_id; teid = teid; cause_value = cause; paa = none })
            ∷ s.responses;
      }

  -- The accepted case: the address is noted in the connection, and the procedure runs.
  unfoldable pub establish :
      List String
      → Associations.State H
      → Bool
      → CreateSession
      → Places
      → ℕ
      → Bool
      → Paa
      → PdnConnection
      → Context
      → State
      → Option (Option ℕ × Context × State)
  unfolding run set insert_procedure remove_procedure
  establish up_nodes u sent m l p set_paa paa c x s =
      let valid : Bool = elim m.paa [ none ↦ false | some w ↦ is_ip_assigned w ] in
      let wanted : Paa = elim m.paa [ none ↦ no_paa | some w ↦ w ] in
      let c1 = if set_paa then set paa c else if valid then set wanted c else c in
      let s1 : State = record s { pdns = assign p c1 s.pdns } in
      elim (get_uid (2 ^ 64) s1.uids) [
        | none ↦ none
        | some (uid, g) ↦
            let s2 : State = record s1 { uids = g } in
            let x1 = insert_procedure l.procedure (record { trxn_id = uid; ppc = p }) x in
            elim (run up_nodes u sent m l p s2) [
              | none ↦ none
              | some (cause, failed, s3) ↦
                  some (cause, (if failed then remove_procedure l.procedure x1 else x1), s3)
            ]
      ]

  -- What the handler does after the procedure has run.
  unfoldable pub conclude :
      CreateSession
      → ℕ
      → Option Paa
      → ℕ
      → Option (Option ℕ × Context × State)
      → Option (Context × State)
  unfolding reject
  conclude m teid paa pdn_type none = none
  conclude m teid paa pdn_type (some (none, x, s)) = some (x, s)
  conclude m teid paa pdn_type (some (some cause, x, s)) =
      some (x, reject m teid paa m.apn pdn_type cause s)

  -- The whole handler.
  unfoldable pub create_session :
      List String
      → Associations.State H
      → Bool
      → CreateSession
      → Places
      → Context
      → State
      → Option (Context × State)
  unfolding enter_apn enter_pdn choose_paa establish reject conclude find_named_pdn_connection
  create_session up_nodes u sent m l x s =
      let found = find_named_pdn_connection m.apn m.teid true x s in
      let x0 : Context = record x {
        imsi = elim m.imsi [ none ↦ x.imsi | some i ↦ i ];
        imsi_unauthenticated_indicator = x.imsi_unauthenticated_indicator || m.uimsi;
      } in
      let (a, x1, s1) = enter_apn m l found x0 s in
      elim (enter_pdn m l a found s1) [
        | none ↦ none
        | some (p, s2) ↦ elim (find p s2.pdns) [
          | none ↦ none
          | some c ↦ elim (choose_paa c.pdn_type m.apn m.paa s2.paa) [
            | none ↦ none
            | some (set_paa, cause, paa, d) ↦
                let s3 : State = record s2 { paa = d } in
                let teid = c.sgw_fteid_s5_s8_cp.teid_gre_key in
                if cause == request_accepted
                then conclude m teid (if set_paa then some paa else none) c.pdn_type
                    (establish up_nodes u sent m l p set_paa paa c x1 s3)
                else some (x1, reject m teid none m.apn c.pdn_type cause s3)
          ]
        ]
      ]
