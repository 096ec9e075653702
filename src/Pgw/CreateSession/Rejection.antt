-- ===== src/Pgw/CreateSession/Rejection.antt =====
-- A create session request of src/oai_spgwc/pgw_context.cpp that is rejected because no user-plane node
-- can be selected.
use Prim.Native.String.{String}
use openair_spgwc.Prelude.{
  ℕ, ◌+◌, ◌^◌, ◌<◌, ◌≡◌, refl, Bool, true, false, none, some, List, [], ◌∷◌, ◌++◌, arith, length,
}
use openair_spgwc.Prelude.StdMap.{nat_key, find, assign, find-assign}
use openair_spgwc.Prelude.AtomicHashMap.{AtomicHashMap}
use openair_spgwc.UidGenerator.{UidGenerator, get_uid}
use openair_spgwc.Paa.PaaDynamic.{Paa, PaaDynamic, pdn_type_ipv4, get_free_paa, release_paa_address}
use openair_spgwc.UpNodes.NodeId.{NodeId, StdHash}
use openair_spgwc.UpNodes.Associations
use openair_spgwc.UpNodes.Registry.{select_up_node}
use openair_spgwc.Pgw.State.{PdnConnection, ApnContext, Context, State, set}
use openair_spgwc.Pgw.Contexts.{find_named_pdn_connection, insert_procedure, remove_procedure}
use openair_spgwc.Pgw.CreateSession.{run, establish, reject, conclude, create_session}
use openair_spgwc.Pgw.CreateSession.Entry.{create_session-Entry}
use openair_spgwc.Pgw.Requests.{CreateSession, Places, no_resources_available, no_paa, new_pdn}
use openair_spgwc.Pgw.Requests.Entering.{IsPlain, get_free_paa_type, set_ipv4}

module _ (H : AtomicHashMap) (h : StdHash) where
  establish_fails :
      (up_nodes : List String) (u : Associations.State H) (sent : Bool) (m : CreateSession)
      (l : Places) (p uid : ℕ) (g : UidGenerator) (n : NodeId) (paa : Paa) (c : PdnConnection)
      (x : Context) (s : State)
      → select_up_node H up_nodes u ≡ (false, n)
      → get_uid (2 ^ 64) s.uids ≡ some (uid, g)
      → (x' : Context) × (x'.apns ≡ x.apns)
        × (establish H h up_nodes u sent m l p true paa c x s
            ≡ some (
              some no_resources_available,
              x',
              record s { pdns = assign p (set paa c) s.pdns; uids = g },
            ))
  unfolding establish run insert_procedure remove_procedure
  establish_fails up_nodes u sent m l p uid g n paa c x s none_up taken = (
    remove_procedure l.procedure
        (insert_procedure l.procedure (record { trxn_id = uid; ppc = p }) x),
    refl,
    ground arith,
  )

-- What is left of a rejected session: the mobile is told that there are no resources, the address
-- goes back to the pools, and the new connection stays in its context with that address.
pub record Rejected (m : CreateSession) (l : Places) (paa : Paa) (d : PaaDynamic) (x : Context)
    (s : State) (x' : Context) (s' : State) : Type 0 where
  pub response :
      s'.responses
      ≡ (record {
        gtpc_tx_id = m.gtpc_tx_id;
        teid = m.sender_fteid_for_cp.teid_gre_key;
        cause_value = no_resources_available;
        paa = none;
      })
        ∷ s.responses
  pub released : s'.paa ≡ (release_paa_address m.apn paa.ipv4_address d).1
  pub kept :
      (q : PdnConnection) × (find l.pdn s'.pdns ≡ some q)
      × (q.ipv4 ≡ true)
      × (q.ipv4_address ≡ paa.ipv4_address)
  pub context :
      (c : ApnContext) × (find l.apn s'.apn_contexts ≡ some c)
      × (c.pdn_connections ≡ l.pdn ∷ [])
      × (c.apn_in_use ≡ m.apn)
  pub apns : x'.apns ≡ x.apns ++ (l.apn ∷ [])

module _ (H : AtomicHashMap) (h : StdHash) where
  -- A create session request for an IPv4 connection without an address of its own, whose access point
  -- name and tunnel endpoint are not those of a connection of the mobile: if identifiers and an
  -- address are free and no user-plane node can be selected, the request is rejected for lack of
  -- resources and the address goes back, but the connection stays in a new context, also if the
  -- mobile has one for the same name, and keeps the address as its own.
  pub create_session-Rejected :
      (up_nodes : List String) (u : Associations.State H) (sent : Bool) (m : CreateSession)
      (l : Places) (x : Context) (s : State) (ebi uid : ℕ) (g : UidGenerator) (n : NodeId)
      (paa : Paa) (d : PaaDynamic)
      → IsPlain m ebi
      → find_named_pdn_connection m.apn m.teid true x s ≡ none
      → s.teid_s5s8_cp_generator < 2 ^ 32
      → length s.s5s8cplteid + 1 < 2 ^ 32
      → get_uid (2 ^ 64) s.uids ≡ some (uid, g)
      → get_free_paa m.apn no_paa s.paa ≡ some (true, paa, d)
      → select_up_node H up_nodes u ≡ (false, n)
      → (x' : Context) × (s' : State) × (create_session H h up_nodes u sent m l x s ≡ some (x', s'))
        × Rejected m l paa d x s x' s'
  unfolding conclude reject no_paa
  create_session-Rejected up_nodes u sent m l x s ebi uid g n paa d plain new_apn low room taken
        free none_up =
      let (fteid, x0, s0, entry, enters) =
        create_session-Entry H h up_nodes u sent m l x s ebi paa d plain new_apn low room free in
      let c = new_pdn m ebi fteid in
      let start : get_uid (2 ^ 64) s0.uids ≡ some (uid, g) =
        (let same = entry.uids in ground arith) in
      let (x', same_apns, fails) =
        establish_fails H h up_nodes u sent m l l.pdn uid g n paa c x0 s0 none_up start in
      let s5 : State = record s0 { pdns = assign l.pdn (set paa c) s0.pdns; uids = g } in
      let at5 : find l.pdn s5.pdns ≡ some (set paa c) =
        let law = find-assign l.pdn l.pdn (set paa c) s0.pdns in ground arith in
      let s' =
        reject H h m m.sender_fteid_for_cp.teid_gre_key (some paa) m.apn pdn_type_ipv4
          no_resources_available s5 in
      let (ipv4, address) = set_ipv4 paa c (get_free_paa_type m.apn no_paa paa true s.paa d free) in
      (
        x',
        s',
        ground (arith, enters, fails),
        record {
          response = (let same = entry.responses in ground arith);
          released = (let same = entry.pools in ground arith);
          kept = (set paa c, at5, ipv4, address);
          context = entry.context;
          apns = (let same = entry.apns in ground arith);
        },
      )
