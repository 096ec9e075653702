-- ===== src/Pgw/CreateSession/Acceptance.antt =====
-- A create session request of src/oai_spgwc/pgw_context.cpp for which a session is established.
use Prim.Native.String.{String}
use openair_spgwc.Prelude.{
  ℕ, ◌+◌, ◌*◌, ◌%◌, ◌^◌, ◌<◌, ◌≤◌, ◌≡◌, ◌≢◌, refl, true, false, none, some, List, [], ◌∷◌, ◌++◌,
  arith, length,
}
use openair_spgwc.Prelude.StdMap.{nat_key, find, assign, erase, find-assign}
use openair_spgwc.Prelude.AtomicHashMap.{AtomicHashMap}
use openair_spgwc.UidGenerator.{UidGenerator, get_uid, contains, next_free}
use openair_spgwc.UidGenerator
use openair_spgwc.Paa.PaaDynamic.{Paa, PaaDynamic, get_free_paa}
use openair_spgwc.UpNodes.NodeId.{NodeId, StdHash}
use openair_spgwc.UpNodes.Associations
use openair_spgwc.UpNodes.Registry.{select_up_node, get_association}
use openair_spgwc.Pgw.Bearers.{
  Fteid, EpsBearer, ebi_first, ebi_last, clear_bearer, insert_ordered, add_eps_bearer,
}
use openair_spgwc.Pgw.State.{
  PdnConnection, ApnContext, Context, State, set, generate_seid, generate_far_id, generate_pdr_id,
}
use openair_spgwc.Pgw.Contexts.{find_named_pdn_connection, insert_procedure}
use openair_spgwc.Pgw.Requests.{CreateSession, Places, no_paa, add_bearers, new_pdn}
use openair_spgwc.Pgw.Requests.Entering.{IsPlain, get_free_paa_type, set_ipv4}
use openair_spgwc.Pgw.CreateSession.{run, establish, conclude, create_session}
use openair_spgwc.Pgw.CreateSession.Entry.{create_session-Entry}

-- The first rules of a new connection.
abbrev pub first_bearer : ℕ → EpsBearer
first_bearer ebi = record clear_bearer { far_id_ul = (true, 1); pdr_id_ul = 1; ebi = ebi }

-- A connection that has no bearer yet and has given no rule identifier.
record IsNew (c : PdnConnection) : Type 0 where
  eps_bearers : c.eps_bearers ≡ []
  far_ids : c.far_id_generator ≡ UidGenerator.init
  pdr_ids : c.pdr_id_generator ≡ UidGenerator.init

-- The generator that has given the identifier 1.
abbrev one_given : UidGenerator
one_given = record { uid_generator = 1; uid_generated = 1 ∷ [] }

first_far_id : get_uid (2 ^ 32) UidGenerator.init ≡ some (1, one_given)
unfolding get_uid UidGenerator.init next_free contains
first_far_id = refl

first_pdr_id : get_uid (2 ^ 16) UidGenerator.init ≡ some (1, one_given)
unfolding get_uid UidGenerator.init next_free contains
first_pdr_id = refl

add_bearers_one :
    (ebi : ℕ) (c : PdnConnection)
    → IsNew c
    → ebi_first ≤ ebi
    → ebi ≤ ebi_last
    → (q : PdnConnection) × (add_bearers (ebi ∷ []) c ≡ some q)
      × (q.eps_bearers ≡ (ebi, first_bearer ebi) ∷ [])
      × (q.seid ≡ c.seid)
      × (q.ipv4 ≡ c.ipv4)
      × (q.ipv4_address ≡ c.ipv4_address)
      × (q.pgw_fteid_s5_s8_cp ≡ c.pgw_fteid_s5_s8_cp)
unfolding add_bearers generate_far_id generate_pdr_id add_eps_bearer insert_ordered erase
    clear_bearer
add_bearers_one ebi c new ge le =
    let far = first_far_id in
    let pdr = first_pdr_id in
    let far_ids = new.far_ids in
    let pdr_ids = new.pdr_ids in
    let empty = new.eps_bearers in
    (
      record c {
        far_id_generator = one_given;
        pdr_id_generator = one_given;
        eps_bearers = (ebi, first_bearer ebi) ∷ [];
      },
      ground arith,
      refl,
      refl,
      refl,
      refl,
      refl,
    )

new_pdn-IsNew : (m : CreateSession) (ebi : ℕ) (fteid : Fteid) → IsNew (new_pdn m ebi fteid)
unfolding new_pdn
new_pdn-IsNew m ebi fteid = record { eps_bearers = refl; far_ids = refl; pdr_ids = refl }

new_pdn_fteid :
    (m : CreateSession) (ebi : ℕ) (fteid : Fteid) → (new_pdn m ebi fteid).pgw_fteid_s5_s8_cp ≡ fteid
unfolding new_pdn
new_pdn_fteid m ebi fteid = refl

-- The address and the session identifier leave the bearers and the generators as they are.
prepared-IsNew :
    (instance_ : ℕ) (paa : Paa) (c : PdnConnection)
    → IsNew c
    → IsNew (generate_seid instance_ (set paa c))
unfolding generate_seid set
prepared-IsNew instance_ paa c new =
    let far_ids = new.far_ids in
    let pdr_ids = new.pdr_ids in
    let empty = new.eps_bearers in
    record { eps_bearers = ground arith; far_ids = ground arith; pdr_ids = ground arith }

prepared_parts :
    (instance_ : ℕ) (paa : Paa) (c : PdnConnection)
    → let q = generate_seid instance_ (set paa c) in
      (q.seid ≡ instance_ % 2 ^ 32 * 2 ^ 32 + c.pgw_fteid_s5_s8_cp.teid_gre_key)
      × (q.ipv4 ≡ (set paa c).ipv4)
      × (q.ipv4_address ≡ (set paa c).ipv4_address)
      × (q.pgw_fteid_s5_s8_cp ≡ c.pgw_fteid_s5_s8_cp)
unfolding generate_seid set
prepared_parts instance_ paa c = (ground arith, refl, refl, ground arith)

-- What is left of an accepted session: no rejection is sent; a tunnel endpoint that was free leads to
-- the mobile; the connection has the address, the endpoint, a session identifier that leads to
-- the mobile too, and the bearer with its first rules; it stands in a new context; and its
-- procedure waits for the answer of the user-plane node.
pub record Accepted (m : CreateSession) (l : Places) (ebi uid : ℕ) (address : Paa) (d : PaaDynamic)
    (x : Context) (s : State) (x' : Context) (s' : State) : Type 0 where
  pub responses : s'.responses ≡ s.responses
  pub pools : s'.paa ≡ d
  pub connection :
      (q : PdnConnection) × (teid : ℕ) × (find l.pdn s'.pdns ≡ some q)
      × (q.pgw_fteid_s5_s8_cp.teid_gre_key ≡ teid)
      × (teid ≢ 0)
      × (contains teid s.s5s8cplteid ≡ false)
      × (find teid s'.s5s8lteid2pgw_context ≡ some l.context)
      × (q.ipv4 ≡ true)
      × (q.ipv4_address ≡ address.ipv4_address)
      × (q.seid ≡ l.instance_ % 2 ^ 32 * 2 ^ 32 + teid)
      × (find q.seid s'.seid2pgw_context ≡ some l.context)
      × (q.eps_bearers ≡ (ebi, first_bearer ebi) ∷ [])
  pub context :
      (c : ApnContext) × (find l.apn s'.apn_contexts ≡ some c)
      × (c.pdn_connections ≡ l.pdn ∷ [])
      × (c.apn_in_use ≡ m.apn)
  pub apns : x'.apns ≡ x.apns ++ (l.apn ∷ [])
  pub procedures :
      x'.pending_procedures
      ≡ x.pending_procedures ++ ((l.procedure, record { trxn_id = uid; ppc = l.pdn }) ∷ [])

module _ (H : AtomicHashMap) (h : StdHash) where
  -- The establishment with a node that is selected and a message that is sent.
  establish_runs :
      (up_nodes : List String) (u : Associations.State H) (m : CreateSession) (l : Places) (uid : ℕ)
      (g : UidGenerator) (n : NodeId) (a : ℕ × Associations.Association) (paa : Paa)
      (c q : PdnConnection) (x : Context) (s : State)
      → select_up_node H up_nodes u ≡ (true, n)
      → get_association H h n u ≡ some a
      → get_uid (2 ^ 64) s.uids ≡ some (uid, g)
      → add_bearers m.bearers (generate_seid l.instance_ (set paa c)) ≡ some q
      → establish H h up_nodes u true m l l.pdn true paa c x s
        ≡ some (
          none,
          insert_procedure l.procedure (record { trxn_id = uid; ppc = l.pdn }) x,
          record s {
            pdns = assign l.pdn q (assign l.pdn (set paa c) s.pdns);
            uids = g;
            seid2pgw_context = assign q.seid l.context s.seid2pgw_context;
          },
        )
  unfolding establish run
  establish_runs up_nodes u m l uid g n a paa c q x s selected known taken added =
      let law = find-assign l.pdn l.pdn (set paa c) s.pdns in ground arith

  -- A create session request for an IPv4 connection with one bearer, from 5 to 15, and without an
  -- address of its own, whose access point name and tunnel endpoint are not those of a
  -- connection of the mobile: if identifiers and an address are free, a user-plane node with an
  -- association is selected and the message to it is sent, then the session is set up as the
  -- record says, under a tunnel endpoint that was not in use, and nothing is rejected.
  pub create_session-Accepted :
      (up_nodes : List String) (u : Associations.State H) (m : CreateSession) (l : Places)
      (x : Context) (s : State) (ebi uid : ℕ) (g : UidGenerator) (n : NodeId)
      (a : ℕ × Associations.Association) (paa : Paa) (d : PaaDynamic)
      → IsPlain m ebi
      → m.bearers ≡ ebi ∷ []
      → ebi_first ≤ ebi
      → ebi ≤ ebi_last
      → find_named_pdn_connection m.apn m.teid true x s ≡ none
      → s.teid_s5s8_cp_generator < 2 ^ 32
      → length s.s5s8cplteid + 1 < 2 ^ 32
      → get_uid (2 ^ 64) s.uids ≡ some (uid, g)
      → get_free_paa m.apn no_paa s.paa ≡ some (true, paa, d)
      → select_up_node H up_nodes u ≡ (true, n)
      → get_association H h n u ≡ some a
      → (x' : Context) × (s' : State) × (create_session H h up_nodes u true m l x s ≡ some (x', s'))
        × Accepted m l ebi uid paa d x s x' s'
  unfolding conclude insert_procedure no_paa
  create_session-Accepted up_nodes u m l x s ebi uid g n a paa d plain one ge le new_apn low room
        taken free selected known =
      let (fteid, x0, s0, entry, enters) =
        create_session-Entry H h up_nodes u true m l x s ebi paa d plain new_apn low room free in
      let c = new_pdn m ebi fteid in
      let ready = prepared-IsNew l.instance_ paa c (new_pdn-IsNew m ebi fteid) in
      let (q, added, bearers, seid, ipv4, address, endpoint) =
        add_bearers_one ebi (generate_seid l.instance_ (set paa c)) ready ge le in
      let (seid_p, ipv4_p, address_p, endpoint_p) = prepared_parts l.instance_ paa c in
      let (ipv4_s, address_s) =
        set_ipv4 paa c (get_free_paa_type m.apn no_paa paa true s.paa d free) in
      let start : get_uid (2 ^ 64) s0.uids ≡ some (uid, g) =
        (let same = entry.uids in ground arith) in
      let rules : add_bearers m.bearers (generate_seid l.instance_ (set paa c)) ≡ some q =
        ground arith in
      let runs = establish_runs up_nodes u m l uid g n a paa c q x0 s0 selected known start rules in
      let s' : State = record s0 {
        pdns = assign l.pdn q (assign l.pdn (set paa c) s0.pdns);
        uids = g;
        seid2pgw_context = assign q.seid l.context s0.seid2pgw_context;
      } in
      let at : find l.pdn s'.pdns ≡ some q =
        let law = find-assign l.pdn l.pdn q (assign l.pdn (set paa c) s0.pdns) in ground arith in
      let own : q.pgw_fteid_s5_s8_cp.teid_gre_key ≡ fteid.teid_gre_key =
        let same = new_pdn_fteid m ebi fteid in ground arith in
      let own_seid : q.seid ≡ l.instance_ % 2 ^ 32 * 2 ^ 32 + fteid.teid_gre_key =
        let same = new_pdn_fteid m ebi fteid in ground arith in
      let seids : find q.seid s'.seid2pgw_context ≡ some l.context =
        let law = find-assign q.seid q.seid l.context s0.seid2pgw_context in ground arith in
      (
        insert_procedure l.procedure (record { trxn_id = uid; ppc = l.pdn }) x0,
        s',
        ground (arith, enters, runs),
        record {
          responses = entry.responses;
          pools = entry.pools;
          connection = (
            q,
            fteid.teid_gre_key,
            at,
            own,
            entry.positive,
            entry.fresh,
            entry.way,
            ground arith,
            ground arith,
            own_seid,
            seids,
            bearers,
          );
          context = entry.context;
          apns = entry.apns;
          procedures = (let same = entry.procedures in ground arith);
        },
      )
