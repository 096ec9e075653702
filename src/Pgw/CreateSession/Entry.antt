-- ===== src/Pgw/CreateSession/Entry.antt =====
-- The part of a create session request of src/oai_spgwc/pgw_context.cpp before the procedure runs.
use Prim.Native.String.{String}
use openair_spgwc.Prelude.{
  ℕ, ◌+◌, ◌^◌, ◌<◌, ◌≡◌, ◌≢◌, refl, Bool, true, false, none, some, List, [], ◌∷◌, ◌++◌, ◌||◌, arith,
  length,
}
use openair_spgwc.Prelude.StdMap.{nat_key, find, assign, find-assign}
use openair_spgwc.Prelude.AtomicHashMap.{AtomicHashMap}
use openair_spgwc.UidGenerator.{contains}
use openair_spgwc.Paa.PaaDynamic.{Paa, PaaDynamic, get_free_paa, pdn_type_ipv4}
use openair_spgwc.UpNodes.NodeId.{StdHash}
use openair_spgwc.UpNodes.Associations
use openair_spgwc.Pgw.Bearers.{Fteid}
use openair_spgwc.Pgw.State.{ApnContext, Context, State, set_s5s8cpgw_fteid_2_pgw_context}
use openair_spgwc.Pgw.State.Teids.{generate_s5s8_cp_teid_total}
use openair_spgwc.Pgw.Contexts.{insert_apn, insert_pdn_connection, find_named_pdn_connection}
use openair_spgwc.Pgw.Requests.{
  CreateSession, Places, no_paa, s5_s8_pgw_gtp_c, new_pdn, generate_s5s8_cp_fteid, enter_apn,
}
use openair_spgwc.Pgw.Requests.Entering.{
  IsPlain, entered, enter_pdn_new, choose_paa_free, generate_s5s8_cp_fteid_rest, inserted,
  entered_parts, new_pdn_parts,
}
use openair_spgwc.Pgw.CreateSession.{run, establish, conclude, create_session}

-- The endpoint that is new, with its address.
generate_s5s8_cp_fteid_fresh :
    (addr4 : ℕ) (s : State)
    → s.teid_s5s8_cp_generator < 2 ^ 32
    → length s.s5s8cplteid + 1 < 2 ^ 32
    → (fteid : Fteid) × (s' : State) × (generate_s5s8_cp_fteid addr4 s ≡ some (fteid, s'))
      × (fteid.teid_gre_key ≢ 0)
      × (contains fteid.teid_gre_key s.s5s8cplteid ≡ false)
unfolding generate_s5s8_cp_fteid
generate_s5s8_cp_fteid_fresh addr4 s low room =
    let (teid, s', run, lt, positive, fresh, after) = generate_s5s8_cp_teid_total s low room in
    (
      record {
        interface_type = s5_s8_pgw_gtp_c;
        v4 = true;
        v6 = false;
        teid_gre_key = teid;
        ipv4_address = addr4;
        ipv6_address = 0;
      },
      s',
      ground arith,
      positive,
      fresh,
    )

-- The way from the new endpoint to the mobile stays there.
way_entered :
    (m : CreateSession) (l : Places) (a ebi : ℕ) (fteid : Fteid) (d : PaaDynamic) (s : State)
    → find fteid.teid_gre_key
        (insert_pdn_connection a l.pdn (entered m l ebi fteid d s)).s5s8lteid2pgw_context
      ≡ some l.context
unfolding entered set_s5s8cpgw_fteid_2_pgw_context insert_pdn_connection
way_entered m l a ebi fteid d s =
    let t = fteid.teid_gre_key in
    let law = find-assign t t l.context s.s5s8lteid2pgw_context in ground arith

-- The mobile and the store when the procedure starts: the connection is new, in a new context, and
-- has a tunnel endpoint that was free and leads to the mobile; the pools are `d`.
pub record Entry (m : CreateSession) (l : Places) (ebi : ℕ) (d : PaaDynamic) (x : Context)
    (s : State) (fteid : Fteid) (x0 : Context) (s0 : State) : Type 0 where
  pub there : find l.pdn s0.pdns ≡ some (new_pdn m ebi fteid)
  pub pools : s0.paa ≡ d
  pub responses : s0.responses ≡ s.responses
  pub uids : s0.uids ≡ s.uids
  pub positive : fteid.teid_gre_key ≢ 0
  pub fresh : contains fteid.teid_gre_key s.s5s8cplteid ≡ false
  pub way : find fteid.teid_gre_key s0.s5s8lteid2pgw_context ≡ some l.context
  pub context :
      (c : ApnContext) × (find l.apn s0.apn_contexts ≡ some c)
      × (c.pdn_connections ≡ l.pdn ∷ [])
      × (c.apn_in_use ≡ m.apn)
  pub apns : x0.apns ≡ x.apns ++ (l.apn ∷ [])
  pub procedures : x0.pending_procedures ≡ x.pending_procedures

module _ (H : AtomicHashMap) (h : StdHash) where
  -- For an IPv4 request of a new connection the handler makes the objects and then runs the procedure.
  pub create_session-Entry :
      (up_nodes : List String) (u : Associations.State H) (sent : Bool) (m : CreateSession)
      (l : Places) (x : Context) (s : State) (ebi : ℕ) (paa : Paa) (d : PaaDynamic)
      → IsPlain m ebi
      → find_named_pdn_connection m.apn m.teid true x s ≡ none
      → s.teid_s5s8_cp_generator < 2 ^ 32
      → length s.s5s8cplteid + 1 < 2 ^ 32
      → get_free_paa m.apn no_paa s.paa ≡ some (true, paa, d)
      → (fteid : Fteid) × (x0 : Context) × (s0 : State) × Entry m l ebi d x s fteid x0 s0
        × (create_session H h up_nodes u sent m l x s
            ≡ conclude H h m m.sender_fteid_for_cp.teid_gre_key
                (some paa)
                pdn_type_ipv4
                (establish H h up_nodes u sent m l l.pdn true paa (new_pdn m ebi fteid) x0 s0))
  unfolding create_session enter_apn insert_apn
  create_session-Entry up_nodes u sent m l x s ebi paa d plain new_apn low room free =
      let c0 : ApnContext = record {
        in_use = true;
        apn_in_use = m.apn;
        apn_ambr = elim m.ambr [ none ↦ (0, 0) | some r ↦ r ];
        pdn_connections = [];
      } in
      let x0 : Context = record x {
        imsi = elim m.imsi [ none ↦ x.imsi | some i ↦ i ];
        imsi_unauthenticated_indicator = x.imsi_unauthenticated_indicator || m.uimsi;
        apns = x.apns ++ (l.apn ∷ []);
      } in
      let s1 : State = record s { apn_contexts = assign l.apn c0 s.apn_contexts } in
      let (fteid, s2, made, positive, fresh) = generate_s5s8_cp_fteid_fresh l.addr4 s1 low room in
      let (paa2, apns2, responses2, uids2) = generate_s5s8_cp_fteid_rest l.addr4 s1 s2 fteid made in
      let t = entered m l ebi fteid s2.paa s2 in
      let (apns_t, paa_t, responses_t, uids_t, at_t) = entered_parts m l ebi fteid s2.paa s2 in
      let found : find l.apn t.apn_contexts ≡ some c0 =
        let law = find-assign l.apn l.apn c0 s.apn_contexts in ground arith in
      let (pdns3, paa3, responses3, uids3, at3) = inserted l.apn l.pdn c0 t found refl in
      let s3 = insert_pdn_connection l.apn l.pdn t in
      let way = way_entered m l l.apn ebi fteid s2.paa s2 in
      let entry = enter_pdn_new m l l.apn ebi fteid s1 s2 plain made in
      let c = new_pdn m ebi fteid in
      let (type, sender) = new_pdn_parts m ebi fteid plain in
      let there : find l.pdn s3.pdns ≡ some c = ground arith in
      let same_paa : s3.paa ≡ s.paa = ground arith in
      let chosen = choose_paa_free m ebi paa s.paa d plain free in
      let s0 : State = record s3 { paa = d } in
      let same_uids : s0.uids ≡ s.uids = ground arith in
      (
        fteid,
        x0,
        s0,
        record {
          there = there;
          pools = refl;
          responses = ground arith;
          uids = same_uids;
          positive = positive;
          fresh = fresh;
          way = way;
          context = (record c0 { pdn_connections = l.pdn ∷ [] }, at3, refl, refl);
          apns = refl;
          procedures = refl;
        },
        ground arith,
      )
