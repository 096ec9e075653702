-- ===== src/UpNodes/Rounds.antt =====
-- One heartbeat of src/oai_spgwc/pgw_pfcp_association.cpp, from the timer that starts it to the answer.
use openair_spgwc.Prelude.{
  ℕ, ◌*◌, ◌/◌, ◌%◌, ◌^◌, ◌≡◌, ◌≢◌, refl, ap, inl, inr, true, none, some, List, [], ◌∷◌,
  if◌then◌else◌, ◌==◌, arith, Bool-cases,
}
use openair_spgwc.Prelude.Words.{u32}
use openair_spgwc.Prelude.StdMap.{Has}
use openair_spgwc.Prelude.AtomicHashMap.{AtomicHashMap}
use openair_spgwc.Prelude.AtomicHashMap.Everywhere.{Everywhere}
use openair_spgwc.Timers.{Itti, timer_setup, timer_remove}
use openair_spgwc.UpNodes.Node.{PfcpUpNode, notify_node_reachable}
use openair_spgwc.UidGenerator.{UidGenerator, get_uid}
use openair_spgwc.UpNodes.Associations.{
  Association, heartbeat_request, State, Config, task_pgwc_sx, trigger_heartbeat_request,
}
use openair_spgwc.UpNodes.Registry.{trigger_heartbeat_request_procedure}
use openair_spgwc.UpNodes.Nodes.{node_reachable}
use openair_spgwc.UpNodes.Heartbeats.{
  first_with_trxn, send_heartbeat_request, initiate_heartbeat_request, end_heartbeat,
  next_heartbeat, handle_receive_heartbeat_response,
}

first_with_trxn-found :
    (t k : ℕ) (a : Association) (m : List (ℕ × Association))
    → Has k a m
    → a.trxn_id_heartbeat ≡ t
    → ((j : ℕ) (b : Association) → Has j b m → b.trxn_id_heartbeat ≡ t → (j ≡ k) × (b ≡ a))
    → first_with_trxn t m ≡ some (k, a)
unfolding first_with_trxn
first_with_trxn-found t k a [] has e only = absurd has
first_with_trxn-found t k a ((j, b) ∷ m) has e only = elim (Bool-cases (b.trxn_id_heartbeat == t)) [
  | inl y ↦ let same = only j b (inl (refl, refl)) (ground arith) in ground (arith, same)
  | inr n ↦ elim has [
    | inl (x, y) ↦ ground (arith, ap (λ z. z.trxn_id_heartbeat) y)
    | inr later ↦
        let rest = first_with_trxn-found t k a m later e (λ i x q. only i x (inr q)) in
        ground (arith, rest)
  ]
]

-- The associations do not await an answer to the transaction.
abbrev pub Unawaited : (H : AtomicHashMap) → ℕ → State H → Type 0
Unawaited H t s = Everywhere H (λ k a. a.trxn_id_heartbeat ≢ t) s.associations

module _ (H : AtomicHashMap) (c : Config) where
  open H use {find, write, entries}

  -- The association while it waits for the answer.
  abbrev pub waiting : ℕ → Association → Association
  waiting uid a = record a { num_retries_timer_heartbeat = 0; trxn_id_heartbeat = uid }

  begins_round :
      (hash uid : ℕ) (g : UidGenerator) (a : Association) (s : State H)
      → find (u32 hash) s.associations ≡ some a
      → a.is_trigger_heartbeat_request_procedure ≡ true
      → get_uid (2 ^ 64) s.uids ≡ some (uid, g)
      → initiate_heartbeat_request H hash s
        ≡ some (record s {
          uids = g;
          out = heartbeat_request a.remote_endpoint uid ∷ s.out;
          associations = write (u32 hash) (waiting uid a) s.associations;
        })
  unfolding initiate_heartbeat_request send_heartbeat_request
  begins_round hash uid g a s found triggers taken = ground arith

  finds_round :
      (k uid : ℕ) (a : Association) (s s1 : State H)
      → find k s.associations ≡ some a
      → Unawaited H uid s
      → s1.associations ≡ write k (waiting uid a) s.associations
      → first_with_trxn uid (entries s1.associations) ≡ some (k, waiting uid a)
  finds_round k uid a s s1 found fresh e =
      let there : find k s.associations ≢ none = λ n. ground arith in
      let law : (j : ℕ)
          → find j s1.associations
            ≡ (if k == j then some (waiting uid a) else find j s.associations) =
        λ j. let w = H.find-write k j (waiting uid a) s.associations there in ground arith in
      first_with_trxn-found uid k (waiting uid a) (entries s1.associations)
        ((H.entries_iff k (waiting uid a) s1.associations).1 (ground (arith, law k))) refl
        (λ j b has awaited.
          let at = (H.entries_iff j b s1.associations).0 has in
          let w = law j in
          elim (Bool-cases (k == j)) [
            | inl y ↦ ground arith
            | inr n ↦ absurd (fresh j b (ground arith) awaited)
          ])

  -- The number of the new timer, and the timers with it and without the old one.
  abbrev pub restarted : ℕ → Association → State H → ℕ × Itti
  restarted now a s =
      let ms = c.association_heartbeat_period_ms in
      timer_setup now (ms / 1000) (ms % 1000 * 1000) task_pgwc_sx trigger_heartbeat_request
        a.hash_node_id (timer_remove a.timer_heartbeat s.itti).1

  -- The request is out, and the association of `k` waits for the answer.
  pub record Began (k uid : ℕ) (a : Association) (s s1 : State H) : Type 0 where
    pub out : s1.out ≡ heartbeat_request a.remote_endpoint uid ∷ s.out
    pub associations :
        (j : ℕ)
        → find j s1.associations ≡ (if k == j then some (waiting uid a) else find j s.associations)
    pub itti : s1.itti ≡ s.itti
    pub up_nodes : s1.up_nodes ≡ s.up_nodes

  -- After the round the association of `k` waits for nothing and has a new timer, its node has counted
  -- the answer, and nothing else of the gateway is changed.
  pub record Ended (k uid now : ℕ) (g : UidGenerator) (a : Association) (n : PfcpUpNode)
      (s s2 : State H) : Type 0 where
    pub out : s2.out ≡ heartbeat_request a.remote_endpoint uid ∷ s.out
    pub associations :
        (j : ℕ)
        → find j s2.associations ≡ (
            if k == j
            then some (record a {
              num_retries_timer_heartbeat = 0;
              trxn_id_heartbeat = 0;
              timer_heartbeat = (restarted now a s).0;
            })
            else find j s.associations)
    pub itti : s2.itti ≡ (restarted now a s).1
    pub up_nodes :
        (j : ℕ)
        → find j s2.up_nodes
          ≡ (if u32 a.hash_node_id == j then some (notify_node_reachable n) else find j s.up_nodes)
    pub uids : s2.uids ≡ g
    pub pending_associations : s2.pending_associations ≡ s.pending_associations
    pub pending_nodes : s2.pending_nodes ≡ s.pending_nodes

  -- An association that still may trigger heartbeats, of a node in use: if the generator gives an
  -- identifier that no association awaits an answer to, then, when the timer of the association
  -- expires, the gateway sends one heartbeat with it, and the association waits for the answer.
  -- The answer to that identifier with the known time stamp ends the round: the association awaits
  -- nothing, its old timer is removed and a new one set up, its node counts one more answer,
  -- and the other associations and nodes stay as they were.
  pub heartbeat_round :
      (hash uid now : ℕ) (g : UidGenerator) (a : Association) (n : PfcpUpNode) (s : State H)
      → find (u32 hash) s.associations ≡ some a
      → a.is_trigger_heartbeat_request_procedure ≡ true
      → find (u32 a.hash_node_id) s.up_nodes ≡ some n
      → get_uid (2 ^ 64) s.uids ≡ some (uid, g)
      → Unawaited H uid s
      → (s1 : State H) × (s2 : State H) × (initiate_heartbeat_request H hash s ≡ some s1)
        × Began (u32 hash) uid a s s1
        × (handle_receive_heartbeat_response H c now uid a.recovery_time_stamp s1 ≡ s2)
        × Ended (u32 hash) uid now g a n s s2
  unfolding handle_receive_heartbeat_response end_heartbeat next_heartbeat
      trigger_heartbeat_request_procedure node_reachable
  heartbeat_round hash uid now g a n s found triggers in_use taken fresh =
      let k = u32 hash in
      let s1 : State H = record s {
        uids = g;
        out = heartbeat_request a.remote_endpoint uid ∷ s.out;
        associations = write k (waiting uid a) s.associations;
      } in
      let at = finds_round k uid a s s1 found fresh refl in
      let (a', t) = end_heartbeat H k (waiting uid a) s1 in
      let t2 = next_heartbeat H c now k a' t in
      let (a'', t') = trigger_heartbeat_request_procedure H c now a' t in
      let there : find k s.associations ≢ none = λ e. ground arith in
      let w1 = λ (j : ℕ). H.find-write k j (waiting uid a) s.associations there in
      let w1k = w1 k in
      let there1 : find k s1.associations ≢ none = λ e. ground arith in
      let w2 = λ (j : ℕ). H.find-write k j a' s1.associations there1 in
      let w2k = w2 k in
      let there2 : find k t.associations ≢ none = λ e. ground arith in
      let w3 = λ (j : ℕ). H.find-write k j a'' t.associations there2 in
      let node : find (u32 a.hash_node_id) s.up_nodes ≢ none = λ e. ground arith in
      (
        s1,
        node_reachable H a.hash_node_id t2,
        begins_round hash uid g a s found triggers taken,
        record { out = refl; associations = w1; itti = refl; up_nodes = refl },
        ground arith,
        record {
          out = ground arith;
          associations = λ j. let x1 = w1 j in let x2 = w2 j in let x3 = w3 j in ground arith;
          itti = ground arith;
          up_nodes = λ j.
              let law =
                H.find-write (u32 a.hash_node_id) j (notify_node_reachable n) s.up_nodes node in
              ground arith;
          uids = ground arith;
          pending_associations = ground arith;
          pending_nodes = ground arith;
        },
      )
