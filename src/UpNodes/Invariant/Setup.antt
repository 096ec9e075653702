-- ===== src/UpNodes/Invariant/Setup.antt =====
-- The setup messages keep the invariant of src/oai_spgwc/PfcpUpNodes.cpp and
-- src/oai_spgwc/pgw_pfcp_association.cpp.
use mathlib.Core.Path.{subst}
use openair_spgwc.Prelude.{
  ℕ, ◌≡◌, ◌≢◌, ◌∙◌, refl, sym, inl, inr, Bool, true, false, Option, none, some, [], ◌∷◌, ◌==◌,
  arith, Option-cases, Bool-cases,
}
use openair_spgwc.Prelude.Words.{u32}
use openair_spgwc.Prelude.AtomicHashMap.{AtomicHashMap}
use openair_spgwc.Prelude.AtomicHashMap.Everywhere.{
  Everywhere, Everywhere-insert, Everywhere-write, insert-found, write-found,
}
use openair_spgwc.Prelude.StdMap.{nat_key}
use Prim.Native.String.{String}
use openair_spgwc.Timers.{timer_remove}
use openair_spgwc.UpNodes.NodeId.{NodeId, StdHash, hash_node_id}
use openair_spgwc.UpNodes.Associations.{
  Association, State, Config, Setup, setup_response, cause_request_accepted, restore_association,
  new_association,
}
use openair_spgwc.UpNodes.Registry.{
  get_association, restore_sx_sessions, trigger_heartbeat_request_procedure, monitor,
  register_association, register_known, register_new, updated_association, add_association_request,
  add_association_response,
}
use openair_spgwc.UpNodes.Invariant.{GoodAssociation}

module _ (H : AtomicHashMap) (h : StdHash) where
  open H use {find, insert, write}

  -- The associations are good, and the nodes are those of `s`.
  abbrev pub Kept : State H → State H → Type 0
  Kept s s' =
      Everywhere H (GoodAssociation h) s'.associations
      × (s'.up_nodes ≡ s.up_nodes)
      × (s'.pending_nodes ≡ s.pending_nodes)

  -- What `register_association` hands on.
  abbrev pub Ready : State H → Option (Bool × ℕ × Association) → Type 0
  Ready s none = Unit {0}
  Ready s (some (restores, k, a)) = GoodAssociation h k a × (find k s.associations ≢ none)

  get_association_good :
      (n : NodeId) (s : State H) (k : ℕ) (a : Association)
      → get_association H h n s ≡ some (k, a)
      → find k s.associations ≡ some a
  unfolding get_association
  get_association_good n s k a e =
      elim (Option-cases (find (u32 (hash_node_id h n)) s.associations)) [
        | inl x ↦ ground arith
        | inr (b, x) ↦ ground arith
      ]

  register_known-Kept :
      (id : Option String) (m : Setup) (k : ℕ) (a : Association) (s : State H)
      → find k s.associations ≡ some a
      → Everywhere H (GoodAssociation h) s.associations
      → let (todo, s') = register_known H id m k a s in Kept s s' × Ready s' todo
  unfolding register_known updated_association
  register_known-Kept id m k a s found all =
      let there : find k s.associations ≢ none = λ n. ground arith in
      let (key, hash, up) = all k a found in
      let a' = updated_association id m a in
      let todo : Option (Bool × ℕ × Association) = some (true, k, a') in
      let s' : State H = record s {
        itti = (timer_remove a.timer_heartbeat s.itti).1;
        associations = write k a' s.associations;
      } in
      let updated : Kept s s' × Ready s' todo = (
        (
          Everywhere-write H (GoodAssociation h) k a' s.associations there (key, hash, refl) all,
          refl,
          refl,
        ),
        ((key, hash, refl), write-found H k a' s.associations there),
      ) in
      elim (Bool-cases (a.recovery_time_stamp == m.recovery_time_stamp)) [
        | inl same ↦
            let run : register_known H id m k a s
                ≡ (none, record s { itti = (timer_remove a.timer_heartbeat s.itti).1 }) =
              ground arith in
            subst (λ r. Kept s r.1 × Ready r.1 r.0) (sym run) ((all, refl, refl), tt)
        | inr other ↦
            let run : register_known H id m k a s ≡ (todo, s') = ground arith in
            subst (λ r. Kept s r.1 × Ready r.1 r.0) (sym run) updated
      ]

  register_new-Kept :
      (address : ℕ) (id : Option String) (m : Setup) (s : State H)
      → Everywhere H (GoodAssociation h) s.associations
      → let (todo, s') = register_new H h address id m s in Kept s s' × Ready s' todo
  unfolding register_new new_association
  register_new-Kept address id m s all = (
    (Everywhere-insert H (GoodAssociation h) _ _ s.associations (refl, refl, refl) all, refl, refl),
    ((refl, refl, refl), insert-found H _ _ s.associations),
  )

  register_association-Kept :
      (address : ℕ) (id : Option String) (m : Setup) (s : State H)
      → Everywhere H (GoodAssociation h) s.associations
      → let (todo, s') = register_association H h address id m s in Kept s s' × Ready s' todo
  unfolding register_association
  register_association-Kept address id m s all =
      elim (Option-cases (get_association H h m.node_id s)) [
        | inl e ↦
            let run : register_association H h address id m s ≡ register_new H h address id m s =
              ground arith in
            subst (λ r. Kept s r.1 × Ready r.1 r.0) (sym run) (register_new-Kept address id m s all)
        | inr ((k, a), e) ↦
            let run : register_association H h address id m s ≡ register_known H id m k a s =
              ground arith in
            subst (λ r. Kept s r.1 × Ready r.1 r.0) (sym run)
              (register_known-Kept id m k a s (get_association_good m.node_id s k a e) all)
      ]

  restore_association-Kept :
      (k : ℕ) (a a' : Association) (s s' : State H)
      → restore_association H a s ≡ some (a', s')
      → GoodAssociation h k a
      → GoodAssociation h k a'
        × (s'.associations ≡ s.associations)
        × (s'.up_nodes ≡ s.up_nodes)
        × (s'.pending_nodes ≡ s.pending_nodes)
  unfolding restore_association
  restore_association-Kept k a a' s s' e good = ground arith

  restore_sx_sessions-Kept :
      (n : NodeId) (s s' : State H)
      → restore_sx_sessions H h n s ≡ some s'
      → Everywhere H (GoodAssociation h) s.associations
      → Kept s s'
  unfolding restore_sx_sessions
  restore_sx_sessions-Kept n s s' e all = elim (Option-cases (get_association H h n s)) [
    | inl x ↦ let same : s ≡ s' = ground arith in subst (Kept s) same (all, refl, refl)
    | inr ((k, a), x) ↦ elim (Option-cases (restore_association H a s)) [
      | inl y ↦ ground arith
      | inr ((a', s1), y) ↦
          let found = get_association_good n s k a x in
          let (good, same_a, same_u, same_p) =
            restore_association-Kept k a a' s s1 y (all k a found) in
          let there : find k s1.associations ≢ none = λ n. ground arith in
          let all1 = subst (Everywhere H (GoodAssociation h)) (sym same_a) all in
          let done : (record s1 { associations = write k a' s1.associations }) ≡ s' =
            ground arith in
          subst (Kept s) done (
            Everywhere-write H (GoodAssociation h) k a' s1.associations there good all1,
            same_u,
            same_p,
          )
    ]
  ]

  monitor-Kept :
      (c : Config) (now : ℕ) (n : NodeId) (triggers restores : Bool) (k : ℕ) (a : Association)
      (s s' : State H)
      → monitor H h c now n triggers restores k a s ≡ some s'
      → Ready s (some (restores, k, a))
      → Everywhere H (GoodAssociation h) s.associations
      → Kept s s'
  unfolding monitor trigger_heartbeat_request_procedure
  monitor-Kept c now n true restores k a s s' e (good, there) all =
      let (a', t) = trigger_heartbeat_request_procedure H c now a s in
      let s1 : State H = record t { associations = write k a' t.associations } in
      let all1 = Everywhere-write H (GoodAssociation h) k a' s.associations there good all in
      elim (Bool-cases restores) [
        | inl r ↦ restore_sx_sessions-Kept n s1 s' (ground arith) all1
        | inr r ↦ let same : s1 ≡ s' = ground arith in subst (Kept s) same (all1, refl, refl)
      ]
  monitor-Kept c now n false restores k a s s' e (good, there) all = elim (Bool-cases restores) [
    | inl r ↦ restore_sx_sessions-Kept n s s' (ground arith) all
    | inr r ↦ let same : s ≡ s' = ground arith in subst (Kept s) same (all, refl, refl)
  ]

  Kept-trans : (s t u : State H) → Kept s t → Kept t u → Kept s u
  Kept-trans s t u (all, up, pending) (all', up', pending') = (all', up' ∙ up, pending' ∙ pending)

  pub add_association_response-Kept :
      (c : Config) (now address : ℕ) (m : Setup) (s s' : State H) (ok : Bool)
      → add_association_response H h c now address m s ≡ some (ok, s')
      → Everywhere H (GoodAssociation h) s.associations
      → Kept s s'
  unfolding add_association_response
  add_association_response-Kept c now address m s s' ok e all =
      let m' : Setup = record m { user_plane_ip_resource_information = (false, []) } in
      go (register_association H h address none m' s)
        (register_association-Kept address none m' s all) refl
    where
      go :
          (r : Option (Bool × ℕ × Association) × State H)
          → Kept s r.1 × Ready r.1 r.0
          → register_association H h address none
              (record m { user_plane_ip_resource_information = (false, []) })
              s
            ≡ r
          → Kept s s'
      go (none, s1) (kept, ready) eq = let same : s1 ≡ s' = ground arith in subst (Kept s) same kept
      go (some (restores, k, a), s1) (kept, ready) eq =
          elim (Option-cases (monitor H h c now m.node_id true restores k a s1)) [
            | inl x ↦ ground arith
            | inr (s2, x) ↦
                let last = monitor-Kept c now m.node_id true restores k a s1 s2 x ready kept.0 in
                let same : s2 ≡ s' = ground arith in
                subst (Kept s) same (Kept-trans s s1 s2 kept last)
          ]

  pub add_association_request-Kept :
      (c : Config) (now address trxn_id : ℕ) (id : String) (m : Setup) (s s' : State H) (ok : Bool)
      → add_association_request H h c now address trxn_id id m s ≡ some (ok, s')
      → Everywhere H (GoodAssociation h) s.associations
      → Kept s s'
  unfolding add_association_request
  add_association_request-Kept c now address trxn_id id m s s' ok e all =
      go (register_association H h address (some id) m s)
        (register_association-Kept address (some id) m s all) refl
    where
      go :
          (r : Option (Bool × ℕ × Association) × State H)
          → Kept s r.1 × Ready r.1 r.0
          → register_association H h address (some id) m s ≡ r
          → Kept s s'
      go (none, s1) (kept, ready) eq = let same : s1 ≡ s' = ground arith in subst (Kept s) same kept
      go (some (restores, k, a), s1) (kept, ready) eq = elim (Option-cases c.pfcp_node_id) [
        | inl x ↦ let same : s1 ≡ s' = ground arith in subst (Kept s) same kept
        | inr (this, x) ↦
            let s2 : State H = record s1 {
              out = setup_response trxn_id cause_request_accepted this m.remote_endpoint ∷ s1.out;
            } in
            let triggers = a.is_trigger_heartbeat_request_procedure in
            elim (Option-cases (monitor H h c now m.node_id triggers restores k a s2)) [
              | inl y ↦ ground arith
              | inr (s3, y) ↦
                  let last =
                    monitor-Kept c now m.node_id triggers restores k a s2 s3 y ready kept.0 in
                  let same : s3 ≡ s' = ground arith in
                  subst (Kept s) same (Kept-trans s s2 s3 kept last)
            ]
      ]
