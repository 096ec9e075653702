-- ===== src/UpNodes/Faults/Unselected.antt =====
-- A node that the gateway itself asked for an association, in src/oai_spgwc/pgw_pfcp_association.cpp:
-- its association has no name, and is never selected.
use mathlib.Core.Path.{subst}
use Prim.Native.String.{String}
use openair_spgwc.Prelude.{
  ℕ, ◌≡◌, ◌≢◌, refl, sym, inl, inr, true, false, none, some, List, [], arith,
}
use openair_spgwc.Prelude.AtomicHashMap.{AtomicHashMap}
use openair_spgwc.Prelude.AtomicHashMap.Everywhere.{
  Everywhere, Everywhere-insert, Everywhere-write, insert-found, write-found,
}
use openair_spgwc.Prelude.Words.{u32}
use openair_spgwc.UpNodes.Node.{assoc_setup_state}
use openair_spgwc.UpNodes.NodeId.{NodeId, StdHash, no_node_id, hash_node_id}
use openair_spgwc.UpNodes.Associations.{Association, State, Config, Setup, new_association}
use openair_spgwc.UpNodes.Registry.{
  get_association, register_association, register_new, trigger_heartbeat_request_procedure, monitor,
  add_association_response, select_up_node,
}
use openair_spgwc.UpNodes.Registry.Selection.{On, Fits, Selected, select_up_node-Selected}

module _ (H : AtomicHashMap) (h : StdHash) (c : Config) where
  open H use {find, insert, write}

  -- No association fits one of the names.
  abbrev pub NoneFits : List String → State H → Type 0
  NoneFits ids s = Everywhere H (λ k a. Fits ids a → ⊥) s.associations

  new_response :
      (now address : ℕ) (m : Setup) (s : State H)
      → get_association H h m.node_id s ≡ none
      → (k : ℕ) × (a : Association) × (a' : Association) × (s' : State H) × (k
          ≡ u32 (hash_node_id h m.node_id))
        × (a.id ≡ "")
        × (a'.id ≡ "")
        × (s'.associations ≡ write k a' (insert k a s.associations))
        × (add_association_response H h c now address m s ≡ some (true, s'))
  unfolding add_association_response register_association register_new monitor new_association
      trigger_heartbeat_request_procedure
  new_response now address m s e =
      let m' : Setup = record m { user_plane_ip_resource_information = (false, []) } in
      let a : Association = record (new_association h address m') {
        state = assoc_setup_state;
        remote_endpoint = m.remote_endpoint;
      } in
      let k = u32 a.hash_node_id in
      let s1 : State H = record s { associations = insert k a s.associations } in
      let (a', t) = trigger_heartbeat_request_procedure H c now a s1 in
      let s' : State H = record t { associations = write k a' t.associations } in
      (k, a, a', s', refl, refl, refl, refl, ground arith)

  found_association :
      (n : NodeId) (s : State H)
      → find (u32 (hash_node_id h n)) s.associations ≢ none
      → get_association H h n s ≢ none
  unfolding get_association
  found_association n s there e = there (ground arith)

  -- If no association of the gateway fits the configured names, none of which is empty, and a node
  -- without an association answers the setup request of the gateway, then a new association is
  -- set up, and still no node can be selected.
  pub setup_response_unselected :
      (now address : ℕ) (ids : List String) (m : Setup) (s : State H)
      → NoneFits ids s
      → (On {A = String} "" ids → ⊥)
      → get_association H h m.node_id s ≡ none
      → (s' : State H) × (add_association_response H h c now address m s ≡ some (true, s'))
        × (get_association H h m.node_id s' ≢ none)
        × (select_up_node H ids s' ≡ (false, no_node_id))
  unfolding Selected
  setup_response_unselected now address ids m s fits named new =
      let (k, a, a', s', key, unnamed, unnamed', all, run) = new_response now address m s new in
      let none_new : NoneFits ids s' = subst (Everywhere H (λ k a. Fits ids a → ⊥)) (sym all) (
        Everywhere-write H (λ k a. Fits ids a → ⊥) k a' (insert k a s.associations)
          (insert-found H k a s.associations) (λ f. named (subst (λ i. On i ids) unnamed' f.0))
          (Everywhere-insert H (λ k a. Fits ids a → ⊥) k a s.associations
            (λ f. named (subst (λ i. On i ids) unnamed f.0)) fits)) in
      let there : find k s'.associations ≢ none =
        subst (λ t. find k t ≢ none) (sym all)
          (write-found H k a' (insert k a s.associations) (insert-found H k a s.associations)) in
      (
        s',
        run,
        found_association m.node_id s' (subst (λ j. find j s'.associations ≢ none) key there),
        elim (select_up_node-Selected H ids s') [
          | inl (e, nothing) ↦ e
          | inr (j, b, found, fits_b, eq, others) ↦ absurd (none_new j b found fits_b)
        ],
      )
