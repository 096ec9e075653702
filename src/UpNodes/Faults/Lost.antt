-- ===== src/UpNodes/Faults/Lost.antt =====
-- A user-plane node of src/oai_spgwc/PfcpUpNodes.cpp that is lost: its association in
-- src/oai_spgwc/pgw_pfcp_association.cpp stays set up, and is still selected.
use Prim.Native.String.{String}
use openair_spgwc.Prelude.{ℕ, ◌≡◌, ◌∙◌, refl, inl, inr, true, some, List, [], ◌∷◌, arith}
use openair_spgwc.Prelude.AtomicHashMap.{AtomicHashMap}
use openair_spgwc.UpNodes.NodeId.{NodeId, StdHash}
use openair_spgwc.UpNodes.Associations.{Association, State}
use openair_spgwc.UpNodes.Registry.{select_up_node, notify_node_unreachable}
use openair_spgwc.UpNodes.Registry.Selection.{On, Selected, select_up_node-Selected}
use openair_spgwc.UpNodes.Nodes.{node_not_reachable}
use openair_spgwc.UpNodes.Invariant.{Inv}

module _ (H : AtomicHashMap) (h : StdHash) where
  not_reachable_associations :
      (hash : ℕ) (s : State H) → (node_not_reachable H hash s).associations ≡ s.associations
  unfolding node_not_reachable notify_node_unreachable
  not_reachable_associations hash s = ground arith

  -- Failures reported for nodes, one after another.
  abbrev pub all_unreachable : List ℕ → State H → State H
  all_unreachable [] s = s
  all_unreachable (x ∷ xs) s = all_unreachable xs (node_not_reachable H x s)

  all_unreachable_associations :
      (hashes : List ℕ) (s : State H) → (all_unreachable hashes s).associations ≡ s.associations
  all_unreachable_associations [] s = refl
  all_unreachable_associations (x ∷ xs) s =
      all_unreachable_associations xs (node_not_reachable H x s) ∙ not_reachable_associations x s

  -- Under the invariant, once a configured node has an association, some node is selected, and
  -- reports that nodes cannot be reached, however many and of whatever nodes, change nothing of it.
  pub lost_still_selected :
      (ids : List String) (hashes : List ℕ) (k : ℕ) (a : Association) (s : State H)
      → Inv H h s
      → H.find k s.associations ≡ some a
      → On a.id ids
      → (n : NodeId) × (select_up_node H ids (all_unreachable hashes s) ≡ (true, n))
        × (select_up_node H ids s ≡ (true, n))
  unfolding Selected select_up_node
  lost_still_selected ids hashes k a s inv found on =
      let (key, hashed, up) = inv.associations k a found in
      elim (select_up_node-Selected H ids s) [
        | inl (e, nothing) ↦ absurd (nothing k a found (on, up))
        | inr (j, b, at, fits, eq, least) ↦
            let same = all_unreachable_associations hashes s in
            (b.node_id, ground (arith, same), eq)
      ]
