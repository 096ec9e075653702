-- ===== src/UpNodes/Registry/Selection.antt =====
-- Which node `pfcp_associations::select_up_node` of src/oai_spgwc/pgw_pfcp_association.cpp chooses.
use mathlib.Core.Path.{subst}
use Prim.Native.String.{String}
use text.Mathlib.TextEquality.{eq_iff}
use openair_spgwc.Prelude.{
  ℕ, ◌≤◌, ◌≡◌, ◌⊎◌, ◌↔◌, inl, inr, refl, Bool, true, false, none, some, List, [], ◌∷◌, ◌++◌, arith,
  Option-cases,
}
use openair_spgwc.Prelude.AtomicHashMap.{AtomicHashMap}
use openair_spgwc.Prelude.StdMap.{Has}
use openair_spgwc.UpNodes.NodeId.{NodeId, no_node_id}
use openair_spgwc.UpNodes.Node.{assoc_setup_state}
use openair_spgwc.UpNodes.Associations.{Association, State}
use openair_spgwc.UpNodes.Registry.{associated, all_associated, lowest, select_up_node}

abbrev pub On : {A : Type 0} → A → List A → Type 0
On x [] = ⊥
On x (y ∷ ys) = (y ≡ x) ⊎ On x ys

-- The association may be selected: it is set up, and its name is one of those given.
abbrev pub Fits : List String → Association → Type 0
Fits ids a = On a.id ids × (a.state ≡ assoc_setup_state)

On-append : {A : Type 0} (x : A) (ys zs : List A) → On x (ys ++ zs) ↔ (On x ys ⊎ On x zs)
On-append x [] zs = ground arith
On-append x (y ∷ ys) zs = ground (arith, On-append x ys zs)

-- The association is one of the map's.
abbrev pub Among : Association → List (ℕ × Association) → Type 0
Among a [] = ⊥
Among a ((k, b) ∷ m) = (b ≡ a) ⊎ Among a m

associated_iff :
    (id : String) (a : Association) (m : List (ℕ × Association))
    → On a (associated id m) ↔ (Among a m × (a.id ≡ id) × (a.state ≡ assoc_setup_state))
unfolding associated
associated_iff id a [] = ground arith
associated_iff id a ((k, b) ∷ m) = ground (arith, associated_iff id a m, eq_iff b.id id)

all_associated_iff :
    (ids : List String) (a : Association) (m : List (ℕ × Association))
    → On a (all_associated ids m) ↔ (Among a m × Fits ids a)
unfolding all_associated
all_associated_iff [] a m = ground arith
all_associated_iff (id ∷ ids) a m = ground (
  arith,
  all_associated_iff ids a m,
  associated_iff id a m,
  On-append a (associated id m) (all_associated ids m),
)

lowest-none : (xs : List Association) → lowest xs ≡ none → xs ≡ []
unfolding lowest
lowest-none [] e = refl
lowest-none (x ∷ xs) e = elim (Option-cases (lowest xs)) [
  | inl n ↦ ground arith
  | inr (b, m) ↦ ground arith
]

lowest-some :
    (xs : List Association) (a : Association)
    → lowest xs ≡ some a
    → On a xs × ((b : Association) → On b xs → a.address ≤ b.address)
unfolding lowest
lowest-some [] a e = cc
lowest-some (x ∷ xs) a e = elim (Option-cases (lowest xs)) [
  | inl n ↦ let empty = lowest-none xs n in (ground arith, λ b o. ground arith)
  | inr (c, m) ↦
      let (on, least) = lowest-some xs c m in (ground arith, λ b o. ground (arith, least b))
]

Has-Among : (k : ℕ) (a : Association) (m : List (ℕ × Association)) → Has k a m → Among a m
Has-Among k a [] h = h
Has-Among k a ((j, b) ∷ m) h = ground (arith, Has-Among k a m)

Among-Has : (a : Association) (m : List (ℕ × Association)) → Among a m → (k : ℕ) × Has k a m
Among-Has a [] h = absurd h
Among-Has a ((j, b) ∷ m) (inl e) = (j, inl (refl, e))
Among-Has a ((j, b) ∷ m) (inr r) = let (k, h) = Among-Has a m r in (k, inr h)

module _ (H : AtomicHashMap) where
  -- The node of the association that is chosen, or none if there is none to choose from.
  unfoldable pub Selected : List String → State H → Bool × NodeId → Type 0
  Selected ids s r =
      ((r ≡ (false, no_node_id))
        × ((k : ℕ) (a : Association) → H.find k s.associations ≡ some a → Fits ids a → ⊥))
      ⊎ ((k : ℕ) × (a : Association) × (H.find k s.associations ≡ some a)
          × Fits ids a
          × (r ≡ (true, a.node_id))
          × ((j : ℕ) (b : Association)
              → H.find j s.associations ≡ some b
              → Fits ids b
              → a.address ≤ b.address))

  among_iff :
      (ids : List String) (s : State H) (k : ℕ) (a : Association)
      → H.find k s.associations ≡ some a
      → Fits ids a
      → On a (all_associated ids (H.entries s.associations))
  among_iff ids s k a f fits =
      let among =
        Has-Among k a (H.entries s.associations) ((H.entries_iff k a s.associations).1 f) in
      (all_associated_iff ids a (H.entries s.associations)).1 (among, fits)

  -- `select_up_node` succeeds exactly if an association of a configured node is set up. It then gives
  -- the node of such an association, the one whose object lies lowest.
  pub select_up_node-Selected :
      (ids : List String) (s : State H) → Selected ids s (select_up_node H ids s)
  unfolding select_up_node Selected
  select_up_node-Selected ids s =
      let all = all_associated ids (H.entries s.associations) in
      elim (Option-cases (lowest all)) [
        | inl e ↦
            let empty = lowest-none all e in
            inl (
              ground arith,
              λ k a f fits. let on = among_iff ids s k a f fits in subst (On a) empty on,
            )
        | inr (a, e) ↦
            let (on, least) = lowest-some all a e in
            let (among, fits) = (all_associated_iff ids a (H.entries s.associations)).0 on in
            let (k, has) = Among-Has a (H.entries s.associations) among in
            inr (
              k,
              a,
              (H.entries_iff k a s.associations).0 has,
              fits,
              ground arith,
              λ j b f other. least b (among_iff ids s j b f other),
            )
      ]
