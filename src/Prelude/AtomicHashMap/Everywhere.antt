-- ===== src/Prelude/AtomicHashMap/Everywhere.antt =====
-- What holds of every entry of a `folly::AtomicHashMap`, and which operations keep it.
use mathlib.Core.Path.{subst}
use openair_spgwc.Prelude.{ℕ, ◌≡◌, ◌≢◌, none, some, inl, inr, ◌==◌, arith, Bool-cases, Option-cases}
use openair_spgwc.Prelude.AtomicHashMap.{AtomicHashMap}

module _ (H : AtomicHashMap) {V : Type 0} where
  open H use {Map, find, insert, erase, write}

  abbrev pub Everywhere : (ℕ → V → Type 0) → Map V → Type 0
  Everywhere P m = (k : ℕ) (v : V) → find k m ≡ some v → P k v

  pub Everywhere-erase :
      (P : ℕ → V → Type 0) (k : ℕ) (m : Map V) → Everywhere P m → Everywhere P (erase k m)
  Everywhere-erase P k m all j v e = all j v (
      let law = H.find-erase k j m in
      elim (Bool-cases (k == j)) [ inl t ↦ ground arith | inr f ↦ ground arith ])

  pub Everywhere-write :
      (P : ℕ → V → Type 0) (k : ℕ) (v : V) (m : Map V)
      → find k m ≢ none
      → P k v
      → Everywhere P m
      → Everywhere P (write k v m)
  Everywhere-write P k v m there p all j w e =
      let law = H.find-write k j v m there in
      elim (Bool-cases (k == j)) [
        | inl t ↦
            let same : v ≡ w = ground arith in
            let key : k ≡ j = ground arith in subst (P j) same (subst (λ i. P i v) key p)
        | inr f ↦ all j w (ground arith)
      ]

  pub Everywhere-insert :
      (P : ℕ → V → Type 0) (k : ℕ) (v : V) (m : Map V)
      → P k v
      → Everywhere P m
      → Everywhere P (insert k v m)
  Everywhere-insert P k v m p all j w e =
      let law = H.find-insert k j v m in
      elim (Bool-cases (k == j)) [
        | inl t ↦
            let key : k ≡ j = ground arith in
            elim (Option-cases (find k m)) [
              | inl n ↦
                  let same : v ≡ w = ground arith in subst (P j) same (subst (λ i. P i v) key p)
              | inr (x, o) ↦ let old : find j m ≡ some w = ground arith in all j w old
            ]
        | inr f ↦ all j w (ground arith)
      ]

  -- The keys that are there stay, and the new one is.
  pub insert-found : (k : ℕ) (v : V) (m : Map V) → find k (insert k v m) ≢ none
  insert-found k v m e = let law = H.find-insert k k v m in ground arith

  pub write-found : (k : ℕ) (v : V) (m : Map V) → find k m ≢ none → find k (write k v m) ≢ none
  write-found k v m there e = let law = H.find-write k k v m there in ground arith
