-- ===== src/Prelude/AtomicHashMap.antt =====
-- `folly::AtomicHashMap` with integer keys, which src/gtpv2c/gtpv2c.hpp, src/oai_spgwc/PfcpUpNodes.hpp
-- and src/oai_spgwc/pgw_pfcp_association.hpp take from outside the repository: a parameter of the
-- model, with what its documentation says of the members that are called, as long as the map does
-- not run out of space. `insert` keeps a value that is there.
pub mod Everywhere
use openair_spgwc.Prelude.{ℕ, ◌≡◌, ◌≢◌, ◌↔◌, Option, none, some, List, if◌then◌else◌, ◌==◌}
use openair_spgwc.Prelude.StdMap.{nat_key, Has}

pub record AtomicHashMap : Type 1 where
  pub Map : Type 0 → Type 0
  pub empty : {V : Type 0} → Map V
  pub find : {V : Type 0} → ℕ → Map V → Option V
  pub insert : {V : Type 0} → ℕ → V → Map V → Map V
  pub erase : {V : Type 0} → ℕ → Map V → Map V
  -- A write through the iterator that `find` returns.
  pub write : {V : Type 0} → ℕ → V → Map V → Map V
  -- What an iterator visits, in an order that is left open.
  pub entries : {V : Type 0} → Map V → List (ℕ × V)
  pub find-empty : {V : Type 0} (k : ℕ) → find k (empty {V = V}) ≡ none
  pub find-insert :
      {V : Type 0} (k j : ℕ) (v : V) (m : Map V)
      → find j (insert k v m)
        ≡ (if k == j then elim (find k m) [ none ↦ some v | some w ↦ some w ] else find j m)
  pub find-erase :
      {V : Type 0} (k j : ℕ) (m : Map V) → find j (erase k m) ≡ (if k == j then none else find j m)
  pub find-write :
      {V : Type 0} (k j : ℕ) (v : V) (m : Map V)
      → find k m ≢ none
      → find j (write k v m) ≡ (if k == j then some v else find j m)
  pub entries_iff :
      {V : Type 0} (k : ℕ) (v : V) (m : Map V) → Has k v (entries m) ↔ (find k m ≡ some v)
