-- ===== src/Examples/Maps.antt =====
-- An association list keeps the promises of `folly::AtomicHashMap`.
use openair_spgwc.Prelude.{ℕ, ◌≡◌, none, List, [], refl}
use openair_spgwc.Prelude.StdMap
use openair_spgwc.Prelude.StdMap.{nat_key}
use openair_spgwc.Prelude.AtomicHashMap.{AtomicHashMap}

pub find_nil : {V : Type 0} (k : ℕ) → StdMap.find {V = V} k [] ≡ none
unfolding StdMap.find
find_nil k = refl

abbrev pub list_map : AtomicHashMap
list_map = record {
  Map = λ V. List (ℕ × V);
  empty = [];
  find = λ k m. StdMap.find k m;
  insert = λ k v m. StdMap.insert k v m;
  erase = λ k m. StdMap.erase k m;
  write = λ k v m. StdMap.assign k v m;
  entries = λ m. StdMap.firsts m;
  find-empty = find_nil;
  find-insert = λ k j v m. StdMap.find-insert k j v m;
  find-erase = λ k j m. StdMap.find-erase k j m;
  find-write = λ k j v m _. StdMap.find-assign k j v m;
  entries_iff = λ k v m. StdMap.firsts_iff k v m;
}
