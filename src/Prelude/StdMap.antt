-- ===== src/Prelude/StdMap.antt =====
-- `std::map` and `std::set` as association lists. `insert` keeps a value that is there, `assign` is
-- `m[k] = v`, `erase` removes a key; `find` and `size` are the members of these names.
use mathlib.Core.List.{List, [], ◌∷◌}
use mathlib.Core.Option.{Option, none, some}
use mathlib.Core.Bool.{Bool, true, false}
use mathlib.Core.Path.{◌≡◌, refl}
use mathlib.Core.Logic.{◌↔◌, ◌⊎◌}
use Prim.Native.Nat.{ℕ}
use Prim.Native.String.{String}
use text.Mathlib.Text.{◌==◌ as str_eq}
use text.Mathlib.TextEquality.{eq_iff}
use native.Mathlib.Omega.{arith}
use openair_spgwc.Prelude.Tests.{if◌then◌else◌, ==_iff}
use openair_spgwc.Prelude.Tests.{◌==◌ as nat_beq}

-- The order of the keys, as far as the models read it: whether two keys are equivalent.
pub record Key (K : Type 0) : Type 0 where
  pub beq : K → K → Bool
  pub beq_iff : (a b : K) → (beq a b ≡ true) ↔ (a ≡ b)

instance abbrev pub nat_key : Key ℕ
nat_key = record { beq = nat_beq; beq_iff = ==_iff }

instance abbrev pub string_key : Key String
string_key = record { beq = str_eq; beq_iff = eq_iff }

-- The pair is on the list.
abbrev pub Has : {K V : Type 0} → K → V → List (K × V) → Type 0
Has k v [] = ⊥
Has k v ((j, w) ∷ m) = ((j ≡ k) × (w ≡ v)) ⊎ Has k v m

module _ {K V : Type 0} ⦃e : Key K⦄ where
  unfoldable pub find : K → List (K × V) → Option V
  find k [] = none
  find k ((j, v) ∷ m) = if e.beq j k then some v else find k m

  unfoldable pub assign : K → V → List (K × V) → List (K × V)
  assign k v [] = (k, v) ∷ []
  assign k v ((j, w) ∷ m) = if e.beq j k then (j, v) ∷ m else (j, w) ∷ assign k v m

  unfoldable pub erase : K → List (K × V) → List (K × V)
  erase k [] = []
  erase k ((j, w) ∷ m) = if e.beq j k then erase k m else (j, w) ∷ erase k m

  unfoldable pub insert : K → V → List (K × V) → List (K × V)
  unfolding find
  insert k v m = elim (find k m) [ none ↦ (k, v) ∷ m | some w ↦ m ]

  pub find-assign :
      (k j : K) (v : V) (m : List (K × V))
      → find j (assign k v m) ≡ (if e.beq k j then some v else find j m)
  unfolding find assign
  find-assign k j v [] = refl
  find-assign k j v ((i, w) ∷ m) =
      ground (arith, e.beq_iff k j, e.beq_iff i k, e.beq_iff i j, find-assign k j v m)

  pub find-erase :
      (k j : K) (m : List (K × V)) → find j (erase k m) ≡ (if e.beq k j then none else find j m)
  unfolding find erase
  find-erase k j [] = ground arith
  find-erase k j ((i, w) ∷ m) =
      ground (arith, e.beq_iff k j, e.beq_iff i k, e.beq_iff i j, find-erase k j m)

  -- A key that is taken keeps its value.
  pub find-insert :
      (k j : K) (v : V) (m : List (K × V))
      → find j (insert k v m)
        ≡ (if e.beq k j then elim (find k m) [ none ↦ some v | some w ↦ some w ] else find j m)
  unfolding find insert
  find-insert k j v m = ground (arith, e.beq_iff k j)

  -- The entries that `find` sees.
  unfoldable pub firsts : List (K × V) → List (K × V)
  firsts [] = []
  firsts ((j, w) ∷ m) = (j, w) ∷ erase j (firsts m)

  Has-erase :
      (k j : K) (v : V) (m : List (K × V)) → Has k v (erase j m) ↔ ((e.beq j k ≡ false) × Has k v m)
  unfolding erase
  Has-erase k j v [] = (λ h. absurd h, λ h. h.1)
  Has-erase k j v ((i, w) ∷ m) =
      ground (arith, e.beq_iff i j, e.beq_iff j k, e.beq_iff i k, Has-erase k j v m)

  pub firsts_iff : (k : K) (v : V) (m : List (K × V)) → Has k v (firsts m) ↔ (find k m ≡ some v)
  unfolding find firsts
  firsts_iff k v [] = (λ h. absurd h, λ h. cc)
  firsts_iff k v ((j, w) ∷ m) =
      ground (arith, e.beq_iff j k, Has-erase k j v (firsts m), firsts_iff k v m)
