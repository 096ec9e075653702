-- ===== src/Prelude/Links.antt =====
-- An index into a table: each key of `f` leads to an entry of `g` that fits it by `R`. The lookups
-- are functions, so that the laws serve every kind of map.
use Prim.Native.Nat.{ℕ}
use mathlib.Core.Path.{◌≡◌}
use mathlib.Core.Logic.{◌⊎◌, inl, inr}
use mathlib.Core.Option.{Option, none, some}
use native.Mathlib.Omega.{arith}
use openair_spgwc.Prelude.Tests.{◌==◌, if◌then◌else◌, Option-cases, Bool-cases}

-- What `insert`, `erase` and `m[k] = v` do to a lookup.
module _ {V : Type 0} where
  abbrev pub Inserts : ℕ → V → (ℕ → Option V) → (ℕ → Option V) → Type 0
  Inserts k v f f' =
      (j : ℕ) → f' j ≡ (if k == j then elim (f k) [ none ↦ some v | some w ↦ some w ] else f j)

  abbrev pub Erases : ℕ → (ℕ → Option V) → (ℕ → Option V) → Type 0
  Erases k f f' = (j : ℕ) → f' j ≡ (if k == j then none else f j)

  abbrev pub Assigns : ℕ → V → (ℕ → Option V) → (ℕ → Option V) → Type 0
  Assigns k v f f' = (j : ℕ) → f' j ≡ (if k == j then some v else f j)

module _ {P : Type 0} where
  abbrev pub Links : (ℕ → Option ℕ) → (ℕ → Option P) → (ℕ → ℕ → P → Type 0) → Type 0
  Links f g R = (k q : ℕ) → f k ≡ some q → (p : P) × (g q ≡ some p) × R k q p

  -- The table gets a new entry.
  pub Links-extend :
      (f : ℕ → Option ℕ) (g g' : ℕ → Option P) (R : ℕ → ℕ → P → Type 0) (q0 : ℕ) (p0 : P)
      → g q0 ≡ none
      → Inserts q0 p0 g g'
      → Links f g R
      → Links f g' R
  Links-extend f g g' R q0 p0 new ins h k q e =
      let (p, e', r) = h k q e in (p, ground (arith, ins q), r)

  -- So does the index.
  pub Links-open :
      (f f' : ℕ → Option ℕ) (g g' : ℕ → Option P) (R : ℕ → ℕ → P → Type 0) (k0 q0 : ℕ) (p0 : P)
      → g q0 ≡ none
      → Inserts q0 p0 g g'
      → Inserts k0 q0 f f'
      → R k0 q0 p0
      → Links f g R
      → Links f' g' R
  Links-open f f' g g' R k0 q0 p0 new insg insf r0 h k q e = elim (Option-cases (f k)) [
    | inr (q', e') ↦
        let (p, e'', r) = h k q' e' in
        let same : q ≡ q' = ground (arith, insf k) in (p, ground (arith, insg q), rw same r)
    | inl e' ↦
        let k_eq : k ≡ k0 = ground (arith, insf k) in
        let q_eq : q ≡ q0 = ground (arith, insf k) in
        (p0, ground (arith, insg q), rw (k_eq, q_eq) r0)
  ]

  -- The table loses an entry, and the index every key that led to it.
  pub Links-close :
      (f f' : ℕ → Option ℕ) (g g' : ℕ → Option P) (R : ℕ → ℕ → P → Type 0) (q0 : ℕ) (p0 : P)
      → g q0 ≡ some p0
      → Erases q0 g g'
      → ((k q : ℕ) → f' k ≡ some q → f k ≡ some q)
      → ((k : ℕ) → f' k ≡ some q0 → ¬ R k q0 p0)
      → Links f g R
      → Links f' g' R
  Links-close f f' g g' R q0 p0 old era sub gone h k q e =
      let (p, e', r) = h k q (sub k q e) in
      elim (Bool-cases (q0 == q)) [
        | inr other ↦ (p, ground (arith, era q), r)
        | inl same ↦
            let q_eq : q ≡ q0 = ground arith in
            let p_eq : p ≡ p0 = ground arith in
            let r0 : R k q0 p0 = rw (← q_eq, ← p_eq) r in absurd (gone k (rw (← q_eq) e) r0)
      ]

  -- The index loses keys.
  pub Links-narrow :
      (f f' : ℕ → Option ℕ) (g : ℕ → Option P) (R : ℕ → ℕ → P → Type 0)
      → ((k q : ℕ) → f' k ≡ some q → f k ≡ some q)
      → Links f g R
      → Links f' g R
  Links-narrow f f' g R sub h k q e = h k q (sub k q e)

  -- An entry of the table changes, and with it the key that leads to it.
  pub Links-change :
      (f f' : ℕ → Option ℕ) (g g' : ℕ → Option P) (R : ℕ → ℕ → P → Type 0) (q0 : ℕ) (p0 p1 : P)
      → g q0 ≡ some p0
      → Assigns q0 p1 g g'
      → ((k q : ℕ) → f' k ≡ some q → (f k ≡ some q) ⊎ (q ≡ q0))
      → ((k : ℕ) → f' k ≡ some q0 → R k q0 p1)
      → Links f g R
      → Links f' g' R
  Links-change f f' g g' R q0 p0 p1 old asg sub fits h k q e = elim (Bool-cases (q0 == q)) [
    | inl same ↦
        let q_eq : q ≡ q0 = ground arith in
        (p1, ground (arith, asg q), rw q_eq (fits k (rw (← q_eq) e)))
    | inr other ↦ elim (sub k q e) [
      | inl old_key ↦ let (p, e', r) = h k q old_key in (p, ground (arith, asg q), r)
      | inr q_eq ↦ absurd (ground arith)
    ]
  ]
