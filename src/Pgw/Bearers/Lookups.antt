-- ===== src/Pgw/Bearers/Lookups.antt =====
-- What a lookup finds among the bearers of src/oai_spgwc/pgw_context.cpp after they change.
use mathlib.Core.Path.{subst}
use openair_spgwc.Prelude.{
  ℕ, ◌+◌, ◌≤◌, ◌≡◌, refl, sym, inl, inr, none, some, List, [], ◌∷◌, if◌then◌else◌, ◌==◌, leb, ◌&&◌,
  arith, Bool-cases,
}
use openair_spgwc.Prelude.StdMap.{nat_key, find, erase, find-erase}
use openair_spgwc.Pgw.Bearers.{
  EpsBearer, ebi_first, ebi_last, insert_ordered, add_eps_bearer, subscript_bearer, clear_bearer,
  remove_eps_bearer,
}

find-insert_ordered :
    (k j : ℕ) (b : EpsBearer) (m : List (ℕ × EpsBearer))
    → find k m ≡ none
    → find j (insert_ordered k b m) ≡ (if k == j then some b else find j m)
unfolding find insert_ordered
find-insert_ordered k j b [] e = ground arith
find-insert_ordered k j b ((i, c) ∷ m) e = ground (arith, find-insert_ordered k j b m)

-- The keys rise, each bearer has its own identifier, and all are from 5 to 15.
abbrev pub From : ℕ → List (ℕ × EpsBearer) → Type 0
From n [] = Unit {0}
From n ((k, b) ∷ m) = (n ≤ k) × (k ≤ ebi_last) × (b.ebi ≡ k) × From (k + 1) m

abbrev pub IsBearers : List (ℕ × EpsBearer) → Type 0
IsBearers m = From ebi_first m

From-mono : (n p : ℕ) (m : List (ℕ × EpsBearer)) → p ≤ n → From n m → From p m
From-mono n p [] le w = tt
From-mono n p ((k, b) ∷ m) le w = (omega (arith, w.0), w.1, w.2, w.3)

From-erase : (n k : ℕ) (m : List (ℕ × EpsBearer)) → From n m → From n (erase k m)
unfolding erase
From-erase n k [] w = tt
From-erase n k ((j, b) ∷ m) w =
    let rest = From-erase (j + 1) k m w.3 in
    let lower = From-mono (j + 1) n (erase k m) (omega (arith, w.0)) rest in
    ground (arith, rest, lower)

From-insert_ordered :
    (n k : ℕ) (b : EpsBearer) (m : List (ℕ × EpsBearer))
    → n ≤ k
    → k ≤ ebi_last
    → b.ebi ≡ k
    → From n m
    → From n (insert_ordered k b m)
unfolding insert_ordered
From-insert_ordered n k b [] ge le own w = (ge, le, own, tt)
From-insert_ordered n k b ((j, c) ∷ m) ge le own w =
    ground (arith, From-insert_ordered (j + 1) k b m)

erase-insert_ordered :
    (k : ℕ) (b : EpsBearer) (m : List (ℕ × EpsBearer)) → erase k (insert_ordered k b m) ≡ erase k m
unfolding erase insert_ordered
erase-insert_ordered k b [] = ground arith
erase-insert_ordered k b ((j, c) ∷ m) = ground (arith, erase-insert_ordered k b m)

remove_eps_bearer-erase : (k : ℕ) (m : List (ℕ × EpsBearer)) → remove_eps_bearer k m ≡ erase k m
unfolding remove_eps_bearer subscript_bearer
remove_eps_bearer-erase k m = ground (arith, erase-insert_ordered k clear_bearer m)

add_eps_bearer-IsBearers :
    (b : EpsBearer) (m : List (ℕ × EpsBearer)) → IsBearers m → IsBearers (add_eps_bearer b m)
unfolding add_eps_bearer
add_eps_bearer-IsBearers b m w = elim (Bool-cases (leb ebi_first b.ebi && leb b.ebi ebi_last)) [
  | inl t ↦
      let erased = From-erase ebi_first b.ebi m w in
      let added =
        From-insert_ordered ebi_first b.ebi b (erase b.ebi m) (ground arith) (ground arith) refl
          erased in
      let run : insert_ordered b.ebi b (erase b.ebi m) ≡ add_eps_bearer b m = ground arith in
      subst IsBearers run added
  | inr f ↦ let run : m ≡ add_eps_bearer b m = ground arith in subst IsBearers run w
]

find-add_eps_bearer :
    (b : EpsBearer) (m : List (ℕ × EpsBearer)) (j : ℕ)
    → find j (add_eps_bearer b m) ≡ (
        if leb ebi_first b.ebi && leb b.ebi ebi_last
        then (if b.ebi == j then some b else find j m)
        else find j m)
unfolding add_eps_bearer
find-add_eps_bearer b m j =
    let gone = find-erase b.ebi b.ebi m in
    let there = find-insert_ordered b.ebi j b (erase b.ebi m) (ground (arith, gone)) in
    let others = find-erase b.ebi j m in ground (arith, there, others)

-- A bearer with an identifier from 5 to 15 replaces the one that has it, and another bearer is
-- refused. Removing an identifier removes its bearer and no other, though the code first puts
-- a bearer there if there is none. Both keep the bearers in order, with their own identifiers.
pub add_eps_bearer-remove_eps_bearer :
    (b : EpsBearer) (k : ℕ) (m : List (ℕ × EpsBearer))
    → IsBearers m
    → let valid = leb ebi_first b.ebi && leb b.ebi ebi_last in
      IsBearers (add_eps_bearer b m)
      × IsBearers (remove_eps_bearer k m)
      × ((j : ℕ)
          → find j (add_eps_bearer b m)
            ≡ (if valid then (if b.ebi == j then some b else find j m) else find j m))
      × ((j : ℕ) → find j (remove_eps_bearer k m) ≡ (if k == j then none else find j m))
add_eps_bearer-remove_eps_bearer b k m w = (
  add_eps_bearer-IsBearers b m w,
  subst IsBearers (sym (remove_eps_bearer-erase k m)) (From-erase ebi_first k m w),
  find-add_eps_bearer b m,
  λ j. ground (arith, remove_eps_bearer-erase k m, find-erase k j m),
)
