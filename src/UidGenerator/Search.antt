-- ===== src/UidGenerator/Search.antt =====
-- The search of `get_uid` in src/common/utils/uint_generator.hpp: it ends, and what it finds is new.
use openair_spgwc.Prelude.{
  ℕ, zero, suc, ◌+◌, ◌-◌, ◌%◌, ◌≤◌, ◌<◌, ◌≡◌, ◌⊎◌, inl, inr, refl, true, false, some, List, [], ◌∷◌,
  if◌then◌else◌, ◌==◌, length, arith, Bool-cases,
}
use openair_spgwc.UidGenerator.{UidGenerator, contains, remove, next_free, get_uid, free_uid}

pub contains-remove :
    (u v : ℕ) (xs : List ℕ) → contains v (remove u xs) ≡ (if u == v then false else contains v xs)
unfolding contains remove
contains-remove u v [] = ground arith
contains-remove u v (x ∷ xs) = ground (arith, contains-remove u v xs)

length-remove-le : (u : ℕ) (xs : List ℕ) → length (remove u xs) ≤ length xs
unfolding remove
length-remove-le u [] = omega arith
length-remove-le u (x ∷ xs) = ground (arith, length-remove-le u xs)

length-remove : (u : ℕ) (xs : List ℕ) → contains u xs ≡ true → length (remove u xs) < length xs
unfolding contains remove
length-remove u [] h = ground arith
length-remove u (x ∷ xs) h = ground (arith, length-remove u xs, length-remove-le u xs)

-- Wrapping `++` below the modulus.
succ_mod :
    (m u : ℕ) → u < m → ((u + 1 < m) × ((u + 1) % m ≡ u + 1)) ⊎ ((u + 1 ≡ m) × ((u + 1) % m ≡ 0))
succ_mod m u h = grind arith

succ_mod-lt : (m u : ℕ) → u < m → (u + 1) % m < m
succ_mod-lt m u h = omega (arith, succ_mod m u h)

-- A number that the search reaches only after `d` steps does not matter to a shorter search.
next_free-remove :
    (m k v u d : ℕ) (xs : List ℕ)
    → v < m
    → u < m
    → k ≤ d
    → d < m
    → (u + m ≡ v + d) ⊎ (u ≡ v + d)
    → next_free m k v (remove u xs) ≡ next_free m k v xs
unfolding next_free
next_free-remove m zero v u d xs hv hu hk hd far = refl
next_free-remove m (suc k) v u zero xs hv hu hk hd far = absurd (omega arith)
next_free-remove m (suc k) v u (suc d) xs hv hu hk hd far = ground (
  arith,
  contains-remove u v xs,
  next_free-remove m k ((v + 1) % m) u d xs (succ_mod-lt m v hv) hu (omega arith) (omega arith)
      (nearer (succ_mod m v hv) far),
)
  where
    nearer :
        ((v + 1 < m) × ((v + 1) % m ≡ v + 1)) ⊎ ((v + 1 ≡ m) × ((v + 1) % m ≡ 0))
        → (u + m ≡ v + suc d) ⊎ (u ≡ v + suc d)
        → (u + m ≡ (v + 1) % m + d) ⊎ (u ≡ (v + 1) % m + d)
    nearer (inl (a, e)) (inl f) = inl (omega arith)
    nearer (inl (a, e)) (inr f) = inr (omega arith)
    nearer (inr (a, e)) (inl f) = inr (omega arith)
    nearer (inr (a, e)) (inr f) = absurd (omega arith)

next_free_used :
    (m k v w : ℕ) (xs : List ℕ)
    → v < m
    → k < m
    → contains v xs ≡ true
    → next_free m k ((v + 1) % m) (remove v xs) ≡ some w
    → next_free m (suc k) v xs ≡ some w
unfolding next_free
next_free_used m k v w xs hv hk used e = ground (
  arith,
  next_free-remove m k ((v + 1) % m) v (m - 1) xs (succ_mod-lt m v hv) hv (omega arith)
      (omega arith) (around (succ_mod m v hv)),
)
  where
    around :
        ((v + 1 < m) × ((v + 1) % m ≡ v + 1)) ⊎ ((v + 1 ≡ m) × ((v + 1) % m ≡ 0))
        → (v + m ≡ (v + 1) % m + (m - 1)) ⊎ (v ≡ (v + 1) % m + (m - 1))
    around (inl (a, f)) = inl (omega arith)
    around (inr (a, f)) = inr (omega arith)

-- Of `k` candidates fewer than `k` are in use, so the search ends.
pub next_free_total :
    (m k v : ℕ) (xs : List ℕ)
    → v < m
    → length xs < k
    → k ≤ m
    → (w : ℕ) × (next_free m k v xs ≡ some w)
unfolding next_free
next_free_total m zero v xs hv hl hk = absurd (omega arith)
next_free_total m (suc k) v xs hv hl hk = elim (Bool-cases (contains v xs)) [
  | inr new ↦ (v, ground arith)
  | inl used ↦
      let (w, e) =
        next_free_total m k ((v + 1) % m) (remove v xs) (succ_mod-lt m v hv)
          (omega (arith, length-remove v xs used)) (omega arith) in
      (w, next_free_used m k v w xs hv (omega arith) used e)
]

pub next_free_fresh :
    (m k v w : ℕ) (xs : List ℕ)
    → v < m
    → next_free m k v xs ≡ some w
    → (contains w xs ≡ false) × (w < m)
unfolding next_free
next_free_fresh m zero v w xs hv e = cc
next_free_fresh m (suc k) v w xs hv e =
    ground (arith, next_free_fresh m k ((v + 1) % m) w xs (succ_mod-lt m v hv))

-- If the generator is below the number `m` of values and fewer than `m` entries are in use,
-- `get_uid` returns. Its number is below `m`, was not in use and is in use afterwards, and
-- otherwise the same numbers are in use as before.
pub get_uid_total :
    (m : ℕ) (g : UidGenerator)
    → g.uid_generator < m
    → length g.uid_generated < m
    → (uid : ℕ) × (g' : UidGenerator) × (get_uid m g ≡ some (uid, g'))
      × (uid < m)
      × (contains uid g.uid_generated ≡ false)
      × ((v : ℕ)
          → contains v g'.uid_generated ≡ (if uid == v then true else contains v g.uid_generated))
unfolding get_uid contains
get_uid_total m g hu hl =
    let first = (g.uid_generator + 1) % m in
    let (w, e) =
      next_free_total m (suc (length g.uid_generated)) first g.uid_generated
        (succ_mod-lt m g.uid_generator hu) (omega arith) (omega arith) in
    let new =
      next_free_fresh m (suc (length g.uid_generated)) first w g.uid_generated
        (succ_mod-lt m g.uid_generator hu) e in
    (
      w,
      record { uid_generator = w; uid_generated = w ∷ g.uid_generated },
      rw e,
      new.1,
      new.0,
      λ v. ground arith,
    )

-- A number that is given back is not in use any more, and no other number changes.
pub contains-free_uid :
    (uid v : ℕ) (g : UidGenerator)
    → contains v (free_uid uid g).uid_generated
      ≡ (if uid == v then false else contains v g.uid_generated)
unfolding free_uid
contains-free_uid uid v g = contains-remove uid v g.uid_generated
