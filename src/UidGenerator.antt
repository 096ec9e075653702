-- ===== src/UidGenerator.antt =====
-- src/common/utils/uint_generator.hpp: `util::uint_generator` and `util::uint_uid_generator`, the
-- generators of transaction identifiers. The two classes have the same members, and `m` is the number of
-- values of their integer type (2 ^ 64 for transactions). A call runs under its locks, so it is one
-- step; the search loop of `get_uid` runs on fuel, and `none` stands for a search without end.
pub mod Search
use openair_spgwc.Prelude.{
  ℕ, zero, suc, ◌+◌, ◌%◌, Bool, true, false, ◌||◌, Option, none, some, List, [], ◌∷◌, if◌then◌else◌,
  ◌==◌, length, ◌>>=◌,
}

pub record UidGenerator : Type 0 where
  pub uid_generator : ℕ
  pub uid_generated : List ℕ

unfoldable pub init : UidGenerator
init = record { uid_generator = 0; uid_generated = [] }

-- `uid_generated.count(uid)` and `uid_generated.erase(uid)`.
unfoldable pub contains : ℕ → List ℕ → Bool
contains u [] = false
contains u (x ∷ xs) = x == u || contains u xs

unfoldable pub remove : ℕ → List ℕ → List ℕ
remove u [] = []
remove u (x ∷ xs) = if x == u then remove u xs else x ∷ remove u xs

-- The loop: `uid` is the candidate, and `++uid_generator` wraps.
unfoldable pub next_free : ℕ → ℕ → ℕ → List ℕ → Option ℕ
next_free m zero uid generated = none
next_free m (suc fuel) uid generated =
    let rest = next_free m fuel ((uid + 1) % m) generated in
    if contains uid generated then rest else some uid

unfoldable pub get_uid : ℕ → UidGenerator → Option (ℕ × UidGenerator)
get_uid m g = do
  uid ← next_free m (suc (length g.uid_generated)) ((g.uid_generator + 1) % m) g.uid_generated
  some (uid, record { uid_generator = uid; uid_generated = uid ∷ g.uid_generated })

unfoldable pub free_uid : ℕ → UidGenerator → UidGenerator
free_uid uid g = record g { uid_generated = remove uid g.uid_generated }
