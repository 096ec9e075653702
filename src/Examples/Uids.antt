-- ===== src/Examples/Uids.antt =====
-- The generator of src/common/utils/uint_generator.hpp with four numbers, of which two are in use.
use openair_spgwc.Prelude.{
  ℕ, ◌<◌, ◌≡◌, true, false, some, [], ◌∷◌, if◌then◌else◌, ◌==◌, arith, refl,
}
use openair_spgwc.UidGenerator.{UidGenerator, contains, next_free, get_uid}
use openair_spgwc.UidGenerator.Search.{get_uid_total}

abbrev two_used : UidGenerator
two_used = record { uid_generator = 3; uid_generated = 0 ∷ 1 ∷ [] }

get_uid_wraps :
    get_uid 4 two_used ≡ some (2, record { uid_generator = 2; uid_generated = 2 ∷ 0 ∷ 1 ∷ [] })
unfolding get_uid next_free contains
get_uid_wraps = refl

get_uid_total_example :
    (uid : ℕ) × (g' : UidGenerator) × (get_uid 4 two_used ≡ some (uid, g'))
    × (uid < 4)
    × (contains uid two_used.uid_generated ≡ false)
    × ((v : ℕ)
        → contains v g'.uid_generated
          ≡ (if uid == v then true else contains v two_used.uid_generated))
get_uid_total_example = get_uid_total 4 two_used (omega arith) (omega arith)
