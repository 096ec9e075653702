-- ===== src/Pgw/State/Teids.antt =====
-- The local tunnel endpoints that `pgw_app` of src/oai_spgwc/pgw_app.cpp gives to PDN connections.
use openair_spgwc.Prelude.{
  ℕ, zero, suc, ◌+◌, ◌%◌, ◌^◌, ◌<◌, ◌≡◌, ◌≢◌, refl, true, false, some, ◌∷◌, if◌then◌else◌, ◌==◌,
  arith, List, length,
}
use openair_spgwc.UidGenerator.{UidGenerator, contains, next_free, get_uid}
use openair_spgwc.UidGenerator.Search.{get_uid_total}
use openair_spgwc.Pgw.State.{State, next_teid, generate_s5s8_cp_teid}

-- The loop is that of the generator of identifiers with 0 as an identifier in use.
next_teid-next_free :
    (fuel teid : ℕ) (used : List ℕ)
    → next_teid fuel teid used ≡ next_free (2 ^ 32) fuel teid (0 ∷ used)
unfolding next_teid next_free contains
next_teid-next_free zero teid used = refl
next_teid-next_free (suc k) teid used =
    ground (arith, next_teid-next_free k ((teid + 1) % 2 ^ 32) used)

-- If fewer than 2 ^ 32 - 1 tunnel endpoints are in use, `generate_s5s8_cp_teid` returns one that is
-- neither 0 nor in use, and that is in use afterwards, beside those that were.
pub generate_s5s8_cp_teid_total :
    (s : State)
    → s.teid_s5s8_cp_generator < 2 ^ 32
    → length s.s5s8cplteid + 1 < 2 ^ 32
    → (teid : ℕ) × (s' : State) × (generate_s5s8_cp_teid s ≡ some (teid, s'))
      × (teid < 2 ^ 32)
      × (teid ≢ 0)
      × (contains teid s.s5s8cplteid ≡ false)
      × ((v : ℕ)
          → contains v s'.s5s8cplteid ≡ (if teid == v then true else contains v s.s5s8cplteid))
unfolding generate_s5s8_cp_teid get_uid contains
generate_s5s8_cp_teid_total s low room =
    let g : UidGenerator = record {
      uid_generator = s.teid_s5s8_cp_generator;
      uid_generated = 0 ∷ s.s5s8cplteid;
    } in
    let (teid, g', run, lt, fresh, after) = get_uid_total (2 ^ 32) g low (omega arith) in
    let loop =
      next_teid-next_free (suc (suc (length s.s5s8cplteid)))
        ((s.teid_s5s8_cp_generator + 1) % 2 ^ 32) s.s5s8cplteid in
    (
      teid,
      record s { teid_s5s8_cp_generator = teid; s5s8cplteid = teid ∷ s.s5s8cplteid },
      ground (arith, run, loop),
      lt,
      ground (arith, fresh),
      ground (arith, fresh),
      λ v. ground arith,
    )
