-- ===== src/Pgw/Contexts/Freeing.antt =====
-- Deallocating a PDN connection of src/oai_spgwc/pgw_context.cpp, once and twice.
use Prim.Native.String.{String}
use openair_spgwc.Prelude.{
  ℕ, ◌≡◌, ◌∙◌, refl, ap, false, none, some, List, [], ◌∷◌, if◌then◌else◌, ◌==◌, arith,
}
use openair_spgwc.Prelude.StdMap.{nat_key, find, assign, erase, find-assign, find-erase}
use openair_spgwc.UidGenerator.{contains, remove}
use openair_spgwc.Paa.PaaDynamic.{release_paa_address}
use openair_spgwc.Pgw.Bearers.{no_fteid}
use openair_spgwc.Pgw.State.{PdnConnection, State, clear, free_s5s8_cp_fteid}
use openair_spgwc.Pgw.Contexts.{deallocate}

erase_missing : {V : Type 0} (k : ℕ) (m : List (ℕ × V)) → find k m ≡ none → erase k m ≡ m
unfolding find erase
erase_missing k [] e = refl
erase_missing k ((j, v) ∷ m) e = ground (arith, erase_missing k m)

remove_missing : (k : ℕ) (xs : List ℕ) → contains k xs ≡ false → remove k xs ≡ xs
unfolding contains remove
remove_missing k [] e = refl
remove_missing k (x ∷ xs) e = ground (arith, remove_missing k xs)

assign_same : {V : Type 0} (k : ℕ) (v : V) (m : List (ℕ × V)) → find k m ≡ some v → assign k v m ≡ m
unfolding find assign
assign_same k v [] e = cc
assign_same k v ((j, w) ∷ m) e = ground (arith, assign_same k v m)

pub contains-remove :
    (k j : ℕ) (xs : List ℕ) → contains j (remove k xs) ≡ (if k == j then false else contains j xs)
unfolding contains remove
contains-remove k j [] = ground arith
contains-remove k j (x ∷ xs) = ground (arith, contains-remove k j xs)

-- The tunnel endpoint 0 is not in use.
pub record NoZero (s : State) : Type 0 where
  pub teids : contains 0 s.s5s8cplteid ≡ false
  pub contexts : find 0 s.s5s8lteid2pgw_context ≡ none

-- What `deallocate` does to a connection that is there.
unfoldable pub freed : String → ℕ → PdnConnection → State → State
unfolding free_s5s8_cp_fteid clear
freed apn p d s = record s {
  paa = if d.ipv4 then (release_paa_address apn d.ipv4_address s.paa).1 else s.paa;
  s5s8lteid2pgw_context = erase d.pgw_fteid_s5_s8_cp.teid_gre_key s.s5s8lteid2pgw_context;
  s5s8cplteid = remove d.pgw_fteid_s5_s8_cp.teid_gre_key s.s5s8cplteid;
  pdns = assign p (clear d) s.pdns;
}

deallocate-freed :
    (apn : String) (p : ℕ) (d : PdnConnection) (s : State)
    → find p s.pdns ≡ some d
    → deallocate apn p s ≡ freed apn p d s
unfolding deallocate freed free_s5s8_cp_fteid
deallocate-freed apn p d s e = ground arith

-- A connection that was cleared holds nothing.
freed_cleared :
    (apn : String) (p : ℕ) (d : PdnConnection) (s : State)
    → find p s.pdns ≡ some (clear d)
    → NoZero s
    → freed apn p (clear d) s ≡ s
unfolding freed clear no_fteid
freed_cleared apn p d s e z = ground (
  arith,
  erase_missing 0 s.s5s8lteid2pgw_context z.contexts,
  remove_missing 0 s.s5s8cplteid z.teids,
  assign_same p (clear d) s.pdns e,
)

freed-NoZero :
    (apn : String) (p : ℕ) (d : PdnConnection) (s : State) → NoZero s → NoZero (freed apn p d s)
unfolding freed
freed-NoZero apn p d s z = record {
  teids =
      let law = contains-remove d.pgw_fteid_s5_s8_cp.teid_gre_key 0 s.s5s8cplteid in
      ground (arith, z.teids);
  contexts =
      let law = find-erase d.pgw_fteid_s5_s8_cp.teid_gre_key 0 s.s5s8lteid2pgw_context in
      ground (arith, z.contexts);
}

-- Freeing a connection a second time changes nothing.
pub deallocate_twice :
    (apn : String) (p : ℕ) (d : PdnConnection) (s : State)
    → find p s.pdns ≡ some d
    → NoZero s
    → deallocate apn p (deallocate apn p s) ≡ freed apn p d s
unfolding freed
deallocate_twice apn p d s e z =
    let s1 = freed apn p d s in
    let at : find p s1.pdns ≡ some (clear d) =
      let law = find-assign p p (clear d) s.pdns in ground arith in
    ap (deallocate apn p) (deallocate-freed apn p d s e)
    ∙ deallocate-freed apn p (clear d) s1 at
    ∙ freed_cleared apn p d s1 at (freed-NoZero apn p d s z)
