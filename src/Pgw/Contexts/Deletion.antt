-- ===== src/Pgw/Contexts/Deletion.antt =====
-- Deleting a PDN connection in src/oai_spgwc/pgw_context.cpp gives back what it held, once.
use mathlib.Core.Path.{subst}
use openair_spgwc.Prelude.{
  ℕ, ◌≡◌, ◌∙◌, refl, sym, inl, inr, true, false, none, some, List, [], ◌∷◌, if◌then◌else◌, arith,
  Bool-cases, List-cases,
}
use openair_spgwc.Prelude.StdMap.{nat_key, find, assign, find-assign, find-erase}
use openair_spgwc.UidGenerator.{contains}
use openair_spgwc.Paa.PaaDynamic.{release_paa_address}
use openair_spgwc.Pgw.State.{PdnConnection, ApnContext, Context, State, clear}
use openair_spgwc.Pgw.Contexts.{
  remove_pointer, holds, apn_delete_pdn_connection, deallocate_all, apn_deallocate,
  delete_apn_context, connections_of, delete_pdn_connection,
}
use openair_spgwc.Pgw.Contexts.Freeing.{NoZero, freed, deallocate_twice, contains-remove}

remove_pointer_missing : (a : ℕ) (xs : List ℕ) → holds a xs ≡ false → remove_pointer a xs ≡ xs
unfolding holds remove_pointer
remove_pointer_missing a [] e = refl
remove_pointer_missing a (x ∷ xs) e = ground (arith, remove_pointer_missing a xs)

-- The context without the pointer, in the state in which the connection is freed.
without : ℕ → ℕ → ApnContext → PdnConnection → State → State
without a p c d s =
    let t = freed c.apn_in_use p d s in
    record t {
      apn_contexts =
          assign a (record c { pdn_connections = remove_pointer p c.pdn_connections })
            t.apn_contexts;
    }

apn_delete_pdn_connection-without :
    (a p : ℕ) (c : ApnContext) (d : PdnConnection) (s : State)
    → find a s.apn_contexts ≡ some c
    → find p s.pdns ≡ some d
    → holds p c.pdn_connections ≡ true
    → NoZero s
    → apn_delete_pdn_connection a (some p) s ≡ without a p c d s
unfolding apn_delete_pdn_connection without
apn_delete_pdn_connection-without a p c d s ea ep on z =
    ground (arith, deallocate_twice c.apn_in_use p d s ep z)

-- What `without` leaves, in its parts.
without_parts :
    (a p : ℕ) (c : ApnContext) (d : PdnConnection) (s : State)
    → let s' = without a p c d s in
      (s'.paa
        ≡ (if d.ipv4 then (release_paa_address c.apn_in_use d.ipv4_address s.paa).1 else s.paa))
      × (s'.pdns ≡ assign p (clear d) s.pdns)
      × (contains d.pgw_fteid_s5_s8_cp.teid_gre_key s'.s5s8cplteid ≡ false)
      × (find d.pgw_fteid_s5_s8_cp.teid_gre_key s'.s5s8lteid2pgw_context ≡ none)
      × (find a s'.apn_contexts
          ≡ some (record c { pdn_connections = remove_pointer p c.pdn_connections }))
unfolding without freed
without_parts a p c d s =
    let t = d.pgw_fteid_s5_s8_cp.teid_gre_key in
    (
      refl,
      refl,
      (let law = contains-remove t t s.s5s8cplteid in ground arith),
      (let law = find-erase t t s.s5s8lteid2pgw_context in ground arith),
      (let law =
            find-assign a a (record c { pdn_connections = remove_pointer p c.pdn_connections })
              s.apn_contexts in
          ground arith),
    )

-- A context without connections is deallocated: nothing but its own marks changes.
apn_deallocate_empty :
    (a : ℕ) (c : ApnContext) (s : State)
    → find a s.apn_contexts ≡ some c
    → c.pdn_connections ≡ []
    → apn_deallocate a s ≡ record s {
      apn_contexts =
          assign a
            (record c { pdn_connections = []; in_use = false; apn_ambr = (0, 0) })
            s.apn_contexts;
    }
unfolding apn_deallocate deallocate_all
apn_deallocate_empty a c s e none_left = ground arith

-- What is left after a connection is deleted: the address of an IPv4 connection is released once, the
-- tunnel endpoint and the way from it to the mobile are gone, the connection is cleared, and its
-- context has one pointer less. If the context has none left, the mobile has one context less.
pub record Deleted (a p : ℕ) (c : ApnContext) (d : PdnConnection) (x : Context) (s : State)
    (r : Context × State) : Type 0 where
  pub paa :
      r.1.paa
      ≡ (if d.ipv4 then (release_paa_address c.apn_in_use d.ipv4_address s.paa).1 else s.paa)
  pub pdns : r.1.pdns ≡ assign p (clear d) s.pdns
  pub teids : contains d.pgw_fteid_s5_s8_cp.teid_gre_key r.1.s5s8cplteid ≡ false
  pub ways : find d.pgw_fteid_s5_s8_cp.teid_gre_key r.1.s5s8lteid2pgw_context ≡ none
  pub connections : connections_of a r.1 ≡ remove_pointer p c.pdn_connections
  pub apns : r.0.apns ≡ (elim (remove_pointer p c.pdn_connections) [
    | [] ↦ remove_pointer a x.apns
    | q ∷ qs ↦ x.apns
  ])

connections_found :
    (a : ℕ) (c : ApnContext) (s : State)
    → find a s.apn_contexts ≡ some c
    → connections_of a s ≡ c.pdn_connections
unfolding connections_of
connections_found a c s e = ground arith

-- If the tunnel endpoint 0 is not in use, deleting a PDN connection that its context holds gives back
-- its IPv4 address, if it has one, and its tunnel endpoint, exactly once, and takes it out of the
-- context; a context that has no connection left is taken away from the mobile.
pub delete_pdn_connection-Deleted :
    (a p : ℕ) (c : ApnContext) (d : PdnConnection) (x : Context) (s : State)
    → find a s.apn_contexts ≡ some c
    → find p s.pdns ≡ some d
    → holds p c.pdn_connections ≡ true
    → NoZero s
    → Deleted a p c d x s (delete_pdn_connection (some a) (some p) x s)
unfolding delete_pdn_connection delete_apn_context
delete_pdn_connection-Deleted a p c d x s ea ep on z =
    let s1 = without a p c d s in
    let run = apn_delete_pdn_connection-without a p c d s ea ep on z in
    let (paa, pdns, teids, ways, at) = without_parts a p c d s in
    let c' : ApnContext = record c { pdn_connections = remove_pointer p c.pdn_connections } in
    let left = connections_found a c' s1 at in
    elim (List-cases (remove_pointer p c.pdn_connections)) [
      | inl empty ↦
          let unused : ApnContext = record c {
            pdn_connections = [];
            in_use = false;
            apn_ambr = (0, 0);
          } in
          let s2 : State = record s1 { apn_contexts = assign a unused s1.apn_contexts } in
          let emptied : apn_deallocate a s1 ≡ s2 = apn_deallocate_empty a c' s1 at empty in
          let at2 : find a s2.apn_contexts ≡ some unused =
            let law = find-assign a a unused s1.apn_contexts in ground arith in
          let left2 = connections_found a unused s2 at2 in
          elim (Bool-cases (holds a x.apns)) [
            | inl held ↦
                let end : delete_pdn_connection (some a) (some p) x s
                    ≡ (record x { apns = remove_pointer a x.apns }, s2) =
                  ground (arith, run, left, emptied) in
                subst (Deleted a p c d x s) (sym end) (record {
                  paa = paa;
                  pdns = pdns;
                  teids = teids;
                  ways = ways;
                  connections = left2 ∙ sym empty;
                  apns = ground arith;
                })
            | inr free ↦
                let end : delete_pdn_connection (some a) (some p) x s ≡ (x, s1) =
                  ground (arith, run, left) in
                let missing = remove_pointer_missing a x.apns free in
                subst (Deleted a p c d x s) (sym end) (record {
                  paa = paa;
                  pdns = pdns;
                  teids = teids;
                  ways = ways;
                  connections = left;
                  apns = ground arith;
                })
          ]
      | inr (q, qs, more) ↦
          let end : delete_pdn_connection (some a) (some p) x s ≡ (x, s1) =
            ground (arith, run, left) in
          subst (Deleted a p c d x s) (sym end) (record {
            paa = paa;
            pdns = pdns;
            teids = teids;
            ways = ways;
            connections = left;
            apns = ground arith;
          })
    ]
