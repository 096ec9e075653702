-- ===== src/Pgw/Contexts.antt =====
-- src/oai_spgwc/pgw_context.cpp: the operations of `apn_context` and `pgw_context` on PDN connections.
-- A pointer into the store that leads nowhere does not occur; where a lookup in the store fails, the
-- model leaves the state as it is. Logging is left out.
pub mod Freeing
pub mod Deletion
use Prim.Native.String.{String}
use text.Mathlib.Text.{◌==◌ as str_eq}
use openair_spgwc.Prelude.{
  ℕ, Bool, true, false, Option, none, some, List, [], ◌∷◌, ◌++◌, if◌then◌else◌, ◌==◌,
}
use openair_spgwc.Prelude.StdMap.{nat_key, find, assign}
use openair_spgwc.Paa.PaaDynamic.{release_paa_address}
use openair_spgwc.Pgw.Bearers.{has_eps_bearer}
use openair_spgwc.Pgw.State.{
  PdnConnection, ApnContext, Procedure, Context, State, clear, free_s5s8_cp_fteid,
}

-- `pgw_pdn_connection::deallocate_ressources` of the object at `p`.
unfoldable pub deallocate : String → ℕ → State → State
unfolding clear free_s5s8_cp_fteid
deallocate apn p s = elim (find p s.pdns) [
  | none ↦ s
  | some c ↦
      let s1 : State =
        if c.ipv4 then record s { paa = (release_paa_address apn c.ipv4_address s.paa).1 } else s in
      let s2 = free_s5s8_cp_fteid c.pgw_fteid_s5_s8_cp s1 in
      record s2 { pdns = assign p (clear c) s2.pdns }
]

-- The loop that erases one pointer.
unfoldable pub remove_pointer : ℕ → List ℕ → List ℕ
remove_pointer p [] = []
remove_pointer p (x ∷ xs) = let rest = remove_pointer p xs in if x == p then xs else x ∷ rest

unfoldable pub holds : ℕ → List ℕ → Bool
holds p [] = false
holds p (x ∷ xs) = let rest = holds p xs in if x == p then true else rest

-- `apn_context::delete_pdn_connection`: a connection of the context is deallocated twice.
unfoldable pub apn_delete_pdn_connection : ℕ → Option ℕ → State → State
unfolding deallocate remove_pointer holds
apn_delete_pdn_connection a none s = s
apn_delete_pdn_connection a (some p) s = elim (find a s.apn_contexts) [
  | none ↦ s
  | some c ↦
      let s1 = deallocate c.apn_in_use p s in
      let s2 = deallocate c.apn_in_use p s1 in
      if holds p c.pdn_connections
      then (record s2 {
        apn_contexts =
            assign a (record c { pdn_connections = remove_pointer p c.pdn_connections })
              s2.apn_contexts;
      })
      else s1
]

unfoldable pub deallocate_all : String → List ℕ → State → State
unfolding deallocate
deallocate_all apn [] s = s
deallocate_all apn (p ∷ ps) s = deallocate_all apn ps (deallocate apn p s)

-- `apn_context::deallocate_ressources`
unfoldable pub apn_deallocate : ℕ → State → State
unfolding deallocate_all
apn_deallocate a s = elim (find a s.apn_contexts) [
  | none ↦ s
  | some c ↦
      let s1 = deallocate_all c.apn_in_use c.pdn_connections s in
      record s1 {
        apn_contexts =
            assign a (record c { pdn_connections = []; in_use = false; apn_ambr = (0, 0) })
              s1.apn_contexts;
      }
]

unfoldable pub delete_apn_context : Option ℕ → Context → State → Context × State
unfolding apn_deallocate
delete_apn_context none x s = (x, s)
delete_apn_context (some a) x s =
    if holds a x.apns
    then (record x { apns = remove_pointer a x.apns }, apn_deallocate a s)
    else (x, s)

-- The collection whose size `get_num_pdn_connections` gives.
unfoldable pub connections_of : ℕ → State → List ℕ
connections_of a s = elim (find a s.apn_contexts) [ none ↦ [] | some c ↦ c.pdn_connections ]

-- `pgw_context::delete_pdn_connection`
unfoldable pub delete_pdn_connection : Option ℕ → Option ℕ → Context → State → Context × State
unfolding apn_delete_pdn_connection delete_apn_context connections_of
delete_pdn_connection none sp x s = (x, s)
delete_pdn_connection (some a) sp x s =
    let s1 = apn_delete_pdn_connection a sp s in
    elim (connections_of a s1) [ [] ↦ delete_apn_context (some a) x s1 | p ∷ ps ↦ (x, s1) ]

-- `apn_context::find_pdn_connection` of a tunnel endpoint, local or of the peer.
unfoldable pub find_in_apn : ℕ → Bool → List ℕ → State → Option ℕ
find_in_apn teid is_local [] s = none
find_in_apn teid is_local (p ∷ ps) s =
    let rest = find_in_apn teid is_local ps s in
    elim (find p s.pdns) [
      | none ↦ rest
      | some c ↦
          let own =
            if is_local
            then c.pgw_fteid_s5_s8_cp.teid_gre_key
            else c.sgw_fteid_s5_s8_cp.teid_gre_key in
          if own == teid then some p else rest
    ]

-- `pgw_context::find_pdn_connection` of a tunnel endpoint.
unfoldable pub find_in_apns : ℕ → Bool → List ℕ → State → Option (ℕ × ℕ)
unfolding find_in_apn connections_of
find_in_apns teid is_local [] s = none
find_in_apns teid is_local (a ∷ others) s =
    let rest = find_in_apns teid is_local others s in
    elim (find_in_apn teid is_local (connections_of a s) s) [ some p ↦ some (a, p) | none ↦ rest ]

unfoldable pub find_pdn_connection : ℕ → Bool → Context → State → Option (ℕ × ℕ)
unfolding find_in_apns
find_pdn_connection teid is_local x s = find_in_apns teid is_local x.apns s

-- `find_apn_context`
unfoldable pub find_apn_context : String → List ℕ → State → Option ℕ
find_apn_context apn [] s = none
find_apn_context apn (a ∷ others) s =
    let rest = find_apn_context apn others s in
    elim (find a s.apn_contexts) [
      | none ↦ rest
      | some c ↦ if str_eq apn c.apn_in_use then some a else rest
    ]

-- `pgw_context::find_pdn_connection` of an access point name and a tunnel endpoint.
unfoldable pub find_named_pdn_connection : String → ℕ → Bool → Context → State → Option (ℕ × ℕ)
unfolding find_apn_context find_in_apn connections_of
find_named_pdn_connection apn teid is_local x s = elim (find_apn_context apn x.apns s) [
  | none ↦ none
  | some a ↦ elim (find_in_apn teid is_local (connections_of a s) s) [
    | none ↦ none
    | some p ↦ some (a, p)
  ]
]

-- `find_pdn_connection` of a packet detection rule, in a context and in a mobile: the connection and
-- the identifier of the bearer.
unfoldable pub find_pdr_in_apn : ℕ → List ℕ → State → Option (ℕ × ℕ)
find_pdr_in_apn pdr_id [] s = none
find_pdr_in_apn pdr_id (p ∷ ps) s =
    let rest = find_pdr_in_apn pdr_id ps s in
    elim (find p s.pdns) [
      | none ↦ rest
      | some c ↦ elim (has_eps_bearer pdr_id c.eps_bearers) [
        | none ↦ rest
        | some ebi ↦ some (p, ebi)
      ]
    ]

unfoldable pub find_pdr_in_apns : ℕ → List ℕ → State → Option (ℕ × ℕ)
unfolding find_pdr_in_apn connections_of
find_pdr_in_apns pdr_id [] s = none
find_pdr_in_apns pdr_id (a ∷ others) s =
    let rest = find_pdr_in_apns pdr_id others s in
    elim (find_pdr_in_apn pdr_id (connections_of a s) s) [ none ↦ rest | some r ↦ some r ]

-- The procedures of a mobile.
unfoldable pub insert_procedure : ℕ → Procedure → Context → Context
insert_procedure k r x = record x { pending_procedures = x.pending_procedures ++ ((k, r) ∷ []) }

unfoldable pub first_procedure : ℕ → List (ℕ × Procedure) → Option (ℕ × Procedure)
first_procedure trxn_id [] = none
first_procedure trxn_id ((k, r) ∷ rs) =
    let rest = first_procedure trxn_id rs in if r.trxn_id == trxn_id then some (k, r) else rest

unfoldable pub find_procedure : ℕ → Context → Option (ℕ × Procedure)
unfolding first_procedure
find_procedure trxn_id x = first_procedure trxn_id x.pending_procedures

unfoldable pub without_procedure : ℕ → List (ℕ × Procedure) → List (ℕ × Procedure)
without_procedure k [] = []
without_procedure k ((j, r) ∷ rs) =
    let rest = without_procedure k rs in if j == k then rs else (j, r) ∷ rest

unfoldable pub remove_procedure : ℕ → Context → Context
unfolding without_procedure
remove_procedure k x = record x { pending_procedures = without_procedure k x.pending_procedures }

unfoldable pub insert_apn : ℕ → Context → Context
insert_apn a x = record x { apns = x.apns ++ (a ∷ []) }

unfoldable pub insert_pdn_connection : ℕ → ℕ → State → State
insert_pdn_connection a p s = elim (find a s.apn_contexts) [
  | none ↦ s
  | some c ↦ record s {
    apn_contexts =
        assign a (record c { pdn_connections = c.pdn_connections ++ (p ∷ []) }) s.apn_contexts;
  }
]
