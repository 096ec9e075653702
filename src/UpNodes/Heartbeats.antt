-- ===== src/UpNodes/Heartbeats.antt =====
-- The heartbeats of `pfcp_associations` in src/oai_spgwc/pgw_pfcp_association.cpp, with
-- `send_heartbeat_request` of src/oai_spgwc/pgwc_sxab.cpp. A heartbeat starts when its timer expires;
-- the answer, or the failure of the retries, arms the timer again. Logging is left out.
use openair_spgwc.Prelude.{
  ℕ, zero, suc, ◌^◌, Bool, true, false, ◌&&◌, Option, none, some, List, [], ◌∷◌, if◌then◌else◌,
  ◌==◌, ◌>>=◌,
}
use openair_spgwc.Prelude.Words.{u32}
use openair_spgwc.Prelude.AtomicHashMap.{AtomicHashMap}
use openair_spgwc.Timers.{timer_remove}
use openair_spgwc.UidGenerator.{get_uid}
use openair_spgwc.Pfcp.State.{Endpoint}
use openair_spgwc.UpNodes.Associations.{Association, heartbeat_request, State, Config}
use openair_spgwc.UpNodes.Registry.{trigger_heartbeat_request_procedure}
use openair_spgwc.UpNodes.Nodes.{node_not_reachable, node_reachable, node_restarted}

-- `memcmp` on the first bytes.
unfoldable pub same_bytes : ℕ → List ℕ → List ℕ → Bool
same_bytes zero xs ys = true
same_bytes (suc n) [] ys = true
same_bytes (suc n) (x ∷ xs) [] = true
same_bytes (suc n) (x ∷ xs) (y ∷ ys) = x == y && same_bytes n xs ys

-- `operator==` of `endpoint`.
unfoldable pub same_endpoint : Endpoint → Endpoint → Bool
same_endpoint e f =
    e.addr_storage_len == f.addr_storage_len
    && same_bytes e.addr_storage_len e.addr_storage f.addr_storage

-- The loops over the associations stop at the first with the transaction, or the endpoint.
unfoldable pub first_with_trxn : ℕ → List (ℕ × Association) → Option (ℕ × Association)
first_with_trxn trxn_id [] = none
first_with_trxn trxn_id ((k, a) ∷ m) =
    let rest = first_with_trxn trxn_id m in
    if a.trxn_id_heartbeat == trxn_id then some (k, a) else rest

unfoldable pub first_with_endpoint : Endpoint → List (ℕ × Association) → Option (ℕ × Association)
first_with_endpoint e [] = none
first_with_endpoint e ((k, a) ∷ m) =
    let rest = first_with_endpoint e m in
    if same_endpoint a.remote_endpoint e then some (k, a) else rest

module _ (H : AtomicHashMap) where
  open H use {find, write, entries}

  -- `send_heartbeat_request`; the endpoint then gets the port of PFCP.
  unfoldable pub send_heartbeat_request : Association → State H → Option (Association × State H)
  send_heartbeat_request a s = do
    (uid, g) ← get_uid (2 ^ 64) s.uids
    some (
      record a { trxn_id_heartbeat = uid },
      record s { uids = g; out = heartbeat_request a.remote_endpoint uid ∷ s.out },
    )

  unfoldable pub initiate_heartbeat_request : ℕ → State H → Option (State H)
  unfolding send_heartbeat_request
  initiate_heartbeat_request hash s = elim (find (u32 hash) s.associations) [
    | none ↦ some s
    | some a ↦ elim a.is_trigger_heartbeat_request_procedure [
      | false ↦ some s
      | true ↦ do
        (a', s') ← send_heartbeat_request (record a { num_retries_timer_heartbeat = 0 }) s
        some (record s' { associations = write (u32 hash) a' s'.associations })
    ]
  ]

  -- The end of a heartbeat: its transaction is forgotten and its timer removed.
  unfoldable pub end_heartbeat : ℕ → Association → State H → Association × State H
  end_heartbeat k a s =
      let a' : Association = record a { trxn_id_heartbeat = 0 } in
      (
        a',
        record s {
          associations = write k a' s.associations;
          itti = (timer_remove a'.timer_heartbeat s.itti).1;
        },
      )

  -- The next heartbeat is armed.
  unfoldable pub next_heartbeat : Config → ℕ → ℕ → Association → State H → State H
  unfolding trigger_heartbeat_request_procedure
  next_heartbeat c now k a s =
      let (a', s') = trigger_heartbeat_request_procedure H c now a s in
      record s' { associations = write k a' s'.associations }

  unfoldable pub timeout_heartbeat_request : Config → ℕ → ℕ → State H → State H
  unfolding first_with_trxn end_heartbeat next_heartbeat
  timeout_heartbeat_request c now trxn_id s =
      elim (first_with_trxn trxn_id (entries s.associations)) [
        | none ↦ s
        | some (k, a) ↦
            let (a', s1) = end_heartbeat k a s in
            node_not_reachable H a.hash_node_id (next_heartbeat c now k a' s1)
      ]

  -- After a restart of the node no heartbeat is armed.
  unfoldable pub handle_receive_heartbeat_response : Config → ℕ → ℕ → ℕ → State H → State H
  unfolding first_with_trxn end_heartbeat next_heartbeat
  handle_receive_heartbeat_response c now trxn_id recovery_time_stamp s =
      elim (first_with_trxn trxn_id (entries s.associations)) [
        | none ↦ s
        | some (k, a) ↦
            let (a', s1) = end_heartbeat k a s in
            if a.recovery_time_stamp == recovery_time_stamp
            then node_reachable H a.hash_node_id (next_heartbeat c now k a' s1)
            else node_restarted H a.hash_node_id s1
      ]

  unfoldable pub handle_receive_heartbeat_request : Endpoint → ℕ → State H → State H
  unfolding first_with_endpoint
  handle_receive_heartbeat_request remote_endpoint recovery_time_stamp s =
      elim (first_with_endpoint remote_endpoint (entries s.associations)) [
        | none ↦ s
        | some (k, a) ↦
            if a.recovery_time_stamp == recovery_time_stamp
            then node_reachable H a.hash_node_id s
            else node_restarted H a.hash_node_id s
      ]
