-- ===== src/UpNodes/Faults/Unwatched.antt =====
-- `pfcp_associations::add_association` of src/oai_spgwc/pgw_pfcp_association.cpp for a node that comes
-- back with the recovery time stamp that it had.
use openair_spgwc.Prelude.{
  ℕ, ◌≤◌, ◌≡◌, ◌≢◌, refl, true, false, some, List, if◌then◌else◌, ◌==◌, arith,
}
use openair_spgwc.Prelude.AtomicHashMap.{AtomicHashMap}
use openair_spgwc.Timers.{armed, timer_remove}
use openair_spgwc.Timers.Removal.{IsGone, timer_remove-IsGone}
use openair_spgwc.Timers.Removal
use openair_spgwc.UpNodes.NodeId.{StdHash}
use openair_spgwc.UpNodes.Node.{PfcpUpNode}
use openair_spgwc.UpNodes.Associations.{Association, State, Config, Setup}
use openair_spgwc.UpNodes.Registry.{
  get_association, register_association, register_known, add_association_request,
}
use openair_spgwc.UpNodes.Nodes.{take_pending, associate, association_setup_request}

module _ (H : AtomicHashMap) (h : StdHash) (c : Config) where
  known_again :
      (now address trxn_id k : ℕ) (m : Setup) (a : Association) (n : PfcpUpNode)
      (others : List PfcpUpNode) (s : State H)
      → take_pending m.node_id s.pending_nodes ≡ some (n, others)
      → get_association H h m.node_id s ≡ some (k, a)
      → a.recovery_time_stamp ≡ m.recovery_time_stamp
      → association_setup_request H h c now address trxn_id m s
        ≡ some (
            associate H h m n others
              (true, record s { itti = (timer_remove a.timer_heartbeat s.itti).1 }))
  unfolding association_setup_request take_pending add_association_request register_association
      register_known
  known_again now address trxn_id k m a n others s pending found same = ground arith

  -- If a pending node that still has an association sends a setup request with the recovery time
  -- stamp of that association, and the numbers of the timers are distinct and were given out, as
  -- their invariant says, the gateway sends nothing, and the timer of its heartbeats, whose
  -- number was given out, is gone; no timer is armed that was not armed before. The
  -- associations stay as they were.
  pub setup_request_unwatched :
      (now address trxn_id k : ℕ) (m : Setup) (a : Association) (n : PfcpUpNode)
      (others : List PfcpUpNode) (s : State H)
      → take_pending m.node_id s.pending_nodes ≡ some (n, others)
      → get_association H h m.node_id s ≡ some (k, a)
      → a.recovery_time_stamp ≡ m.recovery_time_stamp
      → Removal.Inv s.itti
      → a.timer_heartbeat ≢ 0
      → a.timer_heartbeat ≤ s.itti.timer_id
      → (s' : State H) × (association_setup_request H h c now address trxn_id m s ≡ some s')
        × (s'.out ≡ s.out)
        × IsGone a.timer_heartbeat s'.itti
        × ((j : ℕ)
            → armed j s'.itti.timers
              ≡ (if a.timer_heartbeat == j then false else armed j s.itti.timers))
        × (s'.associations ≡ s.associations)
        × (s'.pending_nodes ≡ others)
  unfolding associate
  setup_request_unwatched now address trxn_id k m a n others s pending found same inv valid given =
      let (gone, others_stay) = timer_remove-IsGone a.timer_heartbeat s.itti inv valid given in
      (
        associate H h m n others
            (true, record s { itti = (timer_remove a.timer_heartbeat s.itti).1 }),
        known_again now address trxn_id k m a n others s pending found same,
        refl,
        gone,
        others_stay,
        refl,
        refl,
      )
