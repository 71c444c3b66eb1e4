-- ===== src/Peer/Election.antt =====
-- `PeerManager::contact_node_election`.
use fring.Common.{
  ℕ, zero, suc, ◌-◌, ◌%◌, Bool, true, false, List, [], ◌∷◌, ◌++◌, if◌then◌else◌, ◌==◌, length, ℤ,
  pos, negsuc, Result, ok, err, undefined, out_of_fuel, ◌>>=◌,
}
use fring.Common.Text.{Bytes, codes, add_size}
use fring.Params.{num_contact_nodes}
use fring.NodeTable.{get_peer_list_size, get_contact_nodes}
use fring.Message.{Message, make_message}
use fring.Peer.State.{Env, PeerManager, next_broadcast_id, drawn}
use fring.Peer.Ring.{Deliver, broadcast_within_ring}
use fring.Peer.Handlers.{arity, multicast_to_contact_nodes}

-- `random_IDs.find(n) != random_IDs.end()`
abbrev pub has_id : ℕ → List ℕ → Bool
has_id n [] = false
has_id n (m ∷ ms) = if m == n then true else has_id n ms

abbrev pub election_result : Bytes
election_result = codes "Election Result"

module _ (env : Env) where
  -- `rand() % n` for an `int n`
  unfoldable pub rand_mod : ℤ → PeerManager → Result (ℕ × PeerManager)
  rand_mod (pos zero) p = err undefined
  rand_mod (pos (suc n)) p = ok (env.rand p.draws % suc n, drawn env p)
  rand_mod (negsuc n) p = ok (env.rand p.draws % suc n, drawn env p)

  -- The loop that draws `wanted` more places. A round that draws one again does not count, so the
  -- loop ends only by the numbers drawn.
  unfoldable pub elect : ℕ → ℕ → List ℕ → ℤ → PeerManager → Result (List ℕ × PeerManager)
  elect fuel zero random_ids num_peers p = ok (random_ids, p)
  elect zero (suc wanted) random_ids num_peers p = err out_of_fuel
  elect (suc fuel) (suc wanted) random_ids num_peers p = rand_mod num_peers p >>= λ (id, p').
      let again = elect fuel (suc wanted) random_ids num_peers p' in
      let next = elect fuel wanted (id ∷ random_ids) num_peers p' in
      if has_id id random_ids then again else next

  -- the message of an election, and `push_back` of its (empty) message id
  unfoldable pub announce : ℕ → PeerManager → Message × PeerManager
  announce level p = (
    make_message (next_broadcast_id p) [] (pos 3) level p.node.id [],
    record p { broadcasted_msgs = p.broadcasted_msgs ++ [] ∷ [] },
  )

  unfoldable pub announce_upper : Deliver → ℕ → PeerManager → Result PeerManager
  announce_upper deliver level p =
      let (msg, p') = announce level p in
      get_contact_nodes p.node_table level >>= λ contact_nodes_upper.
      if length contact_nodes_upper == 0
      then ok p
      else multicast_to_contact_nodes env deliver msg (add_size level 1) election_result p'

  unfoldable pub announce_lower : Deliver → ℕ → PeerManager → Result PeerManager
  announce_lower deliver level p =
      let (msg, p') = announce level p in
      if level == 0
      then ok p'
      else broadcast_within_ring env deliver msg (level - 1) arity election_result [] p'

  -- The places drawn are used for nothing.
  unfoldable pub contact_node_election : Deliver → ℕ → ℕ → PeerManager → Result PeerManager
  contact_node_election deliver fuel level p = do
    num_peers ← get_peer_list_size p.node_table level
    (_, p1) ← elect fuel num_contact_nodes [] num_peers p
    let (msg, p2) = announce level p1
    p3 ← broadcast_within_ring env deliver msg level arity election_result [] p2
    p4 ← announce_upper deliver level p3
    announce_lower deliver level p4
