-- ===== src/Peer/Handlers.antt =====
-- The other operations of src/peer_manager.cpp, and the handler of a message.
use fring.Common.{
  ℕ, zero, suc, ◌+◌, ◌-◌, ◌%◌, List, [], ◌∷◌, ◌++◌, if◌then◌else◌, ◌==◌, length, get_elem?, pos,
  eq_ℤ, ◌-ℤ◌, Result, ok, err, out_of_fuel, undefined, or_fail, ◌>>=◌,
}
use fring.Common.Text.{Bytes, add_size, sub_size}
use fring.Node.{Node}
use fring.NodeTable.{is_contact_node, get_contact_nodes}
use fring.Message.{Message, make_message, set_receiver_id, set_node_order}
use fring.Wire.{IdSet, parse_packet}
use fring.Peer.State.{
  Env, PeerManager, next_message_id, next_broadcast_id, drawn, random_num_in_range, simulate_delay,
  log_received,
}
use fring.Peer.Ring.{Deliver, send, broadcast_within_ring}

-- the `k` of every call of `broadcast_within_ring`
abbrev pub arity : ℕ
arity = 2

module _ (env : Env) (deliver : Deliver) where
  abbrev ring : Message → ℕ → Bytes → IdSet → PeerManager → Result PeerManager
  ring msg level payload sent_ids p =
      broadcast_within_ring env deliver msg level arity payload sent_ids p

  -- The receiver is drawn from the contact nodes; with none, the draw divides by zero.
  unfoldable pub broadcast : Bytes → PeerManager → Result PeerManager
  broadcast payload p =
      let message_id = next_message_id p in
      let msg = make_message (next_broadcast_id p) message_id (pos 1) 0 p.node.id [] in
      let p1 = record p { broadcasted_msgs = p.broadcasted_msgs ++ message_id ∷ [] } in
      do
        contact_nodes ← get_contact_nodes p1.node_table 0
        (random_id, p2) ← random_num_in_range env 0 (pos (length contact_nodes) -ℤ pos 1) p1
        receiver ← or_fail (get_elem? contact_nodes random_id) undefined
        send env deliver receiver (set_receiver_id msg receiver.id) payload [] p2

  unfoldable pub multicast : Message → Bytes → List Node → PeerManager → Result PeerManager
  multicast msg payload [] p = ok p
  multicast msg payload (node ∷ nodes) p =
      send env deliver node (set_receiver_id msg node.id) payload [] p >>= λ p'.
      multicast msg payload nodes p'

  unfoldable pub multicast_to_contact_nodes : Message → ℕ → Bytes → PeerManager → Result PeerManager
  multicast_to_contact_nodes msg level payload p = do
    contact_nodes ← get_contact_nodes p.node_table level
    multicast msg payload contact_nodes p

  -- `rand() % size`, and the node at that place
  unfoldable pub send_to_one : Message → Bytes → List Node → PeerManager → Result PeerManager
  send_to_one msg payload nodes p =
      if length nodes == 0
      then err undefined
      else (or_fail (get_elem? nodes (env.rand p.draws % length nodes)) undefined >>= λ receiver.
          send env deliver receiver (set_receiver_id msg receiver.id) payload [] (drawn env p))

  unfoldable pub broadcast_up : Message → ℕ → Bytes → PeerManager → Result PeerManager
  broadcast_up msg level payload p = do
    contact_nodes_upper ← get_contact_nodes p.node_table (add_size level 1)
    if length contact_nodes_upper == 0
        then ring msg level payload [] p
        else send_to_one msg payload contact_nodes_upper p

  unfoldable pub broadcast_down : Message → ℕ → Bytes → PeerManager → Result PeerManager
  broadcast_down msg level payload p = do
    contact_nodes_lower ← get_contact_nodes p.node_table (sub_size level 1)
    if length contact_nodes_lower == 0 then send_to_one msg payload contact_nodes_lower p else ok p

  -- the loop over the lower levels: a new broadcast within the ring of each level below `levels`
  unfoldable pub downwards : Bytes → Bytes → ℕ → Bytes → PeerManager → Result PeerManager
  downwards broadcast_id message_id zero payload p = ok p
  downwards broadcast_id message_id (suc level) payload p =
      let msg_down = make_message broadcast_id message_id (pos 2) level p.node.id [] in
      ring (set_node_order msg_down (pos 0)) level payload [] p >>= λ p'.
      downwards broadcast_id message_id level payload p'

  -- Cases 0 and 1 of the handler: up from `level` (of the sender's ring, or the one above it).
  -- `below` is the number of levels that the loop at the top goes down.
  unfoldable pub upwards :
      Message → Bytes → ℕ → ℕ → Bytes → IdSet → PeerManager → Result PeerManager
  upwards msg message_id level below payload sent_ids p =
      let msg_same = make_message msg.broadcast_id message_id (pos 1) level p.node.id [] in
      let msg_ring = make_message msg.broadcast_id message_id (pos 2) level p.node.id [] in
      let msg_up = make_message msg.broadcast_id message_id (pos 0) level p.node.id [] in
      let at_top = ring (set_node_order msg_ring (pos 0)) level payload sent_ids p >>= λ p'.
      downwards msg.broadcast_id message_id below payload p' in
      if is_contact_node p.node_table level
      then (get_contact_nodes p.node_table (add_size level 1) >>= λ contact_nodes_upper.
          if length contact_nodes_upper == 0 then at_top else broadcast_up msg_up level payload p)
      else broadcast_up msg_same level payload p

  -- the broadcast within the ring of the cases 2 and 5
  unfoldable pub within : Message → Bytes → Bytes → IdSet → PeerManager → Result PeerManager
  within msg message_id payload sent_ids p =
      let msg_new = make_message msg.broadcast_id message_id (pos 2) msg.from_level p.node.id [] in
      ring (set_node_order msg_new msg.node_order) msg.from_level payload sent_ids p

  -- Case 3: the result of an election goes one level down.
  unfoldable pub election_down : Message → Bytes → Bytes → IdSet → PeerManager → Result PeerManager
  election_down msg message_id payload sent_ids p =
      let lower = make_message msg.broadcast_id message_id (pos 3) msg.from_level p.node.id [] in
      if msg.from_level == 0 then ok p else ring lower (msg.from_level - 1) payload sent_ids p

  -- the `switch` of `on_receive`
  unfoldable pub control_flow : Message → Bytes → Bytes → IdSet → PeerManager → Result PeerManager
  control_flow msg message_id payload sent_ids p =
      if eq_ℤ msg.type (pos 0)
      then upwards msg message_id (add_size msg.from_level 1) (msg.from_level + 1) payload sent_ids
          p
      else if eq_ℤ msg.type (pos 1)
      then upwards msg message_id msg.from_level msg.from_level payload sent_ids p
      else if eq_ℤ msg.type (pos 2)
      then (within msg message_id payload sent_ids p >>= λ p'.
          downwards msg.broadcast_id message_id msg.from_level payload p')
      else if eq_ℤ msg.type (pos 5)
      then within msg message_id payload sent_ids p
      else if eq_ℤ msg.type (pos 3)
      then election_down msg message_id payload sent_ids p
      else ok p

  unfoldable pub handle : Message → Bytes → IdSet → PeerManager → Result PeerManager
  handle msg payload sent_ids p = simulate_delay env msg.sender_id p.node.id p >>= λ p'.
      control_flow msg (next_message_id p') payload sent_ids p'

-- The handler. A message that a node sends to itself is handled by a call inside the call; the
-- fuel bounds how deep these calls go.
unfoldable pub on_receive : Env → ℕ → Message → Bytes → IdSet → PeerManager → Result PeerManager
on_receive env zero msg payload sent_ids p = err out_of_fuel
on_receive env (suc fuel) msg payload sent_ids p =
    handle env (on_receive env fuel) msg payload sent_ids p

-- a datagram from the transport
unfoldable pub receive : Env → ℕ → Bytes → PeerManager → Result PeerManager
receive env fuel text p = do
  packet ← parse_packet text
  p' ← log_received env packet.message p
  on_receive env fuel packet.message packet.payload packet.sent_ids p'
