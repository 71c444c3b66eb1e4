-- ===== src/Peer/Receive.antt =====
-- What `on_receive` does with a message of the broadcast within a ring, and the downward step.
use fring.Common.{
  ℕ, suc, ◌+◌, ◌^◌, ◌≤◌, ◌<◌, ◌≡◌, inl, inr, if◌then◌else◌, ◌==◌, refl, arith, List, [], ◌∷◌, ◌++◌,
  length, Each, pos, ok, err, undefined, int_mod,
}
use fring.Common.Text.{Bytes, sub_size}
use fring.Node.{Node}
use fring.NodeTable.{get_contact_nodes}
use fring.NodeTable.Access.{IsValid, get_contact_nodes_total}
use fring.Message.{Message, make_message, set_node_order}
use fring.Wire.{IdSet}
use fring.Peer.State.{Env, Datagram, PeerManager, next_message_id}
use fring.Peer.Ring.{Deliver, ring_fuel}
use fring.Peer.Tree.{child_orders}
use fring.Peer.Handlers.{send_to_one, broadcast_down, within, control_flow, handle, on_receive}
use fring.Peer.Logging.{ClockFits, IsShort, Keeps}
use fring.Peer.Within.{RingView, IsRegions, Sends, broadcast_within_ring_lem}
use fring.Peer.Delay.{parts, equal_parts, after_delay, simulate_delay_lem}

-- The message that `on_receive` passes on in the cases 2 and 5.
abbrev pub passed_on : PeerManager → Message → Message
passed_on p msg =
    set_node_order
      (make_message msg.broadcast_id (next_message_id p) (pos 2) msg.from_level p.node.id [])
      msg.node_order

-- Handling a message of type 5 (only within the ring), received from any node, never calls the
-- handler again: first it sleeps the delay that the ids of the sender and the node call for, and
-- then it hands one datagram to the transport for each child of the message's order in the broadcast
-- tree. Each datagram has the same set of ids: the node's own region, those of the receivers and the
-- ids received. Beside the delay, the random number drawn for it and the datagrams, only the message
-- table, which grows by one message per datagram at most, the log, and the count of times that were
-- read change. The node knows the ring of the message's level, which has at most `2 ^ 30` peers, the
-- ids have 32 bytes, the order is an `int`, and the message table has room for message ids.
pub on_receive_within :
    (env : Env) (fuel : ℕ) (msg : Message) (payload : Bytes) (ids : IdSet) (p : PeerManager)
    (q o end : ℕ) (node_at : ℕ → Node)
    → ClockFits env
    → msg.type ≡ pos 5
    → msg.node_order ≡ pos o
    → length msg.sender_id ≡ 32
    → length msg.broadcast_id ≤ 64
    → RingView p.node p.node_table msg.from_level q end node_at
    → o < int_mod
    → end < 2 ^ 30
    → length p.msg_table + length (child_orders ring_fuel 1 o end) ≤ 10 ^ 24
    → let p1 = after_delay env (equal_parts parts msg.sender_id p.node.id) p in
      let orders = child_orders ring_fuel 1 o end in
      (p' : PeerManager) × (regions : IdSet) × (ds : List Datagram) × (on_receive env
          (suc fuel)
          msg
          payload
          ids
          p
        ≡ ok p')
      × (p'.sent ≡ p.sent ++ ds)
      × Each
          (Sends p.node msg.from_level q o end node_at (passed_on p1 msg) payload regions)
          orders
          ds
      × IsRegions p.node msg.from_level q o end node_at orders ids regions
      × Keeps (length orders) p1 p'
unfolding on_receive handle control_flow within
on_receive_within env fuel msg payload ids p q o end node_at clock five order sender broadcast view
      o_fits fits few =
    let slept = simulate_delay_lem env p msg.sender_id p.node.id sender view.own_id in
    let p1 = after_delay env (equal_parts parts msg.sender_id p.node.id) p in
    let short : IsShort (passed_on p1 msg) = record {
      broadcast = broadcast;
      sender = omega (arith, view.own_id);
      receiver = omega arith;
      type = omega arith;
      order = rw order o_fits;
      level = omega (arith, view.known);
    } in
    let (p', regions, ds, done, sent, each, has, kept) =
      broadcast_within_ring_lem env clock (on_receive env fuel) p.node p.node_table msg.from_level q
        o end node_at view fits (passed_on p1 msg) short refl payload p1 ids refl refl order few in
    (p', regions, ds, rw (slept, five) done, sent, each, has, kept)

-- With a valid node table, `broadcast_down` never sends anything: where the ring below has contact
-- nodes it returns with the state as it was, and where it has none it draws a number modulo zero.
pub broadcast_down_lem :
    (env : Env) (deliver : Deliver) (msg : Message) (level : ℕ) (payload : Bytes) (p : PeerManager)
    → IsValid p.node_table
    → (nodes : List Node) × (get_contact_nodes p.node_table (sub_size level 1) ≡ ok nodes)
      × (broadcast_down env deliver msg level payload p
          ≡ (if length nodes == 0 then err undefined else ok p))
unfolding broadcast_down send_to_one
broadcast_down_lem env deliver msg level payload p v =
    elim (get_contact_nodes_total p.node_table (sub_size level 1) v) [
      | inl (r, [], _, e, _) ↦ ([], e, rw e refl)
      | inl (r, n ∷ ns, _, e, _) ↦ (n ∷ ns, e, rw e (ground arith))
      | inr (_, e) ↦ ([], e, rw e refl)
    ]
