-- ===== src/Peer/RingTests.antt =====
-- Examples for the theorems on a broadcast within a ring, in a ring of three peers.
use fring.Common.{
  ℕ, zero, suc, ◌≤◌, ◌≡◌, ◌≢◌, refl, ap, arith, List, [], ◌∷◌, ◌++◌, length, if◌then◌else◌, ◌==◌,
  leb, Each, true, none, some, pos, ok, err, undefined, out_of_fuel,
}
use fring.Common.Text.{Bytes, codes, beq, sub_size}
use fring.Node.{Node, make_node}
use fring.NodeTable.{
  NodeTable, Ring, Ptr, get_contact_nodes, get_peer_by_order, get_peer_list_size,
  get_node_id_in_vector, is_above, ring_at, ring_checked, peer_at, deref, index_in,
}
use fring.NodeTable.Access.{IsValid}
use fring.Message.{Message, make_message, set_node_order, set_type}
use fring.Wire.{IdSet}
use fring.Peer.State.{Env, Datagram, PeerManager, make_peer_manager}
use fring.Peer.Ring.{Deliver, Target, ring_fuel, broadcast_within_ring}
use fring.Peer.Tree.{child_orders}
use fring.Peer.Handlers.{broadcast_down, on_receive}
use fring.Peer.Election.{contact_node_election}
use fring.Peer.Elected.{contact_node_election_never, broadcast_within_ring-set_type}
use fring.Peer.Reach.{spread, deliveries, spread_lem}
use fring.Peer.Logging.{ClockFits, IsShort, Keeps}
use fring.Peer.Within.{RingView, IsRegions, Sends, broadcast_within_ring_lem}
use fring.Peer.Delay.{parts, equal_parts, after_delay}
use fring.Peer.Receive.{passed_on, on_receive_within, broadcast_down_lem}

spread_lem_example :
    (ts : List Target) × (spread 10 (pos 9) (record { current_id = pos 0; target = pos 7 }) ≡ ok ts)
    × ((q : ℕ) → deliveries q ts ≡ (if leb q 9 then 1 else 0))
spread_lem_example = spread_lem 7 9 10 (omega arith) (omega arith) (omega arith)

-- The ids of the peers end in 0, 1 and 2.
abbrev pub peer_node : ℕ → Node
peer_node zero = make_node 1 (codes "00000000000000000000000000000000") (codes "a") 80
peer_node (suc zero) = make_node 1 (codes "00000000000000000000000000000001") (codes "b") 81
peer_node (suc (suc n)) = make_node 1 (codes "00000000000000000000000000000002") (codes "c") 82

abbrev three_ring : Ring Ptr
three_ring = record {
  ring_level = 0;
  contact_nodes = ((peer_node 0).id, 0) ∷ [];
  predecessor = none;
  successor = none;
  peer_set = ((peer_node 1).id, 1) ∷ ((peer_node 2).id, 2) ∷ [];
  peer_list = 0 ∷ 1 ∷ 2 ∷ [];
}

abbrev three_table : NodeTable
three_table = record {
  self_id = (peer_node 0).id;
  tables = three_ring ∷ [];
  heap = peer_node 0 ∷ peer_node 1 ∷ peer_node 2 ∷ [];
}

three_table-IsValid : IsValid three_table
three_table-IsValid = record {
  some_ring = omega arith;
  sized = omega arith;
  rings = (
    record {
      contacts = (omega arith, tt);
      peers = (omega arith, (omega arith, tt));
      listed = (omega arith, (omega arith, (omega arith, tt)));
      before = tt;
      after = tt;
    },
    tt,
  );
}

-- the last byte of an id
abbrev last_digit : Bytes → ℕ
last_digit [] = 0
last_digit (c ∷ []) = c
last_digit (c ∷ d ∷ s) = last_digit (d ∷ s)

three_table-RingView : RingView (peer_node 0) three_table 0 0 2 peer_node
unfolding get_peer_list_size get_node_id_in_vector get_peer_by_order is_above ring_at ring_checked
    peer_at deref index_in beq
three_table-RingView = record {
  known = omega arith;
  size = refl;
  place = refl;
  inside = omega arith;
  peer = peer;
  id = id;
  own_id = refl;
  other = other;
}
  where
    peer : (j : ℕ) → j ≤ 2 → get_peer_by_order three_table 0 (pos j) ≡ ok (some (peer_node j))
    peer zero h = refl
    peer (suc zero) h = refl
    peer (suc (suc zero)) h = refl
    peer (suc (suc (suc j))) h = absurd (omega arith)

    id : (j : ℕ) → j ≤ 2 → length (peer_node j).id ≡ 32
    id zero h = refl
    id (suc zero) h = refl
    id (suc (suc j)) h = refl

    other : (j : ℕ) → j ≤ 2 → j ≢ 0 → (peer_node j).id ≢ (peer_node 0).id
    other zero h ne e = ne refl
    other (suc zero) h ne e = omega (arith, ap last_digit e)
    other (suc (suc j)) h ne e = omega (arith, ap last_digit e)

abbrev quiet : Env
quiet = record { rand = λ n. n; clock = λ t. 7; log_opens = λ t. true }

quiet-ClockFits : ClockFits quiet
quiet-ClockFits t = omega arith

abbrev first_peer : PeerManager
first_peer = make_peer_manager (peer_node 0) three_table (codes "r")

abbrev on_the_spot : Deliver
on_the_spot msg payload ids p = ok p

abbrev pub news : Message
news = set_node_order (make_message (codes "b7") (codes "m1") (pos 5) 0 (peer_node 0).id []) (pos 0)

news-IsShort : IsShort news
news-IsShort = record {
  broadcast = omega arith;
  sender = omega arith;
  receiver = omega arith;
  type = omega arith;
  order = omega arith;
  level = omega arith;
}

broadcast_within_ring_lem_example :
    (p' : PeerManager) × (regions : IdSet) × (ds : List Datagram) × (broadcast_within_ring quiet
        on_the_spot news 0 2
        (codes "data")
        []
        first_peer
      ≡ ok p')
    × (p'.sent ≡ first_peer.sent ++ ds)
    × Each
        (Sends (peer_node 0) 0 0 0 2 peer_node news (codes "data") regions)
        (child_orders ring_fuel 1 0 2)
        ds
    × IsRegions (peer_node 0) 0 0 0 2 peer_node (child_orders ring_fuel 1 0 2) [] regions
    × Keeps (length (child_orders ring_fuel 1 0 2)) first_peer p'
unfolding make_peer_manager child_orders
broadcast_within_ring_lem_example =
    broadcast_within_ring_lem quiet quiet-ClockFits on_the_spot (peer_node 0) three_table 0 0 0 2
      peer_node three_table-RingView (omega arith) news news-IsShort refl (codes "data") first_peer
      [] refl refl refl (omega arith)

-- A message to order 1 of the ring, from its last peer.
abbrev from_last : Message
from_last =
    set_node_order
      (make_message (codes "b7") (codes "m1") (pos 5) 0 (peer_node 2).id (peer_node 0).id) (pos 1)

abbrev delayed_peer : PeerManager
delayed_peer = after_delay quiet (equal_parts parts (peer_node 2).id (peer_node 0).id) first_peer

on_receive_within_example :
    (p' : PeerManager) × (regions : IdSet) × (ds : List Datagram) × (on_receive quiet 1 from_last
        (codes "data")
        []
        first_peer
      ≡ ok p')
    × (p'.sent ≡ first_peer.sent ++ ds)
    × Each
        (Sends
          (peer_node 0)
          0
          0
          1
          2
          peer_node
          (passed_on delayed_peer from_last)
          (codes "data")
          regions)
        (child_orders ring_fuel 1 1 2)
        ds
    × IsRegions (peer_node 0) 0 0 1 2 peer_node (child_orders ring_fuel 1 1 2) [] regions
    × Keeps (length (child_orders ring_fuel 1 1 2)) delayed_peer p'
unfolding make_peer_manager child_orders
on_receive_within_example =
    on_receive_within quiet 0 from_last (codes "data") [] first_peer 0 1 2 peer_node quiet-ClockFits
      refl refl refl (omega arith) three_table-RingView (omega arith) (omega arith) (omega arith)

broadcast_down_lem_example :
    (nodes : List Node) × (get_contact_nodes three_table (sub_size 1 1) ≡ ok nodes)
    × (broadcast_down quiet on_the_spot news 1 (codes "data") first_peer
        ≡ (if length nodes == 0 then err undefined else ok first_peer))
unfolding make_peer_manager
broadcast_down_lem_example =
    broadcast_down_lem quiet on_the_spot news 1 (codes "data") first_peer three_table-IsValid

contact_node_election_never_example :
    contact_node_election quiet on_the_spot 50 0 first_peer ≡ err out_of_fuel
unfolding make_peer_manager get_peer_list_size is_above ring_checked
contact_node_election_never_example =
    contact_node_election_never quiet on_the_spot 50 0 1 first_peer refl (omega arith)

broadcast_within_ring-set_type_example :
    broadcast_within_ring quiet on_the_spot (set_type news (pos 3)) 0 2 (codes "data") [] first_peer
    ≡ broadcast_within_ring quiet on_the_spot news 0 2 (codes "data") [] first_peer
broadcast_within_ring-set_type_example =
    broadcast_within_ring-set_type quiet on_the_spot news (pos 3) 0 2 (codes "data") [] first_peer
