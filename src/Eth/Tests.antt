-- ===== src/Eth/Tests.antt =====
-- Examples for the theorems on the gossip of src/peer_manager_eth.cpp.
use fring.Common.{ℕ, ◌≡◌, refl, arith, List, [], ◌∷◌, length, map, pos, ok, err, true}
use fring.Common.Text.{Bytes, codes, beq, substr}
use fring.Decimal.{to_string, to_decimal, setw}
use fring.Node.{make_node}
use fring.NodeTable.{deref}
use fring.NodeTableEth.{NodeTableEth, copy_each, get_peer_set}
use fring.Message.{
  Message, make_message_eth, set_ttl, insert_sent, put, to_csv_string, num_msgs_in_total,
}
use fring.Wire.{contains}
use fring.Peer.State.{Env, differ_at}
use fring.Eth.State.{
  PeerManagerEth, make_peer_manager_eth, simulate_delay, delay_range, sleep_within,
  random_num_in_range, log_sent, append_message_record, next_message_id,
}
use fring.Eth.Packet.{data_string, parse_packet}
use fring.Eth.Gossip.{
  draw_ids, on_receive, on_push, broadcast, broadcast_to, nodes_at, send_each, send,
}
use fring.Eth.RoundTrip.{IsClean, parse_packet-data_string_eth}
use fring.Eth.Draws.{AreFresh, draw_ids_two}
use fring.Peer.Delay.{parts, equal_parts}
use fring.Eth.Delay.{after_delay}
use fring.Eth.Once.{on_receive_once}

abbrev world : Env
world = record { rand = λ n. n; clock = λ t. 7; log_opens = λ t. true }

abbrev first_byte : Bytes → ℕ
first_byte [] = 0
first_byte (c ∷ s) = c

abbrev id_of : ℕ → Bytes
id_of c = c ∷ codes "0000000000000000000000000000000"

-- a neighbour for each draw, thirteen in all
abbrev thirteen : NodeTableEth
thirteen = record {
  self_id = id_of 1;
  table = 0 ∷ 1 ∷ 2 ∷ 3 ∷ 4 ∷ 5 ∷ 6 ∷ 7 ∷ 8 ∷ 9 ∷ 10 ∷ 11 ∷ 12 ∷ [];
  heap =
      map (λ c. make_node 1 (id_of c) (codes "a") 80)
        (0 ∷ 1 ∷ 2 ∷ 3 ∷ 4 ∷ 5 ∷ 6 ∷ 7 ∷ 8 ∷ 9 ∷ 10 ∷ 11 ∷ 12 ∷ []);
}

abbrev gossiper : PeerManagerEth
gossiper = make_peer_manager_eth (make_node 1 (id_of 20) (codes "b") 80) thirteen (codes "r")

abbrev expired : Message
expired = set_ttl (make_message_eth (codes "b1") [] (codes "n1") (codes "n2")) (pos 0)

expired-IsClean : IsClean (codes "n1") (codes "n2") expired (codes "m1") (codes "a,b")
unfolding data_string to_string
expired-IsClean = record {
  self = (omega arith, (omega arith, tt));
  receiver = (omega arith, (omega arith, tt));
  broadcast = (omega arith, (omega arith, tt));
  message = (omega arith, (omega arith, tt));
  type = omega arith;
  sized = omega arith;
}

parse_packet-data_string_eth_example :
    parse_packet (data_string (codes "n1") (codes "n2") expired (codes "m1") (codes "a,b"))
    ≡ ok (record {
      sender_id = codes "n1";
      receiver_id = codes "n2";
      broadcast_id = codes "b1";
      message_id = codes "m1";
      type = pos 0;
      ttl = to_string (pos 0);
      payload = codes "a,b";
    })
parse_packet-data_string_eth_example =
    parse_packet-data_string_eth (codes "n1") (codes "n2") expired (codes "m1") (codes "a,b")
      expired-IsClean

draw_ids_two_example :
    (ids : List ℕ) × (p' : PeerManagerEth) × (draw_ids world first_byte 9 2 (0 ∷ []) gossiper
      ≡ ok (ids, p'))
    × (length ids ≡ 2)
    × AreFresh (0 ∷ []) ids
draw_ids_two_example =
    draw_ids_two world first_byte 9 1 2 (0 ∷ []) gossiper (omega arith) (omega arith) refl refl
      (λ e. omega (arith, e))

abbrev news : ℕ → Message
news c = make_message_eth (codes "b1") (codes "m1") (id_of c) (id_of 20)

-- the node after it has passed the broadcast on to three neighbours
abbrev informed : PeerManagerEth
informed = elim (on_receive world first_byte 9 (news 3) (codes "x") (codes "ip1") 80 gossiper) [
  | ok p ↦ p
  | err fault ↦ gossiper
]

passed_on :
    (on_receive world first_byte 9 (news 3) (codes "x") (codes "ip1") 80 gossiper ≡ ok informed)
    × (length informed.sent ≡ 3)
unfolding on_receive simulate_delay delay_range differ_at substr beq sleep_within
    random_num_in_range on_push contains broadcast broadcast_to get_peer_set copy_each deref
    nodes_at draw_ids send_each send log_sent append_message_record insert_sent put to_csv_string
    next_message_id num_msgs_in_total setw to_decimal to_string
passed_on = (refl, refl)

on_receive_once_example :
    on_receive world first_byte 9 (news 4) (codes "y") (codes "ip2") 81 informed
    ≡ ok (after_delay world (equal_parts parts (news 4).sender_id informed.node.id) informed)
on_receive_once_example =
    on_receive_once world first_byte 9 9 (news 3) (news 4) (codes "x") (codes "y") (codes "ip1")
      (codes "ip2") 80 81 gossiper informed refl refl refl refl refl passed_on.0
