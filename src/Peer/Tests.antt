-- ===== src/Peer/Tests.antt =====
-- Examples for the theorems on the broadcast of src/peer_manager.cpp.
use fring.Common.{ℕ, ◌≡◌, ap, arith, [], ◌∷◌, map, true, pos, ok}
use fring.Common.Text.{Bytes, codes}
use fring.Node.{Node, make_node}
use fring.NodeTable.{make_table}
use fring.Message.{Message, make_message, set_receiver_id, to_csv_string}
use fring.Wire.{data_string}
use fring.Peer.State.{Env, PeerManager, make_peer_manager, next_message_id}
use fring.Peer.Ring.{Deliver, ring_targets, ring_fuel, send}
use fring.Peer.Tree.{child_orders}
use fring.Peer.Targets.{target_of, ring_targets-child_orders}
use fring.Peer.Logging.{ClockFits, IsShort, logged, after_send, send_remote_lem}

ring_targets-child_orders_example :
    ring_targets ring_fuel 2 0 (pos 1) (pos 8) (pos 9)
    ≡ ok (map (target_of 8 1 9) (child_orders ring_fuel 1 1 9))
ring_targets-child_orders_example = ring_targets-child_orders 1 8 9 (omega arith) (omega arith)

abbrev surroundings : Env
surroundings = record { rand = λ n. n; clock = λ t. 7; log_opens = λ t. true }

surroundings-ClockFits : ClockFits surroundings
surroundings-ClockFits t = omega arith

abbrev sender : PeerManager
sender =
    make_peer_manager (make_node 5 (codes "n1") (codes "ip1") 80) (make_table (codes "n1"))
      (codes "r")

abbrev receiver : Node
receiver = make_node 6 (codes "n2") (codes "ip2") 81

abbrev news : Message
news = set_receiver_id (make_message (codes "b7") [] (pos 2) 1 (codes "n1") []) (codes "n2")

news-IsShort : IsShort news
news-IsShort = record {
  broadcast = omega arith;
  sender = omega arith;
  receiver = omega arith;
  type = omega arith;
  order = omega arith;
  level = omega arith;
}

-- the byte that tells the two ids apart
abbrev last_byte : Bytes → ℕ
last_byte [] = 0
last_byte (c ∷ []) = c
last_byte (c ∷ d ∷ s) = last_byte (d ∷ s)

abbrev on_the_spot : Deliver
on_the_spot msg payload ids p = ok p

send_remote_lem_example :
    (line : Bytes) × (to_csv_string (logged surroundings news sender) ≡ ok line)
    × (send surroundings on_the_spot receiver news (codes "data") [] sender
        ≡ ok (
            after_send surroundings news sender line (record {
              ip = codes "ip2";
              port = 81;
              text =
                  data_string sender.node.id
                    (codes "n2")
                    news
                    (next_message_id sender)
                    []
                    (codes "data");
            })))
unfolding make_peer_manager
send_remote_lem_example =
    send_remote_lem surroundings surroundings-ClockFits news news-IsShort sender (omega arith)
      (omega arith) on_the_spot receiver (codes "data") []
      (λ e. absurd (omega (arith, ap last_byte e)))
