-- ===== src/Discovery.antt =====
-- include/discovery.h and src/discovery.cpp: pings and pongs between neighbours. A datagram is the id
-- of its sender and one byte, the command; `now` is the time that the clock returns.
pub mod Commands
mod Tests
use fring.Common.{
  ℕ, suc, ◌+◌, ◌%◌, ◌/◌, Bool, true, false, List, [], ◌∷◌, ◌++◌, if◌then◌else◌, ◌==◌, get_elem?,
  Result, ok, err, out_of_range, bad_weak_ptr, or_fail, ◌>>=◌,
}
use fring.Common.Text.{Bytes, substr, substr_from}
use fring.NodeTable.{NodeTable, has_node, set_node_last_ping_now, set_node_last_pong_now}
use fring.Peer.State.{Datagram}

abbrev pub cmd_ping : ℕ
cmd_ping = 1

abbrev pub cmd_pong : ℕ
cmd_pong = 2

-- `class Packet`: the payload is the datagram
pub record Packet : Type 0 where
  pub payload : Bytes

abbrev pub pack : Packet → Bytes
pack packet = packet.payload

abbrev pub unpack : Bytes → Packet
unpack datagram = record { payload = datagram }

abbrev pub set_payload : Packet → Bytes → Packet
set_payload packet new_payload = record packet { payload = new_payload }

-- the node table, and the datagrams sent
pub record Discovery : Type 0 where
  pub node_table : NodeTable
  pub sent : List Datagram

-- The constructor: its first initializer calls `shared_from_this()`, which throws, since no
-- `shared_ptr` owns the object yet. What follows is about an object whose node table was set by
-- other means.
pub make_discovery : NodeTable → ℕ → Result Discovery
make_discovery node_table port = err bad_weak_ptr

unfoldable pub send : Bytes → ℕ → Bytes → Discovery → Discovery
send ip port payload d = record d {
  sent = d.sent ++ record { ip = ip; port = port; text = pack (unpack payload) } ∷ [];
}

unfoldable pub send_ping : ℕ → Bytes → Bytes → ℕ → Discovery → Result Discovery
send_ping now id ip port d =
    let d' = send ip port (d.node_table.self_id ++ cmd_ping ∷ []) d in
    has_node d'.node_table 0 id >>= λ known.
    if known
    then (set_node_last_ping_now now d'.node_table 0 id >>= λ t. ok (record d' { node_table = t }))
    else ok d'

unfoldable pub send_pong : Bytes → ℕ → Discovery → Discovery
send_pong ip port d = send ip port (d.node_table.self_id ++ cmd_pong ∷ []) d

unfoldable pub receive_ping : Bytes → ℕ → Discovery → Discovery
receive_ping ip port d = send_pong ip port d

unfoldable pub receive_pong : ℕ → Bytes → Bytes → ℕ → Discovery → Result Discovery
receive_pong now id ip port d = has_node d.node_table 0 id >>= λ known.
    if known
    then (set_node_last_pong_now now d.node_table 0 id >>= λ t. ok (record d { node_table = t }))
    else ok d

-- `cmd & CMD_PING` and `cmd & CMD_PONG` are the two lowest bits of the byte.
unfoldable pub dispatch : ℕ → Bytes → ℕ → Bytes → ℕ → Discovery → Result Discovery
dispatch now id cmd ip port d =
    if cmd % 2 == 1
    then ok (receive_ping ip port d)
    else if cmd / 2 % 2 == 1
    then receive_pong now id ip port d
    else ok d

unfoldable pub receive : ℕ → Bytes → ℕ → Bytes → Discovery → Result Discovery
receive now ip port datagram d = do
  id ← substr datagram 0 8
  cmd ← or_fail (get_elem? datagram 8) out_of_range
  cmd_field ← substr_from datagram 9
  dispatch now id cmd ip port d
