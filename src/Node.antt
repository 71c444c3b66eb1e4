-- ===== src/Node.antt =====
-- include/node.h and src/node.cpp: a peer. Its id and ip are texts, its port is an
-- `unsigned short`, and a time point is the number that the clock returned.
use fring.Common.{ℕ, ◌%◌, ◌^◌}
use fring.Common.Text.{Bytes}

pub record Node : Type 0 where
  pub id : Bytes
  pub ip : Bytes
  pub port : ℕ
  pub last_ping : ℕ
  pub last_pong : ℕ

-- the conversion to `unsigned short`
abbrev pub to_port : ℕ → ℕ
to_port p = p % 2 ^ 16

-- The constructor with three arguments, at the time `now`.
abbrev pub make_node : ℕ → Bytes → Bytes → ℕ → Node
make_node now id ip port = record {
  id = id;
  ip = ip;
  port = to_port port;
  last_ping = now;
  last_pong = now;
}

abbrev pub get_id : Node → Bytes
get_id n = n.id

abbrev pub get_ip : Node → Bytes
get_ip n = n.ip

abbrev pub get_port : Node → ℕ
get_port n = n.port

abbrev pub set_id : Node → Bytes → Node
set_id n id = record n { id = id }

abbrev pub set_ip : Node → Bytes → Node
set_ip n new_ip = record n { ip = new_ip }

abbrev pub set_port : Node → ℕ → Node
set_port n new_port = record n { port = to_port new_port }

abbrev pub set_last_ping_now : ℕ → Node → Node
set_last_ping_now now n = record n { last_ping = now }

abbrev pub set_last_pong_now : ℕ → Node → Node
set_last_pong_now now n = record n { last_pong = now }
