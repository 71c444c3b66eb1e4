-- ===== src/Peer/State.antt =====
-- include/peer_manager.h: the state of a `PeerManager`, what it does to the world outside, and the
-- random numbers. A call takes the state and returns the new one, or a fault.
use fring.Common.{
  ℕ, zero, suc, ◌+◌, ◌%◌, Bool, true, false, List, [], ◌∷◌, ◌++◌, if◌then◌else◌, ℤ, pos, negsuc,
  ◌+ℤ◌, ◌-ℤ◌, Result, ok, err, undefined, ◌>>=◌, length,
}
use fring.Common.Text.{Bytes, substr, beq}
use fring.Decimal.{setw}
use fring.Node.{Node}
use fring.NodeTable.{NodeTable}
use fring.Message.{
  Message, MessageTable, num_msgs_in_total, insert_sent, insert_received, to_csv_string,
  table_to_csv_string,
}
use fring.Params.{
  msg_id_len, broadcast_id_len, id_continent_start, id_continent_len, id_country_start,
  id_country_len, id_state_start, id_state_len, id_city_start, id_city_len, id_district_start,
  id_district_len,
}

-- What the program asks of its surroundings: the values that `rand()` and the clock return, one
-- after the other, and whether the log file of the run can be opened at a time.
pub record Env : Type 0 where
  pub rand : ℕ → ℕ
  pub clock : ℕ → ℕ
  pub log_opens : ℕ → Bool

-- a call of the transport's `send`
pub record Datagram : Type 0 where
  pub ip : Bytes
  pub port : ℕ
  pub text : Bytes

-- The fields of the class, then what happened outside: the datagrams sent, the lines of the log,
-- the delays slept, and how many random numbers and times were read.
pub record PeerManager : Type 0 where
  pub node : Node
  pub node_table : NodeTable
  pub msg_table : MessageTable
  pub broadcasted_msgs : List Bytes
  pub run_id : Bytes
  pub sent : List Datagram
  pub log : List Bytes
  pub delays : List ℕ
  pub draws : ℕ
  pub ticks : ℕ

unfoldable pub make_peer_manager : Node → NodeTable → Bytes → PeerManager
make_peer_manager node node_table run_id = record {
  node = node;
  node_table = node_table;
  msg_table = [];
  broadcasted_msgs = [];
  run_id = run_id;
  sent = [];
  log = [];
  delays = [];
  draws = 0;
  ticks = 0;
}

pub set_node : PeerManager → Node → PeerManager
set_node p node = record p { node = node }

pub set_node_table : PeerManager → NodeTable → PeerManager
set_node_table p node_table = record p { node_table = node_table }

-- the id of the node and a number with zeros on the left
abbrev pub numbered : ℕ → PeerManager → ℕ → Bytes
numbered width p n = p.node.id ++ setw width n

-- the message id that `send` and `on_receive` make
unfoldable pub next_message_id : PeerManager → Bytes
next_message_id p = numbered msg_id_len p (num_msgs_in_total p.msg_table)

-- the broadcast id that `broadcast` and the election make
unfoldable pub next_broadcast_id : PeerManager → Bytes
next_broadcast_id p = numbered broadcast_id_len p (length p.broadcasted_msgs)

module _ (env : Env) where
  -- `rand()`
  abbrev pub drawn : PeerManager → PeerManager
  drawn p = record p { draws = suc p.draws }

  -- `rand() % (high-low+1) + low`
  unfoldable pub random_num_in_range : ℕ → ℤ → PeerManager → Result (ℕ × PeerManager)
  random_num_in_range low high p = elim (high -ℤ pos low +ℤ pos 1) [
    | pos zero ↦ err undefined
    | pos (suc n) ↦ ok (env.rand p.draws % suc n + low, drawn p)
    | negsuc n ↦ ok (env.rand p.draws % suc n + low, drawn p)
  ]

  -- a line at the end of the log file, if it opens
  unfoldable pub append_message_record : Message → PeerManager → Result PeerManager
  append_message_record msg p =
      if env.log_opens p.ticks
      then (to_csv_string msg >>= λ line. ok (record p { log = p.log ++ line ∷ [] }))
      else ok p

  -- the whole table at the end of the log file, if it opens
  unfoldable pub log_message_records : PeerManager → Result PeerManager
  log_message_records p =
      if env.log_opens p.ticks
      then (table_to_csv_string p.msg_table >>= λ text. ok (record p { log = p.log ++ text ∷ [] }))
      else ok p

  -- the message table, with the next time, and then the log
  unfoldable pub log_sent : Message → PeerManager → Result PeerManager
  unfolding append_message_record
  log_sent msg p =
      let (table, inserted) = insert_sent (env.clock p.ticks) p.msg_table msg in
      append_message_record inserted (record p { msg_table = table; ticks = suc p.ticks })

  unfoldable pub log_received : Message → PeerManager → Result PeerManager
  unfolding append_message_record
  log_received msg p =
      let (table, inserted) = insert_received (env.clock p.ticks) p.msg_table msg in
      append_message_record inserted (record p { msg_table = table; ticks = suc p.ticks })

  -- The places of two ids at which `on_receive` compares: from `start`, and `start + len` bytes.
  unfoldable pub differ_at : Bytes → Bytes → ℕ → ℕ → Result Bool
  differ_at sender receiver start len = do
    s ← substr sender start (start + len)
    r ← substr receiver start (start + len)
    ok (if beq s r then false else true)

  abbrev pub sleep_between : ℕ → ℤ → PeerManager → Result PeerManager
  sleep_between low high p = random_num_in_range low high p >>= λ (time, p').
      ok (record p' { delays = p'.delays ++ time ∷ [] })

  abbrev pub or_else : Result Bool → Result PeerManager → Result PeerManager → Result PeerManager
  or_else test yes_branch no_branch = test >>= λ b. if b then yes_branch else no_branch

  -- The simulated delay of a message between two ids.
  unfoldable pub simulate_delay : Bytes → Bytes → PeerManager → Result PeerManager
  simulate_delay sender receiver p =
      or_else (differ_at sender receiver id_continent_start id_continent_len)
        (sleep_between 160 (pos 200) p)
        (or_else (differ_at sender receiver id_country_start id_country_len)
          (sleep_between 120 (pos 160) p)
          (or_else (differ_at sender receiver id_state_start id_state_len)
            (sleep_between 80 (pos 120) p)
            (or_else (differ_at sender receiver id_city_start id_city_len)
              (sleep_between 40 (pos 80) p)
              (or_else (differ_at sender receiver id_district_start id_district_len)
                (sleep_between 0 (pos 40) p) (ok (record p { delays = p.delays ++ 0 ∷ [] }))))))
