-- ===== src/Eth/State.antt =====
-- The state of a `PeerManagerETH`, what it does to the world outside, and its random numbers.
use fring.Common.{
  ℕ, suc, zero, ◌+◌, ◌%◌, Bool, List, [], ◌∷◌, ◌++◌, if◌then◌else◌, ℤ, pos, negsuc, ◌+ℤ◌, ◌-ℤ◌,
  Option, none, some, Result, ok, err, undefined, ◌>>=◌, length,
}
use fring.Common.Text.{Bytes}
use fring.Decimal.{setw}
use fring.Node.{Node}
use fring.NodeTable.{Map}
use fring.NodeTableEth.{NodeTableEth}
use fring.Message.{
  Message, MessageTable, num_msgs_in_total, insert_sent, insert_received, to_csv_string,
  table_to_csv_string,
}
use fring.Params.{
  msg_id_len, broadcast_id_len, id_continent_start, id_continent_len, id_country_start,
  id_country_len, id_state_start, id_state_len, id_city_start, id_city_len, id_district_start,
  id_district_len,
}
use fring.Peer.State.{Env, Datagram, differ_at}

abbrev pub push : ℕ
push = 0

abbrev pub pull : ℕ
pull = 1

-- The fields of the class, then what happened outside: the datagrams sent, the lines of the log,
-- the delays slept, and how many random numbers and times were read.
pub record PeerManagerEth : Type 0 where
  pub node : Node
  pub node_table : NodeTableEth
  pub msg_table : MessageTable
  pub broadcasted_msgs : List Bytes
  pub broadcasted_msgs_all_nodes : List Bytes
  pub run_id : Bytes
  pub mode : ℕ
  pub data_map : Map Bytes
  pub sent : List Datagram
  pub log : List Bytes
  pub delays : List ℕ
  pub draws : ℕ
  pub ticks : ℕ

abbrev pub make_peer_manager_eth : Node → NodeTableEth → Bytes → PeerManagerEth
make_peer_manager_eth node node_table run_id = record {
  node = node;
  node_table = node_table;
  msg_table = [];
  broadcasted_msgs = [];
  broadcasted_msgs_all_nodes = [];
  run_id = run_id;
  mode = push;
  data_map = [];
  sent = [];
  log = [];
  delays = [];
  draws = 0;
  ticks = 0;
}

pub set_node : PeerManagerEth → Node → PeerManagerEth
set_node p node = record p { node = node }

pub set_node_table : PeerManagerEth → NodeTableEth → PeerManagerEth
set_node_table p node_table = record p { node_table = node_table }

-- an `unsigned short`
abbrev pub set_mode : PeerManagerEth → ℕ → PeerManagerEth
set_mode p mode = record p { mode = mode % 65536 }

unfoldable pub next_message_id : PeerManagerEth → Bytes
next_message_id p = p.node.id ++ setw msg_id_len (num_msgs_in_total p.msg_table)

unfoldable pub next_broadcast_id : PeerManagerEth → Bytes
next_broadcast_id p = p.node.id ++ setw broadcast_id_len (length p.broadcasted_msgs)

module _ (env : Env) where
  -- `rand() % (high - low + 1) + low`
  unfoldable pub random_num_in_range : ℕ → ℤ → PeerManagerEth → Result (ℕ × PeerManagerEth)
  random_num_in_range low high p = elim (high -ℤ pos low +ℤ pos 1) [
    | pos zero ↦ err undefined
    | pos (suc n) ↦ ok (env.rand p.draws % suc n + low, record p { draws = suc p.draws })
    | negsuc n ↦ ok (env.rand p.draws % suc n + low, record p { draws = suc p.draws })
  ]

  unfoldable pub append_message_record : Message → PeerManagerEth → Result PeerManagerEth
  append_message_record msg p =
      if env.log_opens p.ticks
      then (to_csv_string msg >>= λ line. ok (record p { log = p.log ++ line ∷ [] }))
      else ok p

  -- the whole table at the end of the log file, if it opens
  unfoldable pub log_message_records : PeerManagerEth → Result PeerManagerEth
  log_message_records p =
      if env.log_opens p.ticks
      then (table_to_csv_string p.msg_table >>= λ text. ok (record p { log = p.log ++ text ∷ [] }))
      else ok p

  -- the message table, with the next time, and then the log
  unfoldable pub log_sent : Message → PeerManagerEth → Result PeerManagerEth
  log_sent msg p =
      let (table, inserted) = insert_sent (env.clock p.ticks) p.msg_table msg in
      append_message_record inserted (record p { msg_table = table; ticks = suc p.ticks })

  unfoldable pub log_received : Message → PeerManagerEth → Result PeerManagerEth
  log_received msg p =
      let (table, inserted) = insert_received (env.clock p.ticks) p.msg_table msg in
      append_message_record inserted (record p { msg_table = table; ticks = suc p.ticks })

  abbrev pub choose :
      Result Bool → Result (Option (ℕ × ℕ)) → Result (Option (ℕ × ℕ)) → Result (Option (ℕ × ℕ))
  choose test differ same = test >>= λ b. if b then differ else same

  -- the range that the delay is drawn from, by the highest part in which the ids differ
  unfoldable pub delay_range : Bytes → Bytes → Result (Option (ℕ × ℕ))
  delay_range sender receiver =
      choose (differ_at env sender receiver id_continent_start id_continent_len)
        (ok (some (160, 200)))
        (choose (differ_at env sender receiver id_country_start id_country_len)
          (ok (some (120, 160)))
          (choose (differ_at env sender receiver id_state_start id_state_len) (ok (some (80, 120)))
            (choose (differ_at env sender receiver id_city_start id_city_len) (ok (some (40, 80))) (
              choose (differ_at env sender receiver id_district_start id_district_len)
                (ok (some (0, 40))) (ok none)))))

  unfoldable pub sleep_within : Option (ℕ × ℕ) → PeerManagerEth → Result PeerManagerEth
  sleep_within none p = ok (record p { delays = p.delays ++ 0 ∷ [] })
  sleep_within (some (low, high)) p = random_num_in_range low (pos high) p >>= λ (time, p').
      ok (record p' { delays = p'.delays ++ time ∷ [] })

  unfoldable pub simulate_delay : Bytes → Bytes → PeerManagerEth → Result PeerManagerEth
  simulate_delay sender receiver p = delay_range sender receiver >>= λ range. sleep_within range p
