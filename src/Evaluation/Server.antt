-- ===== src/Evaluation/Server.antt =====
-- evaluation/include/eval_server.h and evaluation/src/eval_server.cpp: the server that nodes register
-- with and that starts the experiments. Each handler holds the mutex, so it is one step. What the
-- console shows and the pauses between two datagrams are left out.
pub mod Pages
pub mod Registration
mod Tests
use mathlib.Core.Option
use fring.Common.{
  ℕ, zero, suc, ◌+◌, ◌%◌, Bool, true, false, ◌||◌, List, [], ◌∷◌, ◌++◌, Option, none, some, ltb,
  leb, ◌==◌, if◌then◌else◌, length, Result, ok, err, undefined, ◌>>=◌,
}
use fring.Common.Text.{Bytes, codes}
use fring.Node.{to_port}
use fring.Peer.State.{Datagram}
use fring.Evaluation.{
  Kind, init, config, table, broadcast, pull_log, push_log, unknown, Config, Table,
  BootstrapMessage, Protobuf, EvalConfig, message, empty_table, to_uint32,
}

pub record NodeRecord : Type 0 where
  pub ip : Bytes
  pub bootstrap_port : ℕ
  pub broadcast_port : ℕ

-- `NodeRecord()`
abbrev pub no_record : NodeRecord
no_record = record { ip = []; bootstrap_port = 0; broadcast_port = 0 }

abbrev pub NodeDatabase : Type 0
NodeDatabase = List (ℕ × NodeRecord)

unfoldable pub find_record : ℕ → NodeDatabase → Option NodeRecord
find_record id [] = none
find_record id ((key, r) ∷ db) = if key == id then some r else find_record id db

-- `insert`: a key that is there keeps its value
unfoldable pub insert_record : ℕ → NodeRecord → NodeDatabase → NodeDatabase
insert_record id r [] = (id, r) ∷ []
insert_record id r ((key, q) ∷ db) =
    if key == id then (key, q) ∷ db else (key, q) ∷ insert_record id r db

-- The fields, with null pointers as `none`, then what happened outside: the datagrams sent, and the
-- texts appended to files.
pub record EvalServer : Type 0 where
  pub has_server : Bool
  pub eval_config : Option BootstrapMessage
  pub db : Option NodeDatabase
  pub log_dir : Bytes
  pub sent : List Datagram
  pub written : List (Bytes × Bytes)

unfoldable pub make_eval_server : Bytes → EvalServer
make_eval_server log_dir = record {
  has_server = false;
  eval_config = none;
  db = none;
  log_dir = log_dir;
  sent = [];
  written = [];
}

-- `run`, up to the loop of the transport
unfoldable pub run : EvalServer → EvalServer
run s = record s { has_server = true; db = some [] }

abbrev pub record_of : Bytes → BootstrapMessage → NodeRecord
record_of ip msg = record {
  ip = ip;
  bootstrap_port = to_port msg.init.bootstrap_port;
  broadcast_port = to_port msg.init.broadcast_port;
}

abbrev pub log_name : Bytes → BootstrapMessage → Bytes
log_name log_dir msg =
    log_dir ++ b'/' ∷ (msg.push_log.run_id ++ b'_' ∷ (msg.push_log.node_id ++ codes ".txt"))

unfoldable pub handle_count : EvalServer → ℕ
handle_count s = elim s.db [ none ↦ 0 | some db ↦ length db ]

unfoldable pub handle_check : ℕ → EvalServer → NodeRecord
handle_check node_id s = elim s.db [
  | none ↦ no_record
  | some db ↦ elim (find_record node_id db) [ none ↦ no_record | some r ↦ r ]
]

-- `add_table_ids`, `add_table_ips`, `add_table_ports`
unfoldable pub add_entry : ℕ × NodeRecord → Table → Table
add_entry (key, r) t = record t {
  table_ids = t.table_ids ++ to_uint32 key ∷ [];
  table_ips = t.table_ips ++ r.ip ∷ [];
  table_ports = t.table_ports ++ r.broadcast_port ∷ [];
}

abbrev pub page_size : ℕ
page_size = 2000

-- `table_size` and `is_end` of the page that ends with the `i`th of `size` nodes
unfoldable pub close_page : ℕ → ℕ → Table → BootstrapMessage
close_page i size t = record (message table) {
  table = record t {
    table_size =
        to_uint32 (
          if ltb page_size i then (if i % page_size == 0 then page_size else i % page_size) else i);
    is_end = leb size i;
  };
}

unfoldable pub config_message : EvalConfig → BootstrapMessage
config_message c = record (message config) {
  config = record {
    run_id = c.run_id;
    kademlia = if c.eval_type == 0 then false else true;
    node_id = 0;
    sizes = c.sizes;
  };
}

-- the text of a message; what a failed call leaves is empty
abbrev pub buffer_of : Protobuf → BootstrapMessage → Bytes
buffer_of proto msg = elim (proto.serialize msg) [ none ↦ [] | some text ↦ text ]

-- The order in which the map is iterated, the text of a message, and which files open.
module _ (proto : Protobuf) (iterate : NodeDatabase → NodeDatabase) (opens : Bytes → Bool) where
  -- the handler of a message that was parsed
  unfoldable pub on_message : Bytes → BootstrapMessage → EvalServer → Kind → Result EvalServer
  on_message ip msg s init = elim s.db [
    | none ↦ err undefined
    | some db ↦ ok (record s { db = some (insert_record (length db) (record_of ip msg) db) })
  ]
  on_message ip msg s push_log =
      let filename = log_name s.log_dir msg in
      if opens filename
      then ok (record s { written = s.written ++ (filename, msg.push_log.log) ∷ [] })
      else ok s
  on_message ip msg s config = ok s
  on_message ip msg s table = ok s
  on_message ip msg s broadcast = ok s
  on_message ip msg s pull_log = ok s
  on_message ip msg s (unknown n) = ok s

  unfoldable pub dispatch : Bytes → Option BootstrapMessage → EvalServer → Result EvalServer
  dispatch ip none s = ok s
  dispatch ip (some msg) s = on_message ip msg s msg.type

  unfoldable pub receive : Bytes → ℕ → Bytes → EvalServer → Result EvalServer
  receive ip port text s = dispatch ip (proto.parse text) s

  unfoldable pub send : Bytes → ℕ → Bytes → EvalServer → Result EvalServer
  send ip port text s =
      if s.has_server
      then ok (record s { sent = s.sent ++ record { ip = ip; port = port; text = text } ∷ [] })
      else err undefined

  -- the loop over all nodes that sends one page
  unfoldable pub send_page : Bytes → NodeDatabase → EvalServer → Result EvalServer
  send_page buffer [] s = ok s
  send_page buffer ((key, r) ∷ db) s = do
    s' ← send r.ip r.bootstrap_port buffer s
    send_page buffer db s'

  -- the loop of `handle_table`: `i` nodes are done, `t` is the page so far
  unfoldable pub send_pages :
      NodeDatabase → ℕ → NodeDatabase → ℕ → Table → EvalServer → Result EvalServer
  send_pages db size [] i t s = ok s
  send_pages db size (entry ∷ entries) i t s =
      let t' = add_entry entry t in
      let rest = send_pages db size entries (suc i) in
      if (suc i % page_size == 0) || (suc i == size)
      then (send_page (buffer_of proto (close_page (suc i) size t')) db s >>= λ s'.
          rest empty_table s')
      else rest t' s

  unfoldable pub send_table : Option NodeDatabase → EvalServer → Result EvalServer
  send_table none s = ok s
  send_table (some db) s = send_pages (iterate db) (length db) (iterate db) 0 empty_table s

  unfoldable pub handle_table : EvalServer → Result EvalServer
  handle_table s = send_table s.db s

  -- `if (!tcp_server_)` in the three calls below
  abbrev pub send_checked : Bytes → ℕ → Bytes → EvalServer → EvalServer
  send_checked ip port text s =
      if s.has_server
      then record s { sent = s.sent ++ record { ip = ip; port = port; text = text } ∷ [] }
      else s

  unfoldable pub send_config : ℕ → Bytes → ℕ → EvalServer → EvalServer
  send_config node_id ip port s = elim s.eval_config [
    | none ↦ s
    | some msg ↦
        let msg' = record msg { config = record msg.config { node_id = to_uint32 node_id } } in
        send_checked ip port (buffer_of proto msg') (record s { eval_config = some msg' })
  ]

  unfoldable pub send_broadcast : ℕ → Bytes → ℕ → EvalServer → EvalServer
  send_broadcast workload_size ip port s =
      send_checked ip port
        (buffer_of proto (record (message broadcast) { workload_size = to_uint32 workload_size })) s

  unfoldable pub send_pull_log : Bytes → Bytes → ℕ → EvalServer → EvalServer
  send_pull_log run_id ip port s =
      send_checked ip port (buffer_of proto (record (message pull_log) { pull_run_id = run_id })) s

  unfoldable pub send_configs : NodeDatabase → EvalServer → EvalServer
  send_configs [] s = s
  send_configs ((key, r) ∷ db) s = send_configs db (send_config key r.ip r.bootstrap_port s)

  -- The only handler that does not ask for the database first.
  unfoldable pub handle_config : EvalConfig → EvalServer → Result EvalServer
  handle_config c s =
      let s' = record s { eval_config = some (config_message c) } in
      elim s.db [ none ↦ err undefined | some db ↦ ok (send_configs (iterate db) s') ]

  -- the record of a node, where the handler goes on
  unfoldable pub for_node : ℕ → (NodeRecord → EvalServer) → EvalServer → EvalServer
  for_node node_id action s = elim s.db [
    | none ↦ s
    | some db ↦ elim (find_record node_id db) [ none ↦ s | some r ↦ action r ]
  ]

  unfoldable pub handle_broadcast : ℕ → ℕ → EvalServer → EvalServer
  handle_broadcast node_id workload_size s =
      for_node node_id (λ r. send_broadcast workload_size r.ip r.bootstrap_port s) s

  unfoldable pub handle_pull_log : ℕ → Bytes → EvalServer → EvalServer
  handle_pull_log node_id run_id s =
      for_node node_id (λ r. send_pull_log run_id r.ip r.bootstrap_port s) s

  -- `pull_log_all` of the command line: the nodes 0, 1 and so on
  unfoldable pub pull_log_all : ℕ → ℕ → Bytes → EvalServer → EvalServer
  pull_log_all zero i run_id s = s
  pull_log_all (suc rounds) i run_id s =
      pull_log_all rounds (suc i) run_id (handle_pull_log i run_id s)
