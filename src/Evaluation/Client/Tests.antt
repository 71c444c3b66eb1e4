-- ===== src/Evaluation/Client/Tests.antt =====
-- One node, its table and its log, between a server and a client.
use fring.Common.{
  ℕ, zero, suc, ◌≡◌, refl, ◌∙◌, ap, arith, Bool, true, false, List, [], ◌∷◌, ◌++◌, map, Option,
  some, none, ◌==◌, if◌then◌else◌, length, length-map, take, drop, take-append, drop-append, ok,
  All,
}
use fring.Common.Text.{Bytes, codes}
use fring.Ids.{Sizes, unit_sizes, convert_id_int_to_string}
use fring.Decimal.{setw}
use fring.Evaluation.Rings.{NodeList}
use fring.NodeTable.{Ptr, Map, lookup, make_table}
use fring.Peer.State.{Env, make_peer_manager}
use fring.Peer.Ring.{Deliver}
use fring.Evaluation.{
  Kind, table, push_log, BootstrapMessage, Table, Protobuf, EvalConfig, message, empty_table,
}
use fring.Evaluation.Server.{
  NodeDatabase, EvalServer, make_eval_server, log_name, buffer_of, handle_table,
}
use fring.Evaluation.Server.Pages.{Entry, id_of, ip_of, port_of, page, all_to_all}
use fring.Evaluation.ClientState.{listed, EvalClient, make_eval_client, log_message}
use fring.Evaluation.Client.{who_logs, send_push_log}
use fring.Evaluation.Client.Listing.{
  IsWritten, latest, configured, with_nodes, receive_all, start, handle_table-receive,
}
use fring.Evaluation.Client.Paging.{IsPart, having_sent, to_server, log_messages}
use fring.Evaluation.Client.Logs.{content, IsTo, take_all, send_push_log-take_all}
use fring.Node.{make_node}
use fring.App.{localhost}

-- a wire format for pages and logs, where a text may hold any numbers
abbrev rows_text : List ℕ → List Bytes → List ℕ → Bytes
rows_text [] ips ports = []
rows_text (i ∷ ids) [] ports = []
rows_text (i ∷ ids) (ip ∷ ips) [] = []
rows_text (i ∷ ids) (ip ∷ ips) (port ∷ ports) =
    i ∷ port ∷ length ip ∷ (ip ++ rows_text ids ips ports)

abbrev add_row : ℕ → Bytes → ℕ → Table → Table
add_row i ip port t = record t {
  table_ids = i ∷ t.table_ids;
  table_ips = ip ∷ t.table_ips;
  table_ports = port ∷ t.table_ports;
}

abbrev read_rows : ℕ → Bytes → Table
read_rows zero text = empty_table
read_rows (suc n) [] = empty_table
read_rows (suc n) (i ∷ []) = empty_table
read_rows (suc n) (i ∷ port ∷ []) = empty_table
read_rows (suc n) (i ∷ port ∷ len ∷ text) =
    add_row i (take len text) port (read_rows n (drop len text))

abbrev flag : Bool → ℕ
flag true = 1
flag false = 0

abbrev table_message : Bool → ℕ → Table → BootstrapMessage
table_message is_last size rows = record (message table) {
  table = record rows { table_size = size; is_end = is_last };
}

abbrev write : Kind → BootstrapMessage → Bytes
write table msg =
    0
    ∷ flag msg.table.is_end
    ∷ length msg.table.table_ids
    ∷ rows_text msg.table.table_ids msg.table.table_ips msg.table.table_ports
write push_log msg =
    let l = msg.push_log in
    1 ∷ length l.run_id ∷ (l.run_id ++ length l.node_id ∷ (l.node_id ++ l.log))
write other msg = []

abbrev read_page : Bytes → Option BootstrapMessage
read_page [] = none
read_page (end ∷ []) = none
read_page (end ∷ size ∷ text) = some (table_message (end == 1) size (read_rows size text))

abbrev read_log_of : Bytes → Bytes → Option BootstrapMessage
read_log_of run_id [] = none
read_log_of run_id (size ∷ text) = some (log_message run_id (take size text) (drop size text))

abbrev read_log : Bytes → Option BootstrapMessage
read_log [] = none
read_log (size ∷ text) = read_log_of (take size text) (drop size text)

abbrev read : Bytes → Option BootstrapMessage
read [] = none
read (tag ∷ text) = if tag == 0 then read_page text else read_log text

abbrev plain : Protobuf
plain = record { serialize = λ msg. some (write msg.type msg); parse = read }

read_rows-rows_text :
    (chunk : List Entry)
    → read_rows (length chunk) (rows_text (map id_of chunk) (map ip_of chunk) (map port_of chunk))
      ≡ record empty_table {
        table_ids = map id_of chunk;
        table_ips = map ip_of chunk;
        table_ports = map port_of chunk;
      }
read_rows-rows_text [] = refl
read_rows-rows_text (e ∷ chunk) =
    let rest = rows_text (map id_of chunk) (map ip_of chunk) (map port_of chunk) in
    rw (take-append (ip_of e) rest, drop-append (ip_of e) rest)
      (ap (add_row (id_of e) (ip_of e) (port_of e)) (read_rows-rows_text chunk))

plain-page :
    (chunk : List Entry) (is_last : Bool)
    → plain.parse (buffer_of plain (page is_last chunk)) ≡ some (page is_last chunk)
plain-page chunk is_last = flagged is_last
  where
    rows :
        (b : Bool)
        → some (
            table_message b (length (map id_of chunk)) (
              read_rows
                (length (map id_of chunk))
                (rows_text (map id_of chunk) (map ip_of chunk) (map port_of chunk))))
          ≡ some (page b chunk)
    rows b =
        ap
          (λ n. some (
            table_message b n
              (read_rows n (rows_text (map id_of chunk) (map ip_of chunk) (map port_of chunk)))))
          (length-map id_of chunk)
        ∙ ap (λ t. some (table_message b (length chunk) t)) (read_rows-rows_text chunk)

    flagged : (b : Bool) → plain.parse (buffer_of plain (page b chunk)) ≡ some (page b chunk)
    flagged true = rows true
    flagged false = rows false

plain_log :
    (run_id node_id log : Bytes)
    → plain.parse (buffer_of plain (log_message run_id node_id log))
      ≡ some (log_message run_id node_id log)
unfolding log_message
plain_log run_id node_id log =
    let rest = length node_id ∷ (node_id ++ log) in
    rw
      (
        take-append run_id rest,
        drop-append run_id rest,
        take-append node_id log,
        drop-append node_id log,
      )
      refl

abbrev one_district : Sizes
one_district = record {
  num_nodes_in_dist = 1;
  num_cnodes_in_dist = 1;
  num_nodes_in_city = 0;
  num_cnodes_in_city = 1;
  num_nodes_in_state = 0;
  num_cnodes_in_state = 1;
  num_nodes_in_country = 0;
  num_cnodes_in_country = 1;
  num_nodes_in_continent = 0;
  num_cnodes_in_continent = 1;
  num_continents = 1;
}

abbrev node_0 : Bytes
node_0 = codes "00000000000000000000000000000000"

abbrev run_1 : EvalConfig
run_1 = record { run_id = codes "r1"; str_node_id = node_0; eval_type = 0; sizes = one_district }

abbrev db_1 : NodeDatabase
db_1 = (0, record { ip = codes "10.0.0.1"; bootstrap_port = 7000; broadcast_port = 7001 }) ∷ []

abbrev server_1 : EvalServer
server_1 = record (make_eval_server (codes "log")) { has_server = true; db = some db_1 }

abbrev client_1 : EvalClient
client_1 = make_eval_client 7000 7001 (codes "10.0.0.9") 6000

abbrev counting_env : Env
counting_env = record { rand = λ n. n; clock = λ n. n; log_opens = λ n. true }

abbrev no_delivery : Deliver
no_delivery = λ msg text ids p. ok p

abbrev no_hash : Bytes → ℕ
no_hash text = 0

abbrev same_order : Map Ptr → Map Ptr
same_order m = m

abbrev same_db : NodeDatabase → NodeDatabase
same_db db = db

abbrev always : Bytes → Bool
always file = true

abbrev log_1 : Bytes → Bytes → Bytes
log_1 run_id node_id = codes "a,b" ++ 10 ∷ []

db_1-IsWritten : All (IsWritten one_district) (same_db db_1)
unfolding convert_id_int_to_string unit_sizes setw
db_1-IsWritten = ((omega arith, (node_0, refl)), tt)

handle_table-receive_example :
    (pages : List BootstrapMessage) × (nodes : NodeList) × (handle_table plain same_db always
        server_1
      ≡ ok (record server_1 { sent = server_1.sent ++ all_to_all plain (same_db db_1) pages }))
    × (receive_all counting_env no_delivery no_hash same_order plain log_1 100
          (codes "10.0.0.9")
          6000
          (map (buffer_of plain) pages)
          (configured client_1 run_1)
        ≡ start counting_env no_delivery no_hash same_order plain log_1 100 run_1 nodes
            (configured (with_nodes client_1 nodes) run_1))
    × ((x : Bytes)
        → lookup x nodes
          ≡ latest one_district x (same_db db_1) (lookup x (listed client_1.node_list)))
unfolding make_eval_client
handle_table-receive_example =
    handle_table-receive counting_env no_delivery no_hash same_order plain log_1 100 plain-page
      (codes "10.0.0.9") 6000 same_db always server_1 db_1 client_1 run_1 refl refl refl
      (omega arith) db_1-IsWritten

-- a client whose PeerManager runs
abbrev client_2 : EvalClient
client_2 = record client_1 {
  has_server = true;
  eval_config = some run_1;
  self = some (make_node 0 node_0 localhost 7001);
  peer_manager =
      some (make_peer_manager (make_node 0 node_0 localhost 7001) (make_table node_0) (codes "r1"));
}

who_logs_2 :
    who_logs counting_env no_delivery no_hash same_order plain log_1 client_2
    ≡ ok (codes "r1", node_0)
unfolding who_logs make_eval_client make_peer_manager
who_logs_2 = refl

send_push_log-take_all_example :
    (parts : List (List Bytes)) × All IsPart parts
    × (send_push_log counting_env no_delivery no_hash same_order plain log_1 client_2
        ≡ ok (
            having_sent client_2
              (to_server plain client_2 (log_messages (codes "r1") node_0 parts))))
    × ((new : List (Bytes × Bytes)) × (take_all plain same_db always
            (codes "10.0.0.1")
            7000
            (map (buffer_of plain) (log_messages (codes "r1") node_0 parts))
            server_1
          ≡ ok (record server_1 { written = server_1.written ++ new }))
        × (content new ≡ log_1 (codes "r1") node_0)
        × All (IsTo (log_name server_1.log_dir (log_message (codes "r1") node_0 []))) new)
unfolding make_eval_client
send_push_log-take_all_example =
    send_push_log-take_all plain same_db always (codes "10.0.0.1") 7000 (codes "r1") node_0
      (plain_log (codes "r1") node_0) counting_env no_delivery no_hash same_order log_1 client_2
      server_1 (codes "a,b") (λ msg. (write msg.type msg, refl)) who_logs_2 refl refl refl
