-- ===== src/Evaluation/Client.antt =====
-- evaluation/include/eval_client.h and evaluation/src/eval_client.cpp: the client that takes the
-- orders of the evaluation server and runs a node. One message is handled at a time. What the
-- console shows, the threads of the PeerManagers and the making of directories are left out.
-- `records` is what the log file of a node holds.
pub mod Paging
pub mod Logs
pub mod Listing
pub mod Configured
mod Tests
mod ConfiguredTests
use fring.Common.{
  ℕ, zero, suc, ◌+◌, ◌%◌, Bool, true, false, not, ◌&&◌, List, [], ◌∷◌, ◌++◌, Option, none, some,
  ◌==◌, if◌then◌else◌, length, get_elem?, replicate, pos, Result, ok, err, undefined, or_fail,
  as_int, ◌>>=◌,
}
use fring.Common.Text.{Bytes, beq}
use fring.Node.{Node, make_node, to_port}
use fring.NodeTable.{NodeTable, Ptr, Map, lookup, make_table}
use fring.NodeTableEth.{NodeTableEth, set_table}
use fring.NodeTableEth as NodeTableEth
use fring.Params.{ttl_eth}
use fring.Ids.{Sizes, convert_id_int_to_string, convert_id_string_to_int}
use fring.Peer.State.{Env, Datagram, PeerManager, make_peer_manager}
use fring.Peer.Ring.{Deliver}
use fring.Peer.Handlers
use fring.Eth.State.{PeerManagerEth, make_peer_manager_eth, set_mode, push}
use fring.Eth.Gossip
use fring.Forming.{own_parts}
use fring.FormingEth.{FormingEth, grid_of, neighbour_ids, visit_all}
use fring.App.{localhost}
use fring.Evaluation.{
  Kind, init, config, table, broadcast, pull_log, push_log, unknown, Table, BootstrapMessage,
  Protobuf, EvalConfig, message, int_sizes,
}
use fring.Evaluation.Rings.{NodeList, create_hgfr_table}
use fring.Evaluation.ClientState.{
  EvalClient, make_eval_client, generate_random_workload, assign, list_rows, reset,
  lines_per_message, get_lines, log_message, listed, is_none, and_then, same,
}

-- the random numbers and the clock, the transport of the PeerManagers, `std::hash`, the order of a
-- map, Protocol Buffers, and the log files by run and node
module _ (env : Env) (deliver : Deliver) (hash : Bytes → ℕ) (iterate : Map Ptr → Map Ptr)
    (proto : Protobuf) (records : Bytes → Bytes → Bytes) where
  -- `SerializeToString`, the check of the server, and `send`: `none` is an early return
  unfoldable pub send_text : Option Bytes → EvalClient → Option EvalClient
  send_text none s = none
  send_text (some text) s =
      if s.has_server
      then some (record s {
        sent =
            s.sent
            ++ record { ip = s.bootstrap_server_ip; port = s.bootstrap_server_port; text = text }
              ∷ [];
      })
      else none

  unfoldable pub send_message : BootstrapMessage → EvalClient → Option EvalClient
  send_message msg s = send_text (proto.serialize msg) s

  unfoldable pub send_init : EvalClient → EvalClient
  send_init s =
      let msg = record (message init) {
        init = record {
          bootstrap_port = s.local_bootstrap_port;
          broadcast_port = s.local_broadcast_port;
        };
      } in
      and_then (send_message msg s) s same

  -- `run`, behind the start of the transport
  unfoldable pub run : EvalClient → EvalClient
  run s = send_init (record s { has_server = true })

  -- the loop over the lines: `buffer` holds those since the last message, `counter` counts all
  unfoldable pub push_lines : Bytes → Bytes → List Bytes → Bytes → ℕ → EvalClient → EvalClient
  push_lines run_id node_id [] buffer counter s =
      if counter % lines_per_message == 0
      then s
      else and_then (send_message (log_message run_id node_id buffer) s) s same
  push_lines run_id node_id (line ∷ lines) buffer counter s =
      let buffer' = buffer ++ (line ++ 10 ∷ []) in
      let rest = push_lines run_id node_id lines in
      if suc counter % lines_per_message == 0
      then and_then (send_message (log_message run_id node_id buffer') s) s (rest [] (suc counter))
      else rest buffer' (suc counter) s

  -- The run and the id of the log. The PeerManager of the kind that is configured must be there, and
  -- the own node.
  unfoldable pub who_logs : EvalClient → Result (Bytes × Bytes)
  who_logs s = do
    c ← or_fail s.eval_config undefined
    run_id ←
        (if c.eval_type == 0
          then (or_fail s.peer_manager undefined >>= λ p. ok p.run_id)
          else (or_fail s.peer_manager_eth undefined >>= λ p. ok p.run_id))
    node ← or_fail s.self undefined
    ok (run_id, node.id)

  unfoldable pub send_push_log : EvalClient → Result EvalClient
  send_push_log s = do
    (run_id, node_id) ← who_logs s
    ok (push_lines run_id node_id (get_lines [] (records run_id node_id)) [] 0 s)

  -- `create_kad_table`: the address of a node, which must be known, and the table
  unfoldable pub listed_neighbour : NodeList → Bytes → ℕ → FormingEth → Result (Option Node)
  listed_neighbour nodes node_id order s = elim (lookup node_id nodes) [
    | none ↦ ok none
    | some address ↦ ok (some (make_node (env.clock s.ticks) node_id address.0 address.1))
  ]

  unfoldable pub create_kad_table :
      ℕ → ℕ → Bytes → Sizes → NodeList → NodeTableEth → Result (NodeTableEth × ℕ)
  create_kad_table fuel draws id c nodes t = do
    id_in_dist ← own_parts id
    g ← grid_of c
    self_order ← convert_id_string_to_int id c
    (ids, draws') ← neighbour_ids env.rand g.num_nodes_total self_order fuel draws
    s ←
        visit_all (listed_neighbour nodes) id c self_order ids g
          (record { table = []; heap = []; ticks = 0 })
    ok (set_table t s.table s.heap, draws')

  -- A configuration takes the place of the old one.
  unfoldable pub on_config : BootstrapMessage → EvalClient → Result EvalClient
  on_config msg s =
      let s' = reset s.eval_config s in
      do
        node_id ← as_int msg.config.node_id
        sizes ← int_sizes msg.config.sizes
        str_node_id ← convert_id_int_to_string node_id sizes
        ok (record s' {
          eval_config = some (record {
            run_id = msg.config.run_id;
            str_node_id = str_node_id;
            eval_type = if msg.config.kademlia then 1 else 0;
            sizes = sizes;
          });
          self = some (make_node (env.clock s.ticks) str_node_id localhost s.local_broadcast_port);
          ticks = suc s.ticks;
        })

  -- behind the last page, the two kinds of network
  unfoldable pub start_hgfr : EvalConfig → NodeList → Node → EvalClient → Result EvalClient
  start_hgfr c nodes node s = do
    t ← create_hgfr_table env.clock iterate node.id c.sizes nodes (make_table c.str_node_id)
    ok (record s { node_table = some t; peer_manager = some (make_peer_manager node t c.run_id) })

  unfoldable pub start_kad : ℕ → EvalConfig → NodeList → Node → EvalClient → Result EvalClient
  start_kad fuel c nodes node s = do
    (t, draws') ←
        create_kad_table fuel s.draws node.id c.sizes nodes (NodeTableEth.make_table c.str_node_id)
    ok (record s {
      node_table_eth = some t;
      peer_manager_eth = some (set_mode (make_peer_manager_eth node t c.run_id) push);
      draws = draws';
    })

  unfoldable pub start_evaluation : ℕ → EvalConfig → NodeList → EvalClient → Result EvalClient
  start_evaluation fuel c nodes s = do
    node ← or_fail s.self undefined
    if c.eval_type == 0 then start_hgfr c nodes node s else start_kad fuel c nodes node s

  -- a page of the node table
  unfoldable pub on_table : ℕ → Option EvalConfig → Table → EvalClient → Result EvalClient
  on_table fuel none t s = ok s
  on_table fuel (some c) t s = do
    nodes ← list_rows c.sizes t t.table_size 0 (listed s.node_list)
    let s' : EvalClient = record s { node_list = some nodes }
    if t.is_end then start_evaluation fuel c nodes s' else ok s'

  unfoldable pub broadcast_hgfr : Bytes → EvalClient → Result EvalClient
  broadcast_hgfr payload s = do
    p ← or_fail s.peer_manager undefined
    p' ← Handlers.broadcast env deliver payload p
    ok (record s { peer_manager = some p' })

  unfoldable pub broadcast_kad : ℕ → Bytes → EvalClient → Result EvalClient
  broadcast_kad fuel payload s = do
    p ← or_fail s.peer_manager_eth undefined
    p' ← Gossip.broadcast env hash fuel payload (pos ttl_eth) [] p
    ok (record s { peer_manager_eth = some p' })

  -- an order to broadcast, which needs one of the PeerManagers, and then the configured one
  unfoldable pub on_broadcast : ℕ → ℕ → EvalClient → Result EvalClient
  on_broadcast fuel workload_size s =
      let payload = generate_random_workload workload_size in
      if is_none s.peer_manager && is_none s.peer_manager_eth
      then ok s
      else or_fail s.eval_config undefined >>= λ c.
          if c.eval_type == 0 then broadcast_hgfr payload s else broadcast_kad fuel payload s

  -- an order to send the log, after a random pause in milliseconds
  unfoldable pub on_pull_log : EvalClient → Result EvalClient
  on_pull_log s = send_push_log (record s {
    delays = s.delays ++ (env.rand s.draws % 30000 + 3000) ∷ [];
    draws = suc s.draws;
  })

  -- the handler, by the type of the message
  unfoldable pub on_message : ℕ → BootstrapMessage → EvalClient → Kind → Result EvalClient
  on_message fuel msg s config = on_config msg s
  on_message fuel msg s table = on_table fuel s.eval_config msg.table s
  on_message fuel msg s broadcast = on_broadcast fuel msg.workload_size s
  on_message fuel msg s pull_log = on_pull_log s
  on_message fuel msg s init = ok s
  on_message fuel msg s push_log = ok s
  on_message fuel msg s (unknown n) = ok s

  unfoldable pub dispatch : ℕ → Option BootstrapMessage → EvalClient → Result EvalClient
  dispatch fuel none s = ok s
  dispatch fuel (some msg) s = on_message fuel msg s msg.type

  unfoldable pub receive : ℕ → Bytes → ℕ → Bytes → EvalClient → Result EvalClient
  receive fuel ip port text s = dispatch fuel (proto.parse text) s
