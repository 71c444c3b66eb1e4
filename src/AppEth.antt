-- ===== src/AppEth.antt =====
-- include/app_eth.h and src/app_eth.cpp: the application of the Ethereum-like network.
-- `form_structure` fills the routing table of a node from its id and the counts of the network,
-- `start` makes the PeerManagerETH in its push mode. The counts are `int`s that are not negative.
pub mod Formed
mod Tests
use fring.Common.{
  ℕ, suc, ◌+◌, ◌==◌, if◌then◌else◌, [], Option, none, some, Result, ok, err, undefined, ◌>>=◌,
  add_int, pos,
}
use fring.Common.Text.{Bytes}
use fring.Node.{Node, make_node, to_port}
use fring.NodeTableEth.{NodeTableEth, make_table, set_table}
use fring.Params.{ttl_eth}
use fring.Ids.{Sizes, convert_id_string_to_int}
use fring.Peer.State.{Env}
use fring.Eth.State.{PeerManagerEth, make_peer_manager_eth, set_mode, push}
use fring.Eth.Gossip
use fring.Forming.{own_parts}
use fring.FormingEth.{FormingEth, grid_of, neighbour_ids, visit_all}
use fring.App.{localhost, data_of_block_size}

module _ (env : Env) where
  -- the port and the `Node` of an id with its number
  unfoldable pub local_neighbour : ℕ → Bytes → ℕ → FormingEth → Result (Option Node)
  local_neighbour starting_port_number node_id order s = do
    port ← add_int starting_port_number order
    ok (some (make_node (env.clock s.ticks) node_id localhost port))

  -- the table after `fuel` draws at most, of which `draws` is the first
  unfoldable pub form_structure : ℕ → ℕ → Bytes → Sizes → ℕ → NodeTableEth → Result NodeTableEth
  form_structure fuel draws id c starting_port_number t = do
    id_in_dist ← own_parts id
    g ← grid_of c
    self_order ← convert_id_string_to_int id c
    (ids, draws') ← neighbour_ids env.rand g.num_nodes_total self_order fuel draws
    s ←
        visit_all (local_neighbour starting_port_number) id c self_order ids g
          (record { table = []; heap = []; ticks = 0 })
    ok (set_table t s.table s.heap)

-- The application: `none` is the null pointer of a PeerManagerETH that is not started.
pub record BaseAppEth : Type 0 where
  pub node : Node
  pub node_table : NodeTableEth
  pub peer_manager : Option PeerManagerEth

unfoldable pub make_base_app_eth : ℕ → Bytes → ℕ → Bytes → BaseAppEth
make_base_app_eth now ip port id = record {
  node = make_node now id ip port;
  node_table = make_table id;
  peer_manager = none;
}

unfoldable pub start : Env → ℕ → ℕ → BaseAppEth → Bytes → Sizes → ℕ → Result BaseAppEth
start env fuel draws app start_time c starting_port_number = do
  node_table ← form_structure env fuel draws app.node.id c starting_port_number app.node_table
  ok (record {
    node = app.node;
    node_table = node_table;
    peer_manager = some (set_mode (make_peer_manager_eth app.node node_table start_time) push);
  })

-- `broadcast`, through a PeerManagerETH that must be there
unfoldable pub broadcast : Env → (Bytes → ℕ) → ℕ → BaseAppEth → Bytes → Result BaseAppEth
broadcast env hash fuel app payload = elim app.peer_manager [
  | none ↦ err undefined
  | some p ↦ Gossip.broadcast env hash fuel payload (pos ttl_eth) [] p >>= λ p'.
      ok (record app { peer_manager = some p' })
]

-- `main` behind its arguments, without the head of the log file: the node with the number 1
-- broadcasts.
unfoldable pub main :
    Env → (Bytes → ℕ) → ℕ → ℕ → Bytes → ℕ → Bytes → Sizes → ℕ → Bytes → Result BaseAppEth
main env hash fuel draws ip port id c starting_port_number start_time = do
  app ←
      start env fuel draws (make_base_app_eth (env.clock 0) ip (to_port port) id) start_time c
        (to_port starting_port_number)
  order ← convert_id_string_to_int id c
  if order == 1 then broadcast env hash fuel app data_of_block_size else ok app
