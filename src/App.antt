-- ===== src/App.antt =====
-- include/app.h and src/app.cpp: the application of the ring network. `form_structure` fills the
-- node table of a node from its id and the counts of the network, `start` makes the PeerManager.
-- The counts are `int`s that are not negative. `iterate` gives the order in which an unordered_map
-- is iterated.
pub mod Faults
pub mod Plans
pub mod Formed
pub mod Neighbours
pub mod Ordinary
pub mod District
mod Tests
use fring.Common.{
  ℕ, suc, ◌*◌, ◌==◌, if◌then◌else◌, replicate, [], take, Option, none, some, Result, ok, err,
  undefined, ◌>>=◌, add_int, div_int,
}
use fring.Common.Text.{Bytes, codes, substr, substr_from}
use fring.Decimal.{extract_int}
use fring.Node.{Node, make_node, to_port}
use fring.NodeTable.{NodeTable, Ptr, Map, make_table, set_tables}
use fring.Ids.{Sizes, convert_id_string_to_int}
use fring.Params.{
  id_continent_len, id_country_start, id_country_len, id_state_start, id_state_len, id_city_start,
  id_city_len, id_district_start, id_district_len, id_single_start, id_single_len,
}
use fring.Peer.State.{Env, PeerManager, make_peer_manager}
use fring.Peer.Ring.{Deliver}
use fring.Peer.Handlers
use fring.Forming.{
  Forming, Source, value, Plan, nothing_formed, own_parts, is_contact, form_district, form_ring,
  exchange,
}

-- how many units of one kind are in the next
pub record Counts : Type 0 where
  pub num_dists_in_city : ℕ
  pub num_cities_in_state : ℕ
  pub num_states_in_country : ℕ
  pub num_countries_in_continent : ℕ

unfoldable pub counts : Sizes → Result Counts
counts c = do
  dists ← div_int c.num_nodes_in_city c.num_cnodes_in_dist
  cities ← div_int c.num_nodes_in_state c.num_cnodes_in_city
  states ← div_int c.num_nodes_in_country c.num_cnodes_in_state
  countries ← div_int c.num_nodes_in_continent c.num_cnodes_in_country
  ok (record {
    num_dists_in_city = dists;
    num_cities_in_state = cities;
    num_states_in_country = states;
    num_countries_in_continent = countries;
  })

-- the ring of the contact nodes of the districts of the own city
abbrev pub dist_plan : Bytes → Sizes → Counts → Plan
dist_plan id c k = record {
  ring_level = 1;
  until = take id_district_start id;
  len = id_district_len;
  units = k.num_dists_in_city;
  limit = c.num_cnodes_in_city;
  rest_of = λ contact. substr contact id_single_start id_single_len;
}

abbrev pub city_plan : Bytes → Sizes → Counts → Plan
city_plan id c k = record {
  ring_level = 2;
  until = take id_city_start id;
  len = id_city_len;
  units = k.num_cities_in_state;
  limit = c.num_cnodes_in_state;
  rest_of = λ contact. substr_from contact id_district_start;
}

abbrev pub state_plan : Bytes → Sizes → Counts → Plan
state_plan id c k = record {
  ring_level = 3;
  until = take id_state_start id;
  len = id_state_len;
  units = k.num_states_in_country;
  limit = c.num_cnodes_in_state;
  rest_of = λ contact. substr_from contact id_city_start;
}

abbrev pub country_plan : Bytes → Sizes → Counts → Plan
country_plan id c k = record {
  ring_level = 4;
  until = take id_country_start id;
  len = id_country_len;
  units = k.num_countries_in_continent;
  limit = c.num_cnodes_in_country;
  rest_of = λ contact. substr_from contact id_state_start;
}

abbrev pub continent_plan : Sizes → Plan
continent_plan c = record {
  ring_level = 5;
  until = [];
  len = id_continent_len;
  units = c.num_continents;
  limit = c.num_cnodes_in_continent;
  rest_of = λ contact. substr_from contact id_country_start;
}

abbrev pub localhost : Bytes
localhost = codes "127.0.0.1"

module _ (clock : ℕ → ℕ) (iterate : Map Ptr → Map Ptr) where
  -- the port and the `Node` of an id
  unfoldable pub local_node : Sizes → ℕ → Bytes → Forming → Result (Option (Source × Forming))
  local_node c starting_port_number node_id s = do
    order ← convert_id_string_to_int node_id c
    port ← add_int starting_port_number order
    ok (
        some (
          value (make_node (clock s.ticks) node_id localhost port),
          record s { ticks = suc s.ticks },
        ))

  module _ (id : Bytes) (c : Sizes) (starting_port_number : ℕ) where
    -- a ring for the contact nodes of the ring below, which elects those of the next one
    unfoldable pub level_ring : Plan → Forming → Result Forming
    level_ring plan s =
        if is_contact id s
        then (form_ring (local_node c starting_port_number) plan s >>= λ s'.
            ok (exchange iterate s'))
        else ok s

    unfoldable pub continent_ring : Forming → Result Forming
    continent_ring s =
        if is_contact id s
        then form_ring (local_node c starting_port_number) (continent_plan c) s
        else ok s

    abbrev pub dist_ring : Counts → Forming → Result Forming
    dist_ring k = level_ring (dist_plan id c k)

    abbrev pub city_ring : Counts → Forming → Result Forming
    city_ring k = level_ring (city_plan id c k)

    abbrev pub state_ring : Counts → Forming → Result Forming
    state_ring k = level_ring (state_plan id c k)

    abbrev pub country_ring : Counts → Forming → Result Forming
    country_ring k = level_ring (country_plan id c k)

    -- The levels above the districts. A count of zero ends the hierarchy.
    unfoldable pub upper_rings : Counts → Forming → Result Forming
    upper_rings k s =
        if c.num_nodes_in_city == 0
        then ok s
        else dist_ring k s >>= λ s1.
            if c.num_nodes_in_state == 0
            then ok s1
            else city_ring k s1 >>= λ s2.
                if c.num_nodes_in_country == 0
                then ok s2
                else state_ring k s2 >>= λ s3.
                    if c.num_nodes_in_continent == 0
                    then ok s3
                    else country_ring k s3 >>= λ s4. continent_ring s4

    unfoldable pub form_rings : Result Forming
    form_rings = do
      id_in_dist ← own_parts id
      k ← counts c
      s ←
          form_district (local_node c starting_port_number) (take id_single_start id)
            c.num_nodes_in_dist c.num_cnodes_in_dist (extract_int id_in_dist) nothing_formed
      upper_rings k s

    unfoldable pub form_structure : NodeTable → Result NodeTable
    form_structure t = do s ← form_rings; ok (set_tables t s.tables s.heap)

-- The application: `none` is the null pointer of a PeerManager that is not started.
pub record BaseApp : Type 0 where
  pub node : Node
  pub node_table : NodeTable
  pub peer_manager : Option PeerManager

unfoldable pub make_base_app : ℕ → Bytes → ℕ → Bytes → BaseApp
make_base_app now ip port id = record {
  node = make_node now id ip port;
  node_table = make_table id;
  peer_manager = none;
}

-- the topology, then a PeerManager over it
unfoldable pub start : (ℕ → ℕ) → (Map Ptr → Map Ptr) → BaseApp → Bytes → Sizes → ℕ → Result BaseApp
start clock iterate app start_time c starting_port_number = do
  node_table ← form_structure clock iterate app.node.id c starting_port_number app.node_table
  ok (record {
    node = app.node;
    node_table = node_table;
    peer_manager = some (make_peer_manager app.node node_table start_time);
  })

-- `broadcast`, through a PeerManager that must be there
unfoldable pub broadcast : Env → Deliver → BaseApp → Bytes → Result BaseApp
broadcast env deliver app payload = elim app.peer_manager [
  | none ↦ err undefined
  | some p ↦
      Handlers.broadcast env deliver payload p >>= λ p'. ok (record app { peer_manager = some p' })
]

-- `data_of_block_size`: 17 KB of one letter
unfoldable pub data_of_block_size : Bytes
data_of_block_size = replicate (1024 * 17) b'S'

-- `main` behind its arguments, without the head of the log file: the node with the number 1
-- broadcasts.
unfoldable pub main :
    Env → Deliver → (Map Ptr → Map Ptr) → Bytes → ℕ → Bytes → Sizes → ℕ → Bytes → Result BaseApp
main env deliver iterate ip port id c starting_port_number start_time = do
  app ←
      start env.clock iterate (make_base_app (env.clock 0) ip (to_port port) id) start_time c
        (to_port starting_port_number)
  order ← convert_id_string_to_int id c
  if order == 1 then broadcast env deliver app data_of_block_size else ok app
