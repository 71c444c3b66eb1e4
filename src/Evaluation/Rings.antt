-- ===== src/Evaluation/Rings.antt =====
-- EvalClient::create_hgfr_table in evaluation/src/eval_client.cpp: the rings of the node of an
-- evaluation, with the addresses that the server sent. A node whose address is not known is left
-- out, a node is one object in all maps of its ring, and after the ring of the city the contact
-- nodes are not exchanged.
pub mod Formed
mod Tests
use fring.Common.{
  ℕ, suc, ◌==◌, if◌then◌else◌, ◌++◌, [], ◌∷◌, take, length, Option, none, some, Result, ok, ◌>>=◌,
  div_int,
}
use fring.Common.Text.{Bytes}
use fring.Decimal.{extract_int}
use fring.Node.{make_node}
use fring.NodeTable.{NodeTable, Ptr, Map, lookup, set_tables}
use fring.Ids.{Sizes}
use fring.Params.{id_single_start}
use fring.Forming.{
  Forming, Source, object, Plan, nothing_formed, own_parts, is_contact, form_district, form_ring,
  exchange,
}
use fring.App.{Counts, dist_plan, city_plan, state_plan, country_plan, continent_plan}

-- the quotients at the head of the function
unfoldable pub client_counts : Sizes → Result Counts
client_counts c = do
  dists ← div_int c.num_nodes_in_city c.num_cnodes_in_dist
  cities ← div_int c.num_nodes_in_state c.num_cnodes_in_dist
  states ← div_int c.num_nodes_in_country c.num_cnodes_in_state
  countries ← div_int c.num_nodes_in_continent c.num_cnodes_in_country
  ok (record {
    num_dists_in_city = dists;
    num_cities_in_state = cities;
    num_states_in_country = states;
    num_countries_in_continent = countries;
  })

-- the ip and the port of each id
abbrev pub NodeList : Type 0
NodeList = Map (Bytes × ℕ)

module _ (clock : ℕ → ℕ) (iterate : Map Ptr → Map Ptr) where
  -- the address of an id, and the object that is made for it
  unfoldable pub place_listed : Bytes → Option (Bytes × ℕ) → Forming → Option (Source × Forming)
  place_listed node_id none s = none
  place_listed node_id (some (ip, port)) s = some (
    object (length s.heap),
    record s {
      heap = s.heap ++ make_node (clock s.ticks) node_id ip port ∷ [];
      ticks = suc s.ticks;
    },
  )

  unfoldable pub listed_node : NodeList → Bytes → Forming → Result (Option (Source × Forming))
  listed_node nodes node_id s = ok (place_listed node_id (lookup node_id nodes) s)

  module _ (id : Bytes) (c : Sizes) (nodes : NodeList) where
    -- a ring for the contact nodes of the ring below
    abbrev ring_above : Plan → Forming → Result Forming
    ring_above plan s = form_ring (listed_node nodes) plan s

    abbrev exchanged : Result Forming → Result Forming
    exchanged ring = ring >>= λ s. ok (exchange iterate s)

    unfoldable pub client_dist_ring : Counts → Forming → Result Forming
    client_dist_ring k s =
        if is_contact id s then exchanged (ring_above (dist_plan id c k) s) else ok s

    unfoldable pub client_city_ring : Counts → Forming → Result Forming
    client_city_ring k s = if is_contact id s then ring_above (city_plan id c k) s else ok s

    unfoldable pub client_state_ring : Counts → Forming → Result Forming
    client_state_ring k s =
        if is_contact id s then exchanged (ring_above (state_plan id c k) s) else ok s

    unfoldable pub client_country_ring : Counts → Forming → Result Forming
    client_country_ring k s =
        if is_contact id s then exchanged (ring_above (country_plan id c k) s) else ok s

    unfoldable pub client_continent_ring : Forming → Result Forming
    client_continent_ring s = if is_contact id s then ring_above (continent_plan c) s else ok s

    unfoldable pub client_upper_rings : Counts → Forming → Result Forming
    client_upper_rings k s = client_dist_ring k s >>= λ s1. client_city_ring k s1 >>= λ s2.
        if c.num_nodes_in_country == 0
        then ok s2
        else client_state_ring k s2 >>= λ s3.
            if c.num_nodes_in_continent == 0
            then ok s3
            else client_country_ring k s3 >>= λ s4. client_continent_ring s4

    unfoldable pub create_hgfr_table : NodeTable → Result NodeTable
    create_hgfr_table t = do
      id_in_dist ← own_parts id
      k ← client_counts c
      s ←
          form_district (listed_node nodes) (take id_single_start id) c.num_nodes_in_dist
            c.num_cnodes_in_dist (extract_int id_in_dist) nothing_formed
      s' ← client_upper_rings k s
      ok (set_tables t s'.tables s'.heap)
