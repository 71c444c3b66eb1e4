-- ===== src/FormingEth.antt =====
-- The neighbours of a node of the Ethereum-like network, as BaseAppETH::form_structure in
-- src/app_eth.cpp draws and collects them, and EvalClient::create_kad_table in
-- evaluation/src/eval_client.cpp after it: the numbers drawn, and the loops over all ids. Where the
-- address of a node comes from is a parameter.
pub mod Distinct
pub mod Draws
pub mod Collected
pub mod Loops
pub mod Complete
use fring.Common.{
  ℕ, zero, suc, ◌+◌, Bool, true, false, not, ◌&&◌, ◌||◌, List, [], ◌∷◌, ◌++◌, Option, none, some,
  ◌==◌, if◌then◌else◌, length, Result, ok, err, out_of_fuel, ◌>>=◌, mul_int, add_int, div_int,
  mod_int,
}
use fring.Common.Text.{Bytes, beq}
use fring.Node.{Node}
use fring.NodeTable.{Ptr}
use fring.Params.{table_size_eth}
use fring.Ids.{Sizes, Parts, at_least_one, print_parts, convert_id_string_to_int}
use fring.Eth.Gossip.{has_number}

-- how many units of one kind are in the next, one at least, and how many nodes there are
pub record Grid : Type 0 where
  pub num_dists_in_city : ℕ
  pub num_cities_in_state : ℕ
  pub num_states_in_country : ℕ
  pub num_countries_in_continent : ℕ
  pub num_nodes_total : ℕ

unfoldable pub grid_of : Sizes → Result Grid
grid_of c = do
  dists ← div_int c.num_nodes_in_city c.num_cnodes_in_dist
  cities ← div_int c.num_nodes_in_state c.num_cnodes_in_city
  states ← div_int c.num_nodes_in_country c.num_cnodes_in_state
  countries ← div_int c.num_nodes_in_continent c.num_cnodes_in_country
  a ← mul_int c.num_continents (at_least_one countries)
  b ← mul_int a (at_least_one states)
  d ← mul_int b (at_least_one cities)
  e ← mul_int d (at_least_one dists)
  total ← mul_int e c.num_nodes_in_dist
  ok (record {
    num_dists_in_city = at_least_one dists;
    num_cities_in_state = at_least_one cities;
    num_states_in_country = at_least_one states;
    num_countries_in_continent = at_least_one countries;
    num_nodes_total = total;
  })

-- the table so far, the objects that it points to, and how often the clock was read
pub record FormingEth : Type 0 where
  pub table : List Ptr
  pub heap : List Node
  pub ticks : ℕ

-- The loop that draws `wanted` numbers other than the own one and those drawn before: `draws`
-- numbers were drawn. A round that draws such a number does not count, so the loop ends only by the
-- numbers drawn, and its fuel is their count.
unfoldable pub draw_neighbours : (ℕ → ℕ) → ℕ → ℕ → ℕ → ℕ → List ℕ → ℕ → Result (List ℕ × ℕ)
draw_neighbours rand total self_order fuel zero ids draws = ok (ids, draws)
draw_neighbours rand total self_order zero (suc wanted) ids draws = err out_of_fuel
draw_neighbours rand total self_order (suc fuel) (suc wanted) ids draws =
    let again = draw_neighbours rand total self_order fuel (suc wanted) ids (suc draws) in
    mod_int (rand draws) total >>= λ id.
    let next = draw_neighbours rand total self_order fuel wanted (id ∷ ids) (suc draws) in
    if has_number id ids || (id == self_order) then again else next

-- `(self_order+1) % num_nodes_total` first, and then as many as the table has places
unfoldable pub neighbour_ids : (ℕ → ℕ) → ℕ → ℕ → ℕ → ℕ → Result (List ℕ × ℕ)
neighbour_ids rand total self_order fuel draws = do
  next ← add_int self_order 1
  first ← mod_int next total
  draw_neighbours rand total self_order fuel table_size_eth (first ∷ []) draws

-- a neighbour goes to the end of the table, the node after the own one to its front
unfoldable pub place_neighbour : ℕ → ℕ → Option Node → FormingEth → FormingEth
place_neighbour self_order order none s = s
place_neighbour self_order order (some node) s =
    let p = length s.heap in
    let s' : FormingEth = record s { heap = s.heap ++ node ∷ []; ticks = suc s.ticks } in
    if order == self_order + 1
    then record s' { table = p ∷ s'.table }
    else record s' { table = s'.table ++ p ∷ [] }

-- `rounds` rounds, the first at `i`
unfoldable pub for_each :
    ℕ → ℕ → (ℕ → FormingEth → Result FormingEth) → FormingEth → Result FormingEth
for_each zero i body s = ok s
for_each (suc rounds) i body s = body i s >>= λ s'. for_each rounds (suc i) body s'

module _ (node_of : Bytes → ℕ → FormingEth → Result (Option Node)) (id : Bytes) (c : Sizes)
    (self_order : ℕ) (ids : List ℕ) where
  -- the body of the innermost loop
  unfoldable pub visit : Parts → FormingEth → Result FormingEth
  visit parts s =
      let node_id = print_parts parts in
      convert_id_string_to_int node_id c >>= λ order.
      if has_number order ids && not (beq node_id id)
      then (node_of node_id order s >>= λ found. ok (place_neighbour self_order order found s))
      else ok s

  -- the six loops
  unfoldable pub visit_all : Grid → FormingEth → Result FormingEth
  visit_all g = for_each c.num_continents 0 λ continent.
      for_each g.num_countries_in_continent 0 λ country. for_each g.num_states_in_country 0 λ state.
        for_each g.num_cities_in_state 0 λ city. for_each g.num_dists_in_city 0 λ district.
          for_each c.num_nodes_in_dist 0 λ single. visit (record {
            continent = continent;
            country = country;
            state = state;
            city = city;
            district = district;
            single = single;
          })
