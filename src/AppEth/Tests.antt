-- ===== src/AppEth/Tests.antt =====
-- The neighbours at concrete counts.
use fring.Common.{
  ℕ, ◌+◌, ◌%◌, ◌≤◌, ◌<◌, ◌≡◌, refl, arith, true, List, [], ◌∷◌, ok, err, out_of_fuel, All, length,
}
use fring.Common.Text.{Bytes, codes, substr}
use fring.Decimal.{extract_int}
use fring.NodeTableEth.{NodeTableEth, make_table}
use fring.Ids.{Sizes, Units, Parts, print_parts, units_to_int, unit_sizes, convert_id_string_to_int}
use fring.Ids.Text.{Fits, read_parts-print_parts}
use fring.Ids.Number.{join_lem}
use fring.Peer.State.{Env}
use fring.FormingEth.{Grid, grid_of, draw_neighbours, neighbour_ids}
use fring.FormingEth.Distinct.{AreDistinct}
use fring.FormingEth.Draws.{neighbour_ids_never, neighbour_ids_ends}
use fring.FormingEth.Collected.{Chosen}
use fring.AppEth.{form_structure}
use fring.AppEth.Formed.{HasPorts, IsWanted, form_structure_eth_lem}
use fring.FormingEth.Loops.{Within}
use fring.FormingEth.Complete.{Exists, IsNode}

-- one district of 15 nodes
abbrev district : Sizes
district = record {
  num_nodes_in_dist = 15;
  num_cnodes_in_dist = 1;
  num_nodes_in_city = 0;
  num_cnodes_in_city = 1;
  num_nodes_in_state = 0;
  num_cnodes_in_state = 1;
  num_nodes_in_country = 0;
  num_cnodes_in_country = 1;
  num_nodes_in_continent = 0;
  num_cnodes_in_continent = 1;
  num_continents = 1;
}

abbrev district_grid : Grid
district_grid = record {
  num_dists_in_city = 1;
  num_cities_in_state = 1;
  num_states_in_country = 1;
  num_countries_in_continent = 1;
  num_nodes_total = 15;
}

-- the numbers 0, 1, 2 and so on
abbrev counting : ℕ → ℕ
counting j = j

abbrev counting_env : Env
counting_env = record { rand = counting; clock = counting; log_opens = λ n. true }

abbrev own_id : Bytes
own_id = codes "00000000000000000000000000000000"

abbrev others : List ℕ
others = 14 ∷ 13 ∷ 12 ∷ 11 ∷ 10 ∷ 9 ∷ 8 ∷ 7 ∷ 6 ∷ 5 ∷ 4 ∷ 3 ∷ 2 ∷ 1 ∷ []

others_drawn : neighbour_ids counting 15 0 15 0 ≡ ok (others, 15)
unfolding neighbour_ids draw_neighbours
others_drawn = refl

-- what the reader of ids makes of the counts: a quotient of zero for each upper unit
abbrev district_units : Units
district_units = record {
  num_dists_in_city = 0;
  num_cities_in_state = 0;
  num_states_in_country = 0;
  num_countries_in_continent = 0;
  num_nodes_in_one_dist = 15;
  num_nodes_in_one_city = 0;
  num_nodes_in_one_state = 0;
  num_nodes_in_one_country = 0;
  num_nodes_in_one_continent = 0;
}

district_ports : HasPorts district district_grid 5000
unfolding convert_id_string_to_int units_to_int unit_sizes
district_ports p w =
    let fits : Fits p = record {
      continent = omega (arith, w.continent);
      country = omega (arith, w.country);
      state = omega (arith, w.state);
      city = omega (arith, w.city);
      district = omega (arith, w.district);
      single = omega (arith, w.single);
    } in
    (
      p.single,
      rw (read_parts-print_parts p fits) (
          join_lem district_units p p.single (omega (arith, w.district)) (omega (arith, w.single))),
      omega (arith, w.single),
    )

form_structure_eth_lem_example :
    (t' : NodeTableEth) × (form_structure counting_env 15 0 own_id district 5000 (make_table own_id)
      ≡ ok t')
    × All (Chosen own_id district others t'.heap) t'.table
    × ((p : Parts)
        → Within district district_grid p
        → IsWanted own_id district others (print_parts p)
        → Exists (IsNode t'.heap (print_parts p)) t'.table)
unfolding grid_of convert_id_string_to_int substr extract_int unit_sizes
form_structure_eth_lem_example =
    form_structure_eth_lem counting_env 15 0 own_id district 5000 (make_table own_id) district_grid
      0 15 others (omega arith) refl refl others_drawn district_ports

neighbour_ids_never_example : neighbour_ids counting 14 0 1000 0 ≡ err out_of_fuel
neighbour_ids_never_example =
    neighbour_ids_never counting 14 0 1000 0 (omega arith) (omega arith) (omega arith) (omega arith)

counted : (i : ℕ) → i < 15 → (j : ℕ) × (0 ≤ j) × (j < 0 + 15) × (counting j % 15 ≡ i)
counted i h = (i, omega arith, omega (arith, h), omega (arith, h))

neighbour_ids_ends_example :
    (ids : List ℕ) × (draws' : ℕ) × (neighbour_ids counting 15 0 15 0 ≡ ok (ids, draws'))
    × AreDistinct 15 (0 ∷ ids)
    × (length ids ≡ 14)
neighbour_ids_ends_example =
    neighbour_ids_ends counting 15 0 15 0 (omega arith) (omega arith) (omega arith) counted
