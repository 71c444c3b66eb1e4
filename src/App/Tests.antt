-- ===== src/App/Tests.antt =====
-- The rings at concrete counts.
use mathlib.Core.List.Perm
use fring.Common.{
  inr, zero, suc, List, [], ◌∷◌, map, refl, Result, ok, err, ℕ, ◌≡◌, ◌≤◌, arith, ◌++◌, length, pos,
  none,
}
use fring.Common.Text.{Bytes, codes, substr, beq}
use fring.Decimal.{setw, scan_int, extract_int, to_decimal}
use fring.NodeTable.{Ptr, Map, NodeTable, make_table, lookup, insert, deref, set_tables}
use fring.NodeTable.Access.{IsValid}
use fring.Ids.{Sizes, unit_sizes, units_to_int, convert_id_string_to_int, join, read_parts}
use fring.Params.{id_single_len}
use fring.Forming.{Forming, form_district, nothing_formed}
use fring.Forming.Neighbours.{PointsTo, before, after}
use fring.App.{
  form_structure, form_rings, local_node, counts, upper_rings, level_ring, continent_ring,
}
use fring.App.Neighbours.{HasPorts, form_district-cycle, form_district_pair}
use fring.App.District.{form_structure-RingView}
use fring.Peer.Within.{RingView}
use fring.Node.{Node, make_node}
use fring.Forming.{
  exchange, form_ring, peer_round, peer_rounds, own_parts, place_peer, add_peer, add_contact,
  add_member, add_neighbour, add_next, member_round, member_rounds, place_member, share,
  unit_rounds,
}

-- two districts of three nodes, each with one contact node, in one city
abbrev small : Sizes
small = record {
  num_nodes_in_dist = 3;
  num_cnodes_in_dist = 1;
  num_nodes_in_city = 2;
  num_cnodes_in_city = 1;
  num_nodes_in_state = 0;
  num_cnodes_in_state = 1;
  num_nodes_in_country = 0;
  num_cnodes_in_country = 1;
  num_nodes_in_continent = 0;
  num_cnodes_in_continent = 1;
  num_continents = 1;
}

abbrev in_order : Map Ptr → Map Ptr
in_order m = m

abbrev stopped : ℕ → ℕ
stopped tick = 0

abbrev first_id : Bytes
first_id = codes "00000000000000000000000000000000"

abbrev first_district : Bytes
first_district = codes "00000000000000000000000"

first_ports : (n : ℕ) → n ≤ 3 → HasPorts stopped in_order small 5000 first_district n
unfolding convert_id_string_to_int unit_sizes units_to_int read_parts join extract_int scan_int setw
    to_decimal substr
first_ports n h zero l = (0, refl, omega arith)
first_ports n h (suc zero) l = (1, refl, omega arith)
first_ports n h (suc (suc zero)) l = (2, refl, omega arith)
first_ports n h (suc (suc (suc i))) l = absurd (omega (arith, h, l))

form_district-cycle_example :
    (s : Forming) × (form_district
        (local_node stopped in_order small 5000)
        first_district
        3
        1
        (pos 0)
        nothing_formed
      ≡ ok s)
    × PointsTo s.heap s.predecessor (first_district ++ setw id_single_len (before 3 0))
    × PointsTo s.heap s.successor (first_district ++ setw id_single_len (after 3 0))
form_district-cycle_example =
    form_district-cycle stopped in_order small 5000 first_district 3 0 1 (omega arith) (omega arith)
      (first_ports 3 (omega arith))

form_district_pair_example :
    ((s : Forming) × (form_district
          (local_node stopped in_order small 5000)
          first_district
          2
          1
          (pos 0)
          nothing_formed
        ≡ ok s)
      × (s.successor ≡ none))
    × ((s : Forming) × (form_district
            (local_node stopped in_order small 5000)
            first_district
            2
            1
            (pos 1)
            nothing_formed
          ≡ ok s)
        × (s.predecessor ≡ none))
form_district_pair_example =
    form_district_pair stopped in_order small 5000 first_district 1 (first_ports 2 (omega arith))

abbrev second : Node
second = make_node 0 (codes "00000000000000000000000000000001") (codes "127.0.0.1") 5001

three_counted :
    counts small
    ≡ ok (record {
      num_dists_in_city = 2;
      num_cities_in_state = 0;
      num_states_in_country = 0;
      num_countries_in_continent = 0;
    })
unfolding counts
three_counted = refl

form_structure-RingView_example :
    (t' : NodeTable) × (node_at : ℕ → Node) × (form_structure stopped in_order second.id small 5000
        (make_table second.id)
      ≡ ok t')
    × IsValid t'
    × RingView second t' 0 1 2 node_at
    × ((j : ℕ) → j ≤ 2 → (node_at j).id ≡ first_district ++ setw id_single_len j)
unfolding setw
form_structure-RingView_example =
    form_structure-RingView stopped in_order first_district 1 2 small 5000 second _ refl refl refl
      (omega arith) (omega arith) three_counted (first_ports 3 (omega arith)) (inr (omega arith))
      (λ m. Perm.refl m) (make_table second.id)

-- the sizes of the vectors of the rings that are formed
abbrev sizes_of : Result NodeTable → List ℕ
sizes_of (err fault) = []
sizes_of (ok t) = map (λ ring. length ring.peer_list) t.tables

small_rings :
    sizes_of (form_structure stopped in_order first_id small 5000 (make_table first_id))
    ≡ 3 ∷ 2 ∷ []
unfolding form_structure form_rings own_parts substr counts form_district peer_rounds peer_round
    local_node convert_id_string_to_int setw extract_int unit_sizes upper_rings level_ring lookup
    place_peer add_peer continent_ring beq scan_int to_decimal add_contact add_member add_neighbour
    add_next exchange form_ring member_round member_rounds place_member share unit_rounds join
    read_parts units_to_int deref insert set_tables
small_rings = refl
