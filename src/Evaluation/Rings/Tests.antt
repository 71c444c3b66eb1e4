-- ===== src/Evaluation/Rings/Tests.antt =====
-- The rings of a client at concrete counts and addresses.
use mathlib.Core.List.Perm
use fring.Common.{ℕ, ◌≡◌, ◌≤◌, arith, [], ◌∷◌, ok, length}
use fring.Common.Text.{Bytes, codes}
use fring.NodeTable.{NodeTable, Ptr, Map, make_table}
use fring.NodeTable.Access.{IsValid}
use fring.Ids.{Sizes}
use fring.Forming.Valid.{LevelsFrom}
use fring.Evaluation.Rings.{NodeList, create_hgfr_table}
use fring.Evaluation.Rings.Formed.{NoneIsZero, create_hgfr_table_lem}

-- two districts of three nodes in one city, of which the server knows one node
abbrev one_city : Sizes
one_city = record {
  num_nodes_in_dist = 3;
  num_cnodes_in_dist = 1;
  num_nodes_in_city = 2;
  num_cnodes_in_city = 1;
  num_nodes_in_state = 0;
  num_cnodes_in_state = 1;
  num_nodes_in_country = 0;
  num_cnodes_in_country = 1;
  num_nodes_in_continent = 0;
  num_cnodes_in_continent = 1;
  num_continents = 1;
}

abbrev own_id : Bytes
own_id = codes "00000000000000000000000000000000"

abbrev known : NodeList
known = (own_id, (codes "10.0.0.1", 7001)) ∷ []

abbrev stopped : ℕ → ℕ
stopped tick = 0

abbrev in_order : Map Ptr → Map Ptr
in_order m = m

one_city-NoneIsZero : NoneIsZero one_city
one_city-NoneIsZero = record {
  dist = λ e. omega (arith, e);
  state = λ e. omega (arith, e);
  country = λ e. omega (arith, e);
}

create_hgfr_table_lem_example :
    (t' : NodeTable) × (create_hgfr_table stopped in_order own_id one_city known (make_table own_id)
      ≡ ok t')
    × IsValid t'
    × LevelsFrom 0 t'.tables
    × (length t'.tables ≤ 6)
create_hgfr_table_lem_example =
    create_hgfr_table_lem stopped in_order (λ m. Perm.refl m) own_id one_city known
      (make_table own_id) (omega arith) one_city-NoneIsZero
