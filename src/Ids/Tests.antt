-- ===== src/Ids/Tests.antt =====
-- Examples for the theorems on the ids of src/utils.cpp.
use fring.Common.{ℕ, ◌≡◌, refl, arith, length, ok}
use fring.Common.Text.{Bytes}
use fring.Ids.{
  Sizes, Units, units_to_string, units_to_int, unit_sizes, convert_id_int_to_string,
  convert_id_string_to_int,
}
use fring.Ids.Text.{Fits}
use fring.Ids.Number.{parts_of}
use fring.Ids.RoundTrip.{
  IsRegular, convert_id_string_to_int_reads, convert_id_string_to_int-convert_id_int_to_string,
}

-- districts of 10 nodes with 3 contact nodes, and so on upwards; the argument is the contact
-- nodes that a city elects
abbrev small : ℕ → Sizes
small num_cnodes_in_city = record {
  num_nodes_in_dist = 10;
  num_cnodes_in_dist = 3;
  num_nodes_in_city = 12;
  num_cnodes_in_city = num_cnodes_in_city;
  num_nodes_in_state = 12;
  num_cnodes_in_state = 3;
  num_nodes_in_country = 9;
  num_cnodes_in_country = 3;
  num_nodes_in_continent = 6;
  num_cnodes_in_continent = 3;
  num_continents = 2;
}

abbrev units : ℕ → ℕ → ℕ → ℕ → Units
units num_cities_in_state one_state one_country one_continent = record {
  num_dists_in_city = 4;
  num_cities_in_state = num_cities_in_state;
  num_states_in_country = 3;
  num_countries_in_continent = 2;
  num_nodes_in_one_dist = 10;
  num_nodes_in_one_city = 40;
  num_nodes_in_one_state = one_state;
  num_nodes_in_one_country = one_country;
  num_nodes_in_one_continent = one_continent;
}

abbrev regular_units : Units
regular_units = units 4 160 480 960

abbrev irregular_units : Units
irregular_units = units 6 240 720 1440

small-IsRegular : IsRegular (small 3)
small-IsRegular = record {
  same_contacts = refl;
  dists = omega arith;
  cities = omega arith;
  states = omega arith;
  countries = omega arith;
}

regular-Fits : Fits (parts_of regular_units 1207)
regular-Fits = record {
  continent = omega arith;
  country = omega arith;
  state = omega arith;
  city = omega arith;
  district = omega arith;
  single = omega arith;
}

irregular-Fits : Fits (parts_of irregular_units 1207)
irregular-Fits = record {
  continent = omega arith;
  country = omega arith;
  state = omega arith;
  city = omega arith;
  district = omega arith;
  single = omega arith;
}

convert_id_string_to_int-convert_id_int_to_string_example :
    (s : Bytes) × (convert_id_int_to_string 1207 (small 3) ≡ ok s)
    × (length s ≡ 32)
    × (convert_id_string_to_int s (small 3) ≡ ok 1207)
unfolding units_to_string unit_sizes
convert_id_string_to_int-convert_id_int_to_string_example =
    convert_id_string_to_int-convert_id_int_to_string 1207 (small 3) regular_units small-IsRegular
      refl (omega arith) regular-Fits (omega arith)

-- With cities that elect two contact nodes the reader finds another number, 807.
convert_id_string_to_int_reads_example :
    (s : Bytes) × (convert_id_int_to_string 1207 (small 2) ≡ ok s)
    × (length s ≡ 32)
    × (convert_id_string_to_int s (small 2) ≡ ok 807)
unfolding units_to_string units_to_int unit_sizes
convert_id_string_to_int_reads_example =
    convert_id_string_to_int_reads 1207 (small 2) irregular_units regular_units refl refl
      (omega arith) irregular-Fits (omega arith)
