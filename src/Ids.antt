-- ===== src/Ids.antt =====
-- include/utils.h and src/utils.cpp: a node's number in the whole network, and its id of 32
-- digits (continent, country, state, city, district, node). The counts and the number are `int`s that
-- are not negative; an operation that overflows or divides by zero is undefined.
pub mod Text
pub mod Number
pub mod RoundTrip
mod Tests
use fring.Common.{
  ℕ, suc, ◌+◌, ◌*◌, ◌/◌, ◌%◌, ◌^◌, ◌<◌, ◌≤◌, ◌==◌, if◌then◌else◌, List, [], ◌∷◌, ◌++◌, ℤ, pos,
  negsuc, Result, ok, err, undefined, ◌>>=◌, mul_int, add_int, div_int, mod_int,
}
use fring.Common.Text.{Bytes, substr, substr_from}
use fring.Decimal.{setw, extract_int}
use fring.Params.{
  id_continent_start, id_continent_len, id_country_start, id_country_len, id_state_start,
  id_state_len, id_city_start, id_city_len, id_district_start, id_district_len, id_single_start,
  id_single_len,
}

-- The counts that every call passes on. They are the fields of `EvalConfig`.
pub record Sizes : Type 0 where
  pub num_nodes_in_dist : ℕ
  pub num_cnodes_in_dist : ℕ
  pub num_nodes_in_city : ℕ
  pub num_cnodes_in_city : ℕ
  pub num_nodes_in_state : ℕ
  pub num_cnodes_in_state : ℕ
  pub num_nodes_in_country : ℕ
  pub num_cnodes_in_country : ℕ
  pub num_nodes_in_continent : ℕ
  pub num_cnodes_in_continent : ℕ
  pub num_continents : ℕ

-- how many units of one kind are in the next, and how many nodes one of each holds
pub record Units : Type 0 where
  pub num_dists_in_city : ℕ
  pub num_cities_in_state : ℕ
  pub num_states_in_country : ℕ
  pub num_countries_in_continent : ℕ
  pub num_nodes_in_one_dist : ℕ
  pub num_nodes_in_one_city : ℕ
  pub num_nodes_in_one_state : ℕ
  pub num_nodes_in_one_country : ℕ
  pub num_nodes_in_one_continent : ℕ

-- `if (n == 0) n = 1`
abbrev pub at_least_one : ℕ → ℕ
at_least_one n = if n == 0 then 1 else n

-- the nodes in one unit of each kind
unfoldable pub unit_sizes : ℕ → ℕ → ℕ → ℕ → ℕ → Result Units
unit_sizes dists cities states countries one_dist = do
  one_city ← mul_int one_dist dists
  one_state ← mul_int one_city cities
  one_country ← mul_int one_state states
  one_continent ← mul_int one_country countries
  ok (record {
    num_dists_in_city = dists;
    num_cities_in_state = cities;
    num_states_in_country = states;
    num_countries_in_continent = countries;
    num_nodes_in_one_dist = one_dist;
    num_nodes_in_one_city = one_city;
    num_nodes_in_one_state = one_state;
    num_nodes_in_one_country = one_country;
    num_nodes_in_one_continent = one_continent;
  })

-- the head of `convert_ID_int_to_string`
unfoldable pub units_to_string : Sizes → Result Units
units_to_string c = do
  dists ← div_int c.num_nodes_in_city c.num_cnodes_in_dist
  cities ← div_int c.num_nodes_in_state c.num_cnodes_in_city
  states ← div_int c.num_nodes_in_country c.num_cnodes_in_state
  countries ← div_int c.num_nodes_in_continent c.num_cnodes_in_country
  unit_sizes (at_least_one dists) (at_least_one cities) (at_least_one states)
      (at_least_one countries) c.num_nodes_in_dist

-- the quotients of `convert_ID_string_to_int`
unfoldable pub units_to_int : Sizes → Result Units
units_to_int c = do
  dists ← div_int c.num_nodes_in_city c.num_cnodes_in_dist
  cities ← div_int c.num_nodes_in_state c.num_cnodes_in_dist
  states ← div_int c.num_nodes_in_country c.num_cnodes_in_state
  countries ← div_int c.num_nodes_in_continent c.num_cnodes_in_country
  unit_sizes dists cities states countries c.num_nodes_in_dist

-- the six parts of an id
pub record Parts : Type 0 where
  pub continent : ℕ
  pub country : ℕ
  pub state : ℕ
  pub city : ℕ
  pub district : ℕ
  pub single : ℕ

-- the divisions of `convert_ID_int_to_string`
unfoldable pub split : Units → ℕ → Result Parts
split u id = do
  single ← mod_int id u.num_nodes_in_one_dist
  dists ← div_int id u.num_nodes_in_one_dist
  district ← mod_int dists u.num_dists_in_city
  cities ← div_int id u.num_nodes_in_one_city
  city ← mod_int cities u.num_cities_in_state
  states ← div_int id u.num_nodes_in_one_state
  state ← mod_int states u.num_states_in_country
  countries ← div_int id u.num_nodes_in_one_country
  country ← mod_int countries u.num_countries_in_continent
  continent ← div_int id u.num_nodes_in_one_continent
  ok (record {
    continent = continent;
    country = country;
    state = state;
    city = city;
    district = district;
    single = single;
  })

-- the parts with zeros on the left, joined
unfoldable pub print_parts : Parts → Bytes
print_parts p =
    setw id_continent_len p.continent
    ++ (setw id_country_len p.country
        ++ (setw id_state_len p.state
            ++ (setw id_city_len p.city
                ++ (setw id_district_len p.district ++ setw id_single_len p.single))))

unfoldable pub convert_id_int_to_string : ℕ → Sizes → Result Bytes
unfolding units_to_string split print_parts
convert_id_int_to_string id c = do u ← units_to_string c; p ← split u id; ok (print_parts p)

-- An `int` read from digits. (A sign cannot stand in an id that the program makes; a part that is
-- negative is outside the model.)
abbrev natural : ℤ → Result ℕ
natural (pos n) = ok n
natural (negsuc n) = err undefined

-- the parts, by their places in the text
unfoldable pub read_parts : Bytes → Result Parts
read_parts id = do
  id_in_dist ← substr_from id id_single_start
  dist_id ← substr id id_district_start id_district_len
  city_id ← substr id id_city_start id_city_len
  state_id ← substr id id_state_start id_state_len
  country_id ← substr id id_country_start id_country_len
  continent_id ← substr id id_continent_start id_continent_len
  single ← natural (extract_int id_in_dist)
  district ← natural (extract_int dist_id)
  city ← natural (extract_int city_id)
  state ← natural (extract_int state_id)
  country ← natural (extract_int country_id)
  continent ← natural (extract_int continent_id)
  ok (record {
    continent = continent;
    country = country;
    state = state;
    city = city;
    district = district;
    single = single;
  })

-- the sum at the end of `convert_ID_string_to_int`, from left to right
unfoldable pub join : Units → Parts → Result ℕ
join u p = do
  continents ← mul_int u.num_nodes_in_one_continent p.continent
  countries ← mul_int u.num_nodes_in_one_country p.country
  a ← add_int continents countries
  states ← mul_int u.num_nodes_in_one_state p.state
  b ← add_int a states
  cities ← mul_int u.num_nodes_in_one_city p.city
  c ← add_int b cities
  dists ← mul_int u.num_nodes_in_one_dist p.district
  d ← add_int c dists
  add_int d p.single

unfoldable pub convert_id_string_to_int : Bytes → Sizes → Result ℕ
unfolding read_parts units_to_int join
convert_id_string_to_int id c = do p ← read_parts id; u ← units_to_int c; join u p
