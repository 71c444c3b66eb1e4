-- ===== src/App/Plans.antt =====
-- The ids that the plans of the upper rings make.
use fring.Common.{ℕ, ◌+◌, ◌-◌, ◌≤◌, ◌≡◌, refl, arith, [], ok, take, drop, length-take}
use fring.Common.Text.{Bytes, npos, substr, substr_within}
use fring.Ids.{Sizes}
use fring.Params.{
  id_continent_start, id_continent_len, id_country_start, id_country_len, id_state_start,
  id_state_len, id_city_start, id_city_len, id_district_start, id_district_len, id_single_start,
  id_single_len,
}
use fring.Forming.{own_parts}
use fring.Forming.Valid.{IsLong}
use fring.Forming.Loops.{Fits}
use fring.Forming.Stages.{substr-Fits}
use fring.App.{Counts, dist_plan, city_plan, state_plan, country_plan, continent_plan}

pub continent_plan-Fits : (c : Sizes) → Fits (continent_plan c)
continent_plan-Fits c =
    substr-Fits [] 5 id_continent_len c.num_continents c.num_cnodes_in_continent id_country_start
      npos (omega arith) (omega arith) (omega arith)

module _ (id : Bytes) (long : IsLong id) where
  plan-Fits :
      (level len units limit start n : ℕ)
      → start ≤ id_single_start
      → id_single_start ≤ start - len + (len + (id_single_start - start))
      → id_single_start ≤ start - len + (len + n)
      → Fits (record {
        ring_level = level;
        until = take (start - len) id;
        len = len;
        units = units;
        limit = limit;
        rest_of = λ contact. substr contact start n;
      })
  plan-Fits level len units limit start n h a b =
      let e = length-take (start - len) id in
      substr-Fits (take (start - len) id) level len units limit start n h
        (omega (arith, a, e, h, long)) (omega (arith, b, e, h, long))

  pub dist_plan-Fits : (c : Sizes) (k : Counts) → Fits (dist_plan id c k)
  dist_plan-Fits c k =
      plan-Fits 1 id_district_len k.num_dists_in_city c.num_cnodes_in_city id_single_start
        id_single_len (omega arith) (omega arith) (omega arith)

  pub city_plan-Fits : (c : Sizes) (k : Counts) → Fits (city_plan id c k)
  city_plan-Fits c k =
      plan-Fits 2 id_city_len k.num_cities_in_state c.num_cnodes_in_state id_district_start npos
        (omega arith) (omega arith) (omega arith)

  pub state_plan-Fits : (c : Sizes) (k : Counts) → Fits (state_plan id c k)
  state_plan-Fits c k =
      plan-Fits 3 id_state_len k.num_states_in_country c.num_cnodes_in_state id_city_start npos
        (omega arith) (omega arith) (omega arith)

  pub country_plan-Fits : (c : Sizes) (k : Counts) → Fits (country_plan id c k)
  country_plan-Fits c k =
      plan-Fits 4 id_country_len k.num_countries_in_continent c.num_cnodes_in_country id_state_start
        npos (omega arith) (omega arith) (omega arith)

  pub own_parts-ok : own_parts id ≡ ok (take id_single_len (drop id_single_start id))
  unfolding own_parts
  own_parts-ok =
      rw
        (
          substr_within id id_single_start id_single_len long,
          substr_within id id_district_start id_district_len (omega (arith, long)),
          substr_within id id_city_start id_city_len (omega (arith, long)),
          substr_within id id_state_start id_state_len (omega (arith, long)),
          substr_within id id_country_start id_country_len (omega (arith, long)),
          substr_within id id_continent_start id_continent_len (omega (arith, long)),
        )
        refl
