-- ===== src/Ids/Number.antt =====
-- The number of a node from the parts of its id, and back: a mixed-radix number.
use native.Mathlib.Nat.{div-add-mod, div-div-eq-div-mul}
use fring.Common.{ℕ, zero, suc, ◌+◌, ◌*◌, ◌/◌, ◌%◌, ◌<◌, ◌≡◌, refl, sym, ap, arith, ok, int_mod}
use fring.Ids.{Units, Parts, unit_sizes, split, join}

-- The sizes are the products of the counts.
pub record IsScaled (u : Units) : Type 0 where
  pub city : u.num_nodes_in_one_city ≡ u.num_nodes_in_one_dist * u.num_dists_in_city
  pub state : u.num_nodes_in_one_state ≡ u.num_nodes_in_one_city * u.num_cities_in_state
  pub country : u.num_nodes_in_one_country ≡ u.num_nodes_in_one_state * u.num_states_in_country
  pub continent :
      u.num_nodes_in_one_continent ≡ u.num_nodes_in_one_country * u.num_countries_in_continent

pub unit_sizes-IsScaled : (d c s n one : ℕ) {u : Units} → unit_sizes d c s n one ≡ ok u → IsScaled u
unfolding unit_sizes
unit_sizes-IsScaled d c s n one e = ground arith

pos_of_mul : (a b n : ℕ) → n ≡ a * b → 0 < n → (0 < a) × (0 < b)
pos_of_mul zero b n e h = absurd (omega arith)
pos_of_mul (suc a) zero n e h = absurd (omega arith)
pos_of_mul (suc a) (suc b) n e h = omega arith

-- One more digit: `id` written over `n`, then over `n * m`.
digit_step :
    (id n m k r : ℕ)
    → k ≡ n * m
    → id ≡ n * (id / n) + r
    → id ≡ k * (id / k) + (n * (id / n % m) + r)
digit_step id n m k r e h =
    let q : id / k ≡ id / n / m = rw e (sym (div-div-eq-div-mul id n m)) in
    let x : k * (id / k) ≡ n * m * (id / n / m) = rw (q, e) refl in
    let y : n * (m * (id / n / m) + id / n % m) ≡ n * (id / n) =
      ap (λ (t : ℕ). n * t) (div-add-mod (id / n) m) in
    omega (arith, h, x, y)

-- the parts that the divisions give
abbrev pub parts_of : Units → ℕ → Parts
parts_of u id = record {
  continent = id / u.num_nodes_in_one_continent;
  country = id / u.num_nodes_in_one_country % u.num_countries_in_continent;
  state = id / u.num_nodes_in_one_state % u.num_states_in_country;
  city = id / u.num_nodes_in_one_city % u.num_cities_in_state;
  district = id / u.num_nodes_in_one_dist % u.num_dists_in_city;
  single = id % u.num_nodes_in_one_dist;
}

module _ (u : Units) (w : IsScaled u) (id : ℕ) where
  open u use {
    num_dists_in_city, num_cities_in_state, num_states_in_country, num_countries_in_continent,
    num_nodes_in_one_dist, num_nodes_in_one_city, num_nodes_in_one_state, num_nodes_in_one_country,
    num_nodes_in_one_continent,
  }

  positive :
      0 < num_nodes_in_one_continent
      → (0 < num_nodes_in_one_dist)
        × (0 < num_dists_in_city)
        × (0 < num_nodes_in_one_city)
        × (0 < num_cities_in_state)
        × (0 < num_nodes_in_one_state)
        × (0 < num_states_in_country)
        × (0 < num_nodes_in_one_country)
        × (0 < num_countries_in_continent)
  positive h =
      let p4 = pos_of_mul _ _ _ w.continent h in
      let p3 = pos_of_mul _ _ _ w.country p4.0 in
      let p2 = pos_of_mul _ _ _ w.state p3.0 in
      let p1 = pos_of_mul _ _ _ w.city p2.0 in (p1.0, p1.1, p2.0, p2.1, p3.0, p3.1, p4.0, p4.1)

  -- With no empty unit the divisions are defined.
  pub split_lem : 0 < num_nodes_in_one_continent → split u id ≡ ok (parts_of u id)
  unfolding split
  split_lem h = ground (arith, positive h)

  -- The parts, weighted by the sizes, add up to the number.
  pub weighted_sum :
      num_nodes_in_one_continent * (parts_of u id).continent
        + (num_nodes_in_one_country * (parts_of u id).country
            + (num_nodes_in_one_state * (parts_of u id).state
                + (num_nodes_in_one_city * (parts_of u id).city
                    + (num_nodes_in_one_dist * (parts_of u id).district + (parts_of u id).single))))
      ≡ id
  weighted_sum = sym (
      digit_step id _ _ _ _ w.continent (
        digit_step id _ _ _ _ w.country (
          digit_step id _ _ _ _ w.state
            (digit_step id _ _ _ _ w.city (sym (div-add-mod id num_nodes_in_one_dist))))))

-- The sum of `convert_ID_string_to_int` is defined where it fits an `int`.
pub join_lem :
    (u : Units) (p : Parts) (n : ℕ)
    → u.num_nodes_in_one_continent * p.continent
        + (u.num_nodes_in_one_country * p.country
            + (u.num_nodes_in_one_state * p.state
                + (u.num_nodes_in_one_city * p.city
                    + (u.num_nodes_in_one_dist * p.district + p.single))))
      ≡ n
    → n < int_mod
    → join u p ≡ ok n
unfolding join
join_lem u p n e h = ground arith
