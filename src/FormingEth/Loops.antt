-- ===== src/FormingEth/Loops.antt =====
-- The six loops over all ids: what they keep, and that they reach every place of the grid.
use fring.Common.{
  ℕ, zero, suc, ◌+◌, ◌≤◌, ◌<◌, ◌≡◌, refl, arith, inl, inr, Bool-cases, ok, Result, ◌==◌,
}
use fring.Ids.{Sizes, Parts}
use fring.FormingEth.{Grid, FormingEth, for_each}

-- The places of a grid.
pub record Within (c : Sizes) (g : Grid) (p : Parts) : Type 0 where
  pub continent : p.continent < c.num_continents
  pub country : p.country < g.num_countries_in_continent
  pub state : p.state < g.num_states_in_country
  pub city : p.city < g.num_cities_in_state
  pub district : p.district < g.num_dists_in_city
  pub single : p.single < c.num_nodes_in_dist

-- A loop returns with an invariant that each of its rounds keeps, and if a round brings about what
-- the others keep, the loop brings it about.
pub for_each-keeps :
    (P : FormingEth → Type 0) (rounds i : ℕ) (body : ℕ → FormingEth → Result FormingEth)
    → ((k : ℕ)
        → i ≤ k
        → k < i + rounds
        → (s : FormingEth) → P s
        → (s' : FormingEth) × (body k s ≡ ok s') × P s')
    → (s : FormingEth) → P s
    → (s' : FormingEth) × (for_each rounds i body s ≡ ok s') × P s'
unfolding for_each
for_each-keeps P zero i body step s v = (s, refl, v)
for_each-keeps P (suc rounds) i body step s v =
    let (s1, e1, v1) = step i (omega arith) (omega arith) s v in
    let (s2, e2, v2) =
      for_each-keeps P rounds (suc i) body (λ k h l. step k (omega (arith, h)) (omega (arith, l)))
        s1 v1 in
    (s2, rw e1 e2, v2)

pub for_each-reaches :
    (P Q : FormingEth → Type 0) (rounds i j : ℕ) (body : ℕ → FormingEth → Result FormingEth)
    → i ≤ j
    → j < i + rounds
    → ((k : ℕ)
        → i ≤ k
        → k < i + rounds
        → (s : FormingEth) → P s
        → (s' : FormingEth) × (body k s ≡ ok s') × P s')
    → ((k : ℕ)
        → i ≤ k
        → k < i + rounds
        → (s : FormingEth) → Q s
        → (s' : FormingEth) × (body k s ≡ ok s') × Q s')
    → ((s : FormingEth) → P s → (s' : FormingEth) × (body j s ≡ ok s') × Q s')
    → (s : FormingEth) → P s
    → (s' : FormingEth) × (for_each rounds i body s ≡ ok s') × Q s'
unfolding for_each
for_each-reaches P Q zero i j body h l keeps keeps' hit s v = absurd (omega (arith, h, l))
for_each-reaches P Q (suc rounds) i j body h l keeps keeps' hit s v = elim (Bool-cases (i == j)) [
  | inl here ↦
      (let same : i ≡ j = ground (arith, here) in
        let (s1, e1, v1) = hit s v in
        let (s2, e2, v2) =
          for_each-keeps Q rounds (suc i) body
            (λ k a b. keeps' k (omega (arith, a)) (omega (arith, b))) s1 v1 in
        (s2, rw (same, e1) (rw same at e2), v2))
  | inr later ↦
      (let (s1, e1, v1) = keeps i (omega arith) (omega arith) s v in
        let next : suc i ≤ j = ground (arith, h, later) in
        let (s2, e2, v2) =
          for_each-reaches P Q rounds (suc i) j body next (omega (arith, l))
            (λ k a b. keeps k (omega (arith, a)) (omega (arith, b)))
            (λ k a b. keeps' k (omega (arith, a)) (omega (arith, b))) hit s1 v1 in
        (s2, rw e1 e2, v2))
]

abbrev pub Brings : (P Q : FormingEth → Type 0) → (FormingEth → Result FormingEth) → Type 0
Brings P Q call = (s : FormingEth) → P s → (s' : FormingEth) × (call s ≡ ok s') × Q s'

loop_keeps :
    (P : FormingEth → Type 0) (n : ℕ) (body : ℕ → FormingEth → Result FormingEth)
    → ((k : ℕ) → k < n → Brings P P (body k))
    → Brings P P (for_each n 0 body)
loop_keeps P n body step = for_each-keeps P n 0 body (λ k h l. step k (omega (arith, l)))

loop_reaches :
    (P Q : FormingEth → Type 0) (n j : ℕ) (body : ℕ → FormingEth → Result FormingEth)
    → j < n
    → ((k : ℕ) → k < n → Brings P P (body k))
    → ((k : ℕ) → k < n → Brings Q Q (body k))
    → Brings P Q (body j)
    → Brings P Q (for_each n 0 body)
loop_reaches P Q n j body l keeps keeps' hit =
    for_each-reaches P Q n 0 j body (omega arith) (omega (arith, l))
      (λ k h m. keeps k (omega (arith, m))) (λ k h m. keeps' k (omega (arith, m))) hit

abbrev parts_at : ℕ → ℕ → ℕ → ℕ → ℕ → ℕ → Parts
parts_at continent country state city district single = record {
  continent = continent;
  country = country;
  state = state;
  city = city;
  district = district;
  single = single;
}

module _ (c : Sizes) (g : Grid) (call : Parts → FormingEth → Result FormingEth) where
  abbrev singles : ℕ → ℕ → ℕ → ℕ → ℕ → FormingEth → Result FormingEth
  singles i j k l m = for_each c.num_nodes_in_dist 0 λ n. call (parts_at i j k l m n)

  abbrev districts : ℕ → ℕ → ℕ → ℕ → FormingEth → Result FormingEth
  districts i j k l = for_each g.num_dists_in_city 0 (singles i j k l)

  abbrev cities : ℕ → ℕ → ℕ → FormingEth → Result FormingEth
  cities i j k = for_each g.num_cities_in_state 0 (districts i j k)

  abbrev states : ℕ → ℕ → FormingEth → Result FormingEth
  states i j = for_each g.num_states_in_country 0 (cities i j)

  abbrev countries : ℕ → FormingEth → Result FormingEth
  countries i = for_each g.num_countries_in_continent 0 (states i)

  abbrev pub continents : FormingEth → Result FormingEth
  continents = for_each c.num_continents 0 countries

  module _ (P : FormingEth → Type 0) (step : (p : Parts) → Within c g p → Brings P P (call p)) where
    singles-keeps :
        (i j k l m : ℕ)
        → i < c.num_continents
        → j < g.num_countries_in_continent
        → k < g.num_states_in_country
        → l < g.num_cities_in_state
        → m < g.num_dists_in_city
        → Brings P P (singles i j k l m)
    singles-keeps i j k l m hi hj hk hl hm = loop_keeps P c.num_nodes_in_dist _ (λ n hn.
        step (parts_at i j k l m n) (record {
          continent = hi;
          country = hj;
          state = hk;
          city = hl;
          district = hm;
          single = hn;
        }))

    districts-keeps :
        (i j k l : ℕ)
        → i < c.num_continents
        → j < g.num_countries_in_continent
        → k < g.num_states_in_country
        → l < g.num_cities_in_state
        → Brings P P (districts i j k l)
    districts-keeps i j k l hi hj hk hl =
        loop_keeps P g.num_dists_in_city _ (λ m. singles-keeps i j k l m hi hj hk hl)

    cities-keeps :
        (i j k : ℕ)
        → i < c.num_continents
        → j < g.num_countries_in_continent
        → k < g.num_states_in_country
        → Brings P P (cities i j k)
    cities-keeps i j k hi hj hk =
        loop_keeps P g.num_cities_in_state _ (λ l. districts-keeps i j k l hi hj hk)

    states-keeps :
        (i j : ℕ)
        → i < c.num_continents
        → j < g.num_countries_in_continent
        → Brings P P (states i j)
    states-keeps i j hi hj = loop_keeps P g.num_states_in_country _ (λ k. cities-keeps i j k hi hj)

    countries-keeps : (i : ℕ) → i < c.num_continents → Brings P P (countries i)
    countries-keeps i hi = loop_keeps P g.num_countries_in_continent _ (λ j. states-keeps i j hi)

    pub continents-keeps : Brings P P continents
    continents-keeps = loop_keeps P c.num_continents _ countries-keeps

  -- A place of the grid is reached.
  pub continents-reaches :
      (P Q : FormingEth → Type 0) (p : Parts)
      → Within c g p
      → ((x : Parts) → Within c g x → Brings P P (call x))
      → ((x : Parts) → Within c g x → Brings Q Q (call x))
      → Brings P Q (call p)
      → Brings P Q continents
  continents-reaches P Q p w a b hit =
      loop_reaches P Q c.num_continents p.continent _ w.continent (countries-keeps P a)
        (countries-keeps Q b)
        (loop_reaches P Q g.num_countries_in_continent p.country _ w.country
          (λ j. states-keeps P a p.continent j w.continent)
          (λ j. states-keeps Q b p.continent j w.continent)
          (loop_reaches P Q g.num_states_in_country p.state _ w.state
            (λ k. cities-keeps P a p.continent p.country k w.continent w.country)
            (λ k. cities-keeps Q b p.continent p.country k w.continent w.country)
            (loop_reaches P Q g.num_cities_in_state p.city _ w.city
              (λ l.
                districts-keeps P a p.continent p.country p.state l w.continent w.country w.state)
              (λ l.
                districts-keeps Q b p.continent p.country p.state l w.continent w.country w.state)
              (loop_reaches P Q g.num_dists_in_city p.district _ w.district
                (λ m.
                  singles-keeps P a p.continent p.country p.state p.city m w.continent w.country
                    w.state w.city)
                (λ m.
                  singles-keeps Q b p.continent p.country p.state p.city m w.continent w.country
                    w.state w.city)
                (loop_reaches P Q c.num_nodes_in_dist p.single _ w.single
                  (λ n hn.
                    a (parts_at p.continent p.country p.state p.city p.district n) (here n hn))
                  (λ n hn.
                    b (parts_at p.continent p.country p.state p.city p.district n) (here n hn))
                  hit)))))
    where
      here :
          (n : ℕ)
          → n < c.num_nodes_in_dist
          → Within c g (parts_at p.continent p.country p.state p.city p.district n)
      here n hn = record {
        continent = w.continent;
        country = w.country;
        state = w.state;
        city = w.city;
        district = w.district;
        single = hn;
      }
