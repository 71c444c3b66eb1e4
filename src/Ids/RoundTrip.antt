-- ===== src/Ids/RoundTrip.antt =====
-- `convert_ID_int_to_string` and `convert_ID_string_to_int` against each other.
use native.Mathlib.Nat.{div-add-mod}
use fring.Common.{
  ℕ, zero, suc, ◌/◌, ◌≤◌, ◌<◌, ◌≡◌, refl, ◌∙◌, arith, length, ok, ◌+◌, ◌*◌, >>=-eq-ok, int_mod,
  div_int,
}
use fring.Common.Text.{Bytes}
use fring.Ids.{
  Sizes, Units, Parts, units_to_string, units_to_int, unit_sizes, at_least_one, print_parts, join,
  convert_id_int_to_string, convert_id_string_to_int,
}
use fring.Ids.Text.{Fits, length-print_parts, read_parts-print_parts}
use fring.Ids.Number.{IsScaled, unit_sizes-IsScaled, parts_of, split_lem, weighted_sum, join_lem}

units_to_string-IsScaled : (c : Sizes) {u : Units} → units_to_string c ≡ ok u → IsScaled u
unfolding units_to_string
units_to_string-IsScaled c e =
    let (d, _, e1) = >>=-eq-ok (div_int c.num_nodes_in_city c.num_cnodes_in_dist) _ e in
    let (t, _, e2) = >>=-eq-ok (div_int c.num_nodes_in_state c.num_cnodes_in_city) _ e1 in
    let (s, _, e3) = >>=-eq-ok (div_int c.num_nodes_in_country c.num_cnodes_in_state) _ e2 in
    let (n, _, e4) = >>=-eq-ok (div_int c.num_nodes_in_continent c.num_cnodes_in_country) _ e3 in
    unit_sizes-IsScaled (at_least_one d) (at_least_one t) (at_least_one s) (at_least_one n)
      c.num_nodes_in_dist e4

-- the number that the reader makes of the parts of an id, with the sizes of its own quotients
abbrev pub number_read : Sizes → Parts → ℕ
number_read c p =
    let one_dist = c.num_nodes_in_dist in
    let one_city = one_dist * (c.num_nodes_in_city / c.num_cnodes_in_dist) in
    let one_state = one_city * (c.num_nodes_in_state / c.num_cnodes_in_dist) in
    let one_country = one_state * (c.num_nodes_in_country / c.num_cnodes_in_state) in
    let one_continent = one_country * (c.num_nodes_in_continent / c.num_cnodes_in_country) in
    one_continent * p.continent
    + (one_country * p.country
        + (one_state * p.state + (one_city * p.city + (one_dist * p.district + p.single))))

-- the text of a number whose parts fit, and what the reader joins of it
written_and_joined :
    (id : ℕ) (c : Sizes) (u u' : Units)
    → units_to_string c ≡ ok u
    → units_to_int c ≡ ok u'
    → 0 < u.num_nodes_in_one_continent
    → Fits (parts_of u id)
    → (s : Bytes) × (convert_id_int_to_string id c ≡ ok s)
      × (length s ≡ 32)
      × (convert_id_string_to_int s c ≡ join u' (parts_of u id))
unfolding convert_id_int_to_string convert_id_string_to_int
written_and_joined id c u u' e e' h w =
    let scaled = units_to_string-IsScaled c e in
    (
      print_parts (parts_of u id),
      rw (e, split_lem u scaled id h) refl,
      length-print_parts (parts_of u id) w,
      rw (read_parts-print_parts (parts_of u id) w, e') refl,
    )

units_to_int-number_read :
    (c : Sizes) {u' : Units} (p : Parts)
    → units_to_int c ≡ ok u'
    → number_read c p < int_mod
    → join u' p ≡ ok (number_read c p)
unfolding units_to_int unit_sizes
units_to_int-number_read c {u'} p e small = join_lem u' p (number_read c p) (ground arith) small

-- A number whose parts fit their places is written as 32 digits, and reading these gives the sum of
-- the parts, each times the size of its unit, as the reader computes the sizes: from the contact
-- nodes of a district for both the districts in a city and the cities in a state, and with a
-- quotient of zero kept. The sizes of the reader must be `int`s, and so must the sum.
pub convert_id_string_to_int_reads :
    (id : ℕ) (c : Sizes) (u u' : Units)
    → units_to_string c ≡ ok u
    → units_to_int c ≡ ok u'
    → 0 < u.num_nodes_in_one_continent
    → Fits (parts_of u id)
    → number_read c (parts_of u id) < int_mod
    → (s : Bytes) × (convert_id_int_to_string id c ≡ ok s)
      × (length s ≡ 32)
      × (convert_id_string_to_int s c ≡ ok (number_read c (parts_of u id)))
convert_id_string_to_int_reads id c u u' e e' h w small =
    let (s, written, size, joined) = written_and_joined id c u u' e e' h w in
    (s, written, size, joined ∙ units_to_int-number_read c (parts_of u id) e' small)

-- The writer and the reader compute the same sizes, if the district and the city elect as many
-- contact nodes and no unit counts fewer nodes than its lower unit elects.
pub record IsRegular (c : Sizes) : Type 0 where
  pub same_contacts : c.num_cnodes_in_city ≡ c.num_cnodes_in_dist
  pub dists : c.num_cnodes_in_dist ≤ c.num_nodes_in_city
  pub cities : c.num_cnodes_in_dist ≤ c.num_nodes_in_state
  pub states : c.num_cnodes_in_state ≤ c.num_nodes_in_country
  pub countries : c.num_cnodes_in_country ≤ c.num_nodes_in_continent

at_least_one-div : (a b : ℕ) {q : ℕ} → b ≤ a → div_int a b ≡ ok q → at_least_one q ≡ q
at_least_one-div a zero h e = cc
at_least_one-div a (suc b) {q} h e = ground (arith, quotient_pos)
  where
    quotient_pos : 0 < a / suc b
    quotient_pos = grind (arith, div-add-mod a (suc b))

units_to_int_of_quotients :
    (c : Sizes) (d t s n : ℕ) {u : Units}
    → IsRegular c
    → div_int c.num_nodes_in_city c.num_cnodes_in_dist ≡ ok d
    → div_int c.num_nodes_in_state c.num_cnodes_in_dist ≡ ok t
    → div_int c.num_nodes_in_country c.num_cnodes_in_state ≡ ok s
    → div_int c.num_nodes_in_continent c.num_cnodes_in_country ≡ ok n
    → unit_sizes
        (at_least_one d)
        (at_least_one t)
        (at_least_one s)
        (at_least_one n)
        c.num_nodes_in_dist
      ≡ ok u
    → units_to_int c ≡ ok u
unfolding units_to_int
units_to_int_of_quotients c d t s n {u} r ed et es en e = rw (ed, et, es, en) same
  where
    same : unit_sizes d t s n c.num_nodes_in_dist ≡ ok u
    same =
        rw
          (
            at_least_one-div _ _ r.dists ed,
            at_least_one-div _ _ r.cities et,
            at_least_one-div _ _ r.states es,
            at_least_one-div _ _ r.countries en,
          )
          at e

units-eq : (c : Sizes) {u : Units} → IsRegular c → units_to_string c ≡ ok u → units_to_int c ≡ ok u
unfolding units_to_string
units-eq c r e =
    let (d, ed, e1) = >>=-eq-ok (div_int c.num_nodes_in_city c.num_cnodes_in_dist) _ e in
    let (t, et, e2) = >>=-eq-ok (div_int c.num_nodes_in_state c.num_cnodes_in_city) _ e1 in
    let (s, es, e3) = >>=-eq-ok (div_int c.num_nodes_in_country c.num_cnodes_in_state) _ e2 in
    let (n, en, e4) = >>=-eq-ok (div_int c.num_nodes_in_continent c.num_cnodes_in_country) _ e3 in
    units_to_int_of_quotients c d t s n r ed (rw r.same_contacts at et) es en e4

-- With regular counts an id is a faithful name of a number: writing the number and reading the
-- text gives it back, with no undefined step, if the number is an `int` and its parts fit.
pub convert_id_string_to_int-convert_id_int_to_string :
    (id : ℕ) (c : Sizes) (u : Units)
    → IsRegular c
    → units_to_string c ≡ ok u
    → 0 < u.num_nodes_in_one_continent
    → Fits (parts_of u id)
    → id < int_mod
    → (s : Bytes) × (convert_id_int_to_string id c ≡ ok s)
      × (length s ≡ 32)
      × (convert_id_string_to_int s c ≡ ok id)
convert_id_string_to_int-convert_id_int_to_string id c u r e h w fits =
    let (s, written, size, readback) = written_and_joined id c u u e (units-eq c r e) h w in
    (
      s,
      written,
      size,
      readback
          ∙ join_lem u (parts_of u id) id (weighted_sum u (units_to_string-IsScaled c e) id) fits,
    )
