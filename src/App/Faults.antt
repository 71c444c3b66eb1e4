-- ===== src/App/Faults.antt =====
-- How `convert_ID_string_to_int` can fail on the ids that are formed.
use fring.Common.{>>=-eq-err, inl, inr, ◌≤◌, ◌≡◌, arith, length, Fault, err, undefined}
use fring.Common.Text.{Bytes, substr_within, npos}
use fring.Params.{
  id_continent_start, id_continent_len, id_country_start, id_country_len, id_state_start,
  id_state_len, id_city_start, id_city_len, id_district_start, id_district_len, id_single_start,
}
use fring.Ids.{
  Sizes, Units, Parts, units_to_int, unit_sizes, read_parts, join, convert_id_string_to_int,
}

units_to_int_fault : (c : Sizes) (f : Fault) → units_to_int c ≡ err f → f ≡ undefined
unfolding units_to_int unit_sizes
units_to_int_fault c f e = ground arith

join_fault : (u : Units) (p : Parts) (f : Fault) → join u p ≡ err f → f ≡ undefined
unfolding join
join_fault u p f e = ground arith

read_parts_fault :
    (id : Bytes) (f : Fault) → id_single_start ≤ length id → read_parts id ≡ err f → f ≡ undefined
unfolding read_parts
read_parts_fault id f h e =
    let e' =
      rw
        (
          substr_within id id_single_start npos h,
          substr_within id id_district_start id_district_len (omega (arith, h)),
          substr_within id id_city_start id_city_len (omega (arith, h)),
          substr_within id id_state_start id_state_len (omega (arith, h)),
          substr_within id id_country_start id_country_len (omega (arith, h)),
          substr_within id id_continent_start id_continent_len (omega (arith, h)),
        )
        at e in
    ground arith

-- Where the number of a long id is not computed, an `int` went over its bounds, a part was
-- negative, or a count was zero.
pub convert_id_string_to_int_fault :
    (id : Bytes) (c : Sizes) (f : Fault)
    → id_single_start ≤ length id
    → convert_id_string_to_int id c ≡ err f
    → f ≡ undefined
unfolding convert_id_string_to_int
convert_id_string_to_int_fault id c f h e = elim (>>=-eq-err (read_parts id) _ e) [
  | inl r ↦ read_parts_fault id f h r
  | inr (p, r, e1) ↦ elim (>>=-eq-err (units_to_int c) _ e1) [
    | inl q ↦ units_to_int_fault c f q
    | inr (u, q, e2) ↦ join_fault u p f e2
  ]
]
