-- ===== src/Ids/Text.antt =====
-- The text of an id: its length, and reading its parts back.
use fring.Common.{
  ℕ, ◌^◌, ◌≤◌, ◌<◌, ◌≡◌, refl, arith, [], ◌++◌, append_assoc, length, length-append, take-append,
  drop-append, take-all, ok, false, ltb, le→ltb,
}
use fring.Common.Text.{Bytes, substr, substr_from, npos}
use fring.Decimal.{setw}
use fring.Decimal.RoundTrip.{length-setw, extract_int-setw}
use fring.Params.{
  id_continent_len, id_country_len, id_state_len, id_city_len, id_district_len, id_single_len,
}
use fring.Ids.{Parts, print_parts, read_parts}

-- Each part fits its places in the text.
pub record Fits (p : Parts) : Type 0 where
  pub continent : p.continent < 10 ^ 3
  pub country : p.country < 10 ^ 4
  pub state : p.state < 10 ^ 5
  pub city : p.city < 10 ^ 6
  pub district : p.district < 10 ^ 5
  pub single : p.single < 10 ^ 9

substr_middle :
    (s pre f rest : Bytes) (start n : ℕ)
    → s ≡ pre ++ (f ++ rest)
    → length pre ≡ start
    → length f ≡ n
    → substr s start n ≡ ok f
unfolding substr
substr_middle s pre f rest start n e p q =
    let h : ltb (length (pre ++ (f ++ rest))) (length pre) ≡ false =
      le→ltb _ _ (omega (arith, length-append pre (f ++ rest))) in
    rw (e, ← p, ← q) (rw (h, drop-append pre (f ++ rest), take-append f rest) refl)

substr_last :
    (s pre f : Bytes) (start : ℕ)
    → s ≡ pre ++ f
    → length pre ≡ start
    → length f ≤ npos
    → substr_from s start ≡ ok f
unfolding substr
substr_last s pre f start e p q =
    let h : ltb (length (pre ++ f)) (length pre) ≡ false =
      le→ltb _ _ (omega (arith, length-append pre f)) in
    rw (e, ← p) (rw (h, drop-append pre f, take-all npos f q) refl)

module _ (p : Parts) (w : Fits p) where
  a : Bytes
  a = setw id_continent_len p.continent

  b : Bytes
  b = setw id_country_len p.country

  c : Bytes
  c = setw id_state_len p.state

  d : Bytes
  d = setw id_city_len p.city

  e : Bytes
  e = setw id_district_len p.district

  f : Bytes
  f = setw id_single_len p.single

  lengths :
      (length a ≡ 3)
      × (length b ≡ 4)
      × (length c ≡ 5)
      × (length d ≡ 6)
      × (length e ≡ 5)
      × (length f ≡ 9)
  unfolding a b c d e f
  lengths = (
    length-setw 2 p.continent w.continent,
    length-setw 3 p.country w.country,
    length-setw 4 p.state w.state,
    length-setw 5 p.city w.city,
    length-setw 4 p.district w.district,
    length-setw 8 p.single w.single,
  )

  text : print_parts p ≡ a ++ (b ++ (c ++ (d ++ (e ++ f))))
  unfolding print_parts a b c d e f
  text = refl

  pub length-print_parts : length (print_parts p) ≡ 32
  length-print_parts = rw text (
      omega (
        arith,
        lengths,
        length-append a (b ++ (c ++ (d ++ (e ++ f)))),
        length-append b (c ++ (d ++ (e ++ f))),
        length-append c (d ++ (e ++ f)),
        length-append d (e ++ f),
        length-append e f,
      ))

  cut_continent : substr (print_parts p) 0 3 ≡ ok a
  cut_continent = substr_middle _ [] a (b ++ (c ++ (d ++ (e ++ f)))) 0 3 text refl lengths.0

  cut_country : substr (print_parts p) 3 4 ≡ ok b
  cut_country = substr_middle _ a b (c ++ (d ++ (e ++ f))) 3 4 text lengths.0 lengths.1

  cut_state : substr (print_parts p) 7 5 ≡ ok c
  cut_state =
      substr_middle _ (a ++ b) c (d ++ (e ++ f)) 7 5 (rw text (simp append_assoc))
        (omega (arith, lengths, length-append a b)) lengths.2

  cut_city : substr (print_parts p) 12 6 ≡ ok d
  cut_city =
      substr_middle _ (a ++ b ++ c) d (e ++ f) 12 6 (rw text (simp append_assoc))
        (omega (arith, lengths, length-append a b, length-append (a ++ b) c)) lengths.3

  cut_district : substr (print_parts p) 18 5 ≡ ok e
  cut_district =
      substr_middle _ (a ++ b ++ c ++ d) e f 18 5 (rw text (simp append_assoc))
        (omega (
          arith,
          lengths,
          length-append a b,
          length-append (a ++ b) c,
          length-append (a ++ b ++ c) d,
        ))
        lengths.4

  cut_single : substr_from (print_parts p) 23 ≡ ok f
  cut_single =
      substr_last _ (a ++ b ++ c ++ d ++ e) f 23 (rw text (simp append_assoc))
        (omega (
          arith,
          lengths,
          length-append a b,
          length-append (a ++ b) c,
          length-append (a ++ b ++ c) d,
          length-append (a ++ b ++ c ++ d) e,
        ))
        (omega (arith, lengths))

  -- Reading the text of an id gives its parts back, if each part fits its places.
  pub read_parts-print_parts : read_parts (print_parts p) ≡ ok p
  unfolding read_parts
  read_parts-print_parts =
      rw (cut_single, cut_district, cut_city, cut_state, cut_country, cut_continent)
        (unfold a b c d e f in
          rw
            (
              extract_int-setw 9 p.single (omega (arith, w.single)),
              extract_int-setw 5 p.district (omega (arith, w.district)),
              extract_int-setw 6 p.city (omega (arith, w.city)),
              extract_int-setw 5 p.state (omega (arith, w.state)),
              extract_int-setw 4 p.country (omega (arith, w.country)),
              extract_int-setw 3 p.continent (omega (arith, w.continent)),
            )
            refl)
