-- ===== src/FormingEth/Draws.antt =====
-- The loop that draws the neighbours.
use native.Mathlib.Nat.{mod-lt}
use mathlib.Core.Path.{subst}
use fring.Common.{
  ℕ, zero, suc, ◌+◌, ◌%◌, ◌≤◌, ◌<◌, ◌≡◌, refl, ◌∙◌, arith, inl, inr, true, false, ◌||◌, Bool-cases,
  List, [], ◌∷◌, ◌==◌, length, ok, err, out_of_fuel, mod_int, int_mod, add_int,
}
use fring.Eth.Gossip.{has_number}
use fring.Params.{table_size_eth}
use fring.FormingEth.Distinct.{AreDistinct, length-AreDistinct, length_covering, after_ne}
use fring.FormingEth.{draw_neighbours, neighbour_ids}

module _ (rand : ℕ → ℕ) (total self_order : ℕ) (own : self_order < total) where
  drawn-lt : (draws : ℕ) → rand draws % total < total
  drawn-lt draws = mod-lt (rand draws) (omega (arith, own))

  divides : (draws : ℕ) → mod_int (rand draws) total ≡ ok (rand draws % total)
  divides draws = ground (arith, own)

  -- the numbers drawn and the own one
  abbrev IsFresh : List ℕ → Type 0
  IsFresh ids = AreDistinct total (self_order ∷ ids)

  IsFresh-next :
      (ids : List ℕ) (draws : ℕ)
      → (has_number (rand draws % total) ids || (rand draws % total == self_order)) ≡ false
      → IsFresh ids
      → IsFresh (rand draws % total ∷ ids)
  IsFresh-next ids draws e (b, new, h) =
      (b, ground (arith, new, e), (drawn-lt draws, ground (arith, e), h))

  -- With fewer numbers left than wanted the loop does not end.
  draw_neighbours_never :
      (fuel wanted : ℕ) (ids : List ℕ) (draws : ℕ)
      → IsFresh ids
      → total ≤ length ids + wanted
      → 0 < wanted
      → draw_neighbours rand total self_order fuel wanted ids draws ≡ err out_of_fuel
  unfolding draw_neighbours
  draw_neighbours_never zero zero ids draws f h p = absurd (omega (arith, p))
  draw_neighbours_never zero (suc wanted) ids draws f h p = refl
  draw_neighbours_never (suc fuel) zero ids draws f h p = absurd (omega (arith, p))
  draw_neighbours_never (suc fuel) (suc wanted) ids draws f h p =
      elim (Bool-cases
        (has_number (rand draws % total) ids || (rand draws % total == self_order))) [
          | inl e ↦
              rw (divides draws, e) (draw_neighbours_never fuel (suc wanted) ids (suc draws) f h p)
          | inr e ↦
              let f' = IsFresh-next ids draws e f in
              let room = length-AreDistinct total (self_order ∷ rand draws % total ∷ ids) f' in
              rw (divides draws, e)
                (draw_neighbours_never fuel wanted (rand draws % total ∷ ids) (suc draws) f'
                  (omega (arith, h)) (omega (arith, h, room)))
        ]

  -- the numbers of the rounds before `draws` are among those seen
  abbrev Seen : ℕ → ℕ → List ℕ → Type 0
  Seen start draws ids =
      (j : ℕ) → start ≤ j → j < draws → has_number (rand j % total) (self_order ∷ ids) ≡ true

  Seen-again :
      (start draws : ℕ) (ids : List ℕ)
      → (has_number (rand draws % total) ids || (rand draws % total == self_order)) ≡ true
      → Seen start draws ids
      → Seen start (suc draws) ids
  Seen-again start draws ids e seen j lo hi = elim (Bool-cases (j == draws)) [
    | inl same ↦
        let now : has_number (rand draws % total) (self_order ∷ ids) ≡ true = ground (arith, e) in
        subst (λ k. has_number (rand k % total) (self_order ∷ ids) ≡ true) {x = draws} {y = j}
          (ground (arith, same)) now
    | inr other ↦ seen j lo (ground (arith, other, hi))
  ]

  Seen-next :
      (start draws : ℕ) (ids : List ℕ)
      → Seen start draws ids
      → Seen start (suc draws) (rand draws % total ∷ ids)
  Seen-next start draws ids seen j lo hi = elim (Bool-cases (j == draws)) [
    | inl same ↦
        let next = self_order ∷ rand draws % total ∷ ids in
        let now : has_number (rand draws % total) next ≡ true = ground arith in
        subst (λ k. has_number (rand k % total) next ≡ true) {x = draws} {y = j}
          (ground (arith, same)) now
    | inr other ↦ ground (arith, seen j lo (ground (arith, other, hi)))
  ]

  -- If each number comes up in time, the loop ends with as many as it wants.
  draw_neighbours_ends :
      (start stop fuel wanted : ℕ) (ids : List ℕ) (draws : ℕ)
      → ((i : ℕ) → i < total → (j : ℕ) × (start ≤ j) × (j < stop) × (rand j % total ≡ i))
      → draws + fuel ≡ stop
      → suc (length ids + wanted) ≤ total
      → IsFresh ids
      → Seen start draws ids
      → (ids' : List ℕ) × (draws' : ℕ) × (draw_neighbours rand total self_order fuel wanted ids
            draws
          ≡ ok (ids', draws'))
        × IsFresh ids'
        × (length ids' ≡ length ids + wanted)
  unfolding draw_neighbours
  draw_neighbours_ends start stop fuel zero ids draws all e room f seen =
      (ids, draws, refl, f, omega arith)
  draw_neighbours_ends start stop zero (suc wanted) ids draws all e room f seen =
      let full = length_covering total (self_order ∷ ids) (λ i l.
        let (j, lo, hi, d) = all i l in
        subst (λ k. has_number k (self_order ∷ ids) ≡ true) d (seen j lo (omega (arith, hi, e)))) in
      absurd (omega (arith, full, room))
  draw_neighbours_ends start stop (suc fuel) (suc wanted) ids draws all e room f seen =
      elim (Bool-cases
        (has_number (rand draws % total) ids || (rand draws % total == self_order))) [
          | inl old ↦
              rw (divides draws, old)
                (draw_neighbours_ends start stop fuel (suc wanted) ids (suc draws) all
                  (omega (arith, e)) room f (Seen-again start draws ids old seen))
          | inr new ↦
              let (ids', draws', same, f', n) =
                draw_neighbours_ends start stop fuel wanted (rand draws % total ∷ ids) (suc draws)
                  all (omega (arith, e)) (omega (arith, room)) (IsFresh-next ids draws new f)
                  (Seen-next start draws ids seen) in
              (ids', draws', rw (divides draws, new) same, f', omega (arith, n))
        ]

module _ (rand : ℕ → ℕ) (total self_order fuel draws : ℕ) (own : self_order < total)
    (small : total < int_mod) where
  first_fresh : 2 ≤ total → AreDistinct total (self_order ∷ (self_order + 1) % total ∷ [])
  first_fresh two =
      let ne = after_ne self_order total own two in
      (own, ground (arith, ne), (mod-lt (self_order + 1) (omega (arith, own)), refl, tt))

  starts :
      neighbour_ids rand total self_order fuel draws
      ≡ draw_neighbours rand total self_order fuel table_size_eth
          ((self_order + 1) % total ∷ [])
          draws
  unfolding neighbour_ids
  starts =
      let sum : add_int self_order 1 ≡ ok (self_order + 1) = ground (arith, own, small) in
      let rest : mod_int (self_order + 1) total ≡ ok ((self_order + 1) % total) =
        ground (arith, own) in
      rw (sum, rest) refl

  -- In a network of 2 to 14 nodes a node never gets its neighbours: whatever numbers are drawn, and
  -- however many, the loop asks for another one.
  pub neighbour_ids_never :
      2 ≤ total → total ≤ 14 → neighbour_ids rand total self_order fuel draws ≡ err out_of_fuel
  neighbour_ids_never two few =
      starts
      ∙ draw_neighbours_never rand total self_order own fuel table_size_eth _ draws
          (first_fresh two) (omega (arith, few)) (omega arith)

  -- In a network of 15 nodes or more, the loop ends if each number comes up among the next `fuel`
  -- ones that are drawn, and the node gets 14 different neighbours, itself not among them.
  pub neighbour_ids_ends :
      15 ≤ total
      → ((i : ℕ) → i < total → (j : ℕ) × (draws ≤ j) × (j < draws + fuel) × (rand j % total ≡ i))
      → (ids : List ℕ) × (draws' : ℕ) × (neighbour_ids rand total self_order fuel draws
          ≡ ok (ids, draws'))
        × AreDistinct total (self_order ∷ ids)
        × (length ids ≡ 14)
  neighbour_ids_ends many all =
      let (ids, draws', e, f, n) =
        draw_neighbours_ends rand total self_order own draws (draws + fuel) fuel table_size_eth
          ((self_order + 1) % total ∷ []) draws all refl (omega (arith, many))
          (first_fresh (omega (arith, many))) (λ j lo hi. absurd (omega (arith, lo, hi))) in
      (ids, draws', starts ∙ e, f, n)
