-- ===== src/Peer/Targets.antt =====
-- The steps of the loops in `broadcast_within_ring`, against the broadcast tree and the places of
-- the ring.
use native.Mathlib.Nat.{pow-suc, mod-lt, mod-add-mod, mod-eq_of_lt, mod-eq-sub-mod}
use native.Mathlib.Numerals.{add-one}
use fring.Common.{
  ℕ, zero, suc, ◌+◌, ◌-◌, ◌%◌, ◌^◌, ◌≤◌, ◌<◌, ◌≡◌, refl, ◌∙◌, ap, arith, Bool, true, false, List,
  [], ◌∷◌, map, if◌then◌else◌, ltb, leb, pos, Result, ok, ◌>>=◌, leb→le, ltb→lt, to_int-pos,
  leb_ℤ-pos, ltb_ℤ-pos, ltb→le, leb_ℤ, ◌-ℤ◌, ℤ, to_int, ◌+ℤ◌, +ℤ_pos, -ℤ_pos,
}
use fring.Peer.Ring.{Target, wrap_target, ring_targets, ring_fuel}
use fring.Peer.Tree.{child_orders, power_after}

pow_double : (i : ℕ) → 2 ^ (i + 1) ≡ 2 ^ i + 2 ^ i
pow_double i = rw (add-one, pow-suc) (omega arith)

-- the place of order `n` in the vector of a ring with `end + 1` peers, from the node at place `q`
-- that has order `o`
abbrev pub place_of : ℕ → ℕ → ℕ → ℕ → ℕ
place_of q o end n = if ltb end (q + (n - o)) then q + (n - o) - (end + 1) else q + (n - o)

abbrev pub target_of : ℕ → ℕ → ℕ → ℕ → Target
target_of q o end n = record { current_id = pos n; target = pos (place_of q o end n) }

wrap_target_lem :
    (q o end w : ℕ)
    → q ≤ end
    → w ≤ end
    → end < 2 ^ 30
    → wrap_target (pos q +ℤ pos w) (pos end) ≡ ok (pos (place_of q o end (o + w)))
wrap_target_lem q o end w h k small =
    let sum = q + w in
    ap (λ t. wrap_target t (pos end)) (+ℤ_pos q w)
    ∙ rw (to_int-pos (q + w) (omega (arith, h, k, small))) (
        ap (λ b. wrapped b (pos end +ℤ pos 1)) (ltb_ℤ-pos end sum)
        ∙ ap (λ s. wrapped (ltb end sum) s) (+ℤ_pos end 1)
        ∙ tested (ltb end sum) (ltb→lt end sum) (ltb→le end sum)
        ∙ ap (λ t. ok (pos (if ltb end t then t - (end + 1) else t))) {x = sum}
            {y = q + (o + w - o)} (omega arith))
  where
    wrapped : Bool → ℤ → Result ℤ
    wrapped beyond size =
        if beyond then (to_int size >>= λ n. to_int (pos (q + w) -ℤ n)) else ok (pos (q + w))

    tested :
        (b : Bool)
        → (b ≡ true → end < q + w)
        → (b ≡ false → q + w ≤ end)
        → wrapped b (pos (end + 1)) ≡ ok (pos (if b then q + w - (end + 1) else q + w))
    tested true l g = rw (to_int-pos (end + 1) (omega (arith, small))) (
        ap to_int (-ℤ_pos (q + w) (end + 1) (omega (arith, l refl)))
        ∙ to_int-pos (q + w - (end + 1)) (omega (arith, h, k, small)))
    tested false l g = refl

ring_targets_round :
    (fuel i o q end w : ℕ)
    → 2 ^ i ≡ w
    → q ≤ end
    → end < 2 ^ 30
    → let rest = ring_targets fuel 2 (i + 1) (pos o) (pos q) (pos end) in
      ring_targets (suc fuel) 2 i (pos o) (pos q) (pos end) ≡ (
        if leb (o + w) end
        then (if leb w o then rest else (rest >>= λ l. ok (target_of q o end (o + w) ∷ l)))
        else ok [])
unfolding ring_targets
ring_targets_round fuel i o q end w e inside small = rw e (
    let rest = ring_targets fuel 2 (i + 1) (pos o) (pos q) (pos end) in
    let target = wrap_target (pos q +ℤ pos w) (pos end) in
    ap (λ sum. from_sum sum (leb_ℤ (pos w) (pos o)) target rest) (+ℤ_pos o w)
    ∙ ap (λ skip. from_sum (pos (o + w)) skip target rest) (leb_ℤ-pos w o)
    ∙ ap (λ below. from_test below (leb w o) target rest) (leb_ℤ-pos (o + w) end)
    ∙ tested (leb (o + w) end) target rest (leb→le (o + w) end)
        (λ k. wrap_target_lem q o end w inside (omega (arith, k)) small))
  where
    from : Bool → ℤ → Bool → Result ℤ → Result (List Target) → Result (List Target)
    from below sum skip target rest =
        if below
        then (to_int sum >>= λ current_id.
            if skip
            then rest
            else (target >>= λ t.
                rest >>= λ l. ok (record { current_id = current_id; target = t } ∷ l)))
        else ok []

    from_sum : ℤ → Bool → Result ℤ → Result (List Target) → Result (List Target)
    from_sum sum skip target rest = from (leb_ℤ sum (pos end)) sum skip target rest

    from_test : Bool → Bool → Result ℤ → Result (List Target) → Result (List Target)
    from_test below skip target rest = from below (pos (o + w)) skip target rest

    tested :
        (below : Bool) (target : Result ℤ) (rest : Result (List Target))
        → (below ≡ true → o + w ≤ end)
        → (o + w ≤ end → target ≡ ok (pos (place_of q o end (o + w))))
        → from_test below (leb w o) target rest ≡ (
            if below
            then (if leb w o then rest else (rest >>= λ l. ok (target_of q o end (o + w) ∷ l)))
            else ok [])
    tested true target rest h t =
        rw (to_int-pos (o + w) (omega (arith, h refl, small)), t (h refl)) refl
    tested false target rest h t = refl

child_orders_round :
    (fuel w o end : ℕ)
    → let rest = child_orders fuel (w + w) o end in
      child_orders (suc fuel) w o end
      ≡ (if leb (o + w) end then (if leb w o then rest else (o + w) ∷ rest) else [])
unfolding child_orders
child_orders_round fuel w o end = refl

ring_targets_from :
    (fuel i o q end w : ℕ)
    → 2 ^ i ≡ w
    → q ≤ end
    → end < 2 ^ 30
    → end < power_after fuel w
    → ring_targets (suc fuel) 2 i (pos o) (pos q) (pos end)
      ≡ ok (map (target_of q o end) (child_orders (suc fuel) w o end))
ring_targets_from zero i o q end w e inside small cap =
    let past : leb (o + w) end ≡ false = ground arith in
    rw (ring_targets_round zero i o q end w e inside small, child_orders_round zero w o end, past)
      refl
ring_targets_from (suc fuel) i o q end w e inside small cap =
    let ih =
      ring_targets_from fuel (i + 1) o q end (w + w) (rw pow_double (ap (λ k. k + k) e)) inside
        small cap in
    rw
      (
        ring_targets_round (suc fuel) i o q end w e inside small,
        child_orders_round (suc fuel) w o end,
        ih,
      )
      (cases (leb (o + w) end) (leb w o))
  where
    l : List ℕ
    l = child_orders (suc fuel) (w + w) o end

    cases :
        (a b : Bool)
        → (if a
            then (if b
                then ok (map (target_of q o end) l)
                else ok (target_of q o end (o + w) ∷ map (target_of q o end) l))
            else ok [])
          ≡ ok (map (target_of q o end) (if a then (if b then l else (o + w) ∷ l) else []))
    cases true true = refl
    cases true false = refl
    cases false b = refl

-- The loops end within their rounds, with no overflow of their `int`s, for a node at a place of a ring
-- of at most `2 ^ 30` peers, and go through the children of the node's order in the broadcast tree,
-- each with its place in the vector.
pub ring_targets-child_orders :
    (o q end : ℕ)
    → q ≤ end
    → end < 2 ^ 30
    → ring_targets ring_fuel 2 0 (pos o) (pos q) (pos end)
      ≡ ok (map (target_of q o end) (child_orders ring_fuel 1 o end))
ring_targets-child_orders o q end h small =
    ring_targets_from 63 0 o q end 1 refl h small (omega (arith, small))

-- In the ring, the place of an order is the place of order 0 moved on by the order: a receiver
-- stands as far from the beginning of the broadcast as its order says.
pub place_of-mod :
    (start o end n : ℕ)
    → start ≤ end
    → o ≤ n
    → n ≤ end
    → place_of ((start + o) % (end + 1)) o end n ≡ (start + n) % (end + 1)
place_of-mod start o end n h k l =
    let r = (start + o) % (end + 1) in
    let small : r < end + 1 = mod-lt (start + o) {m = end + 1} (omega arith) in
    let moved : (r + (n - o)) % (end + 1) ≡ (start + n) % (end + 1) =
      mod-add-mod (start + o) (end + 1) (n - o)
      ∙ ap (λ t. t % (end + 1)) {x = start + o + (n - o)} {y = start + n} (omega arith) in
    wrapped r small ∙ moved
  where
    wrapped : (r : ℕ) → r < end + 1 → place_of r o end n ≡ (r + (n - o)) % (end + 1)
    wrapped r small = ground (
      arith,
      mod-eq_of_lt {n = r + (n - o)} {m = end + 1},
      mod-eq-sub-mod {n = r + (n - o)} {m = end + 1},
      mod-eq_of_lt {n = r + (n - o) - (end + 1)} {m = end + 1},
    )
