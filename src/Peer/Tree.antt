-- ===== src/Peer/Tree.antt =====
-- The tree of a broadcast within a ring, on orders: who forwards to whom, and whom a broadcast
-- reaches.
use native.Mathlib.Nat.{
  mod-mod_of_dvd, mod-eq_of_lt, mod-eq-sub-mod, mod-lt, mod-one, dvd-add, dvd_refl,
}
use fring.Common.{
  ℕ, zero, suc, ◌+◌, ◌-◌, ◌%◌, ◌^◌, ◌≤◌, ◌<◌, ◌≡◌, inl, inr, refl, sym, ◌∙◌, ap, arith, List, [],
  ◌∷◌, ◌++◌, if◌then◌else◌, ltb, leb, ◌==◌, Bool-cases, leb→le, leb→lt,
}

-- The orders to which order `o` forwards, from the power `w` on: `o + w`, `o + 2w`, … up to `end`,
-- without the powers that are not above `o`.
unfoldable pub child_orders : ℕ → ℕ → ℕ → ℕ → List ℕ
child_orders zero w o end = []
child_orders (suc fuel) w o end =
    let rest = child_orders fuel (w + w) o end in
    if leb (o + w) end then (if leb w o then rest else (o + w) ∷ rest) else []

-- the power after `fuel` rounds
abbrev pub power_after : ℕ → ℕ → ℕ
power_after zero w = w
power_after (suc fuel) w = power_after fuel (w + w)

abbrev pub count : ℕ → List ℕ → ℕ
count n [] = 0
count n (x ∷ xs) = (if x == n then 1 else 0) + count n xs

pub count-append : (n : ℕ) (xs ys : List ℕ) → count n (xs ++ ys) ≡ count n xs + count n ys
count-append n [] ys = omega arith
count-append n (x ∷ xs) ys = omega (arith, count-append n xs ys)

abbrev pub visit_all : (ℕ → List ℕ) → List ℕ → List ℕ
visit_all visit [] = []
visit_all visit (n ∷ ns) = visit n ++ visit_all visit ns

-- The rounds of the loop in `broadcast_within_ring`.
abbrev pub rounds : ℕ
rounds = 64

-- Every order that a broadcast visits from order `o`, with how deep it goes as fuel.
unfoldable pub flood : ℕ → ℕ → ℕ → List ℕ
flood zero end o = []
flood (suc depth) end o = o ∷ visit_all (flood depth end) (child_orders rounds 1 o end)

-- A remainder by `w + w` is one by `w`, or `w` more.
mod_low : (n w : ℕ) → n % (w + w) < w → n % w ≡ n % (w + w)
mod_low n w h = sym (mod-mod_of_dvd w n (dvd-add w (dvd_refl w) (dvd_refl w))) ∙ mod-eq_of_lt h

mod_high : (n w : ℕ) → 0 < w → w ≤ n % (w + w) → n % w + w ≡ n % (w + w)
mod_high n w p h =
    let r : n % w ≡ n % (w + w) - w =
      sym (mod-mod_of_dvd w n (dvd-add w (dvd_refl w) (dvd_refl w)))
      ∙ (mod-eq-sub-mod h ∙ mod-eq_of_lt (omega (arith, mod-lt n {m = w + w} (omega arith)))) in
    omega (arith, r)

-- `1` if `n` is an order that the powers from `w` on reach from `o`: one up to `end` with the
-- remainder `o`.
abbrev reached : ℕ → ℕ → ℕ → ℕ → ℕ
reached w o end n = if leb n end then (if (n % w) == o then 1 else 0) else 0

-- The orders reached from `o` are those reached without the power `w`, and those that it begins.
reached_split :
    (w o end n : ℕ)
    → o < w
    → reached (w + w) (o + w) end n + reached (w + w) o end n ≡ reached w o end n
reached_split w o end n h = elim (Bool-cases (ltb (n % (w + w)) w)) [
  | inl low ↦ ground (arith, mod_low n w)
  | inr high ↦ ground (arith, mod_high n w)
]

-- With the next step past the end only the order itself is reached.
reached_last :
    (w o end n : ℕ) → o < w → o ≤ end → end < o + w → (if o == n then 1 else 0) ≡ reached w o end n
reached_last w o end n h k l = elim (Bool-cases (ltb n w)) [
  | inl small ↦ ground (arith, mod-eq_of_lt {n = n} {m = w})
  | inr big ↦ ground (arith, mod-eq-sub-mod {n = n} {m = w}, mod-eq_of_lt {n = n - w} {m = w})
]

-- The powers that are not above the order are passed over.
child_orders_skip :
    (fuel w o end : ℕ) → w ≤ o → child_orders (suc fuel) w o end ≡ child_orders fuel (w + w) o end
unfolding child_orders
child_orders_skip zero w o end h = ground arith
child_orders_skip (suc fuel) w o end h = ground arith

-- From the power 1 on, an order `c` passes over all powers up to `w`.
abbrev Skips : ℕ → ℕ → ℕ → Type 0
Skips end fuel w = (c : ℕ) → w ≤ c → child_orders rounds 1 c end ≡ child_orders fuel w c end

child_orders_inside :
    (fuel w o end : ℕ)
    → o < w
    → o + w ≤ end
    → child_orders (suc fuel) w o end ≡ (o + w) ∷ child_orders fuel (w + w) o end
unfolding child_orders
child_orders_inside fuel w o end h k = ground arith

child_orders_past : (fuel w o end : ℕ) → end < o + w → child_orders fuel w o end ≡ []
unfolding child_orders
child_orders_past zero w o end h = refl
child_orders_past (suc fuel) w o end h = ground arith

-- A child visits what its own broadcast reaches, which begins behind the powers passed over.
flood_child :
    (fuel depth w o end : ℕ)
    → Skips end (suc fuel) w
    → flood (suc depth) end (o + w)
      ≡ (o + w) ∷ visit_all (flood depth end) (child_orders fuel (w + w) (o + w) end)
flood_child fuel depth w o end skips =
    let above : w ≤ o + w = omega arith in
    let e : child_orders rounds 1 (o + w) end ≡ child_orders fuel (w + w) (o + w) end =
      skips (o + w) above ∙ child_orders_skip fuel w (o + w) end above in
    let unrolled : flood (suc depth) end (o + w)
        ≡ (o + w) ∷ visit_all (flood depth end) (child_orders rounds 1 (o + w) end) =
      unfold flood in refl in
    unrolled ∙ ap (λ l. (o + w) ∷ visit_all (flood depth end) l) e

count-flood_child :
    (fuel depth w o end n : ℕ)
    → Skips end (suc fuel) w
    → o < w
    → o + w ≤ end
    → count n ((o + w) ∷ visit_all (flood depth end) (child_orders fuel (w + w) (o + w) end))
      ≡ reached (w + w) (o + w) end n
    → count n (o ∷ visit_all (flood (suc depth) end) (child_orders fuel (w + w) o end))
      ≡ reached (w + w) o end n
    → count n (o ∷ visit_all (flood (suc depth) end) (child_orders (suc fuel) w o end))
      ≡ reached w o end n
count-flood_child fuel depth w o end n skips h k child others =
    let first : count n (flood (suc depth) end (o + w)) ≡ reached (w + w) (o + w) end n =
      ap (count n) (flood_child fuel depth w o end skips) ∙ child in
    rw (child_orders_inside fuel w o end h k) (
      omega (
        arith,
        first,
        others,
        reached_split w o end n h,
        count-append n (flood (suc depth) end (o + w))
            (visit_all (flood (suc depth) end) (child_orders fuel (w + w) o end)),
      ))

count-flood_from :
    (fuel depth w o end n : ℕ)
    → Skips end fuel w
    → o < w
    → o ≤ end
    → end < power_after fuel w
    → end ≤ o + depth
    → count n (o ∷ visit_all (flood depth end) (child_orders fuel w o end)) ≡ reached w o end n
count-flood_from zero depth w o end n skips h k cap deep =
    unfold child_orders in omega (arith, reached_last w o end n h k (omega arith))
count-flood_from (suc fuel) zero w o end n skips h k cap deep =
    rw (child_orders_past (suc fuel) w o end (omega arith))
      (omega (arith, reached_last w o end n h k (omega arith)))
count-flood_from (suc fuel) (suc depth) w o end n skips h k cap deep =
    elim (Bool-cases (leb (o + w) end)) [
      | inl inside ↦
          count-flood_child fuel depth w o end n skips h (leb→le _ _ inside)
            (count-flood_from fuel depth (w + w) (o + w) end n (skip_more skips) (omega arith)
              (leb→le _ _ inside) cap (omega arith))
            (count-flood_from fuel (suc depth) (w + w) o end n (skip_more skips) (omega arith) k cap
              deep)
      | inr past ↦
          rw (child_orders_past (suc fuel) w o end (leb→lt _ _ past))
            (omega (arith, reached_last w o end n h k (leb→lt _ _ past)))
    ]
  where
    skip_more : Skips end (suc fuel) w → Skips end fuel (w + w)
    skip_more s c above =
        s c (omega (arith, above)) ∙ child_orders_skip fuel w c end (omega (arith, above))

-- A broadcast from order 0 visits each order up to the last exactly once, and no other order, if the
-- orders are numbers of 64 bits and the depth is at least the number of orders.
pub count-flood :
    (end depth n : ℕ)
    → end < 2 ^ 64
    → end < depth
    → count n (flood depth end 0) ≡ (if leb n end then 1 else 0)
unfolding flood
count-flood end zero n h k = absurd (omega arith)
count-flood end (suc depth) n h k =
    count-flood_from rounds depth 1 0 end n (λ c _. refl) (omega arith) (omega arith) h
      (omega arith)
    ∙ ground (arith, mod-one n)
