-- ===== src/Peer/Reach.antt =====
-- A whole broadcast within a ring: the receivers of the loops in `broadcast_within_ring` handle the
-- message alike, each at its place and with the order that it was given.
use native.Mathlib.Nat.{mod-lt, mod-eq_of_lt, mod-eq-sub-mod}
use fring.Common.{
  ℕ, zero, suc, ◌+◌, ◌-◌, ◌%◌, ◌^◌, ◌≤◌, ◌<◌, ◌≡◌, refl, ◌∙◌, ap, arith, Bool, true, false, List,
  [], ◌∷◌, ◌++◌, map, if◌then◌else◌, leb, ◌==◌, ℤ, pos, Result, ok, err, out_of_fuel, ◌>>=◌, All,
  All-append, leb→le,
}
use fring.Peer.Ring.{Target, ring_targets, ring_fuel}
use fring.Peer.Tree.{child_orders, count, count-flood, flood, visit_all, rounds}
use fring.Peer.Targets.{target_of, ring_targets-child_orders, place_of-mod}

-- one list after the other
spread_all : (Target → Result (List Target)) → List Target → Result (List Target)
spread_all visit [] = ok []
spread_all visit (t ∷ ts) = do first ← visit t; rest ← spread_all visit ts; ok (first ++ rest)

-- Every delivery of a broadcast, from the node that has the given order and place: the node itself,
-- then what its receivers cause. Messages go to higher orders only, so a depth of as many orders
-- as the ring has is enough.
unfoldable pub spread : ℕ → ℤ → Target → Result (List Target)
unfolding spread_all
spread zero end_id t = err out_of_fuel
spread (suc depth) end_id t = do
  targets ← ring_targets ring_fuel 2 0 t.current_id t.target end_id
  rest ← spread_all (spread depth end_id) targets
  ok (t ∷ rest)

-- the place of a delivery, a number that is not negative
abbrev pub is_place : ℕ → Target → Bool
is_place q t = elim t.target [ pos r ↦ r == q | _ ↦ false ]

abbrev pub deliveries : ℕ → List Target → ℕ
deliveries q [] = 0
deliveries q (t ∷ ts) = (if is_place q t then 1 else 0) + deliveries q ts

-- The children have higher orders, up to the last.
pub child_orders_between :
    (fuel w o end : ℕ) → 0 < w → All (λ n. (o < n) × (n ≤ end)) (child_orders fuel w o end)
unfolding child_orders
child_orders_between zero w o end h = tt
child_orders_between (suc fuel) w o end h =
    cases (leb (o + w) end) (leb w o) (leb→le (o + w) end)
      (child_orders_between fuel (w + w) o end (omega arith))
  where
    cases :
        (a b : Bool)
        → (a ≡ true → o + w ≤ end)
        → All (λ n. (o < n) × (n ≤ end)) (child_orders fuel (w + w) o end)
        → All
            (λ n. (o < n) × (n ≤ end))
            (if a
              then (if b
                  then child_orders fuel (w + w) o end
                  else (o + w) ∷ child_orders fuel (w + w) o end)
              else [])
    cases true true k ih = ih
    cases true false k ih = ((omega arith, k refl), ih)
    cases false b k ih = tt

map-append : {A B : Type 0} (f : A → B) (xs ys : List A) → map f (xs ++ ys) ≡ map f xs ++ map f ys
map-append f [] ys = refl
map-append f (x ∷ xs) ys = ap (λ l. f x ∷ l) (map-append f xs ys)

spread_step :
    (depth : ℕ) (end_id : ℤ) (t : Target) {ts rs : List Target}
    → ring_targets ring_fuel 2 0 t.current_id t.target end_id ≡ ok ts
    → spread_all (spread depth end_id) ts ≡ ok rs
    → spread (suc depth) end_id t ≡ ok (t ∷ rs)
unfolding spread
spread_step depth end_id t e f = rw (e, f) refl

module _ (start end : ℕ) (h : start ≤ end) (small : end < 2 ^ 30) where
  -- the delivery to order `n` of a broadcast from the place `start`
  abbrev delivery : ℕ → Target
  delivery n = record { current_id = pos n; target = pos ((start + n) % (end + 1)) }

  targets-delivery :
      (o : ℕ) (ns : List ℕ)
      → All (λ n. (o < n) × (n ≤ end)) ns
      → map (target_of ((start + o) % (end + 1)) o end) ns ≡ map delivery ns
  targets-delivery o [] k = refl
  targets-delivery o (n ∷ ns) ((k, l), ks) =
      rw (targets-delivery o ns ks, place_of-mod start o end n h (omega arith) l) refl

  forwards :
      (o : ℕ)
      → ring_targets ring_fuel 2 0 (pos o) (pos ((start + o) % (end + 1))) (pos end)
        ≡ ok (map delivery (child_orders ring_fuel 1 o end))
  forwards o =
      ring_targets-child_orders o ((start + o) % (end + 1)) end
        (omega (arith, mod-lt (start + o) {m = end + 1} (omega arith))) small
      ∙ ap ok (
          targets-delivery o (child_orders ring_fuel 1 o end)
            (child_orders_between ring_fuel 1 o end (omega arith)))

  spread_all-flood :
      (depth : ℕ)
      → ((n : ℕ)
          → n ≤ end
          → end < n + depth
          → spread depth (pos end) (delivery n) ≡ ok (map delivery (flood depth end n)))
      → (o : ℕ) (ns : List ℕ) → end < o + suc depth
      → All (λ n. (o < n) × (n ≤ end)) ns
      → spread_all (spread depth (pos end)) (map delivery ns)
        ≡ ok (map delivery (visit_all (flood depth end) ns))
  unfolding spread_all
  spread_all-flood depth ih o [] d k = refl
  spread_all-flood depth ih o (n ∷ ns) d ((k, l), ks) =
      rw
        (
          ih n l (omega (arith, k, d)),
          spread_all-flood depth ih o ns d ks,
          map-append delivery (flood depth end n) (visit_all (flood depth end) ns),
        )
        refl

  spread-flood :
      (depth o : ℕ)
      → o ≤ end
      → end < o + depth
      → spread depth (pos end) (delivery o) ≡ ok (map delivery (flood depth end o))
  unfolding spread flood
  spread-flood zero o k d = absurd (omega arith)
  spread-flood (suc depth) o k d =
      let between = child_orders_between ring_fuel 1 o end (omega arith) in
      spread_step depth (pos end) (delivery o) (forwards o)
        (spread_all-flood depth (spread-flood depth) o (child_orders ring_fuel 1 o end) d between)

  flood_le : (depth o : ℕ) → o ≤ end → All (λ n. n ≤ end) (flood depth end o)
  unfolding flood
  flood_le zero o k = tt
  flood_le (suc depth) o k = (
    k,
    visit_all_le depth (flood_le depth) (child_orders rounds 1 o end)
        (child_orders_between rounds 1 o end (omega arith)),
  )
    where
      visit_all_le :
          (depth : ℕ)
          → ((n : ℕ) → n ≤ end → All (λ n. n ≤ end) (flood depth end n))
          → (ns : List ℕ) → All (λ n. (o < n) × (n ≤ end)) ns
          → All (λ n. n ≤ end) (visit_all (flood depth end) ns)
      visit_all_le depth ih [] l = tt
      visit_all_le depth ih (n ∷ ns) ((_, l), ls) =
          All-append (λ n. n ≤ end) (flood depth end n) _ (ih n l) (visit_all_le depth ih ns ls)

  -- the order that is delivered at a place
  abbrev order_at : ℕ → ℕ
  order_at q = if leb start q then q - start else q + (end + 1) - start

  is_place-delivery :
      (q n : ℕ)
      → n ≤ end
      → ◌≡◌ {A = ℕ}
          (if is_place q (delivery n) then 1 else 0)
          (if leb q end then (if n == order_at q then 1 else 0) else 0)
  is_place-delivery q n k = ground (
    arith,
    mod-eq_of_lt {n = start + n} {m = end + 1},
    mod-eq-sub-mod {n = start + n} {m = end + 1},
    mod-eq_of_lt {n = start + n - (end + 1)} {m = end + 1},
  )

  deliveries-count :
      (q : ℕ) (ns : List ℕ)
      → All (λ n. n ≤ end) ns
      → deliveries q (map delivery ns) ≡ (if leb q end then count (order_at q) ns else 0)
  deliveries-count q [] k = ground arith
  deliveries-count q (n ∷ ns) (k, ks) =
      ground (arith, is_place-delivery q n k, deliveries-count q ns ks)

-- A broadcast within a ring of at most `2 ^ 30` peers, begun at any place, ends with no overflow of
-- an `int`, and every peer of the ring gets the message exactly once: each place of the vector up to the last one has one
-- delivery (the one at the beginning is the sender's own), and no other place has any.
pub spread_lem :
    (start end depth : ℕ)
    → start ≤ end
    → end < 2 ^ 30
    → end < depth
    → (ts : List Target) × (spread depth
          (pos end)
          (record { current_id = pos 0; target = pos start })
        ≡ ok ts)
      × ((q : ℕ) → deliveries q ts ≡ (if leb q end then 1 else 0))
spread_lem start end depth h small d = (
  map (delivery start end h small) (flood depth end 0),
  ap (λ r. spread depth (pos end) (record { current_id = pos 0; target = pos r })) at_start
      ∙ spread-flood start end h small depth 0 (omega arith) (omega arith),
  λ q.
      deliveries-count start end h small q (flood depth end 0)
        (flood_le start end h small depth 0 (omega arith))
      ∙ reached_once q,
)
  where
    at_start : start ≡ (start + 0) % (end + 1)
    at_start = omega (arith, mod-eq_of_lt {n = start + 0} {m = end + 1} (omega arith))

    reached_once :
        (q : ℕ)
        → (if leb q end then count (order_at start end h small q) (flood depth end 0) else 0)
          ≡ (if leb q end then 1 else 0)
    reached_once q =
        ground (arith, count-flood end depth (order_at start end h small q) (omega arith) d)
