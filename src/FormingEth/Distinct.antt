-- ===== src/FormingEth/Distinct.antt =====
-- Different numbers below a bound, and how many they can be.
use native.Mathlib.Nat.{mod-eq_of_lt, mod-eq-sub-mod}
use fring.Common.{
  ℕ, zero, suc, ◌+◌, ◌-◌, ◌%◌, ◌≤◌, ◌<◌, ◌≡◌, ◌≢◌, refl, ap, arith, inl, inr, true, false,
  Bool-cases, List, [], ◌∷◌, ◌==◌, if◌then◌else◌, length, ltb,
}
use fring.Eth.Gossip.{has_number}

-- Different numbers below `total`, each new to those behind it.
abbrev pub AreDistinct : ℕ → List ℕ → Type 0
AreDistinct total [] = Unit
AreDistinct total (i ∷ is) = (i < total) × (has_number i is ≡ false) × AreDistinct total is

-- the list without a number
abbrev without : ℕ → List ℕ → List ℕ
without n [] = []
without n (m ∷ ms) = if m == n then ms else m ∷ without n ms

has_number-without :
    (i n : ℕ) (ms : List ℕ) → has_number i ms ≡ false → has_number i (without n ms) ≡ false
has_number-without i n [] h = refl
has_number-without i n (m ∷ ms) h = ground (arith, has_number-without i n ms)

length-without : (n : ℕ) (ms : List ℕ) → length ms ≤ suc (length (without n ms))
length-without n [] = omega arith
length-without n (m ∷ ms) = ground (arith, length-without n ms)

has_number-without_ne :
    (i n : ℕ) (ms : List ℕ) → i ≢ n → has_number i ms ≡ true → has_number i (without n ms) ≡ true
has_number-without_ne i n [] ne h = cc
has_number-without_ne i n (m ∷ ms) ne h = ground (arith, has_number-without_ne i n ms ne)

length-without_has :
    (n : ℕ) (ms : List ℕ) → has_number n ms ≡ true → length ms ≡ suc (length (without n ms))
length-without_has n [] h = cc
length-without_has n (m ∷ ms) h = ground (arith, length-without_has n ms)

lower : (n : ℕ) (ms : List ℕ) → has_number n ms ≡ false → AreDistinct (suc n) ms → AreDistinct n ms
lower n [] new h = tt
lower n (m ∷ ms) new (b, fresh, h) = ground (arith, lower n ms)

-- Without `n`, the numbers are below it.
without-AreDistinct : (n : ℕ) (ms : List ℕ) → AreDistinct (suc n) ms → AreDistinct n (without n ms)
without-AreDistinct n [] h = tt
without-AreDistinct n (m ∷ ms) (b, new, h) = elim (Bool-cases (m == n)) [
  | inl e ↦ rw e (lower n ms (ground (arith, new)) h)
  | inr e ↦ rw e (ground arith, has_number-without m n ms new, without-AreDistinct n ms h)
]

-- No more than `n` different numbers are below `n`.
pub length-AreDistinct : (n : ℕ) (ms : List ℕ) → AreDistinct n ms → length ms ≤ n
length-AreDistinct zero [] h = omega arith
length-AreDistinct zero (m ∷ ms) h = absurd (omega (arith, h.0))
length-AreDistinct (suc n) ms h =
    omega
      (arith, length-without n ms, length-AreDistinct n (without n ms) (without-AreDistinct n ms h))

-- A list that has all numbers below `n` has `n` elements.
pub length_covering :
    (n : ℕ) (ms : List ℕ) → ((i : ℕ) → i < n → has_number i ms ≡ true) → n ≤ length ms
length_covering zero ms h = omega arith
length_covering (suc n) ms h = omega (
  arith,
  length-without_has n ms (h n (omega arith)),
  length_covering n (without n ms)
      (λ i l. has_number-without_ne i n ms (λ e. omega (arith, l, e)) (h i (omega (arith, l)))),
)

-- The number after the own one, round the end, is another one.
pub after_ne : (k n : ℕ) → k < n → 2 ≤ n → (k + 1) % n ≢ k
after_ne k n h two e = elim (Bool-cases (ltb (k + 1) n)) [
  | inl below ↦
      let same = mod-eq_of_lt {n = k + 1} {m = n} (ground (arith, below)) in omega (arith, same, e)
  | inr last ↦
      let le : n ≤ k + 1 = ground (arith, last) in
      let round = mod-eq-sub-mod {n = k + 1} {m = n} le in
      let rest : k + 1 - n ≡ 0 = omega (arith, h) in
      let none_left = mod-eq_of_lt {n = 0} {m = n} (omega (arith, h)) in
      omega (arith, ap (λ r. r % n) rest, round, none_left, e, h, two, le)
]
