-- ===== src/Peer/Delay.antt =====
-- The simulated delay at the head of `on_receive`, against a count of the parts that two ids share.
use fring.Common.{
  ℕ, suc, ◌+◌, ◌-◌, ◌*◌, ◌%◌, ◌==◌, ◌≤◌, ◌≡◌, refl, arith, Bool, true, false, List, [], ◌∷◌, ◌++◌,
  length, if◌then◌else◌, take, drop, Result, pos, ok,
}
use fring.Common.Text.{Bytes, beq, substr_within}
use fring.Peer.State.{
  Env, PeerManager, random_num_in_range, differ_at, sleep_between, or_else, simulate_delay,
}

-- The continent, country, state, city and district of an id, each from where it begins on and as
-- long as `on_receive` takes it.
abbrev pub parts : List (ℕ × ℕ)
parts = (0, 3) ∷ (3, 7) ∷ (7, 12) ∷ (12, 18) ∷ (18, 23) ∷ []

abbrev pub shared : Bool → ℕ → ℕ
shared same n = if same then suc n else 0

-- how many of the parts, from the first on, the two ids have in common
abbrev pub equal_parts : List (ℕ × ℕ) → Bytes → Bytes → ℕ
equal_parts [] s r = 0
equal_parts ((start, n) ∷ ps) s r =
    shared (beq (take n (drop start s)) (take n (drop start r))) (equal_parts ps s r)

-- The delay in ms: with `m` parts in common and a random number, one between `40 * (4 - m)` and
-- `40 * (5 - m)`, and none where all five are the same.
abbrev pub delay_of : ℕ → ℕ → ℕ
delay_of m random = if m == 5 then 0 else random % 41 + 40 * (4 - m)

-- One delay is slept, for which one random number is drawn if the ids differ.
abbrev pub after_delay : Env → ℕ → PeerManager → PeerManager
after_delay env m p = record p {
  draws = if m == 5 then p.draws else suc p.draws;
  delays = p.delays ++ delay_of m (env.rand p.draws) ∷ [];
}

pub differ_at-beq :
    (env : Env) (s r : Bytes) (start len : ℕ)
    → start ≤ length s
    → start ≤ length r
    → differ_at env s r start len
      ≡ ok (
          if beq (take (start + len) (drop start s)) (take (start + len) (drop start r))
          then false
          else true)
unfolding differ_at
differ_at-beq env s r start len h k =
    rw (substr_within s start (start + len) h, substr_within r start (start + len) k) refl

pub simulate_delay_lem :
    (env : Env) (p : PeerManager) (s r : Bytes)
    → length s ≡ 32
    → length r ≡ 32
    → simulate_delay env s r p ≡ ok (after_delay env (equal_parts parts s r) p)
unfolding simulate_delay random_num_in_range
simulate_delay_lem env p s r es er =
    rw
      (
        differ_at-beq env s r 0 3 (omega arith) (omega arith),
        differ_at-beq env s r 3 4 (omega (arith, es)) (omega (arith, er)),
        differ_at-beq env s r 7 5 (omega (arith, es)) (omega (arith, er)),
        differ_at-beq env s r 12 6 (omega (arith, es)) (omega (arith, er)),
        differ_at-beq env s r 18 5 (omega (arith, es)) (omega (arith, er)),
      )
      (cases (same 0 3) (same 3 7) (same 7 12) (same 12 18) (same 18 23))
  where
    same : ℕ → ℕ → Bool
    same start n = beq (take n (drop start s)) (take n (drop start r))

    differ : Bool → Result Bool
    differ b = ok (if b then false else true)

    cases :
        (a b c d e : Bool)
        → or_else env (differ a) (sleep_between env 160 (pos 200) p) (
            or_else env (differ b) (sleep_between env 120 (pos 160) p) (
              or_else env (differ c) (sleep_between env 80 (pos 120) p) (
                or_else env (differ d) (sleep_between env 40 (pos 80) p) (
                  or_else env
                    (differ e)
                    (sleep_between env 0 (pos 40) p)
                    (ok (record p { delays = p.delays ++ 0 ∷ [] }))))))
          ≡ ok (after_delay env (shared a (shared b (shared c (shared d (shared e 0))))) p)
    cases false b c d e = refl
    cases true false c d e = refl
    cases true true false d e = refl
    cases true true true false e = refl
    cases true true true true false = refl
    cases true true true true true = refl
