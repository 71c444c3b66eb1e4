-- ===== src/Eth/Delay.antt =====
-- The simulated delay of src/peer_manager_eth.cpp.
use fring.Common.{
  ℕ, suc, ◌==◌, ◌≡◌, refl, arith, Bool, true, false, [], ◌∷◌, ◌++◌, length, if◌then◌else◌, take,
  drop, none, some, Result, ok, ◌>>=◌,
}
use fring.Common.Text.{Bytes, beq}
use fring.Peer.State.{Env}
use fring.Peer.Delay.{differ_at-beq, shared, parts, equal_parts, delay_of}
use fring.Eth.State.{
  PeerManagerEth, random_num_in_range, choose, delay_range, sleep_within, simulate_delay,
}

-- One delay is slept, for which one random number is drawn if the ids differ.
abbrev pub after_delay : Env → ℕ → PeerManagerEth → PeerManagerEth
after_delay env m p = record p {
  draws = if m == 5 then p.draws else suc p.draws;
  delays = p.delays ++ delay_of m (env.rand p.draws) ∷ [];
}

pub simulate_delay_eth :
    (env : Env) (p : PeerManagerEth) (s r : Bytes)
    → length s ≡ 32
    → length r ≡ 32
    → simulate_delay env s r p ≡ ok (after_delay env (equal_parts parts s r) p)
unfolding simulate_delay delay_range sleep_within random_num_in_range
simulate_delay_eth env p s r es er =
    rw
      (
        differ_at-beq env s r 0 3 (omega arith) (omega arith),
        differ_at-beq env s r 3 4 (omega (arith, es)) (omega (arith, er)),
        differ_at-beq env s r 7 5 (omega (arith, es)) (omega (arith, er)),
        differ_at-beq env s r 12 6 (omega (arith, es)) (omega (arith, er)),
        differ_at-beq env s r 18 5 (omega (arith, es)) (omega (arith, er)),
      )
      (cases (same 0 3) (same 3 7) (same 7 12) (same 12 18) (same 18 23))
  where
    same : ℕ → ℕ → Bool
    same start n = beq (take n (drop start s)) (take n (drop start r))

    differ : Bool → Result Bool
    differ b = ok (if b then false else true)

    cases :
        (a b c d e : Bool)
        → (choose env (differ a) (ok (some (160, 200))) (
              choose env (differ b) (ok (some (120, 160))) (
                choose env (differ c) (ok (some (80, 120))) (
                  choose env
                    (differ d)
                    (ok (some (40, 80)))
                    (choose env (differ e) (ok (some (0, 40))) (ok none)))))
            >>= λ range. sleep_within env range p)
          ≡ ok (after_delay env (shared a (shared b (shared c (shared d (shared e 0))))) p)
    cases false b c d e = refl
    cases true false c d e = refl
    cases true true false d e = refl
    cases true true true false e = refl
    cases true true true true false = refl
    cases true true true true true = refl
