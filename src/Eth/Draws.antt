-- ===== src/Eth/Draws.antt =====
-- The loop of `broadcast` in src/peer_manager_eth.cpp that draws the other receivers' places.
use native.Mathlib.Nat.{mod-lt}
use fring.Common.{
  ℕ, zero, suc, ◌+◌, ◌%◌, ◌<◌, ◌≡◌, ◌≢◌, inl, inr, refl, sym, ◌∙◌, ap, arith, true, false, List, [],
  ◌∷◌, ◌==◌, ==_iff, length, ok, pos, Bool-cases,
}
use fring.Common.Text.{Bytes}
use fring.Params.{table_size_eth}
use fring.Peer.State.{Env}
use fring.Eth.State.{PeerManagerEth, random_num_in_range}
use fring.Eth.Gossip.{has_number, draw_ids}

-- the place that the draw after the next `j` draws gives
abbrev pub place_at : Env → PeerManagerEth → ℕ → ℕ
place_at env p j = env.rand (p.draws + j) % 13

-- Places of the routing table, each other than those seen and those before it.
abbrev pub AreFresh : List ℕ → List ℕ → Type 0
AreFresh seen [] = Unit
AreFresh seen (i ∷ is) = (i < table_size_eth) × (has_number i seen ≡ false) × AreFresh (i ∷ seen) is

beside :
    (a b : ℕ) (seen : List ℕ) → a ≢ b → has_number b seen ≡ false → has_number b (a ∷ seen) ≡ false
beside a b seen ne new = ground (arith, ne)

module _ (env : Env) (hash : Bytes → ℕ) where
  -- the loop returns this many fresh places
  abbrev Draws : ℕ → ℕ → List ℕ → PeerManagerEth → Type 0
  Draws fuel wanted seen p =
      (ids : List ℕ) × (p' : PeerManagerEth) × (draw_ids env hash fuel wanted seen p ≡ ok (ids, p'))
      × (length ids ≡ wanted)
      × AreFresh seen ids

  abbrev pub after_draw : PeerManagerEth → PeerManagerEth
  after_draw p = record p { draws = suc p.draws }

  shift : (p : PeerManagerEth) (j : ℕ) → place_at env p (suc j) ≡ place_at env (after_draw p) j
  shift p j = ap (λ n. env.rand n % 13) {x = p.draws + suc j} {y = suc p.draws + j} (omega arith)

  pub draw :
      (p : PeerManagerEth)
      → random_num_in_range env 0 (pos 12) p ≡ ok (place_at env p 0, after_draw p)
  unfolding random_num_in_range
  draw p =
      ap (λ n. ok (n, after_draw p)) {x = env.rand p.draws % 13 + 0} {y = place_at env p 0}
        (omega (arith, ap (λ n. env.rand n % 13) {x = p.draws + 0} {y = p.draws} (omega arith)))

  -- a place drawn before: the round does not count
  draw_again :
      (fuel wanted : ℕ) (seen : List ℕ) (p : PeerManagerEth)
      → has_number (place_at env p 0) seen ≡ true
      → Draws fuel (suc wanted) seen (after_draw p)
      → Draws (suc fuel) (suc wanted) seen p
  unfolding draw_ids
  draw_again fuel wanted seen p old (ids, p', e, n, fresh) = (ids, p', rw (draw p, old) e, n, fresh)

  -- a fresh place
  draw_next :
      (fuel wanted : ℕ) (seen : List ℕ) (p : PeerManagerEth)
      → has_number (place_at env p 0) seen ≡ false
      → Draws fuel wanted (place_at env p 0 ∷ seen) (after_draw p)
      → Draws (suc fuel) (suc wanted) seen p
  unfolding draw_ids
  draw_next fuel wanted seen p new (ids, p', e, n, fresh) = (
    place_at env p 0 ∷ ids,
    p',
    rw (draw p, new, e) refl,
    ap suc n,
    (mod-lt (env.rand (p.draws + 0)) {m = 13} (omega arith), new, fresh),
  )

  draw_one :
      (fuel j : ℕ) (seen : List ℕ) (p : PeerManagerEth)
      → j < fuel
      → has_number (place_at env p j) seen ≡ false
      → Draws fuel 1 seen p
  draw_one zero j seen p h new = absurd (omega arith)
  draw_one (suc fuel) zero seen p h new =
      draw_next fuel 0 seen p new ([], after_draw p, (unfold draw_ids in refl), refl, tt)
  draw_one (suc fuel) (suc j) seen p h new =
      elim (Bool-cases (has_number (place_at env p 0) seen)) [
        | inl old ↦
            draw_again fuel 0 seen p old
              (draw_one fuel j seen (after_draw p) (omega arith) (rw (shift p j) at new))
        | inr fresh ↦
            draw_next fuel 0 seen p fresh ([], after_draw p, (unfold draw_ids in refl), refl, tt)
      ]

  draw_other :
      (fuel j : ℕ) (seen : List ℕ) (p : PeerManagerEth)
      → j < fuel
      → place_at env p 0 ≢ place_at env p (suc j)
      → has_number (place_at env p (suc j)) seen ≡ false
      → Draws fuel 1 (place_at env p 0 ∷ seen) (after_draw p)
  draw_other fuel j seen p h ne new =
      draw_one fuel j (place_at env p 0 ∷ seen) (after_draw p) h
        (beside (place_at env p 0) _ seen (λ e. ne (e ∙ sym (shift p j))) (rw (shift p j) at new))

  -- Drawing two places among those not seen ends, if among the next draws as many as the loop has rounds
  -- two give places that were not seen and differ; the result is two such places of the table.
  pub draw_ids_two :
      (fuel i j : ℕ) (seen : List ℕ) (p : PeerManagerEth)
      → i < j
      → j < fuel
      → has_number (place_at env p i) seen ≡ false
      → has_number (place_at env p j) seen ≡ false
      → place_at env p i ≢ place_at env p j
      → (ids : List ℕ) × (p' : PeerManagerEth) × (draw_ids env hash fuel 2 seen p ≡ ok (ids, p'))
        × (length ids ≡ 2)
        × AreFresh seen ids
  draw_ids_two zero i j seen p h k new_i new_j ne = absurd (omega arith)
  draw_ids_two (suc fuel) i zero seen p h k new_i new_j ne = absurd (omega arith)
  draw_ids_two (suc fuel) zero (suc j) seen p h k new_i new_j ne =
      draw_next fuel 1 seen p new_i (draw_other fuel j seen p (omega arith) ne new_j)
  draw_ids_two (suc fuel) (suc i) (suc j) seen p h k new_i new_j ne =
      elim (Bool-cases (has_number (place_at env p 0) seen)) [
        | inl old ↦ draw_again fuel 1 seen p old (
            draw_ids_two fuel i j seen (after_draw p) (omega arith) (omega arith)
              (rw (shift p i) at new_i) (rw (shift p j) at new_j)
              (λ e. ne (shift p i ∙ (e ∙ sym (shift p j)))))
        | inr fresh ↦
            draw_next fuel 1 seen p fresh
              (elim (Bool-cases (place_at env p 0 == place_at env p (suc i))) [
                | inl same ↦
                    draw_other fuel j seen p (omega arith) (λ e. ne (sym ((==_iff _ _).0 same) ∙ e))
                      new_j
                | inr other ↦
                    draw_other fuel i seen p (omega arith) (λ e. ground (arith, e, other)) new_i
              ])
      ]
