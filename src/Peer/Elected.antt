-- ===== src/Peer/Elected.antt =====
-- What becomes of an election: whether it ends, and what its messages carry.
use mathlib.Core.Path.{fun_ext}
use native.Mathlib.Nat.{mod-lt}
use fring.Common.{
  ℕ, zero, suc, ◌+◌, ◌%◌, ◌≤◌, ◌≡◌, inl, inr, refl, ap, arith, false, List, [], ◌∷◌, if◌then◌else◌,
  ℤ, pos, Result, ok, err, out_of_fuel, ◌>>=◌, Bool-cases,
}
use fring.Common.Text.{Bytes}
use fring.NodeTable.{get_peer_list_size, get_node_id_in_vector}
use fring.Message.{Message, set_type}
use fring.Wire.{IdSet, set_insert}
use fring.Peer.State.{Env, PeerManager, drawn}
use fring.Peer.Ring.{
  Deliver, Target, send_targets, broadcast_within_ring, region_of, collect_regions, insert_each,
  ring_targets, ring_fuel,
}
use fring.Peer.Election.{has_id, rand_mod, elect, contact_node_election}

-- how many of the places 0 and 1 were drawn
abbrev seen_below_two : List ℕ → ℕ
seen_below_two ids = (if has_id 0 ids then 1 else 0) + (if has_id 1 ids then 1 else 0)

module _ (env : Env) where
  rand_mod-lt :
      (n : ℕ) (p : PeerManager)
      → (id : ℕ) × (rand_mod env (pos (suc n)) p ≡ ok (id, drawn env p)) × (id ≤ n)
  unfolding rand_mod
  rand_mod-lt n p = (
    env.rand p.draws % suc n,
    refl,
    omega (arith, mod-lt (env.rand p.draws) {m = suc n} (omega arith)),
  )

  elect_never :
      (fuel wanted n : ℕ) (ids : List ℕ) (p : PeerManager)
      → n ≤ 1
      → suc wanted + seen_below_two ids ≡ 3
      → elect env fuel (suc wanted) ids (pos (suc n)) p ≡ err out_of_fuel
  unfolding elect
  elect_never zero wanted n ids p h e = refl
  elect_never (suc fuel) wanted n ids p h e =
      let (id, drew, small) = rand_mod-lt n p in
      elim (Bool-cases (has_id id ids)) [
        | inl old ↦ rw (drew, old) (elect_never fuel wanted n ids (drawn env p) h e)
        | inr new ↦
            rw (drew, new)
              (next wanted id (omega (arith, small, h)) new e
                (λ w is f. elect_never fuel w n is (drawn env p) h f))
      ]
    where
      next :
          (wanted id : ℕ)
          → id ≤ 1
          → has_id id ids ≡ false
          → suc wanted + seen_below_two ids ≡ 3
          → ((w : ℕ) (is : List ℕ)
              → suc w + seen_below_two is ≡ 3
              → elect env fuel (suc w) is (pos (suc n)) (drawn env p) ≡ err out_of_fuel)
          → elect env fuel wanted (id ∷ ids) (pos (suc n)) (drawn env p) ≡ err out_of_fuel
      next zero id small new e ih = absurd (ground (arith, new, e))
      next (suc wanted) id small new e ih = ih wanted (id ∷ ids) (ground (arith, new, e))

-- In a ring of two or three peers the election never ends: the loop wants three places and draws
-- them below the number of peers less one.
pub contact_node_election_never :
    (env : Env) (deliver : Deliver) (fuel level n : ℕ) (p : PeerManager)
    → get_peer_list_size p.node_table level ≡ ok (pos (suc n))
    → n ≤ 1
    → contact_node_election env deliver fuel level p ≡ err out_of_fuel
unfolding contact_node_election
contact_node_election_never env deliver fuel level n p e h =
    rw (e, elect_never env fuel 2 n [] p h refl) refl

send_targets-set_type :
    (env : Env) (deliver : Deliver) (msg : Message) (type : ℤ) (level : ℕ) (payload : Bytes)
    (regions : IdSet) (ts : List Target) (p : PeerManager)
    → send_targets env deliver (set_type msg type) level payload regions ts p
      ≡ send_targets env deliver msg level payload regions ts p
unfolding send_targets
send_targets-set_type env deliver msg type level payload regions [] p = refl
send_targets-set_type env deliver msg type level payload regions (t ∷ ts) p =
    simp (send_targets-set_type env deliver msg type level payload regions ts)

-- A `broadcast_within_ring` forgets the type of its message: whatever type it comes with, the same is
-- sent, for the type is set anew for each receiver.
pub broadcast_within_ring-set_type :
    (env : Env) (deliver : Deliver) (msg : Message) (type : ℤ) (level k : ℕ) (payload : Bytes)
    (ids : IdSet) (p : PeerManager)
    → broadcast_within_ring env deliver (set_type msg type) level k payload ids p
      ≡ broadcast_within_ring env deliver msg level k payload ids p
unfolding broadcast_within_ring
broadcast_within_ring-set_type env deliver msg type level k payload ids p = ap broadcast_with (
    fun_ext (λ regions.
      fun_ext (λ ts. send_targets-set_type env deliver msg type level payload regions ts p)))
  where
    broadcast_with : (IdSet → List Target → Result PeerManager) → Result PeerManager
    broadcast_with rest = do
      end_id ← get_peer_list_size p.node_table level
      node_id ← get_node_id_in_vector p.node_table level p.node.id
      this_id ← region_of level p.node.id
      targets ← ring_targets ring_fuel k 0 msg.node_order node_id end_id
      regions ← collect_regions p level targets (set_insert this_id (insert_each ids []))
      rest regions targets
