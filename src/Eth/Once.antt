-- ===== src/Eth/Once.antt =====
-- Several messages of one broadcast in the push mode of src/peer_manager_eth.cpp.
use fring.Common.{
  ℕ, ◌≡◌, refl, arith, inl, inr, true, false, List, [], ◌∷◌, ◌++◌, length, ◌==◌, ok, >>=-eq-ok,
  ok_injective, Bool-cases,
}
use fring.Common.Text.{Bytes, beq_refl}
use fring.Message.{Message}
use fring.Wire.{contains}
use fring.Peer.State.{Env}
use fring.Eth.State.{PeerManagerEth, push, pull}
use fring.Eth.Gossip.{on_push, on_receive, decrement}
use fring.Eth.Keeps.{broadcast-Keeps}
use fring.Peer.Delay.{parts, equal_parts}
use fring.Eth.Delay.{after_delay, simulate_delay_eth}

contains-last : (xs : List Bytes) (x : Bytes) → contains (xs ++ x ∷ []) x ≡ true
unfolding contains
contains-last [] x = rw (beq_refl x) refl
contains-last (y ∷ ys) x = ground (arith, contains-last ys x)

module _ (env : Env) (hash : Bytes → ℕ) where
  on_push_seen :
      (fuel : ℕ) (msg : Message) (payload : Bytes) (p : PeerManagerEth) {p' : PeerManagerEth}
      → on_push env hash fuel msg payload p ≡ ok p'
      → (contains p'.broadcasted_msgs_all_nodes msg.broadcast_id ≡ true)
        × (p'.mode ≡ p.mode)
        × (p'.node ≡ p.node)
  unfolding on_push
  on_push_seen fuel msg payload p e =
      elim (Bool-cases (contains p.broadcasted_msgs_all_nodes msg.broadcast_id)) [
        | inl old ↦ (rw (← ok_injective (rw old at e)) (old, refl, refl))
        | inr new ↦
            (let (ttl, _, done) = >>=-eq-ok (decrement msg.ttl) _ (rw new at e) in
              let k = broadcast-Keeps env hash fuel payload ttl msg.broadcast_id _ done in
              (
                rw k.seen (contains-last p.broadcasted_msgs_all_nodes msg.broadcast_id),
                k.mode,
                k.node,
              ))
      ]

  -- In the push mode a broadcast is passed on once: after a node has handled a message, any other
  -- message of that broadcast, from whatever node and with whatever payload it comes, only makes the
  -- node sleep one delay, the one that the two ids call for; but for the delay and the random number
  -- drawn for it the state stays as it was. The ids of the nodes have 32 bytes.
  pub on_receive_once :
      (fuel fuel' : ℕ) (msg msg' : Message) (payload payload' ip ip' : Bytes) (port port' : ℕ)
      (p p' : PeerManagerEth)
      → p.mode ≡ push
      → length p.node.id ≡ 32
      → length msg.sender_id ≡ 32
      → length msg'.sender_id ≡ 32
      → msg'.broadcast_id ≡ msg.broadcast_id
      → on_receive env hash fuel msg payload ip port p ≡ ok p'
      → on_receive env hash fuel' msg' payload' ip' port' p'
        ≡ ok (after_delay env (equal_parts parts msg'.sender_id p'.node.id) p')
  unfolding on_receive
  on_receive_once fuel fuel' msg msg' payload payload' ip ip' port port' p p' mode own sender
        sender' same first =
      let pushing : (p.mode == pull) ≡ false = rw mode refl in
      let q = after_delay env (equal_parts parts msg.sender_id p.node.id) p in
      let (old, mode', node') =
        on_push_seen fuel msg payload q
          (rw (simulate_delay_eth env p msg.sender_id p.node.id sender own, pushing) at first) in
      let own' : length p'.node.id ≡ 32 = rw node' own in
      let pushing' : (p'.mode == pull) ≡ false = rw mode' pushing in
      let old' : contains p'.broadcasted_msgs_all_nodes msg'.broadcast_id ≡ true = rw same old in
      rw (simulate_delay_eth env p' msg'.sender_id p'.node.id sender' own', pushing')
        (unfold on_push in rw old' refl)
