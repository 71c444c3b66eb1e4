-- ===== src/Eth/Keeps.antt =====
-- What the sending operations of src/peer_manager_eth.cpp leave alone: the mode, the node and the broadcasts seen.
use fring.Common.{
  ℕ, zero, suc, ◌%◌, ◌≡◌, refl, ◌∙◌, ap, inl, inr, List, [], ◌∷◌, ◌++◌, if◌then◌else◌, ◌==◌, ℤ,
  Result, ok, >>=-eq-ok, ok_injective, Bool-cases, ltb,
}
use fring.Common.Text.{Bytes}
use fring.Node.{Node}
use fring.NodeTableEth.{get_peer_set}
use fring.Message.{Message, to_csv_string}
use fring.Peer.State.{Env}
use fring.Eth.State.{PeerManagerEth, push, append_message_record, log_sent}
use fring.Eth.Gossip.{
  draw_ids, nodes_at, send, send_typed, send_inv, send_each, broadcast_to, broadcast, has_number,
}
use fring.Eth.Draws.{place_at, after_draw, draw}

-- What a call leaves alone.
pub record Keeps (p p' : PeerManagerEth) : Type 0 where
  pub mode : p'.mode ≡ p.mode
  pub node : p'.node ≡ p.node
  pub seen : p'.broadcasted_msgs_all_nodes ≡ p.broadcasted_msgs_all_nodes

Keeps-refl : (p : PeerManagerEth) → Keeps p p
Keeps-refl p = record { mode = refl; node = refl; seen = refl }

Keeps-trans : {p q r : PeerManagerEth} → Keeps p q → Keeps q r → Keeps p r
Keeps-trans k l = record { mode = l.mode ∙ k.mode; node = l.node ∙ k.node; seen = l.seen ∙ k.seen }

Keeps-eq :
    {p q r : PeerManagerEth} → ◌≡◌ {A = Result PeerManagerEth} (ok q) (ok r) → Keeps p q → Keeps p r
Keeps-eq e k = rw (← ok_injective e) k

module _ (env : Env) (hash : Bytes → ℕ) where
  append_message_record-Keeps :
      (msg : Message) (p : PeerManagerEth) {p' : PeerManagerEth}
      → append_message_record env msg p ≡ ok p'
      → Keeps p p'
  unfolding append_message_record
  append_message_record-Keeps msg p e = elim (Bool-cases (env.log_opens p.ticks)) [
    | inl opens ↦
        (let (line, _, done) = >>=-eq-ok (to_csv_string msg) _ (rw opens at e) in
          Keeps-eq done (record { mode = refl; node = refl; seen = refl }))
    | inr closed ↦ Keeps-eq (rw closed at e) (Keeps-refl p)
  ]

  log_sent-Keeps :
      (msg : Message) (p : PeerManagerEth) {p' : PeerManagerEth}
      → log_sent env msg p ≡ ok p'
      → Keeps p p'
  unfolding log_sent
  log_sent-Keeps msg p e =
      let k = append_message_record-Keeps _ _ e in
      record { mode = k.mode; node = k.node; seen = k.seen }

  send-Keeps :
      (node : Node) (msg : Message) (payload : Bytes) (p : PeerManagerEth) {p' : PeerManagerEth}
      → send env hash node msg payload p ≡ ok p'
      → Keeps p p'
  unfolding send
  send-Keeps node msg payload p e =
      let (q, logged, done) = >>=-eq-ok (log_sent env _ p) _ e in
      let k = log_sent-Keeps _ p logged in
      Keeps-eq done (record { mode = k.mode; node = k.node; seen = k.seen })

  send_each-Keeps :
      (msg : Message) (payload broadcast_id : Bytes) (receivers : List Node) (p : PeerManagerEth)
      {p' : PeerManagerEth}
      → send_each env hash msg payload broadcast_id receivers p ≡ ok p'
      → Keeps p p'
  unfolding send_each send_inv send_typed
  send_each-Keeps msg payload broadcast_id [] p e = Keeps-eq e (Keeps-refl p)
  send_each-Keeps msg payload broadcast_id (receiver ∷ receivers) p {p'} e =
      elim (Bool-cases (p.mode == push)) [
        | inl pushed ↦
            (let (q, one, rest) =
                >>=-eq-ok (send env hash receiver _ payload p) _ (rw pushed at e) in
              Keeps-trans (send-Keeps receiver _ payload p one)
                (send_each-Keeps msg payload broadcast_id receivers q rest))
        | inr pulled ↦
            (let (q, one, rest) = >>=-eq-ok (send env hash receiver _ _ p) _ (rw pulled at e) in
              Keeps-trans (send-Keeps receiver _ _ p one)
                (send_each-Keeps msg payload broadcast_id receivers q rest))
      ]

  draw_ids-Keeps :
      (fuel wanted : ℕ) (seen : List ℕ) (p : PeerManagerEth) {r : List ℕ × PeerManagerEth}
      → draw_ids env hash fuel wanted seen p ≡ ok r
      → Keeps p r.1
  unfolding draw_ids
  draw_ids-Keeps fuel zero seen p e = rw (← ap (λ x. x.1) (ok_injective e)) (Keeps-refl p)
  draw_ids-Keeps zero (suc wanted) seen p e = absurd (cc)
  draw_ids-Keeps (suc fuel) (suc wanted) seen p {r} e =
      elim (Bool-cases (has_number (place_at env p 0) seen)) [
        | inl old ↦ moved r (
            draw_ids-Keeps fuel (suc wanted) seen (after_draw env hash p)
              (rw (draw env hash p, old) at e))
        | inr new ↦
            (let ((ids, q), again, done) =
                >>=-eq-ok
                  (draw_ids env hash fuel wanted (place_at env p 0 ∷ seen) (after_draw env hash p))
                  _ (rw (draw env hash p, new) at e) in
              rw (← ap (λ x. x.1) (ok_injective done))
                (moved (ids, q) (draw_ids-Keeps fuel wanted _ (after_draw env hash p) again)))
      ]
    where
      moved : (r : List ℕ × PeerManagerEth) → Keeps (after_draw env hash p) r.1 → Keeps p r.1
      moved r k = record { mode = k.mode; node = k.node; seen = k.seen }

  broadcast_to-Keeps :
      (fuel : ℕ) (payload : Bytes) (ttl : ℤ) (broadcast_id : Bytes) (p : PeerManagerEth)
      {p' : PeerManagerEth}
      → broadcast_to env hash fuel payload ttl broadcast_id p ≡ ok p'
      → Keeps p p'
  unfolding broadcast_to
  broadcast_to-Keeps fuel payload ttl broadcast_id p e =
      let (table, _, e1) = >>=-eq-ok (get_peer_set p.node_table) _ e in
      let (first, _, e2) =
        >>=-eq-ok
          (nodes_at env hash table (if ltb (env.rand p.draws % 1000) 990 then 0 ∷ [] else [])) _
          e1 in
      let ((ids, q), drawn, e3) =
        >>=-eq-ok (draw_ids env hash fuel 2 (0 ∷ []) (after_draw env hash p)) _ e2 in
      let (others, _, sending) = >>=-eq-ok (nodes_at env hash table ids) _ e3 in
      let k = draw_ids-Keeps fuel 2 (0 ∷ []) (after_draw env hash p) drawn in
      Keeps-trans (record { mode = k.mode; node = k.node; seen = k.seen })
        (send_each-Keeps _ payload broadcast_id (first ++ others) q sending)

  pub broadcast-Keeps :
      (fuel : ℕ) (payload : Bytes) (ttl : ℤ) (broadcast_id : Bytes) (p : PeerManagerEth)
      {p' : PeerManagerEth}
      → broadcast env hash fuel payload ttl broadcast_id p ≡ ok p'
      → Keeps p p'
  unfolding broadcast
  broadcast-Keeps fuel payload ttl [] p e =
      let k = broadcast_to-Keeps fuel payload ttl _ _ e in
      record { mode = k.mode; node = k.node; seen = k.seen }
  broadcast-Keeps fuel payload ttl (c ∷ broadcast_id) p e =
      broadcast_to-Keeps fuel payload ttl (c ∷ broadcast_id) p e
