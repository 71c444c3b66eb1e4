-- ===== src/Eth/RoundTrip.antt =====
-- What `PeerManagerETH::receive` parses from what `PeerManagerETH::send` prints.
use fring.Common.{
  ℕ, ◌≤◌, ◌<◌, ◌≡◌, refl, ap, arith, ◌∷◌, [], length, length-drop, take-all, drop, ok, le→ltb, pos,
  true,
}
use fring.Common.Text.{Bytes, Lacks, npos, substr, substr_from, beq}
use fring.Decimal.{to_string}
use fring.Decimal.RoundTrip.{IsInt, stoi-to_string, to_string-Lacks}
use fring.Message.{Message}
use fring.Wire.Fields.{next_field_lem}
use fring.Peer.State.{Env}
use fring.Eth.State.{PeerManagerEth, push}
use fring.Eth.Packet.{data_string, parse_packet}
use fring.Eth.Gossip.{receive}

-- What `send` is given, in the form that the packet can carry.
pub record IsClean (self_id receiver_id : Bytes) (msg : Message) (message_id payload : Bytes)
    : Type 0 where
  pub self : Lacks b',' self_id
  pub receiver : Lacks b',' receiver_id
  pub broadcast : Lacks b',' msg.broadcast_id
  pub message : Lacks b',' message_id
  pub type : IsInt msg.type
  pub sized : length (data_string self_id receiver_id msg message_id payload) < npos

-- The packet that `send` prints is cut by `receive` into what was sent, with no exception: the ids, the
-- type, the text of the time to live, and the payload byte for byte. The ids have no comma, the type is
-- an `int`, and the payload is any.
pub parse_packet-data_string_eth :
    (self_id receiver_id : Bytes) (msg : Message) (message_id payload : Bytes)
    → IsClean self_id receiver_id msg message_id payload
    → parse_packet (data_string self_id receiver_id msg message_id payload)
      ≡ ok (record {
        sender_id = self_id;
        receiver_id = receiver_id;
        broadcast_id = msg.broadcast_id;
        message_id = message_id;
        type = msg.type;
        ttl = to_string msg.ttl;
        payload = payload;
      })
unfolding parse_packet data_string
parse_packet-data_string_eth self_id receiver_id msg message_id payload w =
    let packet = data_string self_id receiver_id msg message_id payload in
    let (n1, a1, i1, d1) =
      next_field_lem packet self_id _ npos 0 refl w.sized (omega arith) refl w.self in
    let (n2, a2, i2, d2) = next_field_lem packet receiver_id _ _ _ a1 w.sized i1 d1 w.receiver in
    let (n3, a3, i3, d3) =
      next_field_lem packet msg.broadcast_id _ _ _ a2 w.sized i2 d2 w.broadcast in
    let (n4, a4, i4, d4) = next_field_lem packet message_id _ _ _ a3 w.sized i3 d3 w.message in
    let (n5, a5, i5, d5) =
      next_field_lem packet (to_string msg.type) _ _ _ a4 w.sized i4 d4
        (to_string-Lacks msg.type) in
    let (n6, a6, i6, d6) =
      next_field_lem packet (to_string msg.ttl) _ _ _ a5 w.sized i5 d5 (to_string-Lacks msg.ttl) in
    rw
      (
        n1,
        n2,
        n3,
        n4,
        n5,
        stoi-to_string msg.type w.type,
        n6,
        a6,
        cut_payload packet _ i6 d6 w.sized,
      )
      refl
  where
    cut_payload :
        (s : Bytes) (p : ℕ)
        → p ≤ length s
        → drop p s ≡ payload
        → length s < npos
        → substr_from s p ≡ ok payload
    cut_payload s p h d n =
        unfold substr in
        rw (le→ltb _ _ h, d)
          (rw (take-all npos payload (omega (arith, n, length-drop p s, ap length d))) refl)

-- In the push mode a packet that was sent with the time to live 0 ends at its receiver: nothing of
-- the receiver's state changes, and nothing is sent.
receive-data_string_expired :
    (env : Env) (hash : Bytes → ℕ) (fuel : ℕ) (ip : Bytes) (port : ℕ) (p : PeerManagerEth)
    (self_id receiver_id : Bytes) (msg : Message) (message_id payload : Bytes)
    → IsClean self_id receiver_id msg message_id payload
    → msg.ttl ≡ pos 0
    → p.mode ≡ push
    → receive env hash fuel ip port (data_string self_id receiver_id msg message_id payload) p
      ≡ ok p
unfolding receive
receive-data_string_expired env hash fuel ip port p self_id receiver_id msg message_id payload w e
      m =
    let zero_text : beq (to_string (pos 0)) (b'0' ∷ []) ≡ true = unfold beq to_string in refl in
    rw (parse_packet-data_string_eth self_id receiver_id msg message_id payload w, e, m, zero_text)
      refl
