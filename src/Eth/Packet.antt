-- ===== src/Eth/Packet.antt =====
-- The packet of src/peer_manager_eth.cpp: the text that `PeerManagerETH::send` makes,
--   sender_id,receiver_id,broadcast_id,message_id,type,ttl,data
-- and the parser at the head of `PeerManagerETH::receive`.
use fring.Common.{◌++◌, ◌∷◌, Result, ok, ◌>>=◌, ℤ}
use fring.Common.Text.{Bytes, substr_from, npos, add_size}
use fring.Decimal.{to_string, stoi}
use fring.Message.{Message, make_message_eth, set_type, set_ttl}
use fring.Wire.{next_field}

unfoldable pub data_string : Bytes → Bytes → Message → Bytes → Bytes → Bytes
data_string self_id receiver_id msg message_id payload =
    self_id
    ++ b','
      ∷ (receiver_id
          ++ b','
            ∷ (msg.broadcast_id
                ++ b','
                  ∷ (message_id
                      ++ b','
                        ∷ (to_string msg.type ++ b',' ∷ (to_string msg.ttl ++ b',' ∷ payload)))))

-- what is cut out of a packet, before the time to live is read as a number
pub record Packet : Type 0 where
  pub sender_id : Bytes
  pub receiver_id : Bytes
  pub broadcast_id : Bytes
  pub message_id : Bytes
  pub type : ℤ
  pub ttl : Bytes
  pub payload : Bytes

unfoldable pub parse_packet : Bytes → Result Packet
parse_packet s = do
  (sender_id, end1) ← next_field s npos
  (receiver_id, end2) ← next_field s end1
  (broadcast_id, end3) ← next_field s end2
  (message_id, end4) ← next_field s end3
  (type_text, end5) ← next_field s end4
  type ← stoi type_text
  (ttl, end6) ← next_field s end5
  payload ← substr_from s (add_size end6 1)
  ok (record {
    sender_id = sender_id;
    receiver_id = receiver_id;
    broadcast_id = broadcast_id;
    message_id = message_id;
    type = type;
    ttl = ttl;
    payload = payload;
  })

-- the message of a packet
unfoldable pub message_of : Packet → Result Message
message_of k = do
  ttl ← stoi k.ttl
  ok (
      set_type
        (set_ttl (make_message_eth k.broadcast_id k.message_id k.sender_id k.receiver_id) ttl)
        k.type)
