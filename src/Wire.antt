-- ===== src/Wire.antt =====
-- The packet of src/peer_manager.cpp: the text that `PeerManager::send` makes,
--   sender_id,receiver_id,broadcast_id,message_id,type,from_level,node_order,sent_ids|data
-- and the parser at the head of `PeerManager::receive`.
pub mod Fields
pub mod SentIds
pub mod RoundTrip
mod Tests
use fring.Common.{
  ℕ, zero, suc, ◌+◌, ◌-◌, ◌<◌, Bool, true, false, List, [], ◌∷◌, ◌++◌, ◌==◌, if◌then◌else◌, ltb,
  length, take, drop, ℤ, pos, negsuc, Result, ok, err, out_of_fuel, ◌>>=◌,
}
use fring.Common.Text.{
  Bytes, beq, find, substr, substr_from, erase_front, npos, size_mod, add_size, sub_size,
}
use fring.Decimal.{to_decimal, to_string, stoi}
use fring.Message.{Message, make_message, set_node_order}

-- `unordered_set<string>`: the list is its iteration order.
abbrev pub IdSet : Type 0
IdSet = List Bytes

unfoldable pub contains : IdSet → Bytes → Bool
contains [] id = false
contains (x ∷ s) id = if beq x id then true else contains s id

unfoldable pub set_insert : Bytes → IdSet → IdSet
unfolding contains
set_insert id s = if contains s id then s else id ∷ s

-- `for (auto sent_id : sent_ids) sent_ids_string += sent_id + ","`
append_ids : Bytes → IdSet → Bytes
append_ids out [] = out
append_ids out (id ∷ ids) = append_ids (out ++ (id ++ b',' ∷ [])) ids

-- The loop, and the last comma erased.
unfoldable pub sent_ids_string : IdSet → Bytes
unfolding append_ids
sent_ids_string ids =
    let s = append_ids [] ids in if ltb 0 (length s) then take (length s - 1) s else s

-- the text that `send` hands to the transport
unfoldable pub data_string : Bytes → Bytes → Message → Bytes → IdSet → Bytes → Bytes
unfolding sent_ids_string
data_string self_id receiver_id msg message_id ids payload =
    self_id
    ++ b','
      ∷ (receiver_id
          ++ b','
            ∷ (msg.broadcast_id
                ++ b','
                  ∷ (message_id
                      ++ b','
                        ∷ (to_string msg.type
                            ++ b','
                              ∷ (to_decimal msg.from_level
                                  ++ b','
                                    ∷ (to_string msg.node_order
                                        ++ b',' ∷ (sent_ids_string ids ++ b'|' ∷ payload)))))))

-- `pos_start = pos_end + 1; pos_end = data.find(",", pos_end+1); data.substr(…)`, with the new
-- `pos_end`. Before the first field `pos_end` is `npos`, and `npos + 1` is 0.
unfoldable pub next_field : Bytes → ℕ → Result (Bytes × ℕ)
next_field s pos_end =
    let pos_start = add_size pos_end 1 in
    let end = find b',' s pos_start in
    substr s pos_start (sub_size end pos_start) >>= λ field. ok (field, end)

-- the loop over the commas of the sent ids: `pos_start` behind the last comma, and the ids
unfoldable pub split_ids : ℕ → Bytes → ℕ → IdSet → Result (ℕ × IdSet)
unfolding set_insert
split_ids zero s pos_start ids = err out_of_fuel
split_ids (suc fuel) s pos_start ids =
    let pos_end = find b',' s pos_start in
    let more = substr s pos_start (sub_size pos_end pos_start) >>= λ id.
    split_ids fuel s (add_size pos_end 1) (set_insert id ids) in
    if pos_end == npos then ok (pos_start, ids) else more

-- the last id, unless it is empty, or `pos_start` is `size() - 1`
unfoldable pub last_id : Bytes → ℕ → IdSet → Result IdSet
unfolding set_insert
last_id s pos_start ids = if pos_start == sub_size (length s) 1 then ok ids else do
  id ← substr s pos_start (sub_size (length s) pos_start)
  ok (if length id == 0 then ids else set_insert id ids)

-- Each round of the loop passes a comma, so one more round than bytes is enough.
unfoldable pub parse_ids : Bytes → Result IdSet
unfolding split_ids last_id
parse_ids s = do (pos_start, ids) ← split_ids (suc (length s)) s 0 []; last_id s pos_start ids

pub record Packet : Type 0 where
  pub message : Message
  pub payload : Bytes
  pub sent_ids : IdSet

-- an `int` stored in an `unsigned long`
unfoldable pub to_ulong : ℤ → ℕ
to_ulong (pos n) = n
to_ulong (negsuc n) = size_mod - suc n

-- `data_in_msg`, split at the first `|`
unfoldable pub parse_body : Bytes → Result (Bytes × IdSet)
unfolding parse_ids
parse_body data_in_msg = do
  let pos_end = find b'|' data_in_msg 0
  ids_string ← substr data_in_msg 0 pos_end
  ids ← parse_ids ids_string
  ok (erase_front data_in_msg (add_size pos_end 1), ids)

unfoldable pub parse_packet : Bytes → Result Packet
unfolding next_field parse_body to_ulong
parse_packet s = do
  (sender_id, end1) ← next_field s npos
  (receiver_id, end2) ← next_field s end1
  (broadcast_id, end3) ← next_field s end2
  (message_id, end4) ← next_field s end3
  (type_text, end5) ← next_field s end4
  type ← stoi type_text
  (level_text, end6) ← next_field s end5
  from_level ← stoi level_text
  (order_text, end7) ← next_field s end6
  node_order ← stoi order_text
  data_in_msg ← substr_from s (add_size end7 1)
  (payload, ids) ← parse_body data_in_msg
  ok (record {
    message =
        set_node_order
          (make_message broadcast_id message_id type (to_ulong from_level) sender_id receiver_id)
          node_order;
    payload = payload;
    sent_ids = ids;
  })
