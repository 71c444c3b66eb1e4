-- ===== src/Peer/Ring.antt =====
-- `PeerManager::send` and `PeerManager::broadcast_within_ring`.
-- A message to the node itself is not sent but handled on the spot: `deliver` is the call of
-- `on_receive` for it.
use fring.Common.{
  ℕ, zero, suc, ◌+◌, ◌^◌, List, [], ◌∷◌, ◌++◌, if◌then◌else◌, Option, none, some, get_elem?,
  replicate, ℤ, pos, ◌+ℤ◌, ◌-ℤ◌, leb_ℤ, ltb_ℤ, ◌==◌, Result, ok, err, out_of_fuel, undefined,
  or_fail, ◌>>=◌, to_int,
}
use fring.Common.Text.{Bytes, beq, substr}
use fring.Node.{Node}
use fring.NodeTable.{get_peer_list_size, get_node_id_in_vector, get_peer_by_order}
use fring.Message.{Message, set_receiver_id, set_message_id, set_node_order, set_type}
use fring.Params.{
  id_single_start, id_single_len, id_district_start, id_district_len, id_city_start, id_city_len,
  id_state_start, id_state_len, id_country_start, id_country_len, id_continent_start,
  id_continent_len,
}
use fring.Wire.{IdSet, set_insert, data_string}
use fring.Peer.State.{Env, PeerManager, next_message_id, log_sent}

abbrev pub Deliver : Type 0
Deliver = Message → Bytes → IdSet → PeerManager → Result PeerManager

abbrev pub level_to_id_start : List ℕ
level_to_id_start =
    id_single_start ∷ id_district_start ∷ id_city_start ∷ id_state_start ∷ id_country_start
    ∷ id_continent_start ∷ []

abbrev pub level_to_id_length : List ℕ
level_to_id_length =
    id_single_len ∷ id_district_len ∷ id_city_len ∷ id_state_len ∷ id_country_len ∷ id_continent_len
    ∷ []

-- the part of an id that belongs to a level; past the end of the arrays it is undefined
unfoldable pub region_of : ℕ → Bytes → Result Bytes
region_of level id = do
  start ← or_fail (get_elem? level_to_id_start level) undefined
  len ← or_fail (get_elem? level_to_id_length level) undefined
  substr id start len

-- a pointer that must not be null
abbrev pub not_null : Option Node → Result Node
not_null none = err undefined
not_null (some node) = ok node

-- A step of the two `while` loops: the order that the receiver gets, and its place in the vector.
pub record Target : Type 0 where
  pub current_id : ℤ
  pub target : ℤ

-- `node_id_in_vector + pow(k, i)`, a `double` that becomes an `int`, and round the end of the vector
abbrev pub wrap_target : ℤ → ℤ → Result ℤ
wrap_target sum end_id = do
  t ← to_int sum
  if ltb_ℤ end_id t then (to_int (end_id +ℤ pos 1) >>= λ size. to_int (t -ℤ size)) else ok t

-- The steps that the loops go through, from `i` on: both have these tests, and their bodies change
-- no variable of them but `i`. The sums with `pow` are exact in a `double`; what is assigned to an
-- `int` must fit it.
unfoldable pub ring_targets : ℕ → ℕ → ℕ → ℤ → ℤ → ℤ → Result (List Target)
ring_targets zero k i node_order node_id end_id = err out_of_fuel
ring_targets (suc fuel) k i node_order node_id end_id =
    let rest = ring_targets fuel k (i + 1) node_order node_id end_id in
    let target = wrap_target (node_id +ℤ pos (k ^ i)) end_id in
    if leb_ℤ (node_order +ℤ pos (k ^ i)) end_id
    then (to_int (node_order +ℤ pos (k ^ i)) >>= λ current_id.
        if leb_ℤ (pos (k ^ i)) node_order
        then rest
        else (target >>= λ t.
            rest >>= λ l. ok (record { current_id = current_id; target = t } ∷ l)))
    else ok []

-- Powers of two pass every `int` within 33 rounds.
abbrev pub ring_fuel : ℕ
ring_fuel = 64

-- for each id, an insertion into a new set
abbrev pub insert_each : IdSet → IdSet → IdSet
insert_each [] s = s
insert_each (id ∷ ids) s = insert_each ids (set_insert id s)

-- the receiver at a place of the ring's vector
unfoldable pub receiver_at : PeerManager → ℕ → ℤ → Result Node
receiver_at p level target = get_peer_by_order p.node_table level target >>= not_null

-- the first loop: the regions of the receivers
unfoldable pub collect_regions : PeerManager → ℕ → List Target → IdSet → Result IdSet
collect_regions p level [] s = ok s
collect_regions p level (t ∷ ts) s = do
  receiver ← receiver_at p level t.target
  region_id ← region_of level receiver.id
  collect_regions p level ts (set_insert region_id s)

-- The type of the message: 2 goes down from the receiver, 5 stays within the ring.
unfoldable pub type_for : ℕ → Node → Result ℤ
type_for level receiver =
    if level == 0
    then ok (pos 5)
    else (substr receiver.id id_single_start id_single_len >>= λ id_lower.
        ok (if beq id_lower (replicate id_single_len b'0') then pos 2 else pos 5))

module _ (env : Env) (deliver : Deliver) where
  -- the datagram of a message to another node
  unfoldable pub send_remote : Node → Message → Bytes → IdSet → PeerManager → Result PeerManager
  send_remote node msg payload sent_ids p =
      let message_id = next_message_id p in
      let text = data_string p.node.id node.id msg message_id sent_ids payload in
      log_sent env (set_message_id msg message_id) p >>= λ p'.
      ok (record p' {
        sent = p'.sent ++ record { ip = node.ip; port = node.port; text = text } ∷ [];
      })

  unfoldable pub send : Node → Message → Bytes → IdSet → PeerManager → Result PeerManager
  send node msg payload sent_ids p =
      if beq msg.receiver_id msg.sender_id
      then deliver msg payload sent_ids p
      else send_remote node msg payload sent_ids p

  -- The second loop. (It also collects regions into its own copy of the set, which nothing reads.)
  unfoldable pub send_targets :
      Message → ℕ → Bytes → IdSet → List Target → PeerManager → Result PeerManager
  send_targets msg level payload regions [] p = ok p
  send_targets msg level payload regions (t ∷ ts) p = do
    receiver ← receiver_at p level t.target
    region_id ← region_of level receiver.id
    type ← type_for level receiver
    let msg' = set_type (set_node_order (set_receiver_id msg receiver.id) t.current_id) type
    p' ← send receiver msg' payload regions p
    send_targets msg level payload regions ts p'

  unfoldable pub broadcast_within_ring :
      Message → ℕ → ℕ → Bytes → IdSet → PeerManager → Result PeerManager
  broadcast_within_ring msg level k payload sent_ids p = do
    end_id ← get_peer_list_size p.node_table level
    node_id ← get_node_id_in_vector p.node_table level p.node.id
    this_id ← region_of level p.node.id
    targets ← ring_targets ring_fuel k 0 msg.node_order node_id end_id
    regions ← collect_regions p level targets (set_insert this_id (insert_each sent_ids []))
    send_targets msg level payload regions targets p
