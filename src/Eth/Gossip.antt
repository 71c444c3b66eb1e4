-- ===== src/Eth/Gossip.antt =====
-- `send`, `broadcast`, the three messages of the pull mode, `receive` and `on_receive` of src/peer_manager_eth.cpp.
use fring.Common.{
  ℕ, zero, suc, ◌+◌, Bool, true, false, ◌&&◌, List, [], ◌∷◌, ◌++◌, if◌then◌else◌, ltb, ◌==◌,
  get_elem?, none, some, ℤ, pos, ◌-ℤ◌, eq_ℤ, Result, ok, err, undefined, out_of_fuel, or_fail,
  ◌>>=◌, ◌%◌, ◌-◌, negsuc, int_mod,
}
use fring.Common.Text.{Bytes, beq, find, substr, substr_from, add_size}
use fring.Decimal.{to_decimal}
use fring.Node.{Node, make_node}
use fring.NodeTable.{lookup, insert}
use fring.NodeTableEth.{get_peer_set}
use fring.Message.{Message, make_message_eth, set_message_id, set_receiver_id, set_type, set_ttl}
use fring.Params.{table_size_eth, num_receivers_eth}
use fring.Wire.{contains}
use fring.Peer.State.{Env}
use fring.Eth.State.{
  PeerManagerEth, push, pull, next_message_id, next_broadcast_id, random_num_in_range, log_sent,
  log_received, simulate_delay,
}
use fring.Eth.Packet.{data_string, parse_packet, message_of}

-- an element of a list of numbers
abbrev pub has_number : ℕ → List ℕ → Bool
has_number n [] = false
has_number n (m ∷ ms) = if m == n then true else has_number n ms

-- one less, which the least `int` has not
abbrev pub decrement : ℤ → Result ℤ
decrement (pos n) = ok (pos n -ℤ pos 1)
decrement (negsuc n) = if ltb (n + 1) int_mod then ok (negsuc (n + 1)) else err undefined

-- `hash` is `std::hash<std::string>` of the C++ library. (`srand` only begins the random numbers
-- anew, and they are any numbers here.)
module _ (env : Env) (hash : Bytes → ℕ) where
  unfoldable pub send : Node → Message → Bytes → PeerManagerEth → Result PeerManagerEth
  send node msg payload p =
      let message_id = next_message_id p in
      let text = data_string p.node.id node.id msg message_id payload in
      log_sent env (set_message_id msg message_id) p >>= λ p'.
      ok (record p' {
        sent = p'.sent ++ record { ip = node.ip; port = node.port; text = text } ∷ [];
      })

  -- a message of the pull mode, with its type
  unfoldable pub send_typed : ℤ → Node → Bytes → Bytes → PeerManagerEth → Result PeerManagerEth
  send_typed type node payload broadcast_id p =
      send node (set_type (make_message_eth broadcast_id [] p.node.id node.id) type) payload p

  unfoldable pub send_inv : Node → Bytes → Bytes → PeerManagerEth → Result PeerManagerEth
  send_inv node data_hash broadcast_id p = send_typed (pos 1) node data_hash broadcast_id p

  unfoldable pub send_data : Node → Bytes → Bytes → PeerManagerEth → Result PeerManagerEth
  send_data node payload broadcast_id p = send_typed (pos 2) node payload broadcast_id p

  unfoldable pub send_request : Node → Bytes → Bytes → PeerManagerEth → Result PeerManagerEth
  send_request node data_hash broadcast_id p = send_typed (pos 3) node data_hash broadcast_id p

  -- The loop that draws `wanted` places of the routing table which were not drawn before. A round
  -- that draws one again does not count, so the loop ends only by the numbers drawn.
  unfoldable pub draw_ids : ℕ → ℕ → List ℕ → PeerManagerEth → Result (List ℕ × PeerManagerEth)
  draw_ids fuel zero random_ids p = ok ([], p)
  draw_ids zero (suc wanted) random_ids p = err out_of_fuel
  draw_ids (suc fuel) (suc wanted) random_ids p =
      random_num_in_range env 0 (pos table_size_eth -ℤ pos 1) p >>= λ (id, p').
      let again = draw_ids fuel (suc wanted) random_ids p' in
      let next = draw_ids fuel wanted (id ∷ random_ids) p' in
      if has_number id random_ids then again else (next >>= λ (ids, p''). ok (id ∷ ids, p''))

  -- the nodes at the places
  unfoldable pub nodes_at : List Node → List ℕ → Result (List Node)
  nodes_at routing_table [] = ok []
  nodes_at routing_table (id ∷ ids) = do
    node ← or_fail (get_elem? routing_table id) undefined
    rest ← nodes_at routing_table ids
    ok (node ∷ rest)

  -- the loop over the receivers
  unfoldable pub send_each :
      Message → Bytes → Bytes → List Node → PeerManagerEth → Result PeerManagerEth
  send_each msg payload broadcast_id [] p = ok p
  send_each msg payload broadcast_id (receiver ∷ receivers) p =
      (if p.mode == push
        then send receiver (set_receiver_id msg receiver.id) payload p
        else send_inv receiver (to_decimal (hash payload)) broadcast_id p)
      >>= λ p'. send_each msg payload broadcast_id receivers p'

  -- the part of `broadcast` behind the choice of the id
  unfoldable pub broadcast_to : ℕ → Bytes → ℤ → Bytes → PeerManagerEth → Result PeerManagerEth
  broadcast_to fuel payload ttl broadcast_id p = do
    routing_table ← get_peer_set p.node_table
    let trial = env.rand p.draws % 1000
    let p1 : PeerManagerEth = record p { draws = suc p.draws }
    first ← nodes_at routing_table (if ltb trial 990 then 0 ∷ [] else [])
    (ids, p2) ← draw_ids fuel (num_receivers_eth - 1) (0 ∷ []) p1
    others ← nodes_at routing_table ids
    send_each (set_ttl (make_message_eth broadcast_id [] p.node.id []) ttl) payload broadcast_id
        (first ++ others) p2

  unfoldable pub broadcast : ℕ → Bytes → ℤ → Bytes → PeerManagerEth → Result PeerManagerEth
  broadcast fuel payload ttl [] p =
      let broadcast_id = next_broadcast_id p in
      broadcast_to fuel payload ttl broadcast_id (record p {
        broadcasted_msgs = p.broadcasted_msgs ++ broadcast_id ∷ [];
        data_map = insert (to_decimal (hash payload)) payload p.data_map;
      })
  broadcast fuel payload ttl (c ∷ broadcast_id) p =
      broadcast_to fuel payload ttl (c ∷ broadcast_id) p

  -- the hash before the bar of `data_hash|data_content`, and the content behind it
  unfoldable pub hash_of_data : Bytes → Result Bytes
  hash_of_data payload = substr payload 0 (find b'|' payload 0)

  unfoldable pub content_of_data : Bytes → Result Bytes
  content_of_data payload = substr_from payload (add_size (find b'|' payload 0) 1)

  -- a message of the pull mode
  unfoldable pub on_pull : ℕ → Message → Bytes → Bytes → ℕ → PeerManagerEth → Result PeerManagerEth
  on_pull fuel msg payload sender_ip sender_port p =
      let sender = make_node (env.clock p.ticks) msg.sender_id sender_ip sender_port in
      let p1 : PeerManagerEth = record p { ticks = suc p.ticks } in
      if eq_ℤ msg.type (pos 1)
      then elim (lookup payload p.data_map) [
        | some content ↦ ok p
        | none ↦ send_request sender payload msg.broadcast_id p1
      ]
      else if eq_ℤ msg.type (pos 2)
      then (do
        key ← hash_of_data payload
        content ← content_of_data payload
        broadcast fuel content (pos 0) msg.broadcast_id
            (record p { data_map = insert key content p.data_map }))
      else if eq_ℤ msg.type (pos 3)
      then (do
        key ← hash_of_data payload
        real_data ← or_fail (lookup key p.data_map) undefined
        send_data sender (payload ++ b'|' ∷ real_data) msg.broadcast_id p1)
      else ok p

  -- a message of the push mode: each broadcast id is passed on once
  unfoldable pub on_push : ℕ → Message → Bytes → PeerManagerEth → Result PeerManagerEth
  on_push fuel msg payload p =
      if contains p.broadcasted_msgs_all_nodes msg.broadcast_id
      then ok p
      else (decrement msg.ttl >>= λ ttl. broadcast fuel payload ttl msg.broadcast_id (record p {
        broadcasted_msgs_all_nodes = p.broadcasted_msgs_all_nodes ++ msg.broadcast_id ∷ [];
      }))

  unfoldable pub on_receive :
      ℕ → Message → Bytes → Bytes → ℕ → PeerManagerEth → Result PeerManagerEth
  on_receive fuel msg payload sender_ip sender_port p =
      simulate_delay env msg.sender_id p.node.id p >>= λ p'.
      if p'.mode == pull
      then on_pull fuel msg payload sender_ip sender_port p'
      else on_push fuel msg payload p'

  -- a datagram from the transport
  unfoldable pub receive : ℕ → Bytes → ℕ → Bytes → PeerManagerEth → Result PeerManagerEth
  receive fuel ip port text p = do
    packet ← parse_packet text
    if beq packet.ttl (b'0' ∷ []) && (p.mode == push) then ok p else (do
      msg ← message_of packet
      p' ← log_received env msg p
      on_receive fuel msg packet.payload ip port p')
