-- ===== src/Peer/Within.antt =====
-- What `broadcast_within_ring` hands to the transport.
use fring.Common.{
  ℕ, ◌+◌, ◌^◌, ◌≤◌, ◌<◌, ◌≡◌, ◌≢◌, refl, sym, ◌∙◌, append_assoc, append-nil, ap, arith, List, [],
  ◌∷◌, ◌++◌, map, length, some, ℤ, pos, ok, All, ◌||◌, Each,
}
use fring.Common.Text.{Bytes}
use fring.Node.{Node}
use fring.NodeTable.{NodeTable, get_peer_by_order, get_node_id_in_vector, get_peer_list_size}
use fring.Message.{Message, set_receiver_id, set_node_order, set_type}
use fring.Wire.{IdSet, contains, set_insert, data_string}
use fring.Peer.State.{Env, Datagram, PeerManager, next_message_id}
use fring.Peer.Ring.{
  Deliver, Target, region_of, receiver_at, collect_regions, type_for, send_targets, ring_targets,
  ring_fuel, insert_each, broadcast_within_ring,
}
use fring.Peer.Tree.{child_orders}
use fring.Peer.Targets.{place_of, target_of, ring_targets-child_orders}
use fring.Peer.Reach.{child_orders_between}
use fring.Peer.Logging.{
  ClockFits, IsShort, Keeps, Keeps-refl, Keeps-suc, after_send, after_send-Keeps, send_remote_lem,
}
use fring.Wire.SentIds.{contains-set_insert}
use fring.Peer.Regions.{region, region_of_lem, type_for-total}

-- The ring of a level as the node at place `q` sees it: `end + 1` peers, each with an id of 32
-- bytes, of which only the node at `q` has the node's own id.
pub record RingView (node : Node) (table : NodeTable) (level q end : ℕ) (node_at : ℕ → Node)
    : Type 0 where
  pub known : level < 6
  pub size : get_peer_list_size table level ≡ ok (pos end)
  pub place : get_node_id_in_vector table level node.id ≡ ok (pos q)
  pub inside : q ≤ end
  pub peer : (j : ℕ) → j ≤ end → get_peer_by_order table level (pos j) ≡ ok (some (node_at j))
  pub id : (j : ℕ) → j ≤ end → length (node_at j).id ≡ 32
  pub own_id : length node.id ≡ 32
  pub other : (j : ℕ) → j ≤ end → j ≢ q → (node_at j).id ≢ node.id

-- The datagram to the receiver with order `n`: it carries the order, the receiver's id and the type that
-- its id calls for, with the regions and the payload.
pub record Sends (node : Node) (level q o end : ℕ) (node_at : ℕ → Node) (msg : Message)
    (payload : Bytes) (regions : IdSet) (n : ℕ) (d : Datagram) : Type 0 where
  pub type : ℤ
  pub message_id : Bytes
  pub typed : type_for level (node_at (place_of q o end n)) ≡ ok type
  pub datagram :
      let receiver = node_at (place_of q o end n) in
      d ≡ record {
        ip = receiver.ip;
        port = receiver.port;
        text =
            data_string node.id receiver.id
              (set_type (set_node_order (set_receiver_id msg receiver.id) (pos n)) type)
              message_id
              regions
              payload;
      }

-- the regions of the receivers with the given orders
abbrev child_regions : ℕ → ℕ → ℕ → ℕ → (ℕ → Node) → List ℕ → List Bytes
child_regions level q o end node_at ns =
    map (λ n. region level (node_at (place_of q o end n)).id) ns

-- a set that holds the own region, those of the receivers, and the given ids, and no other
abbrev pub IsRegions : Node → ℕ → ℕ → ℕ → ℕ → (ℕ → Node) → List ℕ → IdSet → IdSet → Type 0
IsRegions node level q o end node_at ns ids regions =
    (x : Bytes)
    → contains regions x ≡ (
        contains (region level node.id ∷ child_regions level q o end node_at ns) x
        || contains ids x)

place_of_le : (q o end n : ℕ) → q ≤ end → n ≤ end → place_of q o end n ≤ end
place_of_le q o end n h k = ground arith

place_of_ne : (q o end n : ℕ) → o < n → n ≤ end → place_of q o end n ≢ q
place_of_ne q o end n h k e = ground arith

module _ (env : Env) (clock : ClockFits env) (deliver : Deliver) (node : Node) (table : NodeTable)
    (level q o end : ℕ) (node_at : ℕ → Node) (view : RingView node table level q end node_at)
    (fits : end < 2 ^ 30) (msg : Message) (short : IsShort msg) (sender : msg.sender_id ≡ node.id)
    (payload : Bytes) where
  -- the orders of the children that the loops go through
  abbrev Between : List ℕ → Type 0
  Between ns = All (λ n. (o < n) × (n ≤ end)) ns

  receiver_at_lem :
      (p : PeerManager) (n : ℕ)
      → p.node_table ≡ table
      → n ≤ end
      → receiver_at p level (pos (place_of q o end n)) ≡ ok (node_at (place_of q o end n))
  unfolding receiver_at
  receiver_at_lem p n e k =
      rw (e, view.peer (place_of q o end n) (place_of_le q o end n view.inside k)) refl

  collect_regions_lem :
      (p : PeerManager) (ns : List ℕ) (s : IdSet)
      → p.node_table ≡ table
      → Between ns
      → (s' : IdSet) × (collect_regions p level (map (target_of q o end) ns) s ≡ ok s')
        × ((x : Bytes)
            → contains s' x ≡ (contains (child_regions level q o end node_at ns) x || contains s x))
  unfolding collect_regions contains
  collect_regions_lem p [] s e k = (s, refl, λ x. refl)
  collect_regions_lem p (n ∷ ns) s e ((k, l), ks) =
      let id = (node_at (place_of q o end n)).id in
      let cut =
        region_of_lem level id view.known (view.id _ (place_of_le q o end n view.inside l)) in
      let (s', es, has) = collect_regions_lem p ns (set_insert (region level id) s) e ks in
      (
        s',
        rw (receiver_at_lem p n e l, cut, es) refl,
        λ x. ground (arith, has x, contains-set_insert (region level id) x s),
      )

  contains-insert_each :
      (ids : List Bytes) (s : IdSet) (x : Bytes)
      → contains (insert_each ids s) x ≡ (contains ids x || contains s x)
  unfolding contains
  contains-insert_each [] s x = refl
  contains-insert_each (id ∷ ids) s x =
      ground (arith, contains-insert_each ids (set_insert id s) x, contains-set_insert id x s)

  -- one round of the second loop
  send_targets_round :
      (regions : IdSet) (p : PeerManager) (n : ℕ)
      → p.node ≡ node
      → p.node_table ≡ table
      → length p.msg_table < 10 ^ 24
      → o < n
      → n ≤ end
      → (p' : PeerManager) × (d : Datagram) × ((ts : List Target)
          → send_targets env deliver msg level payload regions (target_of q o end n ∷ ts) p
            ≡ send_targets env deliver msg level payload regions ts p')
        × Sends node level q o end node_at msg payload regions n d
        × (p'.sent ≡ p.sent ++ d ∷ [])
        × Keeps 1 p p'
  unfolding send_targets
  send_targets_round regions p n en et few k l =
      let j = place_of q o end n in
      let le = place_of_le q o end n view.inside l in
      let receiver = node_at j in
      let er = region_of_lem level receiver.id view.known (view.id j le) in
      let (t, typed, t_fits) = type_for-total level receiver (view.id j le) in
      let msg' = set_type (set_node_order (set_receiver_id msg receiver.id) (pos n)) t in
      let short' : IsShort msg' = record {
        broadcast = short.broadcast;
        sender = short.sender;
        receiver = omega (arith, view.id j le);
        type = t_fits;
        order = omega (arith, l, fits);
        level = short.level;
      } in
      let ne : receiver.id ≢ msg.sender_id =
        λ e. view.other j le (place_of_ne q o end n k l) (e ∙ sender) in
      let own : length p.node.id ≤ 64 = omega (arith, ap (λ x. length x.id) en, view.own_id) in
      let d : Datagram = record {
        ip = receiver.ip;
        port = receiver.port;
        text = data_string p.node.id receiver.id msg' (next_message_id p) regions payload;
      } in
      let (line, _, done) =
        send_remote_lem env clock msg' short' p own few deliver receiver payload regions ne in
      (
        after_send env msg' p line d,
        d,
        λ ts. rw (receiver_at_lem p n et l, er, typed, done) refl,
        record { type = t; message_id = next_message_id p; typed = typed; datagram = rw en refl },
        refl,
        after_send-Keeps env msg' p line d,
      )

  -- the second loop
  send_targets_lem :
      (regions : IdSet) (ns : List ℕ) (p : PeerManager)
      → p.node ≡ node
      → p.node_table ≡ table
      → length p.msg_table + length ns ≤ 10 ^ 24
      → Between ns
      → (p' : PeerManager) × (ds : List Datagram) × (send_targets env deliver msg level payload
            regions
            (map (target_of q o end) ns)
            p
          ≡ ok p')
        × (p'.sent ≡ p.sent ++ ds)
        × Each (Sends node level q o end node_at msg payload regions) ns ds
        × Keeps (length ns) p p'
  unfolding send_targets
  send_targets_lem regions [] p en et few k =
      (p, [], refl, sym (append-nil p.sent), tt, Keeps-refl p)
  send_targets_lem regions (n ∷ ns) p en et few ((k, l), ks) =
      let (p1, d, step, carries, one, kept) =
        send_targets_round regions p n en et (omega (arith, few)) k l in
      let (p', ds, done, more, each, kept') =
        send_targets_lem regions ns p1 (kept.node ∙ en) (kept.node_table ∙ et)
          (omega (arith, few, kept.messages)) ks in
      (
        p',
        d ∷ ds,
        step (map (target_of q o end) ns) ∙ done,
        more ∙ (ap (λ l. l ++ ds) one ∙ append_assoc p.sent (d ∷ []) ds),
        (carries, each),
        Keeps-suc (length ns) kept kept',
      )

  -- A `broadcast_within_ring` succeeds and hands exactly one datagram to the transport for each child
  -- of the node's order in the broadcast tree, in the order of the children, each to the address of
  -- the peer at the child's place: if the node knows the ring, its ids have 32 bytes and are its
  -- own only at its place, the ring has at most `2 ^ 30` peers, the order is an `int`, and the
  -- message table has room for message ids. Each datagram has the same set of ids: the node's own
  -- region, the regions of the receivers and the ids given. Beside the datagrams only the message
  -- table, which grows by one message per datagram at most, the log, and the count of times that
  -- were read change.
  pub broadcast_within_ring_lem :
      (p : PeerManager) (ids : IdSet)
      → p.node ≡ node
      → p.node_table ≡ table
      → msg.node_order ≡ pos o
      → length p.msg_table + length (child_orders ring_fuel 1 o end) ≤ 10 ^ 24
      → (p' : PeerManager) × (regions : IdSet) × (ds : List Datagram) × (broadcast_within_ring env
            deliver msg level 2 payload ids p
          ≡ ok p')
        × (p'.sent ≡ p.sent ++ ds)
        × Each
            (Sends node level q o end node_at msg payload regions)
            (child_orders ring_fuel 1 o end)
            ds
        × IsRegions node level q o end node_at (child_orders ring_fuel 1 o end) ids regions
        × Keeps (length (child_orders ring_fuel 1 o end)) p p'
  unfolding broadcast_within_ring contains
  broadcast_within_ring_lem p ids en et eo few =
      let orders = child_orders ring_fuel 1 o end in
      let between = child_orders_between ring_fuel 1 o end (omega arith) in
      let this = region level node.id in
      let (regions, e_regions, has) =
        collect_regions_lem p orders (set_insert this (insert_each ids [])) et between in
      let (p', ds, done, sent, each, kept) = send_targets_lem regions orders p en et few between in
      let size : get_peer_list_size p.node_table level ≡ ok (pos end) =
        ap (λ t. get_peer_list_size t level) et ∙ view.size in
      let place : get_node_id_in_vector p.node_table level p.node.id ≡ ok (pos q) =
        ap (λ t. get_node_id_in_vector t level p.node.id) et
        ∙ (ap (λ x. get_node_id_in_vector table level x.id) en ∙ view.place) in
      let own_region : region_of level p.node.id ≡ ok this =
        ap (λ x. region_of level x.id) en ∙ region_of_lem level node.id view.known view.own_id in
      let targets : ring_targets ring_fuel 2 0 msg.node_order (pos q) (pos end)
          ≡ ok (map (target_of q o end) orders) =
        ap (λ i. ring_targets ring_fuel 2 0 i (pos q) (pos end)) eo
        ∙ ring_targets-child_orders o q end view.inside fits in
      (
        p',
        regions,
        ds,
        rw (size, place, own_region, targets, e_regions, done) refl,
        sent,
        each,
        λ x. ground (
          arith,
          has x,
          contains-set_insert this x (insert_each ids []),
          contains-insert_each ids [] x,
        ),
        kept,
      )
