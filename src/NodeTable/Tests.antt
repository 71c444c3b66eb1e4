-- ===== src/NodeTable/Tests.antt =====
-- Examples for the theorems on src/node_table.cpp.
use fring.Common.{
  ◌<◌, ◌≡◌, refl, arith, true, List, [], ◌∷◌, none, some, get_elem?, pos, ok, err, out_of_range,
}
use fring.Common.Text.{Bytes, codes, beq}
use fring.Node.{Node, make_node}
use fring.NodeTable.{
  NodeTable, Ring, Ptr, lookup, find_in_ring, is_contact_node, get_contact_nodes, get_peer_by_order,
  get_node_id_in_vector, set_node_last_ping_now, make_table,
}
use fring.NodeTable.Access.{IsValid, RingIsValid, empty_table}
use fring.NodeTable.Order.{get_peer_by_order-get_node_id_in_vector}
use fring.NodeTable.Sharing.{
  IsShared, set_node_last_ping_now_lem, set_node_last_ping_now-IsShared,
  set_node_last_ping_now_stale,
}

abbrev id_a : Bytes
id_a = codes "a"

abbrev id_b : Bytes
id_b = codes "b"

abbrev two_nodes : List Node
two_nodes = make_node 5 id_a (codes "10.0.0.1") 8080 ∷ make_node 6 id_b (codes "10.0.0.2") 8081 ∷ []

-- `a` is the contact node, and `a` and `b` are the peers. The pointer to `a` in the peer set is
-- the argument.
abbrev ring_with : Ptr → Ring Ptr
ring_with p = record {
  ring_level = 0;
  contact_nodes = (id_a, 0) ∷ [];
  predecessor = some 1;
  successor = none;
  peer_set = (id_a, p) ∷ (id_b, 1) ∷ [];
  peer_list = 0 ∷ 1 ∷ [];
}

abbrev table_with : Ptr → NodeTable
table_with p = record { self_id = id_a; tables = ring_with p ∷ []; heap = two_nodes }

ring_with-RingIsValid : (p : Ptr) → p < 2 → RingIsValid two_nodes (ring_with p)
ring_with-RingIsValid p h = record {
  contacts = (omega arith, tt);
  peers = (h, (omega arith, tt));
  listed = (omega arith, (omega arith, tt));
  before = omega arith;
  after = tt;
}

table_with-IsValid : (p : Ptr) → p < 2 → IsValid (table_with p)
table_with-IsValid p h = record {
  some_ring = omega arith;
  sized = omega arith;
  rings = (ring_with-RingIsValid p h, tt);
}

abbrev shared_table : NodeTable
shared_table = table_with 0

-- The second entry of `a` is another object.
abbrev split_table : NodeTable
split_table = table_with 1

abbrev shared_table-IsValid : IsValid shared_table
shared_table-IsValid = table_with-IsValid 0 (omega arith)

abbrev split_table-IsValid : IsValid split_table
split_table-IsValid = table_with-IsValid 1 (omega arith)

empty_table_example :
    (is_contact_node (make_table id_a) 3 ≡ true)
    × (get_contact_nodes (make_table id_a) 3 ≡ err out_of_range)
unfolding make_table
empty_table_example = empty_table (make_table id_a) 3 refl (omega arith)

get_peer_by_order-get_node_id_in_vector_example :
    (n : Node) × (get_peer_by_order shared_table 0 (pos 1) ≡ ok (some n)) × (n.id ≡ id_b)
unfolding get_node_id_in_vector beq
get_peer_by_order-get_node_id_in_vector_example =
    get_peer_by_order-get_node_id_in_vector shared_table 0 id_b 1 shared_table-IsValid refl

set_node_last_ping_now_lem_example :
    (t' : NodeTable) × (n n' : Node) × (set_node_last_ping_now 9 shared_table 0 id_b ≡ ok t')
    × (t'.tables ≡ shared_table.tables)
    × (get_elem? two_nodes 1 ≡ some n)
    × (get_elem? t'.heap 1 ≡ some n')
    × (n' ≡ record n { last_ping = 9 })
    × (get_elem? t'.heap 0 ≡ get_elem? two_nodes 0)
unfolding find_in_ring lookup beq
set_node_last_ping_now_lem_example =
    set_node_last_ping_now_lem shared_table 0 id_b (ring_with 0) shared_table-IsValid refl 9 1 0
      refl (λ e. omega (arith, e))

ring_with-IsShared : IsShared (ring_with 0) id_a
unfolding lookup beq
ring_with-IsShared p q h k = cc

set_node_last_ping_now-IsShared_example :
    (t' : NodeTable) × (n : Node) × (set_node_last_ping_now 9 shared_table 0 id_a ≡ ok t')
    × (get_elem? t'.heap 0 ≡ some n)
    × (n.last_ping ≡ 9)
unfolding lookup beq
set_node_last_ping_now-IsShared_example =
    set_node_last_ping_now-IsShared shared_table 0 id_a (ring_with 0) 9 0 shared_table-IsValid refl
      ring_with-IsShared refl

set_node_last_ping_now_stale_example :
    (t' : NodeTable) × (set_node_last_ping_now 9 split_table 0 id_a ≡ ok t')
    × (get_elem? t'.heap 1 ≡ get_elem? two_nodes 1)
unfolding lookup beq
set_node_last_ping_now_stale_example =
    set_node_last_ping_now_stale split_table 0 id_a (ring_with 1) 9 0 1 split_table-IsValid refl
      refl refl (λ e. omega (arith, e))
