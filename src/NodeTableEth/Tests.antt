-- ===== src/NodeTableEth/Tests.antt =====
-- An example for the theorem on src/node_table_eth.cpp.
use fring.Common.{◌≡◌, arith, Bool, ◌||◌, [], ◌∷◌, ok}
use fring.Common.Text.{codes, beq}
use fring.Node.{make_node}
use fring.NodeTableEth.{NodeTableEth, add_node_to_table, has_node}
use fring.NodeTableEth.Members.{has_node-add_node_to_table}

abbrev one_neighbour : NodeTableEth
one_neighbour = record {
  self_id = codes "s";
  table = 0 ∷ [];
  heap = make_node 1 (codes "a") (codes "ip") 80 ∷ [];
}

has_node-add_node_to_table_example :
    (b : Bool) × (has_node one_neighbour (codes "b") ≡ ok b)
    × (has_node
          (add_node_to_table one_neighbour (make_node 1 (codes "b") (codes "ip") 81))
          (codes "b")
        ≡ ok (b || beq (codes "b") (codes "b")))
has_node-add_node_to_table_example =
    has_node-add_node_to_table one_neighbour (make_node 1 (codes "b") (codes "ip") 81) (codes "b")
      (omega arith, tt)
