-- ===== src/NodeTableEth.antt =====
-- include/node_table_eth.h and src/node_table_eth.cpp: the routing table of a node of the
-- Ethereum-like network. As in the node table of the rings, a `shared_ptr<Node>` is an index into a heap.
pub mod Members
mod Tests
use fring.Common.{
  ℕ, Bool, true, false, List, [], ◌∷◌, ◌++◌, Option, none, some, if◌then◌else◌, length, set, Result,
  ok, ◌>>=◌,
}
use fring.Common.Text.{Bytes, beq}
use fring.Node.{Node, get_id, set_last_ping_now, set_last_pong_now}
use fring.NodeTable.{Ptr, deref}

pub record NodeTableEth : Type 0 where
  pub self_id : Bytes
  pub table : List Ptr
  pub heap : List Node

unfoldable pub make_table : Bytes → NodeTableEth
make_table self_id = record { self_id = self_id; table = []; heap = [] }

pub get_self_id : NodeTableEth → Bytes
get_self_id t = t.self_id

-- `push_back` of a pointer to a new object
unfoldable pub add_node_to_table : NodeTableEth → Node → NodeTableEth
add_node_to_table t node = record t {
  table = t.table ++ length t.heap ∷ [];
  heap = t.heap ++ node ∷ [];
}

-- the pointers without the first one to a node with this id
unfoldable pub erase_first : List Node → Bytes → List Ptr → Result (List Ptr)
erase_first heap id [] = ok []
erase_first heap id (p ∷ ps) = do
  node ← deref heap p
  let rest = erase_first heap id ps
  if beq (get_id node) id then ok ps else (rest >>= λ l. ok (p ∷ l))

unfoldable pub remove_node_from_table : NodeTableEth → Bytes → Result NodeTableEth
remove_node_from_table t id = do
  table ← erase_first t.heap id t.table
  ok (record t { table = table })

-- The pointers come with the objects that they point to.
unfoldable pub set_table : NodeTableEth → List Ptr → List Node → NodeTableEth
set_table t table heap = record t { table = table; heap = heap }

pub get_table : NodeTableEth → List Ptr
get_table t = t.table

-- the first pointer to a node with this id
unfoldable pub find_first : List Node → Bytes → List Ptr → Result (Option Ptr)
find_first heap id [] = ok none
find_first heap id (p ∷ ps) = do
  node ← deref heap p
  let rest = find_first heap id ps
  if beq (get_id node) id then ok (some p) else rest

unfoldable pub get_node : NodeTableEth → Bytes → Result (Option Ptr)
get_node t id = find_first t.heap id t.table

abbrev pub is_found : Option Ptr → Bool
is_found none = false
is_found (some p) = true

unfoldable pub has_node : NodeTableEth → Bytes → Result Bool
has_node t id = do found ← find_first t.heap id t.table; ok (is_found found)

abbrev copy_of : List Node → Option Ptr → Result (Option Node)
copy_of heap none = ok none
copy_of heap (some p) = do node ← deref heap p; ok (some node)

unfoldable pub get_node_copy : NodeTableEth → Bytes → Result (Option Node)
get_node_copy t id = do found ← find_first t.heap id t.table; copy_of t.heap found

abbrev update_at : NodeTableEth → (Node → Node) → Option Ptr → Result NodeTableEth
update_at t f none = ok t
update_at t f (some p) = do node ← deref t.heap p; ok (record t { heap = set t.heap p (f node) })

unfoldable pub set_node_last_ping_now : ℕ → NodeTableEth → Bytes → Result NodeTableEth
set_node_last_ping_now now t id = do
  found ← get_node t id
  update_at t (set_last_ping_now now) found

unfoldable pub set_node_last_pong_now : ℕ → NodeTableEth → Bytes → Result NodeTableEth
set_node_last_pong_now now t id = do
  found ← get_node t id
  update_at t (set_last_pong_now now) found

-- a deep copy of each node
unfoldable pub copy_each : List Node → List Ptr → Result (List Node)
copy_each heap [] = ok []
copy_each heap (p ∷ ps) = do node ← deref heap p; rest ← copy_each heap ps; ok (node ∷ rest)

unfoldable pub get_peer_set : NodeTableEth → Result (List Node)
get_peer_set t = copy_each t.heap t.table

unfoldable pub get_peer : NodeTableEth → Bytes → Result (Option Node)
get_peer t id = get_node_copy t id
