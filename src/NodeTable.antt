-- ===== src/NodeTable.antt =====
-- include/node_table.h and src/node_table.cpp: the rings that a node belongs to, level by level.
-- A `shared_ptr<Node>` is an index into the heap of the table, so that two maps may share an
-- object. A deep copy is the value of the node. Every operation runs under the table's mutex, or
-- reads constants, so one call is one step. An `unordered_map` is a list in its iteration order.
pub mod Access
pub mod Order
pub mod Sharing
mod Tests
use mathlib.Core.Option
use fring.Common.{
  ℕ, suc, ◌+◌, ◌-◌, ◌<◌, Bool, true, false, ◌||◌, List, [], ◌∷◌, ◌++◌, Option, none, some, ltb,
  if◌then◌else◌, length, get_elem?, set, take, drop, ℤ, pos, negsuc, Result, ok, err, ◌>>=◌,
  or_fail, out_of_range, undefined, add_int, wrap_int, wrap_int_lem, int_mod, ◌≡◌, ap, ◌∙◌, arith,
}
use fring.Common.Text.{Bytes, beq, sub_size, size_mod}
use native.Mathlib.Nat.{mod-eq_of_lt, mod-eq-sub-mod}
use fring.Node.{Node, get_id, set_last_ping_now, set_last_pong_now}

abbrev pub Ptr : Type 0
Ptr = ℕ

-- `unordered_map<string, P>`
abbrev pub Map : Type 0 → Type 0
Map P = List (Bytes × P)

-- `map.find(id)`
unfoldable pub lookup : {P : Type 0} → Bytes → Map P → Option P
lookup id [] = none
lookup id ((key, p) ∷ m) = if beq key id then some p else lookup id m

-- `map.insert({id, p})`: a key that is there keeps its value
unfoldable pub insert : {P : Type 0} → Bytes → P → Map P → Map P
insert id p [] = (id, p) ∷ []
insert id p ((key, q) ∷ m) = if beq key id then (key, q) ∷ m else (key, q) ∷ insert id p m

-- `struct Ring`, over the entries `P`: pointers in a node table, new nodes where rings are formed.
pub record Ring (P : Type 0) : Type 0 where
  pub ring_level : ℕ
  pub contact_nodes : Map P
  pub predecessor : Option P
  pub successor : Option P
  pub peer_set : Map P
  pub peer_list : List P

pub record NodeTable : Type 0 where
  pub self_id : Bytes
  pub tables : List (Ring Ptr)
  pub heap : List Node

-- the constructor
pub make_table : Bytes → NodeTable
make_table self_id = record { self_id = self_id; tables = []; heap = [] }

pub get_self_id : NodeTable → Bytes
get_self_id t = t.self_id

pub add_table : NodeTable → Ring Ptr → NodeTable
add_table t ring = record t { tables = t.tables ++ ring ∷ [] }

-- `erase(begin() + level)`; past the end it is undefined
pub remove_table : NodeTable → ℕ → Result NodeTable
remove_table t level =
    if ltb level (length t.tables)
    then ok (record t { tables = take level t.tables ++ drop (level + 1) t.tables })
    else err undefined

-- The rings come with the objects that they point to.
unfoldable pub set_tables : NodeTable → List (Ring Ptr) → List Node → NodeTable
set_tables t tables heap = record t { tables = tables; heap = heap }

pub reset_tables : NodeTable → NodeTable
reset_tables t = record t { tables = [] }

pub get_tables : NodeTable → List (Ring Ptr)
get_tables t = t.tables

-- `*p`
unfoldable pub deref : List Node → Ptr → Result Node
deref heap p = or_fail (get_elem? heap p) undefined

-- `copy_node(p)` of a pointer that may be null
unfoldable pub copy_node : List Node → Option Ptr → Result Node
unfolding deref
copy_node heap none = err undefined
copy_node heap (some p) = deref heap p

-- `tables[level]`
unfoldable pub ring_at : NodeTable → ℕ → Result (Ring Ptr)
ring_at t level = or_fail (get_elem? t.tables level) undefined

-- `tables.at(level)`
unfoldable pub ring_checked : NodeTable → ℕ → Result (Ring Ptr)
ring_checked t level = or_fail (get_elem? t.tables level) out_of_range

-- `level > tables.size() - 1`, in `size_t`
unfoldable pub is_above : NodeTable → ℕ → Bool
is_above t level = ltb (sub_size (length t.tables) 1) level

-- the contact nodes first, then the peers
unfoldable pub find_in_ring : Ring Ptr → Bytes → Option Ptr
find_in_ring ring id = elim (lookup id ring.contact_nodes) [
  | some p ↦ some p
  | none ↦ lookup id ring.peer_set
]

unfoldable pub get_node : NodeTable → ℕ → Bytes → Result (Option Ptr)
unfolding ring_at find_in_ring
get_node t level id = do ring ← ring_at t level; ok (find_in_ring ring id)

abbrev is_some {ℓ} : {A : Type ℓ} → Option A → Bool
is_some none = false
is_some (some a) = true

unfoldable pub has_node : NodeTable → ℕ → Bytes → Result Bool
unfolding ring_at
has_node t level id = do
  ring ← ring_at t level
  ok (is_some (lookup id ring.contact_nodes) || is_some (lookup id ring.peer_set))

-- `none` inside `ok` is the null pointer.
copy_found : List Node → Option Ptr → Result (Option Node)
unfolding deref
copy_found heap none = ok none
copy_found heap (some p) = do node ← deref heap p; ok (some node)

unfoldable pub get_node_copy : NodeTable → ℕ → Bytes → Result (Option Node)
unfolding get_node copy_found
get_node_copy t level id = do found ← get_node t level id; copy_found t.heap found

-- a method call through a pointer, which changes the object
update_found : NodeTable → (Node → Node) → Option Ptr → Result NodeTable
unfolding deref
update_found t f none = ok t
update_found t f (some p) = do node ← deref t.heap p; ok (record t { heap = set t.heap p (f node) })

unfoldable pub set_node_last_ping_now : ℕ → NodeTable → ℕ → Bytes → Result NodeTable
unfolding get_node update_found
set_node_last_ping_now now t level id = do
  found ← get_node t level id
  update_found t (set_last_ping_now now) found

unfoldable pub set_node_last_pong_now : ℕ → NodeTable → ℕ → Bytes → Result NodeTable
unfolding get_node update_found
set_node_last_pong_now now t level id = do
  found ← get_node t level id
  update_found t (set_last_pong_now now) found

unfoldable pub is_contact_node : NodeTable → ℕ → Bool
unfolding is_above
is_contact_node t level = if is_above t level then false else true

-- one deep copy for each entry of a map
copy_all : List Node → Map Ptr → Result (List Node)
unfolding deref
copy_all heap [] = ok []
copy_all heap ((id, p) ∷ m) = do node ← deref heap p; rest ← copy_all heap m; ok (node ∷ rest)

unfoldable pub get_contact_nodes : NodeTable → ℕ → Result (List Node)
unfolding is_above ring_checked copy_all
get_contact_nodes t level =
    if is_above t level
    then ok []
    else do ring ← ring_checked t level; copy_all t.heap ring.contact_nodes

unfoldable pub get_peer_set : NodeTable → ℕ → Result (List Node)
unfolding is_above ring_checked copy_all
get_peer_set t level =
    if is_above t level
    then ok []
    else do ring ← ring_checked t level; copy_all t.heap ring.peer_set

unfoldable pub get_successor : NodeTable → ℕ → Result (Option Node)
unfolding is_above ring_checked copy_node
get_successor t level =
    if is_above t level
    then ok none
    else do ring ← ring_checked t level; node ← copy_node t.heap ring.successor; ok (some node)

unfoldable pub get_predecessor : NodeTable → ℕ → Result (Option Node)
unfolding is_above ring_checked copy_node
get_predecessor t level =
    if is_above t level
    then ok none
    else do ring ← ring_checked t level; node ← copy_node t.heap ring.predecessor; ok (some node)

unfoldable pub get_peer : NodeTable → ℕ → Bytes → Result (Option Node)
unfolding is_above get_node_copy
get_peer t level id = if is_above t level then ok none else get_node_copy t level id

-- `peer_list.at(order)` for an `int order`: a negative order is a huge `size_t`
unfoldable pub peer_at : Ring Ptr → ℤ → Result Ptr
peer_at ring (pos i) = or_fail (get_elem? ring.peer_list i) out_of_range
peer_at ring (negsuc i) = err out_of_range

unfoldable pub get_peer_by_order : NodeTable → ℕ → ℤ → Result (Option Node)
unfolding is_above ring_at peer_at deref
get_peer_by_order t level order =
    if is_above t level
    then ok none
    else do ring ← ring_at t level; p ← peer_at ring order; node ← deref t.heap p; ok (some node)

-- the loop of `get_node_id_in_vector`, with its counter `i`
unfoldable pub index_in : List Node → Bytes → List Ptr → ℕ → Result ℤ
unfolding deref
index_in heap id [] i = ok (negsuc 0)
index_in heap id (p ∷ ps) i = do
  node ← deref heap p
  let rest = add_int i 1 >>= λ i'. index_in heap id ps i'
  if beq (get_id node) id then ok (pos i) else rest

unfoldable pub get_node_id_in_vector : NodeTable → ℕ → Bytes → Result ℤ
unfolding is_above ring_checked index_in
get_node_id_in_vector t level id =
    if is_above t level
    then ok (negsuc 0)
    else do ring ← ring_checked t level; index_in t.heap id ring.peer_list 0

-- `size() - 1` in `size_t`, and then an `int`: -1 for an empty list, round for a very long one
abbrev pub size_minus_one : ℕ → ℤ
size_minus_one n = wrap_int (sub_size n 1)

pub size_minus_one-suc : (n : ℕ) → n < int_mod → size_minus_one (suc n) ≡ pos n
size_minus_one-suc n h =
    let round : sub_size (suc n) 1 ≡ n = omega (
      arith,
      h,
      mod-eq_of_lt {n = n} {m = size_mod},
      mod-eq-sub-mod {n = n + size_mod} {m = size_mod},
    ) in
    ap wrap_int round ∙ wrap_int_lem n h

unfoldable pub get_peer_list_size : NodeTable → ℕ → Result ℤ
unfolding is_above ring_checked
get_peer_list_size t level =
    if is_above t level
    then ok (negsuc 0)
    else do ring ← ring_checked t level; ok (size_minus_one (length ring.peer_list))

-- an `unsigned long`
unfoldable pub get_top_level : NodeTable → ℕ
get_top_level t = sub_size (length t.tables) 1
