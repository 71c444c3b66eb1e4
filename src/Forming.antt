-- ===== src/Forming.antt =====
-- The rings of a node, as BaseApp::form_structure in src/app.cpp forms them from its id, and
-- EvalClient::create_hgfr_table in evaluation/src/eval_client.cpp after it: the loops that both
-- write out for each level. What they do not share is a parameter: where a node's address comes
-- from, and whether the maps of a ring get one object each or share it.

pub mod Valid
pub mod Rounds
pub mod Loops
pub mod Exchange
pub mod Neighbours
pub mod Stages
pub mod Listed
use mathlib.Core.Option
use fring.Common.{
  ℕ, zero, suc, ◌+◌, Bool, true, false, ◌&&◌, List, [], ◌∷◌, ◌++◌, map, Option, none, some, ltb,
  if◌then◌else◌, length, ℤ, pos, ◌+ℤ◌, ◌-ℤ◌, eq_ℤ, Result, ok, ◌>>=◌,
}
use fring.Common.Text.{Bytes, substr}
use fring.Decimal.{setw}
use fring.Node.{Node}
use fring.NodeTable.{Ptr, Map, Ring, lookup, insert, deref}
use fring.Params.{
  id_continent_start, id_continent_len, id_country_start, id_country_len, id_state_start,
  id_state_len, id_city_start, id_city_len, id_district_start, id_district_len, id_single_start,
  id_single_len,
}

-- the local variables, the objects that they point to, and how often the clock was read
pub record Forming : Type 0 where
  pub tables : List (Ring Ptr)
  pub contact_nodes : Map Ptr
  pub predecessor : Option Ptr
  pub successor : Option Ptr
  pub peer_set : Map Ptr
  pub peer_list : List Ptr
  pub contact_nodes_next : Map Ptr
  pub contact_nodes_list : List Ptr
  pub j : ℕ
  pub heap : List Node
  pub ticks : ℕ

abbrev pub nothing_formed : Forming
nothing_formed = record {
  tables = [];
  contact_nodes = [];
  predecessor = none;
  successor = none;
  peer_set = [];
  peer_list = [];
  contact_nodes_next = [];
  contact_nodes_list = [];
  j = 0;
  heap = [];
  ticks = 0;
}

-- A local `Node`, which `make_shared<Node>(node)` copies, or a `shared_ptr` that is passed on.
pub data Source : Type 0 where
  value : Node → Source
  object : Ptr → Source

-- the pointer that goes into a map or a vector
unfoldable pub share : Source → Forming → Ptr × Forming
share (value node) s = (length s.heap, record s { heap = s.heap ++ node ∷ [] })
share (object p) s = (p, s)

-- `insert into contact node list`
unfoldable pub add_contact : ℕ → ℕ → Bytes → Source → Forming → Forming
add_contact limit i node_id node s =
    let (p, s1) = share node s in
    let (q, s2) = share node (record s1 { contact_nodes = insert node_id p s1.contact_nodes }) in
    if ltb i limit then record s2 { contact_nodes_list = s2.contact_nodes_list ++ q ∷ [] } else s

abbrev pub set_predecessor : Source → Forming → Forming
set_predecessor node s = let (p, s') = share node s in record s' { predecessor = some p }

abbrev pub set_successor : Source → Forming → Forming
set_successor node s = let (p, s') = share node s in record s' { successor = some p }

-- `check predecessor or successor`, of the node with the number `self` among `nodes`
unfoldable pub add_neighbour : ℕ → ℤ → ℕ → Source → Forming → Forming
add_neighbour nodes self i node s =
    if eq_ℤ self (pos 0) && eq_ℤ (pos i) (pos nodes -ℤ pos 1)
    then set_predecessor node s
    else if eq_ℤ self (pos nodes -ℤ pos 1) && eq_ℤ (pos i) (pos 0)
    then set_successor node s
    else if eq_ℤ (pos i) (self +ℤ pos 1)
    then set_successor node s
    else if eq_ℤ (pos i) (self -ℤ pos 1)
    then set_predecessor node s
    else s

-- `insert into peer list`
unfoldable pub add_peer : Bytes → Source → Forming → Forming
add_peer node_id node s =
    let (p, s1) = share node s in
    let (q, s2) = share node (record s1 { peer_set = insert node_id p s1.peer_set }) in
    record s2 { peer_list = s2.peer_list ++ q ∷ [] }

-- the same in the upper rings, where the vector comes first
unfoldable pub add_member : Bytes → Source → Forming → Forming
add_member node_id node s =
    let (p, s1) = share node s in
    let (q, s2) = share node (record s1 { peer_list = s1.peer_list ++ p ∷ [] }) in
    record s2 { peer_set = insert node_id q s2.peer_set }

-- the first `limit` members are the contact nodes of the next level
unfoldable pub add_next : ℕ → Bytes → Source → Forming → Forming
add_next limit node_id node s =
    let (p, s') = share node s in
    if ltb s.j limit
    then record s' { contact_nodes_next = insert node_id p s'.contact_nodes_next; j = suc s'.j }
    else s

-- what an upper ring is made of
pub record Plan : Type 0 where
  pub ring_level : ℕ
  pub until : Bytes
  pub len : ℕ
  pub units : ℕ
  pub limit : ℕ
  pub rest_of : Bytes → Result Bytes

-- The parts of the own id, in the order of the code. Each but the first is only checked to exist.
unfoldable pub own_parts : Bytes → Result Bytes
own_parts id = do
  id_in_dist ← substr id id_single_start id_single_len
  dist_id ← substr id id_district_start id_district_len
  city_id ← substr id id_city_start id_city_len
  state_id ← substr id id_state_start id_state_len
  country_id ← substr id id_country_start id_country_len
  continent_id ← substr id id_continent_start id_continent_len
  ok id_in_dist

abbrev pub is_some {ℓ} : {A : Type ℓ} → Option A → Bool
is_some none = false
is_some (some a) = true

-- `contact_nodes.find(id) != contact_nodes.end()`
abbrev pub is_contact : Bytes → Forming → Bool
is_contact id s = is_some (lookup id s.contact_nodes)

-- the rest of the body of the first loop: `continue` where no node was found
unfoldable pub place_peer : Bytes → ℕ → ℕ → ℤ → ℕ → Forming → Option (Source × Forming) → Forming
place_peer node_id nodes limit self i s none = s
place_peer node_id nodes limit self i s (some (node, s')) =
    add_peer node_id node (add_neighbour nodes self i node (add_contact limit i node_id node s'))

-- the same in the loop over `contact_nodes_list`
unfoldable pub place_member : ℕ → Bytes → Forming → Option (Source × Forming) → Forming
place_member limit node_id s none = s
place_member limit node_id s (some (node, s')) =
    add_next limit node_id node (add_member node_id node s')

-- What a node is made of its id: nothing where its address is not known, or the node, and the
-- variables after the objects and the clock of its making.
module _ (node_of : Bytes → Forming → Result (Option (Source × Forming))) where
  -- the body of the first loop
  unfoldable pub peer_round : Bytes → ℕ → ℕ → ℤ → ℕ → Forming → Result Forming
  peer_round until nodes limit self i s =
      let node_id = until ++ setw id_single_len i in
      do found ← node_of node_id s; ok (place_peer node_id nodes limit self i s found)

  -- `rounds` rounds, the first at `i`
  unfoldable pub peer_rounds : ℕ → Bytes → ℕ → ℕ → ℤ → ℕ → Forming → Result Forming
  peer_rounds zero until nodes limit self i s = ok s
  peer_rounds (suc rounds) until nodes limit self i s =
      peer_round until nodes limit self i s >>= λ s'.
      peer_rounds rounds until nodes limit self (suc i) s'

  -- the ring of the own district, at level 0
  unfoldable pub form_district : Bytes → ℕ → ℕ → ℤ → Forming → Result Forming
  form_district until nodes limit self s = do
    s' ← peer_rounds nodes until nodes limit self 0 s
    ok (record s' {
      tables =
          s'.tables
          ++ record {
            ring_level = 0;
            contact_nodes = s'.contact_nodes;
            predecessor = s'.predecessor;
            successor = s'.successor;
            peer_set = s'.peer_set;
            peer_list = s'.peer_list;
          }
            ∷ [];
    })

  -- the body of the loop over `contact_nodes_list`, in the unit whose ids begin with `until`
  unfoldable pub member_round : Plan → Bytes → Ptr → Forming → Result Forming
  member_round plan until contact s = do
    node ← deref s.heap contact
    rest ← plan.rest_of node.id
    found ← node_of (until ++ rest) s
    ok (place_member plan.limit (until ++ rest) s found)

  unfoldable pub member_rounds : Plan → Bytes → List Ptr → Forming → Result Forming
  member_rounds plan until [] s = ok s
  member_rounds plan until (contact ∷ contacts) s =
      member_round plan until contact s >>= λ s'. member_rounds plan until contacts s'

  unfoldable pub unit_rounds : ℕ → ℕ → Plan → Forming → Result Forming
  unit_rounds zero i plan s = ok s
  unit_rounds (suc rounds) i plan s =
      member_rounds plan (plan.until ++ setw plan.len i) s.contact_nodes_list s >>= λ s'.
      unit_rounds rounds (suc i) plan s'

  -- a ring above level 0, up to its `push_back`
  unfoldable pub form_ring : Plan → Forming → Result Forming
  form_ring plan s = do
    s' ← unit_rounds plan.units 0 plan (record s { peer_set = []; peer_list = []; j = 0 })
    ok (record s' {
      tables =
          s'.tables
          ++ record {
            ring_level = plan.ring_level;
            contact_nodes = s'.contact_nodes_next;
            predecessor = none;
            successor = none;
            peer_set = s'.peer_set;
            peer_list = s'.peer_list;
          }
            ∷ [];
    })

abbrev pub insert_all : Map Ptr → Map Ptr → Map Ptr
insert_all [] into = into
insert_all ((id, p) ∷ m) into = insert_all m (insert id p into)

abbrev pub second : Bytes × Ptr → Ptr
second e = e.1

-- `exchange contact_nodes and contact_nodes_next`, in the order in which the map is iterated
unfoldable pub exchange : (Map Ptr → Map Ptr) → Forming → Forming
exchange iterate s = record s {
  contact_nodes = insert_all (iterate s.contact_nodes_next) [];
  contact_nodes_list = map second (iterate s.contact_nodes_next);
  contact_nodes_next = [];
}
