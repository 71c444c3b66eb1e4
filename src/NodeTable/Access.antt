-- ===== src/NodeTable/Access.antt =====
-- The accessors of a well-formed node table: which level they answer.
use fring.Common.{
  ℕ, suc, ◌<◌, ◌≤◌, ◌≡◌, ◌↔◌, ◌⊎◌, inl, inr, refl, ap, arith, true, false, List, [], ◌∷◌, Option,
  none, some, length, get_elem?, get_elem?_lt, All, All-get_elem?, ok, err, out_of_range, ltb,
  ltb→lt, ltb→le, lt→ltb, le→ltb, Bool-cases,
}
use fring.Common.Text.{Bytes, size_mod}
use fring.Node.{Node}
use fring.NodeTable.{
  NodeTable, Ring, Map, Ptr, deref, ring_checked, is_above, is_contact_node, copy_all,
  get_contact_nodes,
}

module _ (heap : List Node) where
  abbrev pub InHeap : Ptr → Type 0
  InHeap p = p < length heap

  abbrev pub EntryInHeap : Bytes × Ptr → Type 0
  EntryInHeap e = InHeap e.1

  -- null, or a pointer to an object
  abbrev pub NullOrInHeap : Option Ptr → Type 0
  NullOrInHeap none = Unit
  NullOrInHeap (some p) = InHeap p

  pub record RingIsValid (r : Ring Ptr) : Type 0 where
    pub contacts : All EntryInHeap r.contact_nodes
    pub peers : All EntryInHeap r.peer_set
    pub listed : All InHeap r.peer_list
    pub before : NullOrInHeap r.predecessor
    pub after : NullOrInHeap r.successor

-- There is a ring, the number of rings is a `size_t`, and no pointer dangles.
pub record IsValid (t : NodeTable) : Type 0 where
  pub some_ring : 0 < length t.tables
  pub sized : length t.tables < size_mod
  pub rings : All (RingIsValid t.heap) t.tables

module _ (t : NodeTable) (some_ring : 0 < length t.tables)
    (sized : length t.tables < size_mod) where
  pub is_above_below : (level : ℕ) → level < length t.tables → is_above t level ≡ false
  unfolding is_above
  is_above_below level h = le→ltb _ _ (omega arith)

  pub is_above_beyond : (level : ℕ) → length t.tables ≤ level → is_above t level ≡ true
  unfolding is_above
  is_above_beyond level h = lt→ltb _ _ (omega arith)

-- In a table with a ring, a node counts as a contact node exactly at the levels of its rings.
is_contact_node_iff :
    (t : NodeTable) (level : ℕ)
    → 0 < length t.tables
    → length t.tables < size_mod
    → (is_contact_node t level ≡ true) ↔ (level < length t.tables)
unfolding is_contact_node is_above
is_contact_node_iff t level h k = grind arith

-- A table with no ring answers the other way: `size() - 1` wraps, so a node passes for a contact
-- node of every level, and reading the contact nodes of a level throws instead of returning none.
pub empty_table :
    (t : NodeTable) (level : ℕ)
    → t.tables ≡ []
    → level < size_mod
    → (is_contact_node t level ≡ true) × (get_contact_nodes t level ≡ err out_of_range)
unfolding is_contact_node get_contact_nodes
empty_table t level e h =
    (rw (above, is_contact_node) refl, rw (above, get_contact_nodes, missing) refl)
  where
    count : length t.tables ≡ 0
    count = ap length e

    above : is_above t level ≡ false
    above = unfold is_above in le→ltb _ _ (omega (arith, count))

    missing : ring_checked t level ≡ err out_of_range
    missing = rw e refl

pub deref_in_heap :
    (heap : List Node) (p : Ptr) → p < length heap → (n : Node) × (deref heap p ≡ ok n)
unfolding deref
deref_in_heap heap p h = let (n, e) = get_elem?_lt heap p h in (n, rw e refl)

copy_all_in_heap :
    (heap : List Node) (m : Map Ptr)
    → All (EntryInHeap heap) m
    → (ns : List Node) × (copy_all heap m ≡ ok ns) × (length ns ≡ length m)
unfolding copy_all
copy_all_in_heap heap [] h = ([], refl, refl)
copy_all_in_heap heap ((id, p) ∷ m) (hp, hm) =
    let (n, e) = deref_in_heap heap p hp in
    let (ns, es, k) = copy_all_in_heap heap m hm in (n ∷ ns, rw (e, es) refl, ap suc k)

-- The ring at a level that the table has.
pub ring_below :
    {t : NodeTable} (v : IsValid t) (level : ℕ)
    → level < length t.tables
    → (r : Ring Ptr) × (get_elem? t.tables level ≡ some r) × RingIsValid t.heap r
ring_below {t} v level h =
    let (r, e) = get_elem?_lt t.tables level h in
    (r, e, All-get_elem? (RingIsValid t.heap) t.tables level v.rings e)

-- Reading the contact nodes of a valid table never faults: a level that the table has gives one
-- copy for each contact node, any other level gives none.
pub get_contact_nodes_total :
    (t : NodeTable) (level : ℕ)
    → IsValid t
    → ((r : Ring Ptr) × (ns : List Node) × (get_elem? t.tables level ≡ some r)
        × (get_contact_nodes t level ≡ ok ns)
        × (length ns ≡ length r.contact_nodes))
      ⊎ ((length t.tables ≤ level) × (get_contact_nodes t level ≡ ok []))
get_contact_nodes_total t level v = elim (Bool-cases (ltb level (length t.tables))) [
  | inl h ↦ inl (present (ltb→lt _ _ h))
  | inr h ↦ inr (ltb→le _ _ h, absent (ltb→le _ _ h))
]
  where
    present :
        level < length t.tables
        → (r : Ring Ptr) × (ns : List Node) × (get_elem? t.tables level ≡ some r)
          × (get_contact_nodes t level ≡ ok ns)
          × (length ns ≡ length r.contact_nodes)
    present h =
        let (r, e, w) = ring_below v level h in
        let (ns, es, k) = copy_all_in_heap t.heap r.contact_nodes w.contacts in
        let found : ring_checked t level ≡ ok r = unfold ring_checked in rw e refl in
        (
          r,
          ns,
          e,
          unfold get_contact_nodes in
              rw (is_above_below t v.some_ring v.sized level h, found, es) refl,
          k,
        )

    absent : length t.tables ≤ level → get_contact_nodes t level ≡ ok []
    absent h = unfold get_contact_nodes in rw (is_above_beyond t v.some_ring v.sized level h) refl
