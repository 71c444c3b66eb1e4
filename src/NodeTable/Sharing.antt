-- ===== src/NodeTable/Sharing.antt =====
-- The times of the last ping and pong, and the rule of node_table.h that an id in several maps of
-- a ring is one object.
use fring.Common.{
  ℕ, ◌<◌, ◌≡◌, ◌≢◌, inl, inr, refl, sym, ◌∙◌, ap, arith, List, [], ◌∷◌, none, some, length,
  get_elem?, get_elem?_lt, get_elem?-set_self, get_elem?-set_ne, set, All, All-get_elem?, ok,
  Option-cases,
}
use fring.Common.Text.{Bytes}
use fring.Node.{Node, set_last_ping_now}
use fring.NodeTable.{
  NodeTable, Ring, Map, Ptr, deref, ring_at, lookup, find_in_ring, get_node, update_found,
  set_node_last_ping_now,
}
use fring.NodeTable.Access.{IsValid, EntryInHeap, RingIsValid}

-- A pointer that a map holds is in the heap.
lookup-InHeap :
    (heap : List Node) (id : Bytes) (m : Map Ptr) {p : Ptr}
    → All (EntryInHeap heap) m
    → lookup id m ≡ some p
    → p < length heap
unfolding lookup
lookup-InHeap heap id [] h e = cc
lookup-InHeap heap id ((key, q) ∷ m) {p} h e = ground (arith, lookup-InHeap heap id m {p = p} h.1)

find_in_ring-InHeap :
    (heap : List Node) (r : Ring Ptr) (id : Bytes) {p : Ptr}
    → RingIsValid heap r
    → find_in_ring r id ≡ some p
    → p < length heap
unfolding find_in_ring
find_in_ring-InHeap heap r id {p} v e = ground (
  arith,
  lookup-InHeap heap id r.contact_nodes {p = p} v.contacts,
  lookup-InHeap heap id r.peer_set {p = p} v.peers,
)

find_in_ring_contact :
    (r : Ring Ptr) (id : Bytes) {p : Ptr}
    → lookup id r.contact_nodes ≡ some p
    → find_in_ring r id ≡ some p
unfolding find_in_ring
find_in_ring_contact r id h = ground arith

find_in_ring_peer :
    (r : Ring Ptr) (id : Bytes) {q : Ptr}
    → lookup id r.contact_nodes ≡ none
    → lookup id r.peer_set ≡ some q
    → find_in_ring r id ≡ some q
unfolding find_in_ring
find_in_ring_peer r id h k = ground arith

get_node_at :
    (t : NodeTable) (level : ℕ) (id : Bytes) (r : Ring Ptr)
    → get_elem? t.tables level ≡ some r
    → get_node t level id ≡ ok (find_in_ring r id)
unfolding get_node
get_node_at t level id r e = unfold ring_at in rw e refl

module _ (t : NodeTable) (level : ℕ) (id : Bytes) (r : Ring Ptr) (v : IsValid t)
    (e : get_elem? t.tables level ≡ some r) where
  -- what a ping does at the object that it finds
  pinged :
      (now : ℕ) (p : Ptr)
      → find_in_ring r id ≡ some p
      → (n : Node) × (get_elem? t.heap p ≡ some n)
        × (set_node_last_ping_now now t level id
            ≡ ok (record t { heap = set t.heap p (set_last_ping_now now n) }))
  unfolding set_node_last_ping_now
  pinged now p f =
      let w = All-get_elem? (RingIsValid t.heap) t.tables level v.rings e in
      let (n, en) = get_elem?_lt t.heap p (find_in_ring-InHeap t.heap r id w f) in
      let d : deref t.heap p ≡ ok n = unfold deref in rw en refl in
      (n, en, rw (get_node_at t level id r e, f, update_found, d) refl)

  -- Recording a ping of a known node succeeds, puts the time into the object that the lookup
  -- finds (a contact node before a peer), and leaves the rings and every other object alone.
  pub set_node_last_ping_now_lem :
      (now : ℕ) (p q : Ptr)
      → find_in_ring r id ≡ some p
      → q ≢ p
      → (t' : NodeTable) × (n n' : Node) × (set_node_last_ping_now now t level id ≡ ok t')
        × (t'.tables ≡ t.tables)
        × (get_elem? t.heap p ≡ some n)
        × (get_elem? t'.heap p ≡ some n')
        × (n' ≡ record n { last_ping = now })
        × (get_elem? t'.heap q ≡ get_elem? t.heap q)
  set_node_last_ping_now_lem now p q f ne =
      let (n, en, done) = pinged now p f in
      let w = All-get_elem? (RingIsValid t.heap) t.tables level v.rings e in
      let h = find_in_ring-InHeap t.heap r id w f in
      (
        _,
        n,
        _,
        done,
        refl,
        en,
        get_elem?-set_self t.heap p _ h,
        refl,
        get_elem?-set_ne t.heap _ (λ s. ne (sym s)),
      )

-- The comment of `struct Ring`: an id in several maps of the ring is the same object.
abbrev pub IsShared : Ring Ptr → Bytes → Type 0
IsShared r id =
    (p q : Ptr) → lookup id r.contact_nodes ≡ some p → lookup id r.peer_set ≡ some q → p ≡ q

-- In a ring that shares its objects, a ping of a peer is seen by whoever reads the peer set.
pub set_node_last_ping_now-IsShared :
    (t : NodeTable) (level : ℕ) (id : Bytes) (r : Ring Ptr) (now : ℕ) (q : Ptr)
    → IsValid t
    → get_elem? t.tables level ≡ some r
    → IsShared r id
    → lookup id r.peer_set ≡ some q
    → (t' : NodeTable) × (n : Node) × (set_node_last_ping_now now t level id ≡ ok t')
      × (get_elem? t'.heap q ≡ some n)
      × (n.last_ping ≡ now)
set_node_last_ping_now-IsShared t level id r now q v e shared h =
    let (n, en, done) = pinged t level id r v e now q found in
    let w = All-get_elem? (RingIsValid t.heap) t.tables level v.rings e in
    let k = find_in_ring-InHeap t.heap r id w found in
    (_, _, done, get_elem?-set_self t.heap q _ k, refl)
  where
    found : find_in_ring r id ≡ some q
    found = elim (Option-cases (lookup id r.contact_nodes)) [
      | inl absent ↦ find_in_ring_peer r id absent h
      | inr (p, present) ↦ find_in_ring_contact r id (present ∙ ap some (shared p q present h))
    ]

-- Where the maps hold two objects for one id, the ping of that id goes to the contact node only:
-- the object in the peer set keeps its old times.
pub set_node_last_ping_now_stale :
    (t : NodeTable) (level : ℕ) (id : Bytes) (r : Ring Ptr) (now : ℕ) (p q : Ptr)
    → IsValid t
    → get_elem? t.tables level ≡ some r
    → lookup id r.contact_nodes ≡ some p
    → lookup id r.peer_set ≡ some q
    → p ≢ q
    → (t' : NodeTable) × (set_node_last_ping_now now t level id ≡ ok t')
      × (get_elem? t'.heap q ≡ get_elem? t.heap q)
set_node_last_ping_now_stale t level id r now p q v e hp hq ne =
    let (n, en, done) = pinged t level id r v e now p found in
    (_, done, get_elem?-set_ne t.heap _ ne)
  where
    found : find_in_ring r id ≡ some p
    found = find_in_ring_contact r id hp
