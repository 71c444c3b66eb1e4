-- ===== src/Forming/Rounds.antt =====
-- The rounds of the loops that form the rings, and the invariant of the variables.
use fring.Common.{
  ℕ, suc, ◌≤◌, arith, ltb, Bool-cases, inl, inr, List, [], ◌∷◌, ◌++◌, length, All, All-append, ℤ,
}
use fring.Common.Text.{Bytes}
use fring.NodeTable.{Map, Ptr, insert}
use fring.NodeTable.Access.{InHeap, EntryInHeap}
use fring.Forming.{
  Forming, Source, share, add_contact, add_neighbour, add_peer, add_member, add_next,
  set_predecessor, set_successor,
}
use fring.Forming.Valid.{IsFormed, SourceIsValid, share-IsFormed, insert-All}

-- the invariant after a step, with the node still at hand for the next step, and no object lost
abbrev pub Keeps : ℕ → ℕ → Source → Forming → Type 0
Keeps bound n node s = IsFormed n s × SourceIsValid s.heap node × (bound ≤ length s.heap)

module _ {bound n : ℕ} (node : Source) (s : Forming) (k : Keeps bound n node s) where
  shared :
      IsFormed n (share node s).1
      × InHeap (share node s).1.heap (share node s).0
      × SourceIsValid (share node s).1.heap node
      × (bound ≤ length (share node s).1.heap)
  shared = let (v, p, l, g) = share-IsFormed node s k.1 k.0 in (v, p, l, omega (arith, g, k))

  entered :
      (id : Bytes) (m : Map Ptr)
      → All (EntryInHeap (share node s).1.heap) m
      → All (EntryInHeap (share node s).1.heap) (insert id (share node s).0 m)
  entered id m h = insert-All (EntryInHeap (share node s).1.heap) id _ m shared.1 h

  pushed :
      (ps : List Ptr)
      → All (InHeap (share node s).1.heap) ps
      → All (InHeap (share node s).1.heap) (ps ++ (share node s).0 ∷ [])
  pushed ps h = All-append (InHeap (share node s).1.heap) ps _ h (shared.1, tt)

  set_predecessor-Keeps : Keeps bound n node (set_predecessor node s)
  set_predecessor-Keeps = ground (arith, shared)

  set_successor-Keeps : Keeps bound n node (set_successor node s)
  set_successor-Keeps = ground (arith, shared)

  contact_set :
      (id : Bytes)
      → Keeps bound n node (record (share node s).1 {
        contact_nodes = insert id (share node s).0 (share node s).1.contact_nodes;
      })
  contact_set id = ground (arith, shared, entered id (share node s).1.contact_nodes)

  contact_pushed : Keeps bound n node (record (share node s).1 {
    contact_nodes_list = (share node s).1.contact_nodes_list ++ (share node s).0 ∷ [];
  })
  contact_pushed = ground (arith, shared, pushed (share node s).1.contact_nodes_list)

  peer_set-Keeps :
      (id : Bytes)
      → Keeps bound n node (record (share node s).1 {
        peer_set = insert id (share node s).0 (share node s).1.peer_set;
      })
  peer_set-Keeps id = ground (arith, shared, entered id (share node s).1.peer_set)

  peer_pushed :
      Keeps bound n node (record (share node s).1 {
        peer_list = (share node s).1.peer_list ++ (share node s).0 ∷ [];
      })
  peer_pushed = ground (arith, shared, pushed (share node s).1.peer_list)

  next_set :
      (id : Bytes)
      → Keeps bound n node (record (share node s).1 {
        contact_nodes_next = insert id (share node s).0 (share node s).1.contact_nodes_next;
        j = suc (share node s).1.j;
      })
  next_set id = ground (arith, shared, entered id (share node s).1.contact_nodes_next)

  pub add_neighbour-Keeps :
      (nodes : ℕ) (self : ℤ) (i : ℕ) → Keeps bound n node (add_neighbour nodes self i node s)
  unfolding add_neighbour
  add_neighbour-Keeps nodes self i = ground (arith, set_predecessor-Keeps, set_successor-Keeps)

  pub add_next-Keeps : (limit : ℕ) (id : Bytes) → Keeps bound n node (add_next limit id node s)
  unfolding add_next
  add_next-Keeps limit id = elim (Bool-cases (ltb s.j limit)) [
    | inl e ↦ rw e (next_set id)
    | inr e ↦ rw e k
  ]

module _ {bound n : ℕ} (node : Source) (s : Forming) (k : Keeps bound n node s) where
  pub add_contact-Keeps :
      (limit i : ℕ) (id : Bytes) → Keeps bound n node (add_contact limit i id node s)
  unfolding add_contact
  add_contact-Keeps limit i id = elim (Bool-cases (ltb i limit)) [
    | inl e ↦ rw e (contact_pushed node _ (contact_set node s k id))
    | inr e ↦ rw e k
  ]

  pub add_peer-Keeps : (id : Bytes) → Keeps bound n node (add_peer id node s)
  unfolding add_peer
  add_peer-Keeps id = peer_pushed node _ (peer_set-Keeps node s k id)

  pub add_member-Keeps : (id : Bytes) → Keeps bound n node (add_member id node s)
  unfolding add_member
  add_member-Keeps id = peer_set-Keeps node _ (peer_pushed node s k) id
