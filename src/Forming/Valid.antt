-- ===== src/Forming/Valid.antt =====
-- The invariant of the local variables while the rings are formed.
use fring.Common.{
  ℕ, suc, ◌+◌, ◌≤◌, ◌≡◌, refl, arith, List, [], ◌∷◌, ◌++◌, none, some, length, length-append, All,
  All-append, All-mono, Option,
}
use fring.Common.Text.{Bytes}
use fring.Node.{Node}
use fring.NodeTable.{Ring, Map, Ptr, insert}
use fring.NodeTable.Access.{InHeap, EntryInHeap, NullOrInHeap, RingIsValid}
use fring.Params.{id_single_start}
use fring.Forming.{Forming, Source, value, object, share}

-- The ring at each index of the vector is the ring of this level.
abbrev pub LevelsFrom : ℕ → List (Ring Ptr) → Type 0
LevelsFrom i [] = Unit
LevelsFrom i (ring ∷ rings) = (ring.ring_level ≡ i) × LevelsFrom (suc i) rings

pub LevelsFrom-append :
    (i n : ℕ) (rings : List (Ring Ptr)) (ring : Ring Ptr)
    → LevelsFrom i rings
    → n ≡ length rings
    → ring.ring_level ≡ i + n
    → LevelsFrom i (rings ++ ring ∷ [])
LevelsFrom-append i n [] ring h k e = (omega (arith, e, k), tt)
LevelsFrom-append i n (r ∷ rings) ring (hr, h) k e =
    (hr, LevelsFrom-append (suc i) (length rings) rings ring h refl (omega (arith, e, k)))

-- An id that is long enough for the part of the node in its district.
abbrev pub IsLong : Bytes → Type 0
IsLong id = id_single_start ≤ length id

abbrev pub HasLongId : Node → Type 0
HasLongId node = IsLong node.id

-- No pointer dangles, all ids are long, and the rings are those of the levels below `n`.
pub record IsFormed (n : ℕ) (s : Forming) : Type 0 where
  pub contacts : All (EntryInHeap s.heap) s.contact_nodes
  pub contact_list : All (InHeap s.heap) s.contact_nodes_list
  pub next : All (EntryInHeap s.heap) s.contact_nodes_next
  pub before : NullOrInHeap s.heap s.predecessor
  pub after : NullOrInHeap s.heap s.successor
  pub peers : All (EntryInHeap s.heap) s.peer_set
  pub listed : All (InHeap s.heap) s.peer_list
  pub rings : All (RingIsValid s.heap) s.tables
  pub ids : All HasLongId s.heap
  pub levels : LevelsFrom 0 s.tables
  pub count : length s.tables ≡ n

abbrev pub SourceIsValid : List Node → Source → Type 0
SourceIsValid heap (value node) = HasLongId node
SourceIsValid heap (object p) = InHeap heap p

module _ (heap : List Node) (node : Node) where
  InHeap-grow : (p : Ptr) → InHeap heap p → InHeap (heap ++ node ∷ []) p
  InHeap-grow p h = omega (arith, length-append heap (node ∷ []))

  NullOrInHeap-grow : (p : Option Ptr) → NullOrInHeap heap p → NullOrInHeap (heap ++ node ∷ []) p
  NullOrInHeap-grow none h = h
  NullOrInHeap-grow (some p) h = InHeap-grow p h

  entries-grow : (m : Map Ptr) → All (EntryInHeap heap) m → All (EntryInHeap (heap ++ node ∷ [])) m
  entries-grow m =
      All-mono (EntryInHeap heap) (EntryInHeap (heap ++ node ∷ [])) m (λ e. InHeap-grow e.1)

  pointers-grow : (ps : List Ptr) → All (InHeap heap) ps → All (InHeap (heap ++ node ∷ [])) ps
  pointers-grow ps = All-mono (InHeap heap) (InHeap (heap ++ node ∷ [])) ps InHeap-grow

  RingIsValid-grow : (r : Ring Ptr) → RingIsValid heap r → RingIsValid (heap ++ node ∷ []) r
  RingIsValid-grow r v = record {
    contacts = entries-grow r.contact_nodes v.contacts;
    peers = entries-grow r.peer_set v.peers;
    listed = pointers-grow r.peer_list v.listed;
    before = NullOrInHeap-grow r.predecessor v.before;
    after = NullOrInHeap-grow r.successor v.after;
  }

-- A new object leaves every pointer good.
pub IsFormed-grow :
    {n : ℕ} (s : Forming) (node : Node)
    → HasLongId node
    → IsFormed n s
    → IsFormed n (record s { heap = s.heap ++ node ∷ [] })
IsFormed-grow s node l v = record {
  contacts = entries-grow s.heap node s.contact_nodes v.contacts;
  contact_list = pointers-grow s.heap node s.contact_nodes_list v.contact_list;
  next = entries-grow s.heap node s.contact_nodes_next v.next;
  before = NullOrInHeap-grow s.heap node s.predecessor v.before;
  after = NullOrInHeap-grow s.heap node s.successor v.after;
  peers = entries-grow s.heap node s.peer_set v.peers;
  listed = pointers-grow s.heap node s.peer_list v.listed;
  rings =
      All-mono (RingIsValid s.heap) (RingIsValid (s.heap ++ node ∷ [])) s.tables
        (RingIsValid-grow s.heap node) v.rings;
  ids = All-append HasLongId s.heap (node ∷ []) v.ids (l, tt);
  levels = v.levels;
  count = v.count;
}

pub new_in_heap : (heap : List Node) (node : Node) → InHeap (heap ++ node ∷ []) (length heap)
new_in_heap heap node = omega (arith, length-append heap (node ∷ []))

pub share-IsFormed :
    {n : ℕ} (node : Source) (s : Forming)
    → SourceIsValid s.heap node
    → IsFormed n s
    → IsFormed n (share node s).1
      × InHeap (share node s).1.heap (share node s).0
      × SourceIsValid (share node s).1.heap node
      × (length s.heap ≤ length (share node s).1.heap)
unfolding share
share-IsFormed (value node) s l v =
    (IsFormed-grow s node l v, new_in_heap s.heap node, l, omega (arith, new_in_heap s.heap node))
share-IsFormed (object p) s h v = (v, h, h, omega arith)

-- An inserted entry is in the map, and no other entry is new.
pub insert-All :
    (P : Bytes × Ptr → Type 0) (id : Bytes) (p : Ptr) (m : Map Ptr)
    → P (id, p)
    → All P m
    → All P (insert id p m)
unfolding insert
insert-All P id p [] h hm = (h, tt)
insert-All P id p ((key, q) ∷ m) h (hq, hm) = ground (arith, insert-All P id p m h hm)
