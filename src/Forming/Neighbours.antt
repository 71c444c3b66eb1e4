-- ===== src/Forming/Neighbours.antt =====
-- The predecessor and the successor that the loop of the district finds.
use fring.Common.{
  ℕ, zero, suc, ◌+◌, ◌-◌, ◌≤◌, ◌<◌, ◌≡◌, ◌≢◌, ◌∙◌, arith, inl, inr, Bool-cases, List, [], ◌∷◌, ◌++◌,
  Option, none, some, length, length-append, get_elem?, get_elem?-append_lt, get_elem?-append_at,
  pos, Result, Fault, Outcome, Outcome->>=, ltb, ◌==◌, if◌then◌else◌,
}
use fring.Common.Text.{Bytes}
use fring.Decimal.{setw}
use fring.Node.{Node}
use fring.NodeTable.{Ptr}
use fring.Params.{id_single_len}
use fring.Forming.{
  Forming, Source, value, object, share, set_predecessor, set_successor, add_contact, add_neighbour,
  nothing_formed, add_peer, place_peer, peer_round, peer_rounds, form_district,
}

-- The pointer is to an object with this id.
abbrev pub Names : List Node → Ptr → Bytes → Type 0
Names heap p id =
    (p < length heap) × (node : Node) × (get_elem? heap p ≡ some node) × (node.id ≡ id)

abbrev pub PointsTo : List Node → Option Ptr → Bytes → Type 0
PointsTo heap none id = ⊥
PointsTo heap (some p) id = Names heap p id

abbrev pub SourceNames : List Node → Source → Bytes → Type 0
SourceNames heap (value node) id = node.id ≡ id
SourceNames heap (object p) id = Names heap p id

pub Names-grow :
    (heap : List Node) (node : Node) (p : Ptr) (id : Bytes)
    → Names heap p id
    → Names (heap ++ node ∷ []) p id
Names-grow heap node p id (h, n, e, d) = (
  omega (arith, h, length-append heap (node ∷ [])),
  n,
  get_elem?-append_lt p heap (node ∷ []) h ∙ e,
  d,
)

PointsTo-grow :
    (heap : List Node) (node : Node) (p : Option Ptr) (id : Bytes)
    → PointsTo heap p id
    → PointsTo (heap ++ node ∷ []) p id
PointsTo-grow heap node none id h = absurd h
PointsTo-grow heap node (some p) id h = Names-grow heap node p id h

-- Before round `i`: the neighbours with a smaller number are found.
module _ (prev next : ℕ) (until : Bytes) where
  abbrev pub named : ℕ → Bytes
  named i = until ++ setw id_single_len i

  abbrev pub Holds : ℕ → Forming → Type 0
  Holds i s =
      (prev < i → PointsTo s.heap s.predecessor (named prev))
      × (next < i → PointsTo s.heap s.successor (named next))

  abbrev HoldsWith : ℕ → Source → Bytes → Forming → Type 0
  HoldsWith i node id s = Holds i s × SourceNames s.heap node id

  shared :
      (i : ℕ) (node : Source) (id : Bytes) (s : Forming)
      → HoldsWith i node id s
      → HoldsWith i node id (share node s).1 × Names (share node s).1.heap (share node s).0 id
  unfolding share
  shared i (value n) id s ((hp, hs), e) = (
    (
      (
        λ b. PointsTo-grow s.heap n s.predecessor (named prev) (hp b),
        λ b. PointsTo-grow s.heap n s.successor (named next) (hs b),
      ),
      e,
    ),
    (omega (arith, length-append s.heap (n ∷ [])), n, get_elem?-append_at s.heap n [], e),
  )
  shared i (object p) id s (h, e) = ((h, e), e)

  module _ (i : ℕ) (node : Source) (id : Bytes) where
    add_contact-Holds :
        (limit : ℕ) (s : Forming)
        → HoldsWith i node id s
        → HoldsWith i node id (add_contact limit i id node s)
    unfolding add_contact
    add_contact-Holds limit s h = elim (Bool-cases (ltb i limit)) [
      | inl e ↦ rw e ((shared i node id _ (shared i node id s h).0).0)
      | inr e ↦ rw e h
    ]

    add_peer-Holds :
        (s : Forming) → HoldsWith i node id s → HoldsWith i node id (add_peer id node s)
    unfolding add_peer
    add_peer-Holds s h = (shared i node id _ (shared i node id s h).0).0

  -- The node with the number `i` is the predecessor, the successor, or neither.
  module _ (i : ℕ) (node : Source) (s : Forming) (h : HoldsWith i node (named i) s)
      (differ : prev ≢ next) where
    found_predecessor : i ≡ prev → HoldsWith (suc i) node (named i) (set_predecessor node s)
    found_predecessor e =
        let (((hp, hs), m), p) = shared i node (named i) s h in
        let p' : Names (share node s).1.heap (share node s).0 (named prev) = rw e at p in
        ((λ b. p', λ b. hs (omega (arith, b, differ, e))), m)

    found_successor : i ≡ next → HoldsWith (suc i) node (named i) (set_successor node s)
    found_successor e =
        let (((hp, hs), m), p) = shared i node (named i) s h in
        let p' : Names (share node s).1.heap (share node s).0 (named next) = rw e at p in
        ((λ b. hp (omega (arith, b, differ, e)), λ b. p'), m)

    found_neither : i ≢ prev → i ≢ next → HoldsWith (suc i) node (named i) s
    found_neither e f = ((λ b. h.0.0 (omega (arith, b, e)), λ b. h.0.1 (omega (arith, b, f))), h.1)

-- the numbers of the neighbours in a ring of `n`
abbrev pub before : ℕ → ℕ → ℕ
before n k = if k == 0 then n - 1 else k - 1

abbrev pub after : ℕ → ℕ → ℕ
after n k = if k == n - 1 then 0 else k + 1

add_neighbour_lem :
    (n k i : ℕ) (node : Source) (s : Forming)
    → 3 ≤ n
    → k < n
    → i < n
    → add_neighbour n (pos k) i node s ≡ (
        if i == before n k
        then set_predecessor node s
        else if i == after n k
        then set_successor node s
        else s)
unfolding add_neighbour
add_neighbour_lem n k i node s h l m = ground arith

abbrev pub Made : Bytes → Forming → Option (Source × Forming) → Type 0
Made id s none = ⊥
Made id s (some made) =
    (made.1.predecessor ≡ s.predecessor)
    × (made.1.successor ≡ s.successor)
    × (made.1.heap ≡ s.heap)
    × (made.1.peer_list ≡ s.peer_list)
    × (made.1.tables ≡ s.tables)
    × SourceNames made.1.heap made.0 id

-- What the ring needs of the way a node is found: each id of the district has a node, whose making
-- leaves the variables alone.
abbrev pub AllFound :
    (Fault → Type 0) → (Bytes → Forming → Result (Option (Source × Forming))) → Bytes → ℕ → Type 0
AllFound Faults node_of until nodes =
    (i : ℕ) (s : Forming)
    → i < nodes
    → Outcome Faults (Made (until ++ setw id_single_len i) s)
        (node_of (until ++ setw id_single_len i) s)

module _ (Faults : Fault → Type 0) (node_of : Bytes → Forming → Result (Option (Source × Forming)))
    (until : Bytes) (n k limit : ℕ) (all : AllFound Faults node_of until n) (h : 3 ≤ n)
    (l : k < n) where
  abbrev Ahead : ℕ → Forming → Type 0
  Ahead = Holds (before n k) (after n k) until

  abbrev AheadWith : ℕ → Source → ℕ → Forming → Type 0
  AheadWith i node j s =
      HoldsWith (before n k) (after n k) until i node (until ++ setw id_single_len j) s

  add_neighbour-Holds :
      (i : ℕ) (node : Source) (s : Forming)
      → i < n
      → AheadWith i node i s
      → AheadWith (suc i) node i (add_neighbour n (pos k) i node s)
  add_neighbour-Holds i node s m w =
      rw (add_neighbour_lem n k i node s h l m) (elim (Bool-cases (i == before n k)) [
        | inl e ↦ rw e (found_predecessor _ _ until i node s w differ (ground arith))
        | inr e ↦ rw e (elim (Bool-cases (i == after n k)) [
          | inl f ↦ rw f (found_successor _ _ until i node s w differ (ground arith))
          | inr f ↦ rw f (found_neither _ _ until i node s w differ (ground arith) (ground arith))
        ])
      ])
    where
      differ : before n k ≢ after n k
      differ e = ground arith

  place_peer-Holds :
      (i : ℕ) (s : Forming)
      → i < n
      → Ahead i s
      → (found : Option (Source × Forming)) → Made (until ++ setw id_single_len i) s found
      → Ahead (suc i) (place_peer (until ++ setw id_single_len i) n limit (pos k) i s found)
  unfolding place_peer
  place_peer-Holds i s m w none made = absurd made
  place_peer-Holds i s m w (some (node, s')) (ep, es, eh, el, et, d) =
      let id = until ++ setw id_single_len i in
      let w' : Ahead i s' = rw (ep, es, eh) w in
      let c = add_contact-Holds _ _ until i node id limit s' (w', d) in
      let b = add_neighbour-Holds i node (add_contact limit i id node s') m c in
      (add_peer-Holds _ _ until (suc i) node id _ b).0

  peer_rounds-Holds :
      (rounds i : ℕ) (s : Forming)
      → i + rounds ≡ n
      → Ahead i s
      → Outcome Faults (Ahead n) (peer_rounds node_of rounds until n limit (pos k) i s)
  unfolding peer_rounds peer_round
  peer_rounds-Holds zero i s e w = let i' : i ≡ n = omega (arith, e) in rw i' at w
  peer_rounds-Holds (suc rounds) i s e w =
      Outcome->>= Faults (Ahead (suc i)) (Ahead n) (peer_round node_of until n limit (pos k) i s) _
        (Outcome->>= Faults (Made (until ++ setw id_single_len i) s) (Ahead (suc i)) (node_of _ s) _
          (all i s (omega (arith, e))) (place_peer-Holds i s (omega (arith, e)) w))
        (λ s' w'. peer_rounds-Holds rounds (suc i) s' (omega (arith, e)) w')

-- In a district of three nodes at least, the loop finds both neighbours of a node in the cycle of
-- the numbers.
pub form_district-PointsTo :
    (Faults : Fault → Type 0) (node_of : Bytes → Forming → Result (Option (Source × Forming)))
    (n k limit : ℕ) (until : Bytes)
    → AllFound Faults node_of until n
    → 3 ≤ n
    → k < n
    → Outcome Faults
        (λ s.
          PointsTo s.heap s.predecessor (until ++ setw id_single_len (before n k))
          × PointsTo s.heap s.successor (until ++ setw id_single_len (after n k)))
        (form_district node_of until n limit (pos k) nothing_formed)
unfolding form_district
form_district-PointsTo Faults node_of n k limit until all h l =
    Outcome->>= Faults (Holds (before n k) (after n k) until n) _
      (peer_rounds node_of n until n limit (pos k) 0 nothing_formed) _
      (peer_rounds-Holds Faults node_of until n k limit all h l n 0 nothing_formed (omega arith)
        (λ b. absurd (omega (arith, b)), λ b. absurd (omega (arith, b))))
      (λ s w. (w.0 (ground arith), w.1 (ground arith)))
