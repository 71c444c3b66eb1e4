-- ===== src/Forming/Loops.antt =====
-- The loops that form the rings, and the invariant of the variables.
use fring.Common.{
  ℕ, zero, suc, ◌+◌, ◌≤◌, ◌≡◌, refl, sym, arith, List, [], ◌∷◌, ◌++◌, none, some, length,
  length-append, All, All-append, All-get_elem?, get_elem?_lt, Option, ℤ, Result, Fault, Outcome,
  Outcome->>=, ok,
}
use fring.Common.Text.{Bytes}
use fring.Decimal.{setw}
use fring.Decimal.RoundTrip.{setw_fills}
use fring.Node.{Node}
use fring.NodeTable.{Ring, Ptr, deref}
use fring.NodeTable.Access.{InHeap, RingIsValid}
use fring.Params.{id_single_start, id_single_len}
use fring.Forming.{
  Forming, Source, Plan, place_peer, place_member, peer_round, peer_rounds, form_district,
  member_round, member_rounds, unit_rounds, form_ring,
}
use fring.Forming.Valid.{IsFormed, IsLong, HasLongId, LevelsFrom-append}
use fring.Forming.Rounds.{
  Keeps, add_neighbour-Keeps, add_next-Keeps, add_contact-Keeps, add_peer-Keeps, add_member-Keeps,
}

deref_long :
    (heap : List Node) (p : Ptr)
    → InHeap heap p
    → All HasLongId heap
    → (node : Node) × (deref heap p ≡ ok node) × HasLongId node
unfolding deref
deref_long heap p h ids =
    let (node, e) = get_elem?_lt heap p h in (node, rw e refl, All-get_elem? HasLongId heap p ids e)

-- A ring on top.
pub push-IsFormed :
    {n : ℕ} (s : Forming) (ring : Ring Ptr)
    → IsFormed n s
    → RingIsValid s.heap ring
    → ring.ring_level ≡ n
    → IsFormed (suc n) (record s { tables = s.tables ++ ring ∷ [] })
push-IsFormed {n} s ring v r e =
    let top : ring.ring_level ≡ 0 + n = omega (arith, e) in
    ground (
      arith,
      LevelsFrom-append 0 n s.tables ring v.levels (sym v.count) top,
      All-append (RingIsValid s.heap) s.tables (ring ∷ []) v.rings (r, tt),
      length-append s.tables (ring ∷ []),
    )

abbrev pub Found : ℕ → ℕ → Option (Source × Forming) → Type 0
Found bound n none = Unit
Found bound n (some made) = Keeps bound n made.0 made.1

-- What the loops need of the way a node is found: it keeps the invariant, and ends in a fault
-- only as `Faults` allows.
abbrev pub Finds :
    (Fault → Type 0) → (Bytes → Forming → Result (Option (Source × Forming))) → Type 0
Finds Faults node_of =
    (n : ℕ) (id : Bytes) (s : Forming)
    → IsLong id
    → IsFormed n s
    → Outcome Faults (Found (length s.heap) n) (node_of id s)

-- The ids that a plan makes are long.
abbrev pub Fits : Plan → Type 0
Fits plan =
    (contact : Bytes)
    → IsLong contact
    → (rest : Bytes) × (plan.rest_of contact ≡ ok rest)
      × (id_single_start ≤ length plan.until + (plan.len + length rest))

-- the state between two rounds
abbrev pub Between : ℕ → ℕ → Forming → Type 0
Between bound n s = IsFormed n s × (bound ≤ length s.heap)

place_peer-IsFormed :
    {n : ℕ} (id : Bytes) (nodes limit : ℕ) (self : ℤ) (i : ℕ) (s : Forming)
    → IsFormed n s
    → (found : Option (Source × Forming)) → Found (length s.heap) n found
    → IsFormed n (place_peer id nodes limit self i s found)
unfolding place_peer
place_peer-IsFormed id nodes limit self i s v none k = v
place_peer-IsFormed id nodes limit self i s v (some (node, s')) k =
    let contact = add_contact-Keeps node s' k limit i id in
    let neighbour = add_neighbour-Keeps node _ contact nodes self i in
    (add_peer-Keeps node _ neighbour id).0

place_member-Between :
    {n : ℕ} (limit : ℕ) (id : Bytes) (bound : ℕ) (s : Forming)
    → Between bound n s
    → (found : Option (Source × Forming)) → Found (length s.heap) n found
    → Between bound n (place_member limit id s found)
unfolding place_member
place_member-Between limit id bound s b none k = b
place_member-Between limit id bound s b (some (node, s')) k =
    let k' = add_next-Keeps node _ (add_member-Keeps node s' k id) limit id in
    (k'.0, omega (arith, b, k'))

module _ (Faults : Fault → Type 0) (node_of : Bytes → Forming → Result (Option (Source × Forming)))
    (finds : Finds Faults node_of) {n : ℕ} where
  peer_round-IsFormed :
      (until : Bytes) (nodes limit : ℕ) (self : ℤ) (i : ℕ) (s : Forming)
      → id_single_start ≤ length until
      → IsFormed n s
      → Outcome Faults (IsFormed n) (peer_round node_of until nodes limit self i s)
  unfolding peer_round
  peer_round-IsFormed until nodes limit self i s long v =
      let l : IsLong (until ++ setw id_single_len i) =
        omega (arith, long, length-append until (setw id_single_len i)) in
      Outcome->>= Faults (Found (length s.heap) n) (IsFormed n) (node_of _ s) _ (finds n _ s l v)
        (place_peer-IsFormed (until ++ setw id_single_len i) nodes limit self i s v)

  peer_rounds-IsFormed :
      (rounds : ℕ) (until : Bytes) (nodes limit : ℕ) (self : ℤ) (i : ℕ) (s : Forming)
      → id_single_start ≤ length until
      → IsFormed n s
      → Outcome Faults (IsFormed n) (peer_rounds node_of rounds until nodes limit self i s)
  unfolding peer_rounds
  peer_rounds-IsFormed zero until nodes limit self i s long v = v
  peer_rounds-IsFormed (suc rounds) until nodes limit self i s long v =
      Outcome->>= Faults (IsFormed n) (IsFormed n) (peer_round node_of until nodes limit self i s) _
        (peer_round-IsFormed until nodes limit self i s long v)
        (λ s' v'. peer_rounds-IsFormed rounds until nodes limit self (suc i) s' long v')

  member_round-IsFormed :
      (plan : Plan) (i : ℕ) (contact : Ptr) (bound : ℕ) (s : Forming)
      → Fits plan
      → suc contact ≤ bound
      → Between bound n s
      → Outcome Faults
          (Between bound n)
          (member_round node_of plan (plan.until ++ setw plan.len i) contact s)
  unfolding member_round
  member_round-IsFormed plan i contact bound s fits h (v, b) =
      let (node, e, l) = deref_long s.heap contact (omega (arith, h, b)) v.ids in
      let (rest, er, fit) = fits node.id l in
      let id = (plan.until ++ setw plan.len i) ++ rest in
      let long : IsLong id = omega (
        arith,
        fit,
        length-append (plan.until ++ setw plan.len i) rest,
        length-append plan.until (setw plan.len i),
        setw_fills plan.len i,
      ) in
      rw (e, er)
        (Outcome->>= Faults (Found (length s.heap) n) (Between bound n) (node_of id s) _
          (finds n id s long v) (place_member-Between plan.limit id bound s (v, b)))

  member_rounds-IsFormed :
      (plan : Plan) (i : ℕ) (contacts : List Ptr) (bound : ℕ) (s : Forming)
      → Fits plan
      → All (λ p. suc p ≤ bound) contacts
      → Between bound n s
      → Outcome Faults
          (IsFormed n)
          (member_rounds node_of plan (plan.until ++ setw plan.len i) contacts s)
  unfolding member_rounds
  member_rounds-IsFormed plan i [] bound s fits h b = b.0
  member_rounds-IsFormed plan i (contact ∷ contacts) bound s fits (hc, h) b =
      Outcome->>= Faults (Between bound n) (IsFormed n)
        (member_round node_of plan (plan.until ++ setw plan.len i) contact s) _
        (member_round-IsFormed plan i contact bound s fits hc b)
        (λ s' b'. member_rounds-IsFormed plan i contacts bound s' fits h b')

  unit_rounds-IsFormed :
      (rounds i : ℕ) (plan : Plan) (s : Forming)
      → Fits plan
      → IsFormed n s
      → Outcome Faults (IsFormed n) (unit_rounds node_of rounds i plan s)
  unfolding unit_rounds
  unit_rounds-IsFormed zero i plan s fits v = v
  unit_rounds-IsFormed (suc rounds) i plan s fits v =
      Outcome->>= Faults (IsFormed n) (IsFormed n)
        (member_rounds node_of plan (plan.until ++ setw plan.len i) s.contact_nodes_list s) _
        (member_rounds-IsFormed plan i s.contact_nodes_list (length s.heap) s fits v.contact_list
          (v, omega arith))
        (λ s' v'. unit_rounds-IsFormed rounds (suc i) plan s' fits v')

  -- A ring above the others.
  pub form_ring-IsFormed :
      (plan : Plan) (s : Forming)
      → Fits plan
      → plan.ring_level ≡ n
      → IsFormed n s
      → Outcome Faults (IsFormed (suc n)) (form_ring node_of plan s)
  unfolding form_ring
  form_ring-IsFormed plan s fits e v =
      Outcome->>= Faults (IsFormed n) (IsFormed (suc n)) (unit_rounds node_of plan.units 0 plan _) _
        (unit_rounds-IsFormed plan.units 0 plan _ fits (ground (arith, v)))
        (λ s' v'. push-IsFormed s' _ v' (ground (arith, v')) e)

-- The ring of the district, and nothing above it yet.
pub form_district-IsFormed :
    (Faults : Fault → Type 0) (node_of : Bytes → Forming → Result (Option (Source × Forming)))
    (finds : Finds Faults node_of) (until : Bytes) (nodes limit : ℕ) (self : ℤ) (s : Forming)
    → id_single_start ≤ length until
    → IsFormed 0 s
    → Outcome Faults (IsFormed 1) (form_district node_of until nodes limit self s)
unfolding form_district
form_district-IsFormed Faults node_of finds until nodes limit self s long v =
    Outcome->>= Faults (IsFormed 0) (IsFormed 1)
      (peer_rounds node_of nodes until nodes limit self 0 s) _
      (peer_rounds-IsFormed Faults node_of finds nodes until nodes limit self 0 s long v)
      (λ s' v'. push-IsFormed s' _ v' (ground (arith, v')) refl)
