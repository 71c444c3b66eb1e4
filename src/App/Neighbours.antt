-- ===== src/App/Neighbours.antt =====
-- The neighbours in the district that `form_structure` gives to a node.
use fring.Common.{
  ℕ, zero, suc, ◌+◌, ◌≤◌, ◌<◌, ◌≡◌, refl, ◌∙◌, arith, none, some, ◌++◌, Option, Outcome,
  Outcome->>=, returns, Result, ok, int_mod, List, pos, add_int, ℤ,
}
use fring.Common.Text.{Bytes}
use fring.Decimal.{setw}
use fring.NodeTable.{Map, Ptr, Ring}
use fring.Ids.{Sizes, convert_id_string_to_int}
use fring.Params.{id_single_len}
use fring.Forming.{
  Forming, Source, value, object, nothing_formed, share, add_contact, add_neighbour, add_peer,
  place_peer, peer_round, peer_rounds, form_district,
}
use fring.Forming.Neighbours.{Made, AllFound, PointsTo, before, after, form_district-PointsTo}
use fring.App.{local_node}

add_contact_frame :
    (limit i : ℕ) (id : Bytes) (node : Source) (s : Forming)
    → ((add_contact limit i id node s).predecessor ≡ s.predecessor)
      × ((add_contact limit i id node s).successor ≡ s.successor)
unfolding add_contact share
add_contact_frame limit i id (value n) s = ground arith
add_contact_frame limit i id (object p) s = ground arith

add_peer_frame :
    (id : Bytes) (node : Source) (s : Forming)
    → ((add_peer id node s).predecessor ≡ s.predecessor)
      × ((add_peer id node s).successor ≡ s.successor)
unfolding add_peer share
add_peer_frame id (value n) s = ground arith
add_peer_frame id (object p) s = ground arith

-- In a ring of two, the first node meets no number for its successor, the second none for its
-- predecessor.
first_successor :
    (i : ℕ) (node : Source) (s : Forming)
    → i < 2
    → (add_neighbour 2 (pos 0) i node s).successor ≡ s.successor
unfolding add_neighbour share
first_successor i (value n) s h = ground arith
first_successor i (object p) s h = ground arith

second_predecessor :
    (i : ℕ) (node : Source) (s : Forming)
    → i < 2
    → (add_neighbour 2 (pos 1) i node s).predecessor ≡ s.predecessor
unfolding add_neighbour share
second_predecessor i (value n) s h = ground arith
second_predecessor i (object p) s h = ground arith

first_round :
    (limit i : ℕ) (id : Bytes) (s : Forming) (found : Option (Source × Forming))
    → i < 2
    → Made id s found
    → (place_peer id 2 limit (pos 0) i s found).successor ≡ s.successor
unfolding place_peer
first_round limit i id s none h made = absurd made
first_round limit i id s (some (node, s')) h (ep, es, eh, el, et, d) =
    (add_peer_frame id node _).1
    ∙ first_successor i node _ h
    ∙ (add_contact_frame limit i id node s').1
    ∙ es

second_round :
    (limit i : ℕ) (id : Bytes) (s : Forming) (found : Option (Source × Forming))
    → i < 2
    → Made id s found
    → (place_peer id 2 limit (pos 1) i s found).predecessor ≡ s.predecessor
unfolding place_peer
second_round limit i id s none h made = absurd made
second_round limit i id s (some (node, s')) h (ep, es, eh, el, et, d) =
    (add_peer_frame id node _).0
    ∙ second_predecessor i node _ h
    ∙ (add_contact_frame limit i id node s').0
    ∙ ep

module _ (clock : ℕ → ℕ) (iterate : Map Ptr → Map Ptr) (c : Sizes) (starting_port_number : ℕ)
    (until : Bytes) where
  abbrev node_of : Bytes → Forming → Result (Option (Source × Forming))
  node_of = local_node clock iterate c starting_port_number

  -- Each id of the district is read as a number that gives a port.
  abbrev pub HasPorts : ℕ → Type 0
  HasPorts nodes =
      (i : ℕ)
      → i < nodes
      → (order : ℕ) × (convert_id_string_to_int (until ++ setw id_single_len i) c ≡ ok order)
        × (starting_port_number + order < int_mod)

  pub local_node-found : (nodes : ℕ) → HasPorts nodes → AllFound (λ f. ⊥) node_of until nodes
  unfolding local_node
  local_node-found nodes ports i s l =
      let (order, e, small) = ports i l in
      let f : add_int starting_port_number order ≡ ok (starting_port_number + order) =
        ground (arith, small) in
      rw (e, f) (refl, refl, refl, refl, refl, refl)

  -- The ring of a district of three nodes or more whose ids have ports is a cycle: the node with the
  -- number `k` gets the predecessor with the number before and the successor with the number after
  -- it, round the end.
  pub form_district-cycle :
      (n k limit : ℕ)
      → 3 ≤ n
      → k < n
      → HasPorts n
      → (s : Forming) × (form_district
            (local_node clock iterate c starting_port_number)
            until
            n
            limit
            (pos k)
            nothing_formed
          ≡ ok s)
        × PointsTo s.heap s.predecessor (until ++ setw id_single_len (before n k))
        × PointsTo s.heap s.successor (until ++ setw id_single_len (after n k))
  form_district-cycle n k limit h l ports =
      let (s, e, w) =
        returns _ (form_district node_of until n limit (pos k) nothing_formed) (
          form_district-PointsTo (λ f. ⊥) node_of n k limit until (local_node-found n ports) h l) in
      (s, e, w.0, w.1)

  -- what a round leaves alone, the loop leaves at null
  pair_rounds :
      (limit : ℕ) (self : ℤ) (side : Forming → Option Ptr)
      → HasPorts 2
      → ((i : ℕ) (s : Forming) (found : Option (Source × Forming))
          → i < 2
          → Made (until ++ setw id_single_len i) s found
          → side (place_peer (until ++ setw id_single_len i) 2 limit self i s found) ≡ side s)
      → (rounds i : ℕ) (s : Forming) → i + rounds ≤ 2
      → side s ≡ none
      → Outcome (λ f. ⊥) (λ s'. side s' ≡ none) (peer_rounds node_of rounds until 2 limit self i s)
  unfolding peer_rounds peer_round
  pair_rounds limit self side ports keeps zero i s h e = e
  pair_rounds limit self side ports keeps (suc rounds) i s h e =
      let id = until ++ setw id_single_len i in
      Outcome->>= (λ f. ⊥) (λ s'. side s' ≡ none) (λ s'. side s' ≡ none)
        (peer_round node_of until 2 limit self i s) _
        (Outcome->>= (λ f. ⊥) (Made id s) (λ s'. side s' ≡ none) (node_of id s) _
          (local_node-found 2 ports i s (omega (arith, h)))
          (λ found made. keeps i s found (omega (arith, h)) made ∙ e))
        (λ s' e'. pair_rounds limit self side ports keeps rounds (suc i) s' (omega (arith, h)) e')

  pair_side :
      (limit : ℕ) (self : ℤ) (side : Forming → Option Ptr)
      → HasPorts 2
      → ((i : ℕ) (s : Forming) (found : Option (Source × Forming))
          → i < 2
          → Made (until ++ setw id_single_len i) s found
          → side (place_peer (until ++ setw id_single_len i) 2 limit self i s found) ≡ side s)
      → side nothing_formed ≡ none
      → ((s : Forming) (tables : List (Ring Ptr)) → side (record s { tables = tables }) ≡ side s)
      → (s : Forming) × (form_district node_of until 2 limit self nothing_formed ≡ ok s)
        × (side s ≡ none)
  unfolding form_district
  pair_side limit self side ports keeps start only =
      returns (λ s. side s ≡ none) (form_district node_of until 2 limit self nothing_formed)
        (Outcome->>= (λ f. ⊥) (λ s. side s ≡ none) (λ s. side s ≡ none)
          (peer_rounds node_of 2 until 2 limit self 0 nothing_formed) _
          (pair_rounds limit self side ports keeps 2 0 nothing_formed (omega arith) start)
          (λ s e. only s _ ∙ e))

  -- A district of two nodes whose ids have ports is no cycle: its first node gets no successor and
  -- its second no predecessor, a null pointer.
  pub form_district_pair :
      (limit : ℕ)
      → HasPorts 2
      → ((s : Forming) × (form_district
              (local_node clock iterate c starting_port_number)
              until
              2
              limit
              (pos 0)
              nothing_formed
            ≡ ok s)
          × (s.successor ≡ none))
        × ((s : Forming) × (form_district
                (local_node clock iterate c starting_port_number)
                until
                2
                limit
                (pos 1)
                nothing_formed
              ≡ ok s)
            × (s.predecessor ≡ none))
  form_district_pair limit ports = (
    pair_side limit (pos 0) (λ s. s.successor) ports
        (λ i s found. first_round limit i (until ++ setw id_single_len i) s found) refl
        (λ s tables. refl),
    pair_side limit (pos 1) (λ s. s.predecessor) ports
        (λ i s found. second_round limit i (until ++ setw id_single_len i) s found) refl
        (λ s tables. refl),
  )
