-- ===== src/App/Ordinary.antt =====
-- The nodes of a district that are not among its contact nodes form no ring above it.
use fring.Common.{
  ℕ, zero, suc, ◌<◌, ◌≡◌, refl, ◌∙◌, ap, arith, Bool, true, false, if◌then◌else◌, ltb, [], ◌∷◌,
  ◌++◌, none, some, Option, ℤ, ok, Result, Outcome, Outcome->>=, Any, Outcome-Any, add_int, ltb→lt,
}
use fring.Common.Text.{Bytes, beq}
use fring.Decimal.{setw}
use fring.NodeTable.{Map, Ptr, lookup, insert}
use fring.Ids.{Sizes, convert_id_string_to_int}
use fring.Params.{id_single_len}
use fring.Node.{Node}
use fring.Forming.{
  Forming, Source, value, share, add_contact, add_neighbour, add_peer, place_peer, peer_round,
  peer_rounds, form_district,
}
use fring.App.{Counts, local_node, level_ring, continent_ring, upper_rings}

lookup-insert_other :
    (id other : Bytes) (p : Ptr) (m : Map Ptr)
    → beq other id ≡ false
    → lookup id (insert other p m) ≡ lookup id m
unfolding lookup insert
lookup-insert_other id other p [] h = rw h refl
lookup-insert_other id other p ((key, q) ∷ m) h = ground (arith, lookup-insert_other id other p m h)

-- Where the node is not a contact node, its map stays without it.
place_peer-contacts :
    (id : Bytes) (nodes limit : ℕ) (self : ℤ) (i : ℕ) (node : Node) (s : Forming)
    → (place_peer id nodes limit self i s (some (value node, s))).contact_nodes ≡ (
        if ltb i limit then insert id (share (value node) s).0 s.contact_nodes else s.contact_nodes)
unfolding place_peer add_peer add_neighbour add_contact share
place_peer-contacts id nodes limit self i node s = ground arith

module _ (clock : ℕ → ℕ) (iterate : Map Ptr → Map Ptr) (c : Sizes) (starting_port_number : ℕ)
    (until own : Bytes) (limit : ℕ)
    (other : (i : ℕ) → i < limit → beq (until ++ setw id_single_len i) own ≡ false) where
  abbrev node_of : Bytes → Forming → Result (Option (Source × Forming))
  node_of = local_node clock iterate c starting_port_number

  abbrev Ordinary : Forming → Type 0
  Ordinary s = lookup own s.contact_nodes ≡ none

  place_peer-Ordinary :
      (nodes : ℕ) (self : ℤ) (i : ℕ) (node : Node) (s : Forming)
      → Ordinary s
      → Ordinary
          (place_peer (until ++ setw id_single_len i) nodes limit self i s (some (value node, s)))
  place_peer-Ordinary nodes self i node s h =
      ap (lookup own)
        (place_peer-contacts (until ++ setw id_single_len i) nodes limit self i node s)
      ∙ (cases (ltb i limit) (λ e. other i (ltb→lt i limit e)))
    where
      cases :
          (b : Bool)
          → (b ≡ true → beq (until ++ setw id_single_len i) own ≡ false)
          → lookup own (
              if b
              then insert (until ++ setw id_single_len i) (share (value node) s).0 s.contact_nodes
              else s.contact_nodes)
            ≡ none
      cases true f =
          lookup-insert_other own (until ++ setw id_single_len i) _ s.contact_nodes (f refl) ∙ h
      cases false f = h

  peer_round-Ordinary :
      (nodes : ℕ) (self : ℤ) (i : ℕ) (s : Forming)
      → Ordinary s
      → Outcome Any Ordinary (peer_round node_of until nodes limit self i s)
  unfolding peer_round local_node place_peer
  peer_round-Ordinary nodes self i s h =
      let id = until ++ setw id_single_len i in
      Outcome->>= Any (λ found. Ordinary (place_peer id nodes limit self i s found)) Ordinary
        (node_of id s) _
        (Outcome->>= Any (λ order. Unit)
          (λ found. Ordinary (place_peer id nodes limit self i s found))
          (convert_id_string_to_int id c) _ (Outcome-Any (convert_id_string_to_int id c))
          λ order _.
            Outcome->>= Any (λ port. Unit)
              (λ found. Ordinary (place_peer id nodes limit self i s found))
              (add_int starting_port_number order) _
              (Outcome-Any (add_int starting_port_number order))
              (λ port _. place_peer-Ordinary nodes self i _ (record s { ticks = suc s.ticks }) h))
        (λ found h'. h')

  peer_rounds-Ordinary :
      (rounds nodes : ℕ) (self : ℤ) (i : ℕ) (s : Forming)
      → Ordinary s
      → Outcome Any Ordinary (peer_rounds node_of rounds until nodes limit self i s)
  unfolding peer_rounds
  peer_rounds-Ordinary zero nodes self i s h = h
  peer_rounds-Ordinary (suc rounds) nodes self i s h =
      Outcome->>= Any Ordinary Ordinary (peer_round node_of until nodes limit self i s) _
        (peer_round-Ordinary nodes self i s h)
        (λ s' h'. peer_rounds-Ordinary rounds nodes self (suc i) s' h')

  pub form_district-Ordinary :
      (nodes : ℕ) (self : ℤ) (s : Forming)
      → Ordinary s
      → Outcome Any Ordinary (form_district node_of until nodes limit self s)
  unfolding form_district
  form_district-Ordinary nodes self s h =
      Outcome->>= Any Ordinary Ordinary (peer_rounds node_of nodes until nodes limit self 0 s) _
        (peer_rounds-Ordinary nodes nodes self 0 s h) (λ s' h'. h')

-- Without the own id among the contact nodes, or with no city, nothing is formed above the district.
pub upper_rings-none :
    (clock : ℕ → ℕ) (iterate : Map Ptr → Map Ptr) (id : Bytes) (c : Sizes)
    (starting_port_number : ℕ) (k : Counts) (s : Forming)
    → lookup id s.contact_nodes ≡ none
    → upper_rings clock iterate id c starting_port_number k s ≡ ok s
unfolding upper_rings level_ring continent_ring
upper_rings-none clock iterate id c starting_port_number k s h = rw h (ground arith)
