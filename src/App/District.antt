-- ===== src/App/District.antt =====
-- The ring of the district in the node table that `form_structure` sets, as a broadcast meets it.
use fring.Common.{
  add_int, int_mod, ℕ, zero, suc, ◌+◌, ◌^◌, ◌≤◌, ◌<◌, ◌≡◌, ◌≢◌, refl, sym, ◌∙◌, ap, arith, inl, inr,
  Bool, true, false, Bool-cases, List, [], ◌∷◌, ◌++◌, none, some, Option, length, length-append,
  take, take-append, drop-append, drop, get_elem?, pos, ok, returns, ◌⊎◌, Result,
}
use fring.Common.Text.{Bytes, beq, beq_iff}
use mathlib.Core.List.{Perm}
use fring.Decimal.{setw, extract_int}
use fring.Decimal.RoundTrip.{length-setw, extract_int-setw}
use fring.Node.{Node}
use fring.NodeTable.{
  NodeTable, Map, Ptr, Ring, lookup, deref, set_tables, ring_at, ring_checked, is_above, peer_at,
  index_in, size_minus_one-suc, get_peer_list_size, get_node_id_in_vector, get_peer_by_order,
}
use fring.NodeTable.Access.{IsValid, is_above_below}
use fring.Ids.{Sizes}
use fring.Params.{id_single_start, id_single_len}
use fring.Peer.Within.{RingView}
use fring.Forming.{Forming, nothing_formed, form_district}
use fring.Forming.Listed.{Lists, First, form_district-First}
use fring.App.{Counts, counts, local_node, form_rings, form_structure, upper_rings}
use fring.App.Neighbours.{HasPorts, local_node-found}
use fring.App.Plans.{own_parts-ok}
use fring.App.Formed.{form_structure_lem}
use fring.App.Ordinary.{form_district-Ordinary, upper_rings-none}

-- whether the node at a place of the vector has the id
abbrev At : List Node → Bytes → List Ptr → ℕ → Bool → Type 0
At heap id ps j answer =
    (p : Ptr) × (node : Node) × (get_elem? ps j ≡ some p)
    × (get_elem? heap p ≡ some node)
    × (beq node.id id ≡ answer)

-- the search for an id in the vector, where the first place that has it is `k` places on
index_in-first :
    (heap : List Node) (id : Bytes) (ps : List Ptr) (i k : ℕ)
    → i + k < int_mod
    → ((j : ℕ) → j < k → At heap id ps j false)
    → At heap id ps k true
    → index_in heap id ps i ≡ ok (pos (i + k))
unfolding index_in deref
index_in-first heap id [] i k fits others (p, node, e, f, same) = cc
index_in-first heap id (q ∷ ps) i zero fits others (p, node, e, f, same) =
    let f' : get_elem? heap q ≡ some node = cc in
    let z : i ≡ i + 0 = omega arith in rw (f', same) (ap (λ n. ok (pos n)) z)
index_in-first heap id (q ∷ ps) i (suc k) fits others own =
    let (p, node, e, f, other) = others 0 (omega arith) in
    let f' : get_elem? heap q ≡ some node = cc in
    let z : i + 1 + k ≡ i + suc k = omega arith in
    let counted : add_int i 1 ≡ ok (i + 1) = ground arith in
    let rest =
      index_in-first heap id ps (i + 1) k (omega (arith, fits))
        (λ j l. others (suc j) (omega (arith, l))) own in
    rw (f', other, counted) (rest ∙ ap (λ n. ok (pos n)) z)

-- The ids of two places differ.
module _ (until : Bytes) where
  abbrev number : ℕ → Bytes
  number j = until ++ setw id_single_len j

  number-injective : (j k : ℕ) → j < 10 ^ 9 → k < 10 ^ 9 → number j ≡ number k → j ≡ k
  number-injective j k h l e =
      let parts : setw id_single_len j ≡ setw id_single_len k =
        sym (drop-append until (setw id_single_len j))
        ∙ ap (drop (length until)) e
        ∙ drop-append until (setw id_single_len k) in
      let same : pos j ≡ pos k =
        sym (extract_int-setw id_single_len j (omega (arith, h)))
        ∙ ap extract_int parts
        ∙ extract_int-setw id_single_len k (omega (arith, l)) in
      ground arith

  length-number : (j : ℕ) → length until ≡ id_single_start → j < 10 ^ 9 → length (number j) ≡ 32
  length-number j e h =
      omega
        (arith, e, length-append until (setw id_single_len j), length-setw 8 j (omega (arith, h)))

  -- the node at a place of the vector, and another one where there is none
  abbrev or_node : Node → Option Node → Node
  or_node node none = node
  or_node node (some n) = n

  abbrev node_behind : List Node → Node → Option Ptr → Node
  node_behind heap node none = node
  node_behind heap node (some p) = or_node node (get_elem? heap p)

  abbrev pub node_at : List Node → List Ptr → Node → ℕ → Node
  node_at heap ps node j = node_behind heap node (get_elem? ps j)

  node_at_lem :
      (heap : List Node) (ps : List Ptr) (node n : Node) (j p : ℕ)
      → get_elem? ps j ≡ some p
      → get_elem? heap p ≡ some n
      → node_at heap ps node j ≡ n
  node_at_lem heap ps node n j p e f = ap (node_behind heap node) e ∙ ap (or_node node) f

  module _ (t : NodeTable) (v : IsValid t) (ring : Ring Ptr) (rest : List (Ring Ptr))
      (first : t.tables ≡ ring ∷ rest) (end : ℕ)
      (lists : Lists until (suc end) t.heap ring.peer_list) (node : Node) (k : ℕ) (inside : k ≤ end)
      (few : end < 10 ^ 9) (own : node.id ≡ number k) (long : length until ≡ id_single_start) where
    abbrev at_place : ℕ → Node
    at_place = node_at t.heap ring.peer_list node

    below : is_above t 0 ≡ false
    below = is_above_below t v.some_ring v.sized 0 v.some_ring

    place :
        (j : ℕ)
        → j ≤ end
        → (p : Ptr) × (get_elem? ring.peer_list j ≡ some p)
          × (get_elem? t.heap p ≡ some (at_place j))
          × ((at_place j).id ≡ number j)
    place j l =
        let (p, e, (_, n, f, d)) = lists.1 j (omega (arith, l)) in
        let same = node_at_lem t.heap ring.peer_list node n j p e f in
        (p, e, f ∙ ap (λ m. some m) (sym same), ap (λ m. m.id) same ∙ d)

    answer :
        (j : ℕ)
        → j ≤ end
        → (b : Bool) → beq (number j) node.id ≡ b
        → At t.heap node.id ring.peer_list j b
    answer j l b h = let (p, e, f, d) = place j l in (p, at_place j, e, f, rw d h)

    other : (j : ℕ) → j < k → At t.heap node.id ring.peer_list j false
    other j l =
        answer j (omega (arith, l, inside)) false (elim (Bool-cases (beq (number j) node.id)) [
          | inl same ↦ absurd (
              differ (
                number-injective j k (omega (arith, l, inside, few)) (omega (arith, inside, few))
                  ((beq_iff _ _).0 same ∙ own)))
          | inr f ↦ f
        ])
      where
        differ : j ≢ k
        differ e = omega (arith, e, l)

    searched : index_in t.heap node.id ring.peer_list 0 ≡ ok (pos k)
    searched =
        let z : 0 + k ≡ k = omega arith in
        let found =
          index_in-first t.heap node.id ring.peer_list 0 k (omega (arith, inside, few)) other
            (answer k inside true ((beq_iff _ _).1 (sym own))) in
        found ∙ ap (λ n. ok (pos n)) z

    pub district-RingView : RingView node t 0 k end at_place
    unfolding ring_at ring_checked get_peer_list_size get_node_id_in_vector get_peer_by_order
        peer_at deref
    district-RingView = record {
      known = omega arith;
      size = rw (below, first, lists.0) (ap ok (size_minus_one-suc end (omega (arith, few))));
      place = rw (below, first) searched;
      inside = inside;
      peer = λ j l. let (p, e, f, d) = place j l in rw (below, first, e, f) refl;
      id = λ j l.
          let (p, e, f, d) = place j l in rw d (length-number j long (omega (arith, l, few)));
      own_id = rw own (length-number k long (omega (arith, inside, few)));
      other = λ j l ne e.
          let (p, _, f, d) = place j l in
          ne (
            number-injective j k (omega (arith, l, few)) (omega (arith, inside, few))
              (sym d ∙ e ∙ own));
    }

-- A node that is no contact node of its district, or whose network is a single district, for there
-- is no city: no ring is formed above the one of the district.
abbrev pub IsLow : Sizes → ℕ → Type 0
IsLow c k = (c.num_nodes_in_city ≡ 0) ⊎ (c.num_cnodes_in_dist ≤ k)

module _ (clock : ℕ → ℕ) (iterate : Map Ptr → Map Ptr) (until : Bytes) (k end : ℕ) (c : Sizes)
    (starting_port_number : ℕ) (node : Node) (units : Counts) (e : length until ≡ 23)
    (own : node.id ≡ until ++ setw id_single_len k) (n : c.num_nodes_in_dist ≡ suc end)
    (l : k ≤ end) (few : end < 10 ^ 9) (counted : counts c ≡ ok units)
    (ports : HasPorts clock iterate c starting_port_number until c.num_nodes_in_dist)
    (low : IsLow c k) where
  abbrev district : Result Forming
  district =
      form_district (local_node clock iterate c starting_port_number) until c.num_nodes_in_dist
        c.num_cnodes_in_dist (extract_int (take id_single_len (drop id_single_start node.id)))
        nothing_formed

  nothing_above :
      (s : Forming)
      → district ≡ ok s
      → upper_rings clock iterate node.id c starting_port_number units s ≡ ok s
  nothing_above s made = elim low [
    | inl city ↦ unfold upper_rings in rw city refl
    | inr below ↦
        upper_rings-none clock iterate node.id c starting_port_number units s (ordinary below)
  ]
    where
      other :
          c.num_cnodes_in_dist ≤ k
          → (i : ℕ) → i < c.num_cnodes_in_dist
          → beq (until ++ setw id_single_len i) node.id ≡ false
      other below i h = elim (Bool-cases (beq (until ++ setw id_single_len i) node.id)) [
        | inl same ↦ absurd (
            differ (
              number-injective until i k (omega (arith, h, below, l, few)) (omega (arith, l, few))
                ((beq_iff _ _).0 same ∙ own)))
        | inr f ↦ f
      ]
        where
          differ : i ≢ k
          differ same = omega (arith, same, h, below)

      ordinary : c.num_cnodes_in_dist ≤ k → lookup node.id s.contact_nodes ≡ none
      ordinary below = rw made at (
          form_district-Ordinary clock iterate c starting_port_number until node.id
            c.num_cnodes_in_dist (other below) c.num_nodes_in_dist
            (extract_int (take id_single_len (drop id_single_start node.id))) nothing_formed
            (unfold lookup in refl))

  long : id_single_start ≤ length node.id
  long = rw own (omega (arith, e, length-append until (setw id_single_len k)))

  until_own : take id_single_start node.id ≡ until
  until_own =
      ap (take id_single_start) own
      ∙ ap (λ m. take m (until ++ setw id_single_len k)) (sym e)
      ∙ take-append until (setw id_single_len k)

  form_rings-district :
      (s : Forming)
      → district ≡ ok s
      → form_rings clock iterate node.id c starting_port_number ≡ ok s
  unfolding form_rings
  form_rings-district s made =
      rw (own_parts-ok node.id long, counted, until_own, made) (nothing_above s made)

  -- The node with the number `k` of a district of up to 10^9 nodes whose ids have ports, where it is
  -- no contact node or the network is a single district: forming the rings ends with a valid node
  -- table in which the node sees the ring of its district as a broadcast needs it, with
  -- `c.num_nodes_in_dist` peers whose ids have 32 bytes, itself at the place `k` and nowhere else, and
  -- at each place the node with the number of the place. The counts of units must be defined.
  pub form_structure-RingView :
      ((m : Map Ptr) → Perm (iterate m) m)
      → (t : NodeTable)
      → (t' : NodeTable) × (node_at : ℕ → Node) × (form_structure clock iterate node.id c
            starting_port_number t
          ≡ ok t')
        × IsValid t'
        × RingView node t' 0 k end node_at
        × ((j : ℕ) → j ≤ end → (node_at j).id ≡ until ++ setw id_single_len j)
  unfolding form_structure set_tables
  form_structure-RingView order t =
      let node_of = local_node clock iterate c starting_port_number in
      let (s, made, (ring, rest, first, listed)) =
        returns (First until c.num_nodes_in_dist) district (
          form_district-First until (λ f. ⊥) node_of c.num_nodes_in_dist c.num_cnodes_in_dist
            (extract_int (take id_single_len (drop id_single_start node.id)))
            (local_node-found clock iterate c starting_port_number until c.num_nodes_in_dist
              ports)) in
      let w : Lists until (suc end) s.heap ring.peer_list = rw n at listed in
      let t' : NodeTable = record t { tables = s.tables; heap = s.heap } in
      let formed : form_structure clock iterate node.id c starting_port_number t ≡ ok t' =
        rw (form_rings-district s made) refl in
      let good =
        rw formed at
          (form_structure_lem clock iterate order node.id c starting_port_number t long) in
      (
        t',
        node_at until t'.heap ring.peer_list node,
        formed,
        good.0,
        district-RingView until t' good.0 ring rest first end w node k l few own e,
        λ j m. (place until t' good.0 ring rest first end w node k l few own e j m).3,
      )
