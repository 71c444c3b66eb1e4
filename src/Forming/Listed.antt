-- ===== src/Forming/Listed.antt =====
-- The vector of the district's ring and the numbers of its peers.
use fring.Common.{
  ℕ, zero, suc, ◌+◌, ◌<◌, ◌≤◌, ◌≡◌, ◌⊎◌, refl, ap, arith, inl, inr, Bool, true, false, Bool-cases,
  List, [], ◌∷◌, ◌++◌, none, some, Option, length, length-append, get_elem?, get_elem?-append_lt,
  get_elem?-append_at, ◌∙◌, ℤ, pos, ◌+ℤ◌, ◌-ℤ◌, eq_ℤ, ◌&&◌, Result, Fault, Outcome, Outcome->>=,
  if◌then◌else◌, ltb,
}
use fring.Common.Text.{Bytes}
use fring.Decimal.{setw}
use fring.Node.{Node}
use fring.NodeTable.{Ring, Ptr}
use fring.Params.{id_single_len}
use fring.Forming.{
  Forming, Source, value, object, share, set_predecessor, set_successor, add_contact, add_neighbour,
  nothing_formed, add_peer, place_peer, peer_round, peer_rounds, form_district,
}
use fring.Forming.Neighbours.{Names, SourceNames, Names-grow, Made, AllFound}

pub appended : {A : Type 0} (xs ys new : List A) → xs ≡ ys → xs ++ new ≡ ys ++ new
appended xs ys new e = ap (λ l. l ++ new) e

-- the chain of tests in `add_neighbour`
choose :
    (P : Forming → Type 0) (a b c d : Bool) (x y z : Forming)
    → P x
    → P y
    → P z
    → P (if a then x else if b then y else if c then y else if d then x else z)
choose P true b c d x y z px py pz = px
choose P false true c d x y z px py pz = py
choose P false false true d x y z px py pz = py
choose P false false false true x y z px py pz = px
choose P false false false false x y z px py pz = pz

module _ (until : Bytes) where
  abbrev number : ℕ → Bytes
  number i = until ++ setw id_single_len i

  -- the first `n` places
  abbrev pub Lists : ℕ → List Node → List Ptr → Type 0
  Lists n heap ps =
      (length ps ≡ n)
      × ((j : ℕ) → j < n → (p : Ptr) × (get_elem? ps j ≡ some p) × Names heap p (number j))

  pub Lists-grow :
      (n : ℕ) (heap : List Node) (node : Node) (ps : List Ptr)
      → Lists n heap ps
      → Lists n (heap ++ node ∷ []) ps
  Lists-grow n heap node ps (e, h) =
      (e, λ j l. let (p, f, w) = h j l in (p, f, Names-grow heap node p (number j) w))

  Lists-append :
      (n : ℕ) (heap : List Node) (q : Ptr) (ps : List Ptr)
      → Lists n heap ps
      → Names heap q (number n)
      → Lists (suc n) heap (ps ++ q ∷ [])
  Lists-append n heap q ps (e, h) w =
      (omega (arith, e, length-append ps (q ∷ [])), λ j l. at j l (Bool-cases (ltb j n)))
    where
      at :
          (j : ℕ)
          → j < suc n
          → (ltb j n ≡ true) ⊎ (ltb j n ≡ false)
          → (p : Ptr) × (get_elem? (ps ++ q ∷ []) j ≡ some p) × Names heap p (number j)
      at j l (inl t) =
          let (p, f, v) = h j (ground arith) in
          (p, get_elem?-append_lt j ps (q ∷ []) (ground arith) ∙ f, v)
      at j l (inr f) =
          let j' : j ≡ length ps = ground arith in
          let n' : n ≡ j = ground arith in (q, rw j' (get_elem?-append_at ps q []), rw n' at w)

  -- the vector so far, and a node with the number `i`
  abbrev Listed : ℕ → Forming → Type 0
  Listed n s = (s.tables ≡ []) × Lists n s.heap s.peer_list

  abbrev With : ℕ → ℕ → Source → Forming → Type 0
  With n i node s = Listed n s × SourceNames s.heap node (number i)

  shared :
      (n i : ℕ) (node : Source) (s : Forming)
      → With n i node s
      → With n i node (share node s).1 × Names (share node s).1.heap (share node s).0 (number i)
  unfolding share
  shared n i (value m) s ((t, h), e) = (
    ((t, Lists-grow n s.heap m s.peer_list h), e),
    (omega (arith, length-append s.heap (m ∷ [])), m, get_elem?-append_at s.heap m [], e),
  )
  shared n i (object p) s (h, e) = ((h, e), e)

  add_contact-With :
      (n i limit k : ℕ) (id : Bytes) (node : Source) (s : Forming)
      → With n i node s
      → With n i node (add_contact limit k id node s)
  unfolding add_contact
  add_contact-With n i limit k id node s h = elim (Bool-cases (ltb k limit)) [
    | inl e ↦ rw e ((shared n i node _ (shared n i node s h).0).0)
    | inr e ↦ rw e h
  ]

  add_neighbour-With :
      (n i nodes k : ℕ) (self : ℤ) (node : Source) (s : Forming)
      → With n i node s
      → With n i node (add_neighbour nodes self k node s)
  unfolding add_neighbour
  add_neighbour-With n i nodes k self node s h =
      choose (With n i node) (eq_ℤ self (pos 0) && eq_ℤ (pos k) (pos nodes -ℤ pos 1))
        (eq_ℤ self (pos nodes -ℤ pos 1) && eq_ℤ (pos k) (pos 0)) (eq_ℤ (pos k) (self +ℤ pos 1))
        (eq_ℤ (pos k) (self -ℤ pos 1)) (set_predecessor node s) (set_successor node s) s
        (shared n i node s h).0 (shared n i node s h).0 h

  add_peer-Lists :
      (n : ℕ) (id : Bytes) (node : Source) (s : Forming)
      → With n n node s
      → Listed (suc n) (add_peer id node s)
  unfolding add_peer
  add_peer-Lists n id node s h =
      let w = shared n n node _ (shared n n node s h).0 in
      (w.0.0.0, Lists-append n _ _ _ w.0.0.1 w.1)

  module _ (Faults : Fault → Type 0)
      (node_of : Bytes → Forming → Result (Option (Source × Forming))) (nodes limit : ℕ) (self : ℤ)
      (all : AllFound Faults node_of until nodes) where
    place_peer-Listed :
        (i : ℕ) (s : Forming)
        → Listed i s
        → (found : Option (Source × Forming)) → Made (number i) s found
        → Listed (suc i) (place_peer (number i) nodes limit self i s found)
    unfolding place_peer
    place_peer-Listed i s w none made = absurd made
    place_peer-Listed i s w (some (node, s')) (ep, es, eh, el, et, d) =
        let w' : Listed i s' = rw (eh, el, et) w in
        add_peer-Lists i (number i) node _ (
          add_neighbour-With i i nodes i self node _
            (add_contact-With i i limit i (number i) node s' (w', d)))

    peer_rounds-Listed :
        (rounds i : ℕ) (s : Forming)
        → i + rounds ≤ nodes
        → Listed i s
        → Outcome Faults
            (Listed (i + rounds))
            (peer_rounds node_of rounds until nodes limit self i s)
    unfolding peer_rounds peer_round
    peer_rounds-Listed zero i s b w = let i' : i + 0 ≡ i = omega arith in rw i' w
    peer_rounds-Listed (suc rounds) i s b w =
        let i' : i + suc rounds ≡ suc i + rounds = omega arith in
        rw i' (
          Outcome->>= Faults (Listed (suc i)) (Listed (suc i + rounds))
            (peer_round node_of until nodes limit self i s) _
            (Outcome->>= Faults (Made (number i) s) (Listed (suc i)) (node_of _ s) _
              (all i s (omega (arith, b))) (place_peer-Listed i s w))
            (λ s' w'. peer_rounds-Listed rounds (suc i) s' (omega (arith, b)) w'))

  -- the first ring of the tables, at whatever level they end
  abbrev pub First : ℕ → Forming → Type 0
  First nodes s =
      (ring : Ring Ptr) × (rest : List (Ring Ptr)) × (s.tables ≡ ring ∷ rest)
      × Lists nodes s.heap ring.peer_list

  pub form_district-First :
      (Faults : Fault → Type 0) (node_of : Bytes → Forming → Result (Option (Source × Forming)))
      → (nodes limit : ℕ) (self : ℤ) → AllFound Faults node_of until nodes
      → Outcome Faults (First nodes) (form_district node_of until nodes limit self nothing_formed)
  unfolding form_district
  form_district-First Faults node_of nodes limit self all =
      Outcome->>= Faults (Listed (0 + nodes)) (First nodes)
        (peer_rounds node_of nodes until nodes limit self 0 nothing_formed) _
        (peer_rounds-Listed Faults node_of nodes limit self all nodes 0 nothing_formed (omega arith)
          (refl, (refl, λ j l. absurd (omega (arith, l)))))
        (λ s w.
          let z : 0 + nodes ≡ nodes = omega arith in
          let w' : Listed nodes s = rw z at w in (_, [], appended s.tables [] _ w'.0, w'.1))
