-- ===== src/NodeTable/Order.antt =====
-- The position of a peer in the vector of its ring, and the peer at a position.
use fring.Common.{
  ℕ, suc, ◌+◌, ◌-◌, ◌<◌, ◌≤◌, ◌≡◌, ◌⊎◌, inl, inr, refl, arith, true, false, List, [], ◌∷◌, none,
  some, length, get_elem?, ℤ, pos, negsuc, Result, ok, err, undefined, Bool-cases, Option-cases,
  add_int, ltb, ltb→le, ltb→lt, >>=-eq-ok,
}
use fring.Common.Text.{Bytes, beq, beq_iff}
use fring.Node.{Node, get_id}
use fring.NodeTable.{
  NodeTable, Ring, Ptr, deref, copy_node, ring_at, ring_checked, is_above, get_successor,
  get_peer_by_order, index_in, get_node_id_in_vector, peer_at,
}
use fring.NodeTable.Access.{
  IsValid, RingIsValid, is_above_below, is_above_beyond, deref_in_heap, ring_below,
}

-- The `i`-th pointer of the list leads to a node with this id, and no earlier one does.
abbrev FoundAt : List Node → Bytes → List Ptr → ℕ → Type 0
FoundAt heap id ps i =
    (p : Ptr) × (n : Node) × (get_elem? ps i ≡ some p) × (get_elem? heap p ≡ some n) × (n.id ≡ id)

deref-eq-ok :
    (heap : List Node) (p : Ptr) {n : Node} → deref heap p ≡ ok n → get_elem? heap p ≡ some n
unfolding deref
deref-eq-ok heap p e = ground arith

add_int-suc : (i : ℕ) {i' : ℕ} → add_int i 1 ≡ ok i' → i' ≡ i + 1
add_int-suc i {i'} e = ground arith

index_in_found :
    (heap : List Node) (id : Bytes) (ps : List Ptr) (i j : ℕ)
    → index_in heap id ps i ≡ ok (pos j)
    → (i ≤ j) × FoundAt heap id ps (j - i)
unfolding index_in
index_in_found heap id [] i j e = cc
index_in_found heap id (p ∷ ps) i j e =
    let (n, en, body) = >>=-eq-ok (deref heap p) _ e in
    elim (Bool-cases (beq (get_id n) id)) [
      | inl same ↦ here n en same (rw same at body)
      | inr other ↦
          (let (i', counted, found) = >>=-eq-ok (add_int i 1) _ (rw other at body) in
            later i' (add_int-suc i counted) (index_in_found heap id ps i' j found))
    ]
  where
    here :
        (n : Node)
        → deref heap p ≡ ok n
        → beq n.id id ≡ true
        → ◌≡◌ {A = Result ℤ} (ok (pos i)) (ok (pos j))
        → (i ≤ j) × FoundAt heap id (p ∷ ps) (j - i)
    here n en same body =
        let k : i ≡ j = ground arith in
        let z : j - i ≡ 0 = omega (arith, k) in
        (omega (arith, k), rw z (p, n, refl, deref-eq-ok heap p en, (beq_iff _ _).0 same))

    later :
        (i' : ℕ)
        → i' ≡ i + 1
        → (i' ≤ j) × FoundAt heap id ps (j - i')
        → (i ≤ j) × FoundAt heap id (p ∷ ps) (j - i)
    later i' e (h, f) =
        let z : j - i ≡ suc (j - i') = omega (arith, e, h) in (omega (arith, e, h), rw z f)

ring_at_of_checked :
    (t : NodeTable) (level : ℕ) {r : Ring Ptr}
    → ring_checked t level ≡ ok r
    → ring_at t level ≡ ok r
unfolding ring_at ring_checked
ring_at_of_checked t level e = ground arith

-- The position of a node's id is the position of a peer with that id: reading the ring's vector
-- there gives a copy of such a peer.
pub get_peer_by_order-get_node_id_in_vector :
    (t : NodeTable) (level : ℕ) (id : Bytes) (i : ℕ)
    → IsValid t
    → get_node_id_in_vector t level id ≡ ok (pos i)
    → (n : Node) × (get_peer_by_order t level (pos i) ≡ ok (some n)) × (n.id ≡ id)
unfolding get_node_id_in_vector get_peer_by_order
get_peer_by_order-get_node_id_in_vector t level id i v e = elim (Bool-cases (is_above t level)) [
  | inl above ↦ absurd (let e' : ok (negsuc 0) ≡ ok (pos i) = rw above at e in cc)
  | inr below ↦ found below (>>=-eq-ok (ring_checked t level) _ (rw below at e))
]
  where
    found :
        is_above t level ≡ false
        → (r : Ring Ptr) × (ring_checked t level ≡ ok r)
          × (index_in t.heap id r.peer_list 0 ≡ ok (pos i))
        → (n : Node) × (get_peer_by_order t level (pos i) ≡ ok (some n)) × (n.id ≡ id)
    found below (r, er, ei) =
        let (h, (p, n, ep, en, same)) = index_in_found t.heap id r.peer_list 0 i ei in
        let er' : ring_at t level ≡ ok r = ring_at_of_checked t level er in
        let z : i - 0 ≡ i = omega arith in
        let at_i : get_elem? r.peer_list i ≡ some p = rw z at ep in
        let ep' : peer_at r (pos i) ≡ ok p = unfold peer_at in rw at_i refl in
        let en' : deref t.heap p ≡ ok n = unfold deref in rw en refl in
        (n, rw (below, er', ep', en') refl, same)

successor-InHeap :
    (heap : List Node) (r : Ring Ptr) {p : Ptr}
    → RingIsValid heap r
    → r.successor ≡ some p
    → p < length heap
successor-InHeap heap r w s = rw s at w.after

-- At a level that a valid table has, `get_successor` gives a copy of the ring's successor, and where the
-- successor is null it copies through the null pointer, which is undefined behaviour; at any other level
-- it gives the null pointer.
get_successor_lem :
    (t : NodeTable) (level : ℕ)
    → IsValid t
    → ((length t.tables ≤ level) × (get_successor t level ≡ ok none))
      ⊎ ((r : Ring Ptr) × (get_elem? t.tables level ≡ some r)
          × (((r.successor ≡ none) × (get_successor t level ≡ err undefined))
              ⊎ ((p : Ptr) × (n : Node) × (r.successor ≡ some p)
                  × (deref t.heap p ≡ ok n)
                  × (get_successor t level ≡ ok (some n)))))
unfolding get_successor copy_node
get_successor_lem t level v = elim (Bool-cases (ltb level (length t.tables))) [
  | inr beyond ↦
      inl (
        ltb→le _ _ beyond,
        rw (is_above_beyond t v.some_ring v.sized level (ltb→le _ _ beyond)) refl,
      )
  | inl inside ↦ inr (at_level (ltb→lt _ _ inside))
]
  where
    at_level :
        level < length t.tables
        → (r : Ring Ptr) × (get_elem? t.tables level ≡ some r)
          × (((r.successor ≡ none) × (get_successor t level ≡ err undefined))
              ⊎ ((p : Ptr) × (n : Node) × (r.successor ≡ some p)
                  × (deref t.heap p ≡ ok n)
                  × (get_successor t level ≡ ok (some n))))
    at_level h =
        let (r, e, w) = ring_below v level h in
        let below : is_above t level ≡ false = is_above_below t v.some_ring v.sized level h in
        let found : ring_checked t level ≡ ok r = unfold ring_checked in rw e refl in
        (
          r,
          e,
          elim (Option-cases r.successor) [
            | inl null ↦ inl (null, rw (below, found, null) refl)
            | inr (p, s) ↦
                (let (n, d) = deref_in_heap t.heap p (successor-InHeap t.heap r w s) in
                  inr (p, n, s, d, rw (below, found, s, d) refl))
          ],
        )
