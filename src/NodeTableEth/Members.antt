-- ===== src/NodeTableEth/Members.antt =====
-- Which nodes the routing table of src/node_table_eth.cpp has.
use fring.Common.{
  ◌<◌, ◌≡◌, inl, inr, refl, ◌∙◌, ap, Bool, true, false, ◌||◌, List, [], ◌∷◌, ◌++◌, length,
  get_elem?_lt, All, get_elem?-append_lt, get_elem?-append_at, ok, ◌>>=◌, or_fail, undefined,
  Bool-cases,
}
use fring.Common.Text.{Bytes, beq}
use fring.Node.{Node}
use fring.NodeTable.{Ptr, deref}
use fring.NodeTableEth.{NodeTableEth, add_node_to_table, find_first, is_found, has_node}

-- No pointer of the table dangles.
abbrev pub IsValid : NodeTableEth → Type 0
IsValid t = All (λ p. p < length t.heap) t.table

module _ (heap : List Node) (node : Node) (id : Bytes) where
  abbrev more : List Node
  more = heap ++ node ∷ []

  deref-last : deref more (length heap) ≡ ok node
  deref-last = unfold deref in ap (λ o. or_fail o undefined) (get_elem?-append_at heap node [])

  find_first-append :
      (ps : List Ptr)
      → All (λ p. p < length heap) ps
      → (b : Bool) × ((find_first heap id ps >>= λ found. ok (is_found found)) ≡ ok b)
        × ((find_first more id (ps ++ length heap ∷ []) >>= λ found. ok (is_found found))
            ≡ ok (b || beq node.id id))
  unfolding find_first
  find_first-append [] h = (
    false,
    refl,
    elim (Bool-cases (beq node.id id)) [
      | inl same ↦ rw (deref-last, same) refl
      | inr other ↦ rw (deref-last, other) refl
    ],
  )
  find_first-append (p ∷ ps) (h, hs) =
      let (n, e) = get_elem?_lt heap p h in
      let at_heap : deref heap p ≡ ok n = unfold deref in rw e refl in
      let at_more : deref more p ≡ ok n =
        unfold deref in
        ap (λ o. or_fail o undefined) (get_elem?-append_lt p heap (node ∷ []) h ∙ e) in
      let (b, eb, em) = find_first-append ps hs in
      elim (Bool-cases (beq n.id id)) [
        | inl same ↦ (true, rw (at_heap, same) refl, rw (at_more, same) refl)
        | inr other ↦ (b, rw (at_heap, other) eb, rw (at_more, other) em)
      ]

-- After a node is added to a routing table with no dangling pointer, the table has an id exactly if it had
-- it before or it is the node's.
pub has_node-add_node_to_table :
    (t : NodeTableEth) (node : Node) (id : Bytes)
    → IsValid t
    → (b : Bool) × (has_node t id ≡ ok b)
      × (has_node (add_node_to_table t node) id ≡ ok (b || beq node.id id))
unfolding has_node add_node_to_table
has_node-add_node_to_table t node id v = find_first-append t.heap node id t.table v
