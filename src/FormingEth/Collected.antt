-- ===== src/FormingEth/Collected.antt =====
-- The table that the loops over all ids collect.
use fring.Common.{
  ℕ, ◌+◌, ◌<◌, ◌≡◌, ◌∙◌, arith, inl, inr, true, false, Bool-cases, List, [], ◌∷◌, ◌++◌, Option,
  none, some, length, length-append, get_elem?, get_elem?-append_lt, get_elem?-append_at, All,
  All-append, All-mono, ok, ◌==◌,
}
use fring.Common.Text.{Bytes, beq}
use fring.Node.{Node}
use fring.NodeTable.{Ptr}
use fring.Ids.{Sizes, convert_id_string_to_int}
use fring.Eth.Gossip.{has_number}
use fring.FormingEth.{FormingEth, place_neighbour}

-- the node that is found for an id has this id
abbrev pub IsNamed : Bytes → Option Node → Type 0
IsNamed node_id none = Unit
IsNamed node_id (some node) = node.id ≡ node_id

module _ (id : Bytes) (c : Sizes) (ids : List ℕ) where
  -- a node with a number that was drawn, other than the own node
  abbrev pub IsChosen : Node → Type 0
  IsChosen node =
      (order : ℕ) × (convert_id_string_to_int node.id c ≡ ok order)
      × (has_number order ids ≡ true)
      × (beq node.id id ≡ false)

  abbrev pub Chosen : List Node → Ptr → Type 0
  Chosen heap p = (p < length heap) × (node : Node) × (get_elem? heap p ≡ some node) × IsChosen node

  abbrev pub IsCollected : FormingEth → Type 0
  IsCollected s = All (Chosen s.heap) s.table

  Chosen-grow :
      (heap : List Node) (node : Node) (p : Ptr) → Chosen heap p → Chosen (heap ++ node ∷ []) p
  Chosen-grow heap node p (h, n, e, k) = (
    omega (arith, h, length-append heap (node ∷ [])),
    n,
    get_elem?-append_lt p heap (node ∷ []) h ∙ e,
    k,
  )

  module _ (self_order order : ℕ) where
    pub place_neighbour-IsCollected :
        (found : Option Node) (s : FormingEth) (node_id : Bytes)
        → IsNamed node_id found
        → convert_id_string_to_int node_id c ≡ ok order
        → has_number order ids ≡ true
        → beq node_id id ≡ false
        → IsCollected s
        → IsCollected (place_neighbour self_order order found s)
    unfolding place_neighbour
    place_neighbour-IsCollected none s node_id named e h k v = v
    place_neighbour-IsCollected (some node) s node_id named e h k v =
        let old =
          All-mono (Chosen s.heap) (Chosen (s.heap ++ node ∷ [])) s.table (Chosen-grow s.heap node)
            v in
        let chosen : IsChosen node = rw named (order, e, h, k) in
        let new : Chosen (s.heap ++ node ∷ []) (length s.heap) = (
          omega (arith, length-append s.heap (node ∷ [])),
          node,
          get_elem?-append_at s.heap node [],
          chosen,
        ) in
        elim (Bool-cases (order == self_order + 1)) [
          | inl t ↦ rw t (new, old)
          | inr f ↦ rw f (All-append (Chosen (s.heap ++ node ∷ [])) s.table _ old (new, tt))
        ]
