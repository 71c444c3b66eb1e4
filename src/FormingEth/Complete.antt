-- ===== src/FormingEth/Complete.antt =====
-- The neighbours that are placed in the table stay in it.
use mathlib.Core.Path.{subst}
use fring.Common.{
  ◌⊎◌, append-nil, length-append, ℕ, ◌+◌, ◌<◌, ◌≡◌, ◌∙◌, refl, arith, inl, inr, Bool-cases, List,
  [], ◌∷◌, ◌++◌, some, length, get_elem?, get_elem?-append_lt, get_elem?-append_at, ◌==◌,
}
use fring.Common.Text.{Bytes}
use fring.Node.{Node}
use fring.NodeTable.{Ptr}
use fring.FormingEth.{FormingEth, place_neighbour}

-- one of the pointers
abbrev pub Exists : (Ptr → Type 0) → List Ptr → Type 0
Exists P [] = ⊥
Exists P (p ∷ ps) = P p ⊎ Exists P ps

Exists-last : (P : Ptr → Type 0) (ps : List Ptr) (p : Ptr) → P p → Exists P (ps ++ p ∷ [])
Exists-last P [] p h = inl h
Exists-last P (q ∷ ps) p h = inr (Exists-last P ps p h)

Exists-front :
    (P Q : Ptr → Type 0) (ps qs : List Ptr)
    → ((p : Ptr) → P p → Q p)
    → Exists P ps
    → Exists Q (ps ++ qs)
Exists-front P Q [] qs f h = absurd h
Exists-front P Q (p ∷ ps) qs f (inl h) = inl (f p h)
Exists-front P Q (p ∷ ps) qs f (inr h) = inr (Exists-front P Q ps qs f h)

-- A node with the id is in the table.
abbrev pub IsNode : List Node → Bytes → Ptr → Type 0
IsNode heap x p = (node : Node) × (p < length heap) × (get_elem? heap p ≡ some node) × (node.id ≡ x)

abbrev pub Holds : Bytes → FormingEth → Type 0
Holds x s = Exists (IsNode s.heap x) s.table

module _ (self_order order : ℕ) (node : Node) (s : FormingEth) where
  abbrev pub placed : FormingEth
  placed = place_neighbour self_order order (some node) s

  IsNode-grow : (x : Bytes) (p : Ptr) → IsNode s.heap x p → IsNode (s.heap ++ node ∷ []) x p
  IsNode-grow x p (n, l, e, d) = (
    n,
    omega (arith, l, length-append s.heap (node ∷ [])),
    get_elem?-append_lt p s.heap (node ∷ []) l ∙ e,
    d,
  )

  pub place_neighbour-keeps : (x : Bytes) → Holds x s → Holds x placed
  unfolding place_neighbour
  place_neighbour-keeps x h = elim (Bool-cases (order == self_order + 1)) [
    | inl front ↦ rw front (inr (grown x h))
    | inr back ↦ rw back (Exists-front _ _ s.table _ (IsNode-grow x) h)
  ]
    where
      grown : (x : Bytes) → Holds x s → Exists (IsNode (s.heap ++ node ∷ []) x) s.table
      grown x h =
          subst (Exists (IsNode (s.heap ++ node ∷ []) x)) (append-nil s.table)
            (Exists-front _ _ s.table [] (IsNode-grow x) h)

  pub place_neighbour-Holds : Holds node.id placed
  unfolding place_neighbour
  place_neighbour-Holds =
      let new : IsNode (s.heap ++ node ∷ []) node.id (length s.heap) = (
        node,
        omega (arith, length-append s.heap (node ∷ [])),
        get_elem?-append_at s.heap node [],
        refl,
      ) in
      elim (Bool-cases (order == self_order + 1)) [
        | inl front ↦ rw front (inl new)
        | inr back ↦ rw back (Exists-last (IsNode (s.heap ++ node ∷ []) node.id) s.table _ new)
      ]
