-- ===== src/AppEth/Formed.antt =====
-- The routing table that `form_structure` makes.
use fring.Common.{
  ℕ, ◌+◌, ◌<◌, ◌≡◌, refl, sym, ◌∙◌, ap, arith, ok, All, List, [], add_int, int_mod, inl, inr, true,
  false, Bool-cases, ok_injective, Result, some,
}
use fring.Common.Text.{Bytes, beq}
use fring.Node.{make_node}
use fring.NodeTableEth.{NodeTableEth, set_table}
use fring.Ids.{Sizes, Parts, print_parts, convert_id_string_to_int}
use fring.Peer.State.{Env}
use fring.Forming.Valid.{IsLong}
use fring.FormingEth.{Grid, FormingEth, grid_of, neighbour_ids, visit, visit_all, place_neighbour}
use fring.FormingEth.Collected.{Chosen, IsCollected, place_neighbour-IsCollected}
use fring.FormingEth.Loops.{Within, Brings, continents-keeps, continents-reaches}
use fring.FormingEth.Complete.{Exists, IsNode, Holds, place_neighbour-keeps, place_neighbour-Holds}
use fring.Eth.Gossip.{has_number}
use fring.App.{localhost}
use fring.App.Plans.{own_parts-ok}
use fring.AppEth.{local_neighbour, form_structure}

-- Each id of the grid is read as a number that gives a port.
abbrev pub HasPorts : Sizes → Grid → ℕ → Type 0
HasPorts c g starting_port_number =
    (p : Parts)
    → Within c g p
    → (order : ℕ) × (convert_id_string_to_int (print_parts p) c ≡ ok order)
      × (starting_port_number + order < int_mod)

-- The id is read as one of the drawn numbers and is not the own one.
abbrev pub IsWanted : Bytes → Sizes → List ℕ → Bytes → Type 0
IsWanted id c ids node_id =
    (order : ℕ) × (convert_id_string_to_int node_id c ≡ ok order)
    × (has_number order ids ≡ true)
    × (beq node_id id ≡ false)

module _ (env : Env) (id : Bytes) (c : Sizes) (starting_port_number : ℕ) (g : Grid) (self_order : ℕ)
    (ids : List ℕ) (ports : HasPorts c g starting_port_number) where
  abbrev call : Parts → FormingEth → Result FormingEth
  call = visit (local_neighbour env starting_port_number) id c self_order ids

  -- what one visit does
  abbrev Visits : Parts → FormingEth → FormingEth → Type 0
  Visits p s s' =
      (call p s ≡ ok s')
      × (IsCollected id c ids s → IsCollected id c ids s')
      × ((x : Bytes) → Holds x s → Holds x s')
      × (IsWanted id c ids (print_parts p) → Holds (print_parts p) s')

  visit_lem : (p : Parts) → Within c g p → (s : FormingEth) → (s' : FormingEth) × Visits p s s'
  unfolding visit local_neighbour
  visit_lem p w s =
      let (order, e, small) = ports p w in
      let node =
        make_node (env.clock s.ticks) (print_parts p) localhost (starting_port_number + order) in
      let port : add_int starting_port_number order ≡ ok (starting_port_number + order) =
        ground (arith, small) in
      elim (Bool-cases (has_number order ids)) [
        | inr undrawn ↦ (
          s,
          (
            rw (e, undrawn) refl,
            λ v. v,
            λ x h. h,
            λ (order', e', drawn, other). absurd (
                let same : order ≡ order' = ok_injective (sym e ∙ e') in
                let both : false ≡ true = sym undrawn ∙ (ap (λ n. has_number n ids) same ∙ drawn) in
                cc),
          ),
        )
        | inl drawn ↦ elim (Bool-cases (beq (print_parts p) id)) [
          | inl own ↦ (
            s,
            (
              rw (e, drawn, own) refl,
              λ v. v,
              λ x h. h,
              λ (order', e', drawn', other).
                  absurd (let both : true ≡ false = sym own ∙ other in cc),
            ),
          )
          | inr other ↦ (
            place_neighbour self_order order (some node) s,
            (
              rw (e, drawn, other, port) refl,
              place_neighbour-IsCollected id c ids self_order order (some node) s (print_parts p)
                  refl e drawn other,
              place_neighbour-keeps self_order order node s,
              λ wanted. place_neighbour-Holds self_order order node s,
            ),
          )
        ]
      ]

  collects :
      (p : Parts) → Within c g p → Brings (IsCollected id c ids) (IsCollected id c ids) (call p)
  collects p w s v = let (s', (e, keeps, _, _)) = visit_lem p w s in (s', e, keeps v)

  holds : (x : Bytes) (p : Parts) → Within c g p → Brings (Holds x) (Holds x) (call p)
  holds x p w s h = let (s', (e, _, keeps, _)) = visit_lem p w s in (s', e, keeps x h)

  reaches :
      (p : Parts)
      → Within c g p
      → IsWanted id c ids (print_parts p)
      → Brings (IsCollected id c ids) (Holds (print_parts p)) (call p)
  reaches p w wanted s v = let (s', (e, _, _, hit)) = visit_lem p w s in (s', e, hit wanted)

-- The routing table that a node gets, once the numbers of its neighbours are drawn, if each id of the
-- grid is read as a number that gives a port: forming it returns, it holds no dangling pointer, each
-- of its nodes is another one whose number is among those drawn, and every id of the grid that is
-- read as a drawn number and is not the own one has a node in it.
pub form_structure_eth_lem :
    (env : Env) (fuel draws : ℕ) (id : Bytes) (c : Sizes) (starting_port_number : ℕ)
    (t : NodeTableEth) (g : Grid) (self_order draws' : ℕ) (ids : List ℕ)
    → IsLong id
    → grid_of c ≡ ok g
    → convert_id_string_to_int id c ≡ ok self_order
    → neighbour_ids env.rand g.num_nodes_total self_order fuel draws ≡ ok (ids, draws')
    → HasPorts c g starting_port_number
    → (t' : NodeTableEth) × (form_structure env fuel draws id c starting_port_number t ≡ ok t')
      × All (Chosen id c ids t'.heap) t'.table
      × ((p : Parts)
          → Within c g p
          → IsWanted id c ids (print_parts p)
          → Exists (IsNode t'.heap (print_parts p)) t'.table)
unfolding form_structure set_table visit_all
form_structure_eth_lem env fuel draws id c starting_port_number t g self_order draws' ids long eg es
      ed ports =
    let start : FormingEth = record { table = []; heap = []; ticks = 0 } in
    let visits = call env id c starting_port_number g self_order ids ports in
    let step = collects env id c starting_port_number g self_order ids ports in
    let (s, e, collected) = continents-keeps c g visits (IsCollected id c ids) step start tt in
    (
      set_table t s.table s.heap,
      rw (own_parts-ok id long, eg, es, ed, e) refl,
      collected,
      λ p w wanted.
          let (s', e', held) =
            continents-reaches c g visits (IsCollected id c ids) (Holds (print_parts p)) p w step
              (holds env id c starting_port_number g self_order ids ports (print_parts p))
              (reaches env id c starting_port_number g self_order ids ports p w wanted) start tt in
          let same : s' ≡ s = ok_injective (sym e' ∙ e) in rw same at held,
    )
