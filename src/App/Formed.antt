-- ===== src/App/Formed.antt =====
-- The node table that `form_structure` makes.
use mathlib.Core.List.{Perm}
use fring.Common.{
  ℕ, suc, ◌≤◌, ◌<◌, ◌≡◌, inl, refl, arith, Fault, Outcome, Outcome->>=, Outcome-err, Outcome-mono,
  err, undefined, length, drop, take, length-take, Result, add_int,
}
use fring.Common.Text.{Bytes}
use fring.Decimal.{extract_int}
use fring.NodeTable.{NodeTable, Map, Ptr, set_tables}
use fring.NodeTable.Access.{IsValid}
use fring.Ids.{Sizes, convert_id_string_to_int}
use fring.Params.{id_single_start, id_single_len}
use fring.Forming.{Forming, Plan, nothing_formed, form_district, form_ring}
use fring.Forming.Valid.{IsFormed, IsLong, LevelsFrom}
use fring.Forming.Loops.{Finds, Fits, form_ring-IsFormed, Found, form_district-IsFormed}
use fring.Forming.Exchange.{exchange-IsFormed}
use fring.Forming.Stages.{Stage, Top, level-Stage, climb, Top-IsValid}
use fring.App.{
  Counts, counts, local_node, level_ring, continent_ring, upper_rings, form_rings, form_structure,
  dist_plan, city_plan, state_plan, country_plan, continent_plan,
}
use fring.App.Plans.{
  dist_plan-Fits, city_plan-Fits, state_plan-Fits, country_plan-Fits, continent_plan-Fits,
  own_parts-ok,
}
use fring.App.Faults.{convert_id_string_to_int_fault}

-- an `int` over its bounds, or a division by zero
abbrev Arithmetic : Fault → Type 0
Arithmetic fault = fault ≡ undefined

local_node-Finds :
    (clock : ℕ → ℕ) (iterate : Map Ptr → Map Ptr) (c : Sizes) (starting_port_number : ℕ)
    → Finds Arithmetic (local_node clock iterate c starting_port_number)
unfolding local_node
local_node-Finds clock iterate c starting_port_number n id s long v =
    Outcome->>= Arithmetic (λ order. Unit) (Found (length s.heap) n) (convert_id_string_to_int id c)
      _
      (Outcome-err Arithmetic (convert_id_string_to_int id c)
        (λ f. convert_id_string_to_int_fault id c f long))
      λ order _.
        Outcome->>= Arithmetic (λ port. Unit) (Found (length s.heap) n)
          (add_int starting_port_number order) _
          (Outcome-err Arithmetic (add_int starting_port_number order) (λ f e. ground arith))
          (λ port _. ground arith)

module _ (clock : ℕ → ℕ) (iterate : Map Ptr → Map Ptr) (order : (m : Map Ptr) → Perm (iterate m) m)
    (id : Bytes) (long : IsLong id) (c : Sizes) (starting_port_number : ℕ) where
  finds : Finds Arithmetic (local_node clock iterate c starting_port_number)
  finds = local_node-Finds clock iterate c starting_port_number

  abbrev Above : (n : ℕ) → Result Forming → Type 0
  Above n = Outcome Arithmetic (Stage id n)

  level_ring-Stage :
      (n : ℕ) (plan : Plan) (s : Forming)
      → Fits plan
      → plan.ring_level ≡ n
      → 0 < n
      → Stage id n s
      → Above (suc n) (level_ring clock iterate id c starting_port_number plan s)
  unfolding level_ring
  level_ring-Stage n plan s fits e h =
      level-Stage Arithmetic id n s _
        (λ v.
          Outcome->>= Arithmetic (IsFormed (suc n)) (IsFormed (suc n))
            (form_ring (local_node clock iterate c starting_port_number) plan s) _
            (form_ring-IsFormed Arithmetic _ finds plan s fits e v)
            (λ s' v'. exchange-IsFormed iterate order s' v'))
        h

  continent_ring-Top :
      (s : Forming)
      → Stage id 5 s
      → Outcome Arithmetic (Top id) (continent_ring clock iterate id c starting_port_number s)
  unfolding continent_ring
  continent_ring-Top s stage =
      Outcome-mono Arithmetic (Stage id 6) (Top id)
        (continent_ring clock iterate id c starting_port_number s)
        (level-Stage Arithmetic id 5 s _
          (form_ring-IsFormed Arithmetic _ finds (continent_plan c) s (continent_plan-Fits c) refl)
          (omega arith) stage)
        (λ s' stage'. (6, omega arith, omega arith, stage'))

  upper_rings-Top :
      (k : Counts) (s : Forming)
      → IsFormed 1 s
      → Outcome Arithmetic (Top id) (upper_rings clock iterate id c starting_port_number k s)
  unfolding upper_rings
  upper_rings-Top k s v =
      climb Arithmetic id 1 c.num_nodes_in_city s _ _ (omega arith) (omega arith) (inl v)
        (level_ring-Stage 1 (dist_plan id c k) s (dist_plan-Fits id long c k) refl (omega arith)
          (inl v))
        λ s1 p1.
          climb Arithmetic id 2 c.num_nodes_in_state s1 _ _ (omega arith) (omega arith) p1
            (level_ring-Stage 2 (city_plan id c k) s1 (city_plan-Fits id long c k) refl
              (omega arith) p1)
            λ s2 p2.
              climb Arithmetic id 3 c.num_nodes_in_country s2 _ _ (omega arith) (omega arith) p2
                (level_ring-Stage 3 (state_plan id c k) s2 (state_plan-Fits id long c k) refl
                  (omega arith) p2)
                λ s3 p3.
                  climb Arithmetic id 4 c.num_nodes_in_continent s3 _ _ (omega arith) (omega arith)
                    p3
                    (level_ring-Stage 4 (country_plan id c k) s3 (country_plan-Fits id long c k)
                      refl (omega arith) p3)
                    λ s4 p4. continent_ring-Top s4 p4

  counts_fault : (f : Fault) → counts c ≡ err f → Arithmetic f
  unfolding counts
  counts_fault f e = ground arith

  form_rings-Top : Outcome Arithmetic (Top id) (form_rings clock iterate id c starting_port_number)
  unfolding form_rings
  form_rings-Top = rw (own_parts-ok id long) (
      Outcome->>= Arithmetic (λ k. Unit) (Top id) (counts c) _
        (Outcome-err Arithmetic (counts c) counts_fault)
        λ k _.
          Outcome->>= Arithmetic (IsFormed 1) (Top id)
            (form_district (local_node clock iterate c starting_port_number)
              (take id_single_start id) c.num_nodes_in_dist c.num_cnodes_in_dist
              (extract_int (take id_single_len (drop id_single_start id))) nothing_formed)
            _
            (form_district-IsFormed Arithmetic _ finds (take id_single_start id) c.num_nodes_in_dist
              c.num_cnodes_in_dist _ nothing_formed
              (omega (arith, long, length-take id_single_start id)) (ground arith))
            (upper_rings-Top k))

-- Forming the rings of a node whose id reaches to its last part: a node table that is set is valid, its
-- rings are those of the levels 0, 1 and so on in this order, and they are at most six; a fault is
-- undefined behaviour, no exception.
pub form_structure_lem :
    (clock : ℕ → ℕ) (iterate : Map Ptr → Map Ptr)
    → ((m : Map Ptr) → Perm (iterate m) m)
    → (id : Bytes) (c : Sizes) (starting_port_number : ℕ) (t : NodeTable) → IsLong id
    → Outcome
        (λ fault. fault ≡ undefined)
        (λ t'. IsValid t' × LevelsFrom 0 t'.tables × (length t'.tables ≤ 6))
        (form_structure clock iterate id c starting_port_number t)
unfolding form_structure
form_structure_lem clock iterate order id c starting_port_number t long =
    Outcome->>= Arithmetic (Top id) _ (form_rings clock iterate id c starting_port_number) _
      (form_rings-Top clock iterate order id long c starting_port_number)
      (λ s top. unfold set_tables in Top-IsValid id s t top)
