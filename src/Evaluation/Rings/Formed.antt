-- ===== src/Evaluation/Rings/Formed.antt =====
-- The node table that `create_hgfr_table` makes.
use mathlib.Core.List.{Perm}
use fring.Common.{
  ℕ, suc, ◌≤◌, ◌<◌, ◌≡◌, if◌then◌else◌, ◌>>=◌, ◌≢◌, inl, refl, arith, Fault, Outcome, Outcome->>=,
  Outcome-mono, Outcome-err, returns, ok, err, length, take, drop, length-take, Option, none, some,
}
use fring.Common.Text.{Bytes}
use fring.Decimal.{extract_int}
use fring.Node.{make_node}
use fring.NodeTable.{NodeTable, Map, Ptr, lookup, set_tables}
use fring.NodeTable.Access.{IsValid}
use fring.Ids.{Sizes}
use fring.Params.{id_single_start, id_single_len}
use fring.Forming.{Forming, Plan, nothing_formed, form_district, form_ring, is_contact, exchange}
use fring.Forming.Valid.{IsFormed, IsLong, LevelsFrom, IsFormed-grow, new_in_heap}
use fring.Forming.Loops.{Finds, Fits, Found, form_ring-IsFormed, form_district-IsFormed}
use fring.Forming.Exchange.{exchange-IsFormed}
use fring.Forming.Stages.{Stage, Top, level-Stage, climb, Top-IsValid}
use fring.App.{Counts, dist_plan, city_plan, state_plan, country_plan, continent_plan}
use fring.App.Plans.{
  dist_plan-Fits, city_plan-Fits, state_plan-Fits, country_plan-Fits, continent_plan-Fits,
  own_parts-ok,
}
use fring.Evaluation.Rings.{
  NodeList, client_counts, place_listed, listed_node, client_dist_ring, client_city_ring,
  client_state_ring, client_country_ring, client_continent_ring, client_upper_rings,
  create_hgfr_table,
}

-- no fault
abbrev Never : Fault → Type 0
Never fault = ⊥

listed_node-Finds :
    (clock : ℕ → ℕ) (iterate : Map Ptr → Map Ptr) (nodes : NodeList)
    → Finds Never (listed_node clock iterate nodes)
unfolding listed_node place_listed
listed_node-Finds clock iterate nodes n id s long v = placed (lookup id nodes)
  where
    placed :
        (found : Option (Bytes × ℕ))
        → Found (length s.heap) n (place_listed clock iterate id found s)
    placed none = tt
    placed (some (ip, port)) =
        unfold place_listed in
        ground (
          arith,
          IsFormed-grow s (make_node (clock s.ticks) id ip port) long v,
          new_in_heap s.heap (make_node (clock s.ticks) id ip port),
        )

module _ (clock : ℕ → ℕ) (iterate : Map Ptr → Map Ptr) (order : (m : Map Ptr) → Perm (iterate m) m)
    (id : Bytes) (long : IsLong id) (c : Sizes) (nodes : NodeList) where
  finds : Finds Never (listed_node clock iterate nodes)
  finds = listed_node-Finds clock iterate nodes

  ring-Stage :
      (n : ℕ) (plan : Plan) (s : Forming)
      → Fits plan
      → plan.ring_level ≡ n
      → 0 < n
      → Stage id n s
      → Outcome Never
          (Stage id (suc n))
          (if is_contact id s then form_ring (listed_node clock iterate nodes) plan s else ok s)
  ring-Stage n plan s fits e =
      level-Stage Never id n s _ (form_ring-IsFormed Never _ finds plan s fits e)

  exchanged-Stage :
      (n : ℕ) (plan : Plan) (s : Forming)
      → Fits plan
      → plan.ring_level ≡ n
      → 0 < n
      → Stage id n s
      → Outcome Never (Stage id (suc n)) (
          if is_contact id s
          then (form_ring (listed_node clock iterate nodes) plan s >>= λ s'.
              ok (exchange iterate s'))
          else ok s)
  exchanged-Stage n plan s fits e = level-Stage Never id n s _ (λ v.
      Outcome->>= Never (IsFormed (suc n)) (IsFormed (suc n))
        (form_ring (listed_node clock iterate nodes) plan s) _
        (form_ring-IsFormed Never _ finds plan s fits e v)
        (λ s' v'. exchange-IsFormed iterate order s' v'))

  upper_rings-Top :
      (k : Counts) (s : Forming)
      → IsFormed 1 s
      → Outcome Never (Top id) (client_upper_rings clock iterate id c nodes k s)
  unfolding client_upper_rings client_dist_ring client_city_ring client_state_ring
      client_country_ring client_continent_ring
  upper_rings-Top k s v =
      Outcome->>= Never (Stage id 2) (Top id) (client_dist_ring clock iterate id c nodes k s) _
        (exchanged-Stage 1 (dist_plan id c k) s (dist_plan-Fits id long c k) refl (omega arith)
          (inl v))
        λ s1 p1.
          Outcome->>= Never (Stage id 3) (Top id) (client_city_ring clock iterate id c nodes k s1) _
            (ring-Stage 2 (city_plan id c k) s1 (city_plan-Fits id long c k) refl (omega arith) p1)
            λ s2 p2.
              climb Never id 3 c.num_nodes_in_country s2 _ _ (omega arith) (omega arith) p2
                (exchanged-Stage 3 (state_plan id c k) s2 (state_plan-Fits id long c k) refl
                  (omega arith) p2)
                λ s3 p3.
                  climb Never id 4 c.num_nodes_in_continent s3 _ _ (omega arith) (omega arith) p3
                    (exchanged-Stage 4 (country_plan id c k) s3 (country_plan-Fits id long c k) refl
                      (omega arith) p3)
                    λ s4 p4.
                      Outcome-mono Never (Stage id 6) (Top id)
                        (client_continent_ring clock iterate id c nodes s4)
                        (ring-Stage 5 (continent_plan c) s4 (continent_plan-Fits c) refl
                          (omega arith) p4)
                        (λ s' stage'. (6, omega arith, omega arith, stage'))

-- The counts that the code divides by.
pub record NoneIsZero (c : Sizes) : Type 0 where
  pub dist : c.num_cnodes_in_dist ≢ 0
  pub state : c.num_cnodes_in_state ≢ 0
  pub country : c.num_cnodes_in_country ≢ 0

client_counts_fault : (c : Sizes) (f : Fault) → NoneIsZero c → client_counts c ≡ err f → Never f
unfolding client_counts
client_counts_fault c f w e = ground (arith, w.dist, w.state, w.country)

abbrev Good : NodeTable → Type 0
Good t = IsValid t × LevelsFrom 0 t.tables × (length t.tables ≤ 6)

-- Forming the rings from the addresses that the server sent always returns, with whatever ids are
-- missing, if the own id reaches to its last part and the three counts that the code divides by are
-- not zero. The table is valid, and its rings are those of the levels 0, 1 and so on in this order,
-- at most six.
pub create_hgfr_table_lem :
    (clock : ℕ → ℕ) (iterate : Map Ptr → Map Ptr)
    → ((m : Map Ptr) → Perm (iterate m) m)
    → (id : Bytes) (c : Sizes) (nodes : NodeList) (t : NodeTable) → IsLong id
    → NoneIsZero c
    → (t' : NodeTable) × (create_hgfr_table clock iterate id c nodes t ≡ ok t')
      × IsValid t'
      × LevelsFrom 0 t'.tables
      × (length t'.tables ≤ 6)
unfolding create_hgfr_table set_tables
create_hgfr_table_lem clock iterate order id c nodes t long w =
    let (t', e, good) = returns Good (create_hgfr_table clock iterate id c nodes t) (
      rw (own_parts-ok id long) (
        Outcome->>= Never (λ k. Unit) Good (client_counts c) _
          (Outcome-err Never (client_counts c) (λ f. client_counts_fault c f w))
          λ k _.
            Outcome->>= Never (IsFormed 1) Good
              (form_district (listed_node clock iterate nodes) (take id_single_start id)
                c.num_nodes_in_dist c.num_cnodes_in_dist
                (extract_int (take id_single_len (drop id_single_start id))) nothing_formed)
              _
              (form_district-IsFormed Never _ (listed_node-Finds clock iterate nodes)
                (take id_single_start id) c.num_nodes_in_dist c.num_cnodes_in_dist _ nothing_formed
                (omega (arith, long, length-take id_single_start id)) (ground arith))
              λ s v.
                Outcome->>= Never (Top id) Good (client_upper_rings clock iterate id c nodes k s) _
                  (upper_rings-Top clock iterate order id long c nodes k s v)
                  (λ s' top. Top-IsValid id s' t top))) in
    (t', e, good.0, good.1, good.2)
