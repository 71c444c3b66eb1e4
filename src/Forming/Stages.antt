-- ===== src/Forming/Stages.antt =====
-- The rings level by level: whether a node still stands in the ring of a level.
use fring.Common.{
  ℕ, suc, ◌+◌, ◌-◌, ◌≤◌, ◌<◌, ◌≡◌, ◌⊎◌, inl, inr, arith, true, false, Bool-cases, if◌then◌else◌,
  ◌==◌, Outcome-mono, Result, Fault, Outcome, Outcome->>=, ok, length, take, drop, length-take,
  length-drop, ◌>>=◌,
}
use fring.Common.Text.{Bytes, substr, substr_within}
use fring.NodeTable.{NodeTable, set_tables}
use fring.NodeTable.Access.{IsValid}
use fring.Params.{id_single_start}
use fring.Forming.{Forming, is_contact}
use fring.Forming.Valid.{IsFormed, LevelsFrom}
use fring.Forming.Loops.{Fits}

-- Before the ring of level `n` is formed.
abbrev pub Stage : Bytes → ℕ → Forming → Type 0
Stage id n s =
    IsFormed n s ⊎ ((m : ℕ) × (0 < m) × (m ≤ n) × IsFormed m s × (is_contact id s ≡ false))

-- A level that is formed only by a contact node of the level below.
pub level-Stage :
    (Faults : Fault → Type 0) (id : Bytes) (n : ℕ) (s : Forming) (ring : Result Forming)
    → (IsFormed n s → Outcome Faults (IsFormed (suc n)) ring)
    → 0 < n
    → Stage id n s
    → Outcome Faults (Stage id (suc n)) (if is_contact id s then ring else ok s)
level-Stage Faults id n s ring form h stage = elim (Bool-cases (is_contact id s)) [
  | inl t ↦ rw t (up t stage)
  | inr f ↦ rw f (out f stage)
]
  where
    up : is_contact id s ≡ true → Stage id n s → Outcome Faults (Stage id (suc n)) ring
    up t (inl v) =
        Outcome-mono Faults (IsFormed (suc n)) (Stage id (suc n)) ring (form v) (λ s' v'. inl v')
    up t (inr (m, _, _, _, f)) = cc

    out : is_contact id s ≡ false → Stage id n s → Stage id (suc n) s
    out f (inl v) = inr (n, h, omega arith, v, f)
    out f (inr (m, p, q, v, _)) = inr (m, p, omega (arith, q), v, f)

-- a stage at which the rings may end
abbrev pub Top : Bytes → Forming → Type 0
Top id s = (n : ℕ) × (0 < n) × (n ≤ 6) × Stage id n s

-- One level and those above it, if its count is not zero.
pub climb :
    (Faults : Fault → Type 0) (id : Bytes) (n count : ℕ) (s : Forming) (ring : Result Forming)
    (above : Forming → Result Forming)
    → 0 < n
    → n ≤ 6
    → Stage id n s
    → Outcome Faults (Stage id (suc n)) ring
    → ((s' : Forming) → Stage id (suc n) s' → Outcome Faults (Top id) (above s'))
    → Outcome Faults (Top id) (if count == 0 then ok s else (ring >>= above))
climb Faults id n count s ring above h k stage r up = elim (Bool-cases (count == 0)) [
  | inl t ↦ rw t (n, h, k, stage)
  | inr f ↦ rw f (Outcome->>= Faults (Stage id (suc n)) (Top id) ring above r up)
]

-- The cut of a plan, where the parts of the new id reach as far as those of the old one.
pub substr-Fits :
    (until : Bytes) (level len units limit start n : ℕ)
    → start ≤ id_single_start
    → id_single_start ≤ length until + (len + (id_single_start - start))
    → id_single_start ≤ length until + (len + n)
    → Fits (record {
      ring_level = level;
      until = until;
      len = len;
      units = units;
      limit = limit;
      rest_of = λ contact. substr contact start n;
    })
substr-Fits until level len units limit start n h a b contact l = (
  take n (drop start contact),
  substr_within contact start n (omega (arith, h, l)),
  omega (arith, h, l, a, b, length-take n (drop start contact), length-drop start contact),
)

-- A node table from the rings.
pub Top-IsValid :
    (id : Bytes) (s : Forming) (t : NodeTable)
    → Top id s
    → IsValid (set_tables t s.tables s.heap) × LevelsFrom 0 s.tables × (length s.tables ≤ 6)
unfolding set_tables
Top-IsValid id s t (n, h, k, inl v) = ground (arith, v.count)
Top-IsValid id s t (n, h, k, inr (m, p, q, v, _)) = ground (arith, v.count)
