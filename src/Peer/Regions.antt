-- ===== src/Peer/Regions.antt =====
-- Cutting the parts out of an id of 32 bytes, and the type that a receiver's id calls for.
use fring.Common.{
  ℕ, zero, suc, ◌≤◌, ◌<◌, ◌≡◌, refl, arith, inl, inr, false, length, ◌==◌, replicate, ℤ, pos, ok,
  take, drop, le→ltb, Bool-cases,
}
use fring.Common.Text.{Bytes, substr, beq, substr_within}
use fring.Params.{id_single_start, id_single_len}
use fring.Decimal.RoundTrip.{IsInt}
use fring.Node.{Node}
use fring.Peer.Ring.{region_of, type_for}

substr-total :
    (s : Bytes) (start len : ℕ) → start ≤ length s → (r : Bytes) × (substr s start len ≡ ok r)
unfolding substr
substr-total s start len h = (take len (drop start s), rw (le→ltb (length s) start h) refl)

-- The part of an id of 32 bytes that belongs to a level: the node's own number, the district, the
-- city, the state, the country and the continent.
abbrev pub region : ℕ → Bytes → Bytes
region zero id = take 9 (drop 23 id)
region (suc zero) id = take 5 (drop 18 id)
region (suc (suc zero)) id = take 6 (drop 12 id)
region (suc (suc (suc zero))) id = take 5 (drop 7 id)
region (suc (suc (suc (suc zero)))) id = take 4 (drop 3 id)
region (suc (suc (suc (suc (suc level))))) id = take 3 id

pub region_of_lem :
    (level : ℕ) (id : Bytes)
    → level < 6
    → length id ≡ 32
    → region_of level id ≡ ok (region level id)
unfolding region_of
region_of_lem zero id h e = substr_within id 23 9 (omega (arith, e))
region_of_lem (suc zero) id h e = substr_within id 18 5 (omega (arith, e))
region_of_lem (suc (suc zero)) id h e = substr_within id 12 6 (omega (arith, e))
region_of_lem (suc (suc (suc zero))) id h e = substr_within id 7 5 (omega (arith, e))
region_of_lem (suc (suc (suc (suc zero)))) id h e = substr_within id 3 4 (omega (arith, e))
region_of_lem (suc (suc (suc (suc (suc zero))))) id h e = substr_within id 0 3 (omega (arith, e))
region_of_lem (suc (suc (suc (suc (suc (suc level)))))) id h e = absurd (omega arith)

pub type_for-total :
    (level : ℕ) (receiver : Node)
    → length receiver.id ≡ 32
    → (t : ℤ) × (type_for level receiver ≡ ok t) × IsInt t
unfolding type_for
type_for-total zero receiver e = (pos 5, refl, omega arith)
type_for-total (suc level) receiver e =
    let above : (suc level == 0) ≡ false = ground arith in
    let (s, es) = substr-total receiver.id id_single_start id_single_len (omega (arith, e)) in
    elim (Bool-cases (beq s (replicate id_single_len b'0'))) [
      | inl zeros ↦ (pos 2, rw (above, es, zeros) refl, omega arith)
      | inr other ↦ (pos 5, rw (above, es, other) refl, omega arith)
    ]
