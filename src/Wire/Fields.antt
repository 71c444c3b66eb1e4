-- ===== src/Wire/Fields.antt =====
-- One field of the header: cutting it out of the packet.
use fring.Common.{
  ℕ, ◌+◌, ◌≤◌, ◌<◌, ◌≡◌, refl, ap, arith, ◌∷◌, ◌++◌, length, length-append, drop, drop-append,
  drop-drop, length-drop, ok,
}
use fring.Common.Text.{Bytes, find_field, substr_field, npos, add_size, sub_size, Lacks}
use fring.Wire.{next_field}

-- The rest of the text behind a field and its comma.
pub drop_field :
    (s f rest : Bytes) (c p : ℕ) → drop p s ≡ f ++ c ∷ rest → drop (p + length f + 1) s ≡ rest
drop_field s f rest c p e =
    let n : p + length f + 1 ≡ p + (length f + 1) = omega arith in
    rw
      (
        n,
        ← drop-drop p (length f + 1) s,
        e,
        ← drop-drop (length f) 1 (f ++ c ∷ rest),
        drop-append f (c ∷ rest),
      )
      refl

pub end_of_field :
    (s f rest : Bytes) (c p : ℕ)
    → p ≤ length s
    → drop p s ≡ f ++ c ∷ rest
    → p + length f + 1 ≤ length s
end_of_field s f rest c p h e =
    omega (arith, h, length-drop p s, ap length e, length-append f (c ∷ rest))

-- Where the text behind `pos_end + 1` is a field with no comma, a comma and a rest, `next_field`
-- cuts exactly the field, and stands at its comma.
pub next_field_lem :
    (s f rest : Bytes) (pos_end p : ℕ)
    → add_size pos_end 1 ≡ p
    → length s < npos
    → p ≤ length s
    → drop p s ≡ f ++ b',' ∷ rest
    → Lacks b',' f
    → (next_field s pos_end ≡ ok (f, p + length f))
      × (add_size (p + length f) 1 ≡ p + length f + 1)
      × (p + length f + 1 ≤ length s)
      × (drop (p + length f + 1) s ≡ rest)
unfolding next_field
next_field_lem s f rest pos_end p a n h e w = (
  rw (a, find_field b',' s f rest p e w, width, substr_field s f (b',' ∷ rest) p h e) refl,
  omega (arith, inside),
  inside,
  drop_field s f rest b',' p e,
)
  where
    inside : p + length f + 1 ≤ length s
    inside = end_of_field s f rest b',' p h e

    width : sub_size (p + length f) p ≡ length f
    width = omega (arith, inside)
