-- ===== src/Common/Text.antt =====
-- `std::string` as a list of bytes, with the `size_t` arithmetic and the members that the program
-- uses: `find`, `substr`, `erase`, `==`.
use Prim.Native.Char.{code}
use Prim.Native.String.{String}
use Prim.Native.Nat.{ℕ, suc, ◌+◌, ◌-◌, ◌%◌, ◌^◌, ◌≤◌}
use mathlib.Core.Path.{◌≡◌, refl}
use mathlib.Core.Logic.{◌≢◌, ◌↔◌}
use mathlib.Core.Bool.{Bool, true, false, ◌&&◌}
use mathlib.Core.Option
use mathlib.Core.Option.{Option, none, some}
use mathlib.Core.List.{List, [], ◌∷◌, ◌++◌}
use native.Mathlib.Omega.{arith}
use fring.Common.Tests.{ltb, ◌==◌, if◌then◌else◌}
use fring.Common.Lists.{length, take, drop, take-append, All}
use fring.Common.Results.{Result, ok, err, out_of_range}

abbrev pub Bytes : Type 0
Bytes = List ℕ

-- The bytes of an ASCII literal.
abbrev pub codes : String → Bytes
codes String.[] = []
codes (String.◌∷◌ c s) = code c ∷ codes s

abbrev pub size_mod : ℕ
size_mod = 2 ^ 64

-- `std::string::npos`, the largest `size_t`
abbrev pub npos : ℕ
npos = 2 ^ 64 - 1

-- `size_t` arithmetic wraps.
abbrev pub add_size : ℕ → ℕ → ℕ
add_size a b = (a + b) % size_mod

abbrev pub sub_size : ℕ → ℕ → ℕ
sub_size a b = (a + size_mod - b) % size_mod

-- `==` on strings
unfoldable pub beq : Bytes → Bytes → Bool
beq [] [] = true
beq [] (y ∷ ys) = false
beq (x ∷ xs) [] = false
beq (x ∷ xs) (y ∷ ys) = (x == y) && beq xs ys

pub beq_iff : (xs ys : Bytes) → (beq xs ys ≡ true) ↔ (xs ≡ ys)
unfolding beq
beq_iff [] [] = ground arith
beq_iff [] (y ∷ ys) = ground arith
beq_iff (x ∷ xs) [] = ground arith
beq_iff (x ∷ xs) (y ∷ ys) = ground (arith, beq_iff xs ys)

pub beq_refl : (xs : Bytes) → beq xs xs ≡ true
beq_refl xs = (beq_iff xs xs).1 refl

pub beq_ne : (xs ys : Bytes) → xs ≢ ys → beq xs ys ≡ false
beq_ne xs ys h = ground (arith, beq_iff xs ys)

-- the first index of a byte
unfoldable pub index_of : ℕ → Bytes → Option ℕ
index_of c [] = none
index_of c (x ∷ xs) = if x == c then some 0 else Option.map suc (index_of c xs)

-- `s.find(c, pos)` for a one-byte pattern
unfoldable pub find : ℕ → Bytes → ℕ → ℕ
find c s start = elim (index_of c (drop start s)) [ none ↦ npos | some i ↦ start + i ]

-- `s.substr(pos, n)`
unfoldable pub substr : Bytes → ℕ → ℕ → Result Bytes
substr s start n = if ltb (length s) start then err out_of_range else ok (take n (drop start s))

-- `s.substr(pos)`
abbrev pub substr_from : Bytes → ℕ → Result Bytes
substr_from s start = substr s start npos

-- `s.erase(0, n)`
abbrev pub erase_front : Bytes → ℕ → Bytes
erase_front s n = drop n s

-- No byte of the text is `c`.
abbrev pub Lacks : ℕ → Bytes → Type 0
Lacks c = All (λ x. x ≢ c)

pub index_of-append :
    (c : ℕ) (s rest : Bytes) → Lacks c s → index_of c (s ++ c ∷ rest) ≡ some (length s)
unfolding index_of
index_of-append c [] rest h = ground arith
index_of-append c (x ∷ s) rest (hx, hs) = ground (arith, index_of-append c s rest hs)

pub index_of-Lacks : (c : ℕ) (s : Bytes) → Lacks c s → index_of c s ≡ none
unfolding index_of
index_of-Lacks c [] h = refl
index_of-Lacks c (x ∷ s) (hx, hs) = ground (arith, index_of-Lacks c s hs)

-- `find` stops at the separator that closes a field.
pub find_field :
    (c : ℕ) (s f rest : Bytes) (start : ℕ)
    → drop start s ≡ f ++ c ∷ rest
    → Lacks c f
    → find c s start ≡ start + length f
unfolding find
find_field c s f rest start e h =
    let i : index_of c (drop start s) ≡ some (length f) = rw e (index_of-append c f rest h) in
    rw (i, find)

pub find_absent : (c : ℕ) (s : Bytes) (start : ℕ) → Lacks c (drop start s) → find c s start ≡ npos
unfolding find
find_absent c s start h = rw (index_of-Lacks c (drop start s) h, find)

-- `substr` cuts exactly the field that stands at `start`.
pub substr_field :
    (s f rest : Bytes) (start : ℕ)
    → start ≤ length s
    → drop start s ≡ f ++ rest
    → substr s start (length f) ≡ ok f
unfolding substr
substr_field s f rest start h e = rw (e, take-append f rest) (ground arith)

-- A text is cut at any place that it reaches.
pub substr_within :
    (s : Bytes) (start n : ℕ) → start ≤ length s → substr s start n ≡ ok (take n (drop start s))
unfolding substr
substr_within s start n h = ground arith
