-- ===== src/Decimal.antt =====
-- Numbers as text, the parts of the C++ library that the program prints and reads them with:
-- `std::to_string`, `ss << std::setw(n) << std::setfill('0') << i`, `std::stoi` and `ss >> i`.
pub mod RoundTrip
use Prim.Native.Nat.{◌-◌}
use fring.Common.{
  ℕ, zero, suc, ◌+◌, ◌*◌, ◌/◌, ◌%◌, ◌≤◌, Bool, true, false, ◌&&◌, ◌||◌, List, [], ◌∷◌, ◌++◌, Option,
  none, some, ltb, leb, ◌==◌, if◌then◌else◌, length, replicate, ℤ, pos, negsuc, sub_ℕ, Result, ok,
  err, invalid_argument, out_of_range, int_mod,
}
use fring.Common.Text.{Bytes}

abbrev pub IsDigit : ℕ → Type 0
IsDigit c = (b'0' ≤ c) × (c ≤ b'9')

-- The digits of `n` in front of `out`. Each round divides by ten, so `suc n` is fuel enough.
digits : ℕ → ℕ → Bytes → Bytes
digits zero n out = out
digits (suc fuel) n out =
    let rest = digits fuel (n / 10) ((b'0' + n % 10) ∷ out) in
    if ltb n 10 then (b'0' + n) ∷ out else rest

-- an unsigned number as `<<` prints it
unfoldable pub to_decimal : ℕ → Bytes
unfolding digits
to_decimal n = digits (suc n) n []

-- `std::to_string(int)`
unfoldable pub to_string : ℤ → Bytes
unfolding to_decimal
to_string (pos n) = to_decimal n
to_string (negsuc n) = b'-' ∷ to_decimal (suc n)

-- `ss << std::setw(width) << std::setfill('0') << n`: fill on the left, and never cut
unfoldable pub setw : ℕ → ℕ → Bytes
unfolding to_decimal
setw width n = let s = to_decimal n in replicate (width - length s) b'0' ++ s

-- `isspace` in the default locale
is_space : ℕ → Bool
is_space c = (c == 32) || (leb 9 c && leb c 13)

is_digit : ℕ → Bool
is_digit c = leb b'0' c && leb c b'9'

skip_space : Bytes → Bytes
unfolding is_space
skip_space [] = []
skip_space (c ∷ s) = if is_space c then skip_space s else c ∷ s

-- the longest prefix of digits
take_digits : Bytes → Bytes
unfolding is_digit
take_digits [] = []
take_digits (c ∷ s) = if is_digit c then c ∷ take_digits s else []

-- the number that digits spell behind `n`
abbrev pub value : ℕ → Bytes → ℕ
value n [] = n
value n (c ∷ s) = value (n * 10 + (c - b'0')) s

-- digits with a sign: `strtol` without its limits
signed : Bool → Bytes → Option ℤ
signed negative [] = none
signed negative (c ∷ s) =
    some (if negative then sub_ℕ 0 (value 0 (c ∷ s)) else pos (value 0 (c ∷ s)))

scan_sign : Bytes → Option ℤ
unfolding take_digits signed
scan_sign [] = none
scan_sign (c ∷ s) =
    if c == b'-'
    then signed true (take_digits s)
    else if c == b'+'
    then signed false (take_digits s)
    else signed false (take_digits (c ∷ s))

-- `strtol(s, _, 10)`; `none` if no digit was read
unfoldable pub scan_int : Bytes → Option ℤ
unfolding skip_space scan_sign
scan_int s = scan_sign (skip_space s)

check_int : ℤ → Result ℤ
check_int (pos n) = if ltb n int_mod then ok (pos n) else err out_of_range
check_int (negsuc n) = if ltb n int_mod then ok (negsuc n) else err out_of_range

checked : Option ℤ → Result ℤ
unfolding check_int
checked none = err invalid_argument
checked (some z) = check_int z

-- `std::stoi`: an exception where there is no number, and where it does not fit an `int`
unfoldable pub stoi : Bytes → Result ℤ
unfolding scan_int checked
stoi s = checked (scan_int s)

clamped : Option ℤ → ℤ
clamped none = pos 0
clamped (some (pos n)) = if ltb n int_mod then pos n else pos (int_mod - 1)
clamped (some (negsuc n)) = if ltb n int_mod then negsuc n else negsuc (int_mod - 1)

-- `ss >> i` for an `int i`: 0 where there is no number, the nearest `int` where it does not fit
unfoldable pub extract_int : Bytes → ℤ
unfolding scan_int clamped
extract_int s = clamped (scan_int s)
