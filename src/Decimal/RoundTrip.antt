-- ===== src/Decimal/RoundTrip.antt =====
-- Reading back what was printed.
use Prim.Native.Nat.{◌-◌}
use fring.Common.{
  ℕ, zero, suc, ◌+◌, ◌/◌, ◌%◌, ◌^◌, ◌≤◌, ◌<◌, ◌≡◌, ◌≢◌, refl, ◌∙◌, [], ◌∷◌, ◌++◌, some, arith,
  length, length-append, length-replicate, replicate, ℤ, pos, negsuc, ok, All, All-append, int_mod,
}
use fring.Common.Text.{Bytes, Lacks}
use fring.Decimal.{
  IsDigit, digits, to_decimal, to_string, setw, skip_space, take_digits, value, scan_int, stoi,
  extract_int,
}

value-digits : (fuel n : ℕ) (out : Bytes) → n < fuel → value 0 (digits fuel n out) ≡ value n out
unfolding digits
value-digits zero n out h = absurd (omega arith)
value-digits (suc fuel) n out h = ground (arith, value-digits fuel (n / 10) ((b'0' + n % 10) ∷ out))

digits-IsDigit :
    (fuel n : ℕ) (out : Bytes) → All IsDigit out → n < fuel → All IsDigit (digits fuel n out)
unfolding digits
digits-IsDigit zero n out d h = absurd (omega arith)
digits-IsDigit (suc fuel) n out d h =
    ground (arith, digits-IsDigit fuel (n / 10) ((b'0' + n % 10) ∷ out))

-- A digit is printed at least.
length-digits : (fuel n : ℕ) (out : Bytes) → n < fuel → length out < length (digits fuel n out)
unfolding digits
length-digits zero n out h = absurd (omega arith)
length-digits (suc fuel) n out h =
    ground (arith, length-digits fuel (n / 10) ((b'0' + n % 10) ∷ out))

-- A number below `10 ^ k` is printed in `k` digits at most.
length-digits_le :
    (k fuel n : ℕ) (out : Bytes) → n < 10 ^ suc k → length (digits fuel n out) ≤ suc k + length out
unfolding digits
length-digits_le k zero n out h = omega arith
length-digits_le zero (suc fuel) n out h = ground arith
length-digits_le (suc k) (suc fuel) n out h =
    ground (arith, length-digits_le k fuel (n / 10) ((b'0' + n % 10) ∷ out), tenth)
  where
    tenth : n / 10 < 10 ^ suc k
    tenth = omega (arith, h)

skip_space-digit : (s : Bytes) → All IsDigit s → skip_space s ≡ s
unfolding skip_space
skip_space-digit [] d = refl
skip_space-digit (c ∷ s) d = ground arith

take_digits-All : (s : Bytes) → All IsDigit s → take_digits s ≡ s
unfolding take_digits
take_digits-All [] d = refl
take_digits-All (c ∷ s) d = ground (arith, take_digits-All s)

-- A text of digits is read as its value.
pub scan_int-digits : (s : Bytes) → All IsDigit s → s ≢ [] → scan_int s ≡ some (pos (value 0 s))
unfolding scan_int
scan_int-digits [] d h = absurd (h refl)
scan_int-digits (c ∷ s) d h = ground (arith, skip_space-digit (c ∷ s), take_digits-All (c ∷ s))

scan_int-minus :
    (s : Bytes) (n : ℕ)
    → All IsDigit s
    → s ≢ []
    → value 0 s ≡ suc n
    → scan_int (b'-' ∷ s) ≡ some (negsuc n)
unfolding scan_int
scan_int-minus [] n d h e = absurd (h refl)
scan_int-minus (c ∷ s) n d h e = ground (arith, take_digits-All (c ∷ s))

nonempty : (s : Bytes) → 0 < length s → s ≢ []
nonempty [] h e = absurd (omega arith)
nonempty (c ∷ s) h e = absurd (cc)

pub to_decimal-IsDigit : (n : ℕ) → All IsDigit (to_decimal n)
unfolding to_decimal
to_decimal-IsDigit n = digits-IsDigit (suc n) n [] tt (omega arith)

pub length-to_decimal_pos : (n : ℕ) → 0 < length (to_decimal n)
unfolding to_decimal
length-to_decimal_pos n = length-digits (suc n) n [] (omega arith)

pub value-to_decimal : (n : ℕ) → value 0 (to_decimal n) ≡ n
unfolding to_decimal
value-to_decimal n = value-digits (suc n) n [] (omega arith)

pub length-to_decimal_le : (k n : ℕ) → n < 10 ^ suc k → length (to_decimal n) ≤ suc k
unfolding to_decimal
length-to_decimal_le k n h = omega (arith, length-digits_le k (suc n) n [] h)

-- the values of an `int`
abbrev pub IsInt : ℤ → Type 0
IsInt (pos n) = n < int_mod
IsInt (negsuc n) = n < int_mod

scan_int-to_string : (z : ℤ) → scan_int (to_string z) ≡ some z
unfolding to_string
scan_int-to_string (pos n) = ground (
  arith,
  scan_int-digits (to_decimal n) (to_decimal-IsDigit n)
      (nonempty (to_decimal n) (length-to_decimal_pos n)),
  value-to_decimal n,
)
scan_int-to_string (negsuc n) =
    scan_int-minus (to_decimal (suc n)) n (to_decimal-IsDigit (suc n))
      (nonempty (to_decimal (suc n)) (length-to_decimal_pos (suc n))) (value-to_decimal (suc n))

-- `std::stoi` reads every `int` back from what `std::to_string` prints.
pub stoi-to_string : (z : ℤ) → IsInt z → stoi (to_string z) ≡ ok z
unfolding stoi
stoi-to_string (pos n) h = ground (arith, scan_int-to_string (pos n))
stoi-to_string (negsuc n) h = ground (arith, scan_int-to_string (negsuc n))

value-zeros : (k : ℕ) (s : Bytes) → value 0 (replicate k b'0' ++ s) ≡ value 0 s
value-zeros zero s = refl
value-zeros (suc k) s = value-zeros k s

zeros-IsDigit : (k : ℕ) → All IsDigit (replicate k b'0')
zeros-IsDigit zero = tt
zeros-IsDigit (suc k) = (omega arith, zeros-IsDigit k)

pub setw-IsDigit : (width n : ℕ) → All IsDigit (setw width n)
unfolding setw
setw-IsDigit width n = All-append IsDigit _ _ (zeros-IsDigit _) (to_decimal-IsDigit n)

-- A number that fits the width is printed in exactly that width.
pub length-setw : (k n : ℕ) → n < 10 ^ suc k → length (setw (suc k) n) ≡ suc k
unfolding setw
length-setw k n h = omega (
  arith,
  length-append (replicate (suc k - length (to_decimal n)) b'0') (to_decimal n),
  length-replicate {A = ℕ} (suc k - length (to_decimal n)) b'0',
  length-to_decimal_le k n h,
)

length-setw_pos : (width n : ℕ) → 0 < length (setw width n)
unfolding setw
length-setw_pos width n = omega (
  arith,
  length-append (replicate (width - length (to_decimal n)) b'0') (to_decimal n),
  length-to_decimal_pos n,
)

-- `ss >> i` reads back every `int` that was printed with a width and zeros.
pub extract_int-setw : (width n : ℕ) → n < int_mod → extract_int (setw width n) ≡ pos n
unfolding extract_int
extract_int-setw width n h = ground (
  arith,
  scan_int-digits (setw width n) (setw-IsDigit width n) (nonempty _ (length-setw_pos width n)),
  same,
)
  where
    same : value 0 (setw width n) ≡ n
    same =
        unfold setw in
        (value-zeros (width - length (to_decimal n)) (to_decimal n) ∙ value-to_decimal n)

digit-Lacks : (c : ℕ) (s : Bytes) → c < b'0' → All IsDigit s → Lacks c s
digit-Lacks c [] h d = tt
digit-Lacks c (x ∷ s) h d = (omega arith, digit-Lacks c s h d.1)

-- No printed `int` holds a comma.
pub to_string-Lacks : (z : ℤ) → Lacks b',' (to_string z)
unfolding to_string
to_string-Lacks (pos n) = digit-Lacks b',' (to_decimal n) (omega arith) (to_decimal-IsDigit n)
to_string-Lacks (negsuc n) =
    (omega arith, digit-Lacks b',' (to_decimal (suc n)) (omega arith) (to_decimal-IsDigit (suc n)))

pub setw-Lacks : (c width n : ℕ) → c < b'0' → Lacks c (setw width n)
setw-Lacks c width n h = digit-Lacks c (setw width n) h (setw-IsDigit width n)

-- `std::to_string(unsigned long)` prints an `int` that is not negative alike.
pub to_string_pos : (n : ℕ) → to_string (pos n) ≡ to_decimal n
unfolding to_string
to_string_pos n = refl

-- An `int` is printed in eleven bytes at most.
pub length-to_string_le : (z : ℤ) → IsInt z → length (to_string z) ≤ 11
unfolding to_string
length-to_string_le (pos n) h = omega (arith, length-to_decimal_le 9 n (omega arith))
length-to_string_le (negsuc n) h = omega (arith, length-to_decimal_le 9 (suc n) (omega arith))

-- The zeros fill at least the width.
pub setw_fills : (width n : ℕ) → width ≤ length (setw width n)
unfolding setw
setw_fills width n = omega (
  arith,
  length-append (replicate (width - length (to_decimal n)) b'0') (to_decimal n),
  length-replicate {A = ℕ} (width - length (to_decimal n)) b'0',
)
