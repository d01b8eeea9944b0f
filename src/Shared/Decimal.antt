-- ===== src/Shared/Decimal.antt =====
-- Printing a number and reading it back.
use Prim.Native.Nat.{ℕ, zero, suc, ◌+◌, ◌-◌, ◌*◌, ◌/◌, ◌%◌, ◌^◌, ◌<◌}
use mathlib.Core.Path.{◌≡◌, refl, sym, ◌∙◌}
use mathlib.Core.Logic.{inl, inr, ◌≢◌}
use mathlib.Core.Bool.{true, false}
use mathlib.Core.List.{List, [], ◌∷◌, ◌++◌}
use native.Mathlib.Omega.{arith}
use transaction_manager.Shared.Tests.{ltb, Bool-cases}
use transaction_manager.Shared.Lists.{All, All-append}
use transaction_manager.Shared.Results.{ok}
use transaction_manager.Shared.Text.{
  print_digits, print_nat, print_int, ℤ, pos, negsuc, is_digit, read_digits, read_magnitude,
  read_sign, skip_spaces, stoll, stoul,
}

abbrev pub IsDigit : ℕ → Type 0
IsDigit c = is_digit c ≡ true

print_digits-IsDigit : (fuel n : ℕ) → All IsDigit (print_digits fuel n)
unfolding print_digits
print_digits-IsDigit zero n = tt
print_digits-IsDigit (suc fuel) n = elim (Bool-cases (ltb n 10)) [
  | inl e ↦ rw (e, print_digits) (ground arith, tt)
  | inr e ↦
      rw (e, print_digits)
        (All-append IsDigit (print_digits fuel (n / 10)) ((48 + n % 10) ∷ [])
          (print_digits-IsDigit fuel (n / 10)) (ground arith, tt))
]

read_digits-append :
    (v d : ℕ) (s : List ℕ)
    → All IsDigit s
    → IsDigit d
    → read_digits v (s ++ d ∷ []) ≡ read_digits v s * 10 + (d - 48)
unfolding read_digits
read_digits-append v d [] h e = rw e
read_digits-append v d (c ∷ s) h e = rw h.0 (read_digits-append (v * 10 + (c - 48)) d s h.1 e)

read-print_digits : (fuel n : ℕ) → n < fuel → read_digits 0 (print_digits fuel n) ≡ n
unfolding print_digits read_digits
read-print_digits zero n h = absurd (omega arith)
read-print_digits (suc fuel) n h = elim (Bool-cases (ltb n 10)) [
  | inl e ↦ rw (e, print_digits) (ground arith)
  | inr e ↦
      rw (e, print_digits)
        (read_digits-append 0 (48 + n % 10) (print_digits fuel (n / 10))
            (print_digits-IsDigit fuel (n / 10)) (ground arith)
          ∙ omega (arith, read-print_digits fuel (n / 10) (ground arith)))
]

-- The text begins with a digit and holds nothing but digits.
abbrev IsNumber : List ℕ → Type 0
IsNumber s = (c : ℕ) × (rest : List ℕ) × (s ≡ c ∷ rest) × IsDigit c

IsNumber-head : (s : List ℕ) → s ≢ [] → All IsDigit s → IsNumber s
IsNumber-head [] ne h = absurd (ne refl)
IsNumber-head (c ∷ s) ne h = (c, s, refl, h.0)

append-ne-nil : (s : List ℕ) (c : ℕ) → (s ++ c ∷ []) ≢ []
append-ne-nil [] c h = cc
append-ne-nil (x ∷ s) c h = cc

print_nat-ne-nil : (n : ℕ) → print_nat n ≢ []
unfolding print_nat print_digits
print_nat-ne-nil n h = elim (Bool-cases (ltb n 10)) [
  | inl e ↦
      let one_digit : print_digits (suc n) n ≡ (48 + n) ∷ [] = rw (e, print_digits) in
      cc (sym one_digit ∙ h)
  | inr e ↦
      let more_digits : print_digits (suc n) n ≡ print_digits n (n / 10) ++ (48 + n % 10) ∷ [] =
        rw (e, print_digits) in
      append-ne-nil (print_digits n (n / 10)) (48 + n % 10) (sym more_digits ∙ h)
]

print_nat-IsNumber : (n : ℕ) → IsNumber (print_nat n)
print_nat-IsNumber n =
    IsNumber-head (print_nat n) (print_nat-ne-nil n)
      (unfold print_nat in print_digits-IsDigit (suc n) n)

pub read-print_nat : (n : ℕ) → read_digits 0 (print_nat n) ≡ n
unfolding print_nat
read-print_nat n = read-print_digits (suc n) n (omega arith)

magnitude-print_nat : (n : ℕ) → read_magnitude (print_nat n) ≡ ok n
unfolding read_magnitude
magnitude-print_nat n =
    let (c, rest, e, d) = print_nat-IsNumber n in
    let value : read_digits 0 (c ∷ rest) ≡ n = rw e at (read-print_nat n) in
    rw (e, read_magnitude) (rw (d, value))

-- A number begins with no space and no sign.
plain-print_nat : (n : ℕ) → read_sign (skip_spaces (print_nat n)) ≡ (false, print_nat n)
unfolding read_sign skip_spaces
plain-print_nat n =
    let (c, rest, e, d) = print_nat-IsNumber n in rw (e, skip_spaces, read_sign) (ground arith)

-- A number begins with no sign.
pub sign-print_nat : (n : ℕ) → read_sign (print_nat n) ≡ (false, print_nat n)
unfolding read_sign
sign-print_nat n = let (c, rest, e, d) = print_nat-IsNumber n in rw (e, read_sign) (ground arith)

-- std::stoul reads back what was printed, in 64 bits.
pub stoul-print_nat : (n : ℕ) → n < 2 ^ 64 → stoul (print_nat n) ≡ ok n
unfolding stoul
stoul-print_nat n h = rw (plain-print_nat n) (rw (magnitude-print_nat n) (ground arith))

abbrev pub FitsInt64 : ℤ → Type 0
FitsInt64 (pos n) = n < 2 ^ 63
FitsInt64 (negsuc n) = n < 2 ^ 63

pub stoll-print_int : (i : ℤ) → FitsInt64 i → stoll (print_int i) ≡ ok i
unfolding stoll print_int
stoll-print_int (pos n) h = rw (plain-print_nat n) (rw (magnitude-print_nat n) (ground arith))
stoll-print_int (negsuc n) h =
    unfold skip_spaces read_sign in rw (magnitude-print_nat (suc n)) (ground arith)

-- The characters of a printed number.
pub print_nat-IsDigit : (n : ℕ) → All IsDigit (print_nat n)
unfolding print_nat
print_nat-IsDigit n = print_digits-IsDigit (suc n) n

pub print_int-ne-nil : (i : ℤ) → print_int i ≢ []
unfolding print_int
print_int-ne-nil (pos n) h = print_nat-ne-nil n h
print_int-ne-nil (negsuc n) h = cc
