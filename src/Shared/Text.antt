-- ===== src/Shared/Text.antt =====
-- The parts of the C++ library that the program uses on strings: std::getline with a delimiter,
-- find of a character, comparison, the printing of integers, std::stoll and std::stoul.
use Prim.Native.Char.{code}
use Prim.Native.Nat.{ℕ, zero, suc, ◌+◌, ◌-◌, ◌*◌, ◌/◌, ◌%◌, ◌^◌}
use Prim.Native.String.{String}
use mathlib.Core.Bool.{Bool, true, false, ◌&&◌, ◌||◌}
use mathlib.Core.Option.{Option, none, some}
use mathlib.Core.List.{List, [], ◌∷◌, ◌++◌}
use transaction_manager.Shared.Tests.{ltb, leb, ◌==◌, if◌then◌else◌}
use transaction_manager.Shared.Results.{Result, ok, raise, invalid_argument, out_of_range, ◌>>=◌}

-- The bytes of an ASCII literal.
abbrev pub codes : String → List ℕ
codes String.[] = []
codes (String.◌∷◌ c s) = code c ∷ codes s

unfoldable pub str_eq : List ℕ → List ℕ → Bool
str_eq [] [] = true
str_eq [] (_ ∷ _) = false
str_eq (_ ∷ _) [] = false
str_eq (a ∷ s) (b ∷ t) = a == b && str_eq s t

-- What successive calls of getline return; `part` is what has been read of the current piece. A
-- delimiter ends a piece, and so does the end of the text, unless nothing stands before it.
unfoldable pub pieces : ℕ → List ℕ → List ℕ → List (List ℕ)
pieces delimiter [] [] = []
pieces delimiter (a ∷ part) [] = (a ∷ part) ∷ []
pieces delimiter part (c ∷ s) =
    let ended = part ∷ pieces delimiter [] s in
    let longer = pieces delimiter (part ++ c ∷ []) s in if c == delimiter then ended else longer

-- The text before and after the first occurrence of the character.
unfoldable pub cut : ℕ → List ℕ → Option (List ℕ × List ℕ)
cut at [] = none
cut at (c ∷ s) =
    let later : Option (List ℕ × List ℕ) = elim (cut at s) [
      | none ↦ none
      | some (before, after) ↦ some (c ∷ before, after)
    ] in
    if c == at then some ([], s) else later

-- A number in decimal, by the number of digits allowed; `print_nat` allows enough of them.
unfoldable pub print_digits : ℕ → ℕ → List ℕ
print_digits zero n = []
print_digits (suc fuel) n = elim (ltb n 10) [
  | true ↦ (b'0' + n) ∷ []
  | false ↦ print_digits fuel (n / 10) ++ (b'0' + n % 10) ∷ []
]

unfoldable pub print_nat : ℕ → List ℕ
print_nat n = print_digits (suc n) n

-- `negsuc n` is -(n + 1).
pub data ℤ : Type 0 where
  pos : ℕ → ℤ
  negsuc : ℕ → ℤ

unfoldable pub print_int : ℤ → List ℕ
unfolding print_nat
print_int (pos n) = print_nat n
print_int (negsuc n) = b'-' ∷ print_nat (suc n)

abbrev pub is_digit : ℕ → Bool
is_digit c = leb b'0' c && leb c b'9'

-- isspace in the C locale.
abbrev pub is_space : ℕ → Bool
is_space c = c == b' ' || (leb 9 c && leb c 13)

-- The value of the digits that the text begins with; `value` is that of the digits before.
unfoldable pub read_digits : ℕ → List ℕ → ℕ
read_digits value [] = value
read_digits value (c ∷ s) =
    let rest = read_digits (value * 10 + (c - b'0')) s in if is_digit c then rest else value

unfoldable pub skip_spaces : List ℕ → List ℕ
skip_spaces [] = []
skip_spaces (c ∷ s) = let rest = skip_spaces s in if is_space c then rest else c ∷ s

-- The number without its sign; text without a digit is no number.
unfoldable pub read_magnitude : List ℕ → Result ℕ
read_magnitude [] = raise invalid_argument
read_magnitude (c ∷ s) = if is_digit c then ok (read_digits 0 (c ∷ s)) else raise invalid_argument

-- The sign, `true` for minus, and the text behind it.
unfoldable pub read_sign : List ℕ → Bool × List ℕ
read_sign [] = (false, [])
read_sign (c ∷ s) =
    if c == b'-' then (true, s) else if c == b'+' then (false, s) else (false, c ∷ s)

-- long long of 64 bits.
signed_value : Bool → ℕ → Result ℤ
signed_value false n = if ltb n (2 ^ 63) then ok (pos n) else raise out_of_range
signed_value true zero = ok (pos 0)
signed_value true (suc n) = if ltb n (2 ^ 63) then ok (negsuc n) else raise out_of_range

-- unsigned long of 64 bits: a minus sign negates modulo 2^64.
unsigned_value : Bool → ℕ → Result ℕ
unsigned_value minus n =
    if ltb n (2 ^ 64) then ok (if minus then (2 ^ 64 - n) % 2 ^ 64 else n) else raise out_of_range

unfoldable pub stoll : List ℕ → Result ℤ
unfolding signed_value
stoll s =
    let (minus, digits) = read_sign (skip_spaces s) in read_magnitude digits >>= signed_value minus

unfoldable pub stoul : List ℕ → Result ℕ
unfolding unsigned_value
stoul s =
    let (minus, digits) = read_sign (skip_spaces s) in
    read_magnitude digits >>= unsigned_value minus
