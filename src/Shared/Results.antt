-- ===== src/Shared/Results.antt =====
-- C++ exceptions as values: the two standard exceptions that the program can raise.
pub data Exception : Type 0 where
  invalid_argument out_of_range : Exception

pub data Result {ℓ} (A : Type ℓ) : Type ℓ where
  ok : A → Result A
  raise : Exception → Result A

infixl 5 ◌>>=◌
abbrev pub ◌>>=◌ {ℓ κ} : {A : Type ℓ} {B : Type κ} → Result A → (A → Result B) → Result B
ok a >>= f = f a
raise e >>= f = raise e
