-- ===== src/Prelude/Results.antt =====
-- Outcomes of code that may throw `std::invalid_argument`.

pub data Result {ℓ} (A : Type ℓ) : Type ℓ where
  ok : A → Result A
  invalid_argument : Result A

infixl 5 ◌>>=◌
abbrev pub ◌>>=◌ {ℓ κ} : {A : Type ℓ} {B : Type κ} → Result A → (A → Result B) → Result B
ok a >>= f = f a
invalid_argument >>= f = invalid_argument
