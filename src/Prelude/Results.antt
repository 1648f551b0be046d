-- ===== src/Prelude/Results.antt =====
-- Rust's Result with the error as its text.
use Prim.Native.String.{String}
use mathlib.Core.Path.{◌≡◌, refl}
use mathlib.Core.Logic.{◌⊎◌, inl, inr}

pub data Result (A : Type 0) : Type 0 where
  ok : A → Result A
  err : String → Result A

infixl 30 ◌>>=◌
abbrev pub ◌>>=◌ : {A B : Type 0} → Result A → (A → Result B) → Result B
ok a >>= f = f a
err e >>= f = err e

-- The error with a text before it, as `map_err(|e| format!("…{e}"))` makes it.
abbrev pub map_err : {A : Type 0} → (String → String) → Result A → Result A
map_err f (ok a) = ok a
map_err f (err e) = err (f e)

pub Result-cases :
    {A : Type 0} (r : Result A) → ((e : String) × (r ≡ err e)) ⊎ ((a : A) × (r ≡ ok a))
Result-cases (ok a) = inr (a, refl)
Result-cases (err e) = inl (e, refl)
