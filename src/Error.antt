-- ===== src/Error.antt =====
-- src/error.rs. A `ParseError` is its message: the literal text, with the number, the byte or the
-- text that `format!` puts into it. `ParseResult` is `Result`.
use Prim.Native.String.{String}
use rjsonparser.Prelude.{ℕ, ◌≡◌, refl, Bytes}

pub data ParseError : Type 0 where
  new : String → ParseError
  new_number : String → ℕ → ParseError
  new_text : String → Bytes → ParseError

-- Not an error of the code: what a loop by fuel gives where it has not come to its end in the rounds given.
abbrev pub out_of_fuel : ParseError
out_of_fuel = new "out of fuel"

pub data Result {ℓ} (A : Type ℓ) : Type ℓ where
  ok : A → Result A
  err : ParseError → Result A

module _ {ℓ κ} {A : Type ℓ} {B : Type κ} where
  infixl 5 ◌>>=◌
  abbrev pub ◌>>=◌ : Result A → (A → Result B) → Result B
  ok a >>= f = f a
  err e >>= f = err e

  -- Only the results of `m` matter to what follows it.
  pub bind_congr :
      (m : Result A) (f g : A → Result B) → ((a : A) → m ≡ ok a → f a ≡ g a) → m >>= f ≡ m >>= g
  bind_congr (ok a) f g h = h a refl
  bind_congr (err e) f g h = refl

  -- A chain that returns a value has run its first part to a value.
  pub bind-ok :
      {f : A → Result B} {v : B} (r : Result A)
      → r >>= f ≡ ok v
      → (x : A) × (r ≡ ok x) × (f x ≡ ok v)
  bind-ok (err e) stopped = cc
  bind-ok (ok x) reached = (x, refl, reached)
