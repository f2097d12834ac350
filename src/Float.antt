-- ===== src/Float.antt =====
-- `f64` as the crate uses it: a type with the operations that the code calls. No law of them is
-- assumed here; what a theorem relies on it names.
use rjsonparser.Prelude.{ℕ, Bool, Option, Bytes}
use rjsonparser.Prelude.Int.{ℤ}

pub record Float (F : Type 0) : Type 0 where
  -- `v as f64`
  pub of_int : ℤ → F
  -- `1e0` to `1e22`
  pub pow10 : ℕ → F
  pub mul : F → F → F
  pub div : F → F → F
  pub negate : F → F
  pub eq : F → F → Bool
  pub is_finite : F → Bool
  -- `str::parse`
  pub parse : Bytes → Option F
  -- `{value}`
  pub display : F → Bytes
