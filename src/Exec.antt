-- ===== src/Exec.antt =====
-- Methods that change `self` through `&mut` and may return `Err` early (`?`): an action takes the
-- state and gives the result beside the state that it leaves, on the error path too.
use rjsonparser.Error.{ParseError, Result, ok, err}
use rjsonparser.Prelude.{Bool, true, false}

abbrev pub Exec : Type 0 → Type 0 → Type 0
Exec S A = S → Result A × S

module _ {S A : Type 0} where
  abbrev pub pure : A → Exec S A
  pure a s = (ok a, s)

  abbrev pub raise : ParseError → Exec S A
  raise e s = (err e, s)

  abbrev pub lift : Result A → Exec S A
  lift r s = (r, s)

  abbrev pub gets : (S → A) → Exec S A
  gets f s = (ok (f s), s)

abbrev pub modify : {S : Type 0} → (S → S) → Exec S (Unit {0})
modify f s = (ok tt, f s)

module _ {S A B : Type 0} where
  abbrev pub continue : Result A × S → (A → Exec S B) → Result B × S
  continue (ok a, s) f = f a s
  continue (err e, s) f = (err e, s)

  infixl 5 ◌>>=◌ ◌>>◌
  abbrev pub ◌>>=◌ : Exec S A → (A → Exec S B) → Exec S B
  ◌>>=◌ m f s = continue (m s) f

  abbrev pub ◌>>◌ : Exec S A → Exec S B → Exec S B
  ◌>>◌ m n s = continue (m s) (λ _. n)

-- `if test { return Err(e) }`
abbrev pub fail_if : {S : Type 0} → Bool → ParseError → Exec S (Unit {0})
fail_if true e s = (err e, s)
fail_if false e s = (ok tt, s)
