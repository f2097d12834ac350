-- ===== src/Prelude/Decimal.antt =====
-- Decimal text of a number: what `to_string` of an unsigned integer gives, and its value.
use Prim.Native.Nat.{ℕ, zero, suc, ◌+◌, ◌-◌, ◌*◌, ◌/◌, ◌%◌, ◌<◌}
use mathlib.Core.Path.{◌≡◌, ap}
use mathlib.Core.Logic.{inl, inr, ◌≢◌}
use mathlib.Core.Bool.{false}
use mathlib.Core.List.{[], ◌∷◌, ◌++◌}
use native.Mathlib.Omega.{arith}
use mathlib.Core.List.{concat-ne-nil}
use rjsonparser.Prelude.Tests.{ltb, if◌then◌else◌, Bool-cases}
use rjsonparser.Prelude.Lists.{Bytes}

decimal_fuel : ℕ → ℕ → Bytes
decimal_fuel zero n = []
decimal_fuel (suc f) n =
    let front = decimal_fuel f (n / 10) in
    if ltb n 10 then (b'0' + n) ∷ [] else front ++ (b'0' + n % 10) ∷ []

unfoldable pub to_decimal : ℕ → Bytes
unfolding decimal_fuel
to_decimal n = decimal_fuel (suc n) n

-- More fuel than the number changes nothing.
decimal_fuel_enough : (f g n : ℕ) → n < f → n < g → decimal_fuel f n ≡ decimal_fuel g n
unfolding decimal_fuel
decimal_fuel_enough zero g n h k = elim h [ ]
decimal_fuel_enough (suc f) zero n h k = elim k [ ]
decimal_fuel_enough (suc f) (suc g) n h k = elim (Bool-cases (ltb n 10)) [
  | inl small ↦ rw small
  | inr big ↦ rw big (
      ap (λ (front : Bytes). front ++ (b'0' + n % 10) ∷ [])
        (decimal_fuel_enough f g (n / 10) (ground arith) (ground arith)))
]

pub to_decimal_digit : (d : ℕ) → d < 10 → to_decimal d ≡ (b'0' + d) ∷ []
unfolding to_decimal
to_decimal_digit d h = ground arith

pub to_decimal-ne-nil : (n : ℕ) → to_decimal n ≢ []
unfolding to_decimal
to_decimal-ne-nil n h = ground (arith, concat-ne-nil (b'0' + n % 10) (decimal_fuel n (n / 10)))

-- One more digit at the right.
pub to_decimal-snoc :
    (v d : ℕ) → 0 < v → d < 10 → to_decimal (v * 10 + d) ≡ to_decimal v ++ (b'0' + d) ∷ []
unfolding to_decimal
to_decimal-snoc v d h k =
    let q : (v * 10 + d) / 10 ≡ v = omega arith in
    let r : (v * 10 + d) % 10 ≡ d = omega arith in
    let big : ltb (v * 10 + d) 10 ≡ false = ground arith in
    rw (big) (
      rw (q, r)
        (ap (λ (front : Bytes). front ++ (b'0' + d) ∷ [])
          (decimal_fuel_enough (v * 10 + d) (suc v) v (omega arith) (omega arith))))

-- The number that a run of digits stands for, read left to right after `acc`.
abbrev pub decimal_value : ℕ → Bytes → ℕ
decimal_value acc [] = acc
decimal_value acc (b ∷ bs) = decimal_value (acc * 10 + (b - b'0')) bs
