-- ===== src/Keys/Masks.antt =====
-- `& self.mask` in src/keys.rs: the mask is a power of two less one, so it keeps an index below the capacity
-- as it is and takes the capacity itself to the first slot.
use Prim.Native.Nat.{bit_and, digits, bit_and-bitwise}
use rjsonparser.Prelude.{ℕ, zero, suc, ◌+◌, ◌*◌, ◌/◌, ◌%◌, ◌≤◌, min, ◌≡◌, refl, ap, arith}

-- All the digits are one.
pub data IsMask : ℕ → Type 0 where
  no_digits : IsMask 0
  one_more : {m : ℕ} → IsMask m → IsMask (2 * m + 1)

-- The digits of both, as many rounds as there are.
shared : ℕ → ℕ → ℕ → ℕ
shared rounds = digits (λ rest. zero) min rounds

shared_enough : (f g x y : ℕ) → x ≤ f → x ≤ g → shared f x y ≡ shared g x y
unfolding shared
shared_enough zero zero zero y le le' = refl
shared_enough zero (suc g) zero y le le' = refl
shared_enough (suc f) zero zero y le le' = refl
shared_enough (suc f) (suc g) zero y le le' = refl
shared_enough zero g (suc x) y le le' = absurd (omega (arith, le))
shared_enough (suc f) zero (suc x) y le le' = absurd (omega (arith, le'))
shared_enough (suc f) (suc g) (suc x) y le le' =
    omega (arith, shared_enough f g (suc x / 2) (y / 2) (omega (arith, le)) (omega (arith, le')))

low_digit : (x y : ℕ) → bit_and x y ≡ bit_and (x / 2) (y / 2) * 2 + min (x % 2) (y % 2)
unfolding shared
low_digit zero y = omega (arith, bit_and-bitwise zero y, bit_and-bitwise zero (y / 2))
low_digit (suc x) y = omega (
  arith,
  bit_and-bitwise (suc x) y,
  bit_and-bitwise (suc x / 2) (y / 2),
  shared_enough x (suc x / 2) (suc x / 2) (y / 2) (omega arith) (omega arith),
)

nothing_shared : (rounds x : ℕ) → x ≤ rounds → bit_and x 0 ≡ 0
nothing_shared rounds zero le = refl
nothing_shared zero (suc x) le = absurd (omega (arith, le))
nothing_shared (suc rounds) (suc x) le =
    omega (arith, low_digit (suc x) 0, nothing_shared rounds (suc x / 2) (omega (arith, le)))

pub bit_and-le : {mask : ℕ} → IsMask mask → (x : ℕ) → bit_and x mask ≤ mask
bit_and-le no_digits x = omega (arith, nothing_shared x x (omega arith))
bit_and-le (one_more {m = m} h) x =
    let half : (2 * m + 1) / 2 ≡ m = omega arith in
    omega (arith, low_digit x (2 * m + 1), ap (bit_and (x / 2)) half, bit_and-le h (x / 2))

pub bit_and-same : {mask : ℕ} → IsMask mask → (x : ℕ) → x ≤ mask → bit_and x mask ≡ x
bit_and-same no_digits x le = omega (arith, nothing_shared x x (omega arith), le)
bit_and-same (one_more {m = m} h) x le =
    let half : (2 * m + 1) / 2 ≡ m = omega arith in
    omega (
      arith,
      low_digit x (2 * m + 1),
      ap (bit_and (x / 2)) half,
      bit_and-same h (x / 2) (omega (arith, le)),
    )

pub bit_and-over : {mask : ℕ} → IsMask mask → bit_and (mask + 1) mask ≡ 0
bit_and-over no_digits = refl
bit_and-over (one_more {m = m} h) =
    let half : (2 * m + 1) / 2 ≡ m = omega arith in
    let up : (2 * m + 1 + 1) / 2 ≡ m + 1 = omega arith in
    omega (
      arith,
      low_digit (2 * m + 1 + 1) (2 * m + 1),
      ap (bit_and ((2 * m + 1 + 1) / 2)) half,
      ap (λ (k : ℕ). bit_and k m) up,
      bit_and-over h,
    )
