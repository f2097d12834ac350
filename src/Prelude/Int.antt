-- ===== src/Prelude/Int.antt =====
-- Signed integers over the native numbers, under the library's names, and their wrapping to 32 bits.
use rjsonparser.Prelude.{
  ℕ, suc, ◌+◌, ◌-◌, ◌%◌, ◌^◌, ◌≤◌, ◌<◌, ◌≡◌, refl, ap, Bool, arith, ltb, leb, if◌then◌else◌,
}

-- `negsuc n` is -(n + 1).
pub data ℤ : Type 0 where
  pos : ℕ → ℤ
  negsuc : ℕ → ℤ

abbrev pub pos_part : ℤ → ℕ
pos_part (pos n) = n
pos_part (negsuc n) = 0

abbrev pub neg_part : ℤ → ℕ
neg_part (pos n) = 0
neg_part (negsuc n) = suc n

-- a - b, as an integer.
abbrev pub sub_ℕ : ℕ → ℕ → ℤ
sub_ℕ a b = if leb b a then pos (a - b) else negsuc (b - a - 1)

infixl 65 ◌+ℤ◌
infix 50 ◌≤ℤ◌
unfoldable pub ◌+ℤ◌ : ℤ → ℤ → ℤ
a +ℤ b = sub_ℕ (pos_part a + pos_part b) (neg_part a + neg_part b)

unfoldable pub neg_ℤ : ℤ → ℤ
neg_ℤ a = sub_ℕ (neg_part a) (pos_part a)

abbrev pub ◌≤ℤ◌ : ℤ → ℤ → Type 0
a ≤ℤ b = pos_part a + neg_part b ≤ pos_part b + neg_part a

abbrev pub leb_ℤ : ℤ → ℤ → Bool
leb_ℤ a b = leb (pos_part a + neg_part b) (pos_part b + neg_part a)

-- The value of an `i32` whose true value may lie outside its range: the low 32 bits, read signed.
abbrev pub i32_of_bits : ℕ → ℤ
i32_of_bits m = if ltb m (2 ^ 31) then pos m else negsuc (2 ^ 32 - m - 1)

unfoldable pub wrap_i32 : ℤ → ℤ
wrap_i32 (pos n) = i32_of_bits (n % 2 ^ 32)
wrap_i32 (negsuc n) = i32_of_bits (2 ^ 32 - 1 - n % 2 ^ 32)

-- Inside the range of an `i32` nothing wraps.
pub wrap_i32_in_range : (z : ℤ) → negsuc (2 ^ 31 - 1) ≤ℤ z → z ≤ℤ pos (2 ^ 31 - 1) → wrap_i32 z ≡ z
unfolding wrap_i32
wrap_i32_in_range (pos n) lo hi = ground arith
wrap_i32_in_range (negsuc n) lo hi = ground arith

-- The value of type `i32`.
abbrev pub InI32 : ℤ → Type 0
InI32 z = (negsuc (2 ^ 31 - 1) ≤ℤ z) × (z ≤ℤ pos (2 ^ 31 - 1))

pub wrap_i32-InI32 : (z : ℤ) → InI32 (wrap_i32 z)
unfolding wrap_i32
wrap_i32-InI32 (pos n) = ground arith
wrap_i32-InI32 (negsuc n) = ground arith

bits : ℤ → ℕ
bits (pos n) = n % 2 ^ 32
bits (negsuc n) = 2 ^ 32 - 1 - n % 2 ^ 32

wrap_i32-bits : (z : ℤ) → wrap_i32 z ≡ i32_of_bits (bits z)
unfolding wrap_i32 bits
wrap_i32-bits (pos n) = refl
wrap_i32-bits (negsuc n) = refl

bits_lt : (z : ℤ) → bits z < 2 ^ 32
unfolding bits
bits_lt (pos n) = omega arith
bits_lt (negsuc n) = omega arith

bits-i32_of_bits : (m : ℕ) → m < 2 ^ 32 → bits (i32_of_bits m) ≡ m
unfolding bits
bits-i32_of_bits m h = ground arith

bits-+ℤ : (a b : ℤ) → bits (a +ℤ b) ≡ (bits a + bits b) % 2 ^ 32
unfolding bits ◌+ℤ◌
bits-+ℤ (pos a) (pos b) = ground arith
bits-+ℤ (pos a) (negsuc b) = ground arith
bits-+ℤ (negsuc a) (pos b) = ground arith
bits-+ℤ (negsuc a) (negsuc b) = ground arith

bits-neg_ℤ : (a : ℤ) → bits (neg_ℤ a) ≡ (2 ^ 32 - bits a) % 2 ^ 32
unfolding bits neg_ℤ
bits-neg_ℤ (pos a) = ground arith
bits-neg_ℤ (negsuc a) = ground arith

bits-wrap_i32 : (z : ℤ) → bits (wrap_i32 z) ≡ bits z
bits-wrap_i32 z = rw (wrap_i32-bits z) (bits-i32_of_bits (bits z) (bits_lt z))

-- Sums may be wrapped early or late.
pub wrap_i32-add : (a b : ℤ) → wrap_i32 (wrap_i32 a +ℤ b) ≡ wrap_i32 (a +ℤ b)
wrap_i32-add a b =
    rw (wrap_i32-bits (wrap_i32 a +ℤ b), wrap_i32-bits (a +ℤ b))
      (rw (bits-+ℤ (wrap_i32 a) b, bits-+ℤ a b, bits-wrap_i32 a))

-- One step down and then `k` more are `k + 1` steps down.
pub wrap_i32_steps :
    (z : ℤ) (k : ℕ)
    → wrap_i32 (wrap_i32 (z +ℤ negsuc 0) +ℤ neg_ℤ (wrap_i32 (pos k)))
      ≡ wrap_i32 (z +ℤ neg_ℤ (wrap_i32 (pos (k + 1))))
wrap_i32_steps z k =
    rw
      (
        wrap_i32-bits (wrap_i32 (z +ℤ negsuc 0) +ℤ neg_ℤ (wrap_i32 (pos k))),
        wrap_i32-bits (z +ℤ neg_ℤ (wrap_i32 (pos (k + 1)))),
      )
      (ap i32_of_bits (
        omega (
          arith,
          bits-+ℤ (wrap_i32 (z +ℤ negsuc 0)) (neg_ℤ (wrap_i32 (pos k))),
          bits-wrap_i32 (z +ℤ negsuc 0),
          bits-+ℤ z (negsuc 0),
          bits-neg_ℤ (wrap_i32 (pos k)),
          bits-wrap_i32 (pos k),
          bits-+ℤ z (neg_ℤ (wrap_i32 (pos (k + 1)))),
          bits-neg_ℤ (wrap_i32 (pos (k + 1))),
          bits-wrap_i32 (pos (k + 1)),
          bits_pos k,
          bits_pos (k + 1),
          bits_lt z,
          bits_minus_one,
        )))
  where
    bits_pos : (n : ℕ) → bits (pos n) ≡ n % 2 ^ 32
    bits_pos n = unfold bits in refl

    bits_minus_one : bits (negsuc 0) ≡ 2 ^ 32 - 1
    bits_minus_one = unfold bits in refl
