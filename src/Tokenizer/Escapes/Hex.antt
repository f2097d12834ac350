-- ===== src/Tokenizer/Escapes/Hex.antt =====
-- Reading `\\uXXXX`, of src/tokenizer.rs: four hexadecimal digits are the code unit they stand for.
use rjsonparser.Prelude.{
  ℕ, suc, ◌+◌, ◌-◌, ◌*◌, ◌/◌, ◌%◌, ◌≤◌, ◌<◌, ◌≡◌, refl, ◌∙◌, Bool, [], ◌∷◌, Bytes, ltb,
  if◌then◌else◌, arith,
}
use rjsonparser.Text.{within}
use rjsonparser.Error.{ok}
use rjsonparser.Tokenizer.Escapes.{
  unhex, unit_value, hex_digits, parse_escape, not_low, low, low_digits, low_surrogate_follows,
  shift_in,
}

-- The digit for a number below 16, in upper or lower case.
abbrev pub hex_digit : Bool → ℕ → ℕ
hex_digit upper n =
    if ltb n 10 then b'0' + n else if upper then b'A' + (n - 10) else b'a' + (n - 10)

pub unhex-hex_digit : (upper : Bool) (n : ℕ) → n < 16 → unhex (hex_digit upper n) ≡ ok n
unfolding unhex
unhex-hex_digit upper n h = ground arith

abbrev pub hex4 : Bool → ℕ → Bytes
hex4 upper u =
    hex_digit upper (u / 4096)
    ∷ hex_digit upper (u / 256 % 16)
    ∷ hex_digit upper (u / 16 % 16)
    ∷ hex_digit upper (u % 16)
    ∷ []

hex4_value :
    (u : ℕ)
    → u < 0x10000
    → (((0 * 16 + u / 4096) * 16 + u / 256 % 16) * 16 + u / 16 % 16) * 16 + u % 16 ≡ u
hex4_value u h = omega arith

pub hex_digits-hex4 :
    (upper : Bool) (u : ℕ) → u < 0x10000 → hex_digits 4 0 (hex4 upper u) ≡ ok (unit_value u 6)
unfolding hex_digits
hex_digits-hex4 upper u h =
    rw
      (
        unhex-hex_digit upper (u / 4096) (omega arith),
        unhex-hex_digit upper (u / 256 % 16) (omega arith),
        unhex-hex_digit upper (u / 16 % 16) (omega arith),
        unhex-hex_digit upper (u % 16) (omega arith),
        hex4_value u h,
      )
      refl

low_digits_step :
    (k value h d : ℕ) (bs : Bytes)
    → unhex h ≡ ok d
    → low_digits (suc k) value (h ∷ bs) ≡ low_digits k (shift_in value d) bs
unfolding low_digits
low_digits_step k value h d bs e = ground (arith, e)

low_digits_end :
    (value : ℕ)
    → low_digits 0 value [] ≡ (if within 0xDC00 0xDFFF value then low value else not_low)
unfolding low_digits
low_digits_end value = refl

pub low_digits-hex4 :
    (upper : Bool) (u : ℕ)
    → u < 0x10000
    → low_digits 4 0 (hex4 upper u) ≡ (if within 0xDC00 0xDFFF u then low u else not_low)
low_digits-hex4 upper u h =
    low_digits_step 3 0 (hex_digit upper (u / 4096)) (u / 4096) _
      (unhex-hex_digit upper (u / 4096) (omega arith))
    ∙ low_digits_step 2 _ _ (u / 256 % 16) _ (unhex-hex_digit upper (u / 256 % 16) (omega arith))
    ∙ low_digits_step 1 _ _ (u / 16 % 16) _ (unhex-hex_digit upper (u / 16 % 16) (omega arith))
    ∙ low_digits_step 0 _ _ (u % 16) [] (unhex-hex_digit upper (u % 16) (omega arith))
    ∙ rw (hex4_value u h) (low_digits_end u)

-- `\\uXXXX`
abbrev pub unit_escape : Bool → ℕ → Bytes
unit_escape upper u = b'\\' ∷ b'u' ∷ hex4 upper u

pub parse-unit_escape :
    (upper : Bool) (u : ℕ) → u < 0x10000 → parse_escape (unit_escape upper u) ≡ ok (unit_value u 6)
unfolding parse_escape
parse-unit_escape upper u h = hex_digits-hex4 upper u h

pub low_surrogate_follows-unit_escape :
    (upper : Bool) (u : ℕ)
    → 0xDC00 ≤ u
    → u < 0xE000
    → low_surrogate_follows (unit_escape upper u) ≡ low u
unfolding low_surrogate_follows
low_surrogate_follows-unit_escape upper u h k =
    rw (low_digits-hex4 upper u (omega arith)) (ground arith)
