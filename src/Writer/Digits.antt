-- ===== src/Writer/Digits.antt =====
-- `write_i64` of src/writer.rs puts an integer's decimal text, two digits at a time from the table.
use rjsonparser.Prelude.{
  ℕ, zero, suc, ◌+◌, ◌*◌, ◌/◌, ◌%◌, ◌^◌, ◌≤◌, ◌<◌, ◌≡◌, refl, sym, ap, ◌∙◌, Bool, true, ◌&&◌, [],
  ◌∷◌, ◌++◌, Bytes, leb, append-nil, append_assoc, Bool-cases, inl, inr, arith, to_decimal,
  to_decimal_digit, to_decimal-snoc, eq_bytes, eq_bytes_iff, ◌==◌, ==_iff, if◌then◌else◌,
  lt→not-leb, leb→le,
}
use native.Mathlib.Numerals.{unary_clauses}
use native.Mathlib.Nat.{pow-suc}
use rjsonparser.Prelude.Int.{ℤ, pos, negsuc}
use rjsonparser.Writer.Encode.{pair_at, digit_pairs, unsigned_abs, i64_digits}

abbrev two_digits : ℕ → Bytes
two_digits r = (b'0' + r / 10) ∷ (b'0' + r % 10) ∷ []

all_below : ℕ → (ℕ → Bool) → Bool
all_below zero p = true
all_below (suc n) p = p n && all_below n p

all_below-lt : (n : ℕ) (p : ℕ → Bool) (i : ℕ) → all_below n p ≡ true → i < n → p i ≡ true
unfolding all_below
all_below-lt zero p i all h = elim h [ ]
all_below-lt (suc n) p i all h = elim (Bool-cases (i == n)) [
  | inl last ↦ ground (arith, ap p ((==_iff i n).0 last))
  | inr before ↦ ground (arith, all_below-lt n p i)
]

-- The table, entry by entry.
pairs_right : all_below 100 (λ r. eq_bytes (pair_at (r * 2)) (two_digits r)) ≡ true
unfolding all_below pair_at
pairs_right = refl

pair_at_lem : (r : ℕ) → r < 100 → pair_at (r * 2) ≡ two_digits r
pair_at_lem r h =
    (eq_bytes_iff (pair_at (r * 2)) (two_digits r)).0
      (all_below-lt 100 (λ k. eq_bytes (pair_at (k * 2)) (two_digits k)) r pairs_right h)

to_decimal_two : (n : ℕ) → 10 ≤ n → n < 100 → to_decimal n ≡ two_digits n
to_decimal_two n h k =
    let same : n ≡ n / 10 * 10 + n % 10 = omega arith in
    ap to_decimal same
    ∙ to_decimal-snoc (n / 10) (n % 10) (omega arith) (omega arith)
    ∙ ap (λ (t : Bytes). t ++ (b'0' + n % 10) ∷ []) (to_decimal_digit (n / 10) (omega arith))

to_decimal_hundred : (n : ℕ) → 100 ≤ n → to_decimal n ≡ to_decimal (n / 100) ++ two_digits (n % 100)
to_decimal_hundred n h =
    let same : n ≡ (n / 100 * 10 + n % 100 / 10) * 10 + n % 100 % 10 = omega arith in
    ap to_decimal same
    ∙ to_decimal-snoc (n / 100 * 10 + n % 100 / 10) (n % 100 % 10) (omega arith) (omega arith)
    ∙ ap (λ (t : Bytes). t ++ (b'0' + n % 100 % 10) ∷ [])
        (to_decimal-snoc (n / 100) (n % 100 / 10) (omega arith) (omega arith))
    ∙ append_assoc (to_decimal (n / 100)) ((b'0' + n % 100 / 10) ∷ []) ((b'0' + n % 100 % 10) ∷ [])

digit_pairs_step :
    (fuel rest : ℕ) (digits : Bytes)
    → digit_pairs (suc fuel) rest digits ≡ (
        if leb 100 rest
        then digit_pairs fuel (rest / 100) (pair_at (rest % 100 * 2) ++ digits)
        else if leb 10 rest
        then pair_at (rest * 2) ++ digits
        else (b'0' + rest) ∷ digits)
unfolding digit_pairs
digit_pairs_step fuel rest digits = refl

-- The digits of a number below a hundred.
last_digits :
    (rest : ℕ) (digits : Bytes)
    → rest < 100
    → (if leb 10 rest then pair_at (rest * 2) ++ digits else (b'0' + rest) ∷ digits)
      ≡ to_decimal rest ++ digits
last_digits rest digits h = elim (Bool-cases (leb 10 rest)) [
  | inl two ↦ rw two (
      ap (λ (t : Bytes). t ++ digits)
        (pair_at_lem rest h ∙ sym (to_decimal_two rest (leb→le 10 rest two) h)))
  | inr one ↦ rw one (ap (λ (t : Bytes). t ++ digits) (sym (to_decimal_digit rest (ground arith))))
]

digit_pairs-to_decimal :
    (fuel rest : ℕ) (digits : Bytes)
    → rest < 100 ^ suc fuel
    → digit_pairs (suc fuel) rest digits ≡ to_decimal rest ++ digits
digit_pairs-to_decimal zero rest digits h =
    rw (digit_pairs_step zero rest digits, lt→not-leb 100 rest h) (last_digits rest digits h)
digit_pairs-to_decimal (suc fuel) rest digits h = elim (Bool-cases (leb 100 rest)) [
  | inl big ↦
      let k = simp unary_clauses at h in
      rw (digit_pairs_step (suc fuel) rest digits, big)
        (digit_pairs-to_decimal fuel (rest / 100) (pair_at (rest % 100 * 2) ++ digits)
            (omega (arith, k, pow-suc 100 fuel))
          ∙ rw
              (
                pair_at_lem (rest % 100) (omega arith),
                to_decimal_hundred rest (leb→le 100 rest big),
                append_assoc,
              )
              refl)
  | inr small ↦
      rw (digit_pairs_step (suc fuel) rest digits, small) (last_digits rest digits (ground arith))
]

abbrev pub sign : ℤ → Bytes
sign (pos n) = []
sign (negsuc n) = b'-' ∷ []

-- The digits of an `i64` are its decimal text: a minus sign for a negative number, and its absolute
-- value with no leading zero, -2^63 included.
pub i64_digits-to_decimal :
    (value : ℤ)
    → unsigned_abs value ≤ 2 ^ 63
    → i64_digits value ≡ sign value ++ to_decimal (unsigned_abs value)
unfolding i64_digits
i64_digits-to_decimal (pos n) h =
    digit_pairs-to_decimal 9 n [] (omega arith) ∙ append-nil (to_decimal n)
i64_digits-to_decimal (negsuc n) h =
    ap (λ (t : Bytes). b'-' ∷ t)
      (digit_pairs-to_decimal 9 (suc n) [] (omega arith) ∙ append-nil (to_decimal (suc n)))
