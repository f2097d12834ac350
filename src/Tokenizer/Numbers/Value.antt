-- ===== src/Tokenizer/Numbers/Value.antt =====
-- The value that the number reader holds after a whole integer or decimal fraction.
use rjsonparser.Prelude.{
  ℕ, ◌+◌, ◌-◌, ◌*◌, ◌≤◌, ◌<◌, ◌≡◌, ◌≢◌, refl, ◌∙◌, ◌⊎◌, inl, inr, Bool, true, false, ◌&&◌, [], ◌∷◌,
  Bytes, leb, ◌==◌, if◌then◌else◌, Bool-cases, arith, All, decimal_value, ==_iff, append-nil,
  to_decimal, to_decimal-snoc, to_decimal-ne-nil,
}
use rjsonparser.Prelude.Int.{pos, leb_ℤ}
use rjsonparser.Number.{Number, i32_num, i64_num, big_int}
use rjsonparser.Tokenizer.Numbers.{
  leading_zero, integer, NumberState, i64_max, take_byte, take_digit, number_byte, start, negated,
  i32_min, i32_max, integer_of, integer_value,
}
use rjsonparser.Tokenizer.Numbers.Runs.{Fed, running, feed, feed-take}
use rjsonparser.Tokenizer.Numbers.Digits.{IsDigit, next_digit, feed_digits}

-- A number whose first digit is `c` and which goes on with `rest`, read from its first byte.
abbrev pub read_from : Bool → ℕ → Bytes → Fed
read_from true c rest = feed (start b'-') (c ∷ rest)
read_from false c rest = feed (start c) rest

-- The state behind the sign and the first digit.
pub record First (negative : Bool) (c : ℕ) (s : NumberState) : Type 0 where
  pub at : s.stage ≡ (if c == b'0' then leading_zero else integer)
  pub sign : s.negative ≡ negative
  pub whole : s.is_real ≡ false
  pub room : s.mantissa_full ≡ false
  pub mantissa : s.mantissa ≡ c - b'0'
  pub shift : s.decimal_shift ≡ pos 0
  pub no_text : s.big_digits ≡ []

start-First : (c : ℕ) → IsDigit c → First false c (start c)
unfolding start
start-First c h = ground arith

-- the state after a minus and the digit `c`
abbrev second : ℕ → NumberState
second c = record (start b'-') {
  stage = if c == b'0' then leading_zero else integer;
  mantissa = c - b'0';
  len = 2;
}

second-First : (c : ℕ) → IsDigit c → First true c (second c)
unfolding start
second-First c h = ground arith

number_byte-second : (c : ℕ) → IsDigit c → number_byte (start b'-') c ≡ take_byte (second c)
unfolding number_byte start take_digit
number_byte-second c h = ground arith

pub read_from-First :
    (negative : Bool) (c : ℕ) (rest : Bytes)
    → IsDigit c
    → (s : NumberState) × (read_from negative c rest ≡ feed s rest) × First negative c s
read_from-First false c rest h = (start c, refl, start-First c h)
read_from-First true c rest h =
    (second c, feed-take _ (second c) c rest (number_byte-second c h), second-First c h)

-- An integer with no leading zero: in the mantissa while it fits, else as its text.
record IntegerText (negative : Bool) (value : ℕ) (s : NumberState) : Type 0 where
  positive : 0 < value
  pub sign : s.negative ≡ negative
  pub whole : s.is_real ≡ false
  kept :
      ((s.mantissa_full ≡ false) × (s.mantissa ≡ value) × (value ≤ i64_max) × (s.big_digits ≡ []))
      ⊎ ((s.mantissa_full ≡ true) × (i64_max < value) × (s.big_digits ≡ to_decimal value))

next_digit-IntegerText :
    (negative : Bool) (value b : ℕ) (s : NumberState)
    → IsDigit b
    → IntegerText negative value s
    → IntegerText negative (value * 10 + (b - b'0')) (next_digit false s b)
unfolding take_digit
next_digit-IntegerText negative value b s d h = record {
  positive = omega (arith, h.positive);
  sign = ground (arith, h.sign);
  whole = ground (arith, h.whole);
  kept = ground (arith, h.kept, to_decimal-snoc value (b - b'0') h.positive);
}

First-IntegerText :
    (negative : Bool) (c : ℕ) (s : NumberState)
    → 0 < c - b'0'
    → IsDigit c
    → First negative c s
    → IntegerText negative (c - b'0') s
First-IntegerText negative c s h d f = record {
  positive = h;
  sign = f.sign;
  whole = f.whole;
  kept = inl (f.room, f.mantissa, omega arith, f.no_text);
}

-- The `Number` of an integer: the smallest of the three forms that holds it.
unfoldable pub exact_integer : {F : Type 0} → Bool → ℕ → Number F
exact_integer negative value =
    let z = negated negative value in
    if leb value i64_max
    then (if leb_ℤ i32_min z && leb_ℤ z i32_max then i32_num z else i64_num z)
    else big_int (if negative then b'-' ∷ to_decimal value else to_decimal value)

module _ {F : Type 0} where
  integer_of-text :
      (digits : Bytes) (s : NumberState)
      → digits ≢ []
      → integer_of {F = F} digits s ≡ big_int (if s.negative then b'-' ∷ digits else digits)
  unfolding integer_of
  integer_of-text [] s h = absurd (h refl)
  integer_of-text (d ∷ digits) s h = refl

  integer_value-small :
      (s : NumberState)
      → s.big_digits ≡ []
      → s.mantissa ≤ i64_max
      → integer_value {F = F} s ≡ exact_integer s.negative s.mantissa
  unfolding integer_value exact_integer
  integer_value-small s h fits = ground arith

  IntegerText-value :
      (negative : Bool) (value : ℕ) (s : NumberState)
      → IntegerText negative value s
      → integer_value {F = F} s ≡ exact_integer negative value
  unfolding integer_value exact_integer
  IntegerText-value negative value s h = elim h.kept [
    | inl (room, same, fits, none_yet) ↦
        rw (← same, ← h.sign) (integer_value-small s none_yet (omega arith))
    | inr (is_full, big, text) ↦
        ground (arith, integer_of-text s.big_digits s, to_decimal-ne-nil value, h.sign)
  ]

module _ (F : Type 0) where
  abbrev pub ReadsInteger : Bool → ℕ → Bytes → Type 0
  ReadsInteger negative c ds =
      (t : NumberState) × (read_from negative c ds ≡ running t)
      × ((t.stage ≡ leading_zero) ⊎ (t.stage ≡ integer))
      × (t.is_real ≡ false)
      × (integer_value {F = F} t ≡ exact_integer negative (decimal_value (c - b'0') ds))

  reads_zero : (negative : Bool) (c : ℕ) → IsDigit c → c ≡ b'0' → ReadsInteger negative c []
  unfolding feed
  reads_zero negative c h e =
      let (s, same, f) = read_from-First negative c [] h in
      (
        s,
        same,
        inl (ground (arith, f.at)),
        f.whole,
        cc (
          integer_value-small {F = F} s f.no_text (omega (arith, f.mantissa)),
          f.sign,
          f.mantissa,
        ),
      )

  reads_positive :
      (negative : Bool) (c : ℕ) (ds : Bytes)
      → IsDigit c
      → All IsDigit ds
      → 0 < c - b'0'
      → ReadsInteger negative c ds
  unfolding feed
  reads_positive negative c ds h hs p =
      let (s, first, f) = read_from-First negative c ds h in
      let (t, same, at, text) =
        feed_digits false (λ v _ u. IntegerText negative v u)
          (λ v _ b u d i. next_digit-IntegerText negative v b u d i) ds [] (c - b'0') 0 s hs
          (ground (arith, f.at)) (First-IntegerText negative c s p h f) in
      (
        t,
        first ∙ rw append-nil at same,
        inr at,
        text.whole,
        IntegerText-value negative (decimal_value (c - b'0') ds) t text,
      )

  -- Any integer of the JSON grammar, of any length and either sign, is read exactly: as an `I32` if
  -- it is in range, else as an `I64` if its magnitude is at most 2^63 - 1, and else as a `BigInt`
  -- whose text is the number's own, with its sign. The reading ends in a state that may end a number.
  pub integer_value_exact :
      (negative : Bool) (c : ℕ) (ds : Bytes)
      → IsDigit c
      → All IsDigit ds
      → (c ≡ b'0' → ds ≡ [])
      → ReadsInteger negative c ds
  integer_value_exact negative c ds h hs no_zero = elim (Bool-cases (c == b'0')) [
    | inl e ↦
        let is_zero = (==_iff c b'0').0 e in rw (no_zero is_zero) (reads_zero negative c h is_zero)
    | inr e ↦ reads_positive negative c ds h hs (ground arith)
  ]
