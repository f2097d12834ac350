-- ===== src/Tokenizer/Numbers.antt =====
-- The number reader of src/tokenizer.rs: `NumberState` and its methods, and the match on the stage
-- in `continue_number`. `mantissa` and `exponent` are never negative there; `decimal_shift` is an
-- `i32` and wraps.
pub mod Runs
pub mod Bounds
pub mod Exact
pub mod Digits
pub mod Value
pub mod Fraction
pub mod Stages
pub mod Syntax
pub mod Grammar
use rjsonparser.Prelude.{
  ℕ, suc, ◌+◌, ◌-◌, ◌*◌, ◌/◌, ◌%◌, Bool, true, false, not, ◌&&◌, ◌||◌, [], ◌∷◌, ◌++◌, Bytes, ltb,
  leb, ◌==◌, if◌then◌else◌, to_decimal, Option, none, some,
}
use rjsonparser.Prelude.Int.{ℤ, pos, negsuc, ◌+ℤ◌, neg_ℤ, leb_ℤ, wrap_i32}
use rjsonparser.Error.{ParseError, new}
use rjsonparser.Float.{Float}
use rjsonparser.Number.{Number, i32_num, i64_num, f64_num, big_int}

pub data NumStage : Type 0 where
  no_stage after_minus leading_zero integer fraction_dot fraction : NumStage
  exponent_mark exponent_sign exponent : NumStage

abbrev pub i64_max : ℕ
i64_max = 9_223_372_036_854_775_807

abbrev pub digit_always_fits_below : ℕ
digit_always_fits_below = 922_337_203_685_477_579

pub record NumberState : Type 0 where
  pub stage : NumStage
  pub negative : Bool
  pub is_real : Bool
  pub len : ℕ
  pub mantissa : ℕ
  pub mantissa_full : Bool
  pub decimal_shift : ℤ
  pub dropped_non_zero : Bool
  pub first_dropped : ℤ
  pub exponent_negative : Bool
  pub exponent_value : ℕ
  pub big_digits : Bytes

abbrev pub new_number : NumberState
new_number = record {
  stage = no_stage;
  negative = false;
  is_real = false;
  len = 0;
  mantissa = 0;
  mantissa_full = false;
  decimal_shift = pos 0;
  dropped_non_zero = false;
  first_dropped = negsuc 0;
  exponent_negative = false;
  exponent_value = 0;
  big_digits = [];
}

-- `b.wrapping_sub(b'0')`
abbrev pub digit_of : ℕ → ℕ
digit_of b = (b + 256 - b'0') % 256

abbrev pub is_digit : ℕ → Bool
is_digit b = leb (digit_of b) 9

-- Every field of the old state is reset.
unfoldable pub start : ℕ → NumberState
start first =
    let negative = first == b'-' in
    record new_number {
      negative = negative;
      len = 1;
      mantissa = if negative then 0 else if first == b'0' then 0 else first - b'0';
      stage = if negative then after_minus else if first == b'0' then leading_zero else integer;
    }

-- The loop of `take_digit_run`: the mantissa and the digits taken so far.
unfoldable pub digit_run : ℕ → ℕ → Bytes → ℕ × ℕ
digit_run m n [] = (m, n)
digit_run m n (b ∷ span) =
    let rest = digit_run (m * 10 + digit_of b) (n + 1) span in
    if leb m digit_always_fits_below && is_digit b then rest else (m, n)

abbrev is_fraction : NumStage → Bool
is_fraction fraction = true
is_fraction _ = false

-- The new state and the number of bytes taken.
unfoldable pub take_digit_run : NumberState → Bytes → NumberState × ℕ
take_digit_run s span =
    let (m, n) = digit_run s.mantissa 0 span in
    if ltb 0 n
    then (
      record s {
        mantissa = m;
        decimal_shift =
            if is_fraction s.stage
            then wrap_i32 (s.decimal_shift +ℤ neg_ℤ (wrap_i32 (pos n)))
            else s.decimal_shift;
        len = s.len + n;
      },
      n,
    )
    else (s, n)

-- The first digit that does not fit.
abbrev fill_mantissa : NumberState → Bool → NumberState
fill_mantissa s in_fraction = record s {
  mantissa_full = true;
  dropped_non_zero = false;
  first_dropped = negsuc 0;
  big_digits = if in_fraction then s.big_digits else to_decimal s.mantissa;
}

abbrev drop_digit : NumberState → ℕ → Bool → NumberState
drop_digit s digit in_fraction = record s {
  decimal_shift = if in_fraction then s.decimal_shift else wrap_i32 (s.decimal_shift +ℤ pos 1);
  big_digits = if in_fraction then s.big_digits else s.big_digits ++ (b'0' + digit) ∷ [];
  dropped_non_zero = if not (digit == 0) then true else s.dropped_non_zero;
  first_dropped = if leb_ℤ (pos 0) s.first_dropped then s.first_dropped else pos digit;
}

unfoldable pub take_digit : NumberState → ℕ → Bool → NumberState
take_digit s digit in_fraction =
    if not s.mantissa_full
    then (if leb s.mantissa ((i64_max - digit) / 10)
        then record s {
          mantissa = s.mantissa * 10 + digit;
          decimal_shift =
              if in_fraction then wrap_i32 (s.decimal_shift +ℤ negsuc 0) else s.decimal_shift;
        }
        else drop_digit (fill_mantissa s in_fraction) digit in_fraction)
    else drop_digit s digit in_fraction

unfoldable pub take_exponent_digit : NumberState → ℕ → NumberState
take_exponent_digit s digit =
    if ltb s.exponent_value 100_000
    then record s { exponent_value = s.exponent_value * 10 + digit }
    else s

-- What one byte does to a number: an error, the state with the byte taken, or the end of the
-- number in front of the byte.
pub data NumStep : Type 0 where
  reject : ParseError → NumStep
  take_byte : NumberState → NumStep
  finished : NumStep

abbrev is_exponent_mark : ℕ → Bool
is_exponent_mark b = b == b'e' || b == b'E'

abbrev at_stage : NumStage → NumberState → NumberState
at_stage stage s = record s { stage = stage }

abbrev real_at : NumStage → NumberState → NumberState
real_at stage s = record s { is_real = true; stage = stage }

-- `match n.stage` of `continue_number`
abbrev stage_byte : NumStage → NumberState → ℕ → NumStep
stage_byte after_minus s b =
    if b == b'0'
    then take_byte (at_stage leading_zero s)
    else if is_digit b
    then take_byte (take_digit (at_stage integer s) (digit_of b) false)
    else reject (new "Invalid number format")
stage_byte leading_zero s b =
    if is_digit b
    then reject (new "Numbers cannot have leading zeros")
    else if b == b'.'
    then take_byte (real_at fraction_dot s)
    else if is_exponent_mark b
    then take_byte (real_at exponent_mark s)
    else finished
stage_byte integer s b =
    if is_digit b
    then take_byte (take_digit s (digit_of b) false)
    else if b == b'.'
    then take_byte (real_at fraction_dot s)
    else if is_exponent_mark b
    then take_byte (real_at exponent_mark s)
    else finished
stage_byte fraction_dot s b =
    if not (is_digit b)
    then reject (new "Decimal point must be followed by digit")
    else take_byte (take_digit (at_stage fraction s) (digit_of b) true)
stage_byte fraction s b =
    if is_digit b
    then take_byte (take_digit s (digit_of b) true)
    else if is_exponent_mark b
    then take_byte (real_at exponent_mark s)
    else finished
stage_byte exponent_mark s b =
    if b == b'+' || b == b'-'
    then take_byte (record s { exponent_negative = b == b'-'; stage = exponent_sign })
    else if is_digit b
    then take_byte (take_exponent_digit (at_stage exponent s) (digit_of b))
    else reject (new "Exponent must have digit")
stage_byte exponent_sign s b =
    if not (is_digit b)
    then reject (new "Exponent must have digit")
    else take_byte (take_exponent_digit (at_stage exponent s) (digit_of b))
stage_byte exponent s b =
    if is_digit b then take_byte (take_exponent_digit s (digit_of b)) else finished
stage_byte no_stage s b = finished

abbrev count_byte : NumStep → NumStep
count_byte (take_byte s) = take_byte (record s { len = s.len + 1 })
count_byte other = other

-- One round of the loop behind the digit run, `n.length += 1` included.
unfoldable pub number_byte : NumberState → ℕ → NumStep
number_byte s b = count_byte (stage_byte s.stage s b)

abbrev negated : Bool → ℕ → ℤ
negated true m = neg_ℤ (pos m)
negated false m = pos m

abbrev i32_min : ℤ
i32_min = negsuc 2_147_483_647

abbrev i32_max : ℤ
i32_max = pos 2_147_483_647

abbrev signed_text : ℤ → Bytes
signed_text (pos n) = to_decimal n
signed_text (negsuc n) = b'-' ∷ to_decimal (suc n)

-- `format!("{m}e{e10}")`
abbrev pub literal : ℕ → ℤ → Bytes
literal m e10 = to_decimal m ++ (b'e' ∷ signed_text e10)

module _ {F : Type 0} where
  -- `big_digits` is not empty exactly for an integer too large for an `i64`.
  integer_of : Bytes → NumberState → Number F
  integer_of [] s =
      let value = negated s.negative s.mantissa in
      if leb_ℤ i32_min value && leb_ℤ value i32_max then i32_num value else i64_num value
  integer_of digits s = big_int (if s.negative then b'-' ∷ digits else digits)

  unfoldable pub integer_value : NumberState → Number F
  unfolding integer_of neg_ℤ
  integer_value s = integer_of s.big_digits s

  -- `.expect`: the text is a decimal literal, which always parses.
  abbrev expect : Option F → F → F
  expect none zero_value = zero_value
  expect (some v) zero_value = v

  -- `f / POW10[-e10]` or `f * POW10[e10]`
  scale : Float F → F → ℤ → F
  scale float f (pos e) = float.mul f (float.pow10 e)
  scale float f (negsuc e) = float.div f (float.pow10 (suc e))

  unfoldable pub decimal_to_f64 : Float F → Bool → ℕ → ℤ → F
  unfolding scale
  decimal_to_f64 float negative m e10 =
      let zero_value = float.of_int (pos 0) in
      let value =
        if m == 0
        then zero_value
        else if ltb m 9_007_199_254_740_992 && leb_ℤ (negsuc 21) e10 && leb_ℤ e10 (pos 22)
        then scale float (float.of_int (pos m)) e10
        else expect (float.parse (literal m e10)) zero_value in
      if negative then float.negate value else value

  unfoldable pub real_value : Float F → NumberState → Number F
  unfolding decimal_to_f64 ◌+ℤ◌ neg_ℤ wrap_i32
  real_value float s =
      let e10 = wrap_i32 (negated s.exponent_negative s.exponent_value +ℤ s.decimal_shift) in
      let low = decimal_to_f64 float false s.mantissa e10 in
      let high =
        if s.mantissa == i64_max then low else decimal_to_f64 float false (s.mantissa + 1) e10 in
      let value = if float.eq low high || leb_ℤ s.first_dropped (pos 4) then low else high in
      if not (s.mantissa_full && s.dropped_non_zero)
      then f64_num (decimal_to_f64 float s.negative s.mantissa e10)
      else f64_num (if s.negative then float.negate value else value)
