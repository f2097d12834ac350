-- ===== src/Tokenizer/Numbers/Bounds.antt =====
-- The ranges of the number reader's accumulators.
use rjsonparser.Prelude.{ℕ, ◌+◌, ◌*◌, ◌≤◌, ◌<◌, ◌≡◌, refl, Bool, true, false, [], ◌∷◌, Bytes, arith}
use mathlib.Core.Path.{subst, ap, sym}
use rjsonparser.Prelude.{◌^◌}
use rjsonparser.Prelude.Int.{
  ℤ, pos, negsuc, pos_part, neg_part, ◌+ℤ◌, ◌≤ℤ◌, neg_ℤ, wrap_i32, wrap_i32_in_range,
}
use rjsonparser.Tokenizer.Numbers.{
  NumStage, no_stage, after_minus, leading_zero, integer, fraction_dot, fraction, exponent_mark,
  exponent_sign, exponent, NumberState, digit_of, i64_max, digit_run, take_digit_run, NumStep,
  reject, take_byte, finished, take_digit, take_exponent_digit, number_byte, start, stage_byte,
  at_stage, count_byte,
}
use rjsonparser.Tokenizer.Numbers.Runs.{running, feed, feed-running}

-- The shift moves by at most one for each byte, and wraps in no number below 2^31 bytes.
abbrev Small : ℕ → ℤ → Type 0
Small n z = n < 2 ^ 31 → (pos_part z ≤ n) × (neg_part z ≤ n)

-- The ranges, with `n` bytes counted: what the types `i64` and `i32` demand, the range of `first_dropped`, and
-- that the shift has not wrapped.
pub record Fits (n : ℕ) (s : NumberState) : Type 0 where
  pub mantissa_fits : s.mantissa ≤ i64_max
  pub exponent_fits : s.exponent_value ≤ 999_999
  pub shift_fits : Small n s.decimal_shift
  pub dropped_fits : (negsuc 0 ≤ℤ s.first_dropped) × (s.first_dropped ≤ℤ pos 9)

abbrev pub InRange : NumberState → Type 0
InRange s = Fits s.len s

parts_up :
    (z : ℤ) (n : ℕ)
    → pos_part z ≤ n
    → neg_part z ≤ n
    → (pos_part (z +ℤ pos 1) ≤ n + 1) × (neg_part (z +ℤ pos 1) ≤ n + 1)
unfolding ◌+ℤ◌
parts_up (pos a) n h k = ground arith
parts_up (negsuc a) n h k = ground arith

parts_down :
    (z : ℤ) (n k : ℕ)
    → pos_part z ≤ n
    → neg_part z ≤ n
    → (pos_part (z +ℤ neg_ℤ (pos k)) ≤ n + k) × (neg_part (z +ℤ neg_ℤ (pos k)) ≤ n + k)
unfolding ◌+ℤ◌ neg_ℤ
parts_down (pos a) n k h h' = ground arith
parts_down (negsuc a) n k h h' = ground arith

parts-InI32 : (z : ℤ) (n : ℕ) → n < 2 ^ 31 → pos_part z ≤ n → neg_part z ≤ n → wrap_i32 z ≡ z
parts-InI32 (pos a) n small h k = wrap_i32_in_range (pos a) (omega arith) (omega arith)
parts-InI32 (negsuc a) n small h k = wrap_i32_in_range (negsuc a) (omega arith) (omega arith)

unwrapped-Small : (n : ℕ) (z : ℤ) → Small n z → Small n (wrap_i32 z)
unwrapped-Small n z small lt =
    let (h, k) = small lt in let same = parts-InI32 z n lt h k in rw same (h, k)

up-Small : (n : ℕ) (z : ℤ) → Small n z → Small (n + 1) (wrap_i32 (z +ℤ pos 1))
up-Small n z small =
    unwrapped-Small (n + 1) (z +ℤ pos 1)
      (λ lt. let (h, k) = small (omega (arith, lt)) in parts_up z n h k)

down-Small :
    (n k : ℕ) (z : ℤ) → Small n z → Small (n + k) (wrap_i32 (z +ℤ neg_ℤ (wrap_i32 (pos k))))
down-Small n k z small lt =
    let same = wrap_i32_in_range (pos k) (omega arith) (omega (arith, lt)) in
    let (h, h') = small (omega (arith, lt)) in
    let all = parts_down z n k h h' in
    rw same (unwrapped-Small (n + k) (z +ℤ neg_ℤ (pos k)) (λ _. all) lt)

one_down-Small : (n : ℕ) (z : ℤ) → Small n z → Small (n + 1) (wrap_i32 (z +ℤ negsuc 0))
one_down-Small n z small =
    let step : neg_ℤ (pos 1) ≡ negsuc 0 = unfold neg_ℤ in refl in
    unwrapped-Small (n + 1) (z +ℤ negsuc 0) (λ lt.
      let (h, k) = small (omega (arith, lt)) in
      subst (λ (d : ℤ). (pos_part (z +ℤ d) ≤ n + 1) × (neg_part (z +ℤ d) ≤ n + 1)) step
        (parts_down z n 1 h k))

later-Small : (n m : ℕ) (z : ℤ) → n ≤ m → Small n z → Small m z
later-Small n m z le small lt =
    let (h, k) = small (omega (arith, lt, le)) in (omega (arith, h, le), omega (arith, k, le))

pub start-InRange : (b : ℕ) → b < 256 → InRange (start b)
unfolding start
start-InRange b h = ground arith

take_digit-Fits :
    (n : ℕ) (s : NumberState) (d : ℕ) (in_fraction : Bool)
    → d ≤ 9
    → Fits n s
    → Fits (n + 1) (take_digit s d in_fraction)
unfolding take_digit
take_digit-Fits n s d f h v =
    let up = up-Small n s.decimal_shift v.shift_fits in
    let down = one_down-Small n s.decimal_shift v.shift_fits in
    let same = later-Small n (n + 1) s.decimal_shift (omega arith) v.shift_fits in
    ground (arith, up, down, same)

take_exponent_digit-Fits :
    (n : ℕ) (s : NumberState) (d : ℕ) → d ≤ 9 → Fits n s → Fits (n + 1) (take_exponent_digit s d)
unfolding take_exponent_digit
take_exponent_digit-Fits n s d h v =
    let same = later-Small n (n + 1) s.decimal_shift (omega arith) v.shift_fits in
    ground (arith, same)

counted-Fits : (s : NumberState) (n : ℕ) → Fits n s → InRange (record s { len = n })
counted-Fits s n v = record {
  mantissa_fits = v.mantissa_fits;
  exponent_fits = v.exponent_fits;
  shift_fits = v.shift_fits;
  dropped_fits = v.dropped_fits;
}

staged-Fits : (n : ℕ) (s : NumberState) (stage : NumStage) → Fits n s → Fits n (at_stage stage s)
staged-Fits n s stage v = record {
  mantissa_fits = v.mantissa_fits;
  exponent_fits = v.exponent_fits;
  shift_fits = v.shift_fits;
  dropped_fits = v.dropped_fits;
}

stage_byte-Fits :
    (m : NumStage) (n : ℕ) (s t : NumberState) (b : ℕ)
    → Fits n s
    → stage_byte m s b ≡ take_byte t
    → Fits (n + 1) t
stage_byte-Fits no_stage n s t b v h = cc
stage_byte-Fits after_minus n s t b v h = ground (
  arith,
  later-Small n (n + 1) s.decimal_shift (omega arith) v.shift_fits,
  λ (d : digit_of b ≤ 9).
      take_digit-Fits n (at_stage integer s) (digit_of b) false d (staged-Fits n s integer v),
)
stage_byte-Fits leading_zero n s t b v h =
    ground (arith, later-Small n (n + 1) s.decimal_shift (omega arith) v.shift_fits)
stage_byte-Fits integer n s t b v h = ground (
  arith,
  later-Small n (n + 1) s.decimal_shift (omega arith) v.shift_fits,
  λ (d : digit_of b ≤ 9). take_digit-Fits n s (digit_of b) false d v,
)
stage_byte-Fits fraction_dot n s t b v h = ground (
  arith,
  λ (d : digit_of b ≤ 9).
      take_digit-Fits n (at_stage fraction s) (digit_of b) true d (staged-Fits n s fraction v),
)
stage_byte-Fits fraction n s t b v h = ground (
  arith,
  later-Small n (n + 1) s.decimal_shift (omega arith) v.shift_fits,
  λ (d : digit_of b ≤ 9). take_digit-Fits n s (digit_of b) true d v,
)
stage_byte-Fits exponent_mark n s t b v h = ground (
  arith,
  later-Small n (n + 1) s.decimal_shift (omega arith) v.shift_fits,
  λ (d : digit_of b ≤ 9).
      take_exponent_digit-Fits n (at_stage exponent s) (digit_of b) d (staged-Fits n s exponent v),
)
stage_byte-Fits exponent_sign n s t b v h = ground (
  arith,
  λ (d : digit_of b ≤ 9).
      take_exponent_digit-Fits n (at_stage exponent s) (digit_of b) d (staged-Fits n s exponent v),
)
stage_byte-Fits exponent n s t b v h =
    ground (arith, λ (d : digit_of b ≤ 9). take_exponent_digit-Fits n s (digit_of b) d v)

take_digit-len : (s : NumberState) (d : ℕ) (f : Bool) → (take_digit s d f).len ≡ s.len
unfolding take_digit
take_digit-len s d f = ground arith

take_exponent_digit-len : (s : NumberState) (d : ℕ) → (take_exponent_digit s d).len ≡ s.len
unfolding take_exponent_digit
take_exponent_digit-len s d = ground arith

stage_byte-len :
    (m : NumStage) (s t : NumberState) (b : ℕ) → stage_byte m s b ≡ take_byte t → t.len ≡ s.len
stage_byte-len no_stage s t b h = ground (arith, h)
stage_byte-len after_minus s t b h =
    ground (arith, h, take_digit-len (at_stage integer s) (digit_of b) false)
stage_byte-len leading_zero s t b h = ground (arith, h)
stage_byte-len integer s t b h = ground (arith, h, take_digit-len s (digit_of b) false)
stage_byte-len fraction_dot s t b h =
    ground (arith, h, take_digit-len (at_stage fraction s) (digit_of b) true)
stage_byte-len fraction s t b h = ground (arith, h, take_digit-len s (digit_of b) true)
stage_byte-len exponent_mark s t b h =
    ground (arith, h, take_exponent_digit-len (at_stage exponent s) (digit_of b))
stage_byte-len exponent_sign s t b h =
    ground (arith, h, take_exponent_digit-len (at_stage exponent s) (digit_of b))
stage_byte-len exponent s t b h = ground (arith, h, take_exponent_digit-len s (digit_of b))

-- the byte counted, the state is one of `stage_byte`
number_byte-take :
    (s t : NumberState) (b : ℕ)
    → number_byte s b ≡ take_byte t
    → (u : NumberState) × (stage_byte s.stage s b ≡ take_byte u)
      × (t ≡ record u { len = u.len + 1 })
unfolding number_byte
number_byte-take s t b h = go (stage_byte s.stage s b) refl h
  where
    go :
        (r : NumStep)
        → stage_byte s.stage s b ≡ r
        → count_byte r ≡ take_byte t
        → (u : NumberState) × (stage_byte s.stage s b ≡ take_byte u)
          × (t ≡ record u { len = u.len + 1 })
    go (take_byte u) e k = (u, e, cc)
    go (reject _) e k = cc
    go finished e k = cc

number_byte-InRange :
    (s t : NumberState) (b : ℕ) → InRange s → number_byte s b ≡ take_byte t → InRange t
number_byte-InRange s t b v h =
    let (u, e, same) = number_byte-take s t b h in
    let counted : s.len + 1 ≡ u.len + 1 =
      ap (λ (n : ℕ). n + 1) (sym (stage_byte-len s.stage s u b e)) in
    rw same (
      counted-Fits u (u.len + 1)
        (subst (λ (n : ℕ). Fits n u) counted (stage_byte-Fits s.stage s.len s u b v e)))

feed-InRange : (s t : NumberState) (bs : Bytes) → InRange s → feed s bs ≡ running t → InRange t
feed-InRange s t [] v h = let same : s ≡ t = unfold feed in cc in rw same at v
feed-InRange s t (b ∷ bs) v h =
    let (u, e, later) = feed-running s t b bs h in
    feed-InRange u t bs (number_byte-InRange s u b v e) later

digit_run-le : (m n : ℕ) (span : Bytes) → m ≤ i64_max → (digit_run m n span).0 ≤ i64_max
unfolding digit_run
digit_run-le m n [] h = h
digit_run-le m n (b ∷ span) h = ground (arith, digit_run-le (m * 10 + digit_of b) (n + 1) span)

run-InRange : (s : NumberState) (span : Bytes) → InRange s → InRange (take_digit_run s span).0
unfolding take_digit_run
run-InRange s span v =
    let n = (digit_run s.mantissa 0 span).1 in
    let down = down-Small s.len n s.decimal_shift v.shift_fits in
    let same = later-Small s.len (s.len + n) s.decimal_shift (omega arith) v.shift_fits in
    ground (arith, digit_run-le s.mantissa 0 span, down, same)

-- Reading a number, in any chunks and with the runs of digits taken at once or not, the mantissa fits an
-- `i64` and is not negative, the exponent stays below a million, the first dropped digit is -1 or a digit,
-- and while the number has fewer than 2^31 bytes the shift is at most their number in either direction, so
-- that it has not wrapped. So it is after the first byte, after any bytes that are taken, and after
-- `take_digit_run`.
pub number-InRange :
    ((b : ℕ) → b < 256 → InRange (start b))
    × ((s t : NumberState) (bs : Bytes) → InRange s → feed s bs ≡ running t → InRange t)
    × ((s : NumberState) (span : Bytes) → InRange s → InRange (take_digit_run s span).0)
number-InRange = (start-InRange, feed-InRange, run-InRange)
