-- ===== src/Tokenizer/Numbers/Fraction.antt =====
-- The accumulators of the number reader after a decimal fraction.
use rjsonparser.Prelude.{
  ℕ, zero, suc, ◌+◌, ◌-◌, ◌*◌, ◌≡◌, refl, ◌∙◌, ◌⊎◌, inl, inr, Bool, true, false, [], ◌∷◌, ◌++◌,
  Bytes, ◌==◌, if◌then◌else◌, Bool-cases, ==_iff, arith, All, length, decimal_value, append-nil,
}
use rjsonparser.Prelude.Int.{wrap_i32}
use rjsonparser.Tokenizer.Numbers.{
  NumStage, leading_zero, integer, fraction_dot, fraction, NumberState, digit_of, take_byte,
  take_digit, number_byte,
}
use rjsonparser.Tokenizer.Numbers.Runs.{running, feed, feed-take}
use rjsonparser.Tokenizer.Numbers.Exact.{Keeps, Accumulated, take_digit-Accumulated}
use rjsonparser.Tokenizer.Numbers.Digits.{IsDigit, next_digit, feed_digits, take_digit-stage}
use rjsonparser.Tokenizer.Numbers.Value.{read_from, First, read_from-First}

-- The other fields do not matter.
Accumulated-at :
    (value fd : ℕ) (s : NumberState) (m : NumStage) (r : Bool) (n : ℕ)
    → Accumulated value fd s
    → Accumulated value fd (record s { stage = m; is_real = r; len = n })
Accumulated-at value fd s m r n a = record {
  dropped = a.dropped;
  dropped_integer = a.dropped_integer;
  kept_fraction = a.kept_fraction;
  counts = a.counts;
  shift = a.shift;
  keeps = keeps a.dropped a.keeps;
}
  where
    keeps : (k : ℕ) → Keeps k value s → Keeps k value (record s { stage = m; is_real = r; len = n })
    keeps zero h = h
    keeps (suc k) h = h

First-Accumulated :
    (negative : Bool) (c : ℕ) (s : NumberState) → First negative c s → Accumulated (c - b'0') 0 s
First-Accumulated negative c s f = record {
  dropped = 0;
  dropped_integer = 0;
  kept_fraction = 0;
  counts = refl;
  shift = f.shift ∙ (unfold wrap_i32 in refl);
  keeps = (f.room, f.mantissa);
}

decimal_value-append :
    (v : ℕ) (xs ys : Bytes) → decimal_value v (xs ++ ys) ≡ decimal_value (decimal_value v xs) ys
decimal_value-append v [] ys = refl
decimal_value-append v (x ∷ xs) ys = decimal_value-append (v * 10 + (x - b'0')) xs ys

next_digit-Accumulated :
    (in_fraction : Bool) (value fd b : ℕ) (s : NumberState)
    → IsDigit b
    → Accumulated value fd s
    → Accumulated
        (value * 10 + (b - b'0'))
        (if in_fraction then fd + 1 else fd)
        (next_digit in_fraction s b)
next_digit-Accumulated in_fraction value fd b s h a =
    let t = take_digit s (b - b'0') in_fraction in
    Accumulated-at _ _ t t.stage t.is_real (t.len + 1)
      (take_digit-Accumulated value fd (b - b'0') s in_fraction (omega arith) a)

-- the state behind the point
abbrev at_point : NumberState → NumberState
at_point s = record s { stage = fraction_dot; is_real = true; len = s.len + 1 }

number_byte-point :
    (s : NumberState)
    → (s.stage ≡ leading_zero) ⊎ (s.stage ≡ integer)
    → number_byte s b'.' ≡ take_byte (at_point s)
unfolding number_byte
number_byte-point s h = ground arith

-- the state behind the first digit of the fraction
abbrev first_fraction : NumberState → ℕ → NumberState
first_fraction s b = next_digit true (record s { stage = fraction }) b

number_byte-first_fraction :
    (s : NumberState) (b : ℕ)
    → s.stage ≡ fraction_dot
    → IsDigit b
    → number_byte s b ≡ take_byte (first_fraction s b)
unfolding number_byte
number_byte-first_fraction s b at h = let same : digit_of b ≡ b - b'0' = omega arith in ground arith

-- The integer part of a number, read up to what follows it.
integer_part :
    (negative : Bool) (c : ℕ) (ds rest : Bytes)
    → IsDigit c
    → All IsDigit ds
    → (c ≡ b'0' → ds ≡ [])
    → (t : NumberState) × (read_from negative c (ds ++ rest) ≡ feed t rest)
      × ((t.stage ≡ leading_zero) ⊎ (t.stage ≡ integer))
      × Accumulated (decimal_value (c - b'0') ds) 0 t
integer_part negative c ds rest h hs no_zero = elim (Bool-cases (c == b'0')) [
  | inl e ↦
      let is_zero = (==_iff c b'0').0 e in
      rw (no_zero is_zero) (
        let (s, first, f) = read_from-First negative c rest h in
        (s, first, inl (ground (arith, f.at)), First-Accumulated negative c s f))
  | inr e ↦
      let (s, first, f) = read_from-First negative c (ds ++ rest) h in
      let (t, same, at, a) =
        feed_digits false (λ v fd u. Accumulated v fd u)
          (λ v fd b u d i. next_digit-Accumulated false v fd b u d i) ds rest (c - b'0') 0 s hs
          (ground (arith, f.at)) (First-Accumulated negative c s f) in
      (t, first ∙ same, inr at, a)
]

-- A number with a fraction, whatever its number of digits and its sign: all of it is taken, and the
-- accumulators hold its value. With V the number that all its digits form, the digits behind the
-- point counted, the mantissa keeps V except for its last `dropped` digits, which the first of them
-- bounds from both sides and the flag tells from zero, and the decimal shift is the number of integer
-- digits dropped less the number of fraction digits kept, as an `i32`.
pub fraction-Accumulated :
    (negative : Bool) (c f : ℕ) (ds fs : Bytes)
    → IsDigit c
    → All IsDigit ds
    → (c ≡ b'0' → ds ≡ [])
    → IsDigit f
    → All IsDigit fs
    → (t : NumberState) × (read_from negative c (ds ++ (b'.' ∷ f ∷ fs)) ≡ running t)
      × (t.stage ≡ fraction)
      × Accumulated (decimal_value (c - b'0') (ds ++ (f ∷ fs))) (1 + length fs) t
unfolding feed
fraction-Accumulated negative c f ds fs h hs no_zero hf hfs =
    let (s, before, at, a) = integer_part negative c ds (b'.' ∷ f ∷ fs) h hs no_zero in
    let u = at_point s in
    let w = first_fraction u f in
    let value = decimal_value (c - b'0') ds in
    let behind =
      next_digit-Accumulated true value 0 f (record u { stage = fraction }) hf
        (Accumulated-at value 0 s fraction true (s.len + 1) a) in
    let (t, rest, at', b) =
      feed_digits true (λ v fd x. Accumulated v fd x)
        (λ v fd b x d i. next_digit-Accumulated true v fd b x d i) fs [] (value * 10 + (f - b'0')) 1
        w hfs (take_digit-stage (record u { stage = fraction }) (f - b'0') true) behind in
    (
      t,
      before
          ∙ feed-take s u b'.' (f ∷ fs) (number_byte-point s at)
          ∙ feed-take u w f fs (number_byte-first_fraction u f refl hf)
          ∙ rw append-nil at rest,
      at',
      rw (decimal_value-append (c - b'0') ds (f ∷ fs)) b,
    )
