-- ===== src/Tokenizer/Numbers/Digits.antt =====
-- Reading a run of digits byte by byte, in the integer part or the fraction.
use mathlib.Core.Path.{subst}
use rjsonparser.Prelude.{
  ℕ, zero, suc, ◌+◌, ◌-◌, ◌*◌, ◌≤◌, ◌≡◌, refl, ◌∙◌, Bool, true, false, [], ◌∷◌, ◌++◌, Bytes,
  if◌then◌else◌, arith, All, length, decimal_value,
}
use rjsonparser.Tokenizer.Numbers.{
  NumStage, integer, fraction, NumberState, digit_of, take_byte, take_digit, number_byte,
}
use rjsonparser.Tokenizer.Numbers.Runs.{feed, feed-take}
use rjsonparser.Tokenizer.Numbers.Exact.{Keeps, Accumulated}

abbrev pub IsDigit : ℕ → Type 0
IsDigit b = (b'0' ≤ b) × (b ≤ b'9')

pub Accumulated-len :
    (value fd n : ℕ) (s : NumberState)
    → Accumulated value fd s
    → Accumulated value fd (record s { len = n })
Accumulated-len value fd n s a = record {
  dropped = a.dropped;
  dropped_integer = a.dropped_integer;
  kept_fraction = a.kept_fraction;
  counts = a.counts;
  shift = a.shift;
  keeps = keeps a.dropped a.keeps;
}
  where
    keeps : (k : ℕ) → Keeps k value s → Keeps k value (record s { len = n })
    keeps zero h = h
    keeps (suc k) h = h

pub take_digit-stage :
    (s : NumberState) (d : ℕ) (in_fraction : Bool) → (take_digit s d in_fraction).stage ≡ s.stage
unfolding take_digit
take_digit-stage s d in_fraction = ground arith

abbrev pub digit_stage : Bool → NumStage
digit_stage true = fraction
digit_stage false = integer

-- the state after a digit, counted
abbrev pub next_digit : Bool → NumberState → ℕ → NumberState
next_digit in_fraction s b = record (take_digit s (b - b'0') in_fraction) {
  len = (take_digit s (b - b'0') in_fraction).len + 1;
}

pub number_byte-digit :
    (in_fraction : Bool) (s : NumberState) (b : ℕ)
    → s.stage ≡ digit_stage in_fraction
    → IsDigit b
    → number_byte s b ≡ take_byte (next_digit in_fraction s b)
unfolding number_byte
number_byte-digit false s b at h = let same : digit_of b ≡ b - b'0' = omega arith in ground arith
number_byte-digit true s b at h = let same : digit_of b ≡ b - b'0' = omega arith in ground arith

-- Digits are read one by one; what each keeps, all keep.
module _ (in_fraction : Bool) (P : ℕ → ℕ → NumberState → Type 0)
    (step : (value fd b : ℕ) (s : NumberState)
      → IsDigit b
      → P value fd s
      → P
          (value * 10 + (b - b'0'))
          (if in_fraction then fd + 1 else fd)
          (next_digit in_fraction s b)) where
  pub feed_digits :
      (ds rest : Bytes) (value fd : ℕ) (s : NumberState)
      → All IsDigit ds
      → s.stage ≡ digit_stage in_fraction
      → P value fd s
      → (t : NumberState) × (feed s (ds ++ rest) ≡ feed t rest)
        × (t.stage ≡ digit_stage in_fraction)
        × P (decimal_value value ds) (if in_fraction then fd + length ds else fd) t
  feed_digits [] rest value fd s h at p = (s, refl, at, subst (λ n. P value n s) (ground arith) p)
  feed_digits (b ∷ ds) rest value fd s (d, h) at p =
      let u = next_digit in_fraction s b in
      let (t, same, at', q) =
        feed_digits ds rest (value * 10 + (b - b'0')) (if in_fraction then fd + 1 else fd) u h
          (take_digit-stage s (b - b'0') in_fraction ∙ at) (step value fd b s d p) in
      (
        t,
        feed-take s u b (ds ++ rest) (number_byte-digit in_fraction s b at d) ∙ same,
        at',
        subst (λ n. P (decimal_value value (b ∷ ds)) n t) (ground arith) q,
      )
