-- ===== src/Tokenizer/Numbers/Grammar.antt =====
-- The number reader accepts exactly the numbers of the JSON grammar (RFC 8259, section 6).
use rjsonparser.Prelude.{ℕ, ◌<◌, ◌≡◌, ◌↔◌, ◌⊎◌, inl, inr, [], ◌∷◌, Bytes, arith, All, some}
use rjsonparser.Tokenizer.Numbers.{
  after_minus, leading_zero, integer, fraction_dot, fraction, exponent_mark, exponent_sign,
  exponent, NumberState, start,
}
use rjsonparser.Tokenizer.Numbers.Runs.{running, feed}
use rjsonparser.Tokenizer.Numbers.Digits.{IsDigit}
use rjsonparser.Tokenizer.Numbers.Stages.{next_stage, feed-walk, walk-feed}
use rjsonparser.Tokenizer.Numbers.Syntax.{
  IsMark, Digits, end, digit, ExponentPart, no_exponent, plain, signed, FractionTail, FractionPart,
  IntegerTail, IntegerPart, IsNumber, IsFinal, Finishes, Finishes-cons, Finishes-tail, Finishes-nil,
  IntegerPart-finish, at_exponent, at_exponent_sign, at_exponent_mark, at_fraction, at_fraction_dot,
  at_integer, at_leading_zero, at_after_minus, more, then_exponent, no_fraction, point, another,
  then_fraction, zero_int, positive, unsigned, minus,
}

finish-Digits : (bs : Bytes) → Finishes exponent bs → Digits bs
finish-Digits [] f = end
finish-Digits (b ∷ bs) f =
    let (k, e, later) = Finishes-tail exponent b bs f in
    let (h, same) = at_exponent b k e in digit h (finish-Digits bs (rw same at later))

finish-mark : (b : ℕ) (bs : Bytes) → IsMark b → Finishes exponent_mark bs → ExponentPart (b ∷ bs)
finish-mark b [] h f = absurd (Finishes-nil exponent_mark f)
finish-mark b (c ∷ []) h f =
    let (k, e, later) = Finishes-tail exponent_mark c [] f in
    elim (at_exponent_mark c k e) [
      | inl (sign, same) ↦ absurd (Finishes-nil exponent_sign (rw same at later))
      | inr (hd, same) ↦ plain h hd end
    ]
finish-mark b (c ∷ d ∷ bs) h f =
    let (k, e, later) = Finishes-tail exponent_mark c (d ∷ bs) f in
    elim (at_exponent_mark c k e) [
      | inl (sign, same) ↦
          let (k', e', later') = Finishes-tail exponent_sign d bs (rw same at later) in
          let (hd, same') = at_exponent_sign d k' e' in
          signed h sign hd (finish-Digits bs (rw same' at later'))
      | inr (hd, same) ↦ plain h hd (finish-Digits (d ∷ bs) (rw same at later))
    ]

finish-FractionTail : (bs : Bytes) → Finishes fraction bs → FractionTail bs
finish-FractionTail [] f = then_exponent no_exponent
finish-FractionTail (b ∷ bs) f =
    let (k, e, later) = Finishes-tail fraction b bs f in
    let rest : (k ≡ fraction → FractionTail bs) =
      λ same. finish-FractionTail bs (rw same at later) in
    elim (at_fraction b k e) [
      | inl (h, same) ↦ more h (rest same)
      | inr (h, same) ↦ then_exponent (finish-mark b bs h (rw same at later))
    ]

finish-point : (p : ℕ) (bs : Bytes) → p ≡ b'.' → Finishes fraction_dot bs → FractionPart (p ∷ bs)
finish-point p [] e f = absurd (Finishes-nil fraction_dot f)
finish-point p (b ∷ bs) e f =
    let (k, next, later) = Finishes-tail fraction_dot b bs f in
    let (h, same) = at_fraction_dot b k next in
    point e h (finish-FractionTail bs (rw same at later))

finish-zero : (bs : Bytes) → Finishes leading_zero bs → FractionPart bs
finish-zero [] f = no_fraction no_exponent
finish-zero (b ∷ bs) f =
    let (k, e, later) = Finishes-tail leading_zero b bs f in
    elim (at_leading_zero b k e) [
      | inl (h, same) ↦ finish-point b bs h (rw same at later)
      | inr (h, same) ↦ no_fraction (finish-mark b bs h (rw same at later))
    ]

finish-IntegerTail : (bs : Bytes) → Finishes integer bs → IntegerTail bs
finish-IntegerTail [] f = then_fraction (no_fraction no_exponent)
finish-IntegerTail (b ∷ bs) f =
    let (k, e, later) = Finishes-tail integer b bs f in
    let rest : (k ≡ integer → IntegerTail bs) = λ same. finish-IntegerTail bs (rw same at later) in
    elim (at_integer b k e) [
      | inl (h, same) ↦ another h (rest same)
      | inr (inl (h, same)) ↦ then_fraction (finish-point b bs h (rw same at later))
      | inr (inr (h, same)) ↦ then_fraction (no_fraction (finish-mark b bs h (rw same at later)))
    ]

finish-IntegerPart : (bs : Bytes) → Finishes after_minus bs → IntegerPart bs
finish-IntegerPart [] f = absurd (Finishes-nil after_minus f)
finish-IntegerPart (b ∷ bs) f =
    let (k, e, later) = Finishes-tail after_minus b bs f in
    elim (at_after_minus b k e) [
      | inl (h, same) ↦ zero_int h (finish-zero bs (rw same at later))
      | inr (lo, hi, same) ↦ positive lo hi (finish-IntegerTail bs (rw same at later))
    ]

-- Read from its first byte, the number is not refused and all its bytes are taken, and the stage is
-- one at which the end of the input, or a byte that is no part of a number, ends it.
abbrev pub Accepts : ℕ → Bytes → Type 0
Accepts b bs = (t : NumberState) × (feed (start b) bs ≡ running t) × IsFinal t.stage

start_stage-minus : (b : ℕ) → b ≡ b'-' → (start b).stage ≡ after_minus
unfolding start
start_stage-minus b h = ground arith

start_stage-digit : (b : ℕ) → IsDigit b → next_stage after_minus b ≡ some (start b).stage
unfolding start
start_stage-digit b h = ground arith

module _ (b : ℕ) (bs : Bytes) (bytes : All (λ c. c < 256) bs) where
  Finishes-Accepts : Finishes (start b).stage bs → Accepts b bs
  Finishes-Accepts (n, w, f) =
      let (t, same, at) = feed-walk bs (start b) n bytes w in (t, same, rw at f)

  Accepts-Finishes : Accepts b bs → Finishes (start b).stage bs
  Accepts-Finishes (t, same, f) = (t.stage, walk-feed bs (start b) t bytes same, f)

  digit_accepted : IsDigit b → IntegerPart (b ∷ bs) → Accepts b bs
  digit_accepted h x =
      let (k, e, later) = Finishes-tail after_minus b bs (IntegerPart-finish x) in
      let same : k ≡ (start b).stage = cc (start_stage-digit b h) in
      Finishes-Accepts (rw same at later)

  number_accepted : IsNumber (b ∷ bs) → Accepts b bs
  number_accepted (minus e x) = Finishes-Accepts (rw (start_stage-minus b e) (IntegerPart-finish x))
  number_accepted (unsigned (zero_int e x)) = digit_accepted (omega arith) (zero_int e x)
  number_accepted (unsigned (positive lo hi x)) = digit_accepted (omega arith) (positive lo hi x)

  accepted-IsNumber : (b ≡ b'-') ⊎ IsDigit b → Accepts b bs → IsNumber (b ∷ bs)
  accepted-IsNumber (inl e) a =
      minus e (finish-IntegerPart bs (rw (start_stage-minus b e) at (Accepts-Finishes a)))
  accepted-IsNumber (inr h) a = unsigned (
      finish-IntegerPart (b ∷ bs) (
        Finishes-cons after_minus (start b).stage b bs (start_stage-digit b h)
          (Accepts-Finishes a)))

-- For the bytes that start a number, a minus or a digit, the reader takes `b` and all of `bs` and
-- stands at a stage where a number may end exactly when these bytes are a number of the JSON
-- grammar: no leading zeros, a digit before and behind the point, and digits in the exponent.
pub IsNumber-grammar :
    (b : ℕ) (bs : Bytes)
    → (b ≡ b'-') ⊎ IsDigit b
    → All (λ c. c < 256) bs
    → IsNumber (b ∷ bs) ↔ Accepts b bs
IsNumber-grammar b bs h bytes = (number_accepted b bs bytes, accepted-IsNumber b bs bytes h)
