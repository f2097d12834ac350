-- ===== src/Tokenizer/Numbers/Stages.antt =====
-- The stages of the number reader by themselves: which bytes it takes does not depend on the digits.
use rjsonparser.Prelude.{
  ℕ, ◌<◌, ◌≡◌, refl, ◌∙◌, inl, inr, Bool, true, false, ◌&&◌, ◌||◌, [], ◌∷◌, Bytes, leb, ◌==◌,
  if◌then◌else◌, arith, All, Option, none, some, Option-cases,
}
use rjsonparser.Tokenizer.Numbers.{
  NumStage, no_stage, after_minus, leading_zero, integer, fraction_dot, fraction, exponent_mark,
  exponent_sign, exponent, NumberState, digit_of, is_digit, NumStep, reject, take_byte, finished,
  take_exponent_digit, number_byte, count_byte, stage_byte, at_stage,
}
use rjsonparser.Tokenizer.Numbers.Runs.{running, feed, feed-take, feed-running}
use rjsonparser.Tokenizer.Numbers.Digits.{take_digit-stage}

abbrev pub digit_test : ℕ → Bool
digit_test b = leb b'0' b && leb b b'9'

-- What a byte does to the stage.
abbrev pub tail_stage : ℕ → Option NumStage
tail_stage b = if b == b'e' || b == b'E' then some exponent_mark else none

abbrev pub next_stage : NumStage → ℕ → Option NumStage
next_stage no_stage b = none
next_stage after_minus b =
    if b == b'0' then some leading_zero else if digit_test b then some integer else none
next_stage leading_zero b = if b == b'.' then some fraction_dot else tail_stage b
next_stage integer b =
    if digit_test b then some integer else if b == b'.' then some fraction_dot else tail_stage b
next_stage fraction_dot b = if digit_test b then some fraction else none
next_stage fraction b = if digit_test b then some fraction else tail_stage b
next_stage exponent_mark b =
    if b == b'+' || b == b'-'
    then some exponent_sign
    else if digit_test b
    then some exponent
    else none
next_stage exponent_sign b = if digit_test b then some exponent else none
next_stage exponent b = if digit_test b then some exponent else none

digit_of_test : (b : ℕ) → b < 256 → is_digit b ≡ digit_test b
digit_of_test b h = ground arith

take_exponent_digit-stage : (s : NumberState) (d : ℕ) → (take_exponent_digit s d).stage ≡ s.stage
unfolding take_exponent_digit
take_exponent_digit-stage s d = ground arith

-- whether a byte is taken, and the stage behind it
abbrev taken_stage : NumStep → Option NumStage
taken_stage (take_byte u) = some u.stage
taken_stage _ = none

stage_byte-next :
    (m : NumStage) (s : NumberState) (b : ℕ)
    → s.stage ≡ m
    → b < 256
    → taken_stage (count_byte (stage_byte m s b)) ≡ next_stage m b
stage_byte-next no_stage s b at h = refl
stage_byte-next after_minus s b at h =
    ground (arith, digit_of_test b h, take_digit-stage (at_stage integer s) (digit_of b) false)
stage_byte-next leading_zero s b at h = ground arith
stage_byte-next integer s b at h =
    ground (arith, digit_of_test b h, take_digit-stage s (digit_of b) false)
stage_byte-next fraction_dot s b at h =
    ground (arith, digit_of_test b h, take_digit-stage (at_stage fraction s) (digit_of b) true)
stage_byte-next fraction s b at h =
    ground (arith, digit_of_test b h, take_digit-stage s (digit_of b) true)
stage_byte-next exponent_mark s b at h =
    ground (arith, digit_of_test b h, take_exponent_digit-stage (at_stage exponent s) (digit_of b))
stage_byte-next exponent_sign s b at h =
    ground (arith, digit_of_test b h, take_exponent_digit-stage (at_stage exponent s) (digit_of b))
stage_byte-next exponent s b at h =
    ground (arith, digit_of_test b h, take_exponent_digit-stage s (digit_of b))

number_byte-next :
    (s : NumberState) (b : ℕ) → b < 256 → taken_stage (number_byte s b) ≡ next_stage s.stage b
unfolding number_byte
number_byte-next s b h = stage_byte-next s.stage s b refl h

unfoldable pub walk : NumStage → Bytes → Option NumStage
walk m [] = some m
walk m (b ∷ bs) = elim (next_stage m b) [ none ↦ none | some n ↦ walk n bs ]

pub walk-next :
    (m n : NumStage) (b : ℕ) (bs : Bytes) → next_stage m b ≡ some n → walk m (b ∷ bs) ≡ walk n bs
unfolding walk
walk-next m n b bs e = rw (e, walk)

pub walk-some :
    (m n : NumStage) (b : ℕ) (bs : Bytes)
    → walk m (b ∷ bs) ≡ some n
    → (k : NumStage) × (next_stage m b ≡ some k) × (walk k bs ≡ some n)
walk-some m n b bs h = elim (Option-cases (next_stage m b)) [
  | inl e ↦ absurd (none_walks e)
  | inr (k, e) ↦ (k, e, rw (walk-next m k b bs e) at h)
]
  where
    none_walks : next_stage m b ≡ none → ⊥
    none_walks e = let stops : walk m (b ∷ bs) ≡ none = unfold walk in rw (e, walk) in cc

taken_stage-some :
    (r : NumStep) (m : NumStage)
    → taken_stage r ≡ some m
    → (u : NumberState) × (r ≡ take_byte u) × (u.stage ≡ m)
taken_stage-some (take_byte u) m h = (u, refl, cc)
taken_stage-some (reject e) m h = cc
taken_stage-some finished m h = cc

pub feed-walk :
    (bs : Bytes) (s : NumberState) (m : NumStage)
    → All (λ b. b < 256) bs
    → walk s.stage bs ≡ some m
    → (t : NumberState) × (feed s bs ≡ running t) × (t.stage ≡ m)
feed-walk [] s m h w = (s, unfold feed in refl, unfold walk in cc)
feed-walk (b ∷ bs) s m (hb, h) w =
    let (k, e, later) = walk-some s.stage m b bs w in
    let (u, taken, at) = taken_stage-some (number_byte s b) k (number_byte-next s b hb ∙ e) in
    let (t, same, end_at) = feed-walk bs u m h (rw at later) in
    (t, feed-take s u b bs taken ∙ same, end_at)

pub walk-feed :
    (bs : Bytes) (s t : NumberState)
    → All (λ b. b < 256) bs
    → feed s bs ≡ running t
    → walk s.stage bs ≡ some t.stage
walk-feed [] s t h f = let same : s ≡ t = unfold feed in cc in rw same (unfold walk in refl)
walk-feed (b ∷ bs) s t (hb, h) f =
    let (u, taken, later) = feed-running s t b bs f in
    let e : next_stage s.stage b ≡ some u.stage = cc (number_byte-next s b hb, taken) in
    walk-next s.stage u.stage b bs e ∙ walk-feed bs u t h later
