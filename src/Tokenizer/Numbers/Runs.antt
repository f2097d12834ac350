-- ===== src/Tokenizer/Numbers/Runs.antt =====
-- `take_digit_run` is a fast path: reading a number one byte at a time gives the same.
use rjsonparser.Prelude.{
  ℕ, ◌+◌, ◌*◌, ◌≡◌, refl, ◌⊎◌, true, false, ◌&&◌, [], ◌∷◌, Bytes, leb, if◌then◌else◌, arith, drop,
  Bool-cases, inl, inr, ◌∙◌, List,
}
use rjsonparser.Prelude.Int.{
  pos, negsuc, ◌+ℤ◌, neg_ℤ, wrap_i32, InI32, wrap_i32-InI32, wrap_i32_in_range, wrap_i32_steps,
}
use rjsonparser.Error.{ParseError}
use rjsonparser.Tokenizer.Numbers.{
  integer, fraction, NumberState, digit_of, is_digit, is_fraction, digit_always_fits_below,
  digit_run, reject, take_byte, finished, number_byte, take_digit_run, take_digit, NumStep,
}
use native.Mathlib.Numerals.{add-one}

-- A number read byte by byte: refused, still going on, or ended in front of the bytes given.
pub data Fed : Type 0 where
  failed : ParseError → Fed
  running : NumberState → Fed
  ended : NumberState → Bytes → Fed

unfoldable pub feed : NumberState → Bytes → Fed
feed s [] = running s
feed s (b ∷ bs) = elim (number_byte s b) [
  | reject e ↦ failed e
  | take_byte t ↦ feed t bs
  | finished ↦ ended s (b ∷ bs)
]

-- `s` after a run of `n` digits that leaves the mantissa `m`
abbrev run_state : NumberState → ℕ → ℕ → NumberState
run_state s n m = record s {
  mantissa = m;
  decimal_shift =
      if is_fraction s.stage
      then wrap_i32 (s.decimal_shift +ℤ neg_ℤ (wrap_i32 (pos n)))
      else s.decimal_shift;
  len = s.len + n;
}

-- `s` after one digit
abbrev one_digit : NumberState → ℕ → NumberState
one_digit s d = record s {
  mantissa = s.mantissa * 10 + d;
  decimal_shift =
      if is_fraction s.stage then wrap_i32 (s.decimal_shift +ℤ negsuc 0) else s.decimal_shift;
  len = s.len + 1;
}

digit_run_shift :
    (m n : ℕ) (span : Bytes)
    → ((digit_run m n span).0 ≡ (digit_run m 0 span).0)
      × ((digit_run m n span).1 ≡ (digit_run m 0 span).1 + n)
unfolding digit_run
digit_run_shift m n [] = (refl, omega arith)
digit_run_shift m n (b ∷ span) = ground (
  arith,
  digit_run_shift (m * 10 + digit_of b) (n + 1) span,
  digit_run_shift (m * 10 + digit_of b) (0 + 1) span,
)

abbrev IsFast : NumberState → Type 0
IsFast s = ((s.stage ≡ integer) ⊎ (s.stage ≡ fraction)) × (s.mantissa_full ≡ false)

number_byte-run :
    (s : NumberState) (b : ℕ)
    → IsFast s
    → (leb s.mantissa digit_always_fits_below && is_digit b) ≡ true
    → number_byte s b ≡ take_byte (one_digit s (digit_of b))
unfolding number_byte take_digit
number_byte-run s b fast more = ground arith

run_state_step :
    (s : NumberState) (d n m : ℕ) → run_state (one_digit s d) n m ≡ run_state s (n + 1) m
run_state_step s d n m = ground (arith, wrap_i32_steps s.decimal_shift n)

run_state_zero : (s : NumberState) → InI32 s.decimal_shift → run_state s 0 s.mantissa ≡ s
unfolding ◌+ℤ◌ neg_ℤ wrap_i32
run_state_zero s h = ground (arith, wrap_i32_in_range s.decimal_shift h.0 h.1)

one_digit-InI32 :
    (s : NumberState) (d : ℕ) → InI32 s.decimal_shift → InI32 (one_digit s d).decimal_shift
one_digit-InI32 s d h = ground (arith, wrap_i32-InI32 (s.decimal_shift +ℤ negsuc 0))

pub feed-take :
    (s t : NumberState) (b : ℕ) (bs : Bytes)
    → number_byte s b ≡ take_byte t
    → feed s (b ∷ bs) ≡ feed t bs
unfolding feed
feed-take s t b bs h = rw (h, feed)

drop_one {ℓ} : {A : Type ℓ} (n : ℕ) (x : A) (xs : List A) → drop (n + 1) (x ∷ xs) ≡ drop n xs
drop_one n x xs = rw add-one

feed_step :
    (s : NumberState) (b : ℕ) (bs : Bytes) (d n n' m m' : ℕ)
    → n' ≡ n + 1
    → m' ≡ m
    → feed (run_state (one_digit s d) n m) (drop n bs) ≡ feed (run_state s n' m') (drop n' (b ∷ bs))
feed_step s b bs d n n' m m' e f = rw (e, f, run_state_step s d n m, drop_one n b bs)

-- The digits of a run may be taken at once.
run-feed :
    (s : NumberState) (span : Bytes)
    → IsFast s
    → InI32 s.decimal_shift
    → feed s span
      ≡ feed
          (run_state s (digit_run s.mantissa 0 span).1 (digit_run s.mantissa 0 span).0)
          (drop (digit_run s.mantissa 0 span).1 span)
unfolding digit_run
run-feed s [] fast h = rw (run_state_zero s h)
run-feed s (b ∷ bs) fast h =
    elim (Bool-cases (leb s.mantissa digit_always_fits_below && is_digit b)) [
      | inl more ↦ rw more (
          feed-take s (one_digit s (digit_of b)) b bs (number_byte-run s b fast more)
          ∙ run-feed (one_digit s (digit_of b)) bs fast (one_digit-InI32 s (digit_of b) h)
          ∙ (let same = digit_run_shift (s.mantissa * 10 + digit_of b) 1 bs in
              feed_step s b bs (digit_of b) (digit_run (s.mantissa * 10 + digit_of b) 0 bs).1
                (digit_run (s.mantissa * 10 + digit_of b) 1 bs).1
                (digit_run (s.mantissa * 10 + digit_of b) 0 bs).0
                (digit_run (s.mantissa * 10 + digit_of b) 1 bs).0 same.1 same.0))
      | inr stop ↦ rw stop (rw (run_state_zero s h))
    ]

digit_run_none : (m : ℕ) (span : Bytes) → (digit_run m 0 span).1 ≡ 0 → (digit_run m 0 span).0 ≡ m
unfolding digit_run
digit_run_none m [] h = refl
digit_run_none m (b ∷ span) h = ground (arith, digit_run_shift (m * 10 + digit_of b) (0 + 1) span)

take_digit_run-run_state :
    (s : NumberState) (span : Bytes)
    → InI32 s.decimal_shift
    → ((take_digit_run s span).0
        ≡ run_state s (digit_run s.mantissa 0 span).1 (digit_run s.mantissa 0 span).0)
      × ((take_digit_run s span).1 ≡ (digit_run s.mantissa 0 span).1)
unfolding take_digit_run
take_digit_run-run_state s span h =
    ground (arith, digit_run_none s.mantissa span, run_state_zero s h)

-- In the integer or fraction part, with the mantissa not full, taking the run of digits at the
-- front of the bytes at once and then reading on byte by byte gives what reading all of them byte
-- by byte gives: the same error, the same state, the same bytes left.
pub take_digit_run-feed :
    (s : NumberState) (span : Bytes)
    → ((s.stage ≡ integer) ⊎ (s.stage ≡ fraction)) × (s.mantissa_full ≡ false)
    → InI32 s.decimal_shift
    → feed s span ≡ feed (take_digit_run s span).0 (drop (take_digit_run s span).1 span)
take_digit_run-feed s span fast h =
    let same = take_digit_run-run_state s span h in run-feed s span fast h ∙ rw (same.0, same.1)

-- Inversion of a reading that has not ended.
pub feed-running :
    (s t : NumberState) (b : ℕ) (bs : Bytes)
    → feed s (b ∷ bs) ≡ running t
    → (u : NumberState) × (number_byte s b ≡ take_byte u) × (feed u bs ≡ running t)
unfolding feed
feed-running s t b bs h = go (number_byte s b) refl h
  where
    after : NumStep → Fed
    after r = elim r [ reject e ↦ failed e | take_byte u ↦ feed u bs | finished ↦ ended s (b ∷ bs) ]

    go :
        (r : NumStep)
        → number_byte s b ≡ r
        → after r ≡ running t
        → (u : NumberState) × (number_byte s b ≡ take_byte u) × (feed u bs ≡ running t)
    go (take_byte u) e k = (u, e, k)
    go (reject _) e k = cc
    go finished e k = cc
