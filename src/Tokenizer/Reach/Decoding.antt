-- ===== src/Tokenizer/Reach/Decoding.antt =====
-- How far `decode_char_at` and `decode_run` of src/tokenizer.rs go: not past the end of the run.
use rjsonparser.Prelude.{
  ℕ, zero, suc, ◌+◌, ◌-◌, ◌≤◌, ◌<◌, min, ◌≡◌, refl, sym, ap, ◌∙◌, inl, inr, Bool, true, false,
  Bool-cases, Option, none, some, [], ◌∷◌, ◌++◌, Bytes, ltb, length, length-take, length-drop, take,
  drop, get_or-drop, get_or-take, arith,
}
use rjsonparser.Error.{Result, ok, err}
use mathlib.Core.Path.{subst}
use rjsonparser.Exec.{continue}
use rjsonparser.Handler.{ContentHandler}
use rjsonparser.Loopbuf.{Spans, IsView}
use rjsonparser.Text.{
  is_continuation, len_utf8, len_utf16, encode_utf8, first_char, first_of_two, first_of_three,
  first_of_four, char, malformed, cut_off, utf8_check, check_from, stops_at, all_valid, FirstChar,
  Utf8Check,
}
use rjsonparser.Tokenizer.Machine.{Machine, M, free, when}
use rjsonparser.Tokenizer.Strings.{
  ends_run, scan_plain, gather, decode_char_at, make_room, decode_loop, decode_run, after_gather,
  char_bytes, cut_char, decode_slice, low_water, slice_at, utf16_len,
}
use rjsonparser.Tokenizer.Reach.{flush_chars-Keeps}
use rjsonparser.Tokenizer.Reach.Scan.{
  plain_prefix, plain_prefix-le, plain_prefix-ends, scan_plain-plain_prefix,
}

-- No character goes on over this position.
abbrev pub Stops : Spans → ℕ → Type 0
Stops input to = to < input.len → is_continuation (input.at to) ≡ false

abbrev Ends : Spans → ℕ → ℕ → ℕ → Type 0
Ends input from to end = (from ≤ end) × ((end ≤ to) × Stops input end)

run-Ends :
    {input : Spans} {bs : Bytes}
    → IsView input bs
    → (from to k : ℕ) → from ≤ to
    → to ≤ length bs
    → Stops input to
    → k ≤ to - from
    → (k < to - from → ends_run (input.at (from + k)) ≡ true)
    → Ends input from to (from + k)
run-Ends view from to k le le' stop h ends = ground (arith, le, stop, h, ends)

pub scan_plain-Ends :
    {input : Spans} {bs : Bytes}
    → IsView input bs
    → (from to : ℕ) → from ≤ to
    → to ≤ length bs
    → Stops input to
    → Ends input from to (scan_plain input from to)
scan_plain-Ends {input} {bs} view from to le le' stop =
    let n : ℕ = to - from in
    let run = take n (drop from bs) in
    let size : length run ≡ n =
      omega (arith, length-take n (drop from bs), length-drop from bs, le, le') in
    rw (scan_plain-plain_prefix view from to le le') (
      run-Ends view from to (plain_prefix run) le le' stop
        (omega (arith, plain_prefix-le run, size))
        (λ h.
          ap ends_run (
            view.at_eq (from + plain_prefix run) (omega (arith, h, le'))
            ∙ sym (get_or-drop from (plain_prefix run) bs)
            ∙ sym (get_or-take n (plain_prefix run) (drop from bs) h))
          ∙ plain_prefix-ends run (omega (arith, h, size))))

pub gather-le :
    (input : Spans) (to : ℕ)
    → Stops input to
    → (k p : ℕ) (bytes got : Bytes) → p ≤ to
    → gather k input p bytes ≡ ok (some got)
    → p + k ≤ to
unfolding gather
gather-le input to stop zero p bytes got le e = omega (arith, le)
gather-le input to stop (suc k) p bytes got le e =
    ground (arith, e, stop, le, gather-le input to stop k (p + 1) (bytes ++ input.at p ∷ []) got)

first_char-size : (bs : Bytes) (c n : ℕ) → first_char bs ≡ char c n → (0 < n) × (n ≤ length bs)
unfolding first_char first_of_two first_of_three first_of_four
first_char-size [] c n e = ground (arith, e)
first_char-size (a ∷ []) c n e = ground (arith, e)
first_char-size (a ∷ b ∷ []) c n e = ground (arith, e)
first_char-size (a ∷ b ∷ d ∷ []) c n e = ground (arith, e)
first_char-size (a ∷ b ∷ d ∷ f ∷ bs) c n e = ground (arith, e)

after_gather-got :
    (need c n : ℕ) (r : Result (Option Bytes))
    → after_gather need r ≡ ok (some (c, n))
    → (n ≡ need) × ((got : Bytes) × (r ≡ ok (some got)))
after_gather-got need c n (err x) e = ground (arith, e)
after_gather-got need c n (ok none) e = ground (arith, e)
after_gather-got need c n (ok (some got)) e = (ground (arith, e), (got, refl))

char_bytes-le :
    (input : Spans) (to need p c n : ℕ)
    → Stops input to
    → p < to
    → 0 < need
    → char_bytes need input p ≡ ok (some (c, n))
    → (0 < n) × (p + n ≤ to)
char_bytes-le input to need p c n stop h pos e =
    let (same, (got, all)) =
      after_gather-got need c n (gather (need - 1) input (p + 1) (input.at p ∷ [])) e in
    let le =
      gather-le input to stop (need - 1) (p + 1) (input.at p ∷ []) got (omega (arith, h)) all in
    (omega (arith, same, pos), omega (arith, same, le, pos))

pub decode_char_at-le :
    (input : Spans) (to p c n : ℕ)
    → Stops input to
    → p < to
    → decode_char_at input p ≡ ok (some (c, n))
    → (0 < n) × (p + n ≤ to)
unfolding decode_char_at
decode_char_at-le input to p c n stop h e =
    let two = char_bytes-le input to 2 p c n stop h (omega arith) in
    let three = char_bytes-le input to 3 p c n stop h (omega arith) in
    let four = char_bytes-le input to 4 p c n stop h (omega arith) in
    ground (arith, e, two, three, four)

check_from-stops :
    (fuel done : ℕ) (bs : Bytes) (valid : ℕ) (bad : Bool)
    → check_from fuel done bs ≡ stops_at valid bad
    → valid < done + length bs
unfolding check_from
check_from-stops fuel done [] valid bad e = ground (arith, e)
check_from-stops zero done (b ∷ bs) valid bad e = ground (arith, e)
check_from-stops (suc fuel) done (b ∷ bs) valid bad e =
    go (first_char (b ∷ bs)) refl
      (λ n. check_from-stops fuel (done + n) (drop n (b ∷ bs)) valid bad) e
  where
    go :
        (r : FirstChar)
        → first_char (b ∷ bs) ≡ r
        → ((n : ℕ)
            → check_from fuel (done + n) (drop n (b ∷ bs)) ≡ stops_at valid bad
            → valid < done + n + length (drop n (b ∷ bs)))
        → elim r [
          | char c n ↦ check_from fuel (done + n) (drop n (b ∷ bs))
          | malformed ↦ stops_at done true
          | cut_off ↦ stops_at done false
        ]
          ≡ stops_at valid bad
        → valid < done + length (b ∷ bs)
    go (char c n) r further e' =
        let size = first_char-size (b ∷ bs) c n r in
        omega (arith, size, length-drop n (b ∷ bs), further n e')
    go malformed r further e' = ground (arith, e')
    go cut_off r further e' = ground (arith, e')

pub utf8_check-stops :
    (bs : Bytes) (valid : ℕ) (bad : Bool) → utf8_check bs ≡ stops_at valid bad → valid < length bs
unfolding utf8_check
utf8_check-stops bs valid bad e = omega (arith, check_from-stops (length bs) 0 bs valid bad e)

-- A run that was decoded up to a position between its ends, with nothing consumed.
abbrev pub Decoded : {H : Type 0} → ℕ → ℕ → ℕ → Result (ℕ × ℕ) × Machine H → Type 0
Decoded c p to (ok (q, units), m) = (m.consumed ≡ c) × ((p ≤ q) × (q ≤ to))
Decoded c p to (err e, m) = m.consumed ≡ c

module _ {H A : Type 0} where
  after_continue :
      (c p to : ℕ) (r : Result A × Machine H) (f : A → M H (ℕ × ℕ))
      → r.1.consumed ≡ c
      → ((a : A) (m : Machine H) → m.consumed ≡ c → Decoded c p to (f a m))
      → Decoded c p to (continue r f)
  after_continue c p to (ok a, m) f e go = go a m e
  after_continue c p to (err x, m) f e go = e

  lifted :
      (c p to : ℕ) (r : Result A) (f : A → M H (ℕ × ℕ)) (m : Machine H)
      → m.consumed ≡ c
      → ((a : A) → r ≡ ok a → Decoded c p to (f a m))
      → Decoded c p to (continue (r, m) f)
  lifted c p to (ok a) f m e go = go a refl
  lifted c p to (err x) f m e go = e

from_Decoded :
    {H : Type 0} (c to p q : ℕ)
    → p ≤ q
    → (r : Result (ℕ × ℕ) × Machine H) → Decoded c q to r
    → Decoded c p to r
from_Decoded c to p q le (ok (at, units), m) (e, (le1, le2)) = (e, (omega (arith, le, le1), le2))
from_Decoded c to p q le (err x, m) e = e

module _ {F H : Type 0} where
  pub make_room-consumed :
      (on : Option (ContentHandler F H)) (m : Machine H) → (make_room on m).1.consumed ≡ m.consumed
  unfolding make_room
  make_room-consumed none m = refl
  make_room-consumed (some on) m = (flush_chars-Keeps on).same m

  room-consumed :
      (b : Bool) (on : Option (ContentHandler F H)) (m : Machine H)
      → (when b (make_room on) m).1.consumed ≡ m.consumed
  room-consumed true on m = make_room-consumed on m
  room-consumed false on m = refl

  cut_char-Decoded :
      (next : ℕ → ℕ → M H (ℕ × ℕ)) (on : Option (ContentHandler F H)) (c p to units : ℕ)
      (cut : Option (ℕ × ℕ)) (m : Machine H)
      → m.consumed ≡ c
      → p ≤ to
      → ((ch n : ℕ) → cut ≡ some (ch, n) → p + n ≤ to)
      → ((q u : ℕ) (m' : Machine H) → m'.consumed ≡ c → q ≤ to → Decoded c q to (next q u m'))
      → Decoded c p to (cut_char next on p units cut m)
  cut_char-Decoded next on c p to units none m e le fits go = (e, (omega (arith, le), le))
  cut_char-Decoded next on c p to units (some (ch, n)) m e le fits go =
      after_continue c p to (when (ltb (free m.tok) (len_utf8 ch)) (make_room on) m) _
        (room-consumed (ltb (free m.tok) (len_utf8 ch)) on m ∙ e)
        (λ a m' e'. from_Decoded c to p (p + n) (omega arith) _ (
          go (p + n) (units + len_utf16 ch)
            (record m' { tok = record m'.tok { chars = m'.tok.chars ++ encode_utf8 ch } }) e'
            (fits ch n refl)))

  decode_slice-Decoded :
      (next : ℕ → ℕ → M H (ℕ × ℕ)) (on : Option (ContentHandler F H)) (input : Spans)
      (c p to units : ℕ) (slice : Bytes) (check : Utf8Check) (m : Machine H)
      → Stops input to
      → m.consumed ≡ c
      → p + length slice ≤ to
      → utf8_check slice ≡ check
      → ((q u : ℕ) (m' : Machine H) → m'.consumed ≡ c → q ≤ to → Decoded c q to (next q u m'))
      → Decoded c p to (decode_slice next on input p units slice check m)
  decode_slice-Decoded next on input c p to units slice all_valid m stop e le check go =
      from_Decoded c to p (p + length slice) (omega arith) _ (
        go (p + length slice) (units + utf16_len slice)
          (record m { tok = record m.tok { chars = m.tok.chars ++ slice } }) e le)
  decode_slice-Decoded next on input c p to units slice (stops_at valid true) m stop e le check go =
      e
  decode_slice-Decoded next on input c p to units slice (stops_at valid false) m stop e le check
        go =
      let inside = utf8_check-stops slice valid false check in
      let pushed = record m { tok = record m.tok { chars = m.tok.chars ++ take valid slice } } in
      lifted c p to (decode_char_at input (p + valid)) _ pushed e (λ cut at_cut.
        from_Decoded c to p (p + valid) (omega arith) _ (
          cut_char-Decoded next on c (p + valid) to (units + utf16_len (take valid slice)) cut
            pushed e (omega (arith, le, inside))
            (λ ch n here.
              (decode_char_at-le input to (p + valid) ch n stop (omega (arith, le, inside))
                (at_cut ∙ ap ok here)).1)
            go))

  -- Decoding consumes nothing and stays between its start and the end of the run.
  pub decode_loop-Decoded :
      (on : Option (ContentHandler F H)) (input : Spans) (to : ℕ)
      → Stops input to
      → (fuel p units : ℕ) (m : Machine H) → p ≤ to
      → Decoded m.consumed p to (decode_loop fuel on input to p units m)
  unfolding decode_loop
  decode_loop-Decoded on input to stop zero p units m le = (refl, (omega arith, le))
  decode_loop-Decoded on input to stop (suc fuel) p units m le = elim (Bool-cases (ltb p to)) [
    | inr done ↦ rw done (refl, (omega arith, le))
    | inl more ↦ rw more (
        after_continue m.consumed p to (when (ltb (free m.tok) (low_water on)) (make_room on) m) _
          (room-consumed (ltb (free m.tok) (low_water on)) on m)
          (λ a m' e.
            decode_slice-Decoded (decode_loop fuel on input to) on input m.consumed p to units
              (slice_at input p to m') (utf8_check (slice_at input p to m')) m' stop e
              (omega (arith, length-take (min (to - p) (free m'.tok)) (input.span_from p), le)) refl
              (λ q u m2 e2 le2.
                subst (λ (x : ℕ). Decoded x q to (decode_loop fuel on input to q u m2)) e2
                  (decode_loop-Decoded on input to stop fuel q u m2 le2))))
  ]

  pub decode_run-Decoded :
      (on : Option (ContentHandler F H)) (input : Spans) (from to : ℕ) (m : Machine H)
      → Stops input to
      → from ≤ to
      → Decoded m.consumed from to (decode_run on input from to m)
  unfolding decode_run
  decode_run-Decoded on input from to m stop le =
      decode_loop-Decoded on input to stop (to - from + 1) from 0 m le
