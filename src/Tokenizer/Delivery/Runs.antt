-- ===== src/Tokenizer/Delivery/Runs.antt =====
-- A plain run of string content, of `decode_run` in src/tokenizer.rs, is delivered as its bytes.
use rjsonparser.Prelude.{
  ℕ, zero, suc, ◌+◌, ◌-◌, ◌≤◌, min, ◌≡◌, refl, sym, ap, ◌∙◌, Bool, true, false, chosen, Option,
  none, some, [], ◌∷◌, ◌++◌, append_assoc, append-nil, Bytes, ltb, length, length-take, take, drop,
  drop-drop, take-take_le, arith,
}
use mathlib.Core.Path.{subst}
use rjsonparser.Error.{Result, ok, err}
use rjsonparser.Exec.{continue}
use rjsonparser.Handler.{ContentHandler}
use rjsonparser.Loopbuf.{Spans, IsView}
use rjsonparser.Text.{len_utf8, len_utf16, encode_utf8, utf8_check, stops_at, all_valid, Utf8Check}
use rjsonparser.Tokenizer.Escapes.Peek.{take_nil, behind_span}
use rjsonparser.Tokenizer.Machine.{Machine, M, free, when}
use rjsonparser.Tokenizer.Strings.{
  decode_char_at, make_room, cut_char, decode_slice, slice_at, low_water, decode_loop, decode_run,
  utf16_len,
}
use rjsonparser.Tokenizer.Delivery.{IsListening, text, Quiet, MakesRoom, listening-MakesRoom}
use rjsonparser.Tokenizer.Delivery.Chars.{decode_char_at-encode_utf8}
use rjsonparser.Tokenizer.Reach.Decoding.{Stops, decode_char_at-le, utf8_check-stops}

-- Two pieces one behind the other.
take-split : (a b : ℕ) (xs : Bytes) → take a xs ++ take b (drop a xs) ≡ take (a + b) xs
take-split zero b xs = let e : b ≡ 0 + b = omega arith in ap (λ (k : ℕ). take k xs) e
take-split (suc a) b [] = take_nil b ∙ sym (take_nil (suc a + b))
take-split (suc a) b (x ∷ xs) =
    let e : suc (a + b) ≡ suc a + b = omega arith in
    ap (λ (t : Bytes). x ∷ t) (take-split a b xs) ∙ ap (λ (k : ℕ). take k (x ∷ xs)) e

-- The front of a span is the front of what stands there.
take-front_of :
    (n : ℕ) (span rest whole : Bytes)
    → span ++ rest ≡ whole
    → take n span ≡ take (length (take n span)) whole
take-front_of zero span rest whole e = refl
take-front_of (suc n) [] rest whole e = refl
take-front_of (suc n) (x ∷ span) rest whole e =
    ap (λ (t : Bytes). x ∷ t) (take-front_of n span rest (span ++ rest) refl)
    ∙ ap (take (suc (length (take n span)))) e

-- The bytes of a range.
abbrev pub piece : Bytes → ℕ → ℕ → Bytes
piece bs p q = take (q - p) (drop p bs)

pub piece-append :
    (bs : Bytes) (p q r : ℕ) → p ≤ q → q ≤ r → piece bs p q ++ piece bs q r ≡ piece bs p r
piece-append bs p q r le le' =
    let there : p + (q - p) ≡ q = omega (arith, le) in
    let whole : (q - p) + (r - q) ≡ r - p = omega (arith, le, le') in
    ap (λ (i : ℕ). piece bs p q ++ take (r - q) (drop i bs)) (sym there)
    ∙ ap (λ (x : Bytes). piece bs p q ++ take (r - q) x) (sym (drop-drop (q - p) p bs))
    ∙ take-split (q - p) (r - q) (drop p bs)
    ∙ ap (λ (k : ℕ). take k (drop p bs)) whole

module _ {H : Type 0} (heard : H → Bytes) (bs : Bytes) where
  -- Decoding that succeeds has added the bytes from its start up to where it stands.
  abbrev pub Says : Bytes → ℕ → Result (ℕ × ℕ) × Machine H → Type 0
  Says said p (ok (q, units), m) = (p ≤ q) × (text heard m ≡ said ++ piece bs p q)
  Says said p (err e, m) = Unit {0}

  -- Bytes added in front of those that follow.
  from_Says :
      (said : Bytes) (p q : ℕ)
      → p ≤ q
      → (r : Result (ℕ × ℕ) × Machine H) → Says (said ++ piece bs p q) q r
      → Says said p r
  from_Says said p q le (ok (at, units), m) (le', e) = (
    omega (arith, le, le'),
    e
        ∙ append_assoc said (piece bs p q) (piece bs q at)
        ∙ ap (λ (x : Bytes). said ++ x) (piece-append bs p q at le le'),
  )
  from_Says said p q le (err x, m) h = tt

module _ {F H : Type 0} (who : Option (ContentHandler F H)) (heard : H → Bytes)
    (room : MakesRoom heard who) {input : Spans} {bs : Bytes} (view : IsView input bs) where
  abbrev Goes : (ℕ → ℕ → M H (ℕ × ℕ)) → ℕ → Type 0
  Goes next to = (q u : ℕ) (m : Machine H) → q ≤ to → Says heard bs (text heard m) q (next q u m)

  Quiet-Says :
      (said : Bytes) (p : ℕ) (r : Result (Unit {0}) × Machine H) (f : Unit {0} → M H (ℕ × ℕ))
      → Quiet heard said r
      → ((m : Machine H) → text heard m ≡ said → Says heard bs said p (f tt m))
      → Says heard bs said p (continue r f)
  Quiet-Says said p (ok u, m) f quiet go = go m quiet
  Quiet-Says said p (err e, m) f quiet go = tt

  lifted-Says :
      {A : Type 0} (said : Bytes) (p : ℕ) (r : Result A) (f : A → M H (ℕ × ℕ)) (m : Machine H)
      → ((a : A) → r ≡ ok a → Says heard bs said p (f a m))
      → Says heard bs said p (continue (r, m) f)
  lifted-Says said p (ok a) f m go = go a refl
  lifted-Says said p (err e) f m go = tt

  -- Characters pushed are said.
  pushed-Says :
      (next : ℕ → ℕ → M H (ℕ × ℕ)) (to : ℕ)
      → Goes next to
      → (said : Bytes) (p q u : ℕ) (m : Machine H) → text heard m ≡ said
      → p ≤ q
      → q ≤ to
      → (chars : Bytes) → chars ≡ piece bs p q
      → Says heard bs said p
          (next q u (record m { tok = record m.tok { chars = m.tok.chars ++ chars } }))
  pushed-Says next to go said p q u m quiet le le' chars e =
      let pushed = record m { tok = record m.tok { chars = m.tok.chars ++ chars } } in
      let all : text heard pushed ≡ said ++ piece bs p q =
        sym (append_assoc (heard m.handler) m.tok.chars chars)
        ∙ ap (λ (x : Bytes). x ++ chars) quiet
        ∙ ap (λ (x : Bytes). said ++ x) e in
      from_Says heard bs said p q le _
        (subst (λ (x : Bytes). Says heard bs x q (next q u pushed)) all (go q u pushed le'))

  nothing_said : (said : Bytes) (p : ℕ) → said ≡ said ++ piece bs p p
  nothing_said said p =
      let e : 0 ≡ p - p = omega arith in
      sym (append-nil said) ∙ ap (λ (k : ℕ). said ++ take k (drop p bs)) e

  room-Quiet :
      (b : Bool) (m : Machine H) (said : Bytes)
      → text heard m ≡ said
      → Quiet heard said (when b (make_room who) m)
  room-Quiet b m said quiet =
      subst (λ (x : Bytes). Quiet heard x (when b (make_room who) m)) quiet (room b m)

  cut_char-Says :
      (next : ℕ → ℕ → M H (ℕ × ℕ)) (to : ℕ)
      → Goes next to
      → (said : Bytes) (p units : ℕ) (cut : Option (ℕ × ℕ)) (m : Machine H) → text heard m ≡ said
      → ((ch n : ℕ) → cut ≡ some (ch, n) → (p + n ≤ to) × (encode_utf8 ch ≡ take n (drop p bs)))
      → Says heard bs said p (cut_char next who p units cut m)
  cut_char-Says next to go said p units none m quiet there =
      (omega arith, quiet ∙ nothing_said said p)
  cut_char-Says next to go said p units (some (ch, n)) m quiet there =
      Quiet-Says said p (when (ltb (free m.tok) (len_utf8 ch)) (make_room who) m) _
        (room-Quiet (ltb (free m.tok) (len_utf8 ch)) m said quiet)
        (λ x e.
          let (le, chars) = there ch n refl in
          let size : n ≡ p + n - p = omega arith in
          pushed-Says next to go said p (p + n) (units + len_utf16 ch) x e (omega arith) le
            (encode_utf8 ch) (chars ∙ ap (λ (k : ℕ). take k (drop p bs)) size))

  decode_slice-Says :
      (next : ℕ → ℕ → M H (ℕ × ℕ)) (to : ℕ)
      → Goes next to
      → Stops input to
      → to ≤ length bs
      → (said : Bytes) (p units : ℕ) (slice : Bytes) (check : Utf8Check) (m : Machine H)
      → text heard m ≡ said
      → p + length slice ≤ to
      → slice ≡ take (length slice) (drop p bs)
      → utf8_check slice ≡ check
      → Says heard bs said p (decode_slice next who input p units slice check m)
  decode_slice-Says next to go stop le said p units slice all_valid m quiet fits same check =
      let size : length slice ≡ p + length slice - p = omega arith in
      pushed-Says next to go said p (p + length slice) (units + utf16_len slice) m quiet
        (omega arith) fits slice (same ∙ ap (λ (k : ℕ). take k (drop p bs)) size)
  decode_slice-Says next to go stop le said p units slice (stops_at valid true) m quiet fits same
        check =
      tt
  decode_slice-Says next to go stop le said p units slice (stops_at valid false) m quiet fits same
        check =
      let inside = utf8_check-stops slice valid false check in
      let pushed = record m { tok = record m.tok { chars = m.tok.chars ++ take valid slice } } in
      let size : valid ≡ p + valid - p = omega arith in
      let front : take valid slice ≡ piece bs p (p + valid) =
        ap (take valid) same
        ∙ take-take_le valid (length slice) (drop p bs) (omega (arith, inside))
        ∙ ap (λ (k : ℕ). take k (drop p bs)) size in
      let now : text heard pushed ≡ said ++ piece bs p (p + valid) =
        sym (append_assoc (heard m.handler) m.tok.chars (take valid slice))
        ∙ ap (λ (x : Bytes). x ++ take valid slice) quiet
        ∙ ap (λ (x : Bytes). said ++ x) front in
      lifted-Says said p (decode_char_at input (p + valid)) _ pushed (λ cut found.
        from_Says heard bs said p (p + valid) (omega arith) _ (
          cut_char-Says next to go (said ++ piece bs p (p + valid)) (p + valid)
            (units + utf16_len (take valid slice)) cut pushed now
            (λ ch n here. (
              (decode_char_at-le input to (p + valid) ch n stop (omega (arith, fits, inside))
                  (found ∙ ap ok here)).1,
              decode_char_at-encode_utf8 view (p + valid) ch n (omega (arith, fits, inside, le))
                  (found ∙ ap ok here),
            ))))

  slice_at-take :
      (p to : ℕ) (m : Machine H)
      → slice_at input p to m ≡ take (length (slice_at input p to m)) (drop p bs)
  slice_at-take p to m =
      let n : ℕ = min (to - p) (free m.tok) in
      let (rest, e, _) = behind_span view p in
      take-front_of n (input.span_from p) rest (drop p bs) e

  decode_loop-Says :
      (to : ℕ)
      → Stops input to
      → to ≤ length bs
      → (fuel p units : ℕ) (m : Machine H) → p ≤ to
      → Says heard bs (text heard m) p (decode_loop fuel who input to p units m)
  unfolding decode_loop
  decode_loop-Says to stop le zero p units m inside = (omega arith, nothing_said (text heard m) p)
  decode_loop-Says to stop le (suc fuel) p units m inside =
      chosen (ltb p to) (λ (a : M H (ℕ × ℕ)). Says heard bs (text heard m) p (a m)) _ _
        (λ more.
          Quiet-Says (text heard m) p (when (ltb (free m.tok) (low_water who)) (make_room who) m) _
            (room-Quiet (ltb (free m.tok) (low_water who)) m (text heard m) refl)
            (λ x quiet.
              decode_slice-Says (decode_loop fuel who input to) to
                (λ q u y. decode_loop-Says to stop le fuel q u y) stop le (text heard m) p units
                (slice_at input p to x) (utf8_check (slice_at input p to x)) x quiet
                (omega (arith, length-take (min (to - p) (free x.tok)) (input.span_from p), inside))
                (slice_at-take p to x) refl))
        (λ _. (omega arith, nothing_said (text heard m) p))

  -- Decoding a run, with a handler or without.
  pub run-Says :
      (from to : ℕ) (m : Machine H)
      → Stops input to
      → from ≤ to
      → to ≤ length bs
      → Says heard bs (text heard m) from (decode_run who input from to m)
  unfolding decode_run
  run-Says from to m stop inside le = decode_loop-Says to stop le (to - from + 1) from 0 m inside

-- Decoding that succeeds says the bytes of the run up to where it stands, each once and in order, however
-- many times its room ran out in between and however the ring splits its bytes.
pub decode_run-Says :
    {F H : Type 0} (on : ContentHandler F H) (heard : H → Bytes)
    → IsListening on heard
    → {input : Spans} {bs : Bytes} → IsView input bs
    → (from to : ℕ) (m : Machine H) → Stops input to
    → from ≤ to
    → to ≤ length bs
    → Says heard bs (text heard m) from (decode_run (some on) input from to m)
decode_run-Says on heard listens view from to m stop inside le =
    run-Says (some on) heard (listening-MakesRoom on heard listens) view from to m stop inside le
