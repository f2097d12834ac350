-- ===== src/Tokenizer/Nesting/Decoding.antt =====
-- Decoding the bytes of a string, by `decode_run` and `decode_key` of src/tokenizer.rs, keeps the nesting.
use rjsonparser.Prelude.{
  ℕ, zero, suc, ◌+◌, ◌-◌, ◌≡◌, Bool, true, false, [], ◌∷◌, ◌++◌, Bytes, ltb, leb, if◌then◌else◌,
  length, take, Option, none, some,
}
use rjsonparser.Error.{new, ParseError, Result, ok, err}
use rjsonparser.Limits.{ParserLimits}
use rjsonparser.Exec.{fail_if, gets, raise, lift}
use rjsonparser.Handler.{ContentHandler, string_value_content}
use rjsonparser.Loopbuf.{Spans}
use rjsonparser.Text.{Utf8Check, all_valid, stops_at, utf8_check, encode_utf8, len_utf8, len_utf16}
use rjsonparser.Tokenizer.Machine.{State, Tokenizer, Machine, M, free, flush, flush_chars, when}
use rjsonparser.Tokenizer.Strings.{
  push_str, slice_at, make_room, low_water, cut_char, decode_slice, decode_loop, decode_run,
  decode_char_at, malformed_utf8, utf16_len, scan_plain,
}
use rjsonparser.Tokenizer.ObjectKeys.{key_escape, key_run, decode_key_loop, decode_key}
use rjsonparser.Tokenizer.Escapes.{resolve_escape}
use rjsonparser.Tokenizer.Triple.{
  Triple, bind-Triple, then-Triple, update-Triple, fail_if-Triple, report-Triple, pure-Triple,
  weaken,
}
use rjsonparser.Tokenizer.Nesting.{IsNested}

module _ {H : Type 0} where
  -- What reads the machine only.
  pub read-Triple :
      {A : Type 0} {P : Tokenizer → Type 0} (f : Machine H → A) → Triple P (gets f) (λ _. P)
  read-Triple f = record { run = λ m p. p }

  pub raise-Triple :
      {A : Type 0} {P : Tokenizer → Type 0} {Q : A → Tokenizer → Type 0} (e : ParseError)
      → Triple {H = H} P (raise e) Q
  raise-Triple e = record { run = λ m p. tt }

  pub lift-Triple :
      {A : Type 0} {P : Tokenizer → Type 0} (r : Result A) → Triple {H = H} P (lift r) (λ _. P)
  lift-Triple (ok a) = record { run = λ m p. p }
  lift-Triple (err e) = record { run = λ m p. tt }

  pub when-Triple :
      {P : Tokenizer → Type 0} {action : M H (Unit {0})} (b : Bool)
      → Triple P action (λ _. P)
      → Triple P (when b action) (λ _. P)
  when-Triple true h = h
  when-Triple false h = pure-Triple tt

  pub choose-Triple :
      {A : Type 0} {P : Tokenizer → Type 0} {yes no : M H A} {Q : A → Tokenizer → Type 0} (b : Bool)
      → Triple P yes Q
      → Triple P no Q
      → Triple P (if b then yes else no) Q
  choose-Triple true y n = y
  choose-Triple false y n = n

  pub refuse-Triple :
      {P : Tokenizer → Type 0} (b : Bool) (e : ParseError) → Triple {H = H} P (fail_if b e) (λ _. P)
  refuse-Triple b e = weaken (fail_if-Triple b e) (λ _ t p. p.0)

-- The nesting is well-formed, and the state is `s`.
abbrev pub Kept : ParserLimits → State → Tokenizer → Type 0
Kept limits s t = IsNested limits t × (t.state ≡ s)

pub chars-Kept :
    {limits : ParserLimits} {s : State} (t : Tokenizer) (chars : Bytes) (cap : ℕ)
    → Kept limits s t
    → Kept limits s (record t { chars = chars; chars_cap = cap })
chars-Kept t chars cap (h, e) = (
  record {
    stacked = record {
      mirrors = h.stacked.mirrors;
      bounded = h.stacked.bounded;
      key_sets = h.stacked.key_sets;
    };
    state_fits = h.state_fits;
  },
  e,
)

abbrev Next : {H : Type 0} → ParserLimits → State → (ℕ → ℕ → M H (ℕ × ℕ)) → Type 0
Next limits s next = (p units : ℕ) → Triple (Kept limits s) (next p units) (λ _. Kept limits s)

module _ {H : Type 0} (limits : ParserLimits) (s : State) where
  pub push_str-Kept :
      (text : Bytes) → Triple {H = H} (Kept limits s) (push_str text) (λ _. Kept limits s)
  push_str-Kept text =
      update-Triple (λ t. record t { chars = t.chars ++ text })
        (λ t h. chars-Kept t (t.chars ++ text) t.chars_cap h)

module _ {F H : Type 0} (limits : ParserLimits) (s : State) where
  flush-Kept :
      (on : ContentHandler F H) (chars : Bytes)
      → Triple {H = H} (Kept limits s) (flush on chars) (λ _. Kept limits s)
  flush-Kept on [] = pure-Triple tt
  flush-Kept on (c ∷ chars) =
      then-Triple (Kept limits s) (report-Triple on (string_value_content (c ∷ chars)))
        (update-Triple (λ t. record t { chars = [] }) (λ t h. chars-Kept t [] t.chars_cap h))

  pub flush_chars-Kept :
      (on : ContentHandler F H)
      → Triple {H = H} (Kept limits s) (flush_chars on) (λ _. Kept limits s)
  unfolding flush_chars
  flush_chars-Kept on =
      bind-Triple (λ _. Kept limits s) (read-Triple (λ m. m.tok.chars))
        (λ chars. flush-Kept on chars)

  make_room-Kept :
      (handler : Option (ContentHandler F H))
      → Triple {H = H} (Kept limits s) (make_room handler) (λ _. Kept limits s)
  unfolding make_room flush_chars
  make_room-Kept none = raise-Triple (new "Object key is longer than the string chunk size")
  make_room-Kept (some on) =
      bind-Triple (λ _. Kept limits s) (read-Triple (λ m. m.tok.chars))
        (λ chars. flush-Kept on chars)

  cut_char-Kept :
      (next : ℕ → ℕ → M H (ℕ × ℕ)) (handler : Option (ContentHandler F H)) (p units : ℕ)
      (cut : Option (ℕ × ℕ))
      → Next limits s next
      → Triple (Kept limits s) (cut_char next handler p units cut) (λ _. Kept limits s)
  cut_char-Kept next handler p units none h = pure-Triple (p, units)
  cut_char-Kept next handler p units (some (ch, n)) h =
      bind-Triple (λ _. Kept limits s) (read-Triple (λ m. free m.tok))
        (λ room.
          then-Triple (Kept limits s)
            (when-Triple (ltb room (len_utf8 ch)) (make_room-Kept handler))
            (then-Triple (Kept limits s) (push_str-Kept limits s (encode_utf8 ch))
              (h (p + n) (units + len_utf16 ch))))

  decode_slice-Kept :
      (next : ℕ → ℕ → M H (ℕ × ℕ)) (handler : Option (ContentHandler F H)) (input : Spans)
      (p units : ℕ) (slice : Bytes) (check : Utf8Check)
      → Next limits s next
      → Triple
          (Kept limits s)
          (decode_slice next handler input p units slice check)
          (λ _. Kept limits s)
  decode_slice-Kept next handler input p units slice all_valid h =
      then-Triple (Kept limits s) (push_str-Kept limits s slice)
        (h (p + length slice) (units + utf16_len slice))
  decode_slice-Kept next handler input p units slice (stops_at valid is_malformed) h =
      then-Triple (Kept limits s) (push_str-Kept limits s (take valid slice)) (
        then-Triple (Kept limits s) (when-Triple is_malformed (raise-Triple malformed_utf8)) (
          bind-Triple (λ _. Kept limits s) (lift-Triple (decode_char_at input (p + valid)))
            (λ cut.
              cut_char-Kept next handler (p + valid) (units + utf16_len (take valid slice)) cut h)))

  decode_loop-Kept :
      (fuel : ℕ) (handler : Option (ContentHandler F H)) (input : Spans) (to p units : ℕ)
      → Triple (Kept limits s) (decode_loop fuel handler input to p units) (λ _. Kept limits s)
  unfolding decode_loop
  decode_loop-Kept zero handler input to p units = pure-Triple (p, units)
  decode_loop-Kept (suc fuel) handler input to p units =
      choose-Triple (ltb p to)
        (bind-Triple (λ _. Kept limits s) (read-Triple (λ m. free m.tok))
          (λ room.
            then-Triple (Kept limits s)
              (when-Triple (ltb room (low_water handler)) (make_room-Kept handler))
              (bind-Triple (λ _. Kept limits s) (read-Triple (slice_at input p to))
                (λ slice.
                  decode_slice-Kept (decode_loop fuel handler input to) handler input p units slice
                    (utf8_check slice) (decode_loop-Kept fuel handler input to)))))
        (pure-Triple (p, units))

  pub decode_run-Kept :
      (handler : Option (ContentHandler F H)) (input : Spans) (from to : ℕ)
      → Triple (Kept limits s) (decode_run handler input from to) (λ _. Kept limits s)
  unfolding decode_run
  decode_run-Kept handler input from to = decode_loop-Kept (to - from + 1) handler input to from 0

module _ {H : Type 0} (limits : ParserLimits) (s : State) where
  key_escape-Kept :
      (next : ℕ → ℕ → M H ℕ) (p src_units : ℕ) (escape : Option (ℕ × ℕ))
      → ((p units : ℕ) → Triple (Kept limits s) (next p units) (λ _. Kept limits s))
      → Triple (Kept limits s) (key_escape next p src_units escape) (λ _. Kept limits s)
  key_escape-Kept next p src_units none h = raise-Triple (new "Incomplete escape sequence in key")
  key_escape-Kept next p src_units (some (ch, n)) h =
      bind-Triple (λ _. Kept limits s) (read-Triple (λ m. free m.tok))
        (λ room.
          then-Triple (Kept limits s)
            (refuse-Triple (ltb room (len_utf8 ch))
              (new "Object key is longer than the string chunk size"))
            (then-Triple (Kept limits s) (push_str-Kept limits s (encode_utf8 ch))
              (h (p + n) (src_units + n))))

  key_run-Kept :
      (input : Spans) (p run_end : ℕ)
      → Triple {H = H} (Kept limits s) (key_run input p run_end) (λ _. Kept limits s)
  key_run-Kept input p run_end =
      choose-Triple (ltb p run_end)
        (bind-Triple (λ _. Kept limits s)
          (decode_run-Kept {F = Unit {0}} limits s none input p run_end)
          (λ reached.
            then-Triple (Kept limits s) (refuse-Triple (ltb reached.0 run_end) malformed_utf8)
              (pure-Triple reached)))
        (pure-Triple (p, 0))

  decode_key_loop-Kept :
      (fuel : ℕ) (input : Spans) (end p src_units : ℕ)
      → Triple {H = H}
          (Kept limits s)
          (decode_key_loop fuel input end p src_units)
          (λ _. Kept limits s)
  unfolding decode_key_loop
  decode_key_loop-Kept zero input end p src_units = pure-Triple src_units
  decode_key_loop-Kept (suc fuel) input end p src_units =
      choose-Triple (ltb p end)
        (bind-Triple (λ _. Kept limits s) (key_run-Kept input p (scan_plain input p end))
          (λ reached. choose-Triple (leb end reached.0) (pure-Triple (src_units + reached.1)) (
            bind-Triple (λ _. Kept limits s) (lift-Triple (resolve_escape input reached.0))
              (λ escape.
                key_escape-Kept (decode_key_loop fuel input end) reached.0 (src_units + reached.1)
                  escape (decode_key_loop-Kept fuel input end)))))
        (pure-Triple src_units)

  pub decode_key-Kept :
      (input : Spans) (start end : ℕ)
      → Triple {H = H} (Kept limits s) (decode_key input start end) (λ _. Kept limits s)
  unfolding decode_key
  decode_key-Kept input start end = decode_key_loop-Kept (end - start + 1) input end start 0
