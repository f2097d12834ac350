-- ===== src/Tokenizer/Strings.antt =====
-- String content, of src/tokenizer.rs: `utf16_len`, `scan_plain`, `decode_char_at`, `decode_run`,
-- `make_room` and `continue_string`. The loops recur on fuel, one unit for each byte and one more.
use rjsonparser.Prelude.{
  ℕ, zero, suc, ◌+◌, ◌-◌, min, Bool, true, false, not, ◌&&◌, ◌||◌, [], ◌∷◌, ◌++◌, Bytes, ltb, leb,
  ◌==◌, if◌then◌else◌, length, take, Option, none, some,
}
use rjsonparser.Error.{ParseError, new, out_of_fuel, Result, ok, err}
use rjsonparser.Exec.{pure, raise, lift, gets, ◌>>=◌, ◌>>◌}
use rjsonparser.Handler.{ContentHandler, end_string_value}
use rjsonparser.Loopbuf.{Spans}
use rjsonparser.Text.{
  is_continuation, within, len_utf8, len_utf16, encode_utf8, char, malformed, cut_off, first_char,
  Utf8Check, all_valid, stops_at, utf8_check,
}
use rjsonparser.Tokenizer.Escapes.{resolve_escape}
use rjsonparser.Tokenizer.Machine.{
  after_value, Machine, Env, M, report, update, add_column, consume_to, ensure_chars, free,
  flush_chars, check_limit, when, min_decode_room,
}

abbrev is_ascii : Bytes → Bool
is_ascii [] = true
is_ascii (b ∷ bs) = ltb b 0x80 && is_ascii bs

-- `b & 0xC0 != 0x80`, and one more for a lead byte of four
abbrev unit_count : ℕ → ℕ
unit_count b = (if is_continuation b then 0 else 1) + (if leb 0xF0 b then 1 else 0)

pub sum_units : Bytes → ℕ
sum_units [] = 0
sum_units (b ∷ bs) = unit_count b + sum_units bs

unfoldable pub utf16_len : Bytes → ℕ
unfolding sum_units
utf16_len s = if is_ascii s then length s else sum_units s

abbrev pub ends_run : ℕ → Bool
ends_run b = b == b'"' || b == b'\\' || ltb b 0x20

-- `position` of the first byte that ends a run
unfoldable pub position : Bytes → Option ℕ
position [] = none
position (b ∷ bs) =
    let rest = position bs in
    if ends_run b then some 0 else elim rest [ none ↦ none | some k ↦ some (suc k) ]

unfoldable pub scan_loop : ℕ → Spans → ℕ → ℕ → ℕ
unfolding position
scan_loop zero input i to = to
scan_loop (suc fuel) input i to =
    let span = take (to - i) (input.span_from i) in
    let rest = scan_loop fuel input (i + length span) to in
    if ltb i to then elim (position span) [ some k ↦ i + k | none ↦ rest ] else to

unfoldable pub scan_plain : Spans → ℕ → ℕ → ℕ
unfolding scan_loop
scan_plain input from to = scan_loop (to - from + 1) input from to

abbrev pub malformed_utf8 : ParseError
malformed_utf8 = new "Malformed UTF-8"

-- The bytes behind the lead byte; `None` where they are not all there.
unfoldable pub gather : ℕ → Spans → ℕ → Bytes → Result (Option Bytes)
gather zero input p bytes = ok (some bytes)
gather (suc k) input p bytes =
    let rest = gather k input (p + 1) (bytes ++ input.at p ∷ []) in
    if leb input.len p
    then ok none
    else if not (is_continuation (input.at p))
    then err malformed_utf8
    else rest

abbrev pub one_char : ℕ → Bytes → Result (Option (ℕ × ℕ))
one_char need bytes = elim (utf8_check bytes) [
  | stops_at _ _ ↦ err malformed_utf8
  | all_valid ↦ elim (first_char bytes) [
    | char c _ ↦ ok (some (c, need))
    | malformed ↦ err malformed_utf8
    | cut_off ↦ err malformed_utf8
  ]
]

abbrev pub after_gather : ℕ → Result (Option Bytes) → Result (Option (ℕ × ℕ))
after_gather need (err e) = err e
after_gather need (ok none) = ok none
after_gather need (ok (some bytes)) = one_char need bytes

abbrev pub char_bytes : ℕ → Spans → ℕ → Result (Option (ℕ × ℕ))
char_bytes need input p = after_gather need (gather (need - 1) input (p + 1) (input.at p ∷ []))

unfoldable pub decode_char_at : Spans → ℕ → Result (Option (ℕ × ℕ))
unfolding gather
decode_char_at input p =
    let b = input.at p in
    if within 0xC2 0xDF b
    then char_bytes 2 input p
    else if within 0xE0 0xEF b
    then char_bytes 3 input p
    else if within 0xF0 0xF4 b
    then char_bytes 4 input p
    else err malformed_utf8

module _ {H : Type 0} where
  abbrev pub push_str : Bytes → M H (Unit {0})
  push_str s = update (λ t. record t { chars = t.chars ++ s })

  -- The slice to decode: up to the end of the span, of the run, and of the room.
  abbrev pub slice_at : Spans → ℕ → ℕ → Machine H → Bytes
  slice_at input p to m = take (min (to - p) (free m.tok)) (input.span_from p)

module _ {F H : Type 0} where
  unfoldable pub make_room : Option (ContentHandler F H) → M H (Unit {0})
  make_room (some on) = flush_chars on
  make_room none = raise (new "Object key is longer than the string chunk size")

  abbrev pub low_water : Option (ContentHandler F H) → ℕ
  low_water none = 1
  low_water (some on) = min_decode_room

  -- A character cut short by the end of the slice.
  abbrev pub cut_char :
      (ℕ → ℕ → M H (ℕ × ℕ)) → Option (ContentHandler F H) → ℕ → ℕ → Option (ℕ × ℕ) → M H (ℕ × ℕ)
  cut_char next handler p units none = pure (p, units)
  cut_char next handler p units (some (ch, n)) = do
    room ← gets (λ m. free m.tok)
    when (ltb room (len_utf8 ch)) (make_room handler)
    push_str (encode_utf8 ch)
    next (p + n) (units + len_utf16 ch)

  -- `next` goes on from a position with the units so far.
  abbrev pub decode_slice :
      (ℕ → ℕ → M H (ℕ × ℕ))
      → Option (ContentHandler F H)
      → Spans
      → ℕ
      → ℕ
      → Bytes
      → Utf8Check
      → M H (ℕ × ℕ)
  decode_slice next handler input p units slice all_valid = do
    push_str slice
    next (p + length slice) (units + utf16_len slice)
  decode_slice next handler input p units slice (stops_at valid is_malformed) = do
    push_str (take valid slice)
    when is_malformed (raise malformed_utf8)
    cut ← lift (decode_char_at input (p + valid))
    cut_char next handler (p + valid) (units + utf16_len (take valid slice)) cut

  unfoldable pub decode_loop : ℕ → Option (ContentHandler F H) → Spans → ℕ → ℕ → ℕ → M H (ℕ × ℕ)
  unfolding utf16_len decode_char_at make_room
  decode_loop zero handler input to p units = pure (p, units)
  decode_loop (suc fuel) handler input to p units =
      if ltb p to
      then (do
        room ← gets (λ m. free m.tok)
        when (ltb room (low_water handler)) (make_room handler)
        slice ← gets (slice_at input p to)
        decode_slice (decode_loop fuel handler input to) handler input p units slice
            (utf8_check slice))
      else pure (p, units)

  -- The position reached and the UTF-16 units written.
  unfoldable pub decode_run : Option (ContentHandler F H) → Spans → ℕ → ℕ → M H (ℕ × ℕ)
  unfolding decode_loop
  decode_run handler input from to = decode_loop (to - from + 1) handler input to from 0

  -- The plain run at the front: whether a character is cut off by the end of the input.
  unfoldable pub plain_run : Env F H → ℕ → ℕ → M H Bool
  unfolding decode_run
  plain_run env run_start run_end =
      if ltb run_start run_end
      then (do
        bytes ← gets (λ m. m.tok.string_bytes)
        check_limit env.limits.max_string_length (bytes + (run_end - run_start))
            "Maximum string length exceeded: "
        reached ← decode_run (some env.on) env.input run_start run_end
        update (λ t. record t { string_bytes = t.string_bytes + (reached.0 - run_start) })
        add_column reached.1
        consume_to reached.0
        pure (ltb reached.0 run_end))
      else pure false

  unfoldable pub close_string : Env F H → ℕ → M H Bool
  close_string env run_end = do
    flush_chars env.on
    consume_to (run_end + 1)
    add_column 1
    update (λ t. record t { in_string = false; state = after_value })
    report env.on end_string_value
    pure true

  unfoldable pub wait : Env F H → M H Bool
  wait env = do flush_chars env.on; pure false

  unfoldable pub escape_char : M H Bool → Env F H → ℕ → Option (ℕ × ℕ) → M H Bool
  unfolding wait
  escape_char next env run_end none = wait env
  escape_char next env run_end (some (ch, n)) = do
    room ← gets (λ m. free m.tok)
    when (ltb room (len_utf8 ch)) (flush_chars env.on)
    push_str (encode_utf8 ch)
    consume_to (run_end + n)
    update (λ t. record t { string_bytes = t.string_bytes + n })
    add_column n
    bytes ← gets (λ m. m.tok.string_bytes)
    check_limit env.limits.max_string_length bytes "Maximum string length exceeded: "
    next

  -- What stands behind the plain run.
  unfoldable pub after_run : M H Bool → Env F H → ℕ → M H Bool
  unfolding wait close_string escape_char
  after_run next env run_end =
      let b = env.input.at run_end in
      if run_end == env.input.len
      then wait env
      else if b == b'"'
      then close_string env run_end
      else if not (b == b'\\')
      then raise (new "Unescaped control character in string")
      else (do
        escape ← lift (resolve_escape env.input run_end)
        escape_char next env run_end escape)

  -- The body of the loop, where `next` goes round again.
  abbrev pub string_round : M H Bool → Env F H → M H Bool
  string_round next env = do
    run_start ← gets (λ m. m.consumed)
    let run_end = scan_plain env.input run_start env.input.len
    cut ← plain_run env run_start run_end
    (if cut then wait env else after_run next env run_end)

  unfoldable pub string_loop : ℕ → Env F H → M H Bool
  unfolding plain_run after_run wait
  string_loop zero env = raise out_of_fuel
  string_loop (suc fuel) env = string_round (string_loop fuel env) env

  -- `true` if the closing quote was consumed.
  unfoldable pub continue_string : Env F H → M H Bool
  unfolding string_loop ensure_chars flush_chars
  continue_string env = do
    ensure_chars
    start ← gets (λ m. m.consumed)
    string_loop (env.input.len - start + 1) env
