-- ===== src/Tokenizer/Escapes.antt =====
-- Escape sequences, of src/tokenizer.rs: `unhex`, `peek_escape`, `parse_escape`,
-- `low_surrogate_follows` and `resolve_escape`. They read the ring and change nothing.
pub mod Peek
pub mod Hex
pub mod Decode
pub mod Lone
pub mod Chunks
use Prim.Native.String.{String}
use rjsonparser.Prelude.{
  ℕ, zero, suc, ◌+◌, ◌-◌, ◌*◌, Bool, true, false, not, ◌&&◌, ◌||◌, [], ◌∷◌, ◌++◌, Bytes, ltb, leb,
  ◌==◌, if◌then◌else◌, length, take, Option, none, some,
}
use rjsonparser.Error.{ParseError, new, new_number, Result, ok, err, ◌>>=◌}
use rjsonparser.Loopbuf.{Spans}
use rjsonparser.Text.{within, char_from_u32, char_or_replacement, replacement_character}

-- `Unit` of the source is `unit_value`.
pub data Escape : Type 0 where
  need_more : Escape
  unit_value : ℕ → ℕ → Escape

unfoldable pub unhex : ℕ → Result ℕ
unhex b =
    if within b'0' b'9' b
    then ok (b - b'0')
    else if within b'A' b'F' b
    then ok (b - b'A' + 10)
    else if within b'a' b'f' b
    then ok (b - b'a' + 10)
    else err (new_number "Invalid hex digit: " b)

-- The bytes behind the span, one by one, up to six in all.
unfoldable pub peek_rest : ℕ → Spans → ℕ → ℕ → Bytes
peek_rest zero input i n = []
peek_rest (suc rounds) input i n =
    let rest = peek_rest rounds input i (n + 1) in
    if ltb (i + n) input.len then input.at (i + n) ∷ rest else []

-- `&bytes[..n]` of the pair that the source returns.
unfoldable pub peek_escape : Spans → ℕ → Bytes
unfolding peek_rest
peek_escape input i =
    let span = input.span_from i in
    if leb 6 (length span)
    then take 6 span
    else span ++ peek_rest (6 - length span) input i (length span)

-- `(value << 4) | digit`: the digit is below 16, so the two share no bit.
abbrev pub shift_in : ℕ → ℕ → ℕ
shift_in value digit = value * 16 + digit

-- The loop over `bytes[2..6]`, with the digits still wanted.
unfoldable pub hex_digits : ℕ → ℕ → Bytes → Result Escape
hex_digits zero value bs = ok (unit_value value 6)
hex_digits (suc k) value [] = ok need_more
hex_digits (suc k) value (h ∷ bs) = do d ← unhex h; hex_digits k (shift_in value d) bs

abbrev pub simple_escape : ℕ → Option ℕ
simple_escape c =
    if c == b'"'
    then some b'"'
    else if c == b'\\'
    then some b'\\'
    else if c == b'/'
    then some b'/'
    else if c == b'b'
    then some 0x08
    else if c == b'f'
    then some 0x0c
    else if c == b'n'
    then some b'\n'
    else if c == b'r'
    then some b'\r'
    else if c == b't'
    then some b'\t'
    else none

unfoldable pub parse_escape : Bytes → Result Escape
unfolding hex_digits
parse_escape [] = ok need_more
parse_escape (b ∷ []) = ok need_more
parse_escape (b ∷ c ∷ bs) = elim (simple_escape c) [
  | some simple ↦ ok (unit_value simple 2)
  | none ↦ if c == b'u' then hex_digits 4 0 bs else err (new_number "Invalid escape sequence: \\" c)
]

pub data Follow : Type 0 where
  follow_need_more : Follow
  not_low : Follow
  low : ℕ → Follow

-- The loop over `bytes[2..6]`; a bad digit is reported when it is reached.
unfoldable pub low_digits : ℕ → ℕ → Bytes → Follow
low_digits zero value bs = if within 0xDC00 0xDFFF value then low value else not_low
low_digits (suc k) value [] = not_low
low_digits (suc k) value (h ∷ bs) = elim (unhex h) [
  | ok d ↦ low_digits k (shift_in value d) bs
  | err _ ↦ not_low
]

unfoldable pub low_surrogate_follows : Bytes → Follow
unfolding low_digits
low_surrogate_follows [] = follow_need_more
low_surrogate_follows (first ∷ []) = if not (first == b'\\') then not_low else follow_need_more
low_surrogate_follows (first ∷ second ∷ bs) =
    if not (first == b'\\')
    then not_low
    else if not (second == b'u')
    then not_low
    else if ltb (length bs) 4
    then follow_need_more
    else low_digits 4 0 bs

-- A high surrogate with what follows it.
abbrev pub pair_up : ℕ → ℕ → Follow → Option (ℕ × ℕ)
pair_up unit len follow_need_more = none
pair_up unit len not_low = some (replacement_character, len)
pair_up unit len (low l) =
    some (
      char_or_replacement (char_from_u32 (0x10000 + (unit - 0xD800) * 1024 + (l - 0xDC00))),
      len + 6,
    )

abbrev pub resolve_unit : Spans → ℕ → Escape → Option (ℕ × ℕ)
resolve_unit input i need_more = none
resolve_unit input i (unit_value unit len) =
    if within 0xD800 0xDBFF unit
    then pair_up unit len (low_surrogate_follows (peek_escape input (i + len)))
    else some (char_or_replacement (char_from_u32 unit), len)

-- The character and the source bytes it took, or `None` for more data.
unfoldable pub resolve_escape : Spans → ℕ → Result (Option (ℕ × ℕ))
resolve_escape input i = do
  escape ← parse_escape (peek_escape input i)
  ok (resolve_unit input i escape)
