-- ===== src/RoundTrip.antt =====
-- What the writer of src/writer.rs escapes, the tokenizer of src/tokenizer.rs reads back.
use mathlib.Core.Path.{subst}
use rjsonparser.Prelude.{
  ℕ, ◌/◌, ◌%◌, ◌<◌, ◌≡◌, refl, sym, ap, ◌∙◌, false, [], ◌∷◌, ◌++◌, Bytes, ◌==◌, length,
  Option-cases, if◌then◌else◌, inl, inr, arith, take, Option, none, some, drop-append_length,
}
use rjsonparser.Error.{ok}
use rjsonparser.Loopbuf.{Spans, IsView}
use rjsonparser.Text.{within}
use rjsonparser.Tokenizer.Escapes.{
  peek_escape, unit_value, parse_escape, simple_escape, resolve_escape,
}
use rjsonparser.Tokenizer.Escapes.Peek.{peek_escape-take}
use rjsonparser.Tokenizer.Escapes.Hex.{unit_escape, hex_digit}
use rjsonparser.Tokenizer.Escapes.Chunks.{parse_behind, parse_escape_behind}
use rjsonparser.Tokenizer.Escapes.Decode.{Decodes, resolve_single, char_from_u32-IsScalar}
use rjsonparser.Writer.Encode.{is_plain, escape_text, hex_char}

-- The letter of the two-byte escape of a byte, if it has one.
abbrev short_form : ℕ → Option ℕ
short_form b =
    if b == b'"'
    then some b'"'
    else if b == b'\\'
    then some b'\\'
    else if b == 0x08
    then some b'b'
    else if b == 0x0c
    then some b'f'
    else if b == b'\n'
    then some b'n'
    else if b == b'\r'
    then some b'r'
    else if b == b'\t'
    then some b't'
    else none

short_form_text : (b c : ℕ) → short_form b ≡ some c → escape_text b ≡ b'\\' ∷ c ∷ []
unfolding escape_text
short_form_text b c h = ground (arith, h)

short_form_read : (b c : ℕ) → short_form b ≡ some c → simple_escape c ≡ some b
short_form_read b c h = ground (arith, h)

short_form_small : (b c : ℕ) → short_form b ≡ some c → b < 0x80
short_form_small b c h = ground (arith, h)

long_form_small : (b : ℕ) → short_form b ≡ none → is_plain b ≡ false → b < 0x20
long_form_small b h k = ground (arith, h, k)

abbrev long_form : ℕ → Bytes
long_form b = b'\\' ∷ b'u' ∷ b'0' ∷ b'0' ∷ hex_digit false (b / 16) ∷ hex_digit false (b % 16) ∷ []

escape_text-long_form : (b : ℕ) → short_form b ≡ none → escape_text b ≡ long_form b
unfolding escape_text hex_char
escape_text-long_form b h = ground (arith, h)

unit_escape-long_form : (b : ℕ) → b < 0x20 → unit_escape false b ≡ long_form b
unit_escape-long_form b h =
    let hi : b / 4096 ≡ 0 = omega arith in
    let mid : b / 256 % 16 ≡ 0 = omega arith in
    let lo : b / 16 % 16 ≡ b / 16 = omega arith in rw (hi, mid, lo) refl

resolve_simple :
    {input : Spans} (pre rest : Bytes) (c v : ℕ)
    → IsView input (pre ++ (b'\\' ∷ c ∷ rest))
    → simple_escape c ≡ some v
    → v < 0x80
    → resolve_escape input (length pre) ≡ ok (some (v, 2))
unfolding resolve_escape
resolve_simple {input} pre rest c v view simple h =
    let seen =
      peek_escape-take view (length pre)
      ∙ ap (take 6) (drop-append_length pre (b'\\' ∷ c ∷ rest)) in
    let parsed : parse_escape (peek_escape input (length pre)) ≡ ok (unit_value v 2) =
      ap parse_escape seen
      ∙ parse_escape_behind b'\\' c (take 4 rest)
      ∙ ap (λ (o : Option ℕ). parse_behind o c (take 4 rest)) simple in
    let low : within 0xD800 0xDBFF v ≡ false = ground arith in
    rw (parsed, low, char_from_u32-IsScalar v (inl (omega arith))) refl

-- A byte that the writer escapes is read back: where the ring holds, after the bytes `pre`, the text that
-- `put_escaped` puts for it, `resolve_escape` returns the byte and the length of the text, whatever follows
-- and however the ring splits the bytes into spans.
pub resolve_escape-escape_text :
    {input : Spans} (pre rest : Bytes) (b : ℕ)
    → IsView input (pre ++ (escape_text b ++ rest))
    → is_plain b ≡ false
    → resolve_escape input (length pre) ≡ ok (some (b, length (escape_text b)))
resolve_escape-escape_text {input} pre rest b view k = elim (Option-cases (short_form b)) [
  | inr (c, short) ↦
      subst (Decodes input pre rest b) (sym (short_form_text b c short))
        (λ v.
          resolve_simple pre rest c b v (short_form_read b c short) (short_form_small b c short))
        view
  | inl long ↦
      let small = long_form_small b long k in
      subst (Decodes input pre rest b)
        (unit_escape-long_form b small ∙ sym (escape_text-long_form b long))
        (λ v. resolve_single false pre rest b v (inl (omega arith)) (omega arith)) view
]
