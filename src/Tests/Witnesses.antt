-- ===== src/Tests/Witnesses.antt =====
-- The theorems at inputs that meet their hypotheses.
use rjsonparser.Prelude.{
  ◌+◌, ◌-◌, ◌≡◌, ◌↔◌, refl, true, [], ◌∷◌, ◌++◌, Bytes, length, some, arith, inl, inr, drop, take,
  codes, to_decimal, decimal_value, List,
}
use rjsonparser.Prelude.Int.{negsuc}
use rjsonparser.Error.{ok}
use rjsonparser.Limits.{default_limits}
use rjsonparser.Tokenizer.Numbers.{start, take_digit_run, fraction, NumberState}
use rjsonparser.Tokenizer.Numbers.Runs.{feed, running, take_digit_run-feed}
use rjsonparser.Tokenizer.Numbers.Value.{integer_value_exact, ReadsInteger, read_from}
use rjsonparser.Tokenizer.Numbers.Fraction.{fraction-Accumulated}
use rjsonparser.Tokenizer.Numbers.Exact.{Accumulated}
use rjsonparser.Tokenizer.Numbers.Grammar.{IsNumber-grammar, Accepts}
use rjsonparser.Tokenizer.Numbers.Syntax.{IsNumber}
use rjsonparser.Tokenizer.Escapes.{peek_escape, resolve_escape, parse_escape}
use rjsonparser.Tokenizer.Escapes.Peek.{peek_escape-take}
use rjsonparser.Tokenizer.Escapes.Decode.{resolve-char_escape, char_escape}
use rjsonparser.Tokenizer.Escapes.Chunks.{resolve_escape-append}
use rjsonparser.Tokenizer.Machine.{Machine, new_tokenizer}
use rjsonparser.Tokenizer.Receive.{receive, process_whitespace}
use rjsonparser.Tokenizer.Spaces.{
  process_whitespace-line_breaks, carry, pending, line_breaks, column_after, ends_in_cr,
}
use rjsonparser.Handler.{Event}
use rjsonparser.Tokenizer.Nesting.Receiving.{receive-IsNested}
use rjsonparser.Tokenizer.Triple.{Triple}
use rjsonparser.Tokenizer.Nesting.{IsNested}
use rjsonparser.Writer.Encode.{escape_text, i64_digits}
use rjsonparser.Writer.Write.{with_indent}
use rjsonparser.Writer.Digits.{i64_digits-to_decimal, sign}
use rjsonparser.Writer.Atomic.{writer_atomic, WritesTokens}
use rjsonparser.RoundTrip.{resolve_escape-escape_text}
use rjsonparser.Number.{i32_num}
use rjsonparser.Tokenizer.Escapes.Hex.{unit_escape}
use rjsonparser.Tokenizer.Escapes.Lone.{resolve-lone_surrogate, high_half, other_byte}
use rjsonparser.Tests.Setup.{text_float, start_machine, env_of, text_float}
use rjsonparser.Tests.Rings.{whole, whole-IsView, held, list_ring, list_ring-IsRing}

IsNumber-grammar_example : IsNumber (b'-' ∷ codes "10.5e+3") ↔ Accepts b'-' (codes "10.5e+3")
IsNumber-grammar_example = IsNumber-grammar b'-' (codes "10.5e+3") (inl refl) (ground arith)

writer_atomic_example :
    WritesTokens list_ring held list_ring-IsRing text_float
      (with_indent (record { indent_char = b' '; indent_count = 2 }))
      ([], 100)
      (codes "say \"hi\"")
      true
      (negsuc 41)
      (codes "1.5")
      (i32_num (negsuc 41))
writer_atomic_example =
    writer_atomic list_ring held list_ring-IsRing text_float
      (with_indent (record { indent_char = b' '; indent_count = 2 })) ([], 100) (codes "say \"hi\"")
      true (negsuc 41) (codes "1.5") (i32_num (negsuc 41)) (omega arith)

integer_value_exact_example : ReadsInteger Bytes true b'1' (codes "234567890123")
integer_value_exact_example =
    integer_value_exact Bytes true b'1' (codes "234567890123") (ground arith) (ground arith)
      (ground arith)

fraction-Accumulated_example :
    (t : NumberState) × (read_from true b'1' (codes "2" ++ (b'.' ∷ b'5' ∷ codes "25")) ≡ running t)
    × (t.stage ≡ fraction)
    × Accumulated
        (decimal_value (b'1' - b'0') (codes "2" ++ (b'5' ∷ codes "25")))
        (1 + length (codes "25"))
        t
fraction-Accumulated_example =
    fraction-Accumulated true b'1' b'5' (codes "2") (codes "25") (ground arith) (ground arith)
      (ground arith) (ground arith) (ground arith)

take_digit_run-feed_example :
    feed (start b'1') (codes "2345,")
    ≡ feed
        (take_digit_run (start b'1') (codes "2345,")).0
        (drop (take_digit_run (start b'1') (codes "2345,")).1 (codes "2345,"))
unfolding start
take_digit_run-feed_example =
    take_digit_run-feed (start b'1') (codes "2345,") (inl refl, refl) (ground arith)

receive-IsNested_example :
    Triple
      (IsNested default_limits)
      (receive (env_of (whole (codes "[1,{}]"))))
      (λ _. IsNested default_limits)
receive-IsNested_example = receive-IsNested (env_of (whole (codes "[1,{}]")))

-- An emoji between two letters.
abbrev emoji : Bytes
emoji = codes "a" ++ (char_escape true 0x1F600 ++ codes "b")

resolve-char_escape_example : resolve_escape (whole emoji) 1 ≡ ok (some (0x1F600, 12))
resolve-char_escape_example =
    resolve-char_escape true (codes "a") (codes "b") 0x1F600 (whole-IsView emoji)
      (inr (omega arith, omega arith))

peek_escape-take_example : peek_escape (whole emoji) 1 ≡ take 6 (drop 1 emoji)
peek_escape-take_example = peek_escape-take (whole-IsView emoji) 1

resolve_escape-append_example :
    resolve_escape (whole (codes "\\n" ++ codes "more")) 0 ≡ resolve_escape (whole (codes "\\n")) 0
unfolding resolve_escape parse_escape peek_escape
resolve_escape-append_example =
    resolve_escape-append (codes "more") (whole-IsView (codes "\\n"))
      (whole-IsView (codes "\\n" ++ codes "more")) 0 (λ h. ground (arith, h))

resolve_escape-escape_text_example :
    resolve_escape (whole (codes "ab" ++ (escape_text 1 ++ codes "c"))) 2
    ≡ ok (some (1, length (escape_text 1)))
resolve_escape-escape_text_example =
    resolve_escape-escape_text (codes "ab") (codes "c") 1
      (whole-IsView (codes "ab" ++ (escape_text 1 ++ codes "c"))) refl

i64_digits-to_decimal_example :
    i64_digits (negsuc 9_223_372_036_854_775_807)
    ≡ sign (negsuc 9_223_372_036_854_775_807) ++ to_decimal 9_223_372_036_854_775_808
i64_digits-to_decimal_example =
    i64_digits-to_decimal (negsuc 9_223_372_036_854_775_807) (omega arith)

abbrev spaced : Machine (List (Event Bytes))
spaced = record start_machine { consumed = 1 }

process_whitespace-line_breaks_example :
    ((process_whitespace (env_of (whole (codes "[ \n1"))) spaced).0 ≡ ok tt)
    × ((process_whitespace (env_of (whole (codes "[ \n1"))) spaced).1.consumed ≡ 3)
    × ((process_whitespace (env_of (whole (codes "[ \n1"))) spaced).1.locator.line
          + carry start_machine.tok.after_cr
        ≡ start_machine.locator.line
          + line_breaks (pending start_machine.tok.after_cr (codes " \n")))
    × ((process_whitespace (env_of (whole (codes "[ \n1"))) spaced).1.locator.column
        ≡ column_after start_machine.locator.column (codes " \n"))
    × ((process_whitespace (env_of (whole (codes "[ \n1"))) spaced).1.tok.after_cr
        ≡ ends_in_cr start_machine.tok.after_cr (codes " \n"))
unfolding new_tokenizer
process_whitespace-line_breaks_example =
    process_whitespace-line_breaks (env_of (whole (codes "[ \n1"))) spaced (codes "[") (codes " \n")
      (codes "1") (whole-IsView (codes "[ \n1")) (refl, (refl, tt)) refl refl refl

-- A high surrogate with a letter behind it.
abbrev lone : Bytes
lone = codes "a" ++ (unit_escape true 0xD800 ++ codes "b")

resolve-lone_surrogate_example : resolve_escape (whole lone) 1 ≡ ok (some (0xFFFD, 6))
resolve-lone_surrogate_example =
    resolve-lone_surrogate true (codes "a") (codes "b") 0xD800 (whole-IsView lone)
      (high_half (omega arith) (omega arith) (other_byte (λ e. ground (arith, e))))
