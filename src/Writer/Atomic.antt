-- ===== src/Writer/Atomic.antt =====
-- The methods of the `Writer` of src/writer.rs write the text of their token, whole or not at all.
use Prim.Native.String.{String}
use mathlib.Core.Path.{subst}
use rjsonparser.Prelude.{
  ℕ, ◌+◌, ◌-◌, ◌≡◌, ap, ◌∙◌, Bool, [], ◌∷◌, ◌++◌, Bytes, length, length-append, append-nil, arith,
  if◌then◌else◌, codes,
}
use rjsonparser.Loopbuf.{LoopBuf, IsRing}
use rjsonparser.Writer.Encode.{Puts, put_quoted, escaped_len}
use rjsonparser.Writer.Write.{
  Writer, init, after_key, after_value, write_token, prefix_len, write_key, prefix, put_prefix,
  write_boolean, write_close, write_end_string, write_literal, write_number_bytes, write_open,
  write_start_string, write_string, close_len, write_null, put_close, write_start_object,
  write_start_array, write_end_object, write_end_array, write_number, write_number_str, write_i32,
  write_i64, write_f64, Outcome, failed, not_representable, usize_end,
}
use rjsonparser.Prelude.{◌<◌, true, false, refl}
use rjsonparser.Prelude.Int.{ℤ}
use rjsonparser.Float.{Float}
use rjsonparser.Number.{Number, i32_num, i64_num, f64_num, big_int}
use rjsonparser.Writer.Encode.{i64_digits}
use rjsonparser.Writer.Room.{joined, joined-append, Atomic, write_token-Atomic}
use rjsonparser.Writer.Text.{
  before, before_close, quoted, joined-put_prefix, length-before, joined-put_quoted, length-quoted,
  joined-put_close, length-before_close,
}

abbrev pub key_text : Writer → Bytes → Bytes
key_text w key = before w ++ (quoted key ++ b':' ∷ [])

abbrev pub string_text : Writer → Bytes → Bytes
string_text w value = before w ++ quoted value

abbrev pub token_text : Writer → Bytes → Bytes
token_text w text = before w ++ text

abbrev pub close_text : Writer → ℕ → Bytes
close_text w bracket = before_close w.indent (w.depth - 1) ++ bracket ∷ []

module _ {B : Type 0} (ring : LoopBuf B) (contents : B → Bytes) (laws : IsRing ring contents) where
  -- As `write_token-Atomic`, for puts whose text is known.
  token-Atomic :
      (w next : Writer) (buf : B) (need : ℕ) (what : String) (puts : Puts) (text : Bytes)
      → ring.capacity buf < usize_end
      → joined puts ≡ text
      → length text ≡ need
      → Atomic ring contents laws w next buf what text (write_token ring w next buf need what puts)
  token-Atomic w next buf need what puts text usable same len =
      subst
        (λ (t : Bytes).
          Atomic ring contents laws w next buf what t (write_token ring w next buf need what puts))
        same
        (write_token-Atomic ring contents laws w next buf need what puts usable
          (ap length same ∙ len))

  pub write_key-Atomic :
      (w : Writer) (buf : B) (key : Bytes)
      → ring.capacity buf < usize_end
      → Atomic ring contents laws w
          (record w { state = after_key })
          buf
          "key"
          (key_text w key)
          (write_key ring w buf key)
  unfolding write_key
  write_key-Atomic w buf key usable =
      token-Atomic w (record w { state = after_key }) buf
        (prefix_len w (prefix w) + 2 + escaped_len key + 1) "key"
        (put_prefix w (prefix w) ++ (put_quoted key ++ ((b':' ∷ []) ∷ []))) (key_text w key) usable
        (joined-append (put_prefix w (prefix w)) (put_quoted key ++ ((b':' ∷ []) ∷ []))
          ∙ cc (
            joined-put_prefix w,
            joined-append (put_quoted key) ((b':' ∷ []) ∷ []),
            joined-put_quoted key,
          ))
        (omega (
          arith,
          length-append (before w) (quoted key ++ b':' ∷ []),
          length-append (quoted key) (b':' ∷ []),
          length-before w,
          length-quoted key,
        ))

  token_puts-Atomic :
      (w next : Writer) (buf : B) (what : String) (text : Bytes)
      → ring.capacity buf < usize_end
      → Atomic ring contents laws w next buf what (token_text w text) (
          write_token ring w next buf
            (prefix_len w (prefix w) + length text)
            what
            (put_prefix w (prefix w) ++ (text ∷ [])))
  token_puts-Atomic w next buf what text usable =
      token-Atomic w next buf (prefix_len w (prefix w) + length text) what
        (put_prefix w (prefix w) ++ (text ∷ [])) (token_text w text) usable
        (joined-append (put_prefix w (prefix w)) (text ∷ [])
          ∙ cc (joined-put_prefix w, append-nil text))
        (length-append (before w) text ∙ cc (length-before w))

  pub write_string-Atomic :
      (w : Writer) (buf : B) (value : Bytes)
      → ring.capacity buf < usize_end
      → Atomic ring contents laws w
          (record w { state = after_value })
          buf
          "string"
          (string_text w value)
          (write_string ring w buf value)
  unfolding write_string
  write_string-Atomic w buf value usable =
      token-Atomic w (record w { state = after_value }) buf
        (prefix_len w (prefix w) + 2 + escaped_len value) "string"
        (put_prefix w (prefix w) ++ put_quoted value) (string_text w value) usable
        (joined-append (put_prefix w (prefix w)) (put_quoted value)
          ∙ cc (joined-put_prefix w, joined-put_quoted value))
        (omega
          (arith, length-append (before w) (quoted value), length-before w, length-quoted value))

  write_start_string-Atomic :
      (w : Writer) (buf : B)
      → ring.capacity buf < usize_end
      → Atomic ring contents laws w w buf "string"
          (token_text w (b'"' ∷ []))
          (write_start_string ring w buf)
  unfolding write_start_string
  write_start_string-Atomic w buf usable = token_puts-Atomic w w buf "string" (b'"' ∷ []) usable

  pub write_number_bytes-Atomic :
      (w : Writer) (buf : B) (value : Bytes)
      → ring.capacity buf < usize_end
      → Atomic ring contents laws w
          (record w { state = after_value })
          buf
          "number"
          (token_text w value)
          (write_number_bytes ring w buf value)
  unfolding write_number_bytes
  write_number_bytes-Atomic w buf value usable =
      token_puts-Atomic w (record w { state = after_value }) buf "number" value usable

  write_literal-Atomic :
      (w : Writer) (buf : B) (text : Bytes)
      → ring.capacity buf < usize_end
      → Atomic ring contents laws w
          (record w { state = after_value })
          buf
          "value"
          (token_text w text)
          (write_literal ring w buf text)
  unfolding write_literal
  write_literal-Atomic w buf text usable =
      token_puts-Atomic w (record w { state = after_value }) buf "value" text usable

  write_open-Atomic :
      (w : Writer) (buf : B) (bracket : ℕ)
      → ring.capacity buf < usize_end
      → Atomic ring contents laws w
          (record w { state = init; depth = w.depth + 1 })
          buf
          "value"
          (token_text w (bracket ∷ []))
          (write_open ring w buf bracket)
  unfolding write_open
  write_open-Atomic w buf bracket usable =
      token_puts-Atomic w (record w { state = init; depth = w.depth + 1 }) buf "value"
        (bracket ∷ []) usable

  write_close-Atomic :
      (w : Writer) (buf : B) (bracket : ℕ)
      → ring.capacity buf < usize_end
      → Atomic ring contents laws w
          (record w { state = after_value; depth = w.depth - 1 })
          buf
          "value"
          (close_text w bracket)
          (write_close ring w buf bracket)
  unfolding write_close
  write_close-Atomic w buf bracket usable =
      token-Atomic w (record w { state = after_value; depth = w.depth - 1 }) buf
        (close_len w.indent (w.depth - 1) + 1) "value"
        (put_close w.indent (w.depth - 1) ++ ((bracket ∷ []) ∷ [])) (close_text w bracket) usable
        (joined-append (put_close w.indent (w.depth - 1)) ((bracket ∷ []) ∷ [])
          ∙ cc (joined-put_close w.indent (w.depth - 1)))
        (length-append (before_close w.indent (w.depth - 1)) (bracket ∷ [])
          ∙ cc (length-before_close w.indent (w.depth - 1)))

  abbrev after_end_string : Writer → Writer
  after_end_string w = record w { state = after_value }

  write_end_string-Atomic :
      (w : Writer) (buf : B)
      → ring.capacity buf < usize_end
      → Atomic ring contents laws w
          (after_end_string w)
          buf
          "string"
          (b'"' ∷ [])
          (write_end_string ring w buf)
  unfolding write_end_string
  write_end_string-Atomic w buf usable = record {
    fits = λ room. (
      ring.extend_from_slice buf (b'"' ∷ []),
      ground arith,
      (laws.extend_eq buf (b'"' ∷ []) room, laws.extend_capacity buf (b'"' ∷ []) room),
    );
    blocks = λ full small. ground arith;
    never_fits = λ big. ground (arith, laws.spare_eq buf);
  }

  -- A value written, with its prefix.
  abbrev pub WritesValue : Writer → B → String → Bytes → Outcome B (Unit {0}) → Type 0
  WritesValue w buf what text o =
      Atomic ring contents laws w (record w { state = after_value }) buf what (token_text w text) o

  abbrev pub WritesTexts : Writer → B → Bytes → Type 0
  WritesTexts w buf text =
      Atomic ring contents laws w (record w { state = after_value }) buf "string"
        (string_text w text) (write_string ring w buf text)
      × Atomic ring contents laws w w buf "string" (token_text w (b'"' ∷ []))
          (write_start_string ring w buf)
      × Atomic ring contents laws w (record w { state = after_value }) buf "string" (b'"' ∷ [])
          (write_end_string ring w buf)

  abbrev pub WritesBrackets : Writer → B → Type 0
  WritesBrackets w buf =
      Atomic ring contents laws w (record w { state = init; depth = w.depth + 1 }) buf "value"
        (token_text w (b'{' ∷ [])) (write_start_object ring w buf)
      × Atomic ring contents laws w (record w { state = init; depth = w.depth + 1 }) buf "value"
          (token_text w (b'[' ∷ [])) (write_start_array ring w buf)
      × Atomic ring contents laws w (record w { state = after_value; depth = w.depth - 1 }) buf
          "value" (close_text w b'}') (write_end_object ring w buf)
      × Atomic ring contents laws w (record w { state = after_value; depth = w.depth - 1 }) buf
          "value" (close_text w b']') (write_end_array ring w buf)

  -- What a method that writes a number does: it writes the text, or refuses a number that is not finite.
  abbrev pub WritesNumber :
      {F : Type 0} → Float F → Writer → B → Number F → Outcome B (Unit {0}) → Type 0
  WritesNumber float w buf (i32_num v) o = WritesValue w buf "number" (i64_digits v) o
  WritesNumber float w buf (i64_num v) o = WritesValue w buf "number" (i64_digits v) o
  WritesNumber float w buf (f64_num x) o =
      (float.is_finite x ≡ true → WritesValue w buf "number" (float.display x) o)
      × (float.is_finite x ≡ false → o ≡ failed (not_representable (float.display x)) w buf)
  WritesNumber float w buf (big_int digits) o = WritesValue w buf "number" digits o

  write_f64-WritesNumber :
      {F : Type 0} (float : Float F) (w : Writer) (buf : B) (x : F)
      → ring.capacity buf < usize_end
      → WritesNumber float w buf (f64_num x) (write_f64 ring float w buf x)
  unfolding write_f64
  write_f64-WritesNumber float w buf x usable = (
    λ finite. rw finite (write_number_bytes-Atomic w buf (float.display x) usable),
    λ infinite. rw infinite refl,
  )

  write_number-WritesNumber :
      {F : Type 0} (float : Float F) (w : Writer) (buf : B) (n : Number F)
      → ring.capacity buf < usize_end
      → WritesNumber float w buf n (write_number ring float w buf n)
  unfolding write_number write_number_str write_i64
  write_number-WritesNumber float w buf (i32_num v) usable =
      write_number_bytes-Atomic w buf (i64_digits v) usable
  write_number-WritesNumber float w buf (i64_num v) usable =
      write_number_bytes-Atomic w buf (i64_digits v) usable
  write_number-WritesNumber float w buf (f64_num x) usable =
      write_f64-WritesNumber float w buf x usable
  write_number-WritesNumber float w buf (big_int digits) usable =
      write_number_bytes-Atomic w buf digits usable

  -- What each method does that writes a token.
  abbrev pub WritesTokens :
      {F : Type 0} → Float F → Writer → B → Bytes → Bool → ℤ → F → Number F → Type 0
  WritesTokens float w buf text b v x n =
      Atomic ring contents laws w (record w { state = after_key }) buf "key" (key_text w text)
        (write_key ring w buf text)
      × WritesTexts w buf text
      × WritesValue w buf "value" (if b then codes "true" else codes "false")
          (write_boolean ring w buf b)
      × WritesValue w buf "value" (codes "null") (write_null ring w buf)
      × WritesValue w buf "number" text (write_number_str ring w buf text)
      × WritesValue w buf "number" (i64_digits v) (write_i32 ring w buf v)
      × WritesValue w buf "number" (i64_digits v) (write_i64 ring w buf v)
      × WritesNumber float w buf (f64_num x) (write_f64 ring float w buf x)
      × WritesNumber float w buf n (write_number ring float w buf n)
      × WritesBrackets w buf

  -- For a ring whose capacity is a `usize`, every method that opens or closes an object, an array or a string,
  -- and writes a key or a scalar value, numbers of each kind included, puts all of its token (comma, line break
  -- and indentation included) or none of it: with room for the token's text the ring gets exactly this text,
  -- and the writer its new state and depth; without it the ring and the writer stay as they are, the error
  -- being that the call may be tried again if the ring can hold the token at all, and that it never fits if
  -- not. A call panics where the length of its text, the indentation included, is no `usize`, and nowhere else;
  -- a number that is not finite is refused and changes nothing.
  pub writer_atomic :
      {F : Type 0} (float : Float F) (w : Writer) (buf : B) (text : Bytes) (b : Bool) (v : ℤ)
      (x : F) (n : Number F)
      → ring.capacity buf < usize_end
      → WritesTokens float w buf text b v x n
  unfolding write_boolean write_null write_i64 write_number_str
  writer_atomic float w buf text b v x n usable = (
    write_key-Atomic w buf text usable,
    (
      write_string-Atomic w buf text usable,
      write_start_string-Atomic w buf usable,
      write_end_string-Atomic w buf usable,
    ),
    write_literal-Atomic w buf (if b then codes "true" else codes "false") usable,
    write_literal-Atomic w buf (codes "null") usable,
    write_number_bytes-Atomic w buf text usable,
    write_number_bytes-Atomic w buf (i64_digits v) usable,
    write_number_bytes-Atomic w buf (i64_digits v) usable,
    write_f64-WritesNumber float w buf x usable,
    write_number-WritesNumber float w buf n usable,
    (
      write_open-Atomic w buf b'{' usable,
      write_open-Atomic w buf b'[' usable,
      write_close-Atomic w buf b'}' usable,
      write_close-Atomic w buf b']' usable,
    ),
  )
