-- ===== src/Writer/Write.antt =====
-- The `Writer` of src/writer.rs and its methods. A method returns what it did beside the writer and
-- the ring that it leaves. A panic (a slice of the scratch array out of bounds, or an overflow of
-- `usize`) is an outcome of its own. The lengths of texts (`prefix_len`, `close_len` and what is added to
-- them) are natural numbers: `write_token` panics where their sum is no `usize`, as the code does with
-- overflow checks, since no part of a sum is above the sum. `depth` counts calls, and does not overflow.
use Prim.Native.String.{String}
use rjsonparser.Prelude.{
  ℕ, ◌+◌, ◌-◌, ◌*◌, Bool, true, false, not, ◌||◌, [], ◌∷◌, ◌++◌, Bytes, ltb, leb, ◌==◌,
  if◌then◌else◌, length, codes, Option, none, some, take,
}
use rjsonparser.Prelude.Int.{ℤ}
use rjsonparser.Float.{Float}
use rjsonparser.Loopbuf.{LoopBuf}
use rjsonparser.Number.{Number, i32_num, i64_num, f64_num, big_int}
use rjsonparser.Writer.Encode.{
  Puts, scratch_size, put_quoted, put_escaped, put_repeated, escaped_len, i64_digits, content_taken,
}

-- The first number above a `usize` of 64 bits.
abbrev pub usize_end : ℕ
usize_end = 18_446_744_073_709_551_616

pub record IndentConfig : Type 0 where
  pub indent_char : ℕ
  pub indent_count : ℕ

-- `IndentConfig::new`; `None` is a failed assertion.
unfoldable pub new_indent : ℕ → ℕ → Option IndentConfig
new_indent indent_char indent_count =
    if not (indent_char == b' ' || indent_char == b'\t')
    then none
    else if not (ltb 0 indent_count)
    then none
    else some (record { indent_char = indent_char; indent_count = indent_count })

unfoldable pub spaces : ℕ → Option IndentConfig
unfolding new_indent
spaces count = new_indent b' ' count

pub data WriterState : Type 0 where
  init0 init after_key after_value : WriterState

pub record Prefix : Type 0 where
  pub comma : Bool
  pub space : Bool
  pub newline_depth : Option ℕ

pub record Writer : Type 0 where
  pub indent : Option IndentConfig
  pub state : WriterState
  pub depth : ℕ

abbrev pub new_writer : Writer
new_writer = record { indent = none; state = init0; depth = 0 }

unfoldable pub with_indent : IndentConfig → Writer
with_indent indent = record new_writer { indent = some indent }

unfoldable pub reset : Writer → Writer
reset w = record w { state = init0; depth = 0 }

-- `WouldBlock`, and the two kinds of `InvalidInput`: a token of so many bytes for so small a ring, and
-- a number that JSON cannot represent.
pub data WriteError : Type 0 where
  would_block : WriteError
  too_large : String → ℕ → ℕ → WriteError
  not_representable : Bytes → WriteError

pub data Outcome (B A : Type 0) : Type 0 where
  wrote : A → Writer → B → Outcome B A
  failed : WriteError → Writer → B → Outcome B A
  panicked : Outcome B A

abbrev prefix_at : Option IndentConfig → WriterState → ℕ → Prefix
prefix_at none after_value depth = record { comma = true; space = false; newline_depth = none }
prefix_at none _ depth = record { comma = false; space = false; newline_depth = none }
prefix_at (some _) after_key depth = record { comma = false; space = true; newline_depth = none }
prefix_at (some _) after_value depth = record {
  comma = true;
  space = false;
  newline_depth = some depth;
}
prefix_at (some _) init depth = record { comma = false; space = false; newline_depth = some depth }
prefix_at (some _) init0 depth = record { comma = false; space = false; newline_depth = none }

unfoldable pub prefix : Writer → Prefix
prefix w = prefix_at w.indent w.state w.depth

abbrev one_if : Bool → ℕ
one_if true = 1
one_if false = 0

abbrev newline_len : Option IndentConfig → Option ℕ → ℕ
newline_len indent none = 0
newline_len none (some depth) = 1 + 0 * depth
newline_len (some i) (some depth) = 1 + i.indent_count * depth

-- A natural number: `write_token` sees whether the sum that it is part of is a `usize`.
unfoldable pub prefix_len : Writer → Prefix → ℕ
prefix_len w p = one_if p.comma + one_if p.space + newline_len w.indent p.newline_depth

-- Put only behind that test, so the product is a `usize`.
abbrev pub put_newline : Option IndentConfig → Option ℕ → Puts
put_newline indent none = []
put_newline none (some depth) = []
put_newline (some i) (some depth) =
    (b'\n' ∷ []) ∷ put_repeated i.indent_char (i.indent_count * depth)

unfoldable pub put_prefix : Writer → Prefix → Puts
put_prefix w p =
    (if p.comma then (b',' ∷ []) ∷ [] else [])
    ++ ((if p.space then (b' ' ∷ []) ∷ [] else []) ++ put_newline w.indent p.newline_depth)

-- A natural number: `write_token` sees whether the sum that it is part of is a `usize`.
abbrev pub close_len : Option IndentConfig → ℕ → ℕ
close_len none depth = 0
close_len (some i) depth = 1 + i.indent_count * depth

abbrev pub put_close : Option IndentConfig → ℕ → Puts
put_close none depth = []
put_close (some i) depth = (b'\n' ∷ []) ∷ put_repeated i.indent_char (i.indent_count * depth)

-- `Scratch::put`: the slice must lie within the array.
unfoldable pub scratch_puts : Bytes → Puts → Option Bytes
scratch_puts bytes [] = some bytes
scratch_puts bytes (p ∷ puts) =
    let rest = scratch_puts (bytes ++ p) puts in
    if leb (length bytes + length p) scratch_size then rest else none

module _ {B : Type 0} (ring : LoopBuf B) where
  abbrev pub ring_puts : B → Puts → B
  ring_puts buf [] = buf
  ring_puts buf (p ∷ puts) = ring_puts (ring.extend_from_slice buf p) puts

  abbrev append_scratch : B → Option Bytes → Option B
  append_scratch buf none = none
  append_scratch buf (some bytes) = some (ring.extend_from_slice buf bytes)

  -- The macro `emit!`.
  unfoldable pub emit : B → ℕ → Puts → Option B
  unfolding scratch_puts
  emit buf need puts =
      if leb need scratch_size
      then append_scratch buf (scratch_puts [] puts)
      else some (ring_puts buf puts)

  unfoldable pub ensure_room : B → ℕ → String → Option WriteError
  ensure_room buf need what =
      if leb need (ring.spare_len buf)
      then none
      else if ltb (ring.capacity buf) need
      then some (too_large what need (ring.capacity buf))
      else some would_block

  abbrev finish : Writer → Option B → Outcome B (Unit {0})
  finish w none = panicked
  finish w (some buf) = wrote tt w buf

  abbrev with_room : Writer → Writer → B → ℕ → Puts → Option WriteError → Outcome B (Unit {0})
  with_room w next buf need puts (some e) = failed e w buf
  with_room w next buf need puts none = finish next (emit buf need puts)

  -- `need` as the `usize` that it is, then `ensure_room`, `emit!` and the new state, as in every method that
  -- writes a token.
  unfoldable pub write_token : Writer → Writer → B → ℕ → String → Puts → Outcome B (Unit {0})
  unfolding ensure_room
  write_token w next buf need what puts =
      if ltb need usize_end
      then with_room w next buf need puts (ensure_room buf need what)
      else panicked

  unfoldable pub write_key : Writer → B → Bytes → Outcome B (Unit {0})
  write_key w buf key =
      let p = prefix w in
      write_token w (record w { state = after_key }) buf (prefix_len w p + 2 + escaped_len key + 1)
        "key" (put_prefix w p ++ (put_quoted key ++ ((b':' ∷ []) ∷ [])))

  unfoldable pub write_string : Writer → B → Bytes → Outcome B (Unit {0})
  write_string w buf value =
      let p = prefix w in
      write_token w (record w { state = after_value }) buf (prefix_len w p + 2 + escaped_len value)
        "string" (put_prefix w p ++ put_quoted value)

  unfoldable pub write_start_string : Writer → B → Outcome B (Unit {0})
  write_start_string w buf =
      let p = prefix w in
      write_token w w buf (prefix_len w p + 1) "string" (put_prefix w p ++ ((b'"' ∷ []) ∷ []))

  abbrev no_content : Writer → B → Option WriteError → Outcome B ℕ
  no_content w buf (some e) = failed e w buf
  no_content w buf none = failed would_block w buf

  -- The bytes of `content` that were taken.
  unfoldable pub write_string_content : Writer → B → Bytes → Outcome B ℕ
  unfolding ensure_room
  write_string_content w buf content =
      let taken = content_taken (ring.spare_len buf) content in
      if leb (length content) 0
      then wrote 0 w buf
      else if taken == 0
      then no_content w buf (ensure_room buf 6 "string content")
      else wrote taken w (ring_puts buf (put_escaped (take taken content)))

  abbrev end_string : Writer → B → Option WriteError → Outcome B (Unit {0})
  end_string w buf (some e) = failed e w buf
  end_string w buf none =
      wrote tt (record w { state = after_value }) (ring.extend_from_slice buf (b'"' ∷ []))

  unfoldable pub write_end_string : Writer → B → Outcome B (Unit {0})
  unfolding ensure_room
  write_end_string w buf = end_string w buf (ensure_room buf 1 "string")

  unfoldable pub write_number_bytes : Writer → B → Bytes → Outcome B (Unit {0})
  write_number_bytes w buf value =
      let p = prefix w in
      write_token w (record w { state = after_value }) buf (prefix_len w p + length value) "number"
        (put_prefix w p ++ (value ∷ []))

  unfoldable pub write_number_str : Writer → B → Bytes → Outcome B (Unit {0})
  write_number_str w buf value = write_number_bytes w buf value

  unfoldable pub write_i64 : Writer → B → ℤ → Outcome B (Unit {0})
  write_i64 w buf value = write_number_bytes w buf (i64_digits value)

  abbrev pub write_i32 : Writer → B → ℤ → Outcome B (Unit {0})
  write_i32 = write_i64

  unfoldable pub write_f64 : {F : Type 0} → Float F → Writer → B → F → Outcome B (Unit {0})
  write_f64 float w buf value =
      if not (float.is_finite value)
      then failed (not_representable (float.display value)) w buf
      else write_number_bytes w buf (float.display value)

  unfoldable pub write_number :
      {F : Type 0} → Float F → Writer → B → Number F → Outcome B (Unit {0})
  unfolding write_i64 write_f64 write_number_str
  write_number float w buf (i32_num v) = write_i64 w buf v
  write_number float w buf (i64_num v) = write_i64 w buf v
  write_number float w buf (f64_num v) = write_f64 float w buf v
  write_number float w buf (big_int digits) = write_number_str w buf digits

  unfoldable pub write_literal : Writer → B → Bytes → Outcome B (Unit {0})
  write_literal w buf text =
      let p = prefix w in
      write_token w (record w { state = after_value }) buf (prefix_len w p + length text) "value"
        (put_prefix w p ++ (text ∷ []))

  unfoldable pub write_boolean : Writer → B → Bool → Outcome B (Unit {0})
  unfolding write_literal
  write_boolean w buf value = write_literal w buf (if value then codes "true" else codes "false")

  unfoldable pub write_null : Writer → B → Outcome B (Unit {0})
  unfolding write_literal
  write_null w buf = write_literal w buf (codes "null")

  unfoldable pub write_open : Writer → B → ℕ → Outcome B (Unit {0})
  write_open w buf bracket =
      let p = prefix w in
      write_token w (record w { state = init; depth = w.depth + 1 }) buf (prefix_len w p + 1)
        "value" (put_prefix w p ++ ((bracket ∷ []) ∷ []))

  -- `saturating_sub`
  unfoldable pub write_close : Writer → B → ℕ → Outcome B (Unit {0})
  write_close w buf bracket =
      let depth = w.depth - 1 in
      write_token w (record w { state = after_value; depth = depth }) buf
        (close_len w.indent depth + 1) "value" (put_close w.indent depth ++ ((bracket ∷ []) ∷ []))

  abbrev pub write_start_object : Writer → B → Outcome B (Unit {0})
  write_start_object w buf = write_open w buf b'{'

  abbrev pub write_start_array : Writer → B → Outcome B (Unit {0})
  write_start_array w buf = write_open w buf b'['

  abbrev pub write_end_object : Writer → B → Outcome B (Unit {0})
  write_end_object w buf = write_close w buf b'}'

  abbrev pub write_end_array : Writer → B → Outcome B (Unit {0})
  write_end_array w buf = write_close w buf b']'
