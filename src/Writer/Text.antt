-- ===== src/Writer/Text.antt =====
-- The text of what the writer puts, for src/writer.rs: what a string is escaped to, what stands before
-- a token, and that the lengths computed beforehand are the lengths of these texts.
use rjsonparser.Writer.Encode.{
  Puts, is_plain, escape_text, put_escaped_from, put_escaped, put_quoted, put_repeated_from,
  put_repeated, escaped_len, byte_len, put_run,
}
use rjsonparser.Writer.Write.{
  IndentConfig, WriterState, init0, init, after_key, after_value, Writer, prefix, prefix_len,
  put_prefix, put_newline, close_len, put_close,
}
use rjsonparser.Writer.Room.{joined, joined-append}
use rjsonparser.Prelude.{
  ℕ, zero, suc, ◌+◌, ◌-◌, ◌*◌, ◌≤◌, ◌≡◌, refl, ap, ◌∙◌, min, [], ◌∷◌, ◌++◌, Bytes, if◌then◌else◌,
  length, length-append, replicate, append_assoc, Bool-cases, true, ltb, inl, inr, Option, none,
  some, arith, length-replicate,
}

abbrev pub escaped_byte : ℕ → Bytes
escaped_byte b = if is_plain b then b ∷ [] else escape_text b

abbrev pub escaped : Bytes → Bytes
escaped [] = []
escaped (b ∷ bs) = escaped_byte b ++ escaped bs

abbrev pub quoted : Bytes → Bytes
quoted s = (b'"' ∷ []) ++ (escaped s ++ b'"' ∷ [])

joined-put_run : (run : Bytes) (rest : Puts) → joined (put_run run rest) ≡ run ++ joined rest
joined-put_run [] rest = refl
joined-put_run (c ∷ run) rest = refl

joined-put_escaped_from : (run bs : Bytes) → joined (put_escaped_from run bs) ≡ run ++ escaped bs
unfolding put_escaped_from
joined-put_escaped_from run [] = joined-put_run run []
joined-put_escaped_from run (b ∷ bs) = elim (Bool-cases (is_plain b)) [
  | inl plain ↦
      rw plain (joined-put_escaped_from (run ++ b ∷ []) bs ∙ append_assoc run (b ∷ []) (escaped bs))
  | inr not_plain ↦ rw not_plain (
      joined-put_run run (escape_text b ∷ put_escaped_from [] bs)
      ∙ ap (λ (t : Bytes). run ++ (escape_text b ++ t)) (joined-put_escaped_from [] bs))
]

pub joined-put_escaped : (s : Bytes) → joined (put_escaped s) ≡ escaped s
unfolding put_escaped
joined-put_escaped s = joined-put_escaped_from [] s

pub joined-put_quoted : (s : Bytes) → joined (put_quoted s) ≡ quoted s
unfolding put_quoted
joined-put_quoted s =
    ap (λ (t : Bytes). b'"' ∷ t)
      (joined-append (put_escaped s) ((b'"' ∷ []) ∷ [])
        ∙ ap (λ (t : Bytes). t ++ b'"' ∷ []) (joined-put_escaped s))

length-escaped_byte : (b : ℕ) → length (escaped_byte b) ≡ byte_len b
unfolding escape_text
length-escaped_byte b = ground arith

pub length-escaped : (s : Bytes) → length (escaped s) ≡ escaped_len s
unfolding escaped_len
length-escaped [] = refl
length-escaped (b ∷ bs) =
    length-append (escaped_byte b) (escaped bs) ∙ cc (length-escaped_byte b, length-escaped bs)

pub length-quoted : (s : Bytes) → length (quoted s) ≡ 2 + escaped_len s
length-quoted s = omega (arith, length-append (escaped s) (b'"' ∷ []), length-escaped s)

replicate_append : (n m b : ℕ) → replicate n b ++ replicate m b ≡ replicate (n + m) b
replicate_append zero m b = ap (λ (k : ℕ). replicate k b) (omega arith)
replicate_append (suc n) m b =
    let same : suc (n + m) ≡ suc n + m = omega arith in
    ap (λ (t : Bytes). b ∷ t) (replicate_append n m b) ∙ ap (λ (k : ℕ). replicate k b) same

joined-put_repeated_from :
    (fuel b left : ℕ) → left ≤ fuel → joined (put_repeated_from fuel b left) ≡ replicate left b
unfolding put_repeated_from
joined-put_repeated_from zero b zero h = refl
joined-put_repeated_from zero b (suc left) h = elim h [ ]
joined-put_repeated_from (suc fuel) b zero h = refl
joined-put_repeated_from (suc fuel) b (suc left) h =
    let n = min (suc left) 64 in
    let rest = joined-put_repeated_from fuel b (suc left - n) (omega arith) in
    let sum : n + (suc left - n) ≡ suc left = omega arith in
    let big : ltb 0 (suc left) ≡ true = ground arith in
    rw big (
      ap (λ (t : Bytes). replicate n b ++ t) rest
      ∙ replicate_append n (suc left - n) b
      ∙ ap (λ (k : ℕ). replicate k b) sum)

pub joined-put_repeated : (b n : ℕ) → joined (put_repeated b n) ≡ replicate n b
unfolding put_repeated
joined-put_repeated b n = joined-put_repeated_from (suc n) b n (omega arith)

-- A line break and the indentation of a depth.
abbrev pub new_line : IndentConfig → ℕ → Bytes
new_line i depth = b'\n' ∷ replicate (i.indent_count * depth) i.indent_char

-- What stands before a token.
abbrev pub before_token : Option IndentConfig → WriterState → ℕ → Bytes
before_token none after_value depth = b',' ∷ []
before_token none _ depth = []
before_token (some i) after_key depth = b' ' ∷ []
before_token (some i) after_value depth = b',' ∷ new_line i depth
before_token (some i) init depth = new_line i depth
before_token (some i) init0 depth = []

abbrev pub before : Writer → Bytes
before w = before_token w.indent w.state w.depth

joined-put_newline :
    (i : IndentConfig) (depth : ℕ) → joined (put_newline (some i) (some depth)) ≡ new_line i depth
joined-put_newline i depth =
    ap (λ (t : Bytes). b'\n' ∷ t) (joined-put_repeated i.indent_char (i.indent_count * depth))

writer_at : Option IndentConfig → WriterState → ℕ → Writer
writer_at indent state depth = record { indent = indent; state = state; depth = depth }

joined-put_prefix_at :
    (indent : Option IndentConfig) (state : WriterState) (depth : ℕ)
    → (let w = writer_at indent state depth in joined (put_prefix w (prefix w)) ≡ before w)
unfolding put_prefix prefix writer_at
joined-put_prefix_at none init0 depth = refl
joined-put_prefix_at none init depth = refl
joined-put_prefix_at none after_key depth = refl
joined-put_prefix_at none after_value depth = refl
joined-put_prefix_at (some i) init0 depth = refl
joined-put_prefix_at (some i) init depth = joined-put_newline i depth
joined-put_prefix_at (some i) after_key depth = refl
joined-put_prefix_at (some i) after_value depth =
    ap (λ (t : Bytes). b',' ∷ t) (joined-put_newline i depth)

pub joined-put_prefix : (w : Writer) → joined (put_prefix w (prefix w)) ≡ before w
unfolding writer_at
joined-put_prefix w = joined-put_prefix_at w.indent w.state w.depth

length-new_line :
    (i : IndentConfig) (depth : ℕ) → length (new_line i depth) ≡ 1 + i.indent_count * depth
length-new_line i depth = omega (arith, length-replicate (i.indent_count * depth) i.indent_char)

length-before_at :
    (indent : Option IndentConfig) (state : WriterState) (depth : ℕ)
    → (let w = writer_at indent state depth in length (before w) ≡ prefix_len w (prefix w))
unfolding prefix_len prefix writer_at
length-before_at none init0 depth = refl
length-before_at none init depth = refl
length-before_at none after_key depth = refl
length-before_at none after_value depth = refl
length-before_at (some i) init0 depth = refl
length-before_at (some i) init depth = omega (arith, length-new_line i depth)
length-before_at (some i) after_key depth = refl
length-before_at (some i) after_value depth = omega (arith, length-new_line i depth)

pub length-before : (w : Writer) → length (before w) ≡ prefix_len w (prefix w)
unfolding writer_at
length-before w = length-before_at w.indent w.state w.depth

-- What `write_close` puts before its bracket.
abbrev pub before_close : Option IndentConfig → ℕ → Bytes
before_close none depth = []
before_close (some i) depth = new_line i depth

pub joined-put_close :
    (indent : Option IndentConfig) (depth : ℕ)
    → joined (put_close indent depth) ≡ before_close indent depth
joined-put_close none depth = refl
joined-put_close (some i) depth = joined-put_newline i depth

pub length-before_close :
    (indent : Option IndentConfig) (depth : ℕ)
    → length (before_close indent depth) ≡ close_len indent depth
length-before_close none depth = refl
length-before_close (some i) depth = length-new_line i depth
