-- ===== src/Writer/Encode.antt =====
-- What the writer puts, of src/writer.rs: escaping, repetition, the digits of an integer. The calls of
-- `Out::put` that a function makes are a list of the byte strings put.
use rjsonparser.Prelude.{
  ℕ, zero, suc, ◌+◌, ◌-◌, ◌*◌, ◌/◌, ◌%◌, min, Bool, true, false, not, ◌&&◌, ◌||◌, List, [], ◌∷◌,
  ◌++◌, Bytes, ltb, leb, ◌==◌, if◌then◌else◌, length, take, drop, replicate, codes,
}
use rjsonparser.Prelude.Int.{ℤ, pos, negsuc}
use rjsonparser.Text.{char, malformed, cut_off, first_char, len_utf8, is_continuation}

abbrev pub scratch_size : ℕ
scratch_size = 64

abbrev pub Puts : Type 0
Puts = List Bytes

-- `PAIRS`: "00" to "99".
abbrev pub pairs : Bytes
pairs =
    codes "0001020304050607080910111213141516171819"
    ++ codes "2021222324252627282930313233343536373839"
    ++ codes "4041424344454647484950515253545556575859"
    ++ codes "6061626364656667686970717273747576777879"
    ++ codes "8081828384858687888990919293949596979899"

-- `&PAIRS[pair..pair + 2]`
unfoldable pub pair_at : ℕ → Bytes
pair_at pair = take 2 (drop pair pairs)

unfoldable pub hex_char : ℕ → ℕ
hex_char n = if ltb n 10 then b'0' + n else b'a' + (n - 10)

-- `b >= 0x20 && b != b'"' && b != b'\\'`
abbrev pub is_plain : ℕ → Bool
is_plain b = leb 0x20 b && not (b == b'"') && not (b == b'\\')

-- What stands for a byte that is not plain.
unfoldable pub escape_text : ℕ → Bytes
unfolding hex_char
escape_text b =
    if b == b'"'
    then b'\\' ∷ b'"' ∷ []
    else if b == b'\\'
    then b'\\' ∷ b'\\' ∷ []
    else if b == 0x08
    then b'\\' ∷ b'b' ∷ []
    else if b == 0x0c
    then b'\\' ∷ b'f' ∷ []
    else if b == b'\n'
    then b'\\' ∷ b'n' ∷ []
    else if b == b'\r'
    then b'\\' ∷ b'r' ∷ []
    else if b == b'\t'
    then b'\\' ∷ b't' ∷ []
    else b'\\' ∷ b'u' ∷ b'0' ∷ b'0' ∷ hex_char (b / 16) ∷ hex_char (b % 16) ∷ []

-- `if start < i { out.put(&bytes[start..i]) }`
abbrev pub put_run : Bytes → Puts → Puts
put_run [] rest = rest
put_run (c ∷ run) rest = (c ∷ run) ∷ rest

-- The loop of `put_escaped`; `run` is `bytes[start..i]`, the plain bytes not put yet.
unfoldable pub put_escaped_from : Bytes → Bytes → Puts
put_escaped_from run [] = put_run run []
put_escaped_from run (b ∷ bs) =
    let longer = put_escaped_from (run ++ b ∷ []) bs in
    let rest = put_escaped_from [] bs in
    if is_plain b then longer else put_run run (escape_text b ∷ rest)

unfoldable pub put_escaped : Bytes → Puts
unfolding put_escaped_from
put_escaped s = put_escaped_from [] s

unfoldable pub put_quoted : Bytes → Puts
unfolding put_escaped
put_quoted s = ((b'"' ∷ []) ∷ put_escaped s) ++ ((b'"' ∷ []) ∷ [])

-- Chunks of 64 at most.
unfoldable pub put_repeated_from : ℕ → ℕ → ℕ → Puts
put_repeated_from zero byte left = []
put_repeated_from (suc fuel) byte left =
    let n = min left 64 in
    let rest = put_repeated_from fuel byte (left - n) in
    if ltb 0 left then replicate n byte ∷ rest else []

unfoldable pub put_repeated : ℕ → ℕ → Puts
unfolding put_repeated_from
put_repeated byte count = put_repeated_from (suc count) byte count

abbrev pub byte_len : ℕ → ℕ
byte_len b =
    if b == b'"' || b == b'\\' || b == 0x08 || b == 0x0c || b == b'\n' || b == b'\r' || b == b'\t'
    then 2
    else if leb b 0x1f
    then 6
    else 1

unfoldable pub escaped_len : Bytes → ℕ
escaped_len [] = 0
escaped_len (b ∷ bs) = byte_len b + escaped_len bs

unfoldable pub escaped_char_len : ℕ → ℕ
escaped_char_len ch =
    if ch == b'"'
      || ch == b'\\'
      || ch == 0x08
      || ch == 0x0c
      || ch == b'\n'
      || ch == b'\r'
      || ch == b'\t'
    then 2
    else if ltb ch 0x20
    then 6
    else len_utf8 ch

-- The two loops of `write_i64`: `digits` is the filled end of the stack array, and `rest` what is
-- left of the number.
unfoldable pub digit_pairs : ℕ → ℕ → Bytes → Bytes
digit_pairs zero rest digits = digits
digit_pairs (suc fuel) rest digits =
    let more = digit_pairs fuel (rest / 100) (pair_at (rest % 100 * 2) ++ digits) in
    if leb 100 rest
    then more
    else if leb 10 rest
    then pair_at (rest * 2) ++ digits
    else (b'0' + rest) ∷ digits

-- `unsigned_abs`
abbrev pub unsigned_abs : ℤ → ℕ
unsigned_abs (pos n) = n
unsigned_abs (negsuc n) = suc n

abbrev pub is_negative : ℤ → Bool
is_negative (pos n) = false
is_negative (negsuc n) = true

-- `&digits[at..]`: a round takes two digits of at most twenty.
unfoldable pub i64_digits : ℤ → Bytes
unfolding digit_pairs pair_at
i64_digits value =
    let digits = digit_pairs 10 (unsigned_abs value) [] in
    if is_negative value then b'-' ∷ digits else digits

-- `while !content.is_char_boundary(limit) { limit -= 1 }`
abbrev is_char_boundary : Bytes → ℕ → Bool
is_char_boundary content limit = elim (drop limit content) [
  | [] ↦ leb limit (length content)
  | b ∷ _ ↦ not (is_continuation b)
]

unfoldable pub char_boundary : Bytes → ℕ → ℕ
char_boundary content zero = zero
char_boundary content (suc limit) =
    let lower = char_boundary content limit in
    if is_char_boundary content (suc limit) then suc limit else lower

-- The loop over `candidate.char_indices()`: the end of the last character that fits.
unfoldable pub fit_chars : ℕ → ℕ → ℕ → ℕ → Bytes → ℕ
fit_chars zero spare used taken candidate = taken
fit_chars (suc fuel) spare used taken candidate = elim (first_char candidate) [
  | malformed ↦ taken
  | cut_off ↦ taken
  | char ch n ↦
      if ltb spare (used + escaped_char_len ch)
      then taken
      else fit_chars fuel spare (used + escaped_char_len ch) (taken + n) (drop n candidate)
]

-- How much of `content` is written into `spare` free bytes.
unfoldable pub content_taken : ℕ → Bytes → ℕ
unfolding fit_chars char_boundary escaped_char_len escaped_len
content_taken spare content =
    let limit = char_boundary content (min (length content) spare) in
    let candidate = take limit content in
    let fitting = fit_chars (length candidate) spare 0 0 candidate in
    if leb (escaped_len candidate) spare then limit else fitting
