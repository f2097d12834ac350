-- ===== src/Text.antt =====
-- What the code uses of Rust's `char` and `str`: a `char` is its code point, and a `str` is the list
-- of its UTF-8 bytes. `utf8_check` is `std::str::from_utf8`: how far the bytes are valid, and whether
-- what stands there is malformed (`error_len` is `Some`) or cut off by the end (`None`).
use rjsonparser.Prelude.{
  ℕ, zero, suc, ◌+◌, ◌-◌, ◌*◌, ◌/◌, ◌%◌, Bool, true, false, ◌&&◌, [], ◌∷◌, Bytes, ltb, leb, ◌==◌,
  if◌then◌else◌, drop, length, Option, none, some,
}

abbrev pub replacement_character : ℕ
replacement_character = 0xFFFD

-- `char::from_u32`
unfoldable pub char_from_u32 : ℕ → Option ℕ
char_from_u32 u =
    if ltb u 0xD800 then some u else if leb 0xE000 u && leb u 0x10FFFF then some u else none

abbrev pub char_or_replacement : Option ℕ → ℕ
char_or_replacement none = replacement_character
char_or_replacement (some c) = c

unfoldable pub len_utf8 : ℕ → ℕ
len_utf8 c = if ltb c 0x80 then 1 else if ltb c 0x800 then 2 else if ltb c 0x10000 then 3 else 4

unfoldable pub len_utf16 : ℕ → ℕ
len_utf16 c = if ltb c 0x10000 then 1 else 2

-- What `String::push` appends.
unfoldable pub encode_utf8 : ℕ → Bytes
encode_utf8 c =
    if ltb c 0x80
    then c ∷ []
    else if ltb c 0x800
    then (0xC0 + c / 64) ∷ (0x80 + c % 64) ∷ []
    else if ltb c 0x10000
    then (0xE0 + c / 4096) ∷ (0x80 + c / 64 % 64) ∷ (0x80 + c % 64) ∷ []
    else (0xF0 + c / 262144) ∷ (0x80 + c / 4096 % 64) ∷ (0x80 + c / 64 % 64) ∷ (0x80 + c % 64) ∷ []

abbrev pub within : ℕ → ℕ → ℕ → Bool
within lo hi b = leb lo b && leb b hi

abbrev pub is_continuation : ℕ → Bool
is_continuation b = within 0x80 0xBF b

-- The first character of some bytes: its code point and length, or why there is none.
pub data FirstChar : Type 0 where
  char : ℕ → ℕ → FirstChar
  malformed : FirstChar
  cut_off : FirstChar

-- The second bytes that may follow a lead byte (no overlong form, no surrogate, none above U+10FFFF).
abbrev pub second_fits : ℕ → ℕ → Bool
second_fits a b =
    if a == 0xE0
    then within 0xA0 0xBF b
    else if a == 0xED
    then within 0x80 0x9F b
    else if a == 0xF0
    then within 0x90 0xBF b
    else if a == 0xF4
    then within 0x80 0x8F b
    else is_continuation b

unfoldable pub first_of_two : ℕ → Bytes → FirstChar
first_of_two a [] = cut_off
first_of_two a (b ∷ _) =
    if is_continuation b then char ((a - 0xC0) * 64 + (b - 0x80)) 2 else malformed

unfoldable pub first_of_three : ℕ → Bytes → FirstChar
first_of_three a [] = cut_off
first_of_three a (b ∷ []) = if second_fits a b then cut_off else malformed
first_of_three a (b ∷ c ∷ _) =
    if second_fits a b && is_continuation c
    then char ((a - 0xE0) * 4096 + (b - 0x80) * 64 + (c - 0x80)) 3
    else malformed

unfoldable pub first_of_four : ℕ → Bytes → FirstChar
first_of_four a [] = cut_off
first_of_four a (b ∷ []) = if second_fits a b then cut_off else malformed
first_of_four a (b ∷ c ∷ []) = if second_fits a b && is_continuation c then cut_off else malformed
first_of_four a (b ∷ c ∷ d ∷ _) =
    if second_fits a b && is_continuation c && is_continuation d
    then char ((a - 0xF0) * 262144 + (b - 0x80) * 4096 + (c - 0x80) * 64 + (d - 0x80)) 4
    else malformed

unfoldable pub first_char : Bytes → FirstChar
unfolding first_of_two first_of_three first_of_four
first_char [] = cut_off
first_char (a ∷ bs) =
    if ltb a 0x80
    then char a 1
    else if within 0xC2 0xDF a
    then first_of_two a bs
    else if within 0xE0 0xEF a
    then first_of_three a bs
    else if within 0xF0 0xF4 a
    then first_of_four a bs
    else malformed

pub data Utf8Check : Type 0 where
  all_valid : Utf8Check
  -- `valid_up_to`, and whether `error_len` is `Some`
  stops_at : ℕ → Bool → Utf8Check

-- Each round takes a character, so the number of bytes is fuel enough.
unfoldable pub check_from : ℕ → ℕ → Bytes → Utf8Check
check_from fuel done [] = all_valid
check_from zero done (b ∷ bs) = all_valid
check_from (suc fuel) done (b ∷ bs) = elim (first_char (b ∷ bs)) [
  | char c n ↦ check_from fuel (done + n) (drop n (b ∷ bs))
  | malformed ↦ stops_at done true
  | cut_off ↦ stops_at done false
]

unfoldable pub utf8_check : Bytes → Utf8Check
unfolding check_from first_char
utf8_check bs = check_from (length bs) 0 bs
