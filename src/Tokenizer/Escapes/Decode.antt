-- ===== src/Tokenizer/Escapes/Decode.antt =====
-- What `resolve_escape` of src/tokenizer.rs makes of an escape in the ring: the character that the
-- escape stands for, surrogate pairs included, and how far it reads.
use mathlib.Core.Path.{subst}
use rjsonparser.Prelude.{
  ℕ, ◌+◌, ◌-◌, ◌*◌, ◌/◌, ◌%◌, ◌≤◌, ◌<◌, ◌≡◌, ◌⊎◌, refl, sym, ap, ◌∙◌, Bool, true, ◌++◌, Bytes, ltb,
  length, ltb→lt, length-append, Bool-cases, if◌then◌else◌, inl, inr, arith, take,
  drop-append_length, some, append_assoc, append-nil, take_all,
}
use rjsonparser.Text.{within, char_from_u32, char_or_replacement}
use rjsonparser.Error.{ok}
use rjsonparser.Loopbuf.{Spans, IsView}
use rjsonparser.Tokenizer.Escapes.{peek_escape, low, resolve_escape, pair_up}
use rjsonparser.Tokenizer.Escapes.Peek.{peek_escape-take, take-append}
use rjsonparser.Tokenizer.Escapes.Hex.{
  unit_escape, parse-unit_escape, low_surrogate_follows-unit_escape,
}

-- A Unicode scalar value: what a `char` may be.
abbrev pub IsScalar : ℕ → Type 0
IsScalar c = (c < 0xD800) ⊎ ((0xE000 ≤ c) × (c ≤ 0x10FFFF))

-- A character in `\u` form, as the JSON standard writes it: above U+FFFF a surrogate pair.
abbrev pub char_escape : Bool → ℕ → Bytes
char_escape upper c =
    if ltb c 0x10000
    then unit_escape upper c
    else unit_escape upper (0xD800 + (c - 0x10000) / 1024)
      ++ unit_escape upper (0xDC00 + (c - 0x10000) % 1024)

six_of : (text rest : Bytes) → length text ≡ 6 → take 6 (text ++ rest) ≡ text
six_of text rest six =
    let none_left : 6 - length text ≡ 0 = omega (arith, six) in
    take-append 6 text rest ∙ rw (none_left, take_all 6 text (omega (arith, six))) (append-nil text)

pub char_from_u32-IsScalar : (c : ℕ) → IsScalar c → char_from_u32 c ≡ some c
unfolding char_from_u32
char_from_u32-IsScalar c scalar = ground arith

-- What `peek_escape` sees at `pre` of `pre ++ text ++ rest`, for a text of six bytes.
pub peek_six :
    {input : Spans} (pre text rest : Bytes)
    → IsView input (pre ++ (text ++ rest))
    → length text ≡ 6
    → peek_escape input (length pre) ≡ text
peek_six pre text rest view six =
    peek_escape-take view (length pre)
    ∙ ap (take 6) (drop-append_length pre (text ++ rest))
    ∙ six_of text rest six

high_test :
    (hi lo n : ℕ)
    → hi < 1024
    → lo < 1024
    → ok (
        if within 0xD800 0xDBFF (0xD800 + hi)
        then pair_up (0xD800 + hi) n (low (0xDC00 + lo))
        else some (char_or_replacement (char_from_u32 (0xD800 + hi)), n))
      ≡ ok (some (0x10000 + hi * 1024 + lo, n + 6))
high_test hi lo n h k =
    let value : 0x10000 + (0xD800 + hi - 0xD800) * 1024 + (0xDC00 + lo - 0xDC00)
        ≡ 0x10000 + hi * 1024 + lo =
      omega arith in
    let high : within 0xD800 0xDBFF (0xD800 + hi) ≡ true = ground arith in
    rw
      (
        high,
        value,
        char_from_u32-IsScalar (0x10000 + hi * 1024 + lo) (inr (omega arith, omega arith)),
      )
      refl

pub resolve_single :
    {input : Spans} (upper : Bool) (pre rest : Bytes) (c : ℕ)
    → IsView input (pre ++ (unit_escape upper c ++ rest))
    → IsScalar c
    → c < 0x10000
    → resolve_escape input (length pre) ≡ ok (some (c, 6))
unfolding resolve_escape
resolve_single upper pre rest c view scalar h =
    rw (peek_six pre (unit_escape upper c) rest view refl, parse-unit_escape upper c h)
      (rw (char_from_u32-IsScalar c scalar) (ground arith))

resolve_pair :
    {input : Spans} (upper : Bool) (pre rest : Bytes) (hi lo : ℕ)
    → IsView input
        (pre ++ (unit_escape upper (0xD800 + hi) ++ (unit_escape upper (0xDC00 + lo) ++ rest)))
    → hi < 1024
    → lo < 1024
    → resolve_escape input (length pre) ≡ ok (some (0x10000 + hi * 1024 + lo, 12))
unfolding resolve_escape
resolve_pair {input} upper pre rest hi lo view h k =
    rw
      (
        peek_six pre (unit_escape upper (0xD800 + hi)) (unit_escape upper (0xDC00 + lo) ++ rest)
            view refl,
        parse-unit_escape upper (0xD800 + hi) (omega arith),
      )
      (let first = unit_escape upper (0xD800 + hi) in
        let second = unit_escape upper (0xDC00 + lo) in
        let view' : IsView input ((pre ++ first) ++ (second ++ rest)) =
          subst (λ (t : Bytes). IsView input t) (sym (append_assoc pre first (second ++ rest)))
            view in
        let next : length (pre ++ first) ≡ length pre + 6 = length-append pre first in
        let seen =
          ap (peek_escape input) (sym next) ∙ peek_six (pre ++ first) second rest view' refl in
        rw (seen, low_surrogate_follows-unit_escape upper (0xDC00 + lo) (omega arith) (omega arith))
          (high_test hi lo 6 h k))

abbrev pub Decodes : Spans → Bytes → Bytes → ℕ → Bytes → Type 0
Decodes input pre rest c text =
    IsView input (pre ++ (text ++ rest))
    → resolve_escape input (length pre) ≡ ok (some (c, length text))

large_char :
    (input : Spans) (upper : Bool) (pre rest : Bytes) (c : ℕ)
    → 0x10000 ≤ c
    → c ≤ 0x10FFFF
    → Decodes input pre rest c (
        unit_escape upper (0xD800 + (c - 0x10000) / 1024)
        ++ unit_escape upper (0xDC00 + (c - 0x10000) % 1024))
large_char input upper pre rest c h k view =
    let value : 0x10000 + (c - 0x10000) / 1024 * 1024 + (c - 0x10000) % 1024 ≡ c = omega arith in
    resolve_pair upper pre rest ((c - 0x10000) / 1024) ((c - 0x10000) % 1024) view (omega arith)
      (omega arith)
    ∙ ap (λ (v : ℕ). ok (some (v, 12))) value

-- Every character decodes: where the ring holds, after the bytes `pre`, a character in its `\u` form
-- (in upper or lower case, a surrogate pair above U+FFFF), `resolve_escape` returns this character and
-- the length of the form, whatever follows and however the ring splits the bytes into spans.
pub resolve-char_escape :
    {input : Spans} (upper : Bool) (pre rest : Bytes) (c : ℕ)
    → IsView input (pre ++ (char_escape upper c ++ rest))
    → IsScalar c
    → resolve_escape input (length pre) ≡ ok (some (c, length (char_escape upper c)))
resolve-char_escape {input} upper pre rest c view scalar = elim (Bool-cases (ltb c 0x10000)) [
  | inl small ↦
      let text : unit_escape upper c ≡ char_escape upper c = rw small refl in
      subst (Decodes input pre rest c) text
        (λ v. resolve_single upper pre rest c v scalar (ltb→lt c 0x10000 small)) view
  | inr large ↦
      let text : unit_escape upper (0xD800 + (c - 0x10000) / 1024)
            ++ unit_escape upper (0xDC00 + (c - 0x10000) % 1024)
          ≡ char_escape upper c =
        rw large refl in
      subst (Decodes input pre rest c) text
        (large_char input upper pre rest c (ground arith) (ground (arith, scalar))) view
]
