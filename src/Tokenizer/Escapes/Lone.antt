-- ===== src/Tokenizer/Escapes/Lone.antt =====
-- Surrogates that stand alone in escapes, of `resolve_escape` in src/tokenizer.rs.
use mathlib.Core.Path.{subst}
use rjsonparser.Prelude.{
  ℕ, ◌+◌, ◌≤◌, ◌<◌, ◌≡◌, ◌≢◌, ◌⊎◌, refl, sym, ap, ◌∙◌, Bool, true, [], ◌∷◌, ◌++◌, Bytes, length,
  length-append, arith, take, some, append_assoc, drop-append_length,
}
use rjsonparser.Text.{within, char_from_u32, replacement_character}
use rjsonparser.Error.{ok}
use rjsonparser.Loopbuf.{Spans, IsView}
use rjsonparser.Tokenizer.Escapes.{
  peek_escape, Follow, not_low, low_surrogate_follows, resolve_escape, pair_up,
}
use rjsonparser.Tokenizer.Escapes.Decode.{peek_six}
use rjsonparser.Tokenizer.Escapes.Peek.{peek_escape-take}
use rjsonparser.Tokenizer.Escapes.Hex.{unit_escape, parse-unit_escape, low_digits-hex4}

-- Bytes that do not go on with the second half of a pair: another byte than a backslash, or the escape of a code
-- unit that is no low surrogate.
pub data NoLowHalf : Bytes → Type 0 where
  other_byte : {b : ℕ} {rest : Bytes} → b ≢ b'\\' → NoLowHalf (b ∷ rest)
  other_unit :
      (upper : Bool) {v : ℕ} {rest : Bytes}
      → v < 0x10000
      → (v < 0xDC00) ⊎ (0xE000 ≤ v)
      → NoLowHalf (unit_escape upper v ++ rest)

-- A surrogate with no partner.
pub data IsLone : ℕ → Bytes → Type 0 where
  low_half : {u : ℕ} {rest : Bytes} → 0xDC00 ≤ u → u < 0xE000 → IsLone u rest
  high_half : {u : ℕ} {rest : Bytes} → 0xD800 ≤ u → u < 0xDC00 → NoLowHalf rest → IsLone u rest

follows_other : (b : ℕ) (rest : Bytes) → b ≢ b'\\' → low_surrogate_follows (b ∷ rest) ≡ not_low
unfolding low_surrogate_follows
follows_other b [] h = ground (arith, h)
follows_other b (c ∷ rest) h = ground (arith, h)

follows_unit :
    (upper : Bool) (v : ℕ)
    → v < 0x10000
    → (v < 0xDC00) ⊎ (0xE000 ≤ v)
    → low_surrogate_follows (unit_escape upper v) ≡ not_low
unfolding low_surrogate_follows
follows_unit upper v h k = rw (low_digits-hex4 upper v h) (ground (arith, k))

module _ {input : Spans} (upper : Bool) (pre rest : Bytes) (u : ℕ)
    (view : IsView input (pre ++ (unit_escape upper u ++ rest))) where
  -- The bytes behind the escape.
  behind : IsView input ((pre ++ unit_escape upper u) ++ rest)
  behind =
      subst (λ (t : Bytes). IsView input t) (sym (append_assoc pre (unit_escape upper u) rest)) view

  end_of : length (pre ++ unit_escape upper u) ≡ length pre + 6
  end_of = length-append pre (unit_escape upper u)

  seen_behind : peek_escape input (length pre + 6) ≡ take 6 rest
  seen_behind =
      ap (peek_escape input) (sym end_of)
      ∙ peek_escape-take behind (length (pre ++ unit_escape upper u))
      ∙ ap (take 6) (drop-append_length (pre ++ unit_escape upper u) rest)

  resolve_low :
      0xDC00 ≤ u
      → u < 0xE000
      → resolve_escape input (length pre) ≡ ok (some (replacement_character, 6))
  unfolding resolve_escape char_from_u32
  resolve_low h k =
      rw
        (peek_six pre (unit_escape upper u) rest view refl, parse-unit_escape upper u (omega arith))
        (ground arith)

  resolve_high :
      0xD800 ≤ u
      → u < 0xDC00
      → (f : Follow) → low_surrogate_follows (take 6 rest) ≡ f
      → resolve_escape input (length pre) ≡ ok (pair_up u 6 f)
  unfolding resolve_escape
  resolve_high h k f e =
      let high : within 0xD800 0xDBFF u ≡ true = ground arith in
      rw
        (peek_six pre (unit_escape upper u) rest view refl, parse-unit_escape upper u (omega arith))
        (rw (high, seen_behind, e) refl)

no_low_half : (rest : Bytes) → NoLowHalf rest → low_surrogate_follows (take 6 rest) ≡ not_low
no_low_half rest (other_byte {b = b} {rest = more} h) = follows_other b (take 5 more) h
no_low_half rest (other_unit upper {v = v} {rest = more} h k) = follows_unit upper v h k

-- A surrogate that stands alone in an escape is read as the replacement character, and the escape's six bytes
-- are taken and no more, however the ring splits them: a low one whatever follows it, a high one where another
-- byte than a backslash follows, or the escape of a code unit that is no low surrogate.
pub resolve-lone_surrogate :
    {input : Spans} (upper : Bool) (pre rest : Bytes) (u : ℕ)
    → IsView input (pre ++ (unit_escape upper u ++ rest))
    → IsLone u rest
    → resolve_escape input (length pre) ≡ ok (some (0xFFFD, 6))
resolve-lone_surrogate upper pre rest u view (low_half h k) = resolve_low upper pre rest u view h k
resolve-lone_surrogate upper pre rest u view (high_half h k alone) =
    resolve_high upper pre rest u view h k not_low (no_low_half rest alone)
