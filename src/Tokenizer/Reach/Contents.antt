-- ===== src/Tokenizer/Reach/Contents.antt =====
-- How far string content, `continue_string` of src/tokenizer.rs, is consumed.
use rjsonparser.Prelude.{
  ℕ, zero, suc, ◌+◌, ◌-◌, ◌≤◌, ◌<◌, ◌≡◌, refl, some, [], ◌∷◌, Bytes, length, length-take,
  length-drop, drop, arith,
}
use rjsonparser.Error.{Result, ok, err, ◌>>=◌}
use rjsonparser.Loopbuf.{Spans, IsView}
use rjsonparser.Tokenizer.Escapes.{
  Escape, need_more, unit_value, Follow, low, not_low, follow_need_more, resolve_escape,
  parse_escape, hex_digits, unhex, low_surrogate_follows, peek_escape, pair_up, resolve_unit,
  shift_in,
}
use rjsonparser.Tokenizer.Escapes.Peek.{peek_escape-take}

hex_digits-size :
    (k value : ℕ) (bs : Bytes) (v len : ℕ)
    → hex_digits k value bs ≡ ok (unit_value v len)
    → (len ≡ 6) × (k ≤ length bs)
unfolding hex_digits
hex_digits-size zero value bs v len e = ground (arith, e)
hex_digits-size (suc k) value [] v len e = ground (arith, e)
hex_digits-size (suc k) value (h ∷ bs) v len e =
    go (unhex h) e (λ d. hex_digits-size k (shift_in value d) bs v len)
  where
    go :
        (r : Result ℕ)
        → r >>= (λ d. hex_digits k (shift_in value d) bs) ≡ ok (unit_value v len)
        → ((d : ℕ)
            → hex_digits k (shift_in value d) bs ≡ ok (unit_value v len)
            → (len ≡ 6) × (k ≤ length bs))
        → (len ≡ 6) × (suc k ≤ suc (length bs))
    go (ok d) e' h' = ground (arith, h' d e')
    go (err x) e' h' = ground (arith, e')

parse_escape-size :
    (bs : Bytes) (v len : ℕ)
    → parse_escape bs ≡ ok (unit_value v len)
    → (0 < len) × (len ≤ length bs)
unfolding parse_escape
parse_escape-size [] v len e = ground (arith, e)
parse_escape-size (b ∷ []) v len e = ground (arith, e)
parse_escape-size (b ∷ c ∷ bs) v len e = ground (arith, e, hex_digits-size 4 0 bs v len)

low_surrogate_follows-size : (bs : Bytes) (l : ℕ) → low_surrogate_follows bs ≡ low l → 6 ≤ length bs
unfolding low_surrogate_follows
low_surrogate_follows-size [] l e = ground (arith, e)
low_surrogate_follows-size (a ∷ []) l e = ground (arith, e)
low_surrogate_follows-size (a ∷ b ∷ bs) l e = ground (arith, e)

peek_escape-size :
    {input : Spans} {bs : Bytes}
    → IsView input bs
    → (i : ℕ) → length (peek_escape input i) ≤ length bs - i
peek_escape-size {bs = bs} view i =
    rw (peek_escape-take view i) (omega (arith, length-take 6 (drop i bs), length-drop i bs))

pair_up-size :
    (unit len ch n room : ℕ) (f : Follow)
    → pair_up unit len f ≡ some (ch, n)
    → ((l : ℕ) → f ≡ low l → 6 ≤ room)
    → len ≤ n × n ≤ len + room
pair_up-size unit len ch n room follow_need_more e h = ground (arith, e)
pair_up-size unit len ch n room not_low e h = ground (arith, e)
pair_up-size unit len ch n room (low l) e h = ground (arith, e, h l refl)

-- An escape that is resolved stands in the bytes.
pub resolve_escape-size :
    {input : Spans} {bs : Bytes}
    → IsView input bs
    → (i ch n : ℕ) → resolve_escape input i ≡ ok (some (ch, n))
    → (0 < n) × (i + n ≤ length bs)
unfolding resolve_escape
resolve_escape-size {input} {bs} view i ch n e = go (parse_escape (peek_escape input i)) refl e
  where
    go :
        (r : Result Escape)
        → parse_escape (peek_escape input i) ≡ r
        → r >>= (λ escape. ok (resolve_unit input i escape)) ≡ ok (some (ch, n))
        → (0 < n) × (i + n ≤ length bs)
    go (err x) p e' = ground (arith, e')
    go (ok need_more) p e' = ground (arith, e')
    go (ok (unit_value v len)) p e' =
        let size = parse_escape-size (peek_escape input i) v len p in
        let peeked = peek_escape-size view i in
        let behind = peek_escape-size view (i + len) in
        let pair =
          pair_up-size v len ch n (length (peek_escape input (i + len)))
            (low_surrogate_follows (peek_escape input (i + len))) in
        let follows = low_surrogate_follows-size (peek_escape input (i + len)) in
        ground (
          arith,
          e',
          size,
          peeked,
          behind,
          λ (q : pair_up v len (low_surrogate_follows (peek_escape input (i + len)))
                ≡ some (ch, n)).
              pair q follows,
        )
