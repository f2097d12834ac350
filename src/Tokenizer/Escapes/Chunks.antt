-- ===== src/Tokenizer/Escapes/Chunks.antt =====
-- An escape that a chunk boundary of src/tokenizer.rs cuts: what `resolve_escape` has decided on the
-- bytes received so far is not changed by the bytes that follow.
use rjsonparser.Prelude.{
  ℕ, zero, suc, ◌+◌, ◌-◌, ◌≤◌, ◌≡◌, ◌≢◌, refl, sym, ap, ◌∙◌, [], ◌∷◌, ◌++◌, Bytes, length,
  length-append, Bool-cases, if◌then◌else◌, ◌==◌, inl, inr, arith, take, drop, Option, none, some,
}
use rjsonparser.Text.{within}
use rjsonparser.Error.{Result, ok, err, bind_congr, new_number}
use rjsonparser.Loopbuf.{Spans, IsView}
use rjsonparser.Tokenizer.Escapes.{
  unhex, peek_escape, Escape, need_more, unit_value, parse_escape, hex_digits, Follow, not_low,
  follow_need_more, low_digits, low_surrogate_follows, resolve_escape, resolve_unit, simple_escape,
  shift_in,
}
use rjsonparser.Tokenizer.Escapes.Peek.{peek_escape-take, take-append, take_nil}

hex_digits-append :
    (k value : ℕ) (xs ys : Bytes)
    → hex_digits k value xs ≢ ok need_more
    → hex_digits k value (xs ++ ys) ≡ hex_digits k value xs
unfolding hex_digits
hex_digits-append zero value xs ys h = refl
hex_digits-append (suc k) value [] ys h = elim (h refl) [ ]
hex_digits-append (suc k) value (x ∷ xs) ys h =
    bind_congr (unhex x) (λ d. hex_digits k (shift_in value d) (xs ++ ys))
      (λ d. hex_digits k (shift_in value d) xs)
      (λ d e. hex_digits-append k (shift_in value d) xs ys (λ bad. h (rw e bad)))

-- `parse_escape` behind the backslash and the character `c`.
abbrev pub parse_behind : Option ℕ → ℕ → Bytes → Result Escape
parse_behind o c bs = elim o [
  | some simple ↦ ok (unit_value simple 2)
  | none ↦ if c == b'u' then hex_digits 4 0 bs else err (new_number "Invalid escape sequence: \\" c)
]

pub parse_escape_behind :
    (b c : ℕ) (bs : Bytes) → parse_escape (b ∷ c ∷ bs) ≡ parse_behind (simple_escape c) c bs
unfolding parse_escape
parse_escape_behind b c bs = refl

parse_nil : parse_escape [] ≡ ok need_more
unfolding parse_escape
parse_nil = refl

parse_one : (b : ℕ) → parse_escape (b ∷ []) ≡ ok need_more
unfolding parse_escape
parse_one b = refl

parse_behind-append :
    (o : Option ℕ) (c : ℕ) (bs ys : Bytes)
    → parse_behind o c bs ≢ ok need_more
    → parse_behind o c (bs ++ ys) ≡ parse_behind o c bs
parse_behind-append (some v) c bs ys h = refl
parse_behind-append none c bs ys h = elim (Bool-cases (c == b'u')) [
  | inl hex ↦ rw hex (hex_digits-append 4 0 bs ys (λ bad. h (rw hex bad)))
  | inr other ↦ rw other refl
]

parse_escape-append :
    (xs ys : Bytes) → parse_escape xs ≢ ok need_more → parse_escape (xs ++ ys) ≡ parse_escape xs
parse_escape-append [] ys h = elim (h parse_nil) [ ]
parse_escape-append (b ∷ []) ys h = elim (h (parse_one b)) [ ]
parse_escape-append (b ∷ c ∷ bs) ys h =
    parse_escape_behind b c (bs ++ ys)
    ∙ parse_behind-append (simple_escape c) c bs ys (λ bad. h (parse_escape_behind b c bs ∙ bad))
    ∙ sym (parse_escape_behind b c bs)

low_digits-append :
    (k value : ℕ) (xs ys : Bytes)
    → k ≤ length xs
    → low_digits k value (xs ++ ys) ≡ low_digits k value xs
unfolding low_digits
low_digits-append zero value xs ys h = refl
low_digits-append (suc k) value [] ys h = elim h [ ]
low_digits-append (suc k) value (x ∷ xs) ys h =
    ap (λ (f : ℕ → Follow). elim (unhex x) as (λ r. Follow) [ ok d ↦ f d | err _ ↦ not_low ])
      (λ i d. low_digits-append k (shift_in value d) xs ys (omega (arith, h)) i)

low_surrogate_follows-append :
    (xs ys : Bytes)
    → low_surrogate_follows xs ≢ follow_need_more
    → low_surrogate_follows (xs ++ ys) ≡ low_surrogate_follows xs
unfolding low_surrogate_follows
low_surrogate_follows-append [] ys h = elim (h refl) [ ]
low_surrogate_follows-append (b ∷ []) [] h = refl
low_surrogate_follows-append (b ∷ []) (y ∷ ys) h = ground (arith, h)
low_surrogate_follows-append (b ∷ c ∷ bs) ys h =
    ground (arith, h, low_digits-append 4 0 bs ys, length-append bs ys)

take-append_more :
    (n i : ℕ) (bs more : Bytes)
    → (t : Bytes) × (take n (drop i (bs ++ more)) ≡ take n (drop i bs) ++ t)
take-append_more n zero bs more = (take (n - length bs) more, take-append n bs more)
take-append_more n (suc i) (b ∷ bs) more = take-append_more n i bs more
take-append_more n (suc i) [] more = (take n (drop (suc i) more), rw (take_nil n) refl)

peek_escape-append :
    {input later : Spans} {bs : Bytes} (more : Bytes)
    → IsView input bs
    → IsView later (bs ++ more)
    → (i : ℕ) → (t : Bytes) × (peek_escape later i ≡ peek_escape input i ++ t)
peek_escape-append {bs = bs} more view view' i =
    let (t, e) = take-append_more 6 i bs more in
    (t, peek_escape-take view' i ∙ e ∙ ap (λ (s : Bytes). s ++ t) (sym (peek_escape-take view i)))

resolve_unit-append :
    {input later : Spans} {bs : Bytes} (more : Bytes)
    → IsView input bs
    → IsView later (bs ++ more)
    → (i : ℕ) (e : Escape) → resolve_unit input i e ≢ none
    → resolve_unit later i e ≡ resolve_unit input i e
resolve_unit-append more view view' i need_more h = elim (h refl) [ ]
resolve_unit-append {input} {later} more view view' i (unit_value u len) h =
    elim (Bool-cases (within 0xD800 0xDBFF u)) [
      | inl high ↦
          let (t, seen) = peek_escape-append more view view' (i + len) in
          rw
            (
              high,
              seen,
              low_surrogate_follows-append (peek_escape input (i + len)) t
                  (λ bad. h (rw (high, bad) refl)),
            )
            refl
      | inr other ↦ rw other refl
    ]

-- What `resolve_escape` has decided, a character or an error, on the bytes that are in the ring stays
-- so when more bytes follow: only the answer "more data is needed" can change.
pub resolve_escape-append :
    {input later : Spans} {bs : Bytes} (more : Bytes)
    → IsView input bs
    → IsView later (bs ++ more)
    → (i : ℕ) → resolve_escape input i ≢ ok none
    → resolve_escape later i ≡ resolve_escape input i
unfolding resolve_escape
resolve_escape-append {input} {later} {bs} more view view' i decided =
    let (t, seen) = peek_escape-append more view view' i in
    let parsed : parse_escape (peek_escape later i) ≡ parse_escape (peek_escape input i) =
      rw seen (parse_escape-append (peek_escape input i) t (λ bad. decided (rw bad refl))) in
    rw parsed (
      bind_congr (parse_escape (peek_escape input i)) (λ e. ok (resolve_unit later i e))
        (λ e. ok (resolve_unit input i e))
        (λ e got.
          ap (λ (r : Option (ℕ × ℕ)). ok r)
            (resolve_unit-append more view view' i e (λ bad. decided (rw (got, bad) refl)))))
