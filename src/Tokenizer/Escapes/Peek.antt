-- ===== src/Tokenizer/Escapes/Peek.antt =====
-- The look-ahead of `peek_escape` in src/tokenizer.rs does not depend on where the ring wraps.
use rjsonparser.Prelude.{
  ℕ, zero, suc, ◌+◌, ◌-◌, ◌≤◌, ◌<◌, ◌≡◌, refl, sym, ap, ◌∙◌, [], ◌∷◌, ◌++◌, Bytes, ltb, leb, length,
  Bool-cases, if◌then◌else◌, append-nil, take_all, ltb→lt, leb→le, drop-append_length, inl, inr,
  arith, take, drop, get_or, drop-drop, take_all, ltb→lt, drop-append_length,
}
use rjsonparser.Loopbuf.{Spans, IsView}
use rjsonparser.Tokenizer.Escapes.{peek_escape, peek_rest}

pub drop-get_or : (k : ℕ) (bs : Bytes) → k < length bs → drop k bs ≡ get_or bs k 0 ∷ drop (suc k) bs
drop-get_or zero (b ∷ bs) h = refl
drop-get_or (suc k) (b ∷ bs) h = drop-get_or k bs (omega arith)
drop-get_or zero [] h = elim h [ ]
drop-get_or (suc k) [] h = elim h [ ]

pub drop_past : (k : ℕ) (bs : Bytes) → length bs ≤ k → drop k bs ≡ []
drop_past zero [] h = refl
drop_past (suc k) [] h = refl
drop_past zero (b ∷ bs) h = elim h [ ]
drop_past (suc k) (b ∷ bs) h = drop_past k bs (omega arith)

pub take_nil : (n : ℕ) → take {A = ℕ} n [] ≡ []
take_nil zero = refl
take_nil (suc n) = refl

pub take-append : (n : ℕ) (xs ys : Bytes) → take n (xs ++ ys) ≡ take n xs ++ take (n - length xs) ys
take-append zero xs ys = let e : 0 ≡ 0 - length xs = omega arith in ap (λ (k : ℕ). take k ys) e
take-append (suc n) [] ys = let e : suc n ≡ suc n - 0 = omega arith in ap (λ (k : ℕ). take k ys) e
take-append (suc n) (x ∷ xs) ys =
    ap (λ (t : Bytes). x ∷ t)
      (take-append n xs ys
        ∙ (let e : n - length xs ≡ suc n - suc (length xs) = omega arith in
            ap (λ (k : ℕ). take n xs ++ take k ys) e))

peek_rest-take :
    {input : Spans} {bs : Bytes}
    → IsView input bs
    → (rounds i n : ℕ) → peek_rest rounds input i n ≡ take rounds (drop (i + n) bs)
unfolding peek_rest
peek_rest-take view zero i n = refl
peek_rest-take {input} {bs} view (suc rounds) i n = elim (Bool-cases (ltb (i + n) input.len)) [
  | inl more ↦
      let inside : i + n < length bs = omega (arith, view.len_eq, ltb→lt (i + n) input.len more) in
      let next : suc (i + n) ≡ i + (n + 1) = omega arith in
      rw more (
        cc (view.at_eq (i + n) inside, peek_rest-take view rounds i (n + 1), next)
        ∙ ap (take (suc rounds)) (sym (drop-get_or (i + n) bs inside)))
  | inr done ↦ rw (done, drop_past (i + n) bs (ground (arith, view.len_eq))) refl
]

span_take :
    (span rest : Bytes)
    → (if leb 6 (length span) then take 6 span else span ++ take (6 - length span) rest)
      ≡ take 6 (span ++ rest)
span_take span rest = elim (Bool-cases (leb 6 (length span))) [
  | inl long ↦
      let none_left : 6 - length span ≡ 0 = omega (arith, leb→le 6 (length span) long) in
      rw long (sym (take-append 6 span rest ∙ rw none_left (append-nil (take 6 span))))
  | inr short ↦ rw short (sym (take-append 6 span rest ∙ rw (take_all 6 span (ground arith)) refl))
]

-- What stands behind the span.
pub behind_span :
    {input : Spans} {bs : Bytes} (view : IsView input bs) (i : ℕ)
    → (rest : Bytes) × (input.span_from i ++ rest ≡ drop i bs)
      × (drop (i + length (input.span_from i)) bs ≡ rest)
behind_span {input} {bs} view i = elim (Bool-cases (ltb i (length bs))) [
  | inl inside ↦
      let e = view.span_eq i (ltb→lt i (length bs) inside) in
      (
        view.span_rest i,
        e,
        sym (drop-drop (length (input.span_from i)) i bs)
            ∙ ap (drop (length (input.span_from i))) (sym e)
            ∙ drop-append_length (input.span_from i) (view.span_rest i),
      )
  | inr outside ↦
      let nil = view.span_end i (ground arith) in
      (drop i bs, rw nil refl, rw nil (ap (λ (k : ℕ). drop k bs) (omega arith)))
]

-- The bytes that `peek_escape` returns are the six from the position on, or all there are,
-- however the ring splits them into spans.
pub peek_escape-take :
    {input : Spans} {bs : Bytes}
    → IsView input bs
    → (i : ℕ) → peek_escape input i ≡ take 6 (drop i bs)
unfolding peek_escape
peek_escape-take {input} {bs} view i =
    let (rest, e, behind) = behind_span view i in
    rw (peek_rest-take view (6 - length (input.span_from i)) i (length (input.span_from i)), behind)
      (span_take (input.span_from i) rest ∙ ap (take 6) e)
