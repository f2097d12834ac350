-- ===== src/Tokenizer/Delivery/Chars.antt =====
-- A character decoded from its bytes is encoded as the same bytes, in src/tokenizer.rs and `char`.
use rjsonparser.Prelude.{
  ℕ, ◌+◌, ◌-◌, ◌*◌, ◌/◌, ◌%◌, ◌≤◌, ◌<◌, ◌≡◌, refl, sym, ap, ◌∙◌, [], ◌∷◌, Bytes, take, length, true,
  ltb, arith,
}
use rjsonparser.Prelude.{
  zero, suc, take-take_le, ◌++◌, drop, Option, none, some, get_or, append_assoc, append-nil,
}
use rjsonparser.Error.{Result, ok, err}
use rjsonparser.Loopbuf.{Spans, IsView}
use rjsonparser.Tokenizer.Escapes.Peek.{drop-get_or}
use rjsonparser.Tokenizer.Strings.{
  malformed_utf8, gather, one_char, after_gather, char_bytes, decode_char_at,
}
use rjsonparser.Text.{
  encode_utf8, first_char, first_of_two, first_of_three, first_of_four, char, second_fits,
  FirstChar, Utf8Check, utf8_check, stops_at, all_valid, malformed, cut_off, within,
  is_continuation,
}

two_bytes :
    (a b : ℕ)
    → within 0xC2 0xDF a ≡ true
    → is_continuation b ≡ true
    → encode_utf8 ((a - 0xC0) * 64 + (b - 0x80)) ≡ a ∷ b ∷ []
unfolding encode_utf8
two_bytes a b h k = ground (arith, h, k)

one_byte : (a : ℕ) → ltb a 0x80 ≡ true → encode_utf8 a ≡ a ∷ []
unfolding encode_utf8
one_byte a h = ground (arith, h)

three_parts :
    (c a b d : ℕ)
    → 0x800 ≤ c
    → c < 0x10000
    → 0xE0 + c / 4096 ≡ a
    → 0x80 + c / 64 % 64 ≡ b
    → 0x80 + c % 64 ≡ d
    → encode_utf8 c ≡ a ∷ b ∷ d ∷ []
unfolding encode_utf8
three_parts c a b d low high p q r = ground (arith, low, high, p, q, r)

three_bytes :
    (a b d : ℕ)
    → within 0xE0 0xEF a ≡ true
    → second_fits a b ≡ true
    → is_continuation d ≡ true
    → encode_utf8 ((a - 0xE0) * 4096 + (b - 0x80) * 64 + (d - 0x80)) ≡ a ∷ b ∷ d ∷ []
three_bytes a b d h k l =
    let ranges : (0xE0 ≤ a)
        × ((a < 0xF0)
            × ((0x80 ≤ b) × ((b < 0xC0) × ((0x80 ≤ d) × ((d < 0xC0) × (a ≡ 0xE0 → 0xA0 ≤ b)))))) =
      ground (arith, h, k, l) in
    let low : 0x800 ≤ (a - 0xE0) * 4096 + (b - 0x80) * 64 + (d - 0x80) = ground (arith, ranges) in
    three_parts ((a - 0xE0) * 4096 + (b - 0x80) * 64 + (d - 0x80)) a b d low (omega (arith, ranges))
      (omega (arith, ranges)) (omega (arith, ranges)) (omega (arith, ranges))

four_parts :
    (c a b d f : ℕ)
    → 0x10000 ≤ c
    → 0xF0 + c / 262144 ≡ a
    → 0x80 + c / 4096 % 64 ≡ b
    → 0x80 + c / 64 % 64 ≡ d
    → 0x80 + c % 64 ≡ f
    → encode_utf8 c ≡ a ∷ b ∷ d ∷ f ∷ []
unfolding encode_utf8
four_parts c a b d f low p q r t = ground (arith, low, p, q, r, t)

four_bytes :
    (a b d f : ℕ)
    → within 0xF0 0xF4 a ≡ true
    → second_fits a b ≡ true
    → is_continuation d ≡ true
    → is_continuation f ≡ true
    → encode_utf8 ((a - 0xF0) * 262144 + (b - 0x80) * 4096 + (d - 0x80) * 64 + (f - 0x80))
      ≡ a ∷ b ∷ d ∷ f ∷ []
four_bytes a b d f h k l n =
    let ranges : (0xF0 ≤ a)
        × ((a < 0xF5)
            × ((0x80 ≤ b)
                × ((b < 0xC0)
                    × ((0x80 ≤ d)
                        × ((d < 0xC0) × ((0x80 ≤ f) × ((f < 0xC0) × (a ≡ 0xF0 → 0x90 ≤ b)))))))) =
      ground (arith, h, k, l, n) in
    let low : 0x10000 ≤ (a - 0xF0) * 262144 + (b - 0x80) * 4096 + (d - 0x80) * 64 + (f - 0x80) =
      ground (arith, ranges) in
    four_parts ((a - 0xF0) * 262144 + (b - 0x80) * 4096 + (d - 0x80) * 64 + (f - 0x80)) a b d f low
      (omega (arith, ranges)) (omega (arith, ranges)) (omega (arith, ranges))
      (omega (arith, ranges))

-- What the first character of some bytes is encoded as is those bytes of them.
pub first_char-encode_utf8 :
    (bs : Bytes) (c n : ℕ) → first_char bs ≡ char c n → encode_utf8 c ≡ take n bs
unfolding first_char first_of_two first_of_three first_of_four
first_char-encode_utf8 [] c n e = ground (arith, e)
first_char-encode_utf8 (a ∷ []) c n e = ground (arith, e, one_byte a)
first_char-encode_utf8 (a ∷ b ∷ []) c n e = ground (arith, e, one_byte a, two_bytes a b)
first_char-encode_utf8 (a ∷ b ∷ d ∷ []) c n e =
    ground (arith, e, one_byte a, two_bytes a b, three_bytes a b d)
first_char-encode_utf8 (a ∷ b ∷ d ∷ f ∷ bs) c n e =
    ground (arith, e, one_byte a, two_bytes a b, three_bytes a b d, four_bytes a b d f)

-- The lead byte says how many bytes there are.
lead_two :
    (a : ℕ) (bs : Bytes) (c n : ℕ)
    → within 0xC2 0xDF a ≡ true
    → first_char (a ∷ bs) ≡ char c n
    → n ≡ 2
unfolding first_char first_of_two
lead_two a [] c n h e = ground (arith, h, e)
lead_two a (b ∷ bs) c n h e = ground (arith, h, e)

lead_three :
    (a : ℕ) (bs : Bytes) (c n : ℕ)
    → within 0xE0 0xEF a ≡ true
    → first_char (a ∷ bs) ≡ char c n
    → n ≡ 3
unfolding first_char first_of_three
lead_three a [] c n h e = ground (arith, h, e)
lead_three a (b ∷ []) c n h e = ground (arith, h, e)
lead_three a (b ∷ d ∷ bs) c n h e = ground (arith, h, e)

lead_four :
    (a : ℕ) (bs : Bytes) (c n : ℕ)
    → within 0xF0 0xF4 a ≡ true
    → first_char (a ∷ bs) ≡ char c n
    → n ≡ 4
unfolding first_char first_of_four
lead_four a [] c n h e = ground (arith, h, e)
lead_four a (b ∷ []) c n h e = ground (arith, h, e)
lead_four a (b ∷ d ∷ []) c n h e = ground (arith, h, e)
lead_four a (b ∷ d ∷ f ∷ bs) c n h e = ground (arith, h, e)

abbrev got_bytes : Bytes → Result (Option Bytes)
got_bytes a = ok (some a)

some_bytes : (a b : Bytes) → got_bytes a ≡ got_bytes b → b ≡ a
some_bytes a b e = ground (arith, e)

-- The bytes gathered stand in the ring.
gather-take :
    {input : Spans} {bs : Bytes}
    → IsView input bs
    → (k p : ℕ) (bytes got : Bytes) → gather k input p bytes ≡ ok (some got)
    → got ≡ bytes ++ take k (drop p bs)
unfolding gather
gather-take view zero p bytes got e = some_bytes bytes got e ∙ sym (append-nil bytes)
gather-take {input} {bs} view (suc k) p bytes got e =
    let more : (input.len ≤ p → ⊥) × (is_continuation (input.at p) ≡ true) = ground (arith, e) in
    let inside : p < length bs = omega (arith, more.0, view.len_eq) in
    let next =
      gather-take view k (p + 1) (bytes ++ input.at p ∷ []) got (ground (arith, e, more)) in
    let step : p + 1 ≡ suc p = omega arith in
    next
    ∙ append_assoc bytes (input.at p ∷ []) (take k (drop (p + 1) bs))
    ∙ ap (λ (x : Bytes). bytes ++ x)
        (ap (λ (x : ℕ). x ∷ take k (drop (p + 1) bs)) (view.at_eq p inside)
          ∙ ap (λ (i : ℕ). get_or bs p 0 ∷ take k (drop i bs)) step
          ∙ ap (take (suc k)) (sym (drop-get_or p bs inside)))

-- The result of `one_char` by its two checks.
abbrev checked_char : ℕ → Utf8Check → FirstChar → Result (Option (ℕ × ℕ))
checked_char need u r = elim u [
  | stops_at _ _ ↦ err malformed_utf8
  | all_valid ↦ elim r [
    | char c _ ↦ ok (some (c, need))
    | malformed ↦ err malformed_utf8
    | cut_off ↦ err malformed_utf8
  ]
]

abbrev got_char : ℕ → ℕ → Result (Option (ℕ × ℕ))
got_char c n = ok (some (c, n))

same_char : (x y m l : ℕ) → got_char x m ≡ got_char y l → x ≡ y
same_char x y m l q = ground (arith, q)

checked :
    (need c n : ℕ) (u : Utf8Check) (r : FirstChar)
    → checked_char need u r ≡ ok (some (c, n))
    → (n ≡ need) × ((k : ℕ) × (r ≡ char c k))
checked need c n (stops_at v b) r e = absurd (ground (arith, e))
checked need c n all_valid (char c' k) e =
    (ground (arith, e), (k, ap (λ (x : ℕ). char x k) (same_char c' c need n e)))
checked need c n all_valid malformed e = absurd (ground (arith, e))
checked need c n all_valid cut_off e = absurd (ground (arith, e))

take_front :
    (need p : ℕ) (bs : Bytes)
    → 0 < need
    → p < length bs
    → take need (drop p bs) ≡ get_or bs p 0 ∷ take (need - 1) (drop (p + 1) bs)
take_front zero p bs pos inside = elim pos [ ]
take_front (suc need) p bs pos inside =
    let step : suc p ≡ p + 1 = omega arith in
    let less : need ≡ suc need - 1 = omega arith in
    ap (take (suc need)) (drop-get_or p bs inside)
    ∙ ap (λ (i : ℕ). get_or bs p 0 ∷ take need (drop i bs)) step
    ∙ ap (λ (i : ℕ). get_or bs p 0 ∷ take i (drop (p + 1) bs)) less

after_gather-one :
    (need c n : ℕ) (r : Result (Option Bytes))
    → after_gather need r ≡ ok (some (c, n))
    → (got : Bytes) × ((r ≡ ok (some got)) × (one_char need got ≡ ok (some (c, n))))
after_gather-one need c n (err x) e = absurd (ground (arith, e))
after_gather-one need c n (ok none) e = absurd (ground (arith, e))
after_gather-one need c n (ok (some got)) e = (got, (refl, e))

-- A character cut short by the end of a slice is taken from the ring, and pushed as its bytes there.
char_bytes-encode_utf8 :
    {input : Spans} {bs : Bytes}
    → IsView input bs
    → (need p c n : ℕ) → 0 < need
    → p < length bs
    → ((rest : Bytes) (x k : ℕ) → first_char (get_or bs p 0 ∷ rest) ≡ char x k → k ≡ need)
    → char_bytes need input p ≡ ok (some (c, n))
    → encode_utf8 c ≡ take n (drop p bs)
char_bytes-encode_utf8 {input} {bs} view need p c n pos inside lead e =
    let (got, (gathered, one)) =
      after_gather-one need c n (gather (need - 1) input (p + 1) (input.at p ∷ [])) e in
    let (same, (k, first)) = checked need c n (utf8_check got) (first_char got) one in
    let whole = gather-take view (need - 1) (p + 1) (input.at p ∷ []) got gathered in
    let rest = take (need - 1) (drop (p + 1) bs) in
    let front : got ≡ get_or bs p 0 ∷ rest =
      whole ∙ ap (λ (x : ℕ). x ∷ rest) (view.at_eq p inside) in
    let size : k ≡ need = lead rest c k (ap first_char (sym front) ∙ first) in
    let there : take need (drop p bs) ≡ get_or bs p 0 ∷ rest = take_front need p bs pos inside in
    first_char-encode_utf8 got c k first
    ∙ ap (λ (x : ℕ). take x got) size
    ∙ ap (take need) (front ∙ sym there)
    ∙ take-take_le need need (drop p bs) (omega arith)
    ∙ ap (λ (x : ℕ). take x (drop p bs)) (sym same)

-- The character that `decode_char_at` gives, encoded as UTF-8, is the bytes that it takes.
pub decode_char_at-encode_utf8 :
    {input : Spans} {bs : Bytes}
    → IsView input bs
    → (p c n : ℕ) → p < length bs
    → decode_char_at input p ≡ ok (some (c, n))
    → encode_utf8 c ≡ take n (drop p bs)
unfolding decode_char_at
decode_char_at-encode_utf8 {input} {bs} view p c n inside e =
    let lead = view.at_eq p inside in
    let two = λ (h : within 0xC2 0xDF (get_or bs p 0) ≡ true).
      char_bytes-encode_utf8 view 2 p c n (omega arith) inside
        (λ rest x k. lead_two (get_or bs p 0) rest x k h) in
    let three = λ (h : within 0xE0 0xEF (get_or bs p 0) ≡ true).
      char_bytes-encode_utf8 view 3 p c n (omega arith) inside
        (λ rest x k. lead_three (get_or bs p 0) rest x k h) in
    let four = λ (h : within 0xF0 0xF4 (get_or bs p 0) ≡ true).
      char_bytes-encode_utf8 view 4 p c n (omega arith) inside
        (λ rest x k. lead_four (get_or bs p 0) rest x k h) in
    ground (arith, e, lead, two, three, four)
