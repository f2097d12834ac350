-- ===== src/Tokenizer/Reach/Scan.antt =====
-- The scan for the end of a plain run of a string, of `scan_plain` in src/tokenizer.rs.
use rjsonparser.Prelude.{
  ℕ, zero, suc, ◌+◌, ◌-◌, ◌≤◌, ◌<◌, ◌≡◌, refl, sym, ap, ◌∙◌, inl, inr, true, Bool-cases, Option,
  Option-cases, leb, leb→le, none, some, [], ◌∷◌, ◌++◌, Bytes, ltb, ltb→lt, if◌then◌else◌, length,
  length-take, take, drop, take_all, get_or, arith, false, length-drop, get_or-drop, get_or-take,
}
use rjsonparser.Loopbuf.{Spans, IsView}
use rjsonparser.Tokenizer.Escapes.Peek.{take-append, behind_span}
use rjsonparser.Tokenizer.Strings.{ends_run, position, scan_loop, scan_plain}

-- How many bytes stand in front of the first that ends a plain run.
pub plain_prefix : Bytes → ℕ
plain_prefix [] = 0
plain_prefix (b ∷ bs) = let rest = plain_prefix bs in if ends_run b then 0 else suc rest

abbrev scanned : Option ℕ → Bytes → ℕ
scanned none bs = length bs
scanned (some k) bs = k

position-plain_prefix : (bs : Bytes) → plain_prefix bs ≡ scanned (position bs) bs
unfolding plain_prefix position
position-plain_prefix [] = refl
position-plain_prefix (b ∷ bs) = ground (arith, position-plain_prefix bs)

abbrev past : Option ℕ → ℕ → Bytes → ℕ
past none n bs = n + plain_prefix bs
past (some k) n bs = k

plain_prefix-append : (xs ys : Bytes) → plain_prefix (xs ++ ys) ≡ past (position xs) (length xs) ys
unfolding plain_prefix position
plain_prefix-append [] ys = omega arith
plain_prefix-append (x ∷ xs) ys = ground (arith, plain_prefix-append xs ys)

pub plain_prefix-le : (bs : Bytes) → plain_prefix bs ≤ length bs
unfolding plain_prefix
plain_prefix-le [] = omega arith
plain_prefix-le (b ∷ bs) = ground (arith, plain_prefix-le bs)

pub plain_prefix-ends :
    (bs : Bytes) → plain_prefix bs < length bs → ends_run (get_or bs (plain_prefix bs) 0) ≡ true
unfolding plain_prefix
plain_prefix-ends [] h = elim h [ ]
plain_prefix-ends (b ∷ bs) h = elim (Bool-cases (ends_run b)) [
  | inl e ↦ rw e e
  | inr e ↦ rw e (plain_prefix-ends bs (ground (arith, e, h)))
]

take_behind :
    (bs : Bytes) (i n : ℕ) (sf rest : Bytes)
    → drop (i + length sf) bs ≡ rest
    → take (n - length sf) rest ≡ take (n - length (take n sf)) (drop (i + length (take n sf)) bs)
take_behind bs i n sf rest e = elim (Bool-cases (leb (length sf) n)) [
  | inl fits ↦ rw (take_all n sf (leb→le (length sf) n fits), e) refl
  | inr over ↦
      let none_left : n - length sf ≡ 0 = ground (arith, over) in
      let all_taken : n - length (take n sf) ≡ 0 = ground (arith, over, length-take n sf) in
      rw (none_left, all_taken) refl
]

-- One span of the loop.
span_step :
    (i n : ℕ) (span rest bs : Bytes) (next : ℕ)
    → bs ≡ span ++ rest
    → next ≡ i + length span + plain_prefix rest
    → elim (position span) [ some k ↦ i + k | none ↦ next ] ≡ i + plain_prefix bs
span_step i n span rest bs next e h =
    rw (e, plain_prefix-append span rest)
      (elim (Option-cases (position span)) [
        | inl none_there ↦ rw none_there (omega (arith, h))
        | inr (k, at_k) ↦ rw at_k refl
      ])

scan_loop-plain_prefix :
    {input : Spans} {bs : Bytes}
    → IsView input bs
    → (fuel i to : ℕ) → i ≤ to
    → to ≤ length bs
    → to < i + fuel
    → scan_loop fuel input i to ≡ i + plain_prefix (take (to - i) (drop i bs))
unfolding scan_loop
scan_loop-plain_prefix view zero i to le le' h = absurd (omega (arith, le, h))
scan_loop-plain_prefix {input} {bs} view (suc fuel) i to le le' h = elim (Bool-cases (ltb i to)) [
  | inl more ↦
      let inside : i < to = ltb→lt i to more in
      let n : ℕ = to - i in
      let sf = input.span_from i in
      let (rest, e, behind) = behind_span view i in
      let pos : 0 < length sf = view.span_pos i (omega (arith, inside, le')) in
      let taken = length-take n sf in
      let same : to - (i + length (take n sf)) ≡ n - length (take n sf) = omega (arith, taken) in
      let next =
        scan_loop-plain_prefix view fuel (i + length (take n sf)) to (omega (arith, inside, taken))
          le' (omega (arith, h, inside, taken, pos)) in
      let rest_same =
        ap (λ (k : ℕ). take k (drop (i + length (take n sf)) bs)) same
        ∙ sym (take_behind bs i n sf rest behind) in
      let onward = next ∙ ap (λ (x : Bytes). i + length (take n sf) + plain_prefix x) rest_same in
      let split = sym (ap (take n) e) ∙ take-append n sf rest in
      rw more
        (span_step i n (take n sf) (take (n - length sf) rest) (take n (drop i bs)) _ split onward)
  | inr done ↦
      let none_left : to - i ≡ 0 = ground (arith, done, le) in
      rw (done, none_left) (omega (arith, plain_prefix-le [], le, none_left))
]

-- `scan_plain` finds the first quote, backslash or control character from a position on, or the end of
-- the range where there is none, however the ring splits the bytes into spans.
pub scan_plain-plain_prefix :
    {input : Spans} {bs : Bytes}
    → IsView input bs
    → (from to : ℕ) → from ≤ to
    → to ≤ length bs
    → scan_plain input from to ≡ from + plain_prefix (take (to - from) (drop from bs))
unfolding scan_plain
scan_plain-plain_prefix view from to le le' =
    scan_loop-plain_prefix view (to - from + 1) from to le le' (omega (arith, le))

plain_prefix-plain : (bs : Bytes) (k : ℕ) → k < plain_prefix bs → ends_run (get_or bs k 0) ≡ false
unfolding plain_prefix
plain_prefix-plain [] k h = elim h [ ]
plain_prefix-plain (b ∷ bs) zero h = ground (arith, h)
plain_prefix-plain (b ∷ bs) (suc k) h = plain_prefix-plain bs k (ground (arith, h))

-- Up to where the scan stops no byte ends the run.
pub scan_plain-plain :
    {input : Spans} {bs : Bytes}
    → IsView input bs
    → (from to i : ℕ) → from ≤ to
    → to ≤ length bs
    → from ≤ i
    → i < scan_plain input from to
    → ends_run (input.at i) ≡ false
scan_plain-plain {input} {bs} view from to i le le' low h =
    let n : ℕ = to - from in
    let run = take n (drop from bs) in
    let size : length run ≡ n =
      omega (arith, length-take n (drop from bs), length-drop from bs, le, le') in
    let stop = scan_plain-plain_prefix view from to le le' in
    let k : ℕ = i - from in
    let before : k < plain_prefix run = omega (arith, h, stop, low) in
    let inside : k < n = omega (arith, before, plain_prefix-le run, size) in
    let there : from + k ≡ i = omega (arith, low) in
    ap ends_run (
      view.at_eq i (omega (arith, inside, low, le'))
      ∙ ap (λ (j : ℕ). get_or bs j 0) (sym there)
      ∙ sym (get_or-drop from k bs)
      ∙ sym (get_or-take n k (drop from bs) inside))
    ∙ plain_prefix-plain run k before
