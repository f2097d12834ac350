-- ===== src/Tokenizer/Delivery/Plain.antt =====
-- Keys without an escape, of `process_key` and `decode_key` in src/tokenizer.rs: decoded, they are their bytes.
use rjsonparser.Prelude.{
  ℕ, zero, suc, ◌+◌, ◌-◌, ◌≤◌, ◌<◌, ◌≡◌, ◌≢◌, sym, ap, ◌∙◌, inl, inr, Bool, Bool-cases, true, false,
  Option, none, [], Bytes, ltb, leb, ◌==◌, ==_iff, length, length-take, length-drop, take, drop,
  get_or, get_or-take, get_or-drop, if◌then◌else◌, arith,
}
use mathlib.Core.Path.{subst}
use rjsonparser.Error.{Result, ok, err}
use rjsonparser.Exec.{continue, fail_if, pure, lift, ◌>>=◌}
use rjsonparser.Loopbuf.{Spans, IsView}
use rjsonparser.Tokenizer.Escapes.{resolve_escape}
use rjsonparser.Tokenizer.Machine.{Machine, M}
use rjsonparser.Tokenizer.ObjectKeys.{
  scan_key, closed_at, key_run, key_escape, decode_key_loop, decode_key,
}
use rjsonparser.Tokenizer.Strings.{ends_run, scan_plain, decode_run, malformed_utf8}
use rjsonparser.Tokenizer.Delivery.{nobody-MakesRoom}
use rjsonparser.Tokenizer.Delivery.Runs.{piece, Says, run-Says}
use rjsonparser.Tokenizer.Reach.Decoding.{Stops, Decoded, decode_run-Decoded}
use rjsonparser.Tokenizer.Reach.Keys.{scan_key-closed}
use rjsonparser.Tokenizer.Reach.Scan.{
  plain_prefix, plain_prefix-le, plain_prefix-ends, scan_plain-plain_prefix,
}

-- Every byte of the range stands for itself.
abbrev pub IsPlain : Spans → ℕ → ℕ → Type 0
IsPlain input p q = (j : ℕ) → p ≤ j → j < q → ends_run (input.at j) ≡ false

-- The scan runs to the end of a plain range.
scan_plain-end :
    {input : Spans} {bs : Bytes}
    → IsView input bs
    → (p q : ℕ) → p ≤ q
    → q ≤ length bs
    → IsPlain input p q
    → scan_plain input p q ≡ q
scan_plain-end {input} {bs} view p q le le' plain =
    let run = take (q - p) (drop p bs) in
    let size : length run ≡ q - p =
      omega (arith, length-take (q - p) (drop p bs), length-drop p bs, le, le') in
    let short = λ (h : plain_prefix run < length run).
      let at_end = plain_prefix-ends run h in
      let same : input.at (p + plain_prefix run) ≡ get_or run (plain_prefix run) 0 =
        view.at_eq (p + plain_prefix run) (omega (arith, h, size, le'))
        ∙ sym (get_or-drop p (plain_prefix run) bs)
        ∙ sym (get_or-take (q - p) (plain_prefix run) (drop p bs) (omega (arith, h, size))) in
      let stands = plain (p + plain_prefix run) (omega arith) (omega (arith, h, size)) in
      let both : ends_run (get_or run (plain_prefix run) 0) ≡ false =
        ap ends_run (sym same) ∙ stands in
      absurd {A = scan_plain input p q ≡ q} (ground (arith, at_end, both)) in
    let found = scan_plain-plain_prefix view p q le le' in
    ground (arith, found, plain_prefix-le run, size, le, short)

-- Behind an escape the scan remembers it.
scan_key-escaped :
    (fuel : ℕ) (input : Spans) (limit : Option ℕ) (start i end : ℕ) (escape : Bool)
    → scan_key fuel input limit start i true ≡ closed_at end escape
    → escape ≡ true
unfolding scan_key
scan_key-escaped zero input limit start i end escape e = ground (arith, e)
scan_key-escaped (suc fuel) input limit start i end escape e = ground (
  arith,
  e,
  scan_key-escaped fuel input limit start (i + 2) end escape,
  scan_key-escaped fuel input limit start (i + 1) end escape,
)

-- A key in which the scan saw no escape is plain.
pub scan_key-IsPlain :
    (fuel : ℕ) (input : Spans) (limit : Option ℕ) (start i end : ℕ)
    → scan_key fuel input limit start i false ≡ closed_at end false
    → IsPlain input i end
unfolding scan_key
scan_key-IsPlain zero input limit start i end e j low high = ground (arith, e)
scan_key-IsPlain (suc fuel) input limit start i end e j low high =
    let escaped = scan_key-escaped fuel input limit start (i + 2) end false in
    elim (Bool-cases (j == i)) [
      | inl same ↦
          let here : ends_run (input.at j) ≡ ends_run (input.at i) =
            ap (λ (k : ℕ). ends_run (input.at k)) ((==_iff j i).0 same) in
          here ∙ ground (arith, e, escaped)
      | inr other ↦
          scan_key-IsPlain fuel input limit start (i + 1) end (ground (arith, e, escaped)) j
            (ground (arith, other, low)) high
    ]

-- A key in which the scan saw an escape has a backslash.
pub scan_key-backslash :
    (fuel : ℕ) (input : Spans) (limit : Option ℕ) (start i end : ℕ)
    → scan_key fuel input limit start i false ≡ closed_at end true
    → ¬ ((j : ℕ) → i ≤ j → j < end → input.at j ≢ b'\\')
unfolding scan_key
scan_key-backslash zero input limit start i end e none_there = ground (arith, e)
scan_key-backslash (suc fuel) input limit start i end e none_there =
    let beyond = scan_key-closed input limit start end true fuel (i + 2) true in
    let on = λ (h : scan_key fuel input limit start (i + 1) false ≡ closed_at end true).
      scan_key-backslash fuel input limit start (i + 1) end h
        (λ j low high. none_there j (omega (arith, low)) high) in
    let here = none_there i (omega arith) in ground (arith, e, beyond, on, here)

-- The plain bytes of a key, decoded into no characters, are the characters.
module _ {H : Type 0} where
  abbrev pub Spelt : Bytes → Result ℕ × Machine H → Type 0
  Spelt bytes (ok u, m) = m.tok.chars ≡ bytes
  Spelt bytes (err e, m) = Unit {0}

  -- What follows the run of the key.
  abbrev finish : Spans → (ℕ → ℕ → M H ℕ) → ℕ → ℕ × ℕ → M H ℕ
  finish input next end reached =
      if leb end reached.0
      then pure (0 + reached.1)
      else (lift (resolve_escape input reached.0) >>= key_escape next reached.0 (0 + reached.1))

  ran_Spelt :
      (input : Spans) (bs : Bytes) (next : ℕ → ℕ → M H ℕ) (c start end : ℕ)
      → (r : Result (ℕ × ℕ) × Machine H) → Decoded c start end r
      → Says (λ _. []) bs [] start r
      → Spelt (piece bs start end) (
          continue
            (continue r (λ reached x.
              continue (fail_if (ltb reached.0 end) malformed_utf8 x) (λ _. pure reached)))
            (finish input next end))
  ran_Spelt input bs next c start end (err e, m) d s = tt
  ran_Spelt input bs next c start end (ok (q, u), m) d s = elim (Bool-cases (ltb q end)) [
    | inl short ↦ rw short tt
    | inr whole ↦
        let there : q ≡ end = ground (arith, whole, d) in
        let done : leb end q ≡ true = ground (arith, there) in
        rw (whole, done) (s.1 ∙ ap (piece bs start) there)
  ]

  round_Spelt :
      {input : Spans} {bs : Bytes}
      → IsView input bs
      → (next : ℕ → ℕ → M H ℕ) (start end : ℕ) (m : Machine H) → m.tok.chars ≡ []
      → start < end
      → end ≤ length bs
      → Stops input end
      → Spelt (piece bs start end) (continue (key_run input start end m) (finish input next end))
  round_Spelt {input} {bs} view next start end m none_yet less le stop =
      let less_is : ltb start end ≡ true = ground (arith, less) in
      rw less_is (
        ran_Spelt input bs next m.consumed start end
          (decode_run {F = Unit {0}} none input start end m)
          (decode_run-Decoded none input start end m stop (omega (arith, less)))
          (subst
            (λ (w : Bytes).
              Says (λ _. []) bs w start (decode_run {F = Unit {0}} none input start end m))
            none_yet
            (run-Says none (λ _. []) (nobody-MakesRoom (λ _. []) (Unit {0})) view start end m stop
              (omega (arith, less)) le)))

  loop_Spelt :
      {input : Spans} {bs : Bytes}
      → IsView input bs
      → (fuel start end : ℕ) (m : Machine H) → m.tok.chars ≡ []
      → start ≤ end
      → end ≤ length bs
      → Stops input end
      → IsPlain input start end
      → Spelt (piece bs start end) (decode_key_loop (suc fuel) input end start 0 m)
  unfolding decode_key_loop
  loop_Spelt {input} {bs} view fuel start end m none_yet le le' stop plain =
      elim (Bool-cases (ltb start end)) [
        | inl more ↦
            rw (more, scan_plain-end view start end le le' plain)
              (round_Spelt view (decode_key_loop fuel input end) start end m none_yet
                (ground (arith, more)) le' stop)
        | inr done ↦
            let nothing : 0 ≡ end - start = ground (arith, done) in
            rw done (none_yet ∙ ap (λ (k : ℕ). take k (drop start bs)) nothing)
      ]

  -- A plain key, decoded where no characters wait, leaves its bytes as the characters.
  pub decode_key-Spelt :
      {input : Spans} {bs : Bytes}
      → IsView input bs
      → (start end : ℕ) (m : Machine H) → m.tok.chars ≡ []
      → start ≤ end
      → end ≤ length bs
      → Stops input end
      → IsPlain input start end
      → Spelt (piece bs start end) (decode_key input start end m)
  unfolding decode_key
  decode_key-Spelt {input} {bs} view start end m none_yet le le' stop plain =
      let fuel : suc (end - start) ≡ end - start + 1 = omega arith in
      subst (λ (k : ℕ). Spelt (piece bs start end) (decode_key_loop k input end start 0 m)) fuel
        (loop_Spelt view (end - start) start end m none_yet le le' stop plain)
