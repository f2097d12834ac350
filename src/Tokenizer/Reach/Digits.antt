-- ===== src/Tokenizer/Reach/Digits.antt =====
-- How far a number that goes on over calls, `continue_number` of src/tokenizer.rs, is consumed.
use rjsonparser.Prelude.{
  ℕ, zero, suc, ◌+◌, ◌-◌, ◌*◌, ◌≤◌, ◌<◌, ◌≡◌, refl, ap, inl, inr, Bool, true, false, Bool-cases, [],
  ◌∷◌, Bytes, ltb, ltb→lt, if◌then◌else◌, length, length-append, length-drop, arith,
}
use rjsonparser.Error.{Result, ok, err}
use rjsonparser.Exec.{pure}
use rjsonparser.Loopbuf.{Spans, IsView}
use rjsonparser.Tokenizer.Machine.{Machine, M, Env}
use rjsonparser.Tokenizer.Numbers.{
  digit_of, NumberState, digit_run, take_digit_run, number_byte, NumStep, reject, take_byte,
  finished,
}
use rjsonparser.Tokenizer.Receive.{
  emit_number, number_limit, taken_run, digits_run, after_byte, number_loop, continue_number,
  is_fast,
}
use rjsonparser.Tokenizer.Reach.{Lands, continue-Lands, keep-Lands, check_limit-Keeps}
use rjsonparser.Tokenizer.Escapes.Peek.{behind_span}

digit_run-size :
    (m n : ℕ) (span : Bytes)
    → (n ≤ (digit_run m n span).1) × ((digit_run m n span).1 ≤ n + length span)
unfolding digit_run
digit_run-size m n [] = (omega arith, omega arith)
digit_run-size m n (b ∷ span) = ground (arith, digit_run-size (m * 10 + digit_of b) (n + 1) span)

take_digit_run-size : (s : NumberState) (span : Bytes) → (take_digit_run s span).1 ≤ length span
unfolding take_digit_run
take_digit_run-size s span = ground (arith, digit_run-size s.mantissa 0 span)

span-size :
    {input : Spans} {bs : Bytes}
    → IsView input bs
    → (i : ℕ) → length (input.span_from i) ≤ input.len - i
span-size {input} {bs} view i =
    let (rest, e, _) = behind_span view i in
    omega
      (arith, ap length e, length-append (input.span_from i) rest, length-drop i bs, view.len_eq)

-- From a position on, within the bytes.
abbrev pub Within : ℕ → ℕ → Bool → ℕ → Type 0
Within len from b at = (from ≤ at) × (at ≤ len)

module _ {F H : Type 0} (env : Env F H) where
  abbrev pub Digits : ℕ → Bool → ℕ → Type 0
  Digits from ended at = (from ≤ at) × ((at ≤ env.input.len) × (ended ≡ false → at < env.input.len))

  taken_run-Lands :
      (n : NumberState) (taken : ℕ) (m : Machine H)
      → m.consumed < env.input.len
      → taken ≤ env.input.len - m.consumed
      → Lands m.consumed env.input.len (Digits m.consumed) (taken_run env (n, taken) m)
  taken_run-Lands n taken m h fits = elim (Bool-cases (ltb 0 taken)) [
    | inr none_there ↦ rw none_there (omega arith, (omega (arith, h), λ _. h))
    | inl some_there ↦ rw some_there (
        keep-Lands m.consumed env.input.len (m.consumed + taken) (Digits m.consumed)
          (number_limit env n
            (record m { consumed = m.consumed + taken; tok = record m.tok { number = n } }))
          _ (omega arith) (omega (arith, fits, h))
          ((check_limit-Keeps env.limits.max_number_length n.len
              "Maximum number length exceeded: ").same
            (record m { consumed = m.consumed + taken; tok = record m.tok { number = n } }))
          (λ u x e.
            (omega (arith, e), (omega (arith, e, fits, h), λ not_over. ground (arith, not_over)))))
  ]

  pub digits_run-Lands :
      {bs : Bytes}
      → IsView env.input bs
      → (m : Machine H) → m.consumed < env.input.len
      → Lands m.consumed env.input.len (Digits m.consumed) (digits_run env m)
  digits_run-Lands view m h =
      let taken = take_digit_run m.tok.number (env.input.span_from m.consumed) in
      let fits = take_digit_run-size m.tok.number (env.input.span_from m.consumed) in
      elim (Bool-cases (is_fast m.tok.number)) [
        | inl fast ↦
            rw fast
              (taken_run-Lands taken.0 taken.1 m h (omega (arith, fits, span-size view m.consumed)))
        | inr slow ↦ rw slow (omega arith, (omega (arith, h), λ _. h))
      ]

  emit_number-consumed : (m : Machine H) → (emit_number env.float env.on m).1.consumed ≡ m.consumed
  unfolding emit_number
  emit_number-consumed m = refl

  after_byte-Lands :
      (next : M H Bool) (from : ℕ) (step : NumStep) (m : Machine H)
      → from ≤ m.consumed
      → m.consumed < env.input.len
      → ((x : Machine H)
          → x.consumed ≡ m.consumed + 1
          → Lands from env.input.len (Within env.input.len from) (next x))
      → Lands from env.input.len (Within env.input.len from) (after_byte next env step m)
  after_byte-Lands next from (reject e) m le h go = (le, omega (arith, h))
  after_byte-Lands next from finished m le h go =
      keep-Lands from env.input.len m.consumed (Within env.input.len from)
        (emit_number env.float env.on m) _ le (omega (arith, h)) (emit_number-consumed m)
        (λ u x e. (omega (arith, e, le), omega (arith, e, h)))
  after_byte-Lands next from (take_byte n) m le h go =
      keep-Lands from env.input.len (m.consumed + 1) (Within env.input.len from)
        (number_limit env n
          (record m { consumed = m.consumed + 1; tok = record m.tok { number = n } }))
        _ (omega (arith, le)) (omega (arith, h))
        ((check_limit-Keeps env.limits.max_number_length n.len
            "Maximum number length exceeded: ").same
          (record m { consumed = m.consumed + 1; tok = record m.tok { number = n } }))
        (λ u x e. go x e)

  from_Within :
      (p q : ℕ)
      → p ≤ q
      → (r : Result Bool × Machine H) → Lands q env.input.len (Within env.input.len q) r
      → Lands p env.input.len (Within env.input.len p) r
  from_Within p q le (ok b, m) h = (omega (arith, le, h), h.1)
  from_Within p q le (err e, m) h = (omega (arith, le, h), h.1)

  behind_digits :
      (next : M H Bool) (from : ℕ) (ended : Bool) (m : Machine H)
      → Digits from ended m.consumed
      → ((x : Machine H)
          → m.consumed < env.input.len
          → x.consumed ≡ m.consumed + 1
          → Lands from env.input.len (Within env.input.len from) (next x))
      → Lands from env.input.len (Within env.input.len from) (
          (if ended
              then pure false
              else after_byte next env (number_byte m.tok.number (env.input.at m.consumed)))
            m)
  behind_digits next from true m d go = (d.0, d.1.0)
  behind_digits next from false m d go =
      let more = d.1.1 refl in
      after_byte-Lands next from (number_byte m.tok.number (env.input.at m.consumed)) m d.0 more
        (λ x. go x more)

  number_loop-Lands :
      {bs : Bytes}
      → IsView env.input bs
      → (fuel : ℕ) (m : Machine H) → m.consumed ≤ env.input.len
      → Lands m.consumed env.input.len (Within env.input.len m.consumed) (number_loop fuel env m)
  unfolding number_loop
  number_loop-Lands view zero m le = (omega arith, le)
  number_loop-Lands view (suc fuel) m le = elim (Bool-cases (ltb m.consumed env.input.len)) [
    | inr over ↦ rw over (omega arith, le)
    | inl more ↦ rw more (
        continue-Lands m.consumed env.input.len (Digits m.consumed)
          (Within env.input.len m.consumed) (digits_run env m) _
          (digits_run-Lands view m (ltb→lt m.consumed env.input.len more))
          (λ ended x d. behind_digits (number_loop fuel env) m.consumed ended x d (λ y lt e.
            from_Within m.consumed y.consumed (omega (arith, e, d)) _
              (number_loop-Lands view fuel y (omega (arith, lt, e))))))
  ]

  pub continue_number-Lands :
      {bs : Bytes}
      → IsView env.input bs
      → (m : Machine H) → m.consumed ≤ env.input.len
      → Lands m.consumed env.input.len (Within env.input.len m.consumed) (continue_number env m)
  unfolding continue_number
  continue_number-Lands view m le = number_loop-Lands view (env.input.len - m.consumed + 1) m le
