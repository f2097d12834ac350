-- ===== src/Tokenizer/Nesting/Receiving.antt =====
-- `receive` of src/tokenizer.rs keeps the nesting, through all the rounds of a call.
use rjsonparser.Prelude.{
  ℕ, zero, suc, ◌+◌, ◌-◌, ◌*◌, refl, Bool, true, false, ltb, leb, if◌then◌else◌, length, take,
}
use rjsonparser.Error.{Result}
use rjsonparser.Exec.{modify}
use rjsonparser.Handler.{number_value, whitespace}
use rjsonparser.Locator
use rjsonparser.Locator.{SharedLocator}
use rjsonparser.Tokenizer.Machine.{after_value, Tokenizer, Machine, Env, M, update}
use rjsonparser.Tokenizer.Triple.{
  After, Triple, bind-Triple, then-Triple, update-Triple, report-Triple, pure-Triple,
  consume-Triple, add_column-Triple,
}
use rjsonparser.Tokenizer.Nesting.Decoding.{read-Triple, raise-Triple, when-Triple, choose-Triple}
use rjsonparser.Tokenizer.Numbers.{
  NumberState, NumStep, reject, take_byte, finished, number_byte, no_stage, take_digit_run,
  integer_value, real_value,
}
use rjsonparser.Tokenizer.Receive.{
  space_loop, is_space, is_fast, in_number, report_spaces, process_whitespace, emit_number,
  taken_run, digits_run, after_byte, number_loop, continue_number, receive_round, receive_loop,
  receive,
}
use rjsonparser.Tokenizer.Nesting.Content.{continue_string-IsNested, check_limit-Triple}
use rjsonparser.Tokenizer.Nesting.Preserved.{process_token-IsNested}
use rjsonparser.Tokenizer.Nesting.{IsNested}

After-choice :
    {H : Type 0} (Q : Bool → Tokenizer → Type 0) (b : Bool) (x y : Result Bool × Machine H)
    → After Q x
    → After Q y
    → After Q (if b then x else y)
After-choice Q true x y h k = h
After-choice Q false x y h k = k

module _ {F H : Type 0} (env : Env F H) where
  abbrev Keeps : {A : Type 0} → M H A → Type 0
  Keeps action = Triple (IsNested env.limits) action (λ _. IsNested env.limits)

  number_update : (n : NumberState) → Keeps (update (λ t. record t { number = n }))
  number_update n =
      update-Triple (λ t. record t { number = n })
        (λ t h. record {
          stacked = record {
            mirrors = h.stacked.mirrors;
            bounded = h.stacked.bounded;
            key_sets = h.stacked.key_sets;
          };
          state_fits = h.state_fits;
        })

  emit_number-IsNested : Keeps (emit_number env.float env.on)
  unfolding emit_number
  emit_number-IsNested =
      bind-Triple (λ _. IsNested env.limits) (read-Triple (λ m. m.tok.number))
        (λ n.
          then-Triple (IsNested env.limits)
            (update-Triple
              (λ t. record t { number = record t.number { stage = no_stage }; state = after_value })
              (λ t h. record {
                stacked = record {
                  mirrors = h.stacked.mirrors;
                  bounded = h.stacked.bounded;
                  key_sets = h.stacked.key_sets;
                };
                state_fits = refl;
              }))
            (then-Triple (IsNested env.limits) (add_column-Triple n.len) (
              report-Triple env.on
                (number_value (if n.is_real then real_value env.float n else integer_value n)))))

  taken_run-IsNested : (taken : NumberState × ℕ) → Keeps (taken_run env taken)
  taken_run-IsNested (n, taken) =
      choose-Triple (ltb 0 taken)
        (then-Triple (IsNested env.limits) (number_update n) (
          then-Triple (IsNested env.limits) (consume-Triple taken) (
            then-Triple (IsNested env.limits)
              (check_limit-Triple env.limits.max_number_length n.len
                "Maximum number length exceeded: ")
              (read-Triple (λ m. leb env.input.len m.consumed)))))
        (pure-Triple false)

  digits_run-IsNested : Keeps (digits_run env)
  digits_run-IsNested =
      bind-Triple (λ _. IsNested env.limits) (read-Triple (λ m. m))
        (λ m.
          choose-Triple (is_fast m.tok.number)
            (taken_run-IsNested (take_digit_run m.tok.number (env.input.span_from m.consumed)))
            (pure-Triple false))

  after_byte-IsNested :
      (next : M H Bool) (step : NumStep) → Keeps next → Keeps (after_byte next env step)
  after_byte-IsNested next (reject e) h = raise-Triple e
  after_byte-IsNested next finished h =
      then-Triple (IsNested env.limits) emit_number-IsNested (pure-Triple true)
  after_byte-IsNested next (take_byte n) h = then-Triple (IsNested env.limits) (number_update n) (
      then-Triple (IsNested env.limits) (consume-Triple 1) (
        then-Triple (IsNested env.limits)
          (check_limit-Triple env.limits.max_number_length n.len "Maximum number length exceeded: ")
          h))

  number_loop-IsNested : (fuel : ℕ) → Keeps (number_loop fuel env)
  unfolding number_loop
  number_loop-IsNested zero = record { run = λ m p. tt }
  number_loop-IsNested (suc fuel) =
      bind-Triple (λ _. IsNested env.limits) (read-Triple (λ m. m.consumed))
        (λ at.
          choose-Triple (ltb at env.input.len)
            (bind-Triple (λ _. IsNested env.limits) digits_run-IsNested
              (λ ended.
                bind-Triple (λ _. IsNested env.limits) (read-Triple (λ m. m))
                  (λ m. choose-Triple ended (pure-Triple false) (
                    after_byte-IsNested (number_loop fuel env)
                      (number_byte m.tok.number (env.input.at m.consumed))
                      (number_loop-IsNested fuel)))))
            (pure-Triple false))

  continue_number-IsNested : Keeps (continue_number env)
  unfolding continue_number
  continue_number-IsNested =
      bind-Triple (λ _. IsNested env.limits) (read-Triple (λ m. m.consumed))
        (λ at. number_loop-IsNested (env.input.len - at + 1))

  report_spaces-IsNested : (fuel q p : ℕ) → Keeps (report_spaces fuel env q p)
  unfolding report_spaces
  report_spaces-IsNested zero q p = pure-Triple tt
  report_spaces-IsNested (suc fuel) q p =
      choose-Triple (ltb q p)
        (then-Triple (IsNested env.limits)
          (report-Triple env.on (whitespace (take (p - q) (env.input.span_from q))))
          (report_spaces-IsNested fuel (q + length (take (p - q) (env.input.span_from q))) p))
        (pure-Triple tt)

  moved :
      (l : Machine H → SharedLocator) (cr : Bool) (p : ℕ)
      → Keeps (
          modify
            (λ m. record m { locator = l m; tok = record m.tok { after_cr = cr }; consumed = p }))
  moved l cr p = record {
    run = λ m h. record {
      stacked = record {
        mirrors = h.stacked.mirrors;
        bounded = h.stacked.bounded;
        key_sets = h.stacked.key_sets;
      };
      state_fits = h.state_fits;
    };
  }

  process_whitespace-IsNested : Keeps (process_whitespace env)
  unfolding process_whitespace
  process_whitespace-IsNested =
      bind-Triple (λ _. IsNested env.limits) (read-Triple (λ m. m))
        (λ m.
          (let end = space_loop (env.input.len - m.consumed) env.input (record {
            line = m.locator.line;
            column = m.locator.column;
            after_cr = m.tok.after_cr;
            p = m.consumed;
          }) in
            then-Triple (IsNested env.limits)
              (moved (λ n. Locator.set_column (Locator.set_line n.locator end.line) end.column)
                end.after_cr end.p)
              (when-Triple m.tok.needs_whitespace
                (report_spaces-IsNested (end.p - m.consumed) m.consumed end.p))))

  forget_cr : Keeps (update (λ t. record t { after_cr = false }))
  forget_cr =
      update-Triple (λ t. record t { after_cr = false })
        (λ t h. record {
          stacked = record {
            mirrors = h.stacked.mirrors;
            bounded = h.stacked.bounded;
            key_sets = h.stacked.key_sets;
          };
          state_fits = h.state_fits;
        })

  receive_round-IsNested : Keeps (receive_round env)
  unfolding receive_round
  receive_round-IsNested = record {
    run = λ m p.
        (let b = env.input.at m.consumed in
          After-choice (λ _. IsNested env.limits) m.tok.in_string _ _
            ((continue_string-IsNested env).run m p)
            (After-choice (λ _. IsNested env.limits) (in_number m.tok.number.stage) _ _
              (continue_number-IsNested.run m p)
              (After-choice (λ _. IsNested env.limits) (is_space b) _ _
                ((then-Triple (IsNested env.limits) process_whitespace-IsNested
                    (pure-Triple true)).run
                  m p)
                ((then-Triple (IsNested env.limits) forget_cr (process_token-IsNested env b)).run m
                  p))));
  }

  receive_loop-IsNested : (fuel : ℕ) → Keeps (receive_loop fuel env)
  unfolding receive_loop
  receive_loop-IsNested zero = record { run = λ m p. tt }
  receive_loop-IsNested (suc fuel) =
      bind-Triple (λ _. IsNested env.limits) (read-Triple (λ m. m.consumed))
        (λ at.
          choose-Triple (ltb at env.input.len)
            (bind-Triple (λ _. IsNested env.limits) receive_round-IsNested
              (λ more. choose-Triple more (receive_loop-IsNested fuel) (pure-Triple tt)))
            (pure-Triple tt))

  -- A call of `receive` that returns `Ok` keeps the nesting well-formed, for any input and handler: the two
  -- stacks of open objects and arrays agree, they are no deeper than the limit, there is one set of keys
  -- for each open object where duplicates are rejected, and a key or a colon is expected only in an
  -- object.
  pub receive-IsNested : Triple (IsNested env.limits) (receive env) (λ _. IsNested env.limits)
  unfolding receive
  receive-IsNested =
      bind-Triple (λ _. IsNested env.limits) (read-Triple (λ m. m.consumed))
        (λ at. receive_loop-IsNested (2 * (env.input.len - at) + 2))
