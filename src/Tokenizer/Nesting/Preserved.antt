-- ===== src/Tokenizer/Nesting/Preserved.antt =====
-- `process_token` of src/tokenizer.rs keeps the nesting.
use rjsonparser.Prelude.{
  ℕ, ◌-◌, ◌+◌, refl, Bool, true, false, not, ◌&&◌, ◌||◌, [], ◌∷◌, Bytes, ltb, leb, ◌==◌,
  if◌then◌else◌, length, Option, none, some, arith,
}
use rjsonparser.Error.{new, new_number, ParseError}
use rjsonparser.Limits.{ParserLimits}
use rjsonparser.Exec.{◌>>◌, pure, gets, raise}
use rjsonparser.Handler.{ContentHandler, null_value, boolean_value}
use rjsonparser.Tokenizer.Machine.{
  new_tokenizer, expect_value, after_value, Tokenizer, Env, M, update,
}
use rjsonparser.Tokenizer.Tokens.{
  process_token, on_literal, process_literal, on_number, literal_matches, report_literal, state_is,
}
use rjsonparser.Tokenizer.Numbers.{start}
use rjsonparser.Tokenizer.Triple.{
  consume-Triple, consume_to-Triple, add_column-Triple, Triple, bind-Triple, then-Triple,
  update-Triple, report-Triple, token_done-Triple, pure-Triple,
}
use rjsonparser.Tokenizer.Nesting.Arms.{
  on_colon-IsNested, on_comma-IsNested, reading, guard, keeping,
}
use rjsonparser.Tokenizer.Nesting.Brackets.{
  on_open_object-IsNested, on_open_array-IsNested, on_close_object-IsNested,
  on_close_array-IsNested,
}
use rjsonparser.Tokenizer.Nesting.Quotes.{on_quote-IsNested}
use rjsonparser.Tokenizer.Nesting.{bottom, IsNested, IsStacked, IsStacked-Blind, Within}

module _ {H : Type 0} where
  -- Reading a position changes nothing.
  consumed-Triple : {P : Tokenizer → Type 0} → Triple {H = H} P (gets (λ m. m.consumed)) (λ _. P)
  consumed-Triple = record { run = λ m p. p }

  if-Triple :
      {P : Tokenizer → Type 0} {yes no : M H Bool} {Q : Bool → Tokenizer → Type 0} (b : Bool)
      → Triple P yes Q
      → Triple P no Q
      → Triple P (if b then yes else no) Q
  if-Triple true y n = y
  if-Triple false y n = n

  raise-Triple :
      {P : Tokenizer → Type 0} {Q : Bool → Tokenizer → Type 0} (e : ParseError)
      → Triple {H = H} P (raise e) Q
  raise-Triple e = record { run = λ m p. tt }

module _ {F H : Type 0} where
  report_literal-Triple :
      {P : Tokenizer → Type 0} (on : ContentHandler F H) (value : Option Bool)
      → Triple {H = H} P (report_literal on value) (λ _. P)
  report_literal-Triple on none = report-Triple on null_value
  report_literal-Triple on (some v) = report-Triple on (boolean_value v)

  literal_end :
      (env : Env F H) (value : Option Bool)
      → Triple {H = H}
          (IsStacked env.limits)
          (update (λ t. record t { after_comma = false; state = after_value })
            >> (report_literal env.on value >> pure true))
          (λ _. IsNested env.limits)
  literal_end env value =
      then-Triple (IsNested env.limits)
        (update-Triple (λ t. record t { after_comma = false; state = after_value })
          (λ t h. record {
            stacked = record { mirrors = h.mirrors; bounded = h.bounded; key_sets = h.key_sets };
            state_fits = refl;
          }))
        (then-Triple (IsNested env.limits) (report_literal-Triple env.on value) (pure-Triple true))

  process_literal-IsNested :
      (env : Env F H) (rest : Bytes) (value : Option Bool)
      → Triple (IsNested env.limits) (process_literal env rest value) (λ _. IsNested env.limits)
  unfolding process_literal
  process_literal-IsNested env rest value =
      bind-Triple (λ _. IsNested env.limits) consumed-Triple
        (λ at. guard (not (literal_matches env.input (at + 1) rest)) (new "Invalid literal") (
          if-Triple (ltb (env.input.len - (at + 1)) (length rest))
            (keeping (IsNested env.limits) (λ t p. p.0) (pure-Triple false))
            (keeping (IsStacked env.limits) (λ t p. p.0.stacked)
              (then-Triple (IsStacked env.limits) (consume_to-Triple (at + 1 + length rest)) (
                then-Triple (IsStacked env.limits) (add_column-Triple (1 + length rest)) (
                  then-Triple (IsStacked env.limits) (token_done-Triple IsStacked-Blind env.limits)
                    (literal_end env value)))))))

  on_literal-IsNested :
      (env : Env F H) (e : ParseError) (rest : Bytes) (value : Option Bool)
      → Triple (IsNested env.limits) (on_literal env e rest value) (λ _. IsNested env.limits)
  on_literal-IsNested env e rest value = reading (λ t.
      guard (not (state_is t.state expect_value)) e
        (keeping (IsNested env.limits) (λ u p. p.0.0) (process_literal-IsNested env rest value)))

  on_number-IsNested :
      (env : Env F H) (b : ℕ)
      → Triple (IsNested env.limits) (on_number env b) (λ _. IsNested env.limits)
  unfolding on_number
  on_number-IsNested env b = reading (λ t.
      guard (not (state_is t.state expect_value)) (new "Unexpected number") (
        keeping (IsNested env.limits) (λ u p. p.0.0)
          (then-Triple (IsNested env.limits)
            (update-Triple (λ u. record u { number = start b })
              (λ u h. record {
                stacked = record {
                  mirrors = h.stacked.mirrors;
                  bounded = h.stacked.bounded;
                  key_sets = h.stacked.key_sets;
                };
                state_fits = h.state_fits;
              }))
            (then-Triple (IsNested env.limits) (consume-Triple 1) (
              then-Triple (IsNested env.limits)
                (token_done-Triple
                  (λ t seen n h. record {
                    stacked = IsStacked-Blind t seen n h.stacked;
                    state_fits = h.state_fits;
                  })
                  env.limits)
                (then-Triple (IsNested env.limits)
                  (update-Triple (λ u. record u { after_comma = false })
                    (λ u h. record {
                      stacked = record {
                        mirrors = h.stacked.mirrors;
                        bounded = h.stacked.bounded;
                        key_sets = h.stacked.key_sets;
                      };
                      state_fits = h.state_fits;
                    }))
                  (pure-Triple true)))))))

  -- Every token keeps the nesting well-formed, if the call returns `Ok`: the two stacks of open objects
  -- and arrays agree, they are no deeper than the limit, there is one set of keys for each open object
  -- where duplicates are rejected, and a key or a colon is expected only in an object.
  pub process_token-IsNested :
      (env : Env F H) (b : ℕ)
      → Triple (IsNested env.limits) (process_token env b) (λ _. IsNested env.limits)
  unfolding process_token
  process_token-IsNested env b = if-Triple (b == b'"') (on_quote-IsNested env) (
      if-Triple (b == b',') (on_comma-IsNested env) (
        if-Triple (b == b':') (on_colon-IsNested env) (
          if-Triple (b == b'{') (on_open_object-IsNested env) (
            if-Triple (b == b'}') (on_close_object-IsNested env) (
              if-Triple (b == b'[') (on_open_array-IsNested env) (
                if-Triple (b == b']') (on_close_array-IsNested env) (
                  if-Triple (b == b't')
                    (on_literal-IsNested env (new "Unexpected 'true'") (b'r' ∷ b'u' ∷ b'e' ∷ [])
                      (some true))
                    (if-Triple (b == b'f')
                      (on_literal-IsNested env (new "Unexpected 'false'")
                        (b'a' ∷ b'l' ∷ b's' ∷ b'e' ∷ []) (some false))
                      (if-Triple (b == b'n')
                        (on_literal-IsNested env (new "Unexpected 'null'") (b'u' ∷ b'l' ∷ b'l' ∷ [])
                          none)
                        (if-Triple (b == b'-' || leb b'0' b && leb b b'9')
                          (on_number-IsNested env b)
                          (raise-Triple (new_number "Unexpected character: " b))))))))))))

Within-zero : (limit : Option ℕ) → Within limit 0
Within-zero none = tt
Within-zero (some max) = omega arith

-- A new tokenizer is well-formed in this sense under any limits.
pub new_tokenizer-IsNested :
    (limits : ParserLimits) (reject spaces : Bool) (chunk : ℕ)
    → IsNested limits (new_tokenizer reject spaces chunk)
unfolding new_tokenizer
new_tokenizer-IsNested limits reject spaces chunk = record {
  stacked = record {
    mirrors = bottom;
    bounded = Within-zero limits.max_nesting_depth;
    key_sets = λ r. refl;
  };
  state_fits = refl;
}
