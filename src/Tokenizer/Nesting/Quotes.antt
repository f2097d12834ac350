-- ===== src/Tokenizer/Nesting/Quotes.antt =====
-- A quote, the first arm of `process_token` in src/tokenizer.rs, keeps the nesting.
use rjsonparser.Prelude.{◌∙◌, ◌≡◌, refl, Bool, true, false, ◌||◌, [], if◌then◌else◌, arith, ap, sym}
use rjsonparser.Error.{new}
use rjsonparser.Limits.{ParserLimits}
use rjsonparser.Handler.{start_string_value}
use rjsonparser.Tokenizer.Machine.{
  State, expect_key, expect_colon, expect_value, after_value, Tokenizer, Env, M,
}
use rjsonparser.Tokenizer.Tokens.{on_quote, string_start, key_done, state_is}
use rjsonparser.Tokenizer.Triple.{
  Blind, weaken, consume-Triple, add_column-Triple, Triple, bind-Triple, then-Triple, update-Triple,
  report-Triple, token_done-Triple, pure-Triple,
}
use rjsonparser.Tokenizer.Nesting.Arms.{reading, guard, keeping}
use rjsonparser.Tokenizer.Nesting.Decoding.{chars-Kept, Kept}
use rjsonparser.Tokenizer.Nesting.Keys.{ensure_chars-Kept, process_key-Kept}
use rjsonparser.Tokenizer.Nesting.{fits_state, IsNested, IsStacked-Blind}

state_is_key : (s : State) → state_is s expect_key ≡ true → s ≡ expect_key
state_is_key expect_key h = refl
state_is_key expect_value h = ground (arith, h)
state_is_key expect_colon h = ground (arith, h)
state_is_key after_value h = ground (arith, h)

choose_knowing :
    {H : Type 0} {P : Tokenizer → Type 0} {yes no : M H Bool} {Q : Bool → Tokenizer → Type 0}
    (b : Bool)
    → (b ≡ true → Triple P yes Q)
    → (b ≡ false → Triple P no Q)
    → Triple P (if b then yes else no) Q
choose_knowing true y n = y refl
choose_knowing false y n = n refl

pub IsNested-Blind : {limits : ParserLimits} → Blind (IsNested limits)
IsNested-Blind t seen n h = record {
  stacked = IsStacked-Blind t seen n h.stacked;
  state_fits = h.state_fits;
}

module _ {F H : Type 0} where
  key_done-IsNested :
      (env : Env F H) (complete : Bool)
      → Triple (Kept env.limits expect_key) (key_done env complete) (λ _. IsNested env.limits)
  key_done-IsNested env false = record { run = λ m p. p.0 }
  key_done-IsNested env true =
      then-Triple (Kept env.limits expect_key)
        (token_done-Triple (λ t seen n h. (IsNested-Blind t seen n h.0, h.1)) env.limits)
        (then-Triple (IsNested env.limits)
          (update-Triple (λ t. record t { after_comma = false; state = expect_colon })
            (λ u h. record {
              stacked = record {
                mirrors = h.0.stacked.mirrors;
                bounded = h.0.stacked.bounded;
                key_sets = h.0.stacked.key_sets;
              };
              state_fits =
                  ap (λ (s : State). fits_state s u.context_stack) (sym h.1) ∙ h.0.state_fits;
            }))
          (pure-Triple true))

  -- The state stays what it was.
  string_start-Kept :
      (env : Env F H) (s : State)
      → Triple (Kept env.limits s) (string_start env) (λ _. Kept env.limits s)
  unfolding string_start
  string_start-Kept env s = then-Triple (Kept env.limits s) (consume-Triple 1) (
      then-Triple (Kept env.limits s) (add_column-Triple 1) (
        then-Triple (Kept env.limits s) (ensure_chars-Kept env.limits s) (
          then-Triple (Kept env.limits s)
            (update-Triple (λ t. record t { chars = [] }) (λ t h. chars-Kept t [] t.chars_cap h))
            (then-Triple (Kept env.limits s) (report-Triple env.on start_string_value) (
              then-Triple (Kept env.limits s)
                (update-Triple (λ t. record t { in_string = true; string_bytes = 0 })
                  (λ u h. (
                    record {
                      stacked = record {
                        mirrors = h.0.stacked.mirrors;
                        bounded = h.0.stacked.bounded;
                        key_sets = h.0.stacked.key_sets;
                      };
                      state_fits = h.0.state_fits;
                    },
                    h.1,
                  )))
                (then-Triple (Kept env.limits s)
                  (token_done-Triple (λ t seen n h. (IsNested-Blind t seen n h.0, h.1)) env.limits)
                  (then-Triple (Kept env.limits s)
                    (update-Triple (λ t. record t { after_comma = false })
                      (λ u h. (
                        record {
                          stacked = record {
                            mirrors = h.0.stacked.mirrors;
                            bounded = h.0.stacked.bounded;
                            key_sets = h.0.stacked.key_sets;
                          };
                          state_fits = h.0.state_fits;
                        },
                        h.1,
                      )))
                    (pure-Triple true))))))))

  pub on_quote-IsNested :
      (env : Env F H) → Triple (IsNested env.limits) (on_quote env) (λ _. IsNested env.limits)
  unfolding on_quote
  on_quote-IsNested env = reading (λ t.
      guard (state_is t.state expect_colon || state_is t.state after_value)
        (new "Unexpected string")
        (keeping (Kept env.limits t.state)
          (λ u p. (p.0.0, ap (λ (v : Tokenizer). v.state) (sym p.0.1)))
          (choose_knowing (state_is t.state expect_key)
            (λ at_key.
              keeping (Kept env.limits expect_key) (λ u p. (p.0, p.1 ∙ state_is_key t.state at_key))
                (bind-Triple (λ _. Kept env.limits expect_key)
                  (process_key-Kept env.limits expect_key env)
                  (λ complete. key_done-IsNested env complete)))
            (λ other. weaken (string_start-Kept env t.state) (λ _ u p. p.0)))))
