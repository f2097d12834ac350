-- ===== src/Tokenizer/Tokens.antt =====
-- Tokens, of src/tokenizer.rs: `process_token` with an action for each of its arms, `check_depth`,
-- `process_literal`, `process_whitespace`, `continue_number`, `emit_number` and `end_of_input`.
use rjsonparser.Prelude.{
  ℕ, ◌+◌, ◌-◌, Bool, true, false, not, ◌&&◌, ◌||◌, List, [], ◌∷◌, Bytes, ltb, leb, ◌==◌,
  if◌then◌else◌, length, Option, none, some,
}
use rjsonparser.Error.{ParseError, new, new_number}
use rjsonparser.Exec.{pure, raise, gets, fail_if, ◌>>=◌, ◌>>◌}
use rjsonparser.Handler.{
  ContentHandler, start_object, end_object, start_array, end_array, start_string_value,
  boolean_value, null_value,
}
use rjsonparser.Limits.{ParserLimits}
use rjsonparser.Loopbuf.{Spans}
use rjsonparser.Tokenizer.Machine.{
  nest_object, nest_array, Context, in_array, in_object, State, expect_value, expect_key,
  expect_colon, after_value, Tokenizer, Env, M, report, update, add_column, consume_to, consume,
  ensure_chars, token_done,
}
use rjsonparser.Tokenizer.Numbers.{start}
use rjsonparser.Tokenizer.ObjectKeys.{process_key}

abbrev pub state_is : State → State → Bool
state_is expect_value expect_value = true
state_is expect_key expect_key = true
state_is expect_colon expect_colon = true
state_is after_value after_value = true
state_is _ _ = false

-- `context_stack.last() == Some(&context)`
abbrev pub top_is_object : List Context → Bool
top_is_object (in_object ∷ _) = true
top_is_object _ = false

abbrev pub top_is_array : List Context → Bool
top_is_array (in_array ∷ _) = true
top_is_array _ = false

abbrev pub is_empty {ℓ} : {A : Type ℓ} → List A → Bool
is_empty [] = true
is_empty (x ∷ xs) = false

abbrev pub pop {ℓ} : {A : Type ℓ} → List A → List A
pop [] = []
pop (x ∷ xs) = xs

-- The bytes of a literal that are there are compared.
pub literal_matches : Spans → ℕ → Bytes → Bool
literal_matches input i [] = true
literal_matches input i (e ∷ es) =
    let rest = literal_matches input (i + 1) es in
    if ltb i input.len then input.at i == e && rest else true

module _ {H : Type 0} where
  abbrev pub get_tok : M H Tokenizer
  get_tok = gets (λ m. m.tok)

  abbrev pub advance : M H (Unit {0})
  advance = do consume 1; add_column 1

  abbrev pub depth_below : Option ℕ → M H (Unit {0})
  depth_below none = pure tt
  depth_below (some max_depth) = do
    t ← get_tok
    fail_if (leb max_depth (length t.depth_stack))
        (new_number "Maximum nesting depth exceeded: " max_depth)

  unfoldable pub check_depth : ParserLimits → M H (Unit {0})
  check_depth limits = depth_below limits.max_nesting_depth

module _ {F H : Type 0} where
  unfoldable pub string_start : Env F H → M H Bool
  unfolding ensure_chars
  string_start env = do
    consume 1
    add_column 1
    ensure_chars
    update (λ t. record t { chars = [] })
    report env.on start_string_value
    update (λ t. record t { in_string = true; string_bytes = 0 })
    token_done env.limits
    update (λ t. record t { after_comma = false })
    pure true

  abbrev pub key_done : Env F H → Bool → M H Bool
  key_done env false = pure false
  key_done env true = do
    token_done env.limits
    update (λ t. record t { after_comma = false; state = expect_colon })
    pure true

  unfoldable pub on_quote : Env F H → M H Bool
  on_quote env = do
    t ← get_tok
    fail_if (state_is t.state expect_colon || state_is t.state after_value)
        (new "Unexpected string")
    (if state_is t.state expect_key
        then (do complete ← process_key env; key_done env complete)
        else string_start env)

  unfoldable pub on_comma : Env F H → M H Bool
  on_comma env = do
    t ← get_tok
    fail_if (not (state_is t.state after_value)) (new "Unexpected ','")
    fail_if (is_empty t.context_stack) (new "Unexpected comma at root level")
    advance
    token_done env.limits
    update (λ u. record u {
      after_comma = true;
      state = if top_is_object u.context_stack then expect_key else expect_value;
    })
    pure true

  unfoldable pub on_colon : Env F H → M H Bool
  on_colon env = do
    t ← get_tok
    fail_if (not (state_is t.state expect_colon)) (new "Unexpected ':'")
    advance
    token_done env.limits
    update (λ u. record u { after_comma = false; state = expect_value })
    pure true

  unfoldable pub on_open_object : Env F H → M H Bool
  unfolding check_depth
  on_open_object env = do
    t ← get_tok
    fail_if (not (state_is t.state expect_value)) (new "Unexpected '{'")
    check_depth env.limits
    advance
    report env.on start_object
    update (λ u. record u {
      context_stack = in_object ∷ u.context_stack;
      depth_stack = nest_object ∷ u.depth_stack;
      duplicate_key_stack =
          if u.reject_duplicate_keys then [] ∷ u.duplicate_key_stack else u.duplicate_key_stack;
    })
    token_done env.limits
    update (λ u. record u { after_comma = false; state = expect_key })
    pure true

  unfoldable pub on_close_object : Env F H → M H Bool
  on_close_object env = do
    t ← get_tok
    fail_if (not (top_is_object t.context_stack)) (new "Unexpected '}'")
    fail_if (not (state_is t.state expect_key) && not (state_is t.state after_value))
        (new "Unexpected '}'")
    fail_if t.after_comma (new "Trailing comma before '}'")
    advance
    report env.on end_object
    update (λ u. record u {
      context_stack = pop u.context_stack;
      depth_stack = pop u.depth_stack;
      duplicate_key_stack =
          if u.reject_duplicate_keys then pop u.duplicate_key_stack else u.duplicate_key_stack;
    })
    token_done env.limits
    update (λ u. record u { after_comma = false; state = after_value })
    pure true

  unfoldable pub on_open_array : Env F H → M H Bool
  unfolding check_depth
  on_open_array env = do
    t ← get_tok
    fail_if (not (state_is t.state expect_value)) (new "Unexpected '['")
    check_depth env.limits
    advance
    report env.on start_array
    update (λ u. record u {
      context_stack = in_array ∷ u.context_stack;
      depth_stack = nest_array ∷ u.depth_stack;
    })
    token_done env.limits
    update (λ u. record u { after_comma = false; state = expect_value })
    pure true

  unfoldable pub on_close_array : Env F H → M H Bool
  on_close_array env = do
    t ← get_tok
    fail_if (not (top_is_array t.context_stack)) (new "Unexpected ']'")
    fail_if (not (state_is t.state expect_value) && not (state_is t.state after_value))
        (new "Unexpected ']'")
    fail_if t.after_comma (new "Trailing comma before ']'")
    advance
    report env.on end_array
    update (λ u. record u { context_stack = pop u.context_stack; depth_stack = pop u.depth_stack })
    token_done env.limits
    update (λ u. record u { after_comma = false; state = after_value })
    pure true

  abbrev pub report_literal : ContentHandler F H → Option Bool → M H (Unit {0})
  report_literal on none = report on null_value
  report_literal on (some v) = report on (boolean_value v)

  -- A literal, whose first byte has been seen, with the rest of its bytes.
  unfoldable pub process_literal : Env F H → Bytes → Option Bool → M H Bool
  unfolding literal_matches
  process_literal env rest value = do
    at ← gets (λ m. m.consumed)
    fail_if (not (literal_matches env.input (at + 1) rest)) (new "Invalid literal")
    (if ltb (env.input.len - (at + 1)) (length rest) then pure false else (do
      consume_to (at + 1 + length rest)
      add_column (1 + length rest)
      token_done env.limits
      update (λ t. record t { after_comma = false; state = after_value })
      report_literal env.on value
      pure true))

  abbrev pub on_literal : Env F H → ParseError → Bytes → Option Bool → M H Bool
  on_literal env unexpected rest value = do
    t ← get_tok
    fail_if (not (state_is t.state expect_value)) unexpected
    process_literal env rest value

  unfoldable pub on_number : Env F H → ℕ → M H Bool
  on_number env b = do
    t ← get_tok
    fail_if (not (state_is t.state expect_value)) (new "Unexpected number")
    update (λ u. record u { number = start b })
    consume 1
    token_done env.limits
    update (λ u. record u { after_comma = false })
    pure true

  unfoldable pub process_token : Env F H → ℕ → M H Bool
  unfolding on_quote on_comma on_colon on_open_object on_close_object on_open_array on_close_array
      process_literal on_number
  process_token env b =
      if b == b'"'
      then on_quote env
      else if b == b','
      then on_comma env
      else if b == b':'
      then on_colon env
      else if b == b'{'
      then on_open_object env
      else if b == b'}'
      then on_close_object env
      else if b == b'['
      then on_open_array env
      else if b == b']'
      then on_close_array env
      else if b == b't'
      then on_literal env (new "Unexpected 'true'") (b'r' ∷ b'u' ∷ b'e' ∷ []) (some true)
      else if b == b'f'
      then on_literal env (new "Unexpected 'false'") (b'a' ∷ b'l' ∷ b's' ∷ b'e' ∷ []) (some false)
      else if b == b'n'
      then on_literal env (new "Unexpected 'null'") (b'u' ∷ b'l' ∷ b'l' ∷ []) none
      else if b == b'-' || leb b'0' b && leb b b'9'
      then on_number env b
      else raise (new_number "Unexpected character: " b)
