-- ===== src/Tokenizer/Reach/Arms.antt =====
-- How far the arms of `process_token` in src/tokenizer.rs consume.
use rjsonparser.Prelude.{ℕ, ◌<◌, Option, none, some, ◌≡◌, refl, Bytes, Bool, arith}
use rjsonparser.Error.{ParseError}
use rjsonparser.Limits.{ParserLimits}
use rjsonparser.Tokenizer.Machine.{Machine, Env, token_done, ensure_chars}
use rjsonparser.Tokenizer.Tokens.{
  on_comma, on_colon, on_open_object, on_close_object, on_open_array, on_close_array, check_depth,
  on_number, string_start, process_literal, on_literal, depth_below,
}
use rjsonparser.Tokenizer.Reach.{Went, Lands, token_done-Keeps, Went}

token_done-consumed :
    {H : Type 0} (limits : ParserLimits) (m : Machine H)
    → (token_done limits m).1.consumed ≡ m.consumed
token_done-consumed limits m = (token_done-Keeps limits).same m

check_depth-consumed :
    {H : Type 0} (limits : ParserLimits) (m : Machine H)
    → (check_depth limits m).1.consumed ≡ m.consumed
unfolding check_depth
check_depth-consumed limits m = depth_below_same limits.max_nesting_depth
  where
    depth_below_same : (max : Option ℕ) → (depth_below max m).1.consumed ≡ m.consumed
    depth_below_same none = refl
    depth_below_same (some max) = ground arith

module _ {F H : Type 0} (env : Env F H) where
  pub on_comma-Lands :
      (m : Machine H)
      → m.consumed < env.input.len
      → Lands m.consumed env.input.len (Went env.input.len m.consumed) (on_comma env m)
  unfolding on_comma
  on_comma-Lands m h = grind (arith, h, token_done-consumed {H = H} env.limits)

  pub on_colon-Lands :
      (m : Machine H)
      → m.consumed < env.input.len
      → Lands m.consumed env.input.len (Went env.input.len m.consumed) (on_colon env m)
  unfolding on_colon
  on_colon-Lands m h = grind (arith, h, token_done-consumed {H = H} env.limits)

  pub on_open_object-Lands :
      (m : Machine H)
      → m.consumed < env.input.len
      → Lands m.consumed env.input.len (Went env.input.len m.consumed) (on_open_object env m)
  unfolding on_open_object
  on_open_object-Lands m h =
      grind
        (arith, h, token_done-consumed {H = H} env.limits, check_depth-consumed {H = H} env.limits)

  pub on_close_object-Lands :
      (m : Machine H)
      → m.consumed < env.input.len
      → Lands m.consumed env.input.len (Went env.input.len m.consumed) (on_close_object env m)
  unfolding on_close_object
  on_close_object-Lands m h = grind (arith, h, token_done-consumed {H = H} env.limits)

  pub on_open_array-Lands :
      (m : Machine H)
      → m.consumed < env.input.len
      → Lands m.consumed env.input.len (Went env.input.len m.consumed) (on_open_array env m)
  unfolding on_open_array
  on_open_array-Lands m h =
      grind
        (arith, h, token_done-consumed {H = H} env.limits, check_depth-consumed {H = H} env.limits)

  pub on_close_array-Lands :
      (m : Machine H)
      → m.consumed < env.input.len
      → Lands m.consumed env.input.len (Went env.input.len m.consumed) (on_close_array env m)
  unfolding on_close_array
  on_close_array-Lands m h = grind (arith, h, token_done-consumed {H = H} env.limits)

  pub on_number-Lands :
      (b : ℕ) (m : Machine H)
      → m.consumed < env.input.len
      → Lands m.consumed env.input.len (Went env.input.len m.consumed) (on_number env b m)
  unfolding on_number
  on_number-Lands b m h = grind (arith, h, token_done-consumed {H = H} env.limits)

  pub string_start-Lands :
      (m : Machine H)
      → m.consumed < env.input.len
      → Lands m.consumed env.input.len (Went env.input.len m.consumed) (string_start env m)
  unfolding string_start ensure_chars
  string_start-Lands m h = grind (arith, h, token_done-consumed {H = H} env.limits)

  pub on_literal-Lands :
      (unexpected : ParseError) (rest : Bytes) (value : Option Bool) (m : Machine H)
      → m.consumed < env.input.len
      → Lands m.consumed env.input.len
          (Went env.input.len m.consumed)
          (on_literal env unexpected rest value m)
  unfolding process_literal
  on_literal-Lands unexpected rest value m h =
      grind (arith, h, token_done-consumed {H = H} env.limits)
