-- ===== src/Tokenizer/Nesting/Arms.antt =====
-- The arms of `process_token` in src/tokenizer.rs keep the nesting.
use rjsonparser.Prelude.{
  ℕ, suc, ◌≤◌, ◌≡◌, refl, ap, Bool, true, false, not, leb, if◌then◌else◌, length, Option, none,
  some, arith,
}
use rjsonparser.Error.{new, new_number, ParseError}
use rjsonparser.Limits.{ParserLimits}
use rjsonparser.Exec.{◌>>=◌, ◌>>◌, fail_if, pure, gets}
use rjsonparser.Tokenizer.Machine.{
  State, expect_value, expect_key, expect_colon, after_value, Tokenizer, Env, M, update, token_done,
}
use rjsonparser.Tokenizer.Tokens.{
  state_is, top_is_object, is_empty, depth_below, check_depth, on_comma, on_colon,
}
use rjsonparser.Tokenizer.Triple.{
  Triple, Blind, bind-Triple, then-Triple, update-Triple, gets-Triple, fail_if-Triple,
  advance-Triple, token_done-Triple, pure-Triple, weaken,
}
use rjsonparser.Tokenizer.Nesting.{
  IsNested, IsStacked, IsStacked-Blind, HasRoom, comma_state, Within, fits_state,
}

room_below :
    (limits : ParserLimits) (max : ℕ) (t u : Tokenizer)
    → IsStacked limits u
    → t ≡ u
    → leb max (length t.depth_stack) ≡ false
    → suc (length u.depth_stack) ≤ max
room_below limits max t u h same short =
    ground (arith, short, ap (λ (v : Tokenizer). length v.depth_stack) same)

module _ {H : Type 0} where
  -- The end of every arm: the token counts, and the new state is set.
  pub settle :
      {P : Tokenizer → Type 0} (limits : ParserLimits) (comma : Bool) (next : Tokenizer → State)
      → Blind P
      → ((t : Tokenizer) → P t → IsStacked limits t × (fits_state (next t) t.context_stack ≡ true))
      → Triple {H = H} P
          (token_done limits
            >> (update (λ u. record u { after_comma = comma; state = next u }) >> pure true))
          (λ _. IsNested limits)
  settle {P} limits comma next blind h = then-Triple P (token_done-Triple blind limits) (
      then-Triple (IsNested limits)
        (update-Triple (λ u. record u { after_comma = comma; state = next u })
          (λ t p.
            (let (stacked, fits) = h t p in
              record {
                stacked = record {
                  mirrors = stacked.mirrors;
                  bounded = stacked.bounded;
                  key_sets = stacked.key_sets;
                };
                state_fits = fits;
              })))
        (pure-Triple true))

  -- The start of every arm: it reads the tokenizer, and the guards that follow are on what it read.
  pub reading :
      {P : Tokenizer → Type 0} {f : Tokenizer → M H Bool} {Q : Bool → Tokenizer → Type 0}
      → ((t : Tokenizer) → Triple (λ u. P u × (t ≡ u)) (f t) Q)
      → Triple P (gets (λ m. m.tok) >>= f) Q
  reading {P} h = bind-Triple (λ t u. P u × (t ≡ u)) gets-Triple h

  pub guard :
      {P : Tokenizer → Type 0} {n : M H Bool} {Q : Bool → Tokenizer → Type 0} (b : Bool)
      (e : ParseError)
      → Triple (λ u. P u × (b ≡ false)) n Q
      → Triple P (fail_if b e >> n) Q
  guard {P} b e h = then-Triple (λ u. P u × (b ≡ false)) (fail_if-Triple b e) h

  pub keeping :
      {P : Tokenizer → Type 0} (R : Tokenizer → Type 0) {n : M H Bool}
      {Q : Bool → Tokenizer → Type 0}
      → ((t : Tokenizer) → P t → R t)
      → Triple R n Q
      → Triple P n Q
  keeping R f h = record { run = λ m p. h.run m (f m.tok p) }

  depth_below-Triple :
      (limits : ParserLimits) (limit : Option ℕ)
      → Triple {H = H}
          (IsStacked limits)
          (depth_below limit)
          (λ _ t. IsStacked limits t × Within limit (suc (length t.depth_stack)))
  depth_below-Triple limits none = record { run = λ m p. (p, tt) }
  depth_below-Triple limits (some max) =
      bind-Triple (λ t u. IsStacked limits u × (t ≡ u)) gets-Triple
        (λ t.
          weaken
            (fail_if-Triple (leb max (length t.depth_stack))
              (new_number "Maximum nesting depth exceeded: " max))
            (λ _ u p. (p.0.0, room_below limits max t u p.0.0 p.0.1 p.1)))

  pub check_depth-HasRoom :
      (limits : ParserLimits)
      → Triple {H = H} (IsStacked limits) (check_depth limits) (λ _. HasRoom limits)
  unfolding check_depth
  check_depth-HasRoom limits = depth_below-Triple limits limits.max_nesting_depth

module _ {F H : Type 0} where
  pub on_colon-IsNested :
      (env : Env F H) → Triple (IsNested env.limits) (on_colon env) (λ _. IsNested env.limits)
  unfolding on_colon
  on_colon-IsNested env = reading (λ t.
      guard (not (state_is t.state expect_colon)) (new "Unexpected ':'") (
        keeping (IsStacked env.limits) (λ u p. p.0.0.stacked)
          (then-Triple (IsStacked env.limits) advance-Triple
            (settle env.limits false (λ _. expect_value) IsStacked-Blind (λ u h. (h, refl))))))

  pub on_comma-IsNested :
      (env : Env F H) → Triple (IsNested env.limits) (on_comma env) (λ _. IsNested env.limits)
  unfolding on_comma
  on_comma-IsNested env = reading (λ t.
      guard (not (state_is t.state after_value)) (new "Unexpected ','") (
        guard (is_empty t.context_stack) (new "Unexpected comma at root level") (
          keeping (IsStacked env.limits) (λ u p. p.0.0.0.stacked)
            (then-Triple (IsStacked env.limits) advance-Triple (
              settle env.limits true
                (λ u. if top_is_object u.context_stack then expect_key else expect_value)
                IsStacked-Blind (λ u h. (h, comma_state u.context_stack)))))))
