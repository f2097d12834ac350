-- ===== src/Tokenizer/Reach/Rounds.antt =====
-- How far a round of `receive` in src/tokenizer.rs consumes: `process_token`, `process_whitespace` and
-- `continue_number`.
use rjsonparser.Prelude.{
  ℕ, zero, suc, ◌-◌, ◌≤◌, ◌<◌, ◌≡◌, refl, Bool, true, false, ◌||◌, ◌&&◌, none, some, [], ◌∷◌, Bytes,
  leb, lt→ltb, ◌==◌, if◌then◌else◌, arith,
}
use rjsonparser.Error.{new, ParseError}
use rjsonparser.Exec.{◌>>◌, fail_if, pure}
use rjsonparser.Locator.{set_line, set_column}
use rjsonparser.Loopbuf.{Spans, IsView}
use rjsonparser.Tokenizer.Machine.{
  expect_colon, after_value, expect_key, token_done, Machine, M, Env, when,
}
use rjsonparser.Tokenizer.Receive.{
  Run, is_space, space_byte, space_loop, report_spaces, process_whitespace,
}
use rjsonparser.Tokenizer.Spaces.{space_byte-p}
use rjsonparser.Tokenizer.Tokens.{process_token, on_quote, key_done, state_is}
use rjsonparser.Tokenizer.ObjectKeys.{process_key}
use rjsonparser.Tokenizer.Reach.{Lands, Went, continue-Lands, keep-Lands, settled, token_done-Keeps}
use rjsonparser.Tokenizer.Reach.Arms.{
  on_comma-Lands, on_colon-Lands, on_open_object-Lands, on_close_object-Lands, on_open_array-Lands,
  on_close_array-Lands, on_number-Lands, on_literal-Lands, string_start-Lands,
}
use rjsonparser.Tokenizer.Reach.Keys.{process_key-Lands}

module _ {H : Type 0} where
  either-Lands :
      (from len : ℕ) (Q : Bool → ℕ → Type 0) (b : Bool) (f g : M H Bool) (m : Machine H)
      → Lands from len Q (f m)
      → Lands from len Q (g m)
      → Lands from len Q ((if b then f else g) m)
  either-Lands from len Q true f g m h k = h
  either-Lands from len Q false f g m h k = k

  unless-Lands :
      (from len : ℕ) (Q : Bool → ℕ → Type 0) (b : Bool) (e : ParseError) (f : M H Bool)
      (m : Machine H)
      → from ≤ m.consumed
      → m.consumed ≤ len
      → Lands from len Q (f m)
      → Lands from len Q ((fail_if b e >> f) m)
  unless-Lands from len Q true e f m low le h = (low, le)
  unless-Lands from len Q false e f m low le h = h

module _ {F H : Type 0} (env : Env F H) where
  key_done-Lands :
      (c : ℕ) (b : Bool) (x : Machine H)
      → Went env.input.len c b x.consumed
      → Lands c env.input.len (Went env.input.len c) (key_done env b x)
  key_done-Lands c false x w = w
  key_done-Lands c true x w =
      keep-Lands c env.input.len x.consumed (Went env.input.len c) (token_done env.limits x) _
        (omega (arith, w)) w.1 ((token_done-Keeps env.limits).same x)
        (λ u y e. (omega (arith, w, e), omega (arith, w, e)))

  on_quote-Lands :
      {bs : Bytes}
      → IsView env.input bs
      → (m : Machine H) → m.consumed < env.input.len
      → Lands m.consumed env.input.len (Went env.input.len m.consumed) (on_quote env m)
  unfolding on_quote
  on_quote-Lands view m h =
      let Q = Went env.input.len m.consumed in
      unless-Lands m.consumed env.input.len Q
        (state_is m.tok.state expect_colon || state_is m.tok.state after_value)
        (new "Unexpected string") _ m (omega arith) (omega (arith, h))
        (either-Lands m.consumed env.input.len Q (state_is m.tok.state expect_key) _ _ m
          (continue-Lands m.consumed env.input.len Q Q (process_key env m) (key_done env)
            (process_key-Lands env view m h) (key_done-Lands m.consumed))
          (string_start-Lands env m h))

  pub process_token-Lands :
      {bs : Bytes}
      → IsView env.input bs
      → (b : ℕ) (m : Machine H) → m.consumed < env.input.len
      → Lands m.consumed env.input.len (Went env.input.len m.consumed) (process_token env b m)
  unfolding process_token
  process_token-Lands view b m h =
      let Q = Went env.input.len m.consumed in
      either-Lands m.consumed env.input.len Q (b == b'"') _ _ m (on_quote-Lands view m h) (
        either-Lands m.consumed env.input.len Q (b == b',') _ _ m (on_comma-Lands env m h) (
          either-Lands m.consumed env.input.len Q (b == b':') _ _ m (on_colon-Lands env m h) (
            either-Lands m.consumed env.input.len Q (b == b'{') _ _ m (on_open_object-Lands env m h)
              (either-Lands m.consumed env.input.len Q (b == b'}') _ _ m
                (on_close_object-Lands env m h)
                (either-Lands m.consumed env.input.len Q (b == b'[') _ _ m
                  (on_open_array-Lands env m h)
                  (either-Lands m.consumed env.input.len Q (b == b']') _ _ m
                    (on_close_array-Lands env m h)
                    (either-Lands m.consumed env.input.len Q (b == b't') _ _ m
                      (on_literal-Lands env (new "Unexpected 'true'") (b'r' ∷ b'u' ∷ b'e' ∷ [])
                        (some true) m h)
                      (either-Lands m.consumed env.input.len Q (b == b'f') _ _ m
                        (on_literal-Lands env (new "Unexpected 'false'")
                          (b'a' ∷ b'l' ∷ b's' ∷ b'e' ∷ []) (some false) m h)
                        (either-Lands m.consumed env.input.len Q (b == b'n') _ _ m
                          (on_literal-Lands env (new "Unexpected 'null'") (b'u' ∷ b'l' ∷ b'l' ∷ [])
                            none m h)
                          (either-Lands m.consumed env.input.len Q
                            (b == b'-' || leb b'0' b && leb b b'9') _ _ m
                            (on_number-Lands env b m h) (omega arith, omega (arith, h))))))))))))

  space_loop-le :
      (input : Spans) (fuel : ℕ) (r : Run)
      → r.p ≤ input.len
      → (r.p ≤ (space_loop fuel input r).p) × ((space_loop fuel input r).p ≤ input.len)
  unfolding space_loop
  space_loop-le input zero r le = (omega arith, le)
  space_loop-le input (suc fuel) r le = ground (
    arith,
    le,
    space_byte-p r (input.at r.p),
    λ (q : (space_byte r (input.at r.p)).p ≤ input.len).
        space_loop-le input fuel (space_byte r (input.at r.p)) q,
  )

  report_spaces-consumed :
      (fuel q p : ℕ) (m : Machine H) → (report_spaces fuel env q p m).1.consumed ≡ m.consumed
  unfolding report_spaces
  report_spaces-consumed zero q p m = refl
  report_spaces-consumed (suc fuel) q p m = grind (arith, report_spaces-consumed fuel)

  space_loop-more :
      (input : Spans) (fuel : ℕ) (r : Run)
      → r.p < input.len
      → 0 < fuel
      → is_space (input.at r.p) ≡ true
      → r.p < (space_loop fuel input r).p
  unfolding space_loop
  space_loop-more input zero r h pos space = elim pos [ ]
  space_loop-more input (suc fuel) r h pos space =
      let b = input.at r.p in
      let next = space_byte-p r b in
      let far = space_loop-le input fuel (space_byte r b) (omega (arith, h, next)) in
      rw (lt→ltb r.p input.len h, space) (omega (arith, next, far))

  reported-consumed :
      (b : Bool) (fuel q p : ℕ) (m : Machine H)
      → ((when b (report_spaces fuel env q p) >> pure true) m).1.consumed ≡ m.consumed
  reported-consumed true fuel q p m = grind (arith, report_spaces-consumed fuel q p m)
  reported-consumed false fuel q p m = refl

  -- The machine behind a run of whitespace.
  abbrev spaced : Machine H → Run → Machine H
  spaced m end = record m {
    locator = set_column (set_line m.locator end.line) end.column;
    tok = record m.tok { after_cr = end.after_cr };
    consumed = end.p;
  }

  -- Whitespace at the front is taken, and a byte at least.
  pub process_whitespace-Lands :
      (m : Machine H)
      → m.consumed < env.input.len
      → is_space (env.input.at m.consumed) ≡ true
      → Lands m.consumed env.input.len
          (Went env.input.len m.consumed)
          ((process_whitespace env >> pure true) m)
  unfolding process_whitespace
  process_whitespace-Lands m h space =
      let r : Run = record {
        line = m.locator.line;
        column = m.locator.column;
        after_cr = m.tok.after_cr;
        p = m.consumed;
      } in
      let end = space_loop (env.input.len - m.consumed) env.input r in
      let far = space_loop-le env.input (env.input.len - m.consumed) r (omega (arith, h)) in
      let more =
        space_loop-more env.input (env.input.len - m.consumed) r h (omega (arith, h)) space in
      settled _
        (reported-consumed m.tok.needs_whitespace (end.p - m.consumed) m.consumed end.p
          (spaced m end))
        more far.1
