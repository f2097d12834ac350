-- ===== src/Tokenizer/Receive.antt =====
-- `process_whitespace`, `continue_number`, `emit_number`, `end_of_input` and `receive` of
-- src/tokenizer.rs. The loops recur on fuel: a round of a loop over bytes takes at least one, and a
-- round of `receive` takes a byte or ends a number.
use rjsonparser.Prelude.{
  ℕ, zero, suc, ◌+◌, ◌-◌, ◌*◌, Bool, true, false, not, ◌&&◌, ◌||◌, ltb, leb, ◌==◌, if◌then◌else◌,
  length, take,
}
use rjsonparser.Error.{new, out_of_fuel, Result}
use rjsonparser.Exec.{pure, raise, gets, modify, fail_if, ◌>>=◌, ◌>>◌}
use rjsonparser.Float.{Float}
use rjsonparser.Handler.{ContentHandler, number_value, whitespace}
use rjsonparser.Locator
use rjsonparser.Locator.{SharedLocator}
use rjsonparser.Loopbuf.{Spans}
use rjsonparser.Tokenizer.Machine.{
  after_value, Machine, Env, M, report, update, add_column, consume, check_limit, when,
}
use rjsonparser.Tokenizer.Numbers.{
  NumStage, no_stage, after_minus, fraction_dot, exponent_mark, exponent_sign, integer, fraction,
  NumberState, take_digit_run, NumStep, reject, take_byte, finished, number_byte, integer_value,
  real_value,
}
use rjsonparser.Tokenizer.Strings.{continue_string}
use rjsonparser.Tokenizer.Tokens.{process_token}

-- The variables of the loop in `process_whitespace`.
pub record Run : Type 0 where
  pub line : ℕ
  pub column : ℕ
  pub after_cr : Bool
  pub p : ℕ

abbrev pub is_space : ℕ → Bool
is_space b = b == b' ' || b == b'\n' || b == b'\t' || b == b'\r'

-- One byte of whitespace: CR, LF and CRLF are each one line break.
unfoldable pub space_byte : Run → ℕ → Run
space_byte r b =
    if b == b'\n'
    then record r {
      line = if r.after_cr then r.line else r.line + 1;
      column = 1;
      after_cr = false;
      p = r.p + 1;
    }
    else if b == b'\r'
    then record r { line = r.line + 1; column = 1; after_cr = true; p = r.p + 1 }
    else record r { column = r.column + 1; after_cr = false; p = r.p + 1 }

unfoldable pub space_loop : ℕ → Spans → Run → Run
space_loop zero input r = r
space_loop (suc fuel) input r =
    let b = input.at r.p in
    let rest = space_loop fuel input (space_byte r b) in
    if ltb r.p input.len && is_space b then rest else r

abbrev is_digits_stage : NumStage → Bool
is_digits_stage integer = true
is_digits_stage fraction = true
is_digits_stage _ = false

abbrev pub is_fast : NumberState → Bool
is_fast s = not s.mantissa_full && is_digits_stage s.stage

abbrev pub in_number : NumStage → Bool
in_number no_stage = false
in_number _ = true

module _ {F H : Type 0} where
  -- The run is reported a span at a time.
  unfoldable pub report_spaces : ℕ → Env F H → ℕ → ℕ → M H (Unit {0})
  report_spaces zero env q p = pure tt
  report_spaces (suc fuel) env q p =
      if ltb q p
      then (let spaces = take (p - q) (env.input.span_from q) in
          do report env.on (whitespace spaces); report_spaces fuel env (q + length spaces) p)
      else pure tt

  unfoldable pub process_whitespace : Env F H → M H (Unit {0})
  unfolding space_loop space_byte report_spaces
  process_whitespace env = do
    m ← gets (λ m. m)
    let start = m.consumed
    let end = space_loop (env.input.len - start) env.input (record {
      line = m.locator.line;
      column = m.locator.column;
      after_cr = m.tok.after_cr;
      p = start;
    })
    modify (λ m. record m {
      locator = Locator.set_column (Locator.set_line m.locator end.line) end.column;
      tok = record m.tok { after_cr = end.after_cr };
      consumed = end.p;
    })
    when m.tok.needs_whitespace (report_spaces (end.p - start) env start end.p)

  -- The finished number goes to the handler.
  unfoldable pub emit_number : Float F → ContentHandler F H → M H (Unit {0})
  emit_number float on = do
    n ← gets (λ m. m.tok.number)
    let number = if n.is_real then real_value float n else integer_value n
    update (λ t. record t { number = record t.number { stage = no_stage }; state = after_value })
    add_column n.len
    report on (number_value number)

  abbrev pub number_limit : Env F H → NumberState → M H (Unit {0})
  number_limit env n =
      check_limit env.limits.max_number_length n.len "Maximum number length exceeded: "

  -- The digits at the front taken at once: whether nothing is left behind them.
  abbrev pub taken_run : Env F H → NumberState × ℕ → M H Bool
  taken_run env (n, taken) =
      if ltb 0 taken
      then (do
        update (λ t. record t { number = n })
        consume taken
        number_limit env n
        gets (λ m. leb env.input.len m.consumed))
      else pure false

  abbrev pub digits_run : Env F H → M H Bool
  digits_run env = do
    m ← gets (λ m. m)
    (if is_fast m.tok.number
        then taken_run env (take_digit_run m.tok.number (env.input.span_from m.consumed))
        else pure false)

  abbrev pub after_byte : M H Bool → Env F H → NumStep → M H Bool
  after_byte next env (reject e) = raise e
  after_byte next env finished = do emit_number env.float env.on; pure true
  after_byte next env (take_byte n) = do
    update (λ t. record t { number = n })
    consume 1
    number_limit env n
    next

  -- The body of the loop, where `next` goes round again.
  abbrev pub number_round : M H Bool → Env F H → M H Bool
  number_round next env = do
    at ← gets (λ m. m.consumed)
    (if ltb at env.input.len
        then (do
          ended ← digits_run env
          m ← gets (λ m. m)
          (if ended
              then pure false
              else after_byte next env (number_byte m.tok.number (env.input.at m.consumed))))
        else pure false)

  unfoldable pub number_loop : ℕ → Env F H → M H Bool
  unfolding emit_number
  number_loop zero env = raise out_of_fuel
  number_loop (suc fuel) env = number_round (number_loop fuel env) env

  -- `true` if the number ended.
  unfoldable pub continue_number : Env F H → M H Bool
  unfolding number_loop
  continue_number env = do at ← gets (λ m. m.consumed); number_loop (env.input.len - at + 1) env

  abbrev pub end_number : Float F → ContentHandler F H → NumStage → M H (Unit {0})
  end_number float on no_stage = pure tt
  end_number float on after_minus = raise (new "Invalid number: just '-'")
  end_number float on fraction_dot = raise (new "Decimal point must be followed by digit")
  end_number float on exponent_mark = raise (new "Incomplete exponent")
  end_number float on exponent_sign = raise (new "Exponent must have digit")
  end_number float on _ = emit_number float on

  unfoldable pub end_of_input : Float F → ContentHandler F H → M H (Unit {0})
  unfolding emit_number
  end_of_input float on = do
    t ← gets (λ m. m.tok)
    fail_if t.in_string (new "Unclosed string")
    end_number float on t.number.stage

  -- One round of `receive`: whether to go on.
  unfoldable pub receive_round : Env F H → Machine H → Result Bool × Machine H
  receive_round env m =
      let b = env.input.at m.consumed in
      if m.tok.in_string
      then continue_string env m
      else if in_number m.tok.number.stage
      then continue_number env m
      else if is_space b
      then (do process_whitespace env; pure true) m
      else (do update (λ t. record t { after_cr = false }); process_token env b) m

  -- The body of the loop, where `next` goes round again.
  abbrev pub receive_body : M H (Unit {0}) → Env F H → M H (Unit {0})
  receive_body next env = do
    at ← gets (λ m. m.consumed)
    (if ltb at env.input.len
        then (do more ← receive_round env; (if more then next else pure tt))
        else pure tt)

  unfoldable pub receive_loop : ℕ → Env F H → M H (Unit {0})
  unfolding receive_round
  receive_loop zero env = raise out_of_fuel
  receive_loop (suc fuel) env = receive_body (receive_loop fuel env) env

  -- A round takes a byte or ends a number.
  unfoldable pub receive : Env F H → M H (Unit {0})
  unfolding receive_loop
  receive env = do at ← gets (λ m. m.consumed); receive_loop (2 * (env.input.len - at) + 2) env
