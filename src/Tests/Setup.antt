-- ===== src/Tests/Setup.antt =====
-- What the tests run the model with: a ring of two slices, numbers kept as their text, a handler that
-- records what it is told, and a machine at the start of a document.
use rjsonparser.Prelude.{
  suc, ◌-◌, true, false, List, [], ◌∷◌, ◌++◌, Bytes, ltb, if◌then◌else◌, length, get_or, take, drop,
  none, some, to_decimal, eq_bytes,
}
use rjsonparser.Prelude.Int.{ℤ, pos, negsuc}
use rjsonparser.Error.{ok}
use rjsonparser.Float.{Float}
use rjsonparser.Handler.{Event, ContentHandler}
use rjsonparser.Keys.{new_table}
use rjsonparser.Limits.{default_limits}
use rjsonparser.Locator.{new_locator}
use rjsonparser.Loopbuf.{Spans}
use rjsonparser.Tokenizer.Machine.{Machine, Env, new_tokenizer}

-- The readable bytes `front ++ back`, with the ring's wrap between them.
abbrev pub ring : Bytes → Bytes → Spans
ring front back = record {
  len = length (front ++ back);
  at = λ i. get_or (front ++ back) i 0;
  span_from = λ i. if ltb i (length front) then drop i front else drop (i - length front) back;
  contiguous = λ i j.
      if ltb i (length front)
      then (if ltb (length front) j then none else some (take (j - i) (drop i front)))
      else some (take (j - i) (drop (i - length front) back));
}

abbrev signed : ℤ → Bytes
signed (pos n) = to_decimal n
signed (negsuc n) = b'-' ∷ to_decimal (suc n)

-- Decimal text in place of doubles.
abbrev pub text_float : Float Bytes
text_float = record {
  of_int = signed;
  pow10 = λ e. b'1' ∷ b'e' ∷ to_decimal e;
  mul = λ a b. a ++ (b'*' ∷ b);
  div = λ a b. a ++ (b'/' ∷ b);
  negate = λ a. b'-' ∷ a;
  eq = eq_bytes;
  is_finite = λ a. true;
  parse = λ a. some a;
  display = λ a. a;
}

-- The events reported, the last one first.
abbrev pub recorder : ContentHandler Bytes (List (Event Bytes))
recorder = record {
  report = λ e l h. (ok tt, e ∷ h);
  set_locator = λ h. h;
  needs_whitespace = λ h. false;
}

abbrev pub env_of : Spans → Env Bytes (List (Event Bytes))
env_of input = record { float = text_float; on = recorder; limits = default_limits; input = input }

abbrev pub start_machine : Machine (List (Event Bytes))
start_machine = record {
  tok = new_tokenizer false false 32768;
  locator = new_locator;
  handler = [];
  keys = new_table;
  consumed = 0;
}
