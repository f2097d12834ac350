-- ===== src/Tokenizer/Machine.antt =====
-- The state of src/tokenizer.rs: the enums, the `Tokenizer` struct, and the machine that its methods
-- work on: the tokenizer with what `receive` is handed by reference. A `Vec` used as a stack is a
-- list with its top in front; a `HashSet` is the list of what was inserted.
use rjsonparser.Prelude.{
  ℕ, ◌+◌, ◌-◌, ◌==◌, Bool, true, false, not, List, [], ◌∷◌, Bytes, length, Option, none, some,
  if◌then◌else◌, ltb, some,
}
use rjsonparser.Error.{new_number}
use rjsonparser.Exec.{Exec, ◌>>=◌, ◌>>◌, modify, fail_if, pure, gets}
use rjsonparser.Float.{Float}
use rjsonparser.Handler.{ContentHandler, Event, string_value_content}
use rjsonparser.Keys.{KeySymbolTable}
use rjsonparser.Limits.{ParserLimits}
use rjsonparser.Locator
use rjsonparser.Locator.{SharedLocator}
use rjsonparser.Loopbuf.{Spans}
use rjsonparser.Prelude.Int.{ℤ, pos}
use Prim.Native.String.{String}
use rjsonparser.Tokenizer.Numbers.{NumberState, new_number as fresh_number}

abbrev pub key_intern_disable_threshold : ℕ
key_intern_disable_threshold = 64

abbrev pub min_decode_room : ℕ
min_decode_room = 16

-- `StartObject` and `StartArray`
pub data NestToken : Type 0 where
  nest_object nest_array : NestToken

pub data Context : Type 0 where
  in_array in_object : Context

pub data State : Type 0 where
  expect_value expect_key expect_colon after_value : State

pub record Tokenizer : Type 0 where
  pub reject_duplicate_keys : Bool
  pub needs_whitespace : Bool
  pub context_stack : List Context
  pub state : State
  pub seen_any_token : Bool
  pub depth_stack : List NestToken
  pub after_comma : Bool
  pub after_cr : Bool
  pub key_intern_attempts : ℤ
  pub key_intern_hits : ℤ
  pub key_intern_disabled : Bool
  pub duplicate_key_stack : List (List Bytes)
  pub token_count : ℕ
  pub in_string : Bool
  pub string_bytes : ℕ
  pub chars : Bytes
  pub chars_cap : ℕ
  pub chunk_size : ℕ
  pub number : NumberState

unfoldable pub new_tokenizer : Bool → Bool → ℕ → Tokenizer
new_tokenizer reject_duplicate_keys needs_whitespace chunk_size = record {
  reject_duplicate_keys = reject_duplicate_keys;
  needs_whitespace = needs_whitespace;
  context_stack = [];
  state = expect_value;
  seen_any_token = false;
  depth_stack = [];
  after_comma = false;
  after_cr = false;
  key_intern_attempts = pos 0;
  key_intern_hits = pos 0;
  key_intern_disabled = false;
  duplicate_key_stack = [];
  token_count = 0;
  in_string = false;
  string_bytes = 0;
  chars = [];
  chars_cap = 0;
  chunk_size = chunk_size;
  number = fresh_number;
}

unfoldable pub set_chunk_size : ℕ → Tokenizer → Tokenizer
set_chunk_size chunk_size t = record t { chunk_size = chunk_size }

pub record Machine (H : Type 0) : Type 0 where
  pub tok : Tokenizer
  pub locator : SharedLocator
  pub handler : H
  pub keys : KeySymbolTable
  pub consumed : ℕ

-- What a method of the tokenizer is given to read: the number type, the handler's code, the limits
-- and the bytes of the ring.
pub record Env (F H : Type 0) : Type 0 where
  pub float : Float F
  pub on : ContentHandler F H
  pub limits : ParserLimits
  pub input : Spans

abbrev pub M : Type 0 → Type 0 → Type 0
M H A = Exec (Machine H) A

abbrev pub free : Tokenizer → ℕ
free t = t.chunk_size - length t.chars

module _ {F H : Type 0} where
  -- A callback: the handler's new state is kept, and its error is passed on.
  abbrev pub report : ContentHandler F H → Event F → M H (Unit {0})
  report on e m = (
    (on.report e m.locator m.handler).0,
    record m { handler = (on.report e m.locator m.handler).1 },
  )

module _ {H : Type 0} where
  abbrev pub update : (Tokenizer → Tokenizer) → M H (Unit {0})
  update f = modify (λ m. record m { tok = f m.tok })

  abbrev pub add_column : ℕ → M H (Unit {0})
  add_column n = modify (λ m. record m { locator = Locator.add_column m.locator n })

  abbrev pub consume_to : ℕ → M H (Unit {0})
  consume_to n = modify (λ m. record m { consumed = n })

  abbrev pub consume : ℕ → M H (Unit {0})
  consume n = modify (λ m. record m { consumed = m.consumed + n })

  -- A new `String` where the chunk size has changed.
  unfoldable pub ensure_chars : M H (Unit {0})
  ensure_chars = update (λ t.
      if not (t.chars_cap == t.chunk_size)
      then record t { chars = []; chars_cap = t.chunk_size }
      else t)

module _ {H : Type 0} where
  -- `token_count` counts only under a limit.
  abbrev pub count_token : Option ℕ → M H (Unit {0})
  count_token none = pure tt
  count_token (some max) = do
    update (λ t. record t { token_count = t.token_count + 1 })
    count ← gets (λ m. m.tok.token_count)
    fail_if (ltb max count) (new_number "Maximum token count exceeded: " max)

  unfoldable pub check_token_limit : ParserLimits → M H (Unit {0})
  check_token_limit limits = count_token limits.max_token_count

  unfoldable pub token_done : ParserLimits → M H (Unit {0})
  unfolding check_token_limit
  token_done limits = do update (λ t. record t { seen_any_token = true }); check_token_limit limits

module _ {F H : Type 0} where
  abbrev pub flush : ContentHandler F H → Bytes → M H (Unit {0})
  flush on [] = pure tt
  flush on (c ∷ chars) = do
    report on (string_value_content (c ∷ chars))
    update (λ t. record t { chars = [] })

  -- Nothing is reported where nothing was decoded.
  unfoldable pub flush_chars : ContentHandler F H → M H (Unit {0})
  flush_chars on = do chars ← gets (λ m. m.tok.chars); flush on chars

-- `if let Some(limit) = limit { if n > limit { return Err(…) } }`
abbrev pub check_limit : {H : Type 0} → Option ℕ → ℕ → String → M H (Unit {0})
check_limit none n text = pure tt
check_limit (some limit) n text = fail_if (ltb limit n) (new_number text limit)

module _ {H : Type 0} where
  abbrev pub when : Bool → M H (Unit {0}) → M H (Unit {0})
  when true m = m
  when false m = pure tt
