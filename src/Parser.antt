-- ===== src/Parser.antt =====
-- src/parser.rs: the `Parser`, its methods, and `check_bom`. A method takes the parser and the caller's
-- ring and gives its result beside both as it leaves them, on the error path too. A failed assertion
-- is `None`. The parser owns its handler, whose accessors are the field `handler`.
pub mod Marks
pub mod Feeding
pub mod Stream
pub mod Lifecycle
pub mod Reading
use Prim.Native.String.{String}
use rjsonparser.Prelude.{
  ℕ, zero, suc, ◌+◌, ◌-◌, Bool, true, false, not, ◌&&◌, ◌||◌, List, [], ◌∷◌, ◌++◌, Bytes, ltb, leb,
  ◌==◌, if◌then◌else◌, length, Option, none, some,
}
use rjsonparser.Error.{ParseError, new, new_number, Result, ok, err}
use rjsonparser.Float.{Float}
use rjsonparser.Handler.{ContentHandler}
use rjsonparser.Keys.{KeySymbolTable, new_table}
use rjsonparser.Limits.{ParserLimits, default_limits}
use rjsonparser.Locator.{SharedLocator, new_locator}
use rjsonparser.Loopbuf.{Spans, LoopBuf}
use rjsonparser.Tokenizer.Machine.{
  NestToken, nest_object, nest_array, Tokenizer, Machine, Env, min_decode_room, new_tokenizer,
  set_chunk_size,
}
use rjsonparser.Tokenizer.Receive.{receive as tokenizer_receive, end_of_input}

abbrev pub default_buffer_size : ℕ
default_buffer_size = 8192

abbrev pub default_string_chunk_size : ℕ
default_string_chunk_size = 32768

pub data Bom : Type 0 where
  need_more : Bom
  skip : ℕ → Bom

unfoldable pub bom_ef : ℕ → Spans → Result Bom
bom_ef remaining input =
    if leb 3 remaining
    then (if input.at 1 == 0xBB && input.at 2 == 0xBF then ok (skip 3) else ok (skip 0))
    else if remaining == 1 || input.at 1 == 0xBB
    then ok need_more
    else ok (skip 0)

unfoldable pub bom_fe : ℕ → Spans → Result Bom
bom_fe remaining input =
    if ltb remaining 2
    then ok need_more
    else if input.at 1 == 0xFF
    then err (new "UTF-16 BE encoding not supported")
    else ok (skip 0)

unfoldable pub bom_ff : ℕ → Spans → Result Bom
bom_ff remaining input =
    if ltb remaining 2
    then ok need_more
    else if not (input.at 1 == 0xFE)
    then ok (skip 0)
    else if ltb remaining 4
    then ok need_more
    else if input.at 2 == 0x00 && input.at 3 == 0x00
    then err (new "UTF-32 LE encoding not supported")
    else err (new "UTF-16 LE encoding not supported")

unfoldable pub bom_zero : ℕ → Spans → Result Bom
bom_zero remaining input =
    if ltb remaining 2
    then ok need_more
    else if not (input.at 1 == 0x00)
    then ok (skip 0)
    else if ltb remaining 4
    then ok need_more
    else if input.at 2 == 0xFE && input.at 3 == 0xFF
    then err (new "UTF-32 BE encoding not supported")
    else ok (skip 0)

unfoldable pub check_bom : Spans → Result Bom
check_bom input =
    let remaining = input.len in
    let b1 = input.at 0 in
    if remaining == 0
    then ok need_more
    else if b1 == 0xEF
    then bom_ef remaining input
    else if b1 == 0xFE
    then bom_fe remaining input
    else if b1 == 0xFF
    then bom_ff remaining input
    else if b1 == 0x00
    then bom_zero remaining input
    else ok (skip 0)

pub record Parser (H : Type 0) : Type 0 where
  pub handler : H
  pub key_symbol_table : KeySymbolTable
  pub limits : ParserLimits
  pub locator : SharedLocator
  pub reject_duplicate_keys : Bool
  pub checked_bom : Bool
  pub closed : Bool
  pub document_length : ℕ
  pub unconsumed : ℕ
  pub buffer_size : ℕ
  pub string_chunk_size : ℕ
  pub underflow : Bool
  pub tokenizer : Option Tokenizer

abbrev pub is_none : Option Tokenizer → Bool
is_none none = true
is_none (some t) = false

abbrev resize : ℕ → Option Tokenizer → Option Tokenizer
resize size none = none
resize size (some t) = some (set_chunk_size size t)

module _ {H : Type 0} where
  unfoldable pub with_buffer_size : H → ℕ → Option (Parser H)
  with_buffer_size handler buffer_size =
      if ltb 0 buffer_size
      then some (record {
        handler = handler;
        key_symbol_table = new_table;
        limits = default_limits;
        locator = new_locator;
        reject_duplicate_keys = false;
        checked_bom = false;
        closed = false;
        document_length = 0;
        unconsumed = 0;
        buffer_size = buffer_size;
        string_chunk_size = default_string_chunk_size;
        underflow = false;
        tokenizer = none;
      })
      else none

  unfoldable pub new_parser : H → Option (Parser H)
  new_parser handler = with_buffer_size handler default_buffer_size

  unfoldable pub set_reject_duplicate_keys : Bool → Parser H → Parser H
  set_reject_duplicate_keys reject p = record p { reject_duplicate_keys = reject }

  unfoldable pub set_limits : ParserLimits → Parser H → Parser H
  set_limits limits p = record p { limits = limits }

  unfoldable pub set_string_chunk_size : ℕ → Parser H → Option (Parser H)
  set_string_chunk_size size p =
      if leb min_decode_room size
      then some (record p { string_chunk_size = size; tokenizer = resize size p.tokenizer })
      else none

  unfoldable pub reset : Parser H → Parser H
  reset p = record p {
    tokenizer = none;
    locator = new_locator;
    checked_bom = false;
    closed = false;
    document_length = 0;
    unconsumed = 0;
    underflow = false;
  }

-- What a method leaves: its result, the parser and the ring.
abbrev pub Left : (H B : Type 0) → Type 0
Left H B = Result (Unit {0}) × (Parser H × B)

module _ {F H : Type 0} (float : Float F) (on : ContentHandler F H) where
  -- The tokenizer, made on the first call, and the handler given the locator.
  abbrev with_tokenizer : Parser H → Option Tokenizer → Tokenizer × H
  with_tokenizer p none = (
    new_tokenizer p.reject_duplicate_keys (on.needs_whitespace p.handler) p.string_chunk_size,
    on.set_locator p.handler,
  )
  with_tokenizer p (some t) = (t, p.handler)

  abbrev pub machine_of : Parser H → Machine H
  machine_of p = record {
    tok = (with_tokenizer p p.tokenizer).0;
    locator = p.locator;
    handler = (with_tokenizer p p.tokenizer).1;
    keys = p.key_symbol_table;
    consumed = 0;
  }

  abbrev pub env_for : Parser H → Spans → Env F H
  env_for p input = record { float = float; on = on; limits = p.limits; input = input }

  -- The parser with what the tokenizer left, and the bytes that it used.
  abbrev keep_machine :
      Parser H → ℕ → Result (Unit {0}) × Machine H → Result (Unit {0}) × (Parser H × ℕ)
  keep_machine p consumed (result, m) = (
    result,
    (
      record p {
        handler = m.handler;
        key_symbol_table = m.keys;
        locator = m.locator;
        tokenizer = some m.tok;
      },
      consumed + m.consumed,
    ),
  )

  unfoldable pub run_tokenizer : Parser H → Spans → ℕ → Result (Unit {0}) × (Parser H × ℕ)
  run_tokenizer p input consumed =
      keep_machine p consumed (tokenizer_receive (env_for p input) (machine_of p))

  abbrev pub after_bom :
      (Spans → ℕ → Spans) → Parser H → Spans → Result Bom → Result (Unit {0}) × (Parser H × ℕ)
  after_bom skip_input p input (err e) = (err e, (p, 0))
  after_bom skip_input p input (ok need_more) = (ok tt, (p, 0))
  after_bom skip_input p input (ok (skip n)) =
      run_tokenizer (record p { checked_bom = true }) (skip_input input n) n

  -- Beside the parser the bytes consumed. `skip_input` is the ring's `skip`.
  unfoldable pub process :
      (Spans → ℕ → Spans) → Parser H → Spans → Result (Unit {0}) × (Parser H × ℕ)
  process skip_input p input =
      let checked = check_bom input in
      if p.checked_bom then run_tokenizer p input 0 else after_bom skip_input p input checked

module _ {F H B : Type 0} (float : Float F) (on : ContentHandler F H) (ring : LoopBuf B) where
  -- What `feed` does with the result of `process`.
  abbrev pub settle : Bool → B → Result (Unit {0}) × (Parser H × ℕ) → Left H B
  settle check_room buf (err e, (p, consumed)) = (err e, (p, ring.advance buf consumed))
  settle check_room buf (ok u, (p, consumed)) =
      let rest = ring.advance buf consumed in
      let q = record p { unconsumed = ring.len rest; underflow = ltb 0 (ring.len rest) } in
      (
        (if check_room && consumed == 0 && ring.is_full rest
            then err (
                new_number "Receive buffer too small: the next token needs more than it holds: "
                  (ring.len rest))
            else ok tt),
        (q, rest),
      )

  abbrev counted : Parser H → ℕ → Parser H
  counted p available = record p {
    document_length = p.document_length + (available - p.unconsumed);
  }

  abbrev pub feed_within : Option ℕ → Bool → Parser H → B → Left H B
  feed_within none check_room p buf =
      settle check_room buf (process float on ring.skip p (ring.spans buf))
  feed_within (some max) check_room p buf =
      let q = counted p (ring.len buf) in
      let fed = settle check_room buf (process float on ring.skip q (ring.spans buf)) in
      if ltb max q.document_length
      then (err (new_number "Maximum document length exceeded: " max), (q, buf))
      else fed

  unfoldable pub feed : Bool → Parser H → B → Left H B
  feed check_room p buf =
      let fed = feed_within p.limits.max_document_length check_room p buf in
      if ring.len buf == 0 then (ok tt, (p, buf)) else fed

  unfoldable pub receive : Parser H → B → Left H B
  receive p buf =
      let fed = feed true p buf in
      if p.closed then (err (new "Cannot receive data after close()"), (p, buf)) else fed

  abbrev pub unclosed : List NestToken → Result (Unit {0})
  unclosed [] = ok tt
  unclosed (nest_object ∷ _) = err (new "Unclosed object")
  unclosed (nest_array ∷ _) = err (new "Unclosed array")

  -- The checks behind the last bytes.
  abbrev pub ended : Parser H → B → Result (Unit {0}) × Machine H → Left H B
  ended p buf (err e, m) = (
    err e,
    (
      record p {
        handler = m.handler;
        key_symbol_table = m.keys;
        locator = m.locator;
        tokenizer = some m.tok;
      },
      buf,
    ),
  )
  ended p buf (ok u, m) = (
    (if not m.tok.seen_any_token then err (new "No data") else unclosed m.tok.depth_stack),
    (
      record p {
        handler = m.handler;
        key_symbol_table = m.keys;
        locator = m.locator;
        tokenizer = some m.tok;
      },
      buf,
    ),
  )

  abbrev pub check_end : Parser H → B → Option Tokenizer → Left H B
  check_end p buf none = (err (new "No data"), (p, buf))
  check_end p buf (some t) =
      let end = ended p buf (end_of_input float on (machine_of float on p)) in
      if not (ring.len buf == 0)
      then (err (new "Unclosed string or incomplete token at end of input"), (p, buf))
      else end

  abbrev pub after_feed : Left H B → Left H B
  after_feed (err e, (p, buf)) = (err e, (p, buf))
  after_feed (ok u, (p, buf)) = check_end p buf p.tokenizer

  -- With no tokenizer yet, or bytes in the ring, what is there is given its chance.
  abbrev pub given_chance : Parser H → B → Left H B
  given_chance p buf =
      let fed = feed false p buf in
      if is_none p.tokenizer || not (ring.len buf == 0) then fed else (ok tt, (p, buf))

  unfoldable pub close : Parser H → B → Left H B
  close p buf =
      let end = after_feed (given_chance (record p { closed = true }) buf) in
      if p.closed then (ok tt, (p, buf)) else end

-- A `Read` source, the caller's: a read into so many bytes gives those written, and the source
-- behind them, or the error that its I/O error is mapped to.
pub record Reader (R : Type 0) : Type 0 where
  pub read : R → ℕ → Result Bytes × R

module _ {F H B R : Type 0} (float : Float F) (on : ContentHandler F H) (ring : LoopBuf B)
    (reader : Reader R) where
  abbrev pub after_receive :
      (Parser H → B → Option (Result (Unit {0}) × Parser H))
      → Left H B
      → Option (Result (Unit {0}) × Parser H)
  after_receive next (err e, (p, buf)) = some (err e, p)
  after_receive next (ok u, (p, buf)) = next p buf

  abbrev pub result_of : Left H B → Result (Unit {0}) × Parser H
  result_of (r, (p, buf)) = (r, p)

  -- What a round does with the bytes read: none of them is the end of the source.
  abbrev pub after_read :
      (R → Parser H → B → Option (Result (Unit {0}) × Parser H))
      → Parser H
      → B
      → Result Bytes × R
      → Option (Result (Unit {0}) × Parser H)
  after_read next p buf (err e, r) = some (err e, p)
  after_read next p buf (ok [], r) = some (result_of (close float on ring p buf))
  after_read next p buf (ok (b ∷ bytes), r) =
      after_receive (next r) (receive float on ring p (ring.commit_write buf (b ∷ bytes)))

  -- The loop of `parse`, by fuel: `None` is that it ran out.
  unfoldable pub parse_loop : ℕ → R → Parser H → B → Option (Result (Unit {0}) × Parser H)
  parse_loop zero r p buf = none
  parse_loop (suc fuel) r p buf =
      if ring.spare_slice buf == 0
      then some (err (new "Receive buffer too small"), p)
      else after_read (parse_loop fuel) p buf (reader.read r (ring.spare_slice buf))

  unfoldable pub parse : ℕ → R → Parser H → Option (Result (Unit {0}) × Parser H)
  parse fuel r p = parse_loop fuel r (reset p) (ring.with_capacity p.buffer_size)
