-- ===== src/Lib.antt =====
-- rjsonparser is a streaming JSON parser and writer over a ring buffer. `Parser` (src/parser.rs) feeds the
-- bytes of a `LoopBuf` to the `Tokenizer` (src/tokenizer.rs), which calls a `ContentHandler`
-- (src/handler.rs) for each token, keeps the position in a `SharedLocator` (src/locator.rs), holds to the
-- `ParserLimits` (src/limits.rs), interns short keys in a `KeySymbolTable` (src/keys.rs) and reports numbers
-- as `Number` (src/number.rs). `Writer` (src/writer.rs) appends tokens to a `LoopBuf`.
--
-- Files, by the code they model:
-- Error, Limits, Locator, Number, Handler, Keys: the files of the same name.
-- Exec: methods with `&mut self` that may return `Err`: a function from the state to the result and the
-- state it leaves, on the error path too.
-- Text: what is used of `char`, `str` and `from_utf8`. A string is the list of its bytes.
-- Loopbuf: the `loopbuf` crate, a parameter: its methods are the records `Spans` and `LoopBuf`, its
-- documented behaviour the laws `IsView` and `IsRing`. Float: `f64`, a parameter too.
-- Tokenizer/Machine: the struct `Tokenizer`, and the machine that its methods change: the tokenizer, the
-- locator, the handler's state, the key table and the number of bytes consumed.
-- Tokenizer/Numbers: `NumberState` and the byte loop's step (`start`, `take_digit_run`, `take_digit`,
-- `integer_value`, `real_value`, `decimal_to_f64`). Tokenizer/Escapes: `unhex` to `resolve_escape`.
-- Tokenizer/Strings: `continue_string`, `decode_run`, `scan_plain`. Tokenizer/ObjectKeys: `process_key`,
-- `decode_key`. Tokenizer/Tokens: `process_token` with an action for each of its arms. Tokenizer/Receive:
-- `receive`, `process_whitespace`, `continue_number`, `end_of_input`. Below these stand the modules on what
-- they do: Numbers/{Runs, Bounds, Value, Fraction, Grammar}, Escapes/{Peek, Hex, Decode, Lone, Chunks}, Nesting
-- (the stacks of open containers, by the triples of Tokenizer/Triple), Spaces (the position), Reach (how
-- far the methods consume, and that their loops end) and Delivery (what a handler hears of a string, where
-- Meaning is the text that the bytes stand for, and of a key, in Bare, Plain, Quotes, Reporting and Naming).
-- Keys/{Masks, Slots, Arrays, Table}: the search for a slot, and the table in order.
-- Writer/Encode: escaping and digits; the calls of `Out::put` are a list of byte strings. Writer/Write: the
-- methods of `Writer`; a slice of the scratch array out of bounds is the outcome `panicked`. Writer/{Text,
-- Room, Atomic, Digits} are on the text that they put and on the room that they need.
-- Parser: the struct `Parser`, its methods, and `check_bom`; a method leaves the parser and the caller's ring.
-- Parser/Marks, Feeding, Stream, Lifecycle and Reading: on the byte order mark, on one call of `receive`, on
-- many, on `close`, and on `parse`, whose `Read` source is the record `Reader`.
-- RoundTrip: the writer's escapes as the tokenizer reads them. Tests: rings to run the model on, and the
-- theorems at concrete inputs.
--
-- Machine integers are natural numbers or integers with the wrap-around written out where the code can
-- reach it (the decimal shift, the interning counters, the hash). A length that the writer adds up and that is
-- no `usize` of 64 bits panics, as with overflow checks; without them it would wrap around. A loop over bytes
-- recurs on fuel that is at least the number of bytes left: each round takes a byte. A round of `write_i64`
-- takes two digits, so ten rounds are enough for the twenty digits at most.
--
-- A round of `receive` takes a byte or closes a number: twice the bytes left are enough. Out of fuel the loops
-- of `receive`, of a number and of a string give `out_of_fuel`, an error of no code; what it is that they come to
-- their end is said without fuel, by `Halts` in Tokenizer/Reach/Loops, over the bodies that the loops repeat.
-- `document_length` is a natural number: a `u64` does not run out for bytes that have been in memory.
--
-- Not modelled: the `Display` instances, the default methods of the handler and I/O, whose errors are the
-- caller's (`Reader`).
pub mod Prelude
pub mod Error
pub mod Exec
pub mod Limits
pub mod Locator
pub mod Float
pub mod Number
pub mod Handler
pub mod Loopbuf
pub mod Keys
pub mod Tokenizer
pub mod Writer
mod Tests
pub mod Text
pub mod RoundTrip
pub mod Parser
