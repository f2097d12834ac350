-- ===== src/Tokenizer/ObjectKeys.antt =====
-- Object keys, of src/tokenizer.rs: `process_key`, `decode_key` and `report_key`.
use rjsonparser.Prelude.{
  ℕ, zero, suc, ◌+◌, ◌-◌, Bool, true, false, not, ◌&&◌, ◌||◌, List, [], ◌∷◌, Bytes, ltb, leb, ◌==◌,
  eq_bytes, if◌then◌else◌, Option, none, some,
}
use rjsonparser.Prelude.Int.{pos, ◌+ℤ◌, leb_ℤ, wrap_i32}
use rjsonparser.Error.{ParseError, new, new_number, new_text}
use rjsonparser.Exec.{pure, raise, lift, gets, modify, fail_if, ◌>>=◌, ◌>>◌}
use rjsonparser.Handler.{ContentHandler, key}
use rjsonparser.Keys.{KeySymbolTable, lookup, put, initial_hash, hash_byte, max_key_bytes}
use rjsonparser.Limits.{exceeds}
use rjsonparser.Loopbuf.{Spans}
use rjsonparser.Text.{len_utf8, encode_utf8}
use rjsonparser.Tokenizer.Escapes.{resolve_escape}
use rjsonparser.Tokenizer.Machine.{
  Tokenizer, Env, M, report, update, add_column, consume_to, ensure_chars, free,
  key_intern_disable_threshold,
}
use rjsonparser.Tokenizer.Strings.{utf16_len, scan_plain, malformed_utf8, push_str, decode_run}

-- What the scan for the closing quote finds: that it is not there yet, an error, or its position and
-- whether an escape stands before it.
pub data KeyScan : Type 0 where
  incomplete : KeyScan
  bad_key : ParseError → KeyScan
  closed_at : ℕ → Bool → KeyScan

abbrev key_too_long : Option ℕ → ParseError
key_too_long none = new "Maximum key length exceeded"
key_too_long (some limit) = new_number "Maximum key length exceeded: " limit

-- The escaped byte cannot end the key.
unfoldable pub scan_key : ℕ → Spans → Option ℕ → ℕ → ℕ → Bool → KeyScan
scan_key zero input limit start i has_escape = incomplete
scan_key (suc fuel) input limit start i has_escape =
    let b = input.at i in
    let escaped = scan_key fuel input limit start (i + 2) true in
    let rest = scan_key fuel input limit start (i + 1) has_escape in
    if leb input.len i
    then incomplete
    else if exceeds limit (i - start)
    then bad_key (key_too_long limit)
    else if b == b'"'
    then closed_at i has_escape
    else if b == b'\\'
    then escaped
    else if ltb b 0x20
    then bad_key (new "Unescaped control character in string")
    else rest

abbrev pub contains : List Bytes → Bytes → Bool
contains [] k = false
contains (s ∷ seen) k = eq_bytes s k || contains seen k

abbrev pub fold_hash : ℕ → Bytes → ℕ
fold_hash h [] = h
fold_hash h (b ∷ bs) = fold_hash (hash_byte h b) bs

-- `put` searches a slot for ever only in a full table, which it never lets come about.
abbrev pub stored_in : KeySymbolTable → Option KeySymbolTable → KeySymbolTable
stored_in t none = t
stored_in t (some t') = t'

abbrev pub stop_interning : Tokenizer → Tokenizer
stop_interning t = record t {
  key_intern_disabled =
      if leb_ℤ (pos 0) t.key_intern_hits
        && leb_ℤ t.key_intern_hits (pos 0)
        && leb_ℤ (pos key_intern_disable_threshold) t.key_intern_attempts
      then true
      else t.key_intern_disabled;
}

module _ {H : Type 0} where
  -- `seen.insert`, where the object at the top has a set.
  abbrev pub insert_key : Bool → List (List Bytes) → Bytes → M H (Unit {0})
  insert_key false stack k = pure tt
  insert_key true [] k = pure tt
  insert_key true (seen ∷ stack) k = do
    fail_if (contains seen k) (new_text "Duplicate key: " k)
    update (λ t. record t { duplicate_key_stack = (k ∷ seen) ∷ stack })

  -- `next` goes on from a position with the units so far.
  abbrev pub key_escape : (ℕ → ℕ → M H ℕ) → ℕ → ℕ → Option (ℕ × ℕ) → M H ℕ
  key_escape next p src_units none = raise (new "Incomplete escape sequence in key")
  key_escape next p src_units (some (ch, n)) = do
    room ← gets (λ m. free m.tok)
    fail_if (ltb room (len_utf8 ch)) (new "Object key is longer than the string chunk size")
    push_str (encode_utf8 ch)
    next (p + n) (src_units + n)

  -- The plain bytes at the front: the position behind them and their units.
  abbrev pub key_run : Spans → ℕ → ℕ → M H (ℕ × ℕ)
  key_run input p run_end =
      if ltb p run_end
      then (do
        reached ← decode_run {F = Unit {0}} none input p run_end
        fail_if (ltb reached.0 run_end) malformed_utf8
        pure reached)
      else pure (p, 0)

  unfoldable pub decode_key_loop : ℕ → Spans → ℕ → ℕ → ℕ → M H ℕ
  decode_key_loop zero input end p src_units = pure src_units
  decode_key_loop (suc fuel) input end p src_units =
      if ltb p end
      then (do
        reached ← key_run input p (scan_plain input p end)
        (if leb end reached.0 then pure (src_units + reached.1) else (do
          escape ← lift (resolve_escape input reached.0)
          key_escape (decode_key_loop fuel input end) reached.0 (src_units + reached.1) escape)))
      else pure src_units

  -- The key's length in the source, in UTF-16 units.
  unfoldable pub decode_key : Spans → ℕ → ℕ → M H ℕ
  unfolding decode_key_loop
  decode_key input start end = decode_key_loop (end - start + 1) input end start 0

  abbrev pub put_key : Bytes → ℕ → M H (Unit {0})
  put_key bytes hash =
      modify (λ m. record m { keys = stored_in m.keys (put m.keys bytes hash m.tok.chars) })

module _ {F H : Type 0} where
  unfoldable pub report_key : ContentHandler F H → Bytes → ℕ → M H Bool
  report_key on k src_units = do
    t ← gets (λ m. m.tok)
    insert_key t.reject_duplicate_keys t.duplicate_key_stack k
    add_column (2 + src_units)
    report on (key k)
    pure true

  abbrev pub report_decoded : Env F H → ℕ → ℕ → M H Bool
  report_decoded env end src_units = do
    consume_to (end + 1)
    chars ← gets (λ m. m.tok.chars)
    report_key env.on chars src_units

  -- The key found in the table, or decoded and put there.
  abbrev pub intern : Env F H → ℕ → ℕ → Bytes → ℕ → Option Bytes → M H Bool
  intern env start end bytes hash (some found) = do
    update (λ t. record t { key_intern_hits = wrap_i32 (t.key_intern_hits +ℤ pos 1) })
    consume_to (end + 1)
    report_key env.on found (utf16_len found)
  intern env start end bytes hash none = do
    src_units ← decode_key env.input start end
    put_key bytes hash
    update stop_interning
    report_decoded env end src_units

  abbrev pub with_bytes : Env F H → ℕ → ℕ → Option Bytes → M H Bool
  with_bytes env start end none = do
    src_units ← decode_key env.input start end
    report_decoded env end src_units
  with_bytes env start end (some bytes) = do
    let hash = fold_hash initial_hash bytes
    update (λ t. record t { key_intern_attempts = wrap_i32 (t.key_intern_attempts +ℤ pos 1) })
    keys ← gets (λ m. m.keys)
    intern env start end bytes hash (lookup keys bytes hash)

  abbrev pub closed_key : Env F H → ℕ → KeyScan → M H Bool
  closed_key env start incomplete = pure false
  closed_key env start (bad_key e) = raise e
  closed_key env start (closed_at end has_escape) = do
    ensure_chars
    update (λ t. record t { chars = [] })
    disabled ← gets (λ m. m.tok.key_intern_disabled)
    with_bytes env start end (
        if not has_escape && not disabled && leb (end - start) max_key_bytes
        then env.input.contiguous start end
        else none)

  -- `false` if the closing quote has not arrived.
  unfoldable pub process_key : Env F H → M H Bool
  unfolding scan_key decode_key report_key ensure_chars utf16_len
  process_key env = do
    at ← gets (λ m. m.consumed)
    let start = at + 1
    closed_key env start (
        scan_key (env.input.len - start + 1) env.input env.limits.max_name_length start start false)
