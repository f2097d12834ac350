-- ===== src/Tokenizer/Nesting/Keys.antt =====
-- A key or the start of a string, by `process_key` of src/tokenizer.rs, keeps the nesting.
use rjsonparser.Prelude.{
  ℕ, ◌+◌, ◌-◌, ◌≡◌, refl, sym, ap, ◌∙◌, Bool, true, false, not, ◌&&◌, List, [], ◌∷◌, Bytes, leb,
  ◌==◌, if◌then◌else◌, length, Option, none, some,
}
use rjsonparser.Prelude.Int.{ℤ, pos, ◌+ℤ◌, wrap_i32}
use rjsonparser.Keys.{initial_hash, lookup, max_key_bytes}
use rjsonparser.Error.{new_text}
use rjsonparser.Limits.{ParserLimits}
use rjsonparser.Handler.{ContentHandler, key}
use rjsonparser.Tokenizer.Machine.{State, Tokenizer, Env, update, ensure_chars}
use rjsonparser.Tokenizer.Strings.{utf16_len}
use rjsonparser.Tokenizer.ObjectKeys.{
  KeyScan, incomplete, bad_key, closed_at, scan_key, insert_key, contains, report_key,
  report_decoded, put_key, intern, with_bytes, closed_key, process_key, stop_interning, fold_hash,
}
use rjsonparser.Tokenizer.Triple.{
  gets-Triple, consume_to-Triple, add_column-Triple, Triple, bind-Triple, then-Triple,
  update-Triple, report-Triple, pure-Triple,
}
use rjsonparser.Tokenizer.Nesting.Decoding.{
  Kept, read-Triple, raise-Triple, refuse-Triple, chars-Kept, decode_key-Kept,
}

one_more :
    (limits : ParserLimits) (s : State) (t u : Tokenizer) (seen : List Bytes)
    (stack : List (List Bytes)) (k : Bytes)
    → t.duplicate_key_stack ≡ seen ∷ stack
    → t ≡ u
    → Kept limits s u
    → Kept limits s (record u { duplicate_key_stack = (k ∷ seen) ∷ stack })
one_more limits s t u seen stack k e same (h, at) = (
  record {
    stacked = record {
      mirrors = h.stacked.mirrors;
      bounded = h.stacked.bounded;
      key_sets = λ r.
          ap length (sym e ∙ ap (λ (v : Tokenizer). v.duplicate_key_stack) same)
          ∙ h.stacked.key_sets r;
    };
    state_fits = h.state_fits;
  },
  at,
)

chosen : (P : Tokenizer → Type 0) (b : Bool) (t u : Tokenizer) → P t → P u → P (if b then t else u)
chosen P true t u h k = h
chosen P false t u h k = k

module _ {H : Type 0} (limits : ParserLimits) (s : State) where
  -- The counters of the interning are no part of the nesting.
  intern_counters :
      (f : Tokenizer → ℤ × (ℤ × Bool))
      → Triple {H = H}
          (Kept limits s)
          (update (λ t. record t {
            key_intern_attempts = (f t).0;
            key_intern_hits = (f t).1.0;
            key_intern_disabled = (f t).1.1;
          }))
          (λ _. Kept limits s)
  intern_counters f =
      update-Triple
        (λ t. record t {
          key_intern_attempts = (f t).0;
          key_intern_hits = (f t).1.0;
          key_intern_disabled = (f t).1.1;
        })
        (λ t h. (
          record {
            stacked = record {
              mirrors = h.0.stacked.mirrors;
              bounded = h.0.stacked.bounded;
              key_sets = h.0.stacked.key_sets;
            };
            state_fits = h.0.state_fits;
          },
          h.1,
        ))

  insert_key-Kept :
      (t : Tokenizer) (b : Bool) (stack : List (List Bytes)) (k : Bytes)
      → t.duplicate_key_stack ≡ stack
      → Triple {H = H} (λ u. Kept limits s u × (t ≡ u)) (insert_key b stack k) (λ _. Kept limits s)
  insert_key-Kept t false stack k e = record { run = λ m p. p.0 }
  insert_key-Kept t true [] k e = record { run = λ m p. p.0 }
  insert_key-Kept t true (seen ∷ stack) k e =
      then-Triple (λ u. Kept limits s u × (t ≡ u))
        (refuse-Triple (contains seen k) (new_text "Duplicate key: " k))
        (update-Triple (λ u. record u { duplicate_key_stack = (k ∷ seen) ∷ stack })
          (λ u p. one_more limits s t u seen stack k e p.1 p.0))

  put_key-Kept :
      (bytes : Bytes) (hash : ℕ)
      → Triple {H = H} (Kept limits s) (put_key bytes hash) (λ _. Kept limits s)
  put_key-Kept bytes hash = record { run = λ m p. p }

  pub ensure_chars-Kept : Triple {H = H} (Kept limits s) ensure_chars (λ _. Kept limits s)
  unfolding ensure_chars
  ensure_chars-Kept = record {
    run = λ m p.
        chosen (Kept limits s) (not (m.tok.chars_cap == m.tok.chunk_size))
          (record m.tok { chars = []; chars_cap = m.tok.chunk_size }) m.tok
          (chars-Kept m.tok [] m.tok.chunk_size p) p;
  }

module _ {F H : Type 0} (limits : ParserLimits) (s : State) where
  report_key-Kept :
      (on : ContentHandler F H) (k : Bytes) (src_units : ℕ)
      → Triple {H = H} (Kept limits s) (report_key on k src_units) (λ _. Kept limits s)
  unfolding report_key
  report_key-Kept on k src_units =
      bind-Triple (λ t u. Kept limits s u × (t ≡ u)) gets-Triple
        (λ t.
          then-Triple (Kept limits s)
            (insert_key-Kept limits s t t.reject_duplicate_keys t.duplicate_key_stack k refl)
            (then-Triple (Kept limits s) (add_column-Triple (2 + src_units))
              (then-Triple (Kept limits s) (report-Triple on (key k)) (pure-Triple true))))

  report_decoded-Kept :
      (env : Env F H) (end src_units : ℕ)
      → Triple (Kept limits s) (report_decoded env end src_units) (λ _. Kept limits s)
  report_decoded-Kept env end src_units =
      then-Triple (Kept limits s) (consume_to-Triple (end + 1)) (
        bind-Triple (λ _. Kept limits s) (read-Triple (λ m. m.tok.chars))
          (λ chars. report_key-Kept env.on chars src_units))

  intern-Kept :
      (env : Env F H) (start end : ℕ) (bytes : Bytes) (hash : ℕ) (found : Option Bytes)
      → Triple (Kept limits s) (intern env start end bytes hash found) (λ _. Kept limits s)
  intern-Kept env start end bytes hash (some found) =
      then-Triple (Kept limits s)
        (intern_counters limits s (λ t.
          (t.key_intern_attempts, (wrap_i32 (t.key_intern_hits +ℤ pos 1), t.key_intern_disabled))))
        (then-Triple (Kept limits s) (consume_to-Triple (end + 1))
          (report_key-Kept env.on found (utf16_len found)))
  intern-Kept env start end bytes hash none =
      bind-Triple (λ _. Kept limits s) (decode_key-Kept limits s env.input start end)
        (λ src_units. then-Triple (Kept limits s) (put_key-Kept limits s bytes hash) (
          then-Triple (Kept limits s)
            (intern_counters limits s (λ t.
              (t.key_intern_attempts, (t.key_intern_hits, (stop_interning t).key_intern_disabled))))
            (report_decoded-Kept env end src_units)))

  with_bytes-Kept :
      (env : Env F H) (start end : ℕ) (bytes : Option Bytes)
      → Triple (Kept limits s) (with_bytes env start end bytes) (λ _. Kept limits s)
  with_bytes-Kept env start end none =
      bind-Triple (λ _. Kept limits s) (decode_key-Kept limits s env.input start end)
        (λ src_units. report_decoded-Kept env end src_units)
  with_bytes-Kept env start end (some bytes) =
      then-Triple (Kept limits s)
        (intern_counters limits s (λ t.
          (wrap_i32 (t.key_intern_attempts +ℤ pos 1), (t.key_intern_hits, t.key_intern_disabled))))
        (bind-Triple (λ _. Kept limits s) (read-Triple (λ m. m.keys))
          (λ keys.
            intern-Kept env start end bytes (fold_hash initial_hash bytes)
              (lookup keys bytes (fold_hash initial_hash bytes))))

  closed_key-Kept :
      (env : Env F H) (start : ℕ) (scan : KeyScan)
      → Triple (Kept limits s) (closed_key env start scan) (λ _. Kept limits s)
  closed_key-Kept env start incomplete = pure-Triple false
  closed_key-Kept env start (bad_key e) = raise-Triple e
  closed_key-Kept env start (closed_at end has_escape) =
      then-Triple (Kept limits s) (ensure_chars-Kept limits s) (
        then-Triple (Kept limits s)
          (update-Triple (λ t. record t { chars = [] }) (λ t h. chars-Kept t [] t.chars_cap h))
          (bind-Triple (λ _. Kept limits s) (read-Triple (λ m. m.tok.key_intern_disabled))
            (λ disabled. with_bytes-Kept env start end (
              if not has_escape && not disabled && leb (end - start) max_key_bytes
              then env.input.contiguous start end
              else none))))

  pub process_key-Kept :
      (env : Env F H) → Triple (Kept limits s) (process_key env) (λ _. Kept limits s)
  unfolding process_key
  process_key-Kept env =
      bind-Triple (λ _. Kept limits s) (read-Triple (λ m. m.consumed))
        (λ at. closed_key-Kept env (at + 1) (
          scan_key (env.input.len - (at + 1) + 1) env.input env.limits.max_name_length (at + 1)
            (at + 1) false))
